-- ===== src/Audit/Entries/Hidden.antt =====
-- What an entry shows of an actor's email.
use django_boilerplate.Prelude.{
  ◌<◌, ◌≡◌, ◌≢◌, refl, ap, sym, ◌∙◌, String, ◌+++◌, false, some, List, ◌==◌, leb, arith, take_text,
  if-false, eq-false_of_ne,
}
use Prim.Native.String
use django_boilerplate.Crypto.{Digests}
use django_boilerplate.Audit.{AuditLog, save}
use django_boilerplate.Audit.Entries.{
  last_text, mask_pii, handle_pii, Context, Event, Draws, handled_email, entry_of, log_audit,
}

-- Two emails that look alike when they are masked.
pub record LookAlike (a b : String) : Type 0 where
  pub long_a : 4 < String.count a
  pub long_b : 4 < String.count b
  pub start : take_text 2 a ≡ take_text 2 b
  pub end : last_text 2 a ≡ last_text 2 b

mask-long :
    (a : String) → 4 < String.count a → mask_pii a ≡ take_text 2 a +++ ("***" +++ last_text 2 a)
unfolding mask_pii
mask-long a long = if-false (leb (String.count a) 4) _ _ (ground (arith, long))

mask-alike : (a b : String) → LookAlike a b → mask_pii a ≡ mask_pii b
mask-alike a b h =
    mask-long a h.long_a ∙ (λ i. h.start i +++ ("***" +++ h.end i)) ∙ sym (mask-long b h.long_b)

long-ne-empty : (a : String) → 4 < String.count a → (a == "") ≡ false
long-ne-empty a long = eq-false_of_ne a "" (λ e. absurd (omega (arith, long, ap String.count e)))

handled-alike :
    (d : Digests) (policy a b : String)
    → policy ≢ "hash"
    → LookAlike a b
    → handled_email d policy (some a) ≡ handled_email d policy (some b)
unfolding handled_email handle_pii
handled-alike d policy a b no_hash h =
    rw
      (
        long-ne-empty a h.long_a,
        long-ne-empty b h.long_b,
        eq-false_of_ne policy "hash" no_hash,
        mask-alike a b h,
      )
      refl

-- The policy on personal data is not the one that stores digests. Then `log_audit` writes the same log for
-- two emails of an actor that have more than four characters and the same first two and last two: the log
-- shows nothing else of an email, also where the policy is none that is known.
pub email_hidden :
    (d : Digests) (key policy : String) (context : Context) (e : Event) (draws : Draws)
    (log : List AuditLog) (a b : String)
    → policy ≢ "hash"
    → LookAlike a b
    → log_audit d key policy context (record e { actor_email = some a }) draws log
      ≡ log_audit d key policy context (record e { actor_email = some b }) draws log
unfolding log_audit entry_of
email_hidden d key policy context e draws log a b no_hash h =
    ap
      (λ m.
        save d key draws.nonce draws.inserted_at
          (record (entry_of d policy context e draws) { actor_email = m }) log)
      (handled-alike d policy a b no_hash h)
