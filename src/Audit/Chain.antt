-- ===== src/Audit/Chain.antt =====
-- A log that is only written through `AuditLog.save` is a chain for each organisation.
use django_boilerplate.Prelude.{
  All, subst, ◌+◌, ◌≡◌, ◌≢◌, refl, sym, ◌∙◌, ap, String, true, false, Bool-cases, inl, inr, Option,
  none, some, List, [], ◌∷◌, ◌++◌, arith, ◌==◌, rows, rows-append, eq-false_of_ne, eq_of_eq-true,
}
use mathlib.Core.List.{append-nil}
use text.Mathlib.TextPositions.{eq_refl}
use django_boilerplate.Crypto.{Digests}
use django_boilerplate.Audit.{
  AuditLog, scope, is_in_org, highest, later_of, hash_of, sequence_of, content, compute_entry_hash,
  verify_signature, signed, get_previous_hash, get_next_sequence_number, sign_and_save, save,
}
use django_boilerplate.Audit.Verify.{order_by_sequence, insert_by_sequence}
use django_boilerplate.Audit.Verify.Sound.{Follows, IsSound, Accepts, checked, verify_iff_IsSound}

-- A call of `save`: the nonce that is drawn, the time of the insertion, and the entry.
pub record Entry : Type 0 where
  pub nonce : String
  pub inserted_at : String
  pub entry : AuditLog

-- The entry is inserted at the time that was signed.
abbrev pub IsAtOnce : Entry → Type 0
IsAtOnce e = e.inserted_at ≡ e.entry.timestamp

module _ (d : Digests) (key : String) where
  unfoldable pub save_all : List Entry → List AuditLog → List AuditLog
  save_all [] log = log
  save_all (e ∷ es) log = save_all es (save d key e.nonce e.inserted_at e.entry log)

  -- The entry after `p` in a chain from its genesis: the first has number 1 and no hash.
  abbrev pub Next : Option AuditLog → AuditLog → Type 0
  Next none e = (e.previous_hash ≡ "") × (e.sequence_number ≡ 1)
  Next (some p) e = Follows d key (some p) e

  abbrev pub IsChain : Option AuditLog → List AuditLog → Type 0
  IsChain p [] = Unit
  IsChain p (e ∷ es) = (verify_signature d key e ≡ true) × Next p e × IsChain (some e) es

  abbrev last : Option AuditLog → List AuditLog → Option AuditLog
  last p [] = p
  last p (e ∷ es) = last (some e) es

  IsChain-concat :
      (p : Option AuditLog) (es : List AuditLog) (e : AuditLog)
      → IsChain p es
      → verify_signature d key e ≡ true
      → Next (last p es) e
      → IsChain p (es ++ e ∷ [])
  IsChain-concat p [] e c ok next = (ok, next, tt)
  IsChain-concat p (x ∷ es) e (ok', next', c) ok next =
      (ok', next', IsChain-concat (some x) es e c ok next)

  pub IsSound-of_chain :
      (p : Option AuditLog) (es : List AuditLog) → IsChain p es → IsSound d key p es
  IsSound-of_chain p [] c = tt
  IsSound-of_chain none (e ∷ es) (ok, next, c) = (ok, tt, IsSound-of_chain (some e) es c)
  IsSound-of_chain (some p) (e ∷ es) (ok, next, c) = (ok, next, IsSound-of_chain (some e) es c)

  -- The row with the highest number, beside one more row.
  abbrev over : AuditLog → Option AuditLog → Option AuditLog
  over x none = some x
  over x (some f) = some (later_of x f)

  highest-cons : (x : AuditLog) (es : List AuditLog) → highest (x ∷ es) ≡ over x (highest es)
  unfolding highest
  highest-cons x es = ground arith

  over-over :
      (x y : AuditLog) (o : Option AuditLog)
      → y.sequence_number ≡ x.sequence_number + 1
      → over y o ≡ over x (over y o)
  over-over x y none h = ground arith
  over-over x y (some f) h = ground arith

  -- In a chain the last row is the one with the highest number.
  last-eq-highest :
      (x : AuditLog) (es : List AuditLog)
      → IsChain (some x) es
      → last (some x) es ≡ over x (highest es)
  last-eq-highest x [] c = unfold highest in refl
  last-eq-highest x (y ∷ es) (ok, next, c) =
      last-eq-highest y es c
      ∙ over-over x y (highest es) next.1
      ∙ ap (over x) (sym (highest-cons y es))

  last-eq-highest-none : (es : List AuditLog) → IsChain none es → last none es ≡ highest es
  last-eq-highest-none [] c = unfold highest in refl
  last-eq-highest-none (x ∷ es) (ok, next, c) = last-eq-highest x es c ∙ sym (highest-cons x es)

  -- A chain is in the order of its numbers.
  insert-of_chain :
      (x : AuditLog) (es : List AuditLog) → IsChain (some x) es → insert_by_sequence x es ≡ x ∷ es
  unfolding insert_by_sequence
  insert-of_chain x [] c = refl
  insert-of_chain x (y ∷ es) (ok, next, c) = ground arith

  pub order-of_chain :
      (p : Option AuditLog) (es : List AuditLog) → IsChain p es → order_by_sequence es ≡ es
  unfolding order_by_sequence
  order-of_chain p [] c = refl
  order-of_chain p (x ∷ es) (ok, next, c) =
      ap (insert_by_sequence x) (order-of_chain (some x) es c) ∙ insert-of_chain x es c

  Next-of_highest :
      (o : Option AuditLog) (e : AuditLog)
      → e.previous_hash ≡ hash_of d o
      → e.sequence_number ≡ sequence_of o + 1
      → Next o e
  unfolding hash_of sequence_of
  Next-of_highest none e hash number = (hash, omega arith)
  Next-of_highest (some p) e hash number = (hash, number)

  -- What is signed verifies: the signature is not part of what it signs.
  verify-signed : (e : AuditLog) → key ≢ "" → verify_signature d key (signed d key e) ≡ true
  unfolding verify_signature signed compute_entry_hash content
  verify-signed e ne =
      let hash = d.sha256 (content e) in
      rw (
        eq-false_of_ne key "" ne,
        eq-false_of_ne (d.hmac_sha256 key hash) "" (d.hmac-ne-empty key hash),
        eq_refl,
      )

  pub scope-some :
      (org : String) (log : List AuditLog)
      → org ≢ ""
      → scope (some org) log ≡ rows (is_in_org org) log
  unfolding scope
  scope-some org log ne = rw (eq-false_of_ne org "" ne)

module _ (d : Digests) (key : String) (keyed : key ≢ "") (org : String) (named : org ≢ "") where
  abbrev OrgIsChain : List AuditLog → Type 0
  OrgIsChain log = IsChain d key none (rows (is_in_org org) log)

  -- An entry of the organisation extends its chain.
  save-own :
      (nonce : String) (e : AuditLog) (log : List AuditLog)
      → e.org_id ≡ some org
      → OrgIsChain log
      → IsChain d key none (rows (is_in_org org) log ++ sign_and_save d key nonce log e ∷ [])
  unfolding sign_and_save
  save-own nonce e log own c =
      IsChain-concat d key none (rows (is_in_org org) log) _ c (verify-signed d key _ keyed) (
        rw (last-eq-highest-none d key (rows (is_in_org org) log) c) (
          Next-of_highest d key (highest (rows (is_in_org org) log)) _
            (unfold signed get_previous_hash in rw (own, scope-some d key org log named))
            (unfold signed get_next_sequence_number in rw (own, scope-some d key org log named))))

  is_in_org-signed :
      (nonce : String) (log : List AuditLog) (e : AuditLog)
      → is_in_org org (sign_and_save d key nonce log e) ≡ is_in_org org e
  unfolding sign_and_save is_in_org
  is_in_org-signed nonce log e = refl

  org_id-of_in_org : (e : AuditLog) → is_in_org org e ≡ true → e.org_id ≡ some org
  unfolding is_in_org
  org_id-of_in_org e h = of_option e.org_id h
    where
      of_option :
          (o : Option String) → (elim o [ none ↦ false | some x ↦ x == org ]) ≡ true → o ≡ some org
      of_option none h = cc
      of_option (some x) h = ap some (eq_of_eq-true x org h)

  save-OrgIsChain :
      (nonce : String) (e : AuditLog) (log : List AuditLog)
      → OrgIsChain log
      → OrgIsChain (log ++ sign_and_save d key nonce log e ∷ [])
  save-OrgIsChain nonce e log c =
      rw (rows-append, is_in_org-signed)
        (elim (Bool-cases (is_in_org org e)) [
          | inl own ↦ rw own (save-own nonce e log (org_id-of_in_org e own) c)
          | inr other ↦ rw other (rw append-nil c)
        ])

  save-signed :
      (nonce inserted_at : String) (e : AuditLog) (log : List AuditLog)
      → inserted_at ≡ e.timestamp
      → save d key nonce inserted_at e log ≡ log ++ sign_and_save d key nonce log e ∷ []
  unfolding save sign_and_save signed
  save-signed nonce inserted_at e log same =
      ap (λ t. log ++ record (sign_and_save d key nonce log e) { timestamp = t } ∷ []) same

  save_all-OrgIsChain :
      (es : List Entry) (log : List AuditLog)
      → All IsAtOnce es
      → OrgIsChain log
      → OrgIsChain (save_all d key es log)
  unfolding save_all
  save_all-OrgIsChain [] log at_once c = c
  save_all-OrgIsChain (e ∷ es) log (same, at_once) c = save_all-OrgIsChain es _ at_once (
      subst OrgIsChain (sym (save-signed e.nonce e.inserted_at e.entry log same))
        (save-OrgIsChain e.nonce e.entry log c))

  -- Entries of any organisations are saved, one after the other, to an empty log, with a signing key, and
  -- each is inserted at the time that it was signed with. A verification of one organisation,
  -- without bounds, then accepts.
  pub saved_log_accepted :
      (es : List Entry)
      → All IsAtOnce es
      → Accepts d key none none (some org) (save_all d key es [])
  saved_log_accepted es at_once =
      let log = save_all d key es [] in
      let c : OrgIsChain log = save_all-OrgIsChain es [] at_once tt in
      let sound : IsSound d key none (checked d key (some org) log) =
        rw (scope-some d key org log named, order-of_chain d key none (rows (is_in_org org) log) c)
          (IsSound-of_chain d key none (rows (is_in_org org) log) c) in
      let (r, reported, valid, count) = verify_iff_IsSound d key (some org) log in
      (r, reported, valid.1 sound)
