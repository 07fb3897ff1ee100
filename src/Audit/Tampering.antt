-- ===== src/Audit/Tampering.antt =====
-- What the signatures do not cover: the order of the entries, their links, and the borders between
-- the fields.
use text.Mathlib.TextLemmas.{append_assoc}
use text.Mathlib.TextPositions.{eq_refl}
use django_boilerplate.Prelude.{
  inr, eq_iff, inl, Bool-cases, ℕ, ◌+◌, ◌≡◌, ◌≢◌, refl, ap, sym, ◌∙◌, String, ◌+++◌, Bool, true,
  not, ◌&&◌, Option, none, some, List, [], ◌∷◌, arith, ◌==◌, rows, All, eq-false_of_ne, ◌≤◌,
  if◌then◌else◌,
}
use django_boilerplate.Crypto.{Digests}
use django_boilerplate.Audit.{
  sign_audit_entry, AuditLog, scope, content, compute_entry_hash, hash_of, verify_signature,
  sign_and_save, save, get_next_sequence_number, sequence_of, highest, is_in_org, signed, bar,
  or_blank,
}
use django_boilerplate.Audit.Verify.{order_by_sequence, insert_by_sequence}
use django_boilerplate.Audit.Verify.Sound.{
  IsSound, Accepts, checked, IsSound-of_Accepts, Accepts-of_sound,
}
use django_boilerplate.Audit.Chain.{
  Entry, save_all, Next, IsChain, IsSound-of_chain, order-of_chain, scope-some,
}

-- New numbers and links for a list of entries; it takes no key.
module _ (d : Digests) where
  unfoldable pub relink : Option AuditLog → ℕ → List AuditLog → List AuditLog
  unfolding hash_of
  relink p n [] = []
  relink p n (e ∷ es) =
      let e' = record e { previous_hash = hash_of d p; sequence_number = n } in
      e' ∷ relink (some e') (n + 1) es

bar_assoc : (a b rest : String) → bar (a +++ ("|" +++ b)) rest ≡ bar a (bar b rest)
bar_assoc a b rest =
    rw (append_assoc a ("|" +++ b) ("|" +++ rest), append_assoc "|" b ("|" +++ rest))

module _ (d : Digests) (key : String) where
  abbrev IsSigned : AuditLog → Type 0
  IsSigned e = verify_signature d key e ≡ true

  verify-relinked :
      (e : AuditLog) (hash : String) (n : ℕ)
      → verify_signature d key (record e { previous_hash = hash; sequence_number = n })
        ≡ verify_signature d key e
  unfolding verify_signature compute_entry_hash content
  verify-relinked e hash n = refl

  abbrev Numbered : Option AuditLog → ℕ → Type 0
  Numbered none n = n ≡ 1
  Numbered (some p) n = n ≡ p.sequence_number + 1

  Next-relinked :
      (p : Option AuditLog) (n : ℕ) (e : AuditLog)
      → Numbered p n
      → Next d key p (record e { previous_hash = hash_of d p; sequence_number = n })
  unfolding hash_of
  Next-relinked none n e h = (refl, h)
  Next-relinked (some p) n e h = (refl, h)

  relink-IsChain :
      (p : Option AuditLog) (n : ℕ) (es : List AuditLog)
      → Numbered p n
      → All IsSigned es
      → IsChain d key p (relink d p n es)
  unfolding relink
  relink-IsChain p n [] numbered signed = tt
  relink-IsChain p n (e ∷ es) numbered (ok, signed) = (
    rw verify-relinked ok,
    Next-relinked p n e numbered,
    relink-IsChain (some (record e { previous_hash = hash_of d p; sequence_number = n })) (n + 1) es
        refl signed,
  )

  All-rows :
      (keep : AuditLog → Bool) (es : List AuditLog) → All IsSigned es → All IsSigned (rows keep es)
  All-rows keep [] signed = tt
  All-rows keep (e ∷ es) (ok, signed) = ground (arith, All-rows keep es signed)

  IsSound-IsSigned :
      (p : Option AuditLog) (es : List AuditLog) → IsSound d key p es → All IsSigned es
  IsSound-IsSigned p [] s = tt
  IsSound-IsSigned p (e ∷ es) (ok, follows, s) = (ok, IsSound-IsSigned (some e) es s)

  scope-none : (log : List AuditLog) → scope none log ≡ log
  unfolding scope
  scope-none log = refl

  -- From the entries of an accepted verification any may be dropped: with new numbers and links, which
  -- are made without the key, those that are left are accepted as a whole log.
  pub relinked_log_accepted :
      (org_id : Option String) (log : List AuditLog) (keep : AuditLog → Bool)
      → Accepts d key none none org_id log
      → Accepts d key none none none (relink d none 1 (rows keep (checked d key org_id log)))
  relinked_log_accepted org_id log keep accepted =
      let kept = rows keep (checked d key org_id log) in
      let forged = relink d none 1 kept in
      let c : IsChain d key none forged = relink-IsChain none 1 kept refl (
        All-rows keep (checked d key org_id log) (
          IsSound-IsSigned none (checked d key org_id log)
            (IsSound-of_Accepts d key org_id log accepted))) in
      Accepts-of_sound d key none forged (
        rw (scope-none forged, order-of_chain d key none forged c)
          (IsSound-of_chain d key none forged c))

  content-shifted :
      (e : AuditLog) (a b c : String)
      → content (record e { resource_type = a +++ ("|" +++ b); resource_id = c })
        ≡ content (record e { resource_type = a; resource_id = b +++ ("|" +++ c) })
  unfolding content
  content-shifted e a b c =
      let rest = bar e.action (bar e.changes e.nonce) in
      ap (λ t. bar e.id (bar e.timestamp (bar e.actor_id (bar (or_blank e.org_id) t))))
        (bar_assoc a b (bar c rest) ∙ sym (ap (bar a) (bar_assoc b c rest)))

  verify_same :
      (e f : AuditLog)
      → content e ≡ content f
      → e.signature ≡ f.signature
      → verify_signature d key e ≡ verify_signature d key f
  unfolding verify_signature compute_entry_hash
  verify_same e f same signature = λ i.
      not (signature i == "")
      && signature i == (if key == "" then "" else d.hmac_sha256 key (d.sha256 (same i)))

  -- A "|" between two fields is not told from a "|" inside one: moving the text behind it from the
  -- resource type to the front of the resource id leaves the entry's signature valid.
  pub shifted_fields_verify :
      (e : AuditLog) (a b c : String)
      → verify_signature d key (record e { resource_type = a +++ ("|" +++ b); resource_id = c })
        ≡ verify_signature d key (record e { resource_type = a; resource_id = b +++ ("|" +++ c) })
  shifted_fields_verify e a b c = verify_same _ _ (content-shifted e a b c) refl

  first_number :
      (nonce : String) (e : AuditLog) (log : List AuditLog) (org : String)
      → e.org_id ≡ some org
      → rows (is_in_org org) log ≡ []
      → org ≢ ""
      → (sign_and_save d key nonce log e).sequence_number ≡ 1
  unfolding sign_and_save signed get_next_sequence_number sequence_of highest
  first_number nonce e log org own fresh named = rw (own, scope-some d key org log named, fresh)

  order_pair :
      (e f : AuditLog)
      → e.sequence_number ≤ f.sequence_number
      → order_by_sequence (e ∷ f ∷ []) ≡ e ∷ f ∷ []
  unfolding order_by_sequence insert_by_sequence
  order_pair e f le = ground arith

  not_in_org :
      (a b : String) (e : AuditLog) → e.org_id ≡ some a → a ≢ b → rows (is_in_org b) (e ∷ []) ≡ []
  unfolding is_in_org
  not_in_org a b e own ne = rw (own, eq-false_of_ne a b ne)

  second_number :
      (e f : AuditLog) → IsSound d key none (e ∷ f ∷ []) → f.sequence_number ≡ e.sequence_number + 1
  second_number e f s = s.2.1.1

  -- Entries of two organisations, saved to an empty log by the code itself, are not accepted by a
  -- verification without an organisation: both have number 1.
  pub two_orgs_rejected :
      (one two : Entry) (a b : String)
      → one.entry.org_id ≡ some a
      → two.entry.org_id ≡ some b
      → a ≢ ""
      → b ≢ ""
      → a ≢ b
      → ¬ Accepts d key none none none (save_all d key (one ∷ two ∷ []) [])
  two_orgs_rejected one two a b org_a org_b named_a named_b ne accepted =
      let e = record (sign_and_save d key one.nonce [] one.entry) { timestamp = one.inserted_at } in
      let f = record (sign_and_save d key two.nonce (e ∷ []) two.entry) {
        timestamp = two.inserted_at;
      } in
      let number_e : e.sequence_number ≡ 1 =
        first_number one.nonce one.entry [] a org_a refl named_a in
      let number_f : f.sequence_number ≡ 1 =
        first_number two.nonce two.entry (e ∷ []) b org_b
          (not_in_org a b e (unfold sign_and_save signed in org_a) ne) named_b in
      let sound : IsSound d key none (checked d key none (e ∷ f ∷ [])) =
        IsSound-of_Accepts d key none (e ∷ f ∷ []) (unfold save_all save in accepted) in
      let pair : IsSound d key none (e ∷ f ∷ []) =
        rw (scope-none (e ∷ f ∷ []), order_pair e f (omega arith)) at sound in
      absurd (omega (arith, second_number e f pair))

  -- A signature of another content.
  other_signed :
      (e f : AuditLog)
      → f.signature ≡ sign_audit_entry d key e
      → verify_signature d key f ≡ true
      → d.hmac_sha256 key (compute_entry_hash d e) ≢ d.hmac_sha256 key (compute_entry_hash d f)
      → ⊥
  unfolding verify_signature sign_audit_entry
  other_signed e f same ok differ =
      let g = d.hmac_sha256 key (compute_entry_hash d e) in
      let g' = d.hmac_sha256 key (compute_entry_hash d f) in
      elim (Bool-cases (key == "")) [
        | inl empty ↦ ground (arith, empty, same, ok, eq_iff f.signature "")
        | inr keyed ↦
            ground (arith, keyed, same, ok, differ, eq_iff f.signature g', eq_iff f.signature g)
      ]

  in_own :
      (org : String) (e : AuditLog)
      → e.org_id ≡ some org
      → order_by_sequence (rows (is_in_org org) (e ∷ [])) ≡ e ∷ []
  unfolding is_in_org order_by_sequence insert_by_sequence
  in_own org e own = rw (own, eq_refl) refl

  -- An entry is inserted at another time than the one that was signed with it, and the key's digest
  -- tells the two apart. Then the log that consists of it is not accepted.
  pub restamped_rejected :
      (one : Entry) (org : String)
      → one.entry.org_id ≡ some org
      → org ≢ ""
      → d.hmac_sha256 key (compute_entry_hash d (sign_and_save d key one.nonce [] one.entry))
        ≢ d.hmac_sha256 key (
            compute_entry_hash d
              (record (sign_and_save d key one.nonce [] one.entry) { timestamp = one.inserted_at }))
      → ¬ Accepts d key none none (some org) (save_all d key (one ∷ []) [])
  restamped_rejected one org own named differ accepted =
      let e = record (sign_and_save d key one.nonce [] one.entry) { timestamp = one.inserted_at } in
      let sound : IsSound d key none (checked d key (some org) (e ∷ [])) =
        IsSound-of_Accepts d key (some org) (e ∷ []) (unfold save_all save in accepted) in
      let alone : IsSound d key none (e ∷ []) =
        rw (scope-some d key org (e ∷ []) named, in_own org e (unfold sign_and_save signed in own))
          at sound in
      other_signed (sign_and_save d key one.nonce [] one.entry) e
        (unfold sign_and_save signed sign_audit_entry compute_entry_hash content in refl) alone.0
        differ
