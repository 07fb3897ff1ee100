-- ===== src/Audit/Verify/Sound.antt =====
-- What a log satisfies that `verify_chain_integrity` accepts.
use django_boilerplate.Prelude.{
  ◌+◌, ◌≡◌, ◌≢◌, ◌↔◌, refl, String, Bool, true, false, Option, none, some, List, [], ◌∷◌, ◌++◌,
  arith, ◌==◌, eq_iff, eqb, length, eqb→eq, eq→eqb,
}
use django_boilerplate.Crypto.{Digests}
use django_boilerplate.Audit.{AuditLog, scope, compute_entry_hash, verify_signature}
use django_boilerplate.Audit.Verify.{
  ChainError, Report, order_by_sequence, add_error, check_signature, check_link, check_entry,
  check_entries, verify_chain_integrity,
}

append-ne-nil {ℓ} : {A : Type ℓ} (xs : List A) (x : A) → xs ++ x ∷ [] ≢ []
append-ne-nil [] x e = cc
append-ne-nil (y ∷ xs) x e = cc

add_error_iff :
    (ok : Bool) (error : ChainError) (id : String) (r : Report)
    → ((add_error ok error id r).errors ≡ []) ↔ ((r.errors ≡ []) × (ok ≡ true))
unfolding add_error
add_error_iff true error id r = (λ e. (e, refl), λ h. h.0)
add_error_iff false error id r = (λ e. absurd (append-ne-nil r.errors error e), λ h. cc h.1)

module _ (d : Digests) (key : String) where
  -- `e` follows `p`: it holds the hash of `p` and the next number.
  abbrev pub Follows : Option AuditLog → AuditLog → Type 0
  Follows none e = Unit
  Follows (some p) e =
      (e.previous_hash ≡ compute_entry_hash d p) × (e.sequence_number ≡ p.sequence_number + 1)

  -- Every entry is well signed and follows the one before.
  abbrev pub IsSound : Option AuditLog → List AuditLog → Type 0
  IsSound p [] = Unit
  IsSound p (e ∷ es) = (verify_signature d key e ≡ true) × Follows p e × IsSound (some e) es

  check_link_iff :
      (p : Option AuditLog) (e : AuditLog) (r : Report)
      → ((check_link d key p e r).errors ≡ []) ↔ ((r.errors ≡ []) × Follows p e)
  unfolding check_link
  check_link_iff none e r = (λ h. (h, tt), λ h. h.0)
  check_link_iff (some p) e r = (
    λ h.
        let (inner, number) =
          (add_error_iff (eqb e.sequence_number (p.sequence_number + 1)) _ e.id _).0 h in
        let (before, hash) =
          (add_error_iff (e.previous_hash == compute_entry_hash d p) _ e.id r).0 inner in
        (before, ((eq_iff _ _).0 hash, eqb→eq _ _ number)),
    λ h. (add_error_iff (eqb e.sequence_number (p.sequence_number + 1)) _ e.id _).1 (
      (add_error_iff (e.previous_hash == compute_entry_hash d p) _ e.id r).1
          (h.0, (eq_iff _ _).1 h.1.0),
      eq→eqb _ _ h.1.1,
    ),
  )

  check_entry_iff :
      (p : Option AuditLog) (e : AuditLog) (r : Report)
      → ((check_entry d key p e r).errors ≡ [])
        ↔ ((r.errors ≡ []) × (verify_signature d key e ≡ true) × Follows p e)
  unfolding check_entry check_signature
  check_entry_iff p e r = (
    λ h.
        let (inner, follows) = (check_link_iff p e _).0 h in
        let (before, ok) = (add_error_iff (verify_signature d key e) _ e.id _).0 inner in
        (before, ok, follows),
    λ h.
        (check_link_iff p e _).1
          ((add_error_iff (verify_signature d key e) _ e.id _).1 (h.0, h.1), h.2),
  )

  check_entries_iff :
      (p : Option AuditLog) (es : List AuditLog) (r : Report)
      → ((check_entries d key p es r).errors ≡ []) ↔ ((r.errors ≡ []) × IsSound p es)
  unfolding check_entries
  check_entries_iff p [] r = (λ h. (h, tt), λ h. h.0)
  check_entries_iff p (e ∷ es) r = (
    λ h.
        let (inner, rest) = (check_entries_iff (some e) es _).0 h in
        let (before, ok, follows) = (check_entry_iff p e r).0 inner in
        (before, (ok, follows, rest)),
    λ h. (check_entries_iff (some e) es _).1 ((check_entry_iff p e r).1 (h.0, h.1.0, h.1.1), h.1.2),
  )

  entries_checked-add_error :
      (ok : Bool) (error : ChainError) (id : String) (r : Report)
      → (add_error ok error id r).entries_checked ≡ r.entries_checked
  unfolding add_error
  entries_checked-add_error ok error id r = ground arith

  entries_checked-check_entry :
      (p : Option AuditLog) (e : AuditLog) (r : Report)
      → (check_entry d key p e r).entries_checked ≡ r.entries_checked + 1
  unfolding check_entry check_link check_signature
  entries_checked-check_entry none e r = rw entries_checked-add_error
  entries_checked-check_entry (some p) e r = simp entries_checked-add_error

  -- Every entry is counted, sound or not.
  entries_checked-check_entries :
      (p : Option AuditLog) (es : List AuditLog) (r : Report)
      → (check_entries d key p es r).entries_checked ≡ r.entries_checked + length es
  unfolding check_entries
  entries_checked-check_entries p [] r = omega arith
  entries_checked-check_entries p (e ∷ es) r = omega (
    arith,
    entries_checked-check_entries (some e) es (check_entry d key p e r),
    entries_checked-check_entry p e r,
  )

  -- `result["valid"]`
  abbrev pub Accepts : (start_id end_id org_id : Option String) → List AuditLog → Type 0
  Accepts start_id end_id org_id log =
      (r : Report) × (verify_chain_integrity d key start_id end_id org_id log ≡ some r)
      × (r.errors ≡ [])

  -- The rows that a verification without bounds looks at, in its order.
  abbrev pub checked : Option String → List AuditLog → List AuditLog
  checked org_id log = order_by_sequence (scope org_id log)

  -- A verification without bounds returns a report; the report has no error exactly when every entry
  -- is well signed and each but the first holds the hash of the entry before it and the number after
  -- its number, and it counts every entry.
  pub verify_iff_IsSound :
      (org_id : Option String) (log : List AuditLog)
      → (r : Report) × (verify_chain_integrity d key none none org_id log ≡ some r)
        × ((r.errors ≡ []) ↔ IsSound none (checked org_id log))
        × (r.entries_checked ≡ length (checked org_id log))
  unfolding verify_chain_integrity
  verify_iff_IsSound org_id log = (
    check_entries d key none (checked org_id log)
        (record { broken_at = none; entries_checked = 0; errors = [] }),
    refl,
    (
      λ h. ((check_entries_iff none (checked org_id log) _).0 h).1,
      λ h. (check_entries_iff none (checked org_id log) _).1 (refl, h),
    ),
    omega (arith, entries_checked-check_entries none (checked org_id log)),
  )

  pub IsSound-of_Accepts :
      (org_id : Option String) (log : List AuditLog)
      → Accepts none none org_id log
      → IsSound none (checked org_id log)
  IsSound-of_Accepts org_id log (r, reported, valid) =
      let (r', reported', iff, count) = verify_iff_IsSound org_id log in
      let same : r' ≡ r = cc in iff.0 (rw same valid)

  pub Accepts-of_sound :
      (org_id : Option String) (log : List AuditLog)
      → IsSound none (checked org_id log)
      → Accepts none none org_id log
  Accepts-of_sound org_id log sound =
      let (r, reported, iff, count) = verify_iff_IsSound org_id log in (r, reported, iff.1 sound)
