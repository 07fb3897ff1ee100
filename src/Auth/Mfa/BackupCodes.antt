-- ===== src/Auth/Mfa/BackupCodes.antt =====
-- Backup codes of api/models_mfa.py are used once.
use django_boilerplate.Prelude.{
  ◌≡◌, ◌≢◌, refl, ap, sym, ◌∙◌, ℕ, ◌+◌, ◌≤◌, String, true, false, List, [], ◌∷◌, arith, ◌==◌,
  eq_iff, contains, length, upper, rows,
}
use django_boilerplate.Crypto.{Digests}
use django_boilerplate.Auth.{TotpDevice}
use django_boilerplate.Auth.Mfa.{verify_backup_code, remove, remaining_backup_codes}

-- How often a code is in a list.
abbrev pub copies : String → List String → ℕ
copies code codes = length (rows (λ c. c == code) codes)

contains-copies :
    (code : String) (codes : List String) → contains codes code ≡ true → 1 ≤ copies code codes
contains-copies code [] h = ground arith
contains-copies code (c ∷ codes) h = ground (arith, contains-copies code codes)

contains_of-copies :
    (code : String) (codes : List String) → 1 ≤ copies code codes → contains codes code ≡ true
contains_of-copies code [] h = ground arith
contains_of-copies code (c ∷ codes) h = ground (arith, contains_of-copies code codes)

copies-remove :
    (code : String) (codes : List String)
    → contains codes code ≡ true
    → copies code (remove code codes) + 1 ≡ copies code codes
unfolding remove
copies-remove code [] h = ground arith
copies-remove code (c ∷ codes) h = ground (arith, copies-remove code codes)

copies-remove_other :
    (code other : String) (codes : List String)
    → code ≢ other
    → copies other (remove code codes) ≡ copies other codes
unfolding remove
copies-remove_other code other [] ne = refl
copies-remove_other code other (c ∷ codes) ne =
    ground (arith, eq_iff c code, eq_iff c other, copies-remove_other code other codes ne)

length-remove :
    (code : String) (codes : List String)
    → contains codes code ≡ true
    → length (remove code codes) + 1 ≡ length codes
unfolding remove
length-remove code [] h = ground arith
length-remove code (c ∷ codes) h = ground (arith, length-remove code codes)

contains-same :
    (code : String) (xs ys : List String)
    → copies code xs ≡ copies code ys
    → contains xs code ≡ contains ys code
contains-same code xs ys same = ground (
  arith,
  contains-copies code xs,
  contains-copies code ys,
  contains_of-copies code xs,
  contains_of-copies code ys,
)

gone :
    (code : String) (codes : List String)
    → contains codes code ≡ true
    → copies code codes ≡ 1
    → contains (remove code codes) code ≡ false
gone code codes stored single =
    ground (arith, copies-remove code codes stored, contains-copies code (remove code codes))

module _ (d : Digests) where
  accepts-contains :
      (code : String) (t : TotpDevice)
      → (verify_backup_code d code t).1 ≡ contains t.backup_codes (d.sha256 (upper code))
  unfolding verify_backup_code
  accepts-contains code t = ground arith

  after-remove :
      (code : String) (t : TotpDevice)
      → (verify_backup_code d code t).1 ≡ true
      → (verify_backup_code d code t).0.backup_codes ≡ remove (d.sha256 (upper code)) t.backup_codes
  unfolding verify_backup_code
  after-remove code t h = ground arith

  -- A backup code that is stored once is accepted once: a second time it is refused, there is one
  -- code less, and a code with another digest is accepted afterwards just if it was before.
  pub backup_code_once :
      (code other : String) (t : TotpDevice)
      → copies (d.sha256 (upper code)) t.backup_codes ≡ 1
      → let after = verify_backup_code d code t in
        (after.1 ≡ true)
        × ((verify_backup_code d code after.0).1 ≡ false)
        × (remaining_backup_codes after.0 + 1 ≡ remaining_backup_codes t)
        × (d.sha256 (upper code) ≢ d.sha256 (upper other)
            → (verify_backup_code d other after.0).1 ≡ (verify_backup_code d other t).1)
  unfolding remaining_backup_codes
  backup_code_once code other t single =
      let hash = d.sha256 (upper code) in
      let after = verify_backup_code d code t in
      let stored : contains t.backup_codes hash ≡ true =
        contains_of-copies hash t.backup_codes (omega (arith, single)) in
      let accepted : after.1 ≡ true = accepts-contains code t ∙ stored in
      let removed : after.0.backup_codes ≡ remove hash t.backup_codes =
        after-remove code t accepted in
      (
        accepted,
        accepts-contains code after.0
            ∙ ap (λ xs. contains xs hash) removed
            ∙ gone hash t.backup_codes stored single,
        ap (λ xs. length xs + 1) removed ∙ length-remove hash t.backup_codes stored,
        λ ne.
            accepts-contains other after.0
            ∙ ap (λ xs. contains xs (d.sha256 (upper other))) removed
            ∙ contains-same (d.sha256 (upper other)) (remove hash t.backup_codes) t.backup_codes
                (copies-remove_other hash (d.sha256 (upper other)) t.backup_codes ne)
            ∙ sym (accepts-contains other t),
      )
