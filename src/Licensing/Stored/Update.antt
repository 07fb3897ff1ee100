-- ===== src/Licensing/Stored/Update.antt =====
-- What is read after an update of a license.
use django_boilerplate.Prelude.{
  ◌≤◌, ◌≡◌, refl, ap, sym, ◌∙◌, String, Bool, true, false, Bool-cases, inl, inr, some, List, [],
  ◌∷◌, ◌++◌, arith, eq_iff, rows, rows-append, length, if◌then◌else◌, if-true, if-false, Instant,
}
use django_boilerplate.Licensing.Stored.{
  Value, Setting, is_org_setting, newest, value_or, new_setting, set_value, update_found,
  update_or_create,
}

append-nil : (ss : List Setting) → ss ++ [] ≡ ss
append-nil [] = refl
append-nil (s ∷ ss) = ap (λ xs. s ∷ xs) (append-nil ss)

module _ (org_id key : String) (value : Value) (now : Instant) where
  set_all : List Setting → List Setting
  set_all [] = []
  set_all (s ∷ ss) = record s { value = value } ∷ set_all ss

  rows-set_value :
      (ss : List Setting)
      → rows (is_org_setting org_id key) (set_value org_id key value ss)
        ≡ set_all (rows (is_org_setting org_id key) ss)
  unfolding set_value set_all
  rows-set_value [] = refl
  rows-set_value (s ∷ ss) =
      let t = is_org_setting org_id key in
      let rest = set_value org_id key value ss in
      elim (Bool-cases (t s)) [
        | inl own ↦
            ap (λ x. rows t (x ∷ rest)) (if-true (t s) (record s { value = value }) s own)
            ∙ if-true (t s) (record s { value = value } ∷ rows t rest) (rows t rest) own
            ∙ ap (λ xs. record s { value = value } ∷ xs) (rows-set_value ss)
            ∙ sym (ap set_all (if-true (t s) (s ∷ rows t ss) (rows t ss) own))
        | inr other ↦
            ap (λ x. rows t (x ∷ rest)) (if-false (t s) (record s { value = value }) s other)
            ∙ if-false (t s) (s ∷ rows t rest) (rows t rest) other
            ∙ rows-set_value ss
            ∙ sym (ap set_all (if-false (t s) (s ∷ rows t ss) (rows t ss) other))
      ]

  -- A test that the update does not concern.
  pub record IsApart (p : Setting → Bool) : Type 0 where
    pub no_value : (s : Setting) → p (record s { value = value }) ≡ p s
    pub apart : (s : Setting) → is_org_setting org_id key s ≡ true → p s ≡ false

  rows-set_apart :
      (p : Setting → Bool) (ss : List Setting)
      → IsApart p
      → rows p (set_value org_id key value ss) ≡ rows p ss
  unfolding set_value
  rows-set_apart p [] a = refl
  rows-set_apart p (s ∷ ss) a =
      let t = is_org_setting org_id key in
      let rest = set_value org_id key value ss in
      elim (Bool-cases (t s)) [
        | inl own ↦
            ap (λ x. rows p (x ∷ rest)) (if-true (t s) (record s { value = value }) s own)
            ∙ if-false (p (record s { value = value })) (record s { value = value } ∷ rows p rest)
                (rows p rest) (a.no_value s ∙ a.apart s own)
            ∙ rows-set_apart p ss a
            ∙ sym (if-false (p s) (s ∷ rows p ss) (rows p ss) (a.apart s own))
        | inr other ↦
            ap (λ x. rows p (x ∷ rest)) (if-false (t s) (record s { value = value }) s other)
            ∙ ap (λ xs. if p s then s ∷ xs else xs) (rows-set_apart p ss a)
      ]

  own_setting : is_org_setting org_id key (new_setting org_id key value now) ≡ true
  own_setting = ground (arith, eq_iff org_id org_id, eq_iff key key)

  rows-new_apart :
      (p : Setting → Bool) (ss : List Setting)
      → IsApart p
      → rows p (ss ++ new_setting org_id key value now ∷ []) ≡ rows p ss
  rows-new_apart p ss a =
      rows-append p ss (new_setting org_id key value now ∷ [])
      ∙ ap (λ xs. rows p ss ++ xs)
          (if-false (p (new_setting org_id key value now)) _ _
            (a.apart (new_setting org_id key value now) own_setting))
      ∙ append-nil (rows p ss)

  -- What an update gives.
  pub record IsUpdate (ss ss' : List Setting) : Type 1 where
    pub read_back :
        (default : Value) → value_or (newest (rows (is_org_setting org_id key) ss')) default ≡ value
    pub single : length (rows (is_org_setting org_id key) ss') ≡ 1
    pub others : (p : Setting → Bool) → IsApart p → rows p ss' ≡ rows p ss

  IsUpdate-found :
      (found : List Setting) (ss : List Setting)
      → rows (is_org_setting org_id key) ss ≡ found
      → length found ≤ 1
      → (ss' : List Setting) × (update_found found org_id key value now ss ≡ some ss')
        × IsUpdate ss ss'
  unfolding update_found newest set_all
  IsUpdate-found [] ss e le =
      let new = new_setting org_id key value now in
      let t = is_org_setting org_id key in
      let after : rows t (ss ++ new ∷ []) ≡ new ∷ [] =
        rows-append t ss (new ∷ [])
        ∙ ap (λ xs. xs ++ rows t (new ∷ [])) e
        ∙ if-true (t new) (new ∷ []) [] own_setting in
      (
        ss ++ new ∷ [],
        refl,
        record {
          read_back = λ default. ap (λ xs. value_or (newest xs) default) after;
          single = ap length after;
          others = λ p a. rows-new_apart p ss a;
        },
      )
  IsUpdate-found (s ∷ []) ss e le =
      let t = is_org_setting org_id key in
      let after : rows t (set_value org_id key value ss) ≡ record s { value = value } ∷ [] =
        rows-set_value ss ∙ ap set_all e in
      (
        set_value org_id key value ss,
        refl,
        record {
          read_back = λ default. ap (λ xs. value_or (newest xs) default) after;
          single = ap length after;
          others = λ p a. rows-set_apart p ss a;
        },
      )
  IsUpdate-found (s ∷ u ∷ found) ss e le = absurd (omega (arith, le))

  pub updated :
      (ss : List Setting)
      → length (rows (is_org_setting org_id key) ss) ≤ 1
      → (ss' : List Setting) × (update_or_create org_id key value now ss ≡ some ss')
        × IsUpdate ss ss'
  unfolding update_or_create
  updated ss le = IsUpdate-found (rows (is_org_setting org_id key) ss) ss refl le
