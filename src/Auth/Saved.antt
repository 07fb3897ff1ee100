-- ===== src/Auth/Saved.antt =====
-- Profiles that are saved, api/models_local_auth.py: which profile is found afterwards.
use django_boilerplate.Prelude.{
  ◌≡◌, ◌≢◌, refl, String, some, List, [], ◌∷◌, arith, ◌==◌, eq_iff, first,
}
use django_boilerplate.Auth.{LocalUserProfile, Db, profile_of, save_profile, put_profile}

-- The saved profile is the one that is found.
find-put :
    (user_id : String) (p q : LocalUserProfile) (ps : List LocalUserProfile)
    → q.user_id ≡ p.user_id
    → first (λ x. x.user_id == user_id) ps ≡ some p
    → first (λ x. x.user_id == user_id) (put_profile q ps) ≡ some q
find-put user_id p q [] same h = ground arith
find-put user_id p q (x ∷ ps) same h = ground (
  arith,
  eq_iff x.user_id user_id,
  eq_iff x.user_id q.user_id,
  eq_iff q.user_id user_id,
  find-put user_id p q ps same,
)

pub profile-save :
    (user_id : String) (p q : LocalUserProfile) (db : Db)
    → q.user_id ≡ p.user_id
    → profile_of user_id db ≡ some p
    → profile_of user_id (save_profile q db) ≡ some q
profile-save user_id p q db same h = find-put user_id p q db.profiles same h

find-put_other :
    (user_id : String) (q : LocalUserProfile) (ps : List LocalUserProfile)
    → q.user_id ≢ user_id
    → first (λ x. x.user_id == user_id) (put_profile q ps) ≡ first (λ x. x.user_id == user_id) ps
find-put_other user_id q [] ne = refl
find-put_other user_id q (x ∷ ps) ne = ground (
  arith,
  eq_iff x.user_id user_id,
  eq_iff x.user_id q.user_id,
  eq_iff q.user_id user_id,
  find-put_other user_id q ps ne,
)

pub profile-save_other :
    (user_id : String) (q : LocalUserProfile) (db : Db)
    → q.user_id ≢ user_id
    → profile_of user_id (save_profile q db) ≡ profile_of user_id db
profile-save_other user_id q db ne = find-put_other user_id q db.profiles ne
