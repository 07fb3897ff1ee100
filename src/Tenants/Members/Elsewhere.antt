-- ===== src/Tenants/Members/Elsewhere.antt =====
-- The requests on members of an organisation touch no row of another.
use django_boilerplate.Prelude.{
  ◌≡◌, refl, String, false, not, Option, none, some, List, [], ◌∷◌, eq_iff, arith, rows, All,
}
use django_boilerplate.Rows.{foreign-append, foreign-rows}
use django_boilerplate.Tenants.{Invalid, Membership, Database}
use django_boilerplate.Tenants.Isolated.{SameElsewhere, SameElsewhere-refl}
use django_boilerplate.Tenants.Members.{
  MembershipAttrs, create_error, add_member, unless_invalid, new_membership, is_member,
  remove_found, remove_member,
}

module _ (org : String) (db : Database) where
  created-SameElsewhere :
      (e : Option Invalid) (a : MembershipAttrs) (id : String)
      → a.org ≡ org
      → SameElsewhere org db (unless_invalid e a id db).1
  unfolding unless_invalid
  created-SameElsewhere none a id same = record {
    users = refl;
    orgs = refl;
    divisions = refl;
    teams = refl;
    memberships =
        foreign-append (λ m. m.id) (λ m. m.org_id) org (new_membership a id) db.memberships same;
  }
  created-SameElsewhere (some e) a id same = SameElsewhere-refl org db

  pub add_member-SameElsewhere :
      (a : MembershipAttrs) (id : String)
      → a.org ≡ org
      → SameElsewhere org db (add_member a id db).1
  unfolding add_member
  add_member-SameElsewhere a id = created-SameElsewhere (create_error db a) a id

  members_of :
      (user : String) (ms : List Membership)
      → All (λ m. not (is_member org user m) ≡ false → m.org_id ≡ org) ms
  members_of user [] = tt
  members_of user (m ∷ ms) =
      (λ gone. (eq_iff m.org_id org).0 (ground (arith, gone)), members_of user ms)

  removed-SameElsewhere :
      (ms : List Membership) (user : String) → SameElsewhere org db (remove_found ms org user db).1
  unfolding remove_found
  removed-SameElsewhere [] user = SameElsewhere-refl org db
  removed-SameElsewhere (m ∷ ms) user = record {
    users = refl;
    orgs = refl;
    divisions = refl;
    teams = refl;
    memberships =
        foreign-rows (λ x. x.id) (λ x. x.org_id) org _ db.memberships
          (members_of user db.memberships);
  }

  pub remove_member-SameElsewhere :
      (user : String) → SameElsewhere org db (remove_member org user db).1
  unfolding remove_member
  remove_member-SameElsewhere user =
      removed-SameElsewhere (rows (is_member org user) db.memberships) user
