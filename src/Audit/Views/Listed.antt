-- ===== src/Audit/Views/Listed.antt =====
-- Whose entries a listing of the audit log shows.
use django_boilerplate.Prelude.{
  ◌≡◌, refl, ap, subst, String, Bool, true, false, Bool-cases, inl, inr, Option, none, some, List,
  [], ◌∷◌, ◌==◌, arith, All, rows, length, Instant, eq_of_eq-true,
}
use django_boilerplate.Rows.{All-rows}
use django_boilerplate.Listing.{Page, page}
use django_boilerplate.Listing.Pages.{OnSome, IsShort, page-IsShort}
use django_boilerplate.Permissions.{TokenClaims, has_role, given, is_audit_viewer}
use django_boilerplate.Audit.{AuditLog, is_in_org}
use django_boilerplate.Audit.Views.{
  Query, Reply, forbidden, mfa_required, not_found, server_error, ok, entries_of, get_queryset,
  passes, as_reply, list_audit,
}

-- An entry of the organisation that the claims name.
pub IsOwn : TokenClaims → AuditLog → Type 0
IsOwn c e = (org : String) × (given c.org_id ≡ some org) × (e.org_id ≡ some org)

named_org :
    (org : String) (o : Option String)
    → (elim o as (λ x. Bool) [ none ↦ false | some x ↦ x == org ]) ≡ true
    → o ≡ some org
named_org org none h = ground (arith, h)
named_org org (some x) h = ap some (eq_of_eq-true x org h)

in_org : (org : String) (e : AuditLog) → is_in_org org e ≡ true → e.org_id ≡ some org
unfolding is_in_org
in_org org e h = named_org org e.org_id h

All-unit : (log : List AuditLog) → All {0, 0} (λ e. Unit) log
All-unit [] = tt
All-unit (e ∷ log) = (tt, All-unit log)

entries-IsOwn :
    (c : TokenClaims) (org : Option String) (log : List AuditLog)
    → given c.org_id ≡ org
    → All (IsOwn c) (entries_of org log)
unfolding entries_of IsOwn
entries-IsOwn c none log e = tt
entries-IsOwn c (some org) log e =
    All-rows (λ x. Unit) (IsOwn c) (is_in_org org) log (λ x own u. (org, e, in_org org x own))
      (All-unit log)

queryset-IsOwn :
    (c : TokenClaims) (log : List AuditLog)
    → has_role "platform_admin" c ≡ false
    → All (IsOwn c) (get_queryset c log)
unfolding get_queryset
queryset-IsOwn c log no_admin = rw no_admin (entries-IsOwn c (given c.org_id) log refl)

abbrev OnOk : {A : Type 0} → (A → Type 0) → Reply A → Type 0
OnOk P forbidden = Unit
OnOk P mfa_required = Unit
OnOk P not_found = Unit
OnOk P server_error = Unit
OnOk P (ok a) = P a

reply-OnOk :
    {A : Type 0} (instant : AuditLog → Instant) (parse_datetime : String → Option Instant)
    (P Q : A → Type 0) (o : Option A)
    → ((a : A) → P a → Q a)
    → OnSome P o
    → OnOk Q (as_reply instant parse_datetime o)
unfolding as_reply
reply-OnOk instant parse_datetime P Q none step h = tt
reply-OnOk instant parse_datetime P Q (some a) step h = step a h

module _ (instant : AuditLog → Instant) (parse_datetime : String → Option Instant) where
  -- What a page shows of the entries that the filters of the query pass.
  pub IsOwnPage : TokenClaims → Query → List AuditLog → Page AuditLog → Type 0
  IsOwnPage c q log p =
      IsShort (λ e. IsOwn c e × (passes instant parse_datetime q e ≡ true)) p.results
      × (p.count ≡ length (rows (passes instant parse_datetime q) (get_queryset c log)))

  listed_page :
      (authenticated : Bool) (c : TokenClaims) (q : Query) (log : List AuditLog)
      → has_role "platform_admin" c ≡ false
      → OnOk
          (λ p. (is_audit_viewer authenticated c ≡ true) × IsOwnPage c q log p)
          (list_audit instant parse_datetime authenticated c q log)
  unfolding list_audit IsOwnPage
  listed_page authenticated c q log no_admin =
      let t = passes instant parse_datetime q in
      let shown = rows t (get_queryset c log) in
      let own : All (λ e. IsOwn c e × (t e ≡ true)) shown =
        All-rows (IsOwn c) (λ e. IsOwn c e × (t e ≡ true)) t (get_queryset c log)
          (λ e kept mine. (mine, kept)) (queryset-IsOwn c log no_admin) in
      elim (Bool-cases (is_audit_viewer authenticated c)) [
        | inl viewer ↦ rw viewer (
            reply-OnOk instant parse_datetime (IsOwnPage c q log)
              (λ p. (true ≡ true) × IsOwnPage c q log p) (page q.limit q.offset shown)
              (λ p h. (refl, h))
              (page-IsShort (λ e. IsOwn c e × (t e ≡ true)) q.limit q.offset shown own))
        | inr other ↦ rw other tt
      ]

  -- The claims of a token have no role of a platform administrator, and the listing of the audit log is
  -- answered with a page. Then the claims have a role that may view the log, the page shows at most
  -- 1000 entries, which are all of the organisation that the claims name and pass the query's
  -- filters, and its count is the number of such entries.
  pub listed-IsOwn :
      (authenticated : Bool) (c : TokenClaims) (q : Query) (log : List AuditLog) (p : Page AuditLog)
      → has_role "platform_admin" c ≡ false
      → list_audit instant parse_datetime authenticated c q log ≡ ok p
      → (is_audit_viewer authenticated c ≡ true) × IsOwnPage c q log p
  listed-IsOwn authenticated c q log p no_admin answered =
      subst (OnOk (λ x. (is_audit_viewer authenticated c ≡ true) × IsOwnPage c q log x)) answered
        (listed_page authenticated c q log no_admin)
