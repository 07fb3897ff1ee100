-- ===== src/Audit/Verify.antt =====
-- `verify_chain_integrity` of api/audit_integrity.py.
pub mod Sound
use django_boilerplate.Prelude.{
  ℕ, ◌+◌, ◌≡◌, ◌≢◌, ◌↔◌, refl, String, Bool, true, false, Option, none, some, List, [], ◌∷◌, ◌++◌,
  arith, ◌==◌, eq_iff, eqb, leb, rows, first, length, if◌then◌else◌, eqb→eq, eq→eqb,
}
use django_boilerplate.Crypto.{Digests}
use django_boilerplate.Audit.{AuditLog, scope, compute_entry_hash, verify_signature}

pub data ChainError : Type 0 where
  invalid_signature broken_chain : (id : String) (sequence_number : ℕ) → ChainError
  sequence_gap : (id : String) (expected got : ℕ) → ChainError

pub record Report : Type 0 where
  pub broken_at : Option String
  pub entries_checked : ℕ
  pub errors : List ChainError

-- Rows by ascending `sequence_number`; rows of one number stay in the order of insertion.
unfoldable pub insert_by_sequence : AuditLog → List AuditLog → List AuditLog
insert_by_sequence e [] = e ∷ []
insert_by_sequence e (f ∷ es) =
    if leb e.sequence_number f.sequence_number then e ∷ f ∷ es else f ∷ insert_by_sequence e es

unfoldable pub order_by_sequence : List AuditLog → List AuditLog
order_by_sequence [] = []
order_by_sequence (e ∷ es) = insert_by_sequence e (order_by_sequence es)

-- `AuditLog.objects.get(id=...)`, none where it raises DoesNotExist.
find_entry : String → List AuditLog → Option AuditLog
find_entry id log = first (λ e. e.id == id) log

-- `if not broken_at: broken_at = str(entry.id)`
abbrev or_id : Option String → String → Option String
or_id none id = some id
or_id (some b) id = some b

add_error : Bool → ChainError → String → Report → Report
add_error ok error id r =
    if ok then r else record r { errors = r.errors ++ error ∷ []; broken_at = or_id r.broken_at id }

module _ (d : Digests) (key : String) where
  check_signature : AuditLog → Report → Report
  check_signature e r =
      add_error (verify_signature d key e) (invalid_signature e.id e.sequence_number) e.id r

  check_link : Option AuditLog → AuditLog → Report → Report
  check_link none e r = r
  check_link (some p) e r =
      add_error (eqb e.sequence_number (p.sequence_number + 1))
        (sequence_gap e.id (p.sequence_number + 1) e.sequence_number) e.id
        (add_error (e.previous_hash == compute_entry_hash d p) (broken_chain e.id e.sequence_number)
          e.id r)

  check_entry : Option AuditLog → AuditLog → Report → Report
  check_entry p e r =
      check_link p e (check_signature e (record r { entries_checked = r.entries_checked + 1 }))

  -- The loop over the entries; `p` is the entry before, none for the first.
  check_entries : Option AuditLog → List AuditLog → Report → Report
  check_entries p [] r = r
  check_entries p (e ∷ es) r = check_entries (some e) es (check_entry p e r)

  -- `query.filter(sequence_number__gte=...)` and `..._lte=...`, where a bound is given.
  from_start : Option ℕ → List AuditLog → List AuditLog
  from_start none log = log
  from_start (some n) log = rows (λ e. leb n e.sequence_number) log

  to_end : Option ℕ → List AuditLog → List AuditLog
  to_end none log = log
  to_end (some n) log = rows (λ e. leb e.sequence_number n) log

  -- The number of the row with the id, if an id is given; none if there is no such row.
  bound_of : Option String → List AuditLog → Option (Option ℕ)
  bound_of none log = some none
  bound_of (some id) log =
      if id == ""
      then some none
      else elim (find_entry id log) [ none ↦ none | some e ↦ some (some e.sequence_number) ]

  check_range : Option (Option ℕ) → Option (Option ℕ) → List AuditLog → Option Report
  check_range none to log = none
  check_range (some from) none log = none
  check_range (some from) (some to) log = some (
      check_entries none (to_end to (from_start from log))
        (record { broken_at = none; entries_checked = 0; errors = [] }))

  -- none where a given `start_id` or `end_id` is the id of no row.
  unfoldable pub verify_chain_integrity :
      (start_id end_id org_id : Option String) → List AuditLog → Option Report
  unfolding check_range check_entries check_entry check_link check_signature add_error to_end
      from_start bound_of find_entry order_by_sequence insert_by_sequence
  verify_chain_integrity start_id end_id org_id log =
      check_range (bound_of start_id log) (bound_of end_id log)
        (order_by_sequence (scope org_id log))
