-- ===== src/Audit.antt =====
-- api/audit_integrity.py, and `AuditLog.save` of api/models.py: the signed, hash-chained audit log.
-- The table is the list of its rows in the order of insertion.
pub mod Chain
pub mod Verify
pub mod Tampering
pub mod Views
pub mod Entries
mod Tests
use django_boilerplate.Prelude.{
  ℕ, suc, ◌+◌, String, ◌+++◌, Bool, true, false, not, ◌&&◌, Option, none, some, List, [], ◌∷◌, ◌++◌,
  ◌==◌, eqb, leb, ltb, rows, first, length, if◌then◌else◌,
}
use django_boilerplate.Crypto.{Digests}

-- `timestamp` is the text that `str` gives it, empty if there is none, and `changes` the text that
-- `json.dumps(changes or {}, sort_keys=True)` gives.
pub record AuditLog : Type 0 where
  pub id : String
  pub timestamp : String
  pub actor_id : String
  pub actor_email : Option String
  pub org_id : Option String
  pub action : String
  pub resource_type : String
  pub resource_id : String
  pub changes : String
  pub metadata : String
  pub request_id : String
  pub signature : String
  pub previous_hash : String
  pub sequence_number : ℕ
  pub nonce : String

-- `org_id or ""`
abbrev pub or_blank : Option String → String
or_blank none = ""
or_blank (some s) = s

-- `"|".join(content_parts)`
abbrev pub bar : String → String → String
bar a rest = a +++ ("|" +++ rest)

unfoldable pub content : AuditLog → String
content e = bar e.id (
    bar e.timestamp (
      bar e.actor_id (
        bar (or_blank e.org_id)
          (bar e.resource_type (bar e.resource_id (bar e.action (bar e.changes e.nonce)))))))

-- `if org_id: query = query.filter(org_id=org_id)`
unfoldable pub is_in_org : String → AuditLog → Bool
is_in_org org e = elim e.org_id [ none ↦ false | some o ↦ o == org ]

unfoldable pub scoped_to : String → List AuditLog → List AuditLog
scoped_to org log = if org == "" then log else rows (is_in_org org) log

unfoldable pub scope : Option String → List AuditLog → List AuditLog
unfolding scoped_to is_in_org
scope none log = log
scope (some org) log = scoped_to org log

-- `query.order_by("-sequence_number").first()`
abbrev later_of : AuditLog → AuditLog → AuditLog
later_of e f = if ltb e.sequence_number f.sequence_number then f else e

unfoldable pub highest : List AuditLog → Option AuditLog
highest [] = none
highest (e ∷ es) = elim (highest es) [ none ↦ some e | some f ↦ some (later_of e f) ]

module _ (d : Digests) where
  unfoldable pub compute_entry_hash : AuditLog → String
  compute_entry_hash e = d.sha256 (content e)

  unfoldable pub hash_of : Option AuditLog → String
  hash_of none = ""
  hash_of (some e) = compute_entry_hash e

  unfoldable pub get_previous_hash : Option String → List AuditLog → String
  unfolding hash_of highest
  get_previous_hash org_id log = hash_of (highest (scope org_id log))

unfoldable pub sequence_of : Option AuditLog → ℕ
sequence_of none = 0
sequence_of (some e) = e.sequence_number

-- `(max_seq or 0) + 1`
unfoldable pub get_next_sequence_number : Option String → List AuditLog → ℕ
unfolding sequence_of highest
get_next_sequence_number org_id log = sequence_of (highest (scope org_id log)) + 1

module _ (d : Digests) (key : String) where
  -- `key` is what `get_signing_key` returns, empty if none is configured.
  unfoldable pub sign_audit_entry : AuditLog → String
  sign_audit_entry e = if key == "" then "" else d.hmac_sha256 key (compute_entry_hash d e)

  unfoldable pub verify_signature : AuditLog → Bool
  unfolding sign_audit_entry
  verify_signature e = not (e.signature == "") && e.signature == sign_audit_entry e

  unfoldable pub signed : AuditLog → AuditLog
  signed e = record e { signature = sign_audit_entry e }

  -- `nonce` is what `generate_nonce` returns.
  unfoldable pub sign_and_save : String → List AuditLog → AuditLog → AuditLog
  unfolding signed
  sign_and_save nonce log e = signed (record e {
    nonce = nonce;
    sequence_number = get_next_sequence_number e.org_id log;
    previous_hash = get_previous_hash d e.org_id log;
  })

  -- `AuditLog.save` of a new entry. `auto_now_add` stores the time of the insertion in place of the
  -- timestamp that was signed, whatever that is.
  unfoldable pub save : (nonce inserted_at : String) → AuditLog → List AuditLog → List AuditLog
  save nonce inserted_at e log =
      log ++ record (sign_and_save nonce log e) { timestamp = inserted_at } ∷ []
