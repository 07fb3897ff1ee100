-- ===== src/Audit/Entries.antt =====
-- api/audit.py: the masking of an actor's email, and the entry that `log_audit` makes. The context of a
-- request is what get_request_context of config/observability.py returns.
pub mod Hidden
use Prim.Native.String
use django_boilerplate.Prelude.{
  ℕ, zero, suc, ◌-◌, String, ◌+++◌, Bool, true, false, Option, none, some, List, ◌==◌, leb,
  take_text, if◌then◌else◌,
}
use django_boilerplate.Crypto.{Digests}
use django_boilerplate.Audit.{AuditLog, save}

abbrev drop_text : ℕ → String → String
drop_text zero s = s
drop_text (suc n) String.[] = String.[]
drop_text (suc n) (String.◌∷◌ c s) = drop_text n s

-- `value[-n:]`, of a text with more characters than that.
unfoldable pub last_text : ℕ → String → String
last_text n s = drop_text (String.count s - n) s

-- `_mask_pii`
unfoldable pub mask_pii : String → String
mask_pii value =
    if leb (String.count value) 4
    then "***"
    else take_text 2 value +++ ("***" +++ last_text 2 value)

-- `_hash_pii`
unfoldable pub hash_pii : Digests → String → String
hash_pii d value = take_text 16 (d.sha256 value)

-- `_handle_pii`, of a value that is given.
unfoldable pub handle_pii : Digests → (policy : String) → String → Option String
handle_pii d policy value =
    if policy == "mask"
    then some (mask_pii value)
    else if policy == "hash"
    then some (hash_pii d value)
    else if policy == "drop"
    then none
    else some (mask_pii value)

pub record Context : Type 0 where
  pub actor : Option String
  pub org_id : Option String
  pub request_id : Option String

-- The arguments of `log_audit`; `changes` and `metadata` are JSON texts.
pub record Event : Type 0 where
  pub action : String
  pub resource_type : String
  pub resource_id : String
  pub changes : String
  pub metadata : String
  pub actor_id : Option String
  pub actor_email : Option String
  pub org_id : Option String

-- What the row draws when it is made and inserted.
pub record Draws : Type 0 where
  pub id : String
  pub timestamp : String
  pub inserted_at : String
  pub nonce : String

abbrev pub text_or : Option String → String → String
text_or none d = d
text_or (some s) d = s

abbrev pub or_else_text : Option String → Option String → Option String
or_else_text none o = o
or_else_text (some s) o = some s

-- `str(org_id) if org_id else None`
abbrev pub null_if_empty : Option String → Option String
null_if_empty none = none
null_if_empty (some s) = if s == "" then none else some s

handled_email : Digests → (policy : String) → Option String → Option String
handled_email d policy none = none
handled_email d policy (some e) = if e == "" then some e else handle_pii d policy e

-- The row that `log_audit` makes.
unfoldable pub entry_of : Digests → (policy : String) → Context → Event → Draws → AuditLog
unfolding handled_email
entry_of d policy context e draws = record {
  id = draws.id;
  timestamp = draws.timestamp;
  actor_id = text_or (or_else_text e.actor_id context.actor) "system";
  actor_email = handled_email d policy e.actor_email;
  org_id = null_if_empty (or_else_text e.org_id context.org_id);
  action = e.action;
  resource_type = e.resource_type;
  resource_id = e.resource_id;
  changes = e.changes;
  metadata = e.metadata;
  request_id = text_or context.request_id "";
  signature = "";
  previous_hash = "";
  sequence_number = 0;
  nonce = "";
}

-- `log_audit`
unfoldable pub log_audit :
    Digests → (key policy : String) → Context → Event → Draws → List AuditLog → List AuditLog
log_audit d key policy context e draws log =
    save d key draws.nonce draws.inserted_at (entry_of d policy context e draws) log
