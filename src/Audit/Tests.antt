-- ===== src/Audit/Tests.antt =====
-- The audit log on concrete entries.
use django_boilerplate.Prelude.{
  take_text, refl, All, ◌≡◌, ◌≢◌, String, ◌+++◌, Bool, not, none, some, List, [], ◌∷◌, arith, ◌==◌,
  eq_iff, rows, length, ◌↔◌,
}
use django_boilerplate.Crypto.Toy.{toy}
use django_boilerplate.Audit.{AuditLog, compute_entry_hash, sign_and_save, signed, content}
use django_boilerplate.Audit.Verify.{Report, verify_chain_integrity}
use django_boilerplate.Audit.Verify.Sound.{Accepts, checked, IsSound, verify_iff_IsSound}
use django_boilerplate.Audit.Chain.{Entry, IsAtOnce, save_all, saved_log_accepted}
use django_boilerplate.Audit.Entries.{Context, Event, Draws, last_text, log_audit}
use django_boilerplate.Audit.Entries.Hidden.{LookAlike, email_hidden}
use django_boilerplate.Audit.Tampering.{restamped_rejected, relink, relinked_log_accepted}

abbrev blank : AuditLog
blank = record {
  id = "1";
  timestamp = "2025-01-01";
  actor_id = "7";
  actor_email = none;
  org_id = none;
  action = "update";
  resource_type = "Org";
  resource_id = "9";
  changes = "{}";
  metadata = "{}";
  request_id = "";
  signature = "";
  previous_hash = "";
  sequence_number = 0;
  nonce = "";
}

abbrev entry : String → String → Entry
entry id org = record {
  nonce = "n" +++ id;
  inserted_at = "2025-01-01";
  entry = record blank { id = id; org_id = some org };
}

abbrev entries : List Entry
entries = entry "1" "acme" ∷ entry "2" "other" ∷ entry "3" "acme" ∷ entry "4" "acme" ∷ []

acme_named : ◌≢◌ {A = String} "acme" ""
acme_named = ground (arith, eq_iff "acme" "")

other_named : ◌≢◌ {A = String} "other" ""
other_named = ground (arith, eq_iff "other" "")

key_set : ◌≢◌ {A = String} "secret" ""
key_set = ground (arith, eq_iff "secret" "")

acme-ne-other : ◌≢◌ {A = String} "acme" "other"
acme-ne-other = ground (arith, eq_iff "acme" "other")

at_once : All IsAtOnce entries
at_once = (λ i. "2025-01-01", (λ i. "2025-01-01", (λ i. "2025-01-01", (λ i. "2025-01-01", tt))))

saved_log_accepted_example :
    Accepts toy "secret" none none (some "acme") (save_all toy "secret" entries [])
saved_log_accepted_example =
    saved_log_accepted toy "secret" key_set "acme" acme_named entries at_once

abbrev not_third : AuditLog → Bool
not_third e = not (e.id == "3")

-- The third entry is dropped, and the rest is accepted.
relinked_log_accepted_example : Accepts toy "secret" none none none (
    relink toy none 1
      (rows not_third (checked toy "secret" (some "acme") (save_all toy "secret" entries []))))
relinked_log_accepted_example =
    relinked_log_accepted toy "secret" (some "acme") (save_all toy "secret" entries []) not_third
      saved_log_accepted_example

abbrev saved : List AuditLog
saved = save_all toy "secret" entries []

verify_iff_IsSound_example :
    (r : Report) × (verify_chain_integrity toy "secret" none none (some "acme") saved ≡ some r)
    × ((r.errors ≡ []) ↔ IsSound toy "secret" none (checked toy "secret" (some "acme") saved))
    × (r.entries_checked ≡ length (checked toy "secret" (some "acme") saved))
verify_iff_IsSound_example = verify_iff_IsSound toy "secret" (some "acme") saved

abbrev late : Entry
late = record {
  nonce = "n";
  inserted_at = "2025-01-02";
  entry = record blank { org_id = some "acme" };
}

late_digest :
    toy.hmac_sha256 "secret" (compute_entry_hash toy (sign_and_save toy "secret" "n" [] late.entry))
    ≢ toy.hmac_sha256 "secret" (
        compute_entry_hash toy
          (record (sign_and_save toy "secret" "n" [] late.entry) { timestamp = "2025-01-02" }))
unfolding compute_entry_hash sign_and_save signed content
late_digest = ground (
  arith,
  eq_iff "secret1|2025-01-01|7|acme|Org|9|update|{}|n##"
      "secret1|2025-01-02|7|acme|Org|9|update|{}|n##",
)

restamped_rejected_example :
    ¬ Accepts toy "secret" none none (some "acme") (save_all toy "secret" (late ∷ []) [])
restamped_rejected_example = restamped_rejected toy "secret" late "acme" refl acme_named late_digest

abbrev context : Context
context = record { actor = some "7"; org_id = some "acme"; request_id = none }

abbrev event : Event
event = record {
  action = "update";
  resource_type = "Org";
  resource_id = "9";
  changes = "{}";
  metadata = "{}";
  actor_id = none;
  actor_email = none;
  org_id = none;
}

abbrev draws : Draws
draws = record { id = "1"; timestamp = "2025-01-01"; inserted_at = "2025-01-01"; nonce = "n" }

alike : LookAlike "ann@x.org" "anton.k@org"
unfolding last_text take_text
alike = record { long_a = omega arith; long_b = omega arith; start = λ i. "an"; end = λ i. "rg" }

mask-ne-hash : ◌≢◌ {A = String} "mask" "hash"
mask-ne-hash = ground (arith, eq_iff "mask" "hash")

email_hidden_example :
    log_audit toy "secret" "mask" context (record event { actor_email = some "ann@x.org" }) draws []
    ≡ log_audit toy "secret" "mask" context
        (record event { actor_email = some "anton.k@org" })
        draws
        []
email_hidden_example =
    email_hidden toy "secret" "mask" context event draws [] "ann@x.org" "anton.k@org" mask-ne-hash
      alike
