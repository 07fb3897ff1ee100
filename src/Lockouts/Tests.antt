-- ===== src/Lockouts/Tests.antt =====
-- Checks in the course of an attack.
use django_boilerplate.Prelude.{
  ◌≡◌, ◌≤◌, ◌<◌, ◌+◌, refl, arith, String, Bool, true, List, [], ◌∷◌, lookup, put, strip, Instant,
}
use django_boilerplate.Cache.Table.{table, empty}
use django_boilerplate.Lockouts.{
  Settings, Found, Account, window, count_ips, insert_by_count, sort_by_count, get_ip_summary,
  alert_of, send, check_mass_lockout, alerts,
}
use django_boilerplate.Lockouts.Spaced.{IsSpaced, alerts-IsSpaced}

abbrev settings : Settings
settings = record {
  lockout_notification_enabled = true;
  lockout_mass_threshold = 2;
  lockout_mass_window_minutes = 10;
  window_text = "10";
}

abbrev account : String → Account
account ip = ("username", "ann") ∷ ("ip_address", ip) ∷ []

abbrev found : Bool → Found
found is_queued = record {
  current_count = 3;
  affected_accounts = account "10.0.0.1" ∷ account "10.0.0.2" ∷ account "10.0.0.2" ∷ [];
  is_queued = is_queued;
}

summary_run : get_ip_summary (found true).affected_accounts ≡ ("10.0.0.2", 2) ∷ ("10.0.0.1", 1) ∷ []
unfolding get_ip_summary sort_by_count insert_by_count count_ips lookup put strip
summary_run = refl

abbrev checks : List (Instant × Found)
checks = (5, found true) ∷ (9, found true) ∷ (600000005, found true) ∷ []

alerts_run :
    alerts settings (table Bool) checks (empty Bool)
    ≡ (5, alert_of settings (found true)) ∷ (600000005, alert_of settings (found true)) ∷ []
unfolding alerts check_mass_lockout send
alerts_run = refl

alerts-IsSpaced_example :
    IsSpaced settings (table Bool) 0 (alerts settings (table Bool) checks (empty Bool))
alerts-IsSpaced_example = alerts-IsSpaced settings (table Bool) checks (empty Bool)

reached : 2 ≤ 3
reached = omega arith

soon : 9 < 5 + window settings
soon = omega arith
