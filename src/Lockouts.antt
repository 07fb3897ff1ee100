-- ===== src/Lockouts.antt =====
-- check_mass_lockout_task of api/tasks_lockout.py, and get_ip_summary of api/lockout_tracking.py: the
-- alert of many lockouts. The events are in Redis; their number and the accounts are arguments.
pub mod Spaced
mod Tests
use django_boilerplate.Prelude.{
  ℕ, ◌+◌, ◌*◌, String, ◌+++◌, Bool, true, false, not, Option, none, some, List, [], ◌∷◌, ◌==◌, leb,
  ltb, length, strip, Dict, lookup, put, if◌then◌else◌, Instant, seconds,
}
use django_boilerplate.Cache.{Cache}

abbrev pub get {ℓ} : {A : Type ℓ} → Option A → A → A
get none default = default
get (some x) default = x

-- What Redis holds for an event.
abbrev pub Account : Type 0
Account = Dict String

add_ip : String → Dict ℕ → Dict ℕ
add_ip ip counts = if ip == "" then counts else put ip (get (lookup ip counts) 0 + 1) counts

unfoldable pub count_ips : List Account → Dict ℕ → Dict ℕ
unfolding add_ip
count_ips [] counts = counts
count_ips (a ∷ accounts) counts =
    count_ips accounts (add_ip (strip (get (lookup "ip_address" a) "")) counts)

-- The stable sort by falling counts.
unfoldable pub insert_by_count : String × ℕ → Dict ℕ → Dict ℕ
insert_by_count e [] = e ∷ []
insert_by_count e (f ∷ fs) =
    let rest = insert_by_count e fs in if ltb e.1 f.1 then f ∷ rest else e ∷ f ∷ fs

unfoldable pub sort_by_count : Dict ℕ → Dict ℕ
unfolding insert_by_count
sort_by_count [] = []
sort_by_count (e ∷ es) = insert_by_count e (sort_by_count es)

unfoldable pub get_ip_summary : List Account → Dict ℕ
unfolding sort_by_count count_ips
get_ip_summary accounts = sort_by_count (count_ips accounts [])

pub record Settings : Type 0 where
  pub lockout_notification_enabled : Bool
  pub lockout_mass_threshold : ℕ
  pub lockout_mass_window_minutes : ℕ
  -- the window as the key has it
  pub window_text : String

-- The arguments of send_admin_lockout_alert_task.
pub record Alert : Type 0 where
  pub lockout_count : ℕ
  pub time_window_minutes : ℕ
  pub affected_accounts : List Account
  pub ip_summary : Dict ℕ

pub data Reply : Type 0 where
  disabled : Reply
  debounced : (count threshold : ℕ) → Reply
  below_threshold : (count threshold : ℕ) → Reply
  alert_triggered : (count threshold : ℕ) → (affected_accounts_count unique_ips : ℕ) → Reply
  raised : Reply

-- What a check finds: the number of lockouts, the accounts, and whether the queue takes an alert.
pub record Found : Type 0 where
  pub current_count : ℕ
  pub affected_accounts : List Account
  pub is_queued : Bool

abbrev pub is_set : Option Bool → Bool
is_set none = false
is_set (some b) = b

module _ (st : Settings) where
  abbrev pub debounce_key : String
  debounce_key = "mass_lockout_alert_sent:" +++ st.window_text +++ "m"

  abbrev pub window : ℕ
  window = seconds (st.lockout_mass_window_minutes * 60)

  unfoldable pub alert_of : Found → Alert
  alert_of f = record {
    lockout_count = f.current_count;
    time_window_minutes = st.lockout_mass_window_minutes;
    affected_accounts = f.affected_accounts;
    ip_summary = get_ip_summary f.affected_accounts;
  }

  -- The reply and the alert, if one is queued.
  unfoldable pub send : Found → Reply × Option Alert
  send f =
      if f.is_queued
      then (
        alert_triggered f.current_count st.lockout_mass_threshold (length f.affected_accounts)
            (length (get_ip_summary f.affected_accounts)),
        some (alert_of f),
      )
      else (raised, none)

  module _ (c : Cache Bool) where
    -- `check_mass_lockout_task`, at an instant: its reply, the queued alert, and the cache after it.
    unfoldable pub check_mass_lockout : Found → Instant → c.State → (Reply × Option Alert) × c.State
    check_mass_lockout f now s =
        if not st.lockout_notification_enabled
        then ((disabled, none), s)
        else if leb st.lockout_mass_threshold f.current_count
        then (if is_set (c.get debounce_key now s)
            then ((debounced f.current_count st.lockout_mass_threshold, none), s)
            else (send f, c.set debounce_key true window now s))
        else ((below_threshold f.current_count st.lockout_mass_threshold, none), s)

    with_alert : Instant → Option Alert → List (Instant × Alert) → List (Instant × Alert)
    with_alert now none rest = rest
    with_alert now (some a) rest = (now, a) ∷ rest

    -- The alerts that a series of checks queues, with their instants.
    unfoldable pub alerts : List (Instant × Found) → c.State → List (Instant × Alert)
    unfolding with_alert
    alerts [] s = []
    alerts ((now, f) ∷ checks) s =
        let (reply, after) = check_mass_lockout f now s in
        with_alert now reply.1 (alerts checks after)
