-- ===== src/Lockouts/Spaced.antt =====
-- The alerts of a series of checks keep their distance.
use django_boilerplate.Prelude.{
  ◌+◌, ◌≤◌, ◌<◌, ◌≡◌, ◌⊎◌, inl, inr, refl, sym, Bool, true, false, not, Bool-cases, Option, none,
  some, List, [], ◌∷◌, arith, leb, leb→le, le→leb, if-cases, Instant, subst,
}
use django_boilerplate.Cache.{Cache}
use django_boilerplate.Lockouts.{
  Settings, Found, Alert, Reply, raised, debounced, is_set, debounce_key, window, alert_of, send,
  check_mass_lockout, with_alert, alerts,
}

module _ (st : Settings) (c : Cache Bool) where
  -- No alert stands before an instant, and every alert is a window away from the one before it and
  -- counts as many lockouts as the threshold.
  unfoldable pub IsSpaced : Instant → List (Instant × Alert) → Type 0
  IsSpaced u [] = Unit
  IsSpaced u ((t, a) ∷ rest) =
      (u ≤ t) × (st.lockout_mass_threshold ≤ a.lockout_count) × IsSpaced (t + window st) rest

  IsQuiet : Instant → c.State → Type 0
  IsQuiet u s = (later : Instant) → later < u → c.get (debounce_key st) later s ≡ some true

  set-IsQuiet :
      (now : Instant) (s : c.State)
      → IsQuiet (now + window st) (c.set (debounce_key st) true (window st) now s)
  unfolding IsQuiet
  set-IsQuiet now s later h = c.get-set_live (debounce_key st) true (window st) now later s h

  -- What a check does: nothing, or it sends and sets the key.
  IsChecked : Found → Instant → c.State → (Reply × Option Alert) × c.State → Type 0
  IsChecked f now s after =
      ((after.0.1 ≡ none) × (after.1 ≡ s))
      ⊎ ((after ≡ (send st f, c.set (debounce_key st) true (window st) now s))
          × (is_set (c.get (debounce_key st) now s) ≡ false)
          × (st.lockout_mass_threshold ≤ f.current_count))

  check-IsChecked :
      (f : Found) (now : Instant) (s : c.State)
      → IsChecked f now s (check_mass_lockout st c f now s)
  unfolding IsChecked check_mass_lockout
  check-IsChecked f now s =
      if-cases (IsChecked f now s) (not st.lockout_notification_enabled) _ _
        (λ off. inl (refl, refl))
        (λ on.
          if-cases (IsChecked f now s) (leb st.lockout_mass_threshold f.current_count) _ _
            (λ reached. elim (Bool-cases (is_set (c.get (debounce_key st) now s))) [
              | inl set ↦ inl (rw set (refl, refl))
              | inr unset ↦
                  inr
                    (rw unset refl, unset, leb→le st.lockout_mass_threshold f.current_count reached)
            ])
            (λ below. inl (refl, refl)))

  unset-from :
      (u now : Instant) (s : c.State)
      → IsQuiet u s
      → is_set (c.get (debounce_key st) now s) ≡ false
      → u ≤ now
  unfolding IsQuiet
  unset-from u now s quiet unset = elim (Bool-cases (leb u now)) [
    | inl late ↦ leb→le u now late
    | inr early ↦ ground (arith, unset, quiet now (ground (arith, early)))
  ]

  IsSpaced-weaken :
      (u v : Instant) (l : List (Instant × Alert)) → u ≤ v → IsSpaced v l → IsSpaced u l
  unfolding IsSpaced
  IsSpaced-weaken u v [] le h = tt
  IsSpaced-weaken u v ((t, a) ∷ l) le (h, k, m) = (omega (arith, le, h), k, m)

  sent-IsSpaced :
      (u now : Instant) (f : Found) (rest : List (Instant × Alert))
      → u ≤ now
      → st.lockout_mass_threshold ≤ f.current_count
      → IsSpaced (now + window st) rest
      → IsSpaced u (with_alert st c now (send st f).1 rest)
  unfolding send with_alert alert_of IsSpaced
  sent-IsSpaced u now f rest le reached h =
      if-cases (λ (r : Reply × Option Alert). IsSpaced u (with_alert st c now r.1 rest)) f.is_queued
        _ _ (λ queued. (le, reached, h))
        (λ lost. IsSpaced-weaken u (now + window st) rest (omega (arith, le)) h)

  step-IsSpaced :
      (u now : Instant) (s : c.State) (f : Found) (rest : List (Instant × Alert))
      (after : (Reply × Option Alert) × c.State)
      → IsChecked f now s after
      → IsQuiet u s
      → ((v : Instant) → IsQuiet v after.1 → IsSpaced v rest)
      → IsSpaced u (with_alert st c now after.0.1 rest)
  unfolding IsChecked with_alert
  step-IsSpaced u now s f rest after (inl (e, same)) quiet h =
      rw e (h u (subst (IsQuiet u) (sym same) quiet))
  step-IsSpaced u now s f rest after (inr (e, unset, reached)) quiet h = rw e (
      sent-IsSpaced u now f rest (unset-from u now s quiet unset) reached (
        h (now + window st)
          (subst (λ x. IsQuiet (now + window st) x.1) (sym e) (set-IsQuiet now s))))

  later-IsSpaced :
      (u : Instant) (checks : List (Instant × Found)) (s : c.State)
      → IsQuiet u s
      → IsSpaced u (alerts st c checks s)
  unfolding alerts IsSpaced
  later-IsSpaced u [] s quiet = tt
  later-IsSpaced u ((now, f) ∷ checks) s quiet =
      step-IsSpaced u now s f (alerts st c checks (check_mass_lockout st c f now s).1)
        (check_mass_lockout st c f now s) (check-IsChecked f now s) quiet
        (λ v. later-IsSpaced v checks (check_mass_lockout st c f now s).1)

  -- Checks are made in any number and at any instants, from any state of the cache. Then an alert
  -- counts as many lockouts as the threshold, and comes a window or more after the alert before it.
  pub alerts-IsSpaced :
      (checks : List (Instant × Found)) (s : c.State) → IsSpaced 0 (alerts st c checks s)
  unfolding IsQuiet
  alerts-IsSpaced checks s =
      later-IsSpaced 0 checks s (λ later early. absurd (omega (arith, early)))

  -- With the notification on, the threshold reached and no alert before, the queue refuses the alert.
  -- Then the task raises and its retry, within the window, is debounced: no alert is sent.
  pub alert_lost :
      (f again : Found) (now later : Instant) (s : c.State)
      → st.lockout_notification_enabled ≡ true
      → st.lockout_mass_threshold ≤ f.current_count
      → st.lockout_mass_threshold ≤ again.current_count
      → f.is_queued ≡ false
      → c.get (debounce_key st) now s ≡ none
      → later < now + window st
      → let after = check_mass_lockout st c f now s in
        (after.0 ≡ (raised, none))
        × ((check_mass_lockout st c again later after.1).0
            ≡ (debounced again.current_count st.lockout_mass_threshold, none))
  unfolding check_mass_lockout send
  alert_lost f again now later s on reached still lost unset soon =
      rw
        (
          on,
          le→leb st.lockout_mass_threshold f.current_count reached,
          le→leb st.lockout_mass_threshold again.current_count still,
          lost,
          unset,
          c.get-set_live (debounce_key st) true (window st) now later s soon,
        )
        (refl, refl)
