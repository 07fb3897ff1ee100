-- ===== src/Throttle/Window/Bound.antt =====
-- What `expire` keeps, and why a throttle that asks for fewer than `limit` entries before it adds
-- one never lets a window hold more than `limit`.
use django_boilerplate.Prelude.{
  ℕ, ◌+◌, ◌≤◌, ◌<◌, ◌&&◌, List, [], ◌∷◌, arith, leb, ltb, length, rows, Instant,
}
use django_boilerplate.Throttle.Window.{is_old, pop_if, expire}

-- The entries of the window of length `duration` that ends at `t`, how many they are.
abbrev pub in_window : ℕ → Instant → List Instant → ℕ
in_window duration t h = length (rows (λ a. leb a t && ltb t (a + duration)) h)

-- The entries that are not old at `now`, how many they are.
abbrev pub recent : ℕ → Instant → List Instant → ℕ
recent duration now h = length (rows (λ a. ltb now (a + duration)) h)

module _ (duration : ℕ) where
  length-pop_if :
      (now t : Instant) (r : List Instant) (n : ℕ)
      → n ≤ length r
      → length (rows (λ a. ltb now (a + duration)) (t ∷ [])) + n
        ≤ length (pop_if (is_old duration now t) t r)
  length-pop_if now t [] n h = ground arith
  length-pop_if now t (x ∷ r) n h = ground arith

  pub recent-le-expire :
      (now : Instant) (h : List Instant) → recent duration now h ≤ length (expire duration now h)
  unfolding expire
  recent-le-expire now [] = omega arith
  recent-le-expire now (t ∷ h) =
      ground (arith, length-pop_if now t (expire duration now h) _ (recent-le-expire now h))

  recent_mono :
      (now later : Instant) (h : List Instant)
      → now ≤ later
      → recent duration later h ≤ recent duration now h
  recent_mono now later [] le = omega arith
  recent_mono now later (a ∷ h) le = ground (arith, recent_mono now later h le)

  in_window-le-recent :
      (t : Instant) (h : List Instant) → in_window duration t h ≤ recent duration t h
  in_window-le-recent t [] = omega arith
  in_window-le-recent t (a ∷ h) = ground (arith, in_window-le-recent t h)

  -- One more entry at `after`, when fewer than `limit` were recent at `now`.
  pub in_window-cons :
      (limit : ℕ) (now after : Instant) (h : List Instant)
      → now ≤ after
      → length (expire duration now h) < limit
      → ((t : Instant) → in_window duration t h ≤ limit)
      → (t : Instant) → in_window duration t (after ∷ h) ≤ limit
  in_window-cons limit now after h le room bound t =
      ground (arith, bound t, in_window-le-recent t h, recent_mono now t h, recent-le-expire now h)
