-- ===== src/Cache/Table.antt =====
-- A cache kept as a function from keys: it shows that the behaviour which `Cache` asks for can be
-- met, and the examples run on it.
use django_boilerplate.Prelude.{
  ◌+◌, ◌≤◌, ◌<◌, ◌≡◌, ◌≢◌, String, Option, none, some, arith, ◌==◌, eq_iff, ltb, if◌then◌else◌,
  Instant,
}
use django_boilerplate.Cache.{Cache}

abbrev pub Table : Type 0 → Type 0
Table V = String → Option (V × Instant)

abbrev pub live : {V : Type 0} → Instant → Option (V × Instant) → Option V
live now none = none
live now (some (v, expires)) = if ltb now expires then some v else none

module _ (V : Type 0) where
  abbrev pub empty : Table V
  empty k = none

  abbrev pub put : String → Option (V × Instant) → Table V → Table V
  put k e t j = if k == j then e else t j

  abbrev pub get : String → Instant → Table V → Option V
  get k now t = live now (t k)

  pub get-put_self :
      (k : String) (e : Option (V × Instant)) (now : Instant) (t : Table V)
      → get k now (put k e t) ≡ live now e
  get-put_self k e now t = ground (arith, eq_iff k k)

  pub get-put_ne :
      (k j : String) (e : Option (V × Instant)) (now : Instant) (t : Table V)
      → k ≢ j
      → get j now (put k e t) ≡ get j now t
  get-put_ne k j e now t ne = ground (arith, eq_iff k j)

  pub live-some :
      (v : V) (now expires : Instant) → now < expires → live now (some (v, expires)) ≡ some v
  live-some v now expires h = ground arith

  pub live-gone :
      (v : V) (now expires : Instant) → expires ≤ now → live now (some (v, expires)) ≡ none
  live-gone v now expires h = ground arith

  abbrev pub table : Cache V
  table = record {
    State = Table V;
    get = get;
    set = λ k v timeout now t. put k (some (v, now + timeout)) t;
    delete = λ k t. put k none t;
    get-set_live = λ k v timeout now later t h.
        rw (get-put_self k (some (v, now + timeout)) later t) (live-some v later (now + timeout) h);
    get-set_expired = λ k v timeout now later t h.
        rw (get-put_self k (some (v, now + timeout)) later t) (live-gone v later (now + timeout) h);
    get-set_ne =
        λ k j v timeout now later t ne. get-put_ne k j (some (v, now + timeout)) later t ne;
    get-delete_self = λ k later t. get-put_self k none later t;
    get-delete_ne = λ k j later t ne. get-put_ne k j none later t ne;
  }
