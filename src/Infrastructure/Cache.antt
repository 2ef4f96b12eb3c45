-- ===== src/Infrastructure/Cache.antt =====
-- src/infrastructure/cache/memory_cache.py, over values of any type (the source stores texts).
use fast_stream_template.Common.{
  ℕ, Bool, Option, String, Time, arith, false, if◌then◌else◌, leb, ltb, none, seconds, some, str_eq,
  str_eq_refl, ◌+◌, ◌==◌, ◌||◌, ◌≡◌,
}
use fast_stream_template.Common.Dict.{Dict, lookup, insert, remove, lookup-insert, lookup-remove}

abbrev pub is_over : Option Time → Time → Bool
is_over none now = false
is_over (some t) now = leb t now

-- A ttl of None or 0 never expires.
abbrev pub expiry : Option ℕ → Time → Option Time
expiry none now = none
expiry (some ttl) now = if ttl == 0 then none else some (now + seconds ttl)

abbrev pub Cache {ℓ} : Type ℓ → Type ℓ
Cache V = Dict (V × Option Time)

module _ {ℓ} {V : Type ℓ} where
  unfoldable pub read_entry :
      String → Time → Cache V → Option (V × Option Time) → Option V × Cache V
  read_entry key now c none = (none, c)
  read_entry key now c (some (value, expires_at)) =
      if is_over expires_at now then (none, remove key c) else (some value, c)

  -- InMemoryCache.get, which drops an entry that is over
  unfoldable pub get : Cache V → String → Time → Option V × Cache V
  unfolding read_entry
  get c key now = read_entry key now c (lookup key c)

  -- InMemoryCache.set
  unfoldable pub set : Cache V → String → V → Option ℕ → Time → Cache V
  set c key value ttl_seconds now = insert key (value, expiry ttl_seconds now) c

  -- InMemoryCache.delete
  unfoldable pub delete : Cache V → String → Cache V
  delete c key = remove key c

  -- A value that was set is read until its seconds are over and not from then on, whereas a time to
  -- live of 0 seconds keeps it for good; other keys are read as before; and a deleted key is not read.
  pub get-set :
      (c : Cache V) (k j : String) (v : V) (ttl : ℕ) (set_at now : Time)
      → ((get (set c k v (some ttl) set_at) k now).0
          ≡ (if ttl == 0 || ltb now (set_at + seconds ttl) then some v else none))
        × (str_eq k j ≡ false → (get (set c k v (some ttl) set_at) j now).0 ≡ (get c j now).0)
        × ((get (delete c k) k now).0 ≡ none)
        × (str_eq k j ≡ false → (get (delete c k) j now).0 ≡ (get c j now).0)
  unfolding get set delete
  get-set c k j v ttl set_at now = (
    rw (lookup-insert k k (v, expiry (some ttl) set_at) c) (rw str_eq_refl (ground arith)),
    λ other. rw (lookup-insert k j (v, expiry (some ttl) set_at) c) (rw other (ground arith)),
    rw (lookup-remove k k c) (rw str_eq_refl),
    λ other. rw (lookup-remove k j c) (rw other (ground arith)),
  )
