-- ===== src/Dedup/Cache.antt =====
-- `TTLCache` of the package `cachetools`, by what its documentation says of it.
use ais_server.Prelude.{ℕ, ◌+◌, ◌≤◌, ◌<◌, ◌≡◌, ◌≢◌, Option, none, some, ltb, if◌then◌else◌}

-- Every operation takes the time of the cache's timer. A lookup may reorder the entries.
pub record TtlCache (K V : Type 0) (ttl maxsize : ℕ) : Type 1 where
  pub Cache : Type 0
  pub empty : Cache
  pub lookup : ℕ → Cache → K → Cache × Option V
  pub store : ℕ → Cache → K → V → Option Cache
  pub size : ℕ → Cache → ℕ
  -- The entry of a key that a lookup would find.
  pub entry : ℕ → Cache → K → Option V
  pub entry-empty : (now : ℕ) (k : K) → entry now empty k ≡ none
  pub lookup-entry : (now : ℕ) (c : Cache) (k : K) → (lookup now c k).1 ≡ entry now c k
  pub entry-lookup :
      (now later : ℕ) (c : Cache) (k j : K) → entry later (lookup now c k).0 j ≡ entry later c j
  pub size-lookup : (now : ℕ) (c : Cache) (k : K) → size now (lookup now c k).0 ≡ size now c
  -- An entry stays for `ttl` and is gone then.
  pub entry-store_self :
      (now later : ℕ) (c c' : Cache) (k : K) (v : V)
      → store now c k v ≡ some c'
      → entry later c' k ≡ (if ltb later (now + ttl) then some v else none)
  pub entry_expires :
      (now later : ℕ) (c : Cache) (k : K) (v : V)
      → now ≤ later
      → entry later c k ≡ some v
      → entry now c k ≡ some v
  -- A store brings no other entry, and evicts none while there is room, but those that have expired.
  pub entry-store_ne :
      (now later : ℕ) (c c' : Cache) (k j : K) (v w : V)
      → j ≢ k
      → store now c k v ≡ some c'
      → entry later c' j ≡ some w
      → entry later c j ≡ some w
  pub entry-store_room :
      (now later : ℕ) (c c' : Cache) (k j : K) (v : V)
      → now ≤ later
      → j ≢ k
      → size now c < maxsize
      → store now c k v ≡ some c'
      → entry later c' j ≡ entry later c j
  pub store_fits :
      (now : ℕ) (c : Cache) (k : K) (v : V)
      → 0 < maxsize
      → (c' : Cache) × (store now c k v ≡ some c')
