-- ===== src/Ingest/Listener.antt =====
-- ais_server/ingest.py: the listener, which bounds the number of open connections. The threads of
-- the connections are numbered, and which of them are alive is given from outside.
use ais_server.Prelude.{
  ℕ, ◌≤◌, inl, inr, Bool, true, false, List, [], ◌∷◌, ◌++◌, arith, leb, if◌then◌else◌, leb_false→lt,
  Bool-cases, length, filter, length-append,
}

-- `_reap`
unfoldable pub reap : (ℕ → Bool) → List ℕ → List ℕ
reap is_alive active = filter is_alive active

unfoldable pub count_active : (ℕ → Bool) → List ℕ → List ℕ × ℕ
unfolding reap
count_active is_alive active = let active' = reap is_alive active in (active', length active')

-- What the listener does with one connection: it closes it if enough are open already, and starts
-- a handler for it otherwise. The second result tells whether it was accepted. Threads may end
-- between the two times that the list is reaped.
unfoldable pub accept : ℕ → (ℕ → Bool) → (ℕ → Bool) → List ℕ → ℕ → List ℕ × Bool
unfolding count_active
accept max_clients is_alive still_alive active client =
    let (active', count) = count_active is_alive active in
    if leb max_clients count
    then (active', false)
    else (reap still_alive (active' ++ client ∷ []), true)

-- What the accept loop meets: a connection, or a timeout of the socket after a second.
pub data Arrival : Type 0 where
  connection : (ℕ → Bool) → (ℕ → Bool) → ℕ → Arrival
  no_connection : (ℕ → Bool) → Arrival

unfoldable pub serve : ℕ → List ℕ → List Arrival → List ℕ
unfolding accept reap
serve max_clients active [] = active
serve max_clients active (connection is_alive still_alive client ∷ arrivals) =
    serve max_clients (accept max_clients is_alive still_alive active client).0 arrivals
serve max_clients active (no_connection is_alive ∷ arrivals) =
    serve max_clients (reap is_alive active) arrivals

length-filter-le : (p : ℕ → Bool) (xs : List ℕ) → length (filter p xs) ≤ length xs
length-filter-le p [] = omega arith
length-filter-le p (x ∷ xs) = ground (arith, length-filter-le p xs)

accept_bound :
    (max_clients : ℕ) (is_alive still_alive : ℕ → Bool) (active : List ℕ) (client : ℕ)
    → length active ≤ max_clients
    → length (accept max_clients is_alive still_alive active client).0 ≤ max_clients
unfolding accept count_active reap
accept_bound max_clients is_alive still_alive active client h =
    let alive = filter is_alive active in
    elim (Bool-cases (leb max_clients (length alive))) [
      | inl full ↦ rw full (omega (arith, length-filter-le is_alive active))
      | inr room ↦ rw room (
          omega (
            arith,
            length-filter-le still_alive (alive ++ client ∷ []),
            length-append alive (client ∷ []),
            leb_false→lt _ _ room,
          ))
    ]

-- Whatever arrives and whichever threads end, there are never more handlers than `max_clients`.
pub serve-le-max_clients :
    (max_clients : ℕ) (active : List ℕ) (arrivals : List Arrival)
    → length active ≤ max_clients
    → length (serve max_clients active arrivals) ≤ max_clients
unfolding serve
serve-le-max_clients max_clients active [] h = h
serve-le-max_clients max_clients active (connection is_alive still_alive client ∷ arrivals) h =
    serve-le-max_clients max_clients (accept max_clients is_alive still_alive active client).0
      arrivals (accept_bound max_clients is_alive still_alive active client h)
serve-le-max_clients max_clients active (no_connection is_alive ∷ arrivals) h =
    serve-le-max_clients max_clients (reap is_alive active) arrivals
      (unfold reap in omega (arith, length-filter-le is_alive active))
