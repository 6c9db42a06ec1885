-- ===== src/Forwarder/Manager.antt =====
-- ais_server/forwarder.py: the manager of the workers. `joins` tells of each worker whether
-- `w.join(timeout=3)` returns after it was stopped: the class keeps an event in the attribute
-- `_stop`, where `threading.Thread` of Python up to 3.12 has the method that `join` calls once the
-- thread has ended, so `join` raises `TypeError` then, and returns only when it times out.
mod Match
pub mod Stopped
pub mod Sync
pub mod Stuck
use ais_server.Prelude.{
  ℕ, Bool, true, false, ◌&&◌, not, Option, none, some, List, [], ◌∷◌, map, if◌then◌else◌, nat_eq,
  length,
}
use ais_server.Prelude.Int.{int_eqb}
use ais_server.Prelude.Text.{Text, text_eqb, text_eq}
use ais_server.Prelude.Dict
use ais_server.Prelude.Dict.{Dict}
use ais_server.Forwarder.Worker.{Endpoint, EndpointStats, Worker, new_worker, put, stop}

abbrev pub Workers : Type 0
Workers = Dict ℕ Worker

abbrev pub bool_eqb : Bool → Bool → Bool
bool_eqb true b = b
bool_eqb false b = not b

abbrev pub option_eqb : Option Text → Option Text → Bool
option_eqb none none = true
option_eqb (some s) (some t) = text_eqb s t
option_eqb _ _ = false

unfoldable pub endpoint_match : Endpoint → Endpoint → Bool
endpoint_match a b =
    text_eqb a.protocol b.protocol
    && text_eqb a.host b.host
    && int_eqb a.port b.port
    && option_eqb a.path b.path
    && text_eqb a.name b.name
    && bool_eqb a.enabled b.enabled
    && bool_eqb a.broadcast b.broadcast

-- `{ep.id: ep for ep in endpoints if ep.enabled}`
unfoldable pub wanted_from : Dict ℕ Endpoint → List Endpoint → Dict ℕ Endpoint
wanted_from d [] = d
wanted_from d (ep ∷ endpoints) =
    wanted_from (if ep.enabled then Dict.put d ep.id ep else d) endpoints

unfoldable pub must_stop : Option Endpoint → Worker → Bool
unfolding endpoint_match
must_stop none w = true
must_stop (some ep) w = not (endpoint_match ep w.ep)

-- The workers, and whether an exception ended the call.
abbrev pub Outcome : Type 0
Outcome = Workers × Bool

-- One turn of the first loop: `stays` and `removed` are what the rest of the loop makes of the
-- workers if this one stays and if it is deleted. A missing key is a `KeyError`.
abbrev pub stop_one :
    Workers → ℕ → Option Endpoint → Bool → Outcome → Outcome → Option Worker → Outcome
stop_one workers eid ep joined stays removed none = (workers, true)
stop_one workers eid ep joined stays removed (some w) =
    if must_stop ep w
    then (if joined then removed else (Dict.put workers eid (stop w), true))
    else stays

-- `for eid in list(existing)`, over the keys in the order of the set.
unfoldable pub stop_loop : (ℕ → Bool) → Dict ℕ Endpoint → List ℕ → Workers → Outcome
unfolding must_stop stop
stop_loop joins wanted [] workers = (workers, false)
stop_loop joins wanted (eid ∷ existing) workers =
    let stays = stop_loop joins wanted existing workers in
    let removed = stop_loop joins wanted existing (Dict.remove workers eid) in
    stop_one workers eid (Dict.get wanted eid) (joins eid) stays removed (Dict.get workers eid)

unfoldable pub start_if_missing : ℕ → ℕ → Endpoint → Workers → Option Worker → Workers
unfolding new_worker
start_if_missing queue_size eid ep workers none = Dict.put workers eid (new_worker ep queue_size)
start_if_missing queue_size eid ep workers (some w) = workers

unfoldable pub start_loop : ℕ → Dict ℕ Endpoint → Workers → Workers
unfolding start_if_missing
start_loop queue_size [] workers = workers
start_loop queue_size ((eid, ep) ∷ wanted) workers =
    start_loop queue_size wanted (start_if_missing queue_size eid ep workers (Dict.get workers eid))

unfoldable pub start_after : ℕ → Dict ℕ Endpoint → Outcome → Outcome
unfolding start_loop
start_after queue_size wanted (workers, true) = (workers, true)
start_after queue_size wanted (workers, false) = (start_loop queue_size wanted workers, false)

-- `existing` is the set of the keys of the workers in the order of its iteration.
unfoldable pub sync : ℕ → (ℕ → Bool) → List ℕ → List Endpoint → Workers → Outcome
unfolding stop_loop start_after wanted_from
sync queue_size joins existing endpoints workers =
    let wanted = wanted_from [] endpoints in
    start_after queue_size wanted (stop_loop joins wanted existing workers)

unfoldable pub dispatch : Workers → Text → Workers
unfolding put
dispatch [] sentence = []
dispatch ((eid, w) ∷ workers) sentence = (eid, put w sentence) ∷ dispatch workers sentence

-- The workers that are stopped; the manager forgets all of them.
unfoldable pub stop_all : Workers → List Worker × Workers
unfolding stop
stop_all workers = (map (λ e. stop e.1) workers, [])

-- A row of `stats`.
pub record EndpointRow : Type 0 where
  pub ep : Endpoint
  pub stats : EndpointStats
  pub queue_depth : ℕ

unfoldable pub stats : Workers → List EndpointRow
stats [] = []
stats ((eid, w) ∷ workers) =
    record { ep = w.ep; stats = w.stats; queue_depth = length w.queue.items } ∷ stats workers
