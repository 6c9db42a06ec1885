-- ===== src/Ingest/Registry.antt =====
-- ais_server/ingest.py: the registry of logical nodes. The sessions share the node objects with the
-- registry, so the objects stand in a store of their own and the dictionary holds their places in
-- it. Times, intervals and ages are whole milliseconds.
pub mod SourceIds
pub mod Views
pub mod Keyed
pub mod Moves
pub mod Sessions
pub mod Housekeeping
pub mod Upkeep
pub mod Listed
use ais_server.Prelude.{
  ℕ, zero, suc, ◌+◌, ◌-◌, Bool, true, false, ◌||◌, Option, none, some, List, [], ◌∷◌, ◌++◌, ltb,
  leb, if◌then◌else◌, ◌==◌, nat_eq, length,
}
use ais_server.Prelude.Text.{Text, text_eq}
use ais_server.Prelude.Dict
use ais_server.Prelude.Dict.{Dict}

pub record NodeInfo : Type 0 where
  pub key : Text
  pub host : Text
  pub source_id : Option Text
  pub first_seen : ℕ
  pub last_seen : ℕ
  pub connected_at : ℕ
  pub messages : ℕ
  pub invalid : ℕ
  pub bytes_rx : ℕ
  pub sessions : ℕ
  pub active_sessions : ℕ
  pub last_peer : Text
  -- Nothing in the program reads or writes it.
  pub multipart : Dict Text Text

abbrev pub connected : NodeInfo → Bool
connected n = ltb 0 n.active_sessions

pub record NodeRegistry : Type 0 where
  pub objects : List NodeInfo
  pub nodes : Dict Text ℕ
  pub last_log : Dict Text (ℕ × ℕ)

unfoldable pub empty : NodeRegistry
empty = record { objects = []; nodes = []; last_log = [] }

-- `_SESSION_LOG_MIN_INTERVAL`
abbrev pub session_log_min_interval : ℕ
session_log_min_interval = 60000

-- The two events that the program logs.
pub data LogEvent : Type 0 where
  open_event close_event : LogEvent

-- An absent key stands for `(0.0, 0.0)`.
abbrev pub times_or_zero : Option (ℕ × ℕ) → ℕ × ℕ
times_or_zero none = (0, 0)
times_or_zero (some p) = p

abbrev pub log_times : NodeRegistry → Text → ℕ × ℕ
log_times r key = times_or_zero (Dict.get r.last_log key)

-- `now - open_ts >= interval`, with the subtraction moved over.
unfoldable pub should_log_session : NodeRegistry → Text → LogEvent → ℕ → NodeRegistry × Bool
should_log_session r key open_event now =
    let (open_ts, close_ts) = log_times r key in
    if leb (open_ts + session_log_min_interval) now
    then (record r { last_log = Dict.put r.last_log key (now, close_ts) }, true)
    else (r, false)
should_log_session r key close_event now =
    let (open_ts, close_ts) = log_times r key in
    if leb (close_ts + session_log_min_interval) now
    then (record r { last_log = Dict.put r.last_log key (open_ts, now) }, true)
    else (r, false)

-- Writes through a reference.
abbrev pub modify : List NodeInfo → ℕ → (NodeInfo → NodeInfo) → List NodeInfo
modify [] i f = []
modify (n ∷ ns) zero f = f n ∷ ns
modify (n ∷ ns) (suc i) f = n ∷ modify ns i f

abbrev pub new_node : Text → Text → Option Text → ℕ → ℕ → NodeInfo
new_node key host source_id now connected_at = record {
  key = key;
  host = host;
  source_id = source_id;
  first_seen = now;
  last_seen = now;
  connected_at = connected_at;
  messages = 0;
  invalid = 0;
  bytes_rx = 0;
  sessions = 0;
  active_sessions = 0;
  last_peer = [];
  multipart = [];
}

-- Makes an object and enters it under its key.
abbrev pub register : NodeRegistry → NodeInfo → NodeRegistry
register r n = record r {
  objects = r.objects ++ n ∷ [];
  nodes = Dict.put r.nodes n.key (length r.objects);
}

-- `source_id or host`
abbrev pub session_key : Option Text → Text → Text
session_key none host = host
session_key (some []) host = host
session_key (some (c ∷ s)) host = c ∷ s

abbrev pub start_update : Text → Text → ℕ → NodeInfo → NodeInfo
start_update peer host now n = record n {
  last_peer = peer;
  host = host;
  sessions = n.sessions + 1;
  active_sessions = n.active_sessions + 1;
  connected_at = now;
  last_seen = now;
}

abbrev pub update_object : NodeRegistry → ℕ → (NodeInfo → NodeInfo) → NodeRegistry
update_object r i f = record r { objects = modify r.objects i f }

-- The object of a key, made first if there is none.
abbrev pub find_or_register : NodeRegistry → NodeInfo → Option ℕ → NodeRegistry × ℕ
find_or_register r n none = (register r n, length r.objects)
find_or_register r n (some i) = (r, i)

-- The reference to the node of the session.
unfoldable pub on_session_start : NodeRegistry → Text → Text → Option Text → ℕ → NodeRegistry × ℕ
on_session_start r peer host source_id now =
    let key = session_key source_id host in
    let (r', i) = find_or_register r (new_node key host source_id now now) (Dict.get r.nodes key) in
    (update_object r' i (start_update peer host now), i)

-- `if info.active_sessions > 0: info.active_sessions -= 1`
abbrev pub end_update : NodeInfo → NodeInfo
end_update n =
    if ltb 0 n.active_sessions then record n { active_sessions = n.active_sessions - 1 } else n

abbrev pub update_at : NodeRegistry → (NodeInfo → NodeInfo) → Option ℕ → NodeRegistry
update_at r f none = r
update_at r f (some i) = update_object r i f

-- Writes to the node of a key, if there is one.
unfoldable pub update_key : NodeRegistry → Text → (NodeInfo → NodeInfo) → NodeRegistry
update_key r key f = update_at r f (Dict.get r.nodes key)

unfoldable pub on_session_end : NodeRegistry → Text → NodeRegistry
unfolding update_key
on_session_end r key = update_key r key end_update

abbrev pub upgrade_update : Text → NodeInfo → NodeInfo
upgrade_update source_id n = record n { key = source_id; source_id = some source_id }

abbrev pub is_some {ℓ} : {A : Type ℓ} → Option A → Bool
is_some none = false
is_some (some a) = true

-- `self._nodes.get(source_id) or self._nodes[old_key]`; no reference is a `KeyError`.
abbrev pub known_node : NodeRegistry → Text → Text → Option ℕ
known_node r old_key source_id = elim (Dict.get r.nodes source_id) [
  | some i ↦ some i
  | none ↦ Dict.get r.nodes old_key
]

-- Moves the node of the old key to the new one.
abbrev pub upgrade : NodeRegistry → Text → Text → Option ℕ → ℕ → NodeRegistry × Option ℕ
upgrade r old_key source_id none now =
    (register r (new_node source_id [] (some source_id) now 0), some (length r.objects))
upgrade r old_key source_id (some i) now = (
  record r {
    objects = modify r.objects i (upgrade_update source_id);
    nodes = Dict.put (Dict.remove r.nodes old_key) source_id i;
  },
  some i,
)

unfoldable pub set_source_id : NodeRegistry → Text → Text → ℕ → NodeRegistry × Option ℕ
set_source_id r old_key source_id now =
    if old_key == source_id || is_some (Dict.get r.nodes source_id)
    then (r, known_node r old_key source_id)
    else upgrade r old_key source_id (Dict.get r.nodes old_key) now

abbrev pub bump : Bool → ℕ → ℕ
bump b n = if b then n + 1 else n

abbrev pub touch_update : ℕ → Bool → Bool → ℕ → NodeInfo → NodeInfo
touch_update nbytes msg invalid now n = record n {
  last_seen = now;
  bytes_rx = n.bytes_rx + nbytes;
  messages = bump msg n.messages;
  invalid = bump invalid n.invalid;
}

unfoldable pub touch : NodeRegistry → Text → ℕ → Bool → Bool → ℕ → NodeRegistry
unfolding update_key
touch r key nbytes msg invalid now = update_key r key (touch_update nbytes msg invalid now)
