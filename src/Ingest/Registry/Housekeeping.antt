-- ===== src/Ingest/Registry/Housekeeping.antt =====
-- ais_server/ingest.py: the log limit, the pruning of idle nodes and the list that the pages show.
use ais_server.Prelude.{
  ℕ, ◌+◌, Bool, true, false, ◌&&◌, not, Option, none, some, List, [], ◌∷◌, ltb, nat_eqb,
  if◌then◌else◌, nat_eq, get_elem?,
}
use ais_server.Prelude.Text.{Text, text_eq}
use ais_server.Prelude.Dict
use ais_server.Prelude.Dict.{Dict, keys, values}
use ais_server.Prelude.Sort.{sort_by}
use ais_server.Ingest.Registry.{NodeInfo, NodeRegistry, connected}
use ais_server.Ingest.Registry.Views.{view}

-- `(now - n.last_seen) > max_age`, with the subtraction moved over, for a node with no session.
abbrev pub is_stale : ℕ → ℕ → NodeInfo → Bool
is_stale max_age now n = not (ltb 0 n.active_sessions) && ltb (n.last_seen + max_age) now

abbrev pub prune_node : NodeRegistry → Text → ℕ → ℕ → Option NodeInfo → NodeRegistry × ℕ
prune_node r key max_age now none = (r, 0)
prune_node r key max_age now (some n) =
    if is_stale max_age now n
    then (record r { nodes = Dict.remove r.nodes key; last_log = Dict.remove r.last_log key }, 1)
    else (r, 0)

-- The loop over the keys. A key of the list is in the dictionary when its turn comes.
unfoldable pub prune_loop : NodeRegistry → List Text → ℕ → ℕ → ℕ → NodeRegistry × ℕ
unfolding view
prune_loop r [] max_age now removed = (r, removed)
prune_loop r (key ∷ ks) max_age now removed =
    let (r', gone) = prune_node r key max_age now (view r key) in
    prune_loop r' ks max_age now (removed + gone)

unfoldable pub prune_inactive : NodeRegistry → ℕ → ℕ → NodeRegistry × ℕ
prune_inactive r max_age now =
    if nat_eqb max_age 0 then (r, 0) else prune_loop r (keys r.nodes) max_age now 0

pub record NodeRow : Type 0 where
  pub peer : Text
  pub host : Text
  pub source_id : Option Text
  pub last_peer : Text
  pub first_seen : ℕ
  pub connected_at : ℕ
  pub last_seen : ℕ
  pub messages : ℕ
  pub invalid : ℕ
  pub bytes_rx : ℕ
  pub sessions : ℕ
  pub active_sessions : ℕ
  pub is_connected : Bool

abbrev pub row_of : NodeInfo → NodeRow
row_of n = record {
  peer = n.key;
  host = n.host;
  source_id = n.source_id;
  last_peer = n.last_peer;
  first_seen = n.first_seen;
  connected_at = n.connected_at;
  last_seen = n.last_seen;
  messages = n.messages;
  invalid = n.invalid;
  bytes_rx = n.bytes_rx;
  sessions = n.sessions;
  active_sessions = n.active_sessions;
  is_connected = connected n;
}

-- The order of the sort key `(not connected, -last_seen)`.
abbrev pub row_lt : NodeRow → NodeRow → Bool
row_lt a b =
    let later = ltb b.last_seen a.last_seen in
    if a.is_connected
    then if b.is_connected then later else true
    else if b.is_connected
    then false
    else later

abbrev pub add_row : Option NodeInfo → List NodeRow → List NodeRow
add_row none rows = rows
add_row (some n) rows = row_of n ∷ rows

-- One row for each entry of the dictionary.
abbrev pub rows_of : List NodeInfo → List ℕ → List NodeRow
rows_of objects [] = []
rows_of objects (i ∷ places) = add_row (get_elem? objects i) (rows_of objects places)

unfoldable pub snapshot : NodeRegistry → List NodeRow
unfolding sort_by
snapshot r = sort_by row_lt (rows_of r.objects (values r.nodes))
