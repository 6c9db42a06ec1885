-- ===== src/Ingest/Tests.antt =====
-- Runs of the ingest of ais_server/ingest.py.
use ais_server.Prelude.{
  ℕ, ◌+◌, ◌≤◌, ◌<◌, ◌≡◌, refl, Bool, true, false, not, none, some, List, [], ◌∷◌, ◌++◌, arith,
  nat_eqb, nat_eq, length,
}
use ais_server.Prelude.Text.{Text, codes, text_eq, is_space, strip}
use ais_server.Prelude.Dict
use ais_server.Prelude.Dict.{Dict, values}
use mathlib.Core.List.{Perm}
use ais_server.Ingest.Registry.{
  NodeInfo, NodeRegistry, connected, empty, new_node, on_session_start, end_update, on_session_end,
  start_update,
}
use ais_server.Ingest.Registry
use ais_server.Ingest.Registry.Views.{view, WellKeyed}
use ais_server.Ingest.Registry.Keyed.{on_session_start-WellKeyed}
use ais_server.Ingest.Registry.Sessions.{
  running, session_with_upgrade_balanced, reconnect_leaves_host_connected,
}
use ais_server.Ingest.Registry.SourceIds.{view-set_source_id}
use ais_server.Ingest.Registry.Housekeeping.{prune_inactive, snapshot, rows_of, row_lt}
use ais_server.Ingest.Registry.Upkeep.{view-prune_inactive}
use ais_server.Ingest.Registry.Listed.{snapshot-InOrder}
use ais_server.Prelude.Sort.{InOrder}
use ais_server.Ingest.TagBlock.{tagged, strip_tag_block, or_none, strip_tag_block-tagged}
use ais_server.Ingest.Framing.{CutOf}
use ais_server.Ingest.Handler
use ais_server.Ingest.Handler.{Session, Received, chunk, closed, finish, receive, open_session, run}
use ais_server.Ingest.Handler.Stream.{Handled, stream, arrivals, receive-stream}
use ais_server.Ingest.Handler.Lines.{IsSound, run-IsSound}
use ais_server.Ingest.Listener.{connection, no_connection, serve, serve-le-max_clients}

abbrev host : Text
host = codes "10.0.0.5"

abbrev source : Text
source = codes "node-1"

abbrev peer : Text
peer = codes "10.0.0.5:40000"

empty-WellKeyed : WellKeyed empty
unfolding empty Dict.get
empty-WellKeyed k i h = absurd (ground arith)

-- A session by host, and one by the source id.
abbrev by_host : NodeRegistry
by_host = (on_session_start empty peer host none 100).0

abbrev by_source : NodeRegistry
by_source = (on_session_start empty peer (codes "10.0.0.9") (some source) 100).0

by_host-WellKeyed : WellKeyed by_host
by_host-WellKeyed = on_session_start-WellKeyed empty peer host none 100 empty-WellKeyed

by_source-WellKeyed : WellKeyed by_source
by_source-WellKeyed =
    on_session_start-WellKeyed empty peer (codes "10.0.0.9") (some source) 100 empty-WellKeyed

abbrev host_node : NodeInfo
host_node = start_update peer host 100 (new_node host host none 100 100)

view-set_source_id_case :
    view (Registry.set_source_id by_host host source 200).0 source
    ≡ some (Registry.upgrade_update source host_node)
unfolding empty view on_session_start Dict.get Dict.put
view-set_source_id_case =
    view-set_source_id by_host host source 200 host_node source by_host-WellKeyed refl refl refl

session_with_upgrade_balanced_example :
    (view
        (on_session_end
          (Registry.set_source_id (on_session_start empty peer host none 100).0 host source 200).0
          source)
        source
      ≡ some (record (running empty peer host 100) {
        key = source;
        source_id = some source;
        active_sessions = 0;
      }))
    × (view
          (on_session_end
            (Registry.set_source_id (on_session_start empty peer host none 100).0 host source 200).0
            source)
          host
        ≡ none)
unfolding empty view Dict.get
session_with_upgrade_balanced_example =
    session_with_upgrade_balanced empty peer host source 100 200 empty-WellKeyed refl refl refl

abbrev source_node : NodeInfo
source_node =
    start_update peer (codes "10.0.0.9") 100
      (new_node source (codes "10.0.0.9") (some source) 100 100)

reconnect_leaves_host_connected_example :
    (view
        (on_session_end
          (Registry.set_source_id
            (on_session_start by_source peer host none 300).0
            host
            source
            400).0
          source)
        host
      ≡ some (running by_source peer host 300))
    × (connected (running by_source peer host 300) ≡ true)
    × (view
          (on_session_end
            (Registry.set_source_id
              (on_session_start by_source peer host none 300).0
              host
              source
              400).0
            source)
          source
        ≡ some (end_update source_node))
unfolding empty view on_session_start Dict.get Dict.put
reconnect_leaves_host_connected_example =
    reconnect_leaves_host_connected by_source peer host source 300 400 source_node
      by_source-WellKeyed refl refl

-- The session has ended, and the node is pruned later.
abbrev ended : NodeRegistry
ended = on_session_end by_host host

view-prune_inactive_example :
    (view ended host ≡ none → view (prune_inactive ended 1000 5000).0 host ≡ none)
    × ((n : NodeInfo)
        → view ended host ≡ some n
        → (n.active_sessions ≡ 0
            → n.last_seen + 1000 < 5000
            → view (prune_inactive ended 1000 5000).0 host ≡ none)
          × (0 < n.active_sessions → view (prune_inactive ended 1000 5000).0 host ≡ some n)
          × (5000 ≤ n.last_seen + 1000 → view (prune_inactive ended 1000 5000).0 host ≡ some n))
view-prune_inactive_example = view-prune_inactive ended 1000 5000 host (omega arith)

snapshot-InOrder_case :
    InOrder row_lt (snapshot by_host)
    × Perm (snapshot by_host) (rows_of by_host.objects (values by_host.nodes))
snapshot-InOrder_case = snapshot-InOrder by_host

strip_tag_block-tagged_example :
    strip_tag_block
      (tagged (codes "g:1-2-73" ∷ codes "s:node-1" ∷ []) (codes "5A") (codes "!AIVDM"))
    ≡ (codes "!AIVDM", or_none (strip is_space (codes "node-1")))
strip_tag_block-tagged_example =
    strip_tag_block-tagged (codes "g:1-2-73") (codes "s:node-1" ∷ []) (codes "g:1-2-73" ∷ []) []
      (codes "node-1") (codes "5A") (codes "!AIVDM") refl (refl, tt) (refl, (refl, tt))
      (refl, (refl, tt)) refl refl

-- A line and the end of its next line come in two chunks.
abbrev chunks : List (Text × ℕ)
chunks =
    (codes "!AIVDM,1,1,,A,13aEOK?P00PD2wVMdLDRhgvL289?,0*26" ++ 13 ∷ 10 ∷ codes "ba", 150)
    ∷ (codes "d" ++ 10 ∷ codes "!A", 160)
    ∷ []

abbrev opened : Session
opened = open_session empty peer host 100

opened_unfailed : (receive opened [] (arrivals chunks 200)).failed ≡ false
unfolding receive open_session Handler.feed Handler.handle_lines Handler.handle_line Handler.deliver
    Handler.identify ais_server.Ingest.Framing.cut_lines Handler.decode_line strip_tag_block
    ais_server.Nmea.parse Handler.finish ais_server.Nmea.ais_re ais_server.Nmea.parse_parts
    ais_server.Prelude.Number.int_decimal ais_server.Nmea.fill_of ais_server.Nmea.validate_checksum
opened_unfailed = refl

receive-stream_example :
    (lines : List Text) × (rest : Text) × (s' : Session) × CutOf (stream chunks) (lines, rest)
    × Handled opened lines (length (stream chunks)) s'
    × (receive opened [] (arrivals chunks 200) ≡ finish s' 200)
receive-stream_example =
    receive-stream 200 opened chunks (omega arith, (omega arith, tt)) opened_unfailed

abbrev received : List Received
received =
    chunk (codes "!AIVDM,1,1,,A,13aEOK?P00PD2wVMdLDRhgvL289?,0*26" ++ 13 ∷ 10 ∷ codes "bad") 150
    ∷ chunk (10 ∷ []) 160
    ∷ closed 200
    ∷ []

run-IsSound_example : IsSound (run empty peer host 100 received)
run-IsSound_example = run-IsSound empty peer host 100 received empty-WellKeyed

abbrev always : ℕ → Bool
always t = true

abbrev but_one : ℕ → Bool
but_one t = not (nat_eqb t 1)

serve-le-max_clients_case :
    length (
      serve 2 [] (
        connection always always 1
        ∷ connection always always 2
        ∷ connection always always 3
        ∷ no_connection but_one
        ∷ connection but_one but_one 4
        ∷ []))
    ≤ 2
serve-le-max_clients_case =
    serve-le-max_clients 2 []
      (connection always always 1
        ∷ connection always always 2
        ∷ connection always always 3
        ∷ no_connection but_one
        ∷ connection but_one but_one 4
        ∷ [])
      (omega arith)
