-- ===== src/Ingest/Handler.antt =====
-- ais_server/ingest.py: the thread of one connection. What the socket delivers is a list of events;
-- the sentences that the handler gives to the pipeline are collected in order.
pub mod Lines
pub mod Stream
use ais_server.Prelude.{
  ℕ, ◌+◌, Bool, true, false, ◌||◌, Option, none, some, List, [], ◌∷◌, ◌++◌, ltb, nat_eqb,
  if◌then◌else◌, ◌==◌, nat_eq, length, get_elem?, filter,
}
use ais_server.Prelude.Text.{Text, text_eq, strip}
use ais_server.Nmea.{NmeaParse, parse}
use ais_server.Ingest.Registry.{
  NodeInfo, NodeRegistry, open_event, close_event, should_log_session, on_session_start,
  on_session_end, set_source_id, touch,
}
use ais_server.Ingest.TagBlock.{strip_tag_block}
use ais_server.Ingest.Framing.{cut_lines}

-- The arguments of one call of `on_sentence`.
pub record Delivery : Type 0 where
  pub sentence : Text
  pub peer : Text
  pub arrival_ts : ℕ

-- A session: the registry it works on, its node object, its key and what it has delivered. `failed`
-- tells that a line raised `KeyError`.
pub record Session : Type 0 where
  pub registry : NodeRegistry
  pub info : ℕ
  pub key : Text
  pub delivered : List Delivery
  pub failed : Bool

-- `raw.decode("ascii", errors="ignore").strip("\r\n\t ")`
abbrev pub is_line_space : ℕ → Bool
is_line_space c = nat_eqb c 13 || nat_eqb c 10 || nat_eqb c 9 || nat_eqb c 32

unfoldable pub decode_line : Text → Text
decode_line raw = strip is_line_space (filter (λ c. ltb c 128) raw)

abbrev pub same_source : Text → Option NodeInfo → Bool
same_source s none = false
same_source s (some n) = elim n.source_id [ none ↦ false | some t ↦ s == t ]

abbrev pub take_identity : Session → Text → NodeRegistry × Option ℕ → Session
take_identity s source (r, none) = record s { registry = r; failed = true }
take_identity s source (r, some ref) = record s { registry = r; key = source }

-- The upgrade of the registry entry when a tag-block names a source id that the session's node
-- object does not have. The session keeps its node object.
unfoldable pub identify : Session → Option Text → ℕ → Session
identify s none now = s
identify s (some source) now =
    if same_source source (get_elem? s.registry.objects s.info)
    then s
    else take_identity s source (set_source_id s.registry s.key source now)

abbrev pub count_invalid : Session → ℕ → Session
count_invalid s now = record s { registry = touch s.registry s.key 0 false true now }

abbrev pub accept_sentence : Session → Text → ℕ → Session
accept_sentence s sentence now = record s {
  registry = touch s.registry s.key 0 true false now;
  delivered = s.delivered ++ (record { sentence = sentence; peer = s.key; arrival_ts = now }) ∷ [];
}

abbrev pub deliver_parsed : Session → Text → ℕ → Option NmeaParse → Session
deliver_parsed s sentence now none = count_invalid s now
deliver_parsed s sentence now (some p) =
    if p.checksum_ok then accept_sentence s sentence now else count_invalid s now

-- A sentence that parses and whose checksum is right is counted and delivered; any other is counted
-- as invalid.
unfoldable pub deliver : Session → Text → ℕ → Session
deliver s sentence now = if s.failed then s else deliver_parsed s sentence now (parse sentence)

abbrev pub handle_text : Session → Text → ℕ → Session
handle_text s [] now = s
handle_text s (c ∷ line) now =
    let (sentence, source) = strip_tag_block (c ∷ line) in
    deliver (identify s source now) sentence now

-- `_handle_line`
unfoldable pub handle_line : Session → Text → ℕ → Session
handle_line s raw now = handle_text s (decode_line raw) now

-- The inner loop; an exception leaves it.
unfoldable pub handle_lines : Session → List Text → ℕ → Session
handle_lines s [] now = s
handle_lines s (raw ∷ lines) now =
    let rest = handle_lines (handle_line s raw now) lines now in if s.failed then s else rest

-- What a `recv` gives: data, a timeout, the end of the stream, or an error.
pub data Received : Type 0 where
  chunk : Text → ℕ → Received
  idle_timeout : ℕ → Received
  closed : ℕ → Received
  socket_error : ℕ → Received

-- The `finally` block.
unfoldable pub finish : Session → ℕ → Session
finish s now = record s {
  registry = (should_log_session (on_session_end s.registry s.key) s.key close_event now).0;
}

-- One chunk of data: counted, appended to the buffer, and its whole lines handled.
unfoldable pub feed : Session → Text → Text → ℕ → Session × Text
feed s buf bytes now =
    let (lines, rest) = cut_lines (buf ++ bytes) in
    (
      handle_lines (record s { registry = touch s.registry s.key (length bytes) false false now })
          lines now,
      rest,
    )

-- The outer loop. While the socket stays open and there is nothing more to receive, it waits.
unfoldable pub receive : Session → Text → List Received → Session
receive s buf [] = s
receive s buf (chunk bytes now ∷ events) =
    let (s', rest) = feed s buf bytes now in
    let more = receive s' rest events in
    if nat_eqb (length bytes) 0 then finish s now else if s'.failed then finish s' now else more
receive s buf (idle_timeout now ∷ events) = finish s now
receive s buf (closed now ∷ events) = finish s now
receive s buf (socket_error now ∷ events) = finish s now

-- The session at its start, keyed by its host.
unfoldable pub open_session : NodeRegistry → Text → Text → ℕ → Session
open_session r peer host now =
    let (r', info) = on_session_start r peer host none now in
    record {
      registry = (should_log_session r' host open_event now).0;
      info = info;
      key = host;
      delivered = [];
      failed = false;
    }

unfoldable pub run : NodeRegistry → Text → Text → ℕ → List Received → Session
run r peer host now events = receive (open_session r peer host now) [] events
