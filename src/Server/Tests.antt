-- ===== src/Server/Tests.antt =====
-- A run from one socket to the forwarder: a good line, a bad one, and a turn of the output loop.
use ais_server.Prelude.{ℕ, refl, List, [], ◌∷◌, ◌++◌, All, at_head, arith}
use ais_server.Prelude.Text.{Text, codes}
use ais_server.Prelude.Dict
use ais_server.Reorder
use ais_server.Dedup
use ais_server.Dedup.Cache.{TtlCache}
use ais_server.Dedup.Sample.{bounded_cache}
use ais_server.Events
use ais_server.Ingest.Registry.{empty}
use ais_server.Ingest.Registry.Views.{WellKeyed}
use ais_server.Ingest.Handler.{chunk, closed}
use ais_server.Ingest.Handler
use ais_server.Pipeline.{Pipeline}
use ais_server.Pipeline.Stream.{Event, sentence_in, output, run}
use ais_server.Server.{Connection, all_delivered, IsCall, IsReceived, dispatched-IsReceived}

abbrev sample : TtlCache Text ℕ 10000 8
sample = bounded_cache 10000 8

abbrev digest : Text → Text
digest s = s

abbrev start : Pipeline 10000 8 sample digest
start = record {
  dedup = Dedup.init 10000 8 sample digest;
  reorder = Reorder.empty 2000 100;
  vitals = record { rate_bucket = []; mmsi_last = [] };
  bus = Events.new 500;
  subscribers_run = [];
}

abbrev line : Text
line = codes "!AIVDM,1,1,,A,13aEOK?P00PD2wVMdLDRhgvL289?,0*26"

abbrev connection : Connection
connection = record {
  registry = empty;
  peer = codes "10.0.0.5:40000";
  host = codes "10.0.0.5";
  opened = 100;
  received = chunk (line ++ 13 ∷ 10 ∷ codes "bad") 150 ∷ chunk (10 ∷ []) 160 ∷ closed 200 ∷ [];
}

abbrev events : List Event
events = sentence_in line (codes "10.0.0.5") 150 151 0 ∷ output 5000 ∷ []

empty-WellKeyed : WellKeyed empty
unfolding empty Dict.get
empty-WellKeyed k i h = absurd (ground arith)

calls : All (IsCall (all_delivered (connection ∷ []))) events
unfolding Handler.run Handler.receive Handler.feed Handler.handle_lines
    ais_server.Ingest.Framing.cut_lines Handler.open_session Handler.handle_line Handler.decode_line
    Handler.deliver Handler.identify ais_server.Ingest.TagBlock.strip_tag_block
    ais_server.Nmea.parse ais_server.Nmea.ais_re ais_server.Nmea.parse_parts
    ais_server.Prelude.Number.int_decimal ais_server.Nmea.fill_of ais_server.Nmea.validate_checksum
    Handler.finish ais_server.Ingest.Registry.on_session_end
    ais_server.Ingest.Registry.on_session_start ais_server.Ingest.Registry.set_source_id
    ais_server.Ingest.Registry.should_log_session ais_server.Ingest.Registry.touch
    ais_server.Ingest.Registry.update_key ais_server.Nmea.xor_loop Dict.get Dict.put Dict.remove
    ais_server.Prelude.Number.digits ais_server.Prelude.Number.int_hex
    ais_server.Prelude.Number.signed
calls = (at_head refl, (tt, tt))

dispatched-IsReceived_example :
    All (IsReceived (all_delivered (connection ∷ []))) (run 10000 8 sample digest start [] events)
dispatched-IsReceived_example =
    dispatched-IsReceived 10000 8 sample digest start [] 2000 100 (connection ∷ []) events refl
      (empty-WellKeyed, tt) calls
