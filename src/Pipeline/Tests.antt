-- ===== src/Pipeline/Tests.antt =====
-- A run of the pipeline of ais_server/pipeline.py: two copies of a sentence and a turn of the output.
use ais_server.Prelude.{ℕ, ◌≡◌, refl, List, [], ◌∷◌, map, arith}
use ais_server.Prelude.Text.{Text, codes}
use ais_server.Reorder
use ais_server.Reorder.Stream as Released
use ais_server.Dedup
use ais_server.Dedup.Cache.{TtlCache}
use ais_server.Dedup.Sample.{bounded_cache}
use ais_server.Events
use ais_server.Pipeline.{Pipeline, wait_ts, payload_of, intrinsic}
use ais_server.Pipeline.Stream.{
  Event, sentence_in, output, run, accepted, run-Stream_run, sentence_of,
}
use ais_server.Pipeline.Chronology.{stamp, Timely, dispatched-Chronological}

abbrev sample : TtlCache Text ℕ 10000 8
sample = bounded_cache 10000 8

abbrev digest : Text → Text
digest s = s

abbrev start : Pipeline 10000 8 sample digest
start = record {
  dedup = Dedup.init 10000 8 sample digest;
  reorder = Reorder.empty 2000 100;
  vitals = record { rate_bucket = []; mmsi_last = [] };
  bus = Events.new 500;
  subscribers_run = [];
}

abbrev first : Text
first = codes "!AIVDM,1,1,,A,13aEOK,0*26"

abbrev second : Text
second = codes "!AIVDM,1,1,,B,15Mvlf,0*31"

abbrev events : List Event
events =
    sentence_in first (codes "a") 700 700 0
    ∷ sentence_in second (codes "b") 600 701 1
    ∷ sentence_in first (codes "b") 800 800 100
    ∷ output 2750
    ∷ []

run-Stream_run_example :
    run 10000 8 sample digest start [] events
    ≡ map sentence_of
        (Released.run start.reorder (accepted 10000 8 sample digest start.dedup events))
run-Stream_run_example = run-Stream_run 10000 8 sample digest start [] events

events-Timely : Timely 2000 0 events
unfolding wait_ts payload_of intrinsic
events-Timely = (
  omega arith,
  ground arith,
  (omega arith, ground arith, (omega arith, ground arith, (omega arith, tt))),
)

dispatched-Chronological_example :
    let released = Released.run start.reorder (accepted 10000 8 sample digest start.dedup events) in
    (run 10000 8 sample digest start [] events ≡ map sentence_of released)
    × Released.Chronological (map stamp released)
dispatched-Chronological_example =
    dispatched-Chronological 10000 8 sample digest start [] 2000 100 events refl (omega arith)
      events-Timely
