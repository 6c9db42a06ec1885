-- ===== src/Server.antt =====
-- ais_server/__main__.py: the parts as `main` connects them, from the sockets of the receivers to the
-- forwarder. Each session runs as if no other one changed the registry meanwhile.
mod Tests
use ais_server.Prelude.{
  ℕ, ◌≡◌, refl, Bool, true, false, Option, none, some, List, [], ◌∷◌, ◌++◌, All, All-append,
  All-weaken, All-In, All-map, In,
}
use ais_server.Prelude.Text.{Text}
use ais_server.Ingest.Registry.{NodeRegistry}
use ais_server.Ingest.Registry.Views.{WellKeyed}
use ais_server.Ingest.Handler.{Delivery, Received}
use ais_server.Ingest.Handler
use ais_server.Ingest.Handler.Lines.{IsGood, run-IsSound}
use ais_server.Reorder
use ais_server.Reorder.Stream as Released
use ais_server.Reorder.Passed.{Offered, run-All}
use ais_server.Dedup.{Deduper}
use ais_server.Dedup.Cache.{TtlCache}
use ais_server.Forwarder.Manager.{Workers}
use ais_server.Pipeline.{Item, Pipeline}
use ais_server.Pipeline.Stream.{
  Event, sentence_in, output, run, accepted, push_if_new, check_of, run-Stream_run, sentence_of,
}

-- A connection: the registry when it opens, its peer and host, the time, and what its socket gives.
pub record Connection : Type 0 where
  pub registry : NodeRegistry
  pub peer : Text
  pub host : Text
  pub opened : ℕ
  pub received : List Received

abbrev pub delivered_by : Connection → List Delivery
delivered_by c = (Handler.run c.registry c.peer c.host c.opened c.received).delivered

-- The calls of `on_sentence` that the connections make.
abbrev pub all_delivered : List Connection → List Delivery
all_delivered [] = []
all_delivered (c ∷ connections) = delivered_by c ++ all_delivered connections

-- A call of `on_sentence` that one of the connections makes.
abbrev pub IsCall : List Delivery → Event → Type 0
IsCall deliveries (sentence_in sentence peer arrival_ts clock timer) =
    In (record { sentence = sentence; peer = peer; arrival_ts = arrival_ts }) deliveries
IsCall deliveries (output now) = Unit

-- A text is the sentence of a call, which parses and has a right checksum.
abbrev pub IsReceived : List Delivery → Text → Type 0
IsReceived deliveries t = (d : Delivery) × In d deliveries × (d.sentence ≡ t) × IsGood d

abbrev delivery_of : Item → Delivery
delivery_of i = record { sentence = i.sentence; peer = i.peer; arrival_ts = i.arrival_ts }

all_delivered-IsGood :
    (connections : List Connection)
    → All (λ c. WellKeyed c.registry) connections
    → All IsGood (all_delivered connections)
all_delivered-IsGood [] w = tt
all_delivered-IsGood (c ∷ connections) w =
    All-append IsGood (delivered_by c) (all_delivered connections)
      (run-IsSound c.registry c.peer c.host c.opened c.received w.0).good
      (all_delivered-IsGood connections w.1)

module _ (ttl max_entries : ℕ) (T : TtlCache Text ℕ ttl max_entries) (sha1 : Text → Text)
    (deliveries : List Delivery) where
  abbrev FromCall : Item → Type 0
  FromCall i = In (delivery_of i) deliveries

  pushed-Offered :
      (sentence peer : Text) (arrival_ts clock : ℕ) (answer : Option (Bool × ℕ))
      (rest : List (Released.Event Item))
      → In (record { sentence = sentence; peer = peer; arrival_ts = arrival_ts }) deliveries
      → Offered FromCall rest
      → Offered FromCall
          (push_if_new ttl max_entries T sha1 sentence peer arrival_ts clock answer rest)
  pushed-Offered sentence peer arrival_ts clock none rest i o = o
  pushed-Offered sentence peer arrival_ts clock (some (true, first)) rest i o = (i, o)
  pushed-Offered sentence peer arrival_ts clock (some (false, first)) rest i o = o

  accepted-Offered :
      (d : Deduper ttl max_entries T sha1) (events : List Event)
      → All (IsCall deliveries) events
      → Offered FromCall (accepted ttl max_entries T sha1 d events)
  unfolding accepted
  accepted-Offered d [] a = tt
  accepted-Offered d (sentence_in sentence peer arrival_ts clock timer ∷ events) a =
      let c = check_of ttl max_entries T sha1 d sentence arrival_ts clock timer in
      pushed-Offered sentence peer arrival_ts clock c.1 (accepted ttl max_entries T sha1 c.0 events)
        a.0 (accepted-Offered c.0 events a.1)
  accepted-Offered d (output now ∷ events) a = accepted-Offered d events a.1

-- From an empty reorder buffer, whatever the sockets of the connections give and in whatever order the
-- calls of `on_sentence` that their sessions make fall between the turns of the output loop: every
-- sentence that reaches the forwarder is one that a session handed on, and it parses and its checksum
-- is right.
pub dispatched-IsReceived :
    (ttl max_entries : ℕ) (T : TtlCache Text ℕ ttl max_entries) (sha1 : Text → Text)
    (p : Pipeline ttl max_entries T sha1) (workers : Workers) (hold max_queue : ℕ)
    (connections : List Connection) (events : List Event)
    → p.reorder ≡ Reorder.empty hold max_queue
    → All (λ c. WellKeyed c.registry) connections
    → All (IsCall (all_delivered connections)) events
    → All (IsReceived (all_delivered connections)) (run ttl max_entries T sha1 p workers events)
unfolding Reorder.empty
dispatched-IsReceived ttl max_entries T sha1 p workers hold max_queue connections events e w calls =
    let ds = all_delivered connections in
    let stream = accepted ttl max_entries T sha1 p.dedup events in
    let offered = accepted-Offered ttl max_entries T sha1 ds p.dedup events calls in
    let good = all_delivered-IsGood connections w in
    let From = FromCall ttl max_entries T sha1 ds in
    let released = Released.run p.reorder stream in
    let start : All (λ x. From x.payload) p.reorder.heap = rw e tt in
    rw (run-Stream_run ttl max_entries T sha1 p workers events) (
      All-map sentence_of (IsReceived ds) released (
        All-weaken From (λ i. IsReceived ds i.sentence) released
          (λ i h. (delivery_of i, h, refl, All-In IsGood (delivery_of i) ds good h))
          (run-All From p.reorder stream start offered)))
