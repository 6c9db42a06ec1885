-- ===== src/Pipeline/Chronology.antt =====
-- ais_server/pipeline.py: the order of the stream that reaches the forwarder.
use ais_server.Prelude.{
  ℕ, ◌+◌, ◌≤◌, ◌<◌, ◌≡◌, refl, Bool, true, false, Option, none, some, List, [], ◌∷◌, map, arith,
}
use ais_server.Prelude.Text.{Text}
use ais_server.Reorder
use ais_server.Reorder.Stream as Released
use ais_server.Dedup
use ais_server.Dedup.{Deduper, remember, decide}
use ais_server.Dedup.Cache.{TtlCache}
use ais_server.Forwarder.Manager.{Workers}
use ais_server.Pipeline.{Item, Pipeline, wait_ts}
use ais_server.Pipeline.Stream.{
  Event, sentence_in, output, run, accepted, push_if_new, check_of, run-Stream_run, sentence_of,
}

-- The clock does not run back, and each sentence arrives before its timestamp is `hold` old.
abbrev pub Timely : ℕ → ℕ → List Event → Type 0
Timely hold last [] = Unit
Timely hold last (sentence_in sentence peer arrival_ts clock timer ∷ events) =
    (last ≤ clock) × (clock < wait_ts sentence arrival_ts + hold) × Timely hold clock events
Timely hold last (output now ∷ events) = (last ≤ now) × Timely hold now events

-- The timestamp of an item: its own UTC time, or else its arrival.
abbrev pub stamp : Item → ℕ
stamp i = wait_ts i.sentence i.arrival_ts

Punctual-earlier :
    (hold m n : ℕ) (events : List (Released.Event Item))
    → m ≤ n
    → Released.Punctual stamp hold n events
    → Released.Punctual stamp hold m events
Punctual-earlier hold m n [] h p = tt
Punctual-earlier hold m n (Released.arrive i ts clock ∷ events) h p =
    (p.0, omega (arith, p.1), p.2, p.3)
Punctual-earlier hold m n (Released.release now ∷ events) h p = (omega (arith, p.0), p.1)

module _ (ttl max_entries : ℕ) (T : TtlCache Text ℕ ttl max_entries) (sha1 : Text → Text) where
  remember_new :
      (d : Deduper ttl max_entries T sha1) (ts : ℕ) (c : Option T.Cache) (v : ℕ)
      → (remember ttl max_entries T sha1 d ts c).1 ≡ some (true, v)
      → v ≡ ts
  remember_new d ts none v h = absurd (ground arith)
  remember_new d ts (some c) v h = ground arith

  decide_new :
      (d : Deduper ttl max_entries T sha1) (timer ts : ℕ) (k : Text) (o : Option ℕ) (v : ℕ)
      → (decide ttl max_entries T sha1 d timer ts k o).1 ≡ some (true, v)
      → v ≡ ts
  decide_new d timer ts k none v h = remember_new d ts (T.store timer d.cache k ts) v h
  decide_new d timer ts k (some existing) v h = absurd (ground arith)

  -- A sentence that is new comes back with its own arrival.
  check_new :
      (d : Deduper ttl max_entries T sha1) (sentence : Text) (arrival_ts clock timer v : ℕ)
      → (check_of ttl max_entries T sha1 d sentence arrival_ts clock timer).1 ≡ some (true, v)
      → v ≡ arrival_ts
  unfolding Dedup.check
  check_new d sentence arrival_ts clock timer v h =
      let found = T.lookup timer d.cache (Dedup.key ttl max_entries T sha1 sentence) in
      decide_new (record d { cache = found.0; seen = d.seen + 1 }) timer arrival_ts
        (Dedup.key ttl max_entries T sha1 sentence) found.1 v h

  pushed_Punctual :
      (hold last : ℕ) (sentence peer : Text) (arrival_ts clock : ℕ) (answer : Option (Bool × ℕ))
      (rest : List (Released.Event Item))
      → ((v : ℕ) → answer ≡ some (true, v) → v ≡ arrival_ts)
      → last ≤ clock
      → clock < wait_ts sentence arrival_ts + hold
      → Released.Punctual stamp hold clock rest
      → Released.Punctual stamp hold last
          (push_if_new ttl max_entries T sha1 sentence peer arrival_ts clock answer rest)
  pushed_Punctual hold last sentence peer arrival_ts clock none rest new l t p =
      Punctual-earlier hold last clock rest l p
  pushed_Punctual hold last sentence peer arrival_ts clock (some (false, v)) rest new l t p =
      Punctual-earlier hold last clock rest l p
  pushed_Punctual hold last sentence peer arrival_ts clock (some (true, v)) rest new l t p =
      let e : v ≡ arrival_ts = new v refl in rw e (refl, l, t, p)

  accepted-Punctual :
      (hold last : ℕ) (d : Deduper ttl max_entries T sha1) (events : List Event)
      → Timely hold last events
      → Released.Punctual stamp hold last (accepted ttl max_entries T sha1 d events)
  unfolding accepted
  accepted-Punctual hold last d [] t = tt
  accepted-Punctual hold last d (sentence_in sentence peer arrival_ts clock timer ∷ events) t =
      let c = check_of ttl max_entries T sha1 d sentence arrival_ts clock timer in
      pushed_Punctual hold last sentence peer arrival_ts clock c.1
        (accepted ttl max_entries T sha1 c.0 events)
        (λ v. check_new d sentence arrival_ts clock timer v) t.0 t.1
        (accepted-Punctual hold clock c.0 events t.2)
  accepted-Punctual hold last d (output now ∷ events) t =
      (t.0, accepted-Punctual hold now d events t.1)

  -- A pipeline whose reorder buffer starts empty and has room, when the clock does not run back and
  -- each sentence arrives before its timestamp is `hold` old, whatever the duplicate detector holds:
  -- the sentences reach the forwarder in the order of their timestamps, over the whole run.
  pub dispatched-Chronological :
      (p : Pipeline ttl max_entries T sha1) (workers : Workers) (hold max_queue : ℕ)
      (events : List Event)
      → p.reorder ≡ Reorder.empty hold max_queue
      → 0 < max_queue
      → Timely hold 0 events
      → let released = Released.run p.reorder (accepted ttl max_entries T sha1 p.dedup events) in
        (run ttl max_entries T sha1 p workers events ≡ map sentence_of released)
        × Released.Chronological (map stamp released)
  dispatched-Chronological p workers hold max_queue events e room t =
      let stream = accepted ttl max_entries T sha1 p.dedup events in
      (
        run-Stream_run ttl max_entries T sha1 p workers events,
        rw e (
            Released.run-Chronological stamp hold max_queue stream room
              (accepted-Punctual hold 0 p.dedup events t)),
      )
