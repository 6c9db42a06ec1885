-- ===== src/Pipeline/Stream.antt =====
-- ais_server/pipeline.py: the stream that reaches the forwarder, over any sequence of sentences and
-- turns of the output loop.
use ais_server.Prelude.{
  ℕ, ◌≡◌, refl, sym, ap, ◌∙◌, Bool, true, false, Option, none, some, List, [], ◌∷◌, ◌++◌, map,
}
use ais_server.Prelude.Text.{Text}
use mathlib.Core.List.{map-append}
use ais_server.Reorder
use ais_server.Reorder.{ReorderBuffer, Status, returned, index_error}
use ais_server.Reorder.Stream as Stream
use ais_server.Dedup
use ais_server.Dedup.{Deduper}
use ais_server.Dedup.Cache.{TtlCache}
use ais_server.Forwarder.Manager
use ais_server.Forwarder.Manager.{Workers}
use ais_server.Pipeline.{
  Item, Pipeline, wait_ts, after_push, after_check, on_sentence, dispatch_all, output_turn,
}

pub data Event : Type 0 where
  -- A sentence, its peer, its arrival, and what the clock and the cache's timer show.
  sentence_in : Text → Text → ℕ → ℕ → ℕ → Event
  output : ℕ → Event

abbrev pub sentence_of : Item → Text
sentence_of i = i.sentence

module _ (ttl max_entries : ℕ) (T : TtlCache Text ℕ ttl max_entries) (sha1 : Text → Text) where
  abbrev pub State : Type 0
  State = Pipeline ttl max_entries T sha1

  abbrev pub Check : Type 0
  Check = Deduper ttl max_entries T sha1 × Option (Bool × ℕ)

  abbrev pub check_of : Deduper ttl max_entries T sha1 → Text → ℕ → ℕ → ℕ → Check
  check_of d sentence arrival_ts clock timer =
      Dedup.check ttl max_entries T sha1 d sentence (some arrival_ts) clock timer

  -- The sentences that are dispatched, in order.
  unfoldable pub run : State → Workers → List Event → List Text
  unfolding on_sentence output_turn
  run p workers [] = []
  run p workers (sentence_in sentence peer arrival_ts clock timer ∷ events) =
      run (on_sentence ttl max_entries T sha1 p sentence peer arrival_ts clock timer) workers events
  run p workers (output now ∷ events) =
      let turn = output_turn ttl max_entries T sha1 p workers now now in
      turn.2 ++ run turn.0 turn.1 events

  abbrev pub push_if_new :
      Text → Text → ℕ → ℕ → Option (Bool × ℕ) → List (Stream.Event Item) → List (Stream.Event Item)
  push_if_new sentence peer arrival_ts clock (some (true, first)) rest =
      Stream.arrive record { sentence = sentence; peer = peer; arrival_ts = arrival_ts }
        (wait_ts sentence first) clock
      ∷ rest
  push_if_new sentence peer arrival_ts clock _ rest = rest

  -- What the duplicate detector lets through to the reorder buffer, and the releases.
  unfoldable pub accepted : Deduper ttl max_entries T sha1 → List Event → List (Stream.Event Item)
  accepted d [] = []
  accepted d (sentence_in sentence peer arrival_ts clock timer ∷ events) =
      let (d', answer) = check_of d sentence arrival_ts clock timer in
      push_if_new sentence peer arrival_ts clock answer (accepted d' events)
  accepted d (output now ∷ events) = Stream.release now ∷ accepted d events

  after_push-state :
      (p : State) (sentence peer : Text) (arrival_ts : ℕ) (r : ReorderBuffer Item × Status)
      → let q = after_push ttl max_entries T sha1 p sentence peer arrival_ts r in
        (q.dedup ≡ p.dedup) × (q.reorder ≡ r.0)
  after_push-state p sentence peer arrival_ts (b, index_error) = (refl, refl)
  after_push-state p sentence peer arrival_ts (b, returned) = (refl, refl)

  -- The step for one sentence, by what the duplicate detector says of it.
  checked :
      (p : State) (workers : Workers) (sentence peer : Text) (arrival_ts clock : ℕ)
      (events : List Event)
      → ((q : State)
          → run q workers events ≡ map sentence_of (Stream.run q.reorder (accepted q.dedup events)))
      → (c : Check)
      → run (after_check ttl max_entries T sha1 p sentence peer arrival_ts clock c) workers events
        ≡ map sentence_of (
            Stream.run p.reorder
              (push_if_new sentence peer arrival_ts clock c.1 (accepted c.0 events)))
  unfolding Stream.run
  checked p workers sentence peer arrival_ts clock events ih (d, none) = ih (record p { dedup = d })
  checked p workers sentence peer arrival_ts clock events ih (d, some (false, first)) =
      ih (record p { dedup = d })
  checked p workers sentence peer arrival_ts clock events ih (d, some (true, first)) =
      let item : Item = record { sentence = sentence; peer = peer; arrival_ts = arrival_ts } in
      let r = Reorder.push p.reorder item (some (wait_ts sentence first)) clock in
      let q =
        after_push ttl max_entries T sha1 (record p { dedup = d }) sentence peer arrival_ts r in
      let same = after_push-state (record p { dedup = d }) sentence peer arrival_ts r in
      ih q
      ∙ ap (λ x. map sentence_of (Stream.run q.reorder (accepted x events))) same.0
      ∙ ap (λ b. map sentence_of (Stream.run b (accepted d events))) same.1

  dispatch_all-calls :
      (workers : Workers) (ready : List Item)
      → (dispatch_all ttl max_entries T sha1 workers ready).1 ≡ map sentence_of ready
  unfolding dispatch_all
  dispatch_all-calls workers [] = refl
  dispatch_all-calls workers (item ∷ ready) =
      ap (◌∷◌ item.sentence) (dispatch_all-calls (Manager.dispatch workers item.sentence) ready)

  -- The forwarder gets, in the same order, the sentences that the reorder buffer releases when the
  -- sentences that the duplicate detector calls new are pushed to it, each under its own UTC time
  -- if it has one and under the arrival of its first copy otherwise.
  pub run-Stream_run :
      (p : State) (workers : Workers) (events : List Event)
      → run p workers events ≡ map sentence_of (Stream.run p.reorder (accepted p.dedup events))
  unfolding run accepted Stream.run on_sentence output_turn Reorder.pop_ready
  run-Stream_run p workers [] = refl
  run-Stream_run p workers (sentence_in sentence peer arrival_ts clock timer ∷ events) =
      checked p workers sentence peer arrival_ts clock events (λ q. run-Stream_run q workers events)
        (check_of p.dedup sentence arrival_ts clock timer)
  run-Stream_run p workers (output now ∷ events) =
      let turn = output_turn ttl max_entries T sha1 p workers now now in
      ap (λ l. turn.2 ++ l) (run-Stream_run turn.0 turn.1 events)
      ∙ ap (λ l. l ++ map sentence_of (Stream.run turn.0.reorder (accepted p.dedup events)))
          (dispatch_all-calls workers (Reorder.pop_ready p.reorder (some now) now).1)
      ∙ sym (
          map-append sentence_of (Reorder.pop_ready p.reorder (some now) now).1
            (Stream.run (Reorder.pop_ready p.reorder (some now) now).0 (accepted p.dedup events)))
