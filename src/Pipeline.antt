-- ===== src/Pipeline.antt =====
-- ais_server/pipeline.py: what happens to a sentence between the listener and the forwarder. Times
-- are whole milliseconds, and `extract_timestamp` gives whole seconds.
pub mod Stream
pub mod Chronology
pub mod Rates
mod Tests
use ais_server.Prelude.{
  ℕ, zero, suc, ◌+◌, ◌-◌, ◌*◌, Bool, true, false, Option, none, some, List, [], ◌∷◌, ◌++◌, ltb,
  if◌then◌else◌, nat_eq, length, get_elem?,
}
use ais_server.Prelude.Text.{Text, codes, text_eq, split}
use ais_server.Prelude.Dict
use ais_server.Prelude.Dict.{Dict, keys}
use ais_server.Nmea.Payload.{extract_mmsi_and_type, extract_timestamp}
use ais_server.Reorder
use ais_server.Reorder.{ReorderBuffer, Status, returned, index_error}
use ais_server.Dedup
use ais_server.Dedup.{Deduper}
use ais_server.Dedup.Cache.{TtlCache}
use ais_server.Events
use ais_server.Events.{EventBus, ring_append}
use ais_server.Forwarder.Manager
use ais_server.Forwarder.Manager.{Workers}

-- What the reorder buffer holds.
pub record Item : Type 0 where
  pub sentence : Text
  pub peer : Text
  pub arrival_ts : ℕ

-- What is published under "incoming".
pub record Incoming : Type 0 where
  pub sentence : Text
  pub peer : Text
  pub ts : ℕ
  pub mmsi : Option ℕ

-- `parts[5] if len(parts) > 5 else ""`
unfoldable pub payload_of : Text → Text
payload_of sentence = elim (get_elem? (split b',' sentence) 5) [ none ↦ [] | some s ↦ s ]

unfoldable pub intrinsic : Text → Option ℕ
intrinsic [] = none
intrinsic (c ∷ payload) = extract_timestamp (c ∷ payload)

abbrev pub seconds_or : Option ℕ → ℕ → ℕ
seconds_or none ts = ts
seconds_or (some s) ts = s * 1000

-- The timestamp under which a sentence waits.
unfoldable pub wait_ts : Text → ℕ → ℕ
unfolding payload_of intrinsic
wait_ts sentence effective_ts = seconds_or (intrinsic (payload_of sentence)) effective_ts

unfoldable pub mmsi_of : Text → Option ℕ
mmsi_of [] = none
mmsi_of (c ∷ payload) = (extract_mmsi_and_type (c ∷ payload)).0

-- `if mmsi:`, which 0 fails.
abbrev pub note_mmsi : Dict ℕ ℕ → Option ℕ → ℕ → Dict ℕ ℕ
note_mmsi d none ts = d
note_mmsi d (some zero) ts = d
note_mmsi d (some (suc m)) ts = Dict.put d (suc m) ts

-- What `on_sentence` updates for the dashboard.
pub record Vitals : Type 0 where
  pub rate_bucket : List ℕ
  pub mmsi_last : Dict ℕ ℕ

abbrev pub rate_size : ℕ
rate_size = 10000

unfoldable pub note : Vitals → Option ℕ → ℕ → Vitals
unfolding ring_append
note v mmsi arrival_ts = record {
  rate_bucket = ring_append rate_size v.rate_bucket arrival_ts;
  mmsi_last = note_mmsi v.mmsi_last mmsi arrival_ts;
}

unfoldable pub pop_older : ℕ → List ℕ → List ℕ
pop_older cutoff [] = []
pop_older cutoff (t ∷ bucket) = if ltb t cutoff then pop_older cutoff bucket else t ∷ bucket

abbrev pub delete_if : ℕ → ℕ → Dict ℕ ℕ → Option ℕ → Dict ℕ ℕ
delete_if cutoff m d none = d
delete_if cutoff m d (some t) = if ltb t cutoff then Dict.remove d m else d

-- `for m in list(self._mmsi_last)`
unfoldable pub forget_older : ℕ → List ℕ → Dict ℕ ℕ → Dict ℕ ℕ
forget_older cutoff [] d = d
forget_older cutoff (m ∷ ms) d = forget_older cutoff ms (delete_if cutoff m d (Dict.get d m))

-- The part of `stats` that has a state; the number of sentences is divided by 60 for the rate. A
-- cutoff below 0 removes nothing.
unfoldable pub refresh : Vitals → ℕ → Vitals × ℕ × ℕ
unfolding pop_older forget_older
refresh v now =
    let bucket = pop_older (now - 60000) v.rate_bucket in
    let mmsi = forget_older (now - 600000) (keys v.mmsi_last) v.mmsi_last in
    (record { rate_bucket = bucket; mmsi_last = mmsi }, length bucket, length mmsi)

module _ (ttl max_entries : ℕ) (T : TtlCache Text ℕ ttl max_entries) (sha1 : Text → Text) where
  pub record Pipeline : Type 0 where
    pub dedup : Deduper ttl max_entries T sha1
    pub reorder : ReorderBuffer Item
    pub vitals : Vitals
    pub bus : EventBus Incoming
    pub subscribers_run : List ℕ

  abbrev pub Check : Type 0
  Check = Deduper ttl max_entries T sha1 × Option (Bool × ℕ)

  -- After the push: counters, then the page that shows the incoming sentences.
  abbrev pub after_push : Pipeline → Text → Text → ℕ → ReorderBuffer Item × Status → Pipeline
  after_push p sentence peer arrival_ts (b, index_error) = record p { reorder = b }
  after_push p sentence peer arrival_ts (b, returned) =
      let mmsi = mmsi_of (payload_of sentence) in
      let event : Incoming = record {
        sentence = sentence;
        peer = peer;
        ts = arrival_ts;
        mmsi = mmsi;
      } in
      let (bus, callbacks) = Events.publish p.bus (codes "incoming") event in
      record p {
        reorder = b;
        vitals = note p.vitals mmsi arrival_ts;
        bus = bus;
        subscribers_run = p.subscribers_run ++ callbacks;
      }

  -- What follows the call of `check`; no answer is an exception, which ends the call.
  abbrev pub after_check : Pipeline → Text → Text → ℕ → ℕ → Check → Pipeline
  after_check p sentence peer arrival_ts clock (d, none) = record p { dedup = d }
  after_check p sentence peer arrival_ts clock (d, some (false, first)) = record p { dedup = d }
  after_check p sentence peer arrival_ts clock (d, some (true, effective_ts)) =
      let item : Item = record { sentence = sentence; peer = peer; arrival_ts = arrival_ts } in
      after_push (record p { dedup = d }) sentence peer arrival_ts
        (Reorder.push p.reorder item (some (wait_ts sentence effective_ts)) clock)

  unfoldable pub on_sentence : Pipeline → Text → Text → ℕ → ℕ → ℕ → Pipeline
  unfolding wait_ts mmsi_of payload_of note
  on_sentence p sentence peer arrival_ts clock timer =
      after_check p sentence peer arrival_ts clock
        (Dedup.check ttl max_entries T sha1 p.dedup sentence (some arrival_ts) clock timer)

  -- The workers after the calls of `dispatch`, and the arguments of these calls.
  unfoldable pub dispatch_all : Workers → List Item → Workers × List Text
  dispatch_all workers [] = (workers, [])
  dispatch_all workers (item ∷ ready) =
      let (workers', calls) = dispatch_all (Manager.dispatch workers item.sentence) ready in
      (workers', item.sentence ∷ calls)

  -- One turn of the output loop: what it dispatches, and how long it may block.
  unfoldable pub output_turn : Pipeline → Workers → ℕ → ℕ → Pipeline × Workers × List Text × ℕ
  unfolding dispatch_all
  output_turn p workers now clock =
      let (b, ready) = Reorder.pop_ready p.reorder none now in
      let wait : ℕ = elim ready [ [] ↦ Reorder.wait_next b 250 clock | _ ∷ _ ↦ 0 ] in
      let (workers', calls) = dispatch_all workers ready in
      (record p { reorder = b }, workers', calls, wait)
