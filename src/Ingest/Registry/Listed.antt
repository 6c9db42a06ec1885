-- ===== src/Ingest/Registry/Listed.antt =====
-- ais_server/ingest.py: the order of the rows that a snapshot lists, and how often sessions are logged.
use ais_server.Prelude.{
  ℕ, ◌+◌, ◌<◌, ◌≡◌, refl, sym, ap, ◌∙◌, Bool, true, false, arith, leb, if◌then◌else◌, lt→leb_false,
  ◌==◌, nat_eq, ==_refl,
}
use ais_server.Prelude.Text.{Text, text_eq}
use ais_server.Prelude.Dict
use ais_server.Prelude.Dict.{Dict, values}
use mathlib.Core.List.{Perm}
use ais_server.Prelude.Sort.{InOrder, sort_by-InOrder, sort_by-Perm}
use ais_server.Ingest.Registry.{
  NodeRegistry, open_event, close_event, times_or_zero, log_times, session_log_min_interval,
  should_log_session,
}
use ais_server.Ingest.Registry.Housekeeping.{NodeRow, row_lt, rows_of, snapshot}

row_lt_asym : (x y : NodeRow) → row_lt x y ≡ true → row_lt y x ≡ false
row_lt_asym x y h = ground arith

row_le_trans : (x y z : NodeRow) → row_lt y x ≡ false → row_lt z y ≡ false → row_lt z x ≡ false
row_le_trans x y z p q = ground arith

-- The snapshot has the row of each node once, connected nodes first and, among those and among the
-- others, the one that was seen last first.
pub snapshot-InOrder :
    (r : NodeRegistry)
    → InOrder row_lt (snapshot r) × Perm (snapshot r) (rows_of r.objects (values r.nodes))
unfolding snapshot
snapshot-InOrder r =
    let rows = rows_of r.objects (values r.nodes) in
    (sort_by-InOrder row_lt row_lt_asym row_le_trans rows, sort_by-Perm row_lt rows)

-- The answers are the tests on the recorded times.
open_answer :
    (r : NodeRegistry) (k : Text) (now : ℕ)
    → (should_log_session r k open_event now).1
      ≡ leb ((log_times r k).0 + session_log_min_interval) now
unfolding should_log_session
open_answer r k now = by_test (leb ((log_times r k).0 + session_log_min_interval) now) _ _
  where
    by_test :
        (b : Bool) (x y : NodeRegistry)
        → (if◌then◌else◌ {A = NodeRegistry × Bool} b (x, true) (y, false)).1 ≡ b
    by_test true x y = refl
    by_test false x y = refl

close_answer :
    (r : NodeRegistry) (k : Text) (now : ℕ)
    → (should_log_session r k close_event now).1
      ≡ leb ((log_times r k).1 + session_log_min_interval) now
unfolding should_log_session
close_answer r k now = by_test (leb ((log_times r k).1 + session_log_min_interval) now) _ _
  where
    by_test :
        (b : Bool) (x y : NodeRegistry)
        → (if◌then◌else◌ {A = NodeRegistry × Bool} b (x, true) (y, false)).1 ≡ b
    by_test true x y = refl
    by_test false x y = refl

-- What a logged opening leaves.
open_recorded :
    (r : NodeRegistry) (k : Text) (now : ℕ)
    → (should_log_session r k open_event now).1 ≡ true
    → (should_log_session r k open_event now).0
      ≡ record r { last_log = Dict.put r.last_log k (now, (log_times r k).1) }
unfolding should_log_session
open_recorded r k now h =
    ap
      (λ b.
        (if◌then◌else◌ {A = NodeRegistry × Bool} b
          (record r { last_log = Dict.put r.last_log k (now, (log_times r k).1) }, true)
          (r, false)).0)
      (sym (open_answer r k now) ∙ h)

-- Once the opening of a session was logged, an opening of the same node is not logged again within
-- the interval; its closing, and the openings of other nodes, are logged as if it had not been.
should_log_session_twice :
    (r : NodeRegistry) (k j : Text) (now later : ℕ)
    → (should_log_session r k open_event now).1 ≡ true
    → later < now + session_log_min_interval
    → (k == j) ≡ false
    → ((should_log_session (should_log_session r k open_event now).0 k open_event later).1 ≡ false)
      × ((should_log_session (should_log_session r k open_event now).0 k close_event later).1
          ≡ (should_log_session r k close_event later).1)
      × ((should_log_session (should_log_session r k open_event now).0 j open_event later).1
          ≡ (should_log_session r j open_event later).1)
should_log_session_twice r k j now later h l ne =
    let r' = (should_log_session r k open_event now).0 in
    let rec = open_recorded r k now h in
    let own : log_times r' k ≡ (now, (log_times r k).1) =
      ap (λ s. log_times s k) rec
      ∙ ap times_or_zero (Dict.get-put_eq r.last_log k k (now, (log_times r k).1) (==_refl k)) in
    let other : log_times r' j ≡ log_times r j =
      ap (λ s. log_times s j) rec
      ∙ ap times_or_zero (Dict.get-put_ne r.last_log k j (now, (log_times r k).1) ne) in
    (
      open_answer r' k later
          ∙ ap (λ p. leb (p.0 + session_log_min_interval) later) own
          ∙ lt→leb_false (now + session_log_min_interval) later l,
      close_answer r' k later
          ∙ ap (λ p. leb (p.1 + session_log_min_interval) later) own
          ∙ sym (close_answer r k later),
      open_answer r' j later
          ∙ ap (λ p. leb (p.0 + session_log_min_interval) later) other
          ∙ sym (open_answer r j later),
    )
