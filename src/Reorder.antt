-- ===== src/Reorder.antt =====
-- ais_server/reorder.py: the buffer that holds each sentence for a while and releases in time order.
-- Times are whole milliseconds. `heapq` is modelled by what it documents, on a list that is kept in
-- order: the head is the smallest item, and `heappop` removes it.
pub mod Order
pub mod Release
pub mod Pushed
pub mod Stream
pub mod Passed
mod Tests
use ais_server.Prelude.{
  ℕ, ◌+◌, ◌-◌, min, max, Bool, ◌&&◌, ◌||◌, Option, none, some, List, [], ◌∷◌, ◌++◌, ltb, leb,
  nat_eqb, if◌then◌else◌, length,
}

-- A heap item; items compare by timestamp, then by sequence number.
pub record HeapItem {ℓ} (P : Type ℓ) : Type ℓ where
  pub ts : ℕ
  pub seq : ℕ
  pub payload : P

pub record ReorderBuffer {ℓ} (P : Type ℓ) : Type ℓ where
  pub hold : ℕ
  pub max_queue : ℕ
  pub heap : List (HeapItem P)
  pub next_seq : ℕ
  pub pushed : ℕ
  pub popped : ℕ
  pub dropped : ℕ

-- How a push ends: `heappop` raises `IndexError` on an empty heap.
pub data Status : Type 0 where
  returned index_error : Status

pub record Stats : Type 0 where
  pub queue_size : ℕ
  pub pushed : ℕ
  pub popped : ℕ
  pub dropped : ℕ

-- The timestamp given, or else the clock.
abbrev pub or_clock : Option ℕ → ℕ → ℕ
or_clock none clock = clock
or_clock (some t) clock = t

module _ {ℓ} {P : Type ℓ} where
  abbrev pub item_lt : HeapItem P → HeapItem P → Bool
  item_lt x y = ltb x.ts y.ts || (nat_eqb x.ts y.ts && ltb x.seq y.seq)

  unfoldable pub heappush : HeapItem P → List (HeapItem P) → List (HeapItem P)
  heappush x [] = x ∷ []
  heappush x (y ∷ h) = let rest = heappush x h in if item_lt x y then x ∷ y ∷ h else y ∷ rest

  unfoldable pub empty : ℕ → ℕ → ReorderBuffer P
  empty hold_ms max_queue = record {
    hold = hold_ms;
    max_queue = max_queue;
    heap = [];
    next_seq = 0;
    pushed = 0;
    popped = 0;
    dropped = 0;
  }

  -- The end of a push: the item goes in and is counted.
  abbrev pub insert : ReorderBuffer P → HeapItem P → ReorderBuffer P
  insert b item = record b { heap = heappush item b.heap; pushed = b.pushed + 1 }

  -- The safety valve: the oldest item makes room.
  abbrev pub evict : ReorderBuffer P → List (HeapItem P) → HeapItem P → ReorderBuffer P × Status
  evict b [] item = (b, index_error)
  evict b (oldest ∷ rest) item =
      (insert (record b { heap = rest; dropped = b.dropped + 1 }) item, returned)

  unfoldable pub push : ReorderBuffer P → P → Option ℕ → ℕ → ReorderBuffer P × Status
  push b payload ts clock =
      let item : HeapItem P = record {
        ts = or_clock ts clock;
        seq = b.next_seq;
        payload = payload;
      } in
      let b' : ReorderBuffer P = record b { next_seq = b.next_seq + 1 } in
      if leb b.max_queue (length b.heap) then evict b' b'.heap item else (insert b' item, returned)

  -- The test of the loop, `ts <= now - hold`, with the subtraction moved over.
  abbrev pub is_due : ℕ → ℕ → HeapItem P → Bool
  is_due hold now x = leb (x.ts + hold) now

  -- The loop of `pop_ready`, over the heap, `out` and the counter `popped`.
  unfoldable pub pop_loop : ℕ → ℕ → List (HeapItem P) → List P → ℕ → List (HeapItem P) × List P × ℕ
  pop_loop hold now [] out popped = ([], out, popped)
  pop_loop hold now (x ∷ h) out popped =
      let rest = pop_loop hold now h (out ++ x.payload ∷ []) (popped + 1) in
      if is_due hold now x then rest else (x ∷ h, out, popped)

  unfoldable pub pop_ready : ReorderBuffer P → Option ℕ → ℕ → ReorderBuffer P × List P
  pop_ready b now clock =
      let (heap, out, popped) = pop_loop b.hold (or_clock now clock) b.heap [] b.popped in
      (record b { heap = heap; popped = popped }, out)

  abbrev pub wait_for : ℕ → ℕ → ℕ → List (HeapItem P) → ℕ
  wait_for hold timeout clock [] = timeout
  wait_for hold timeout clock (x ∷ h) = min (max 0 (x.ts + hold - clock)) timeout

  -- How long `wait_next` blocks, if no push wakes it.
  unfoldable pub wait_next : ReorderBuffer P → ℕ → ℕ → ℕ
  wait_next b timeout clock = wait_for b.hold timeout clock b.heap

  unfoldable pub qsize : ReorderBuffer P → ℕ
  qsize b = length b.heap

  unfoldable pub stats : ReorderBuffer P → Stats
  stats b = record {
    queue_size = length b.heap;
    pushed = b.pushed;
    popped = b.popped;
    dropped = b.dropped;
  }
