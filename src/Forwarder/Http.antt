-- ===== src/Forwarder/Http.antt =====
-- ais_server/forwarder.py: the loop of an HTTP worker (`_run_http`), one turn at a time. `requests` is
-- a package: a turn takes the text of the exception of `requests.post`, if it raises one. Its status
-- code is not read.
use mathlib.Core.List.{append_assoc}
use ais_server.Prelude.{
  ℕ, ◌+◌, ◌-◌, ◌≤◌, ◌<◌, ◌≡◌, refl, ap, ◌∙◌, inl, inr, Bool, true, ◌&&◌, ◌||◌, Option, none, some,
  List, [], ◌∷◌, ◌++◌, arith, ltb, leb, if◌then◌else◌, Bool-cases, length, length-append,
}
use ais_server.Prelude.Text.{Text}
use ais_server.Forwarder.Worker.{Queue, Worker, get_nowait, count_error}

pub record Http : Type 0 where
  pub worker : Worker
  pub batch : List Text
  pub last_flush : ℕ

unfoldable pub start : Worker → ℕ → Http
start w now = record {
  worker = record w { stats = record w.stats { connected = true } };
  batch = [];
  last_flush = now;
}

-- The first half of a turn: a sentence joins the batch.
abbrev pub gathered : Http → Option (Text × Queue) → Http
gathered h none = h
gathered h (some ([], rest)) = record h { worker = record h.worker { queue = rest } }
gathered h (some (c ∷ s, rest)) = record h {
  worker = record h.worker { queue = rest };
  batch = h.batch ++ (c ∷ s) ∷ [];
}

abbrev pub is_due : Http → ℕ → Bool
is_due h now = ltb 0 (length h.batch) && (leb 100 (length h.batch) || ltb 1000 (now - h.last_flush))

abbrev pub posted : Http → Option Text → ℕ → Worker
posted h (some message) now = count_error h.worker message
posted h none now = record h.worker {
  stats = record h.worker.stats { sent = h.worker.stats.sent + length h.batch; last_send = now };
}

-- The second result is the sentences of the request, if there is one.
unfoldable pub flush : Http → Option Text → ℕ → Http × List Text
flush h error now =
    if is_due h now
    then (record { worker = posted h error now; batch = []; last_flush = now }, h.batch)
    else (h, [])

unfoldable pub turn : Http → Option Text → ℕ → Http × List Text
unfolding get_nowait flush
turn h error now = flush (gathered h (get_nowait h.worker.queue)) error now

-- The sentences of all requests, in order, whether the requests failed or not.
unfoldable pub run : Http → List (Option Text × ℕ) → Http × List Text
unfolding turn
run h [] = (h, [])
run h ((error, now) ∷ turns) =
    let (h', request) = turn h error now in
    let (last, requests) = run h' turns in (last, request ++ requests)

-- A list without the empty texts, which only wake the thread.
unfoldable pub sentences : List Text → List Text
sentences [] = []
sentences ([] ∷ items) = sentences items
sentences ((c ∷ s) ∷ items) = (c ∷ s) ∷ sentences items

gathered_order :
    (h : Http) (m : ℕ) (items : List Text)
    → h.worker.queue ≡ record { maxsize = m; items = items }
    → let g = gathered h (get_nowait record { maxsize = m; items = items }) in
      g.batch ++ sentences g.worker.queue.items ≡ h.batch ++ sentences items
unfolding get_nowait sentences
gathered_order h m [] q = ap (λ l. h.batch ++ sentences l) (ap Queue.items q)
gathered_order h m ([] ∷ rest) q = refl
gathered_order h m ((c ∷ s) ∷ rest) q = append_assoc h.batch ((c ∷ s) ∷ []) (sentences rest)

posted-queue :
    (h : Http) (error : Option Text) (now : ℕ) → (posted h error now).queue ≡ h.worker.queue
posted-queue h none now = refl
posted-queue h (some message) now = refl

flush_order :
    (h : Http) (error : Option Text) (now : ℕ)
    → let f = flush h error now in
      f.1 ++ (f.0.batch ++ sentences f.0.worker.queue.items)
      ≡ h.batch ++ sentences h.worker.queue.items
unfolding flush
flush_order h error now = elim (Bool-cases (is_due h now)) [
  | inl due ↦ rw (due, posted-queue h error now) refl
  | inr early ↦ rw early refl
]

-- Over any turns, whether requests fail or not: the sentences of the requests, then the batch, then
-- the queue are the batch and the queue of before, in the same order.
pub run-order :
    (h : Http) (turns : List (Option Text × ℕ))
    → let r = run h turns in
      r.1 ++ (r.0.batch ++ sentences r.0.worker.queue.items)
      ≡ h.batch ++ sentences h.worker.queue.items
unfolding run turn
run-order h [] = refl
run-order h ((error, now) ∷ turns) =
    let g = gathered h (get_nowait h.worker.queue) in
    let f = flush g error now in
    let last = run f.0 turns in
    append_assoc f.1 last.1 (last.0.batch ++ sentences last.0.worker.queue.items)
    ∙ ap (λ l. f.1 ++ l) (run-order f.0 turns)
    ∙ flush_order g error now
    ∙ gathered_order h h.worker.queue.maxsize h.worker.queue.items refl

gathered_bound :
    (h : Http) (o : Option (Text × Queue))
    → length h.batch < 100
    → length (gathered h o).batch ≤ 100
gathered_bound h none b = omega arith
gathered_bound h (some ([], rest)) b = omega arith
gathered_bound h (some (c ∷ s, rest)) b = omega (arith, length-append h.batch ((c ∷ s) ∷ []))

flush_bound :
    (h : Http) (error : Option Text) (now : ℕ)
    → length h.batch ≤ 100
    → (length (flush h error now).0.batch < 100) × (length (flush h error now).1 ≤ 100)
unfolding flush
flush_bound h error now b = ground arith

-- A turn that starts with fewer than 100 sentences in the batch ends with fewer than 100, and its
-- request has at most 100.
pub turn_bound :
    (h : Http) (error : Option Text) (now : ℕ)
    → length h.batch < 100
    → (length (turn h error now).0.batch < 100) × (length (turn h error now).1 ≤ 100)
unfolding turn
turn_bound h error now b =
    flush_bound (gathered h (get_nowait h.worker.queue)) error now
      (gathered_bound h (get_nowait h.worker.queue) b)
