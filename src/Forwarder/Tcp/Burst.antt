-- ===== src/Forwarder/Tcp/Burst.antt =====
-- ais_server/forwarder.py: what a full queue keeps of the sentences that are put while the thread is
-- busy.
use ais_server.Prelude.{
  ℕ, ◌+◌, ◌-◌, ◌≤◌, ◌<◌, ◌≡◌, refl, sym, ap, ◌∙◌, inl, inr, Bool, true, false, List, [], ◌∷◌, ◌++◌,
  map, arith, length, drop, length-append, leb, ltb, Bool-cases,
}
use mathlib.Core.List.{append-nil, append_assoc}
use ais_server.Prelude.Text.{Text}
use ais_server.Prelude.Newest.{newest, newest-append, newest_all, newest_bound}
use ais_server.Forwarder.Worker.{
  Endpoint, EndpointStats, Worker, put_nowait, get_nowait, get_or_pass, put,
}
use ais_server.Forwarder.Tcp.{Tcp, put_sentence, act, run}
use ais_server.Forwarder.Tcp.Order.{put-items, put_items}
use ais_server.Forwarder.Tcp.Lossless.{put-maxsize}

put_items-newest :
    (m : ℕ) (items : List Text) (s : Text)
    → 0 < m
    → length items ≤ m
    → put_items m items s ≡ newest m (items ++ s ∷ [])
unfolding put_items
put_items-newest m [] s p h = sym (newest_all m (s ∷ []) (omega arith))
put_items-newest m (y ∷ ys) s p h =
    let positive : ltb 0 m ≡ true = ground (arith, p) in
    elim (Bool-cases (leb m (length ys + 1))) [
      | inr room ↦
          let fits : length (y ∷ ys ++ s ∷ []) ≤ m = ground (arith, length-append ys (s ∷ [])) in
          rw (positive, room) (sym (newest_all m (y ∷ ys ++ s ∷ []) fits))
      | inl full ↦
          let one : length (y ∷ ys ++ s ∷ []) - m ≡ 1 = ground (arith, length-append ys (s ∷ [])) in
          let enough : leb m (length ys) ≡ false = ground (arith, h) in
          rw (positive, full, enough) (sym (ap (λ k. drop k (y ∷ ys ++ s ∷ [])) one))
    ]

put-stats :
    (e : Endpoint) (m : ℕ) (items : List Text) (t : EndpointStats) (b c : Bool) (s : Text)
    → 0 < m
    → length items ≤ m
    → let w : Worker = record {
      ep = e;
      queue = record { maxsize = m; items = items };
      stats = t;
      stopped = b;
      sock = c;
    } in
      (put w s).stats ≡ t
unfolding put put_nowait get_or_pass get_nowait
put-stats e m [] t b c s p h = ground (arith, p, h)
put-stats e m (y ∷ ys) t b c s p h = ground (arith, p, h)

-- Sentences that are put one after the other, with no step of the thread in between, into a bounded
-- queue that is not over its bound: the queue has the newest sentences of those that were there and
-- those that were put, in their order and as many as the bound allows, and the count of dropped
-- sentences has not changed.
pub run-newest :
    (t : Tcp) (ss : List Text)
    → 0 < t.worker.queue.maxsize
    → length t.worker.queue.items ≤ t.worker.queue.maxsize
    → let w = (run t (map put_sentence ss)).0.worker in
      (w.queue.items ≡ newest t.worker.queue.maxsize (t.worker.queue.items ++ ss))
      × (w.stats.dropped ≡ t.worker.stats.dropped)
unfolding run act
run-newest t [] p h = (
  sym (
      ap (newest t.worker.queue.maxsize) (append-nil t.worker.queue.items)
      ∙ newest_all t.worker.queue.maxsize t.worker.queue.items h),
  refl,
)
run-newest t (s ∷ ss) p h =
    let w = t.worker in
    let m = w.queue.maxsize in
    let same : (put w s).queue.maxsize ≡ m = put-maxsize w s in
    let items : (put w s).queue.items ≡ newest m (w.queue.items ++ s ∷ []) =
      put-items w s ∙ put_items-newest m w.queue.items s p h in
    let fits : length (put w s).queue.items ≤ m =
      rw items (newest_bound m (w.queue.items ++ s ∷ [])) in
    let rest = run-newest (record t { worker = put w s }) ss (rw same p) (rw same fits) in
    let stats = put-stats w.ep m w.queue.items w.stats w.stopped w.sock s p h in
    (
      rest.0
          ∙ ap (λ k. newest k ((put w s).queue.items ++ ss)) same
          ∙ ap (λ l. newest m (l ++ ss)) items
          ∙ newest-append m (w.queue.items ++ s ∷ []) ss
          ∙ ap (newest m) (append_assoc w.queue.items (s ∷ []) ss),
      rest.1 ∙ ap (λ (u : EndpointStats). u.dropped) stats,
    )
