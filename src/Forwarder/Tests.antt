-- ===== src/Forwarder/Tests.antt =====
-- Runs of the forwarder of ais_server/forwarder.py.
use ais_server.Prelude.{
  ℕ, ◌+◌, ◌≤◌, ◌≡◌, refl, ap, Bool, true, false, Option, none, some, List, [], ◌∷◌, ◌++◌, arith,
  nat_eq,
}
use ais_server.Prelude.Int.{pos}
use ais_server.Prelude.Text.{Text, codes, text_eq}
use ais_server.Prelude.Dict
use ais_server.Prelude.Dict.{Dict}
use mathlib.Core.List.{Sublistᴰ}
use ais_server.Forwarder.Worker.{
  Endpoint, Worker, new_worker, no_stats, put_nowait, get_nowait, get_or_pass, put, close_sock,
}
use ais_server.Forwarder.Tcp.{
  Tcp, connected, refused, Action, put_sentence, work, connect_step, top_step, send_step, tcp_step,
  act, run, start,
}
use ais_server.Forwarder.Tcp.Order.{carried, offered, IsSent, IsForward, run-Sublist}
use ais_server.Forwarder.Tcp.Count.{count, run-count_bound}
use ais_server.Forwarder.Tcp.Lossless.{run_lossless}
use ais_server.Forwarder.Tcp.{at_top, sending, ended, Answer}
use ais_server.Prelude.Newest.{newest}
use ais_server.Forwarder.Tcp.Burst.{run-newest}
use ais_server.Forwarder.Tcp.Ends.{run_stopped_ends}
use ais_server.Forwarder.Tcp.Drained.{run_drained}
use ais_server.Prelude.{map}
use ais_server.Forwarder.Udp
use ais_server.Forwarder.Udp.{IsLogged, run-IsLogged}
use ais_server.Forwarder.Http
use ais_server.Forwarder.Http.{run-order}
use ais_server.Forwarder.Manager.{Workers, endpoint_match, wanted_from, must_stop, sync}
use ais_server.Forwarder.Manager.Stopped.{expected, elem}
use ais_server.Forwarder.Manager.Sync.{sync-expected}
use ais_server.Forwarder.Manager.Stuck.{endpoint_sync_loop, HasOld, endpoint_sync_loop_stuck}

abbrev endpoint : Endpoint
endpoint = record {
  id = 1;
  name = codes "chart";
  protocol = codes "tcp";
  host = codes "10.0.0.7";
  port = pos 2000;
  path = none;
  enabled = true;
  created_at = 0;
  updated_at = 0;
  broadcast = false;
}

abbrev up : Action
up = work record { connect = connected; send = none; now = 5 }

abbrev down : Action
down = work record { connect = refused (codes "no route"); send = some (codes "reset"); now = 6 }

abbrev one : Text
one = codes "!AIVDM,1"

abbrev two : Text
two = codes "!AIVDM,2"

abbrev three : Text
three = codes "!AIVDM,3"

-- A worker with room for two sentences, and one without a bound.
abbrev bounded : Tcp
bounded = start (new_worker endpoint 2)

abbrev unbounded : Tcp
unbounded = start (new_worker endpoint 0)

abbrev calm : List Action
calm = put_sentence one ∷ put_sentence two ∷ put_sentence three ∷ up ∷ up ∷ up ∷ up ∷ up ∷ up ∷ []

-- The third sentence pushes the first one out of the queue.
runs_calm : (run bounded calm).1 ≡ two ∷ three ∷ []
unfolding run act tcp_step put put_nowait get_or_pass get_nowait top_step connect_step send_step
    start new_worker no_stats
runs_calm = refl

run-Sublist_example :
    Sublistᴰ
      ((run bounded calm).1 ++ carried (run bounded calm).0)
      (carried bounded ++ offered calm)
unfolding start IsForward IsSent
run-Sublist_example =
    run-Sublist bounded calm tt (tt, (tt, (tt, (refl, (refl, (refl, (refl, (refl, (refl, tt)))))))))

-- The first send fails, and the sentence goes out again behind the second.
abbrev rough : List Action
rough =
    put_sentence one
    ∷ put_sentence two
    ∷ up
    ∷ up
    ∷ down
    ∷ down
    ∷ down
    ∷ up
    ∷ up
    ∷ up
    ∷ up
    ∷ up
    ∷ up
    ∷ []

runs_rough : (run unbounded rough).1 ≡ two ∷ one ∷ []
unfolding run act tcp_step put put_nowait get_or_pass get_nowait top_step connect_step send_step
    close_sock start new_worker no_stats
runs_rough = refl

run-count_bound_case :
    count one (run unbounded rough).1 + count one (carried (run unbounded rough).0)
    ≤ count one (carried unbounded) + count one (offered rough)
run-count_bound_case = run-count_bound one unbounded rough

run-newest_example :
    let w = (run bounded (map put_sentence (one ∷ two ∷ three ∷ []))).0.worker in
    (w.queue.items ≡ newest 2 (one ∷ two ∷ three ∷ [])) × (w.stats.dropped ≡ 0)
unfolding start new_worker no_stats
run-newest_example = run-newest bounded (one ∷ two ∷ three ∷ []) (omega arith) (omega arith)

-- A worker with two sentences in its queue, at the top of its loop and stopped in a send.
abbrev filled : Tcp
filled = record {
  worker = record (new_worker endpoint 0) {
    queue = record { maxsize = 0; items = one ∷ two ∷ [] };
  };
  place = at_top;
  backoff = 1000;
}

abbrev stopping : Tcp
stopping = record filled { worker = record filled.worker { stopped = true }; place = sending three }

abbrev good : Answer
good = record { connect = connected; send = none; now = 5 }

abbrev answers : List Answer
answers = good ∷ good ∷ good ∷ good ∷ good ∷ good ∷ []

run_drained_example :
    let r = run filled (map work answers) in
    (r.1 ≡ one ∷ two ∷ []) × (r.0.worker.queue.items ≡ []) × (r.0.place ≡ at_top)
unfolding new_worker
run_drained_example =
    run_drained filled answers refl refl (tt, (tt, tt))
      (
        (refl, refl),
        ((refl, refl), ((refl, refl), ((refl, refl), ((refl, refl), ((refl, refl), tt))))),
      )
      refl

run_stopped_ends_example :
    (run stopping (down ∷ put_sentence one ∷ down ∷ down ∷ down ∷ [])).0.place ≡ ended
run_stopped_ends_example =
    run_stopped_ends stopping (down ∷ put_sentence one ∷ down ∷ down ∷ down ∷ []) refl (omega arith)

run_lossless_example :
    count one (run unbounded rough).1 + count one (carried (run unbounded rough).0)
    ≡ count one (carried unbounded) + count one (offered rough)
unfolding start new_worker
run_lossless_example = run_lossless b'!' (codes "AIVDM,1") unbounded rough refl

-- Two sends fail in the same way, a third one in another.
abbrev three_queued : Worker
three_queued = record (new_worker endpoint 0) {
  queue = record { maxsize = 0; items = one ∷ two ∷ three ∷ [] };
}

abbrev failures : List (Option Text × ℕ)
failures = (some (codes "denied"), 1) ∷ (some (codes "denied"), 2) ∷ (some (codes "lost"), 3) ∷ []

run-IsLogged_case : IsLogged [] (Udp.run (Udp.start three_queued) failures).2
unfolding Udp.start
run-IsLogged_case = run-IsLogged (Udp.start three_queued) failures

run-order_example :
    let r = Http.run (Http.start three_queued 0) ((none, 500) ∷ (none, 1500) ∷ (none, 1600) ∷ []) in
    r.1 ++ (r.0.batch ++ Http.sentences r.0.worker.queue.items)
    ≡ (Http.start three_queued 0).batch
      ++ Http.sentences (Http.start three_queued 0).worker.queue.items
run-order_example =
    run-order (Http.start three_queued 0) ((none, 500) ∷ (none, 1500) ∷ (none, 1600) ∷ [])

-- The port of the endpoint was changed.
abbrev changed : Endpoint
changed = record endpoint { port = pos 2001 }

abbrev workers : Workers
workers = (1, new_worker endpoint 2) ∷ []

abbrev joins_time_out : ℕ → Bool
joins_time_out eid = true

abbrev joins_raise : ℕ → Bool
joins_raise eid = false

only_key : (k : ℕ) (w : Worker) → Dict.get workers k ≡ some w → elem k (1 ∷ []) ≡ true
unfolding Dict.get elem
only_key k w h = ground (arith, h)

sync-expected_example :
    ((sync 2 joins_time_out (1 ∷ []) (changed ∷ []) workers).1 ≡ false)
    × ((k : ℕ)
        → Dict.get (sync 2 joins_time_out (1 ∷ []) (changed ∷ []) workers).0 k
          ≡ expected 2 (Dict.get (wanted_from [] (changed ∷ [])) k) (Dict.get workers k))
unfolding Dict.get
sync-expected_example =
    sync-expected 2 joins_time_out (1 ∷ []) (changed ∷ []) workers (λ eid. refl) (tt, tt)
      ((new_worker endpoint 2, refl), tt) only_key

stops_changed :
    (w : Worker) → w.ep ≡ endpoint → must_stop (Dict.get (wanted_from [] (changed ∷ [])) 1) w ≡ true
unfolding wanted_from must_stop endpoint_match Dict.get Dict.put
stops_changed w h = ap (λ e. must_stop (some changed) (record w { ep = e })) h

endpoint_sync_loop_stuck_example :
    HasOld
      (endpoint_sync_loop 2 joins_raise ((1 ∷ [], changed ∷ []) ∷ (1 ∷ [], []) ∷ []) workers)
      1
      endpoint
unfolding elem wanted_from must_stop Dict.get new_worker
endpoint_sync_loop_stuck_example =
    endpoint_sync_loop_stuck 2 joins_raise ((1 ∷ [], changed ∷ []) ∷ (1 ∷ [], []) ∷ []) workers 1
      endpoint refl ((refl, stops_changed), ((refl, λ w h. refl), tt))
      (new_worker endpoint 2, refl, refl)
