-- ===== src/Forwarder/Tcp/Drained.antt =====
-- ais_server/forwarder.py: while the receiver is up, a TCP worker sends its whole queue.
use ais_server.Prelude.{
  ℕ, ◌*◌, ◌≡◌, refl, ap, ◌∙◌, Bool, true, false, none, some, List, [], ◌∷◌, ◌++◌, arith, map,
  if◌then◌else◌, length, All,
}
use ais_server.Prelude.Text.{Text}
use ais_server.Forwarder.Worker.{Queue, Worker, get_nowait}
use ais_server.Forwarder.Tcp.{
  Place, at_top, waiting, sending, Connect, connected, refused, option_refused, Answer, Tcp,
  connect_step, top_step, got, send_step, tcp_step, Action, work, act, run,
}

abbrev pub NotEmpty : Text → Type 0
NotEmpty [] = ⊥
NotEmpty (c ∷ s) = Unit

-- The receiver takes a connection and a sentence.
abbrev pub IsUp : Answer → Type 0
IsUp answer = (answer.connect ≡ connected) × (answer.send ≡ none)

-- A thread at a place.
abbrev thread : Worker → Place → ℕ → Tcp
thread w place backoff = record { worker = w; place = place; backoff = backoff }

connects :
    (w : Worker) (backoff : ℕ) (answer : Answer)
    → w.stopped ≡ false
    → answer.connect ≡ connected
    → (w' : Worker) × (backoff' : ℕ) × (tcp_step (thread w at_top backoff) answer
        ≡ (thread w' waiting backoff', []))
      × (w'.queue ≡ w.queue)
      × (w'.stopped ≡ w.stopped)
unfolding tcp_step top_step connect_step
connects w backoff answer s up = by_state w.stopped w.sock answer.connect _ s up
  where
    by_state :
        (b c : Bool) (o : Connect) (end : Tcp)
        → b ≡ false
        → o ≡ connected
        → (w' : Worker) × (backoff' : ℕ) × (◌≡◌ {A = Tcp × List Text}
            (
              if b
                  then end
                  else (if c
                      then thread w waiting backoff
                      else connect_step (thread w at_top backoff) o),
              [],
            )
            (thread w' waiting backoff', []))
          × (w'.queue ≡ w.queue)
          × (w'.stopped ≡ w.stopped)
    by_state true c o end e f = absurd (cc e)
    by_state false true o end e f = (w, backoff, refl, refl, refl)
    by_state false false connected end e f = (_, _, refl, refl, refl)
    by_state false false (refused m) end e f = absurd (cc f)
    by_state false false (option_refused m) end e f = absurd (cc f)

takes :
    (w : Worker) (backoff : ℕ) (answer : Answer) (line : Text) (rest : List Text)
    → NotEmpty line
    → w.queue.items ≡ line ∷ rest
    → (w' : Worker) × (tcp_step (thread w waiting backoff) answer
        ≡ (thread w' (sending line) backoff, []))
      × (w'.queue.items ≡ rest)
      × (w'.stopped ≡ w.stopped)
unfolding tcp_step get_nowait
takes w backoff answer [] rest n e = elim n [ ]
takes w backoff answer (c ∷ line) rest n e = (
  record w { queue = record w.queue { items = rest } },
  ap
      (λ (items : List Text). (
        got (thread w waiting backoff)
            (elim items [ [] ↦ none | s ∷ more ↦ some (s, record w.queue { items = more }) ]),
        [],
      ))
      e,
  refl,
  refl,
)

sends :
    (w : Worker) (backoff : ℕ) (answer : Answer) (line : Text)
    → answer.send ≡ none
    → (w' : Worker) × (tcp_step (thread w (sending line) backoff) answer
        ≡ (thread w' at_top backoff, line ∷ []))
      × (w'.queue ≡ w.queue)
      × (w'.stopped ≡ w.stopped)
unfolding tcp_step send_step
sends w backoff answer line up =
    (_, ap (λ o. send_step (thread w (sending line) backoff) line o answer.now) up, refl, refl)

stepped :
    (t u : Tcp) (answer : Answer) (out : List Text) (actions : List Action)
    → tcp_step t answer ≡ (u, out)
    → run t (work answer ∷ actions) ≡ ((run u actions).0, out ++ (run u actions).1)
unfolding run act
stepped t u answer out actions e =
    ap (λ (r : Tcp × List Text). ((run r.0 actions).0, r.1 ++ (run r.0 actions).1)) e

drains :
    (w : Worker) (backoff : ℕ) (answers : List Answer) (items : List Text)
    → w.queue.items ≡ items
    → w.stopped ≡ false
    → All NotEmpty items
    → All IsUp answers
    → length answers ≡ 3 * length items
    → let r = run (thread w at_top backoff) (map work answers) in
      (r.1 ≡ items) × (r.0.worker.queue.items ≡ []) × (r.0.place ≡ at_top)
unfolding run
drains w backoff [] [] e s n u l = (refl, e, refl)
drains w backoff (a ∷ answers) [] e s n u l = absurd (omega (arith, l))
drains w backoff [] (line ∷ items) e s n u l = absurd (omega (arith, l))
drains w backoff (a ∷ []) (line ∷ items) e s n u l = absurd (omega (arith, l))
drains w backoff (a ∷ b ∷ []) (line ∷ items) e s n u l = absurd (omega (arith, l))
drains w backoff (a ∷ b ∷ c ∷ answers) (line ∷ items) e s n u l =
    let (w1, backoff1, first, queue1, stopped1) = connects w backoff a s u.0.0 in
    let (w2, second, items2, stopped2) =
      takes w1 backoff1 b line items n.0 (ap (λ (q : Queue). q.items) queue1 ∙ e) in
    let (w3, third, queue3, stopped3) = sends w2 backoff1 c line u.1.1.0.1 in
    let rest =
      drains w3 backoff1 answers items (ap (λ (q : Queue). q.items) queue3 ∙ items2)
        (stopped3 ∙ stopped2 ∙ stopped1 ∙ s) n.1 u.1.1.1 (omega (arith, l)) in
    let more = map work answers in
    let whole =
      stepped (thread w at_top backoff) (thread w1 waiting backoff1) a [] (work b ∷ work c ∷ more)
        first
      ∙ stepped (thread w1 waiting backoff1) (thread w2 (sending line) backoff1) b []
          (work c ∷ more) second
      ∙ stepped (thread w2 (sending line) backoff1) (thread w3 at_top backoff1) c (line ∷ []) more
          third in
    (
      ap (λ (r : Tcp × List Text). r.1) whole ∙ ap (λ out. line ∷ out) rest.0,
      ap (λ (r : Tcp × List Text). r.0.worker.queue.items) whole ∙ rest.1,
      ap (λ (r : Tcp × List Text). r.0.place) whole ∙ rest.2,
    )

-- While the receiver is up, a worker that is not stopped and stands at the top of its loop sends all
-- sentences of its queue, which are not empty, in their order within three steps for each; the queue
-- is empty then and the thread is at the top again.
pub run_drained :
    (t : Tcp) (answers : List Answer)
    → t.place ≡ at_top
    → t.worker.stopped ≡ false
    → All NotEmpty t.worker.queue.items
    → All IsUp answers
    → length answers ≡ 3 * length t.worker.queue.items
    → let r = run t (map work answers) in
      (r.1 ≡ t.worker.queue.items) × (r.0.worker.queue.items ≡ []) × (r.0.place ≡ at_top)
run_drained t answers at s n u l =
    let d = drains t.worker t.backoff answers t.worker.queue.items refl s n u l in
    let same : t ≡ thread t.worker at_top t.backoff = ap (λ p. thread t.worker p t.backoff) at in
    let ran = ap (λ (u : Tcp). run u (map work answers)) same in
    (
      ap (λ (r : Tcp × List Text). r.1) ran ∙ d.0,
      ap (λ (r : Tcp × List Text). r.0.worker.queue.items) ran ∙ d.1,
      ap (λ (r : Tcp × List Text). r.0.place) ran ∙ d.2,
    )
