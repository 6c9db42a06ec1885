-- ===== src/Ingest/Handler/Stream.antt =====
-- ais_server/ingest.py: the lines that a session handles, out of the whole stream that its socket sends.
use mathlib.Core.List.{append_assoc, append-nil}
use ais_server.Prelude.{
  if◌then◌else◌, ℕ, ◌+◌, ◌<◌, ◌≡◌, refl, sym, ap, ◌∙◌, Bool, true, false, List, [], ◌∷◌, ◌++◌,
  arith, nat_eqb, length, All, All-append, length-append,
}
use ais_server.Prelude.Text.{Text, contains}
use ais_server.Ingest.Registry.{touch}
use ais_server.Ingest.Framing.{cut_lines, unlines, CutOf, cut_lines-CutOf}
use ais_server.Ingest.Handler.{
  Session, handle_line, handle_lines, Received, chunk, closed, finish, feed, receive,
}

-- A session comes to another when it counts so many received bytes and handles these lines in order.
pub data Handled : Session → List Text → ℕ → Session → Type 0 where
  done : {s : Session} → Handled s [] 0 s
  counted :
      {s s' : Session} {lines : List Text} {m : ℕ} (n now : ℕ)
      → Handled (record s { registry = touch s.registry s.key n false false now }) lines m s'
      → Handled s lines (n + m) s'
  handled :
      {s s' : Session} {raw : Text} {lines : List Text} {m : ℕ} (now : ℕ)
      → s.failed ≡ false
      → Handled (handle_line s raw now) lines m s'
      → Handled s (raw ∷ lines) m s'

abbrev pub stream : List (Text × ℕ) → Text
stream [] = []
stream ((bytes, now) ∷ chunks) = bytes ++ stream chunks

-- The chunks, and the end of the stream.
abbrev pub arrivals : List (Text × ℕ) → ℕ → List Received
arrivals [] end = closed end ∷ []
arrivals ((bytes, now) ∷ chunks) end = chunk bytes now ∷ arrivals chunks end

lines-Handled :
    (s s' : Session) (lines more : List Text) (m now : ℕ)
    → (handle_lines s lines now).failed ≡ false
    → Handled (handle_lines s lines now) more m s'
    → Handled s (lines ++ more) m s'
unfolding handle_lines
lines-Handled s s' [] more m now f h = h
lines-Handled s s' (raw ∷ lines) more m now f h =
    by_failed s.failed refl f h (lines-Handled (handle_line s raw now) s' lines more m now)
  where
    after : Session
    after = handle_lines (handle_line s raw now) lines now

    by_failed :
        (b : Bool)
        → s.failed ≡ b
        → (if b then s else after).failed ≡ false
        → Handled (if b then s else after) more m s'
        → (after.failed ≡ false
            → Handled after more m s'
            → Handled (handle_line s raw now) (lines ++ more) m s')
        → Handled s (raw ∷ lines ++ more) m s'
    by_failed true e f h later = absurd (ground (arith, e, f))
    by_failed false e f h later = handled now e (later f h)

unlines-append :
    (ls : List Text) (rest : Text) (ms : List Text) (last : Text) (t : Text)
    → unlines ms last ≡ rest ++ t
    → unlines (ls ++ ms) last ≡ unlines ls rest ++ t
unlines-append [] rest ms last t e = e
unlines-append (l ∷ ls) rest ms last t e =
    ap (λ u. l ++ 10 ∷ u) (unlines-append ls rest ms last t e) ∙ sym (append_assoc l _ t)

-- The session comes to one that is finished, with the whole lines of the buffer and the stream handled.
abbrev Finished : Session → Text → Text → ℕ → Session → Type 0
Finished s buf sent end last =
    (lines : List Text) × (rest : Text) × (s' : Session) × CutOf (buf ++ sent) (lines, rest)
    × Handled s lines (length sent) s'
    × (last ≡ finish s' end)

finish-failed : (s : Session) (now : ℕ) → (finish s now).failed ≡ s.failed
unfolding finish
finish-failed s now = refl

feed-Finished :
    (s : Session) (buf bytes sent : Text) (now end : ℕ) (last : Session)
    → (feed s buf bytes now).0.failed ≡ false
    → Finished (feed s buf bytes now).0 (feed s buf bytes now).1 sent end last
    → Finished s buf (bytes ++ sent) end last
unfolding feed
feed-Finished s buf bytes sent now end last f (lines, rest, s', (joined, whole, none_left), h, q) =
    let cut : CutOf (buf ++ bytes) (cut_lines (buf ++ bytes)) = cut_lines-CutOf (buf ++ bytes) in
    (
      (cut_lines (buf ++ bytes)).0 ++ lines,
      rest,
      s',
      (
        unlines-append (cut_lines (buf ++ bytes)).0 _ lines rest sent joined
            ∙ ap (λ u. u ++ sent) cut.0
            ∙ append_assoc buf bytes sent,
        All-append _ _ _ cut.1 whole,
        none_left,
      ),
      rw (length-append bytes sent) (
          counted (length bytes) now
            (lines-Handled _ s' (cut_lines (buf ++ bytes)).0 lines _ now f h)),
      q,
    )

feed-rest :
    (s : Session) (buf bytes : Text) (now : ℕ) → contains 10 (feed s buf bytes now).1 ≡ false
unfolding feed
feed-rest s buf bytes now = (cut_lines-CutOf (buf ++ bytes)).2

module _ (end : ℕ) where
  from_buffer :
      (s : Session) (buf : Text) (chunks : List (Text × ℕ))
      → All (λ c. 0 < length c.0) chunks
      → contains 10 buf ≡ false
      → (receive s buf (arrivals chunks end)).failed ≡ false
      → Finished s buf (stream chunks) end (receive s buf (arrivals chunks end))
  unfolding receive
  from_buffer s buf [] a b f = ([], buf, s, (sym (append-nil buf), tt, b), done, refl)
  from_buffer s buf ((bytes, now) ∷ chunks) a b f =
      by_tests (nat_eqb (length bytes) 0) fed.0.failed (ground (arith, a.0)) refl f
        (from_buffer fed.0 fed.1 chunks a.1 (feed-rest s buf bytes now))
    where
      fed : Session × Text
      fed = feed s buf bytes now

      more : Session
      more = receive fed.0 fed.1 (arrivals chunks end)

      by_tests :
          (a b : Bool)
          → a ≡ false
          → fed.0.failed ≡ b
          → (if a then finish s now else if b then finish fed.0 now else more).failed ≡ false
          → (more.failed ≡ false → Finished fed.0 fed.1 (stream chunks) end more)
          → Finished s buf
              (bytes ++ stream chunks)
              end
              (if a then finish s now else if b then finish fed.0 now else more)
      by_tests true b q e f later = absurd (ground (arith, q))
      by_tests false true q e f later =
          let clash : true ≡ false = sym e ∙ sym (finish-failed fed.0 now) ∙ f in
          absurd (ground (arith, clash))
      by_tests false false q e f later =
          feed-Finished s buf bytes (stream chunks) now end more e (later f)

  -- However a stream falls into chunks that are not empty, if no line raises, the session has counted
  -- every byte of it and has handled, in order, the lines that it has between its `\n`s, each once,
  -- before it is finished at the end of the stream: only what is behind the last `\n` is not handled.
  pub receive-stream :
      (s : Session) (chunks : List (Text × ℕ))
      → All (λ c. 0 < length c.0) chunks
      → (receive s [] (arrivals chunks end)).failed ≡ false
      → (lines : List Text) × (rest : Text) × (s' : Session) × CutOf (stream chunks) (lines, rest)
        × Handled s lines (length (stream chunks)) s'
        × (receive s [] (arrivals chunks end) ≡ finish s' end)
  receive-stream s chunks a f = from_buffer s [] chunks a refl f
