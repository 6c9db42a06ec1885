-- ===== src/Ingest/Framing.antt =====
-- ais_server/ingest.py: how the receive loop of a connection cuts its buffer into lines.
use ais_server.Prelude.{
  ℕ, ◌≡◌, refl, sym, ap, ◌∙◌, inl, inr, false, List, [], ◌∷◌, ◌++◌, arith, nat_eqb, if◌then◌else◌,
  nat_eqb_iff, Bool-cases, All,
}
use ais_server.Prelude.Text.{Text, contains}

-- Puts a byte in front of the first line, or of the rest if there is no whole line.
abbrev push_byte : ℕ → List Text × Text → List Text × Text
push_byte c ([], rest) = ([], c ∷ rest)
push_byte c (l ∷ ls, rest) = ((c ∷ l) ∷ ls, rest)

-- A `\n` ends a line.
abbrev add_byte : ℕ → List Text × Text → List Text × Text
add_byte c p = if nat_eqb c 10 then ([] ∷ p.0, p.1) else push_byte c p

-- The lines before each `\n`, and what stays in the buffer.
unfoldable pub cut_lines : Text → List Text × Text
cut_lines [] = ([], [])
cut_lines (c ∷ buf) = add_byte c (cut_lines buf)

-- The text that lines and a rest were cut from.
abbrev pub unlines : List Text → Text → Text
unlines [] rest = rest
unlines (l ∷ ls) rest = l ++ 10 ∷ unlines ls rest

-- The lines and the rest make up the buffer, and none of them holds a `\n`.
abbrev pub CutOf : Text → List Text × Text → Type 0
CutOf buf (ls, rest) =
    (unlines ls rest ≡ buf) × All (λ l. contains 10 l ≡ false) ls × (contains 10 rest ≡ false)

CutOf-add_byte :
    (c : ℕ) (buf : Text) (p : List Text × Text) → CutOf buf p → CutOf (c ∷ buf) (add_byte c p)
CutOf-add_byte c buf p h = elim (Bool-cases (nat_eqb c 10)) [
  | inl e ↦ rw e (newline ((nat_eqb_iff c 10).0 e))
  | inr e ↦ rw e (other p e h)
]
  where
    newline : c ≡ 10 → CutOf (c ∷ buf) ([] ∷ p.0, p.1)
    newline q = (ap (λ d. d ∷ unlines p.0 p.1) (sym q) ∙ ap (◌∷◌ c) h.0, (refl, h.1), h.2)

    other :
        (p : List Text × Text)
        → nat_eqb c 10 ≡ false
        → CutOf buf p
        → CutOf (c ∷ buf) (push_byte c p)
    other ([], rest) e (a, b, d) = (ap (◌∷◌ c) a, tt, ground arith)
    other (l ∷ ls, rest) e (a, b, d) = (ap (◌∷◌ c) a, (ground arith, b.1), d)

-- Nothing of the buffer is lost, and every whole line is found.
pub cut_lines-CutOf : (buf : Text) → CutOf buf (cut_lines buf)
unfolding cut_lines
cut_lines-CutOf [] = (refl, tt, refl)
cut_lines-CutOf (c ∷ buf) = CutOf-add_byte c buf (cut_lines buf) (cut_lines-CutOf buf)
