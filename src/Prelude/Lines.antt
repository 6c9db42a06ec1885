-- ===== src/Prelude/Lines.antt =====
-- `str.splitlines` takes back what puts a line feed behind each line.

use mathlib.Core.Path.{◌≡◌, refl, ap, ◌∙◌}
use mathlib.Core.Bool.{false, true, not}
use mathlib.Core.List.{List, [], ◌∷◌, ◌++◌}
use native.Mathlib.Omega.{arith}
use ais_server.Prelude.Lists.{all, All}
use ais_server.Prelude.Text.{Text, is_line_break, lines_from, splitlines}

-- No character of the text ends a line.
abbrev pub IsLine : Text → Type 0
IsLine s = all (λ c. not (is_line_break c)) s ≡ true

abbrev pub unlines : List Text → Text
unlines [] = []
unlines (l ∷ ls) = l ++ 10 ∷ unlines ls

lines_from-line :
    (l rest : Text) → IsLine l → lines_from false (l ++ 10 ∷ rest) ≡ l ∷ lines_from false rest
lines_from-line [] rest h = refl
lines_from-line (c ∷ l) rest h = ground (arith, lines_from-line l rest)

pub splitlines-unlines : (ls : List Text) → All IsLine ls → splitlines (unlines ls) ≡ ls
unfolding splitlines
splitlines-unlines [] a = refl
splitlines-unlines (l ∷ ls) a =
    lines_from-line l (unlines ls) a.0 ∙ ap (λ ls. l ∷ ls) (splitlines-unlines ls a.1)
