-- ===== src/Prelude/Text.antt =====
-- Python's `str` as the list of its code points, and the string methods that the program calls.
-- The program decodes its input as ASCII, so the tests on characters are those of ASCII.
use Prim.Native.Nat.{ℕ, ◌+◌, ◌-◌}
use Prim.Native.Char.{code}
use Prim.Native.String.{String}
use mathlib.Core.Path.{◌≡◌}
use mathlib.Core.Logic.{◌↔◌}
use mathlib.Core.Bool.{Bool, true, false, ◌&&◌, ◌||◌}
use mathlib.Core.Option.{Option, none, some}
use mathlib.Core.List.{List, [], ◌∷◌}
use native.Mathlib.Omega.{arith}
use ais_server.Prelude.Tests.{Eq, leb, nat_eqb, if◌then◌else◌}
use ais_server.Prelude.Lists.{all, length, drop}

abbrev pub Text : Type 0
Text = List ℕ

abbrev pub codes : String → Text
codes String.[] = []
codes (String.◌∷◌ c s) = code c ∷ codes s

abbrev pub text_eqb : Text → Text → Bool
text_eqb [] [] = true
text_eqb (c ∷ s) (d ∷ t) = nat_eqb c d && text_eqb s t
text_eqb _ _ = false

pub text_eqb_iff : (s t : Text) → (text_eqb s t ≡ true) ↔ (s ≡ t)
text_eqb_iff [] [] = ground arith
text_eqb_iff (c ∷ s) (d ∷ t) = ground (arith, text_eqb_iff s t)
text_eqb_iff [] (d ∷ t) = ground arith
text_eqb_iff (c ∷ s) [] = ground arith

instance abbrev pub text_eq : Eq Text
text_eq = record { same_key = text_eqb; same_iff = text_eqb_iff }

-- `c in s`
abbrev pub contains : ℕ → Text → Bool
contains c [] = false
contains c (d ∷ s) = nat_eqb d c || contains c s

-- `s.startswith(p)`
abbrev pub starts_with : Text → Text → Bool
starts_with s [] = true
starts_with [] (d ∷ p) = false
starts_with (c ∷ s) (d ∷ p) = nat_eqb c d && starts_with s p

-- The white space of `str.strip()`.
abbrev pub is_space : ℕ → Bool
is_space c = (leb 9 c && leb c 13) || (leb 28 c && leb c 32)

-- `s.lstrip(cs)`, for the characters that pass the test.
abbrev pub lstrip : (ℕ → Bool) → Text → Text
lstrip p [] = []
lstrip p (c ∷ s) = if p c then lstrip p s else c ∷ s

-- Drops a character at the end if nothing but such characters follows.
abbrev pub rstrip : (ℕ → Bool) → Text → Text
rstrip p [] = []
rstrip p (c ∷ s) = if p c && all p s then [] else c ∷ rstrip p s

abbrev pub strip : (ℕ → Bool) → Text → Text
strip p s = rstrip p (lstrip p s)

-- `s.split(sep, 1)`: what stands before the first separator, and what follows it if there is one.
abbrev pub split_once : ℕ → Text → Text × Option Text
split_once sep [] = ([], none)
split_once sep (c ∷ s) =
    let (head, rest) = split_once sep s in if nat_eqb c sep then ([], some s) else (c ∷ head, rest)

-- `s.rsplit(sep, 1)`: cut at the last separator, if there is one.
abbrev pub rsplit_once : ℕ → Text → Option (Text × Text)
rsplit_once sep [] = none
rsplit_once sep (c ∷ s) = elim (rsplit_once sep s) [
  | some (body, rest) ↦ some (c ∷ body, rest)
  | none ↦ if nat_eqb c sep then some ([], s) else none
]

-- Puts a character in front of the first part of a split.
abbrev pub prepend : ℕ → List Text → List Text
prepend c [] = (c ∷ []) ∷ []
prepend c (s ∷ parts) = (c ∷ s) ∷ parts

-- `s.split(sep)`
abbrev pub split : ℕ → Text → List Text
split sep [] = [] ∷ []
split sep (c ∷ s) = let parts = split sep s in if nat_eqb c sep then [] ∷ parts else prepend c parts

-- `c.upper()` on an ASCII character
abbrev pub upper : ℕ → ℕ
upper c = if leb b'a' c && leb c b'z' then c - 32 else c

-- `s.endswith(p)`
abbrev pub ends_with : Text → Text → Bool
ends_with s p = text_eqb (drop (length s - length p) s) p

-- The characters that end a line for `str.splitlines`.
abbrev pub is_line_break : ℕ → Bool
is_line_break c =
    (leb 10 c && leb c 13)
    || (leb 28 c && leb c 30)
    || nat_eqb c 133
    || nat_eqb c 8232
    || nat_eqb c 8233

-- The lines of a text; `after_cr` tells that a carriage return has just ended one, which a line feed
-- belongs to.
abbrev pub lines_from : Bool → Text → List Text
lines_from after_cr [] = []
lines_from after_cr (c ∷ s) =
    let rest = lines_from (nat_eqb c 13) s in
    if after_cr && nat_eqb c 10 then rest else if is_line_break c then [] ∷ rest else prepend c rest

-- `s.splitlines()`
unfoldable pub splitlines : Text → List Text
splitlines s = lines_from false s

-- `a or b`, for texts
abbrev pub text_or : Text → Text → Text
text_or [] b = b
text_or (c ∷ s) b = c ∷ s

-- `c.lower()` on an ASCII character
abbrev pub lower : ℕ → ℕ
lower c = if leb b'A' c && leb c b'Z' then c + 32 else c

-- Whether a text ends here or goes on with white space.
abbrev pub ends_word : Text → Bool
ends_word [] = true
ends_word (c ∷ s) = is_space c

-- `s.split()`: the words between white space.
unfoldable pub words : Text → List Text
words [] = []
words (c ∷ s) =
    let rest = words s in
    if is_space c then rest else if ends_word s then (c ∷ []) ∷ rest else prepend c rest
