-- ===== src/Nmea/Structure.antt =====
-- Which sentences `parse` accepts, and the fields that it returns.
use ais_server.Prelude.{
  ℕ, ◌≡◌, refl, ap, ◌∙◌, Bool, true, false, none, some, List, [], ◌∷◌, ◌++◌, arith, nat_eqb,
  if◌then◌else◌, All,
}
use ais_server.Prelude.Text.{Text, contains, starts_with, split_once, split}
use ais_server.Prelude.Int.{ℤ}
use ais_server.Prelude.Number.{int_decimal}
use ais_server.Nmea.{
  ais_starts, starts_with_any, ais_re, validate_checksum, fill_of, parse_parts, parse,
}

-- The fields of a sentence with a separator between each two.
abbrev pub join : ℕ → List Text → Text
join sep [] = []
join sep (f ∷ []) = f
join sep (f ∷ g ∷ fs) = f ++ sep ∷ join sep (g ∷ fs)

-- No field holds the character.
abbrev pub Lacks : ℕ → List Text → Type 0
Lacks c fs = All (λ f. contains c f ≡ false) fs

split_first :
    (sep : ℕ) (f rest : Text)
    → contains sep f ≡ false
    → split sep (f ++ sep ∷ rest) ≡ f ∷ split sep rest
split_first sep [] rest h = ground arith
split_first sep (c ∷ f) rest h = ground (arith, split_first sep f rest)

split_single : (sep : ℕ) (f : Text) → contains sep f ≡ false → split sep f ≡ f ∷ []
split_single sep [] h = refl
split_single sep (c ∷ f) h = ground (arith, split_single sep f)

-- Splitting takes back joining.
pub split-join :
    (sep : ℕ) (f : Text) (fs : List Text)
    → Lacks sep (f ∷ fs)
    → split sep (join sep (f ∷ fs)) ≡ f ∷ fs
split-join sep f [] l = split_single sep f l.0
split-join sep f (g ∷ fs) l =
    split_first sep f (join sep (g ∷ fs)) l.0 ∙ ap (◌∷◌ f) (split-join sep g fs l.1)

pub contains-append :
    (c : ℕ) (s t : Text) → contains c s ≡ false → contains c t ≡ false → contains c (s ++ t) ≡ false
contains-append c [] t p q = q
contains-append c (d ∷ s) t p q = ground (arith, contains-append c s t)

pub contains-join :
    (c sep : ℕ) (fs : List Text)
    → nat_eqb sep c ≡ false
    → Lacks c fs
    → contains c (join sep fs) ≡ false
contains-join c sep [] n l = refl
contains-join c sep (f ∷ []) n l = l.0
contains-join c sep (f ∷ g ∷ fs) n l =
    contains-append c f (sep ∷ join sep (g ∷ fs)) l.0 (rw n (contains-join c sep (g ∷ fs) n l.1))

pub split_once_head :
    (sep : ℕ) (s rest : Text) → contains sep s ≡ false → (split_once sep (s ++ sep ∷ rest)).0 ≡ s
split_once_head sep [] rest h = ground arith
split_once_head sep (c ∷ s) rest h = ground (arith, split_once_head sep s rest)

starts_with-append : (s r p : Text) → starts_with s p ≡ true → starts_with (s ++ r) p ≡ true
starts_with-append s r [] h = refl
starts_with-append [] r (d ∷ p) h = cc
starts_with-append (c ∷ s) r (d ∷ p) h = ground (arith, starts_with-append s r p)

starts_with_any-append :
    (ps : List Text) (s r : Text) → starts_with_any ps s ≡ true → starts_with_any ps (s ++ r) ≡ true
starts_with_any-append [] s r h = cc
starts_with_any-append (p ∷ ps) s r h =
    ground (arith, starts_with-append s r p, starts_with_any-append ps s r)

-- The sentence with the given fields, and anything behind the `*`.
abbrev pub sentence : List Text → Text → Text
sentence fields tail = join b',' fields ++ b'*' ∷ tail

ais_re-true : (s : Text) → starts_with_any ais_starts s ≡ true → ais_re s ≡ true
unfolding ais_re
ais_re-true s h = h

parse_parts_lem :
    (ok : Bool) (p₀ p₁ p₂ p₃ p₄ p₅ p₆ : Text) (more : List Text) (count number fill : ℤ)
    → int_decimal p₁ ≡ some count
    → int_decimal p₂ ≡ some number
    → fill_of p₆ ≡ some fill
    → parse_parts ok (p₀ ∷ p₁ ∷ p₂ ∷ p₃ ∷ p₄ ∷ p₅ ∷ p₆ ∷ more)
      ≡ some (record {
        sentence_type = p₀;
        fragment_count = count;
        fragment_number = number;
        message_id = p₃;
        channel = p₄;
        payload = p₅;
        fill_bits = fill;
        checksum_ok = ok;
      })
unfolding parse_parts
parse_parts_lem ok p₀ p₁ p₂ p₃ p₄ p₅ p₆ more count number fill e₁ e₂ e₆ = rw (e₁, e₂, e₆) refl

-- A sentence of seven fields or more, which hold no comma and no `*`, that starts with a known
-- type, and whose numbers `int` reads, is parsed into exactly these fields.
pub parse-sentence :
    (p₀ p₁ p₂ p₃ p₄ p₅ p₆ : Text) (more : List Text) (tail : Text) (count number fill : ℤ)
    → Lacks b',' (p₀ ∷ p₁ ∷ p₂ ∷ p₃ ∷ p₄ ∷ p₅ ∷ p₆ ∷ more)
    → Lacks b'*' (p₀ ∷ p₁ ∷ p₂ ∷ p₃ ∷ p₄ ∷ p₅ ∷ p₆ ∷ more)
    → starts_with_any ais_starts (sentence (p₀ ∷ p₁ ∷ p₂ ∷ p₃ ∷ p₄ ∷ p₅ ∷ p₆ ∷ more) tail) ≡ true
    → int_decimal p₁ ≡ some count
    → int_decimal p₂ ≡ some number
    → fill_of p₆ ≡ some fill
    → parse (sentence (p₀ ∷ p₁ ∷ p₂ ∷ p₃ ∷ p₄ ∷ p₅ ∷ p₆ ∷ more) tail)
      ≡ some (record {
        sentence_type = p₀;
        fragment_count = count;
        fragment_number = number;
        message_id = p₃;
        channel = p₄;
        payload = p₅;
        fill_bits = fill;
        checksum_ok = validate_checksum (sentence (p₀ ∷ p₁ ∷ p₂ ∷ p₃ ∷ p₄ ∷ p₅ ∷ p₆ ∷ more) tail);
      })
unfolding parse
parse-sentence p₀ p₁ p₂ p₃ p₄ p₅ p₆ more tail count number fill commas stars start e₁ e₂ e₆ =
    let fields = p₁ ∷ p₂ ∷ p₃ ∷ p₄ ∷ p₅ ∷ p₆ ∷ more in
    let s = sentence (p₀ ∷ fields) tail in
    let ok = validate_checksum s in
    let head =
      split_once_head b'*' (join b',' (p₀ ∷ fields)) tail
        (contains-join b'*' b',' (p₀ ∷ fields) refl stars) in
    ap (λ b. if b then parse_parts ok (split b',' (split_once b'*' s).0) else none)
      (ais_re-true s start)
    ∙ ap (λ h. parse_parts ok (split b',' h)) head
    ∙ ap (parse_parts ok) (split-join b',' p₀ fields commas)
    ∙ parse_parts_lem ok p₀ p₁ p₂ p₃ p₄ p₅ p₆ more count number fill e₁ e₂ e₆
