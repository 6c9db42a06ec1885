-- ===== src/Nmea/Checksum.antt =====
-- What the checksum test accepts, and the errors that it finds.
use ais_server.Prelude.{
  ℕ, zero, suc, ◌+◌, ◌/◌, ◌%◌, ◌<◌, ◌≡◌, refl, sym, ap, ◌∙◌, ◌≢◌, inl, inr, Bool, true, false, ◌&&◌,
  not, Option, none, some, [], ◌∷◌, ◌++◌, arith, ltb, nat_eqb, if◌then◌else◌, nat_eqb_iff,
  Bool-cases, All,
}
use ais_server.Prelude.Text.{Text, contains, lstrip, rsplit_once}
use ais_server.Prelude.Int.{ℤ, pos, negsuc}
use Prim.Native.Nat.{bit_xor}
use ais_server.Prelude.Number.{int_hex}
use ais_server.Nmea.{is_start, xor_loop, same_int, check_parts, validate_checksum}

-- A test that holds for all numbers below a bound, by running it.
every_below : (ℕ → Bool) → ℕ → Bool
every_below test zero = true
every_below test (suc m) = every_below test m && test m

at_each : (test : ℕ → Bool) (m y : ℕ) → y < m → every_below test m ≡ true → test y ≡ true
unfolding every_below
at_each test zero y l e = absurd (omega arith)
at_each test (suc m) y l e = ground (arith, at_each test m y)

at_each_pair :
    (n : ℕ) (p : ℕ → ℕ → Bool) (x y : ℕ)
    → every_below (λ a. every_below (p a) n) n ≡ true
    → x < n
    → y < n
    → p x y ≡ true
at_each_pair n p x y h lx ly = at_each (p x) n y ly (at_each (λ a. every_below (p a) n) n x lx h)

-- The laws of exclusive or on ASCII codes.
abbrev xor_laws : ℕ → ℕ → Bool
xor_laws a b =
    ltb (bit_xor a b) 128
    && nat_eqb (bit_xor (bit_xor a b) b) a
    && nat_eqb (bit_xor a (bit_xor a b)) b

xor_table : every_below (λ a. every_below (xor_laws a) 128) 128 ≡ true
unfolding every_below
xor_table = refl

xor_facts :
    (a b : ℕ)
    → a < 128
    → b < 128
    → (bit_xor a b < 128) × (bit_xor (bit_xor a b) b ≡ a) × (bit_xor a (bit_xor a b) ≡ b)
xor_facts a b p q = split_laws (at_each_pair 128 xor_laws a b xor_table p q)
  where
    split_laws :
        xor_laws a b ≡ true
        → (bit_xor a b < 128) × (bit_xor (bit_xor a b) b ≡ a) × (bit_xor a (bit_xor a b) ≡ b)
    split_laws h = ground arith

-- The two upper-case hexadecimal digits of a byte.
abbrev hex_digit : ℕ → ℕ
hex_digit n = if ltb n 10 then n + 48 else n + 55

abbrev pub hex2 : ℕ → Text
hex2 n = hex_digit (n / 16) ∷ hex_digit (n % 16) ∷ []

abbrev is_int : ℕ → Option ℤ → Bool
is_int n (some (pos m)) = nat_eqb m n
is_int n _ = false

hex_table :
    every_below (λ n. is_int n (int_hex (hex2 n)) && not (contains b'*' (hex2 n))) 256 ≡ true
unfolding every_below int_hex
hex_table = refl

is_int_eq : (n : ℕ) (r : Option ℤ) → is_int n r ≡ true → r ≡ some (pos n)
is_int_eq n (some (pos m)) h = ground arith
is_int_eq n (some (negsuc m)) h = cc
is_int_eq n none h = cc

hex2_facts :
    (n : ℕ) → n < 256 → (int_hex (hex2 n) ≡ some (pos n)) × (contains b'*' (hex2 n) ≡ false)
hex2_facts n p =
    split_facts
      (at_each (λ m. is_int m (int_hex (hex2 m)) && not (contains b'*' (hex2 m))) 256 n p hex_table)
  where
    split_facts :
        (is_int n (int_hex (hex2 n)) && not (contains b'*' (hex2 n))) ≡ true
        → (int_hex (hex2 n) ≡ some (pos n)) × (contains b'*' (hex2 n) ≡ false)
    split_facts h = (is_int_eq n (int_hex (hex2 n)) (ground arith), ground arith)

rsplit_once-none : (sep : ℕ) (s : Text) → contains sep s ≡ false → rsplit_once sep s ≡ none
rsplit_once-none sep [] h = refl
rsplit_once-none sep (c ∷ s) h = ground (arith, rsplit_once-none sep s)

-- A text is cut at the separator after which there is none.
pub rsplit_once-append :
    (sep : ℕ) (body rest : Text)
    → contains sep rest ≡ false
    → rsplit_once sep (body ++ sep ∷ rest) ≡ some (body, rest)
rsplit_once-append sep [] rest h = rw (rsplit_once-none sep rest h) (ground arith)
rsplit_once-append sep (c ∷ body) rest h = rw (rsplit_once-append sep body rest h) refl

-- A sentence with its checksum behind the `*`, and what a gateway appends.
abbrev pub with_checksum : Text → ℕ → Text → Text
with_checksum body n tail = b'!' ∷ body ++ (b'*' ∷ hex2 n ++ tail)

contains-append :
    (c : ℕ) (s t : Text) → contains c s ≡ false → contains c t ≡ false → contains c (s ++ t) ≡ false
contains-append c [] t p q = q
contains-append c (d ∷ s) t p q = ground (arith, contains-append c s t)

-- For a body that starts with neither `!` nor `$`, and a tag without `*` behind the checksum, the
-- sentence passes exactly if the two digits are the exclusive or of the characters of the body.
pub validate_checksum-with_checksum :
    (body tail : Text) (n : ℕ)
    → lstrip is_start body ≡ body
    → n < 256
    → contains b'*' tail ≡ false
    → validate_checksum (with_checksum body n tail) ≡ nat_eqb (xor_loop 0 body) n
unfolding validate_checksum
validate_checksum-with_checksum body tail n e p q =
    let f = hex2_facts n p in
    let cut =
      rsplit_once-append b'*' (b'!' ∷ body) (hex2 n ++ tail)
        (contains-append b'*' (hex2 n) tail f.1 q) in
    ap check_parts cut
    ∙ ap (λ s. same_int (xor_loop 0 s) (int_hex (hex2 n))) e
    ∙ ap (same_int (xor_loop 0 body)) f.0

xor_loop-lt : (acc : ℕ) (s : Text) → acc < 128 → All (λ c. c < 128) s → xor_loop acc s < 128
unfolding xor_loop
xor_loop-lt acc [] p a = p
xor_loop-lt acc (c ∷ s) p a = xor_loop-lt (bit_xor acc c) s (xor_facts acc c p a.0).0 a.1

xor_loop-append : (acc : ℕ) (s t : Text) → xor_loop acc (s ++ t) ≡ xor_loop (xor_loop acc s) t
unfolding xor_loop
xor_loop-append acc [] t = refl
xor_loop-append acc (c ∷ s) t = xor_loop-append (bit_xor acc c) s t

xor_loop_injective :
    (a b : ℕ) (s : Text)
    → a < 128
    → b < 128
    → All (λ c. c < 128) s
    → xor_loop a s ≡ xor_loop b s
    → a ≡ b
unfolding xor_loop
xor_loop_injective a b [] p q r e = e
xor_loop_injective a b (c ∷ s) p q r e =
    let fa = xor_facts a c p r.0 in
    let fb = xor_facts b c q r.0 in
    let same = xor_loop_injective (bit_xor a c) (bit_xor b c) s fa.0 fb.0 r.1 e in
    sym fa.1 ∙ ap (λ x. bit_xor x c) same ∙ fb.1

xor_loop_one_changed :
    (acc c d : ℕ) (s : Text)
    → acc < 128
    → c < 128
    → d < 128
    → All (λ c. c < 128) s
    → xor_loop acc (c ∷ s) ≡ xor_loop acc (d ∷ s)
    → c ≡ d
unfolding xor_loop
xor_loop_one_changed acc c d s p q r a e =
    let fc = xor_facts acc c p q in
    let fd = xor_facts acc d p r in
    let same = xor_loop_injective (bit_xor acc c) (bit_xor acc d) s fc.0 fd.0 a e in
    sym fc.2 ∙ ap (bit_xor acc) same ∙ fd.2

-- In an ASCII sentence that passes, change one character of the body behind its first: the sentence
-- no longer passes, whatever the character is changed to.
pub validate_checksum_one_changed :
    (p c d n : ℕ) (before after tail : Text)
    → is_start p ≡ false
    → All (λ c. c < 128) (p ∷ before)
    → c < 128
    → d < 128
    → All (λ c. c < 128) after
    → n < 256
    → contains b'*' tail ≡ false
    → c ≢ d
    → validate_checksum (with_checksum (p ∷ before ++ c ∷ after) n tail) ≡ true
    → validate_checksum (with_checksum (p ∷ before ++ d ∷ after) n tail) ≡ false
validate_checksum_one_changed p c d n before after tail s a lc ld b ln t ne ok =
    elim (Bool-cases (validate_checksum (with_checksum (p ∷ before ++ d ∷ after) n tail))) [
      | inr bad ↦ bad
      | inl also ↦
          absurd
            (ne (xor_loop_one_changed acc c d after below lc ld b (sum c ok ∙ sym (sum d also))))
    ]
  where
    acc : ℕ
    acc = xor_loop 0 (p ∷ before)

    below : acc < 128
    below = xor_loop-lt 0 (p ∷ before) (omega arith) a

    starts : (x : ℕ) → lstrip is_start (p ∷ before ++ x ∷ after) ≡ p ∷ before ++ x ∷ after
    starts x = rw s refl

    sum :
        (x : ℕ)
        → validate_checksum (with_checksum (p ∷ before ++ x ∷ after) n tail) ≡ true
        → xor_loop acc (x ∷ after) ≡ n
    sum x v =
        sym (xor_loop-append 0 (p ∷ before) (x ∷ after))
        ∙ (nat_eqb_iff _ n).0 (
            sym (validate_checksum-with_checksum (p ∷ before ++ x ∷ after) tail n (starts x) ln t)
            ∙ v)
