-- ===== src/Nmea/Canonical.antt =====
-- The canonical form of a sentence, by which copies are recognised.
use ais_server.Prelude.{
  ℕ, ◌≡◌, refl, sym, ap, ◌∙◌, ◌⊎◌, inl, inr, Bool, true, false, [], ◌∷◌, ◌++◌, arith, all,
}
use ais_server.Prelude.Text.{Text, contains, is_space, lstrip, rstrip, strip, rsplit_once, upper}
use ais_server.Nmea.{canonical_parts, canonicalise}
use ais_server.Nmea.Checksum.{rsplit_once-append}

module _ (p : ℕ → Bool) where
  lstrip-append : (w s : Text) → all p w ≡ true → lstrip p (w ++ s) ≡ lstrip p s
  lstrip-append [] s h = refl
  lstrip-append (c ∷ w) s h = ground (arith, lstrip-append w s)

  all-append_right : (s w : Text) → all p w ≡ true → all p (s ++ w) ≡ all p s
  all-append_right [] w h = h
  all-append_right (c ∷ s) w h = ground (arith, all-append_right s w)

  rstrip-all : (w : Text) → all p w ≡ true → rstrip p w ≡ []
  rstrip-all [] h = refl
  rstrip-all (c ∷ w) h = ground arith

  rstrip-append : (s w : Text) → all p w ≡ true → rstrip p (s ++ w) ≡ rstrip p s
  rstrip-append [] w h = rstrip-all w h
  rstrip-append (c ∷ s) w h = rw (all-append_right s w h, rstrip-append s w h) refl

  lstrip-all : (w : Text) → all p w ≡ true → lstrip p w ≡ []
  lstrip-all [] h = refl
  lstrip-all (c ∷ w) h = ground (arith, lstrip-all w)

  -- What `lstrip` leaves of a text with white space behind it.
  lstrip-append_right :
      (s w : Text)
      → all p w ≡ true
      → (lstrip p (s ++ w) ≡ lstrip p s ++ w) ⊎ ((lstrip p (s ++ w) ≡ []) × (lstrip p s ≡ []))
  lstrip-append_right [] w h = inr (lstrip-all w h, refl)
  lstrip-append_right (c ∷ s) w h = ground (arith, lstrip-append_right s w)

  -- Stripping does not see white space that is put around a text.
  strip_padding :
      (w s w' : Text) → all p w ≡ true → all p w' ≡ true → strip p (w ++ (s ++ w')) ≡ strip p s
  strip_padding w s w' h h' =
      ap (rstrip p) (lstrip-append w (s ++ w') h) ∙ inner (lstrip-append_right s w' h')
    where
      inner :
          (lstrip p (s ++ w') ≡ lstrip p s ++ w') ⊎ ((lstrip p (s ++ w') ≡ []) × (lstrip p s ≡ []))
          → rstrip p (lstrip p (s ++ w')) ≡ rstrip p (lstrip p s)
      inner (inl e) = ap (rstrip p) e ∙ rstrip-append (lstrip p s) w' h'
      inner (inr (e, f)) = ap (rstrip p) (e ∙ sym f)

  lstrip_stop : (s t : Text) (x : ℕ) → p x ≡ false → lstrip p (s ++ x ∷ t) ≡ lstrip p s ++ x ∷ t
  lstrip_stop [] t x h = rw h refl
  lstrip_stop (c ∷ s) t x h = ground (arith, lstrip_stop s t x)

  all_stop : (s t : Text) (x : ℕ) → p x ≡ false → all p (s ++ x ∷ t) ≡ false
  all_stop [] t x h = rw h refl
  all_stop (c ∷ s) t x h = ground (arith, all_stop s t x)

  rstrip_keep : (s t : Text) (x : ℕ) → p x ≡ false → rstrip p (s ++ x ∷ t) ≡ s ++ x ∷ rstrip p t
  rstrip_keep [] t x h = rw h refl
  rstrip_keep (c ∷ s) t x h = ground (arith, all_stop s t x, rstrip_keep s t x)

  contains-rstrip : (c : ℕ) (s : Text) → contains c s ≡ false → contains c (rstrip p s) ≡ false
  contains-rstrip c [] h = refl
  contains-rstrip c (d ∷ s) h = ground (arith, contains-rstrip c s)

  lstrip-lstrip : (s : Text) → lstrip p (lstrip p s) ≡ lstrip p s
  lstrip-lstrip [] = refl
  lstrip-lstrip (c ∷ s) = ground (arith, lstrip-lstrip s)

  strip_sentence :
      (body tail : Text) (star c d : ℕ)
      → p star ≡ false
      → p c ≡ false
      → p d ≡ false
      → strip p (body ++ star ∷ c ∷ d ∷ tail) ≡ lstrip p body ++ star ∷ c ∷ d ∷ rstrip p tail
  strip_sentence body tail star c d hs hc hd =
      ap (rstrip p) (lstrip_stop body (c ∷ d ∷ tail) star hs)
      ∙ rstrip_keep (lstrip p body) (c ∷ d ∷ tail) star hs
      ∙ ap (λ t. lstrip p body ++ star ∷ t)
          (rstrip_keep [] (d ∷ tail) c hc ∙ ap (◌∷◌ c) (rstrip_keep [] tail d hd))

-- White space in front of a sentence or behind it, such as CR and LF, does not change its
-- canonical form.
pub canonicalise_padding :
    (w s w' : Text)
    → all is_space w ≡ true
    → all is_space w' ≡ true
    → canonicalise (w ++ (s ++ w')) ≡ canonicalise s
unfolding canonicalise
canonicalise_padding w s w' h h' =
    ap (λ t. canonical_parts t (rsplit_once b'*' t)) (strip_padding is_space w s w' h h')

-- The canonical form of a sentence with a two-character checksum: the body without the white space
-- in front, and the checksum in upper case. What follows the checksum is dropped.
pub canonicalise_checksum :
    (body tail : Text) (c d : ℕ)
    → is_space c ≡ false
    → is_space d ≡ false
    → contains b'*' (c ∷ d ∷ tail) ≡ false
    → canonicalise (body ++ b'*' ∷ c ∷ d ∷ tail)
      ≡ lstrip is_space body ++ b'*' ∷ upper c ∷ upper d ∷ []
unfolding canonicalise
canonicalise_checksum body tail c d hc hd hs =
    let s = lstrip is_space body in
    let t = c ∷ d ∷ rstrip is_space tail in
    ap (λ u. canonical_parts u (rsplit_once b'*' u))
      (strip_sentence is_space body tail b'*' c d refl hc hd)
    ∙ ap (canonical_parts (s ++ b'*' ∷ t)) (rsplit_once-append b'*' s t (stars hs))
  where
    stars :
        contains b'*' (c ∷ d ∷ tail) ≡ false → contains b'*' (c ∷ d ∷ rstrip is_space tail) ≡ false
    stars h = ground (arith, contains-rstrip is_space b'*' tail)

-- Bringing a sentence with a two-character checksum into canonical form twice changes nothing more.
pub canonicalise-canonicalise :
    (body tail : Text) (c d : ℕ)
    → is_space c ≡ false
    → is_space d ≡ false
    → contains b'*' (c ∷ d ∷ tail) ≡ false
    → canonicalise (canonicalise (body ++ b'*' ∷ c ∷ d ∷ tail))
      ≡ canonicalise (body ++ b'*' ∷ c ∷ d ∷ tail)
canonicalise-canonicalise body tail c d hc hd hs =
    let first = canonicalise_checksum body tail c d hc hd hs in
    ap canonicalise first
    ∙ canonicalise_checksum (lstrip is_space body) [] (upper c) (upper d) (upper_space c hc)
        (upper_space d hd) (upper_stars hs)
    ∙ again
    ∙ sym first
  where
    upper_space : (x : ℕ) → is_space x ≡ false → is_space (upper x) ≡ false
    upper_space x h = ground arith

    upper_stars :
        contains b'*' (c ∷ d ∷ tail) ≡ false → contains b'*' (upper c ∷ upper d ∷ []) ≡ false
    upper_stars h = ground arith

    upper_upper : (x : ℕ) → upper (upper x) ≡ upper x
    upper_upper x = ground arith

    again :
        lstrip is_space (lstrip is_space body) ++ b'*' ∷ upper (upper c) ∷ upper (upper d) ∷ []
        ≡ lstrip is_space body ++ b'*' ∷ upper c ∷ upper d ∷ []
    again = rw (lstrip-lstrip is_space body, upper_upper c, upper_upper d) refl
