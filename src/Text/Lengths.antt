-- ===== src/Text/Lengths.antt =====
-- The length of a text that is cleaned.
use ollum_sales.Prelude.{ℕ, suc, ◌≤◌, ◌<◌, ◌≡◌, false, [], ◌∷◌, length, arith}
use ollum_sales.Text.{Text, lstrip, cons_stripped, rstrip, strip, is_empty}

length-lstrip : (s : Text) → length (lstrip s) ≤ length s
unfolding lstrip
length-lstrip [] = omega arith
length-lstrip (c ∷ s) = ground (arith, length-lstrip s)

length-cons_stripped : (c : ℕ) (s : Text) → length (cons_stripped c s) ≤ suc (length s)
unfolding cons_stripped
length-cons_stripped c [] = ground arith
length-cons_stripped c (d ∷ s) = omega arith

length-rstrip : (s : Text) → length (rstrip s) ≤ length s
unfolding rstrip
length-rstrip [] = omega arith
length-rstrip (c ∷ s) = omega (arith, length-cons_stripped c (rstrip s), length-rstrip s)

pub length-strip : (s : Text) → length (strip s) ≤ length s
unfolding strip
length-strip s = omega (arith, length-rstrip (lstrip s), length-lstrip s)

pub length-pos : (s : Text) → is_empty s ≡ false → 0 < length s
length-pos [] h = cc
length-pos (c ∷ s) h = omega arith
