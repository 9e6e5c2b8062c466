-- ===== src/Text/Laws.antt =====
-- Laws of the texts: equality, and cleaning twice.
use ollum_sales.Prelude.{
  ℕ, ◌≡◌, refl, ◌↔◌, inl, inr, true, false, ◌∙◌, ap, [], ◌∷◌, arith, Bool-cases,
}
use ollum_sales.Text.{Text, same, is_space, lower_char, lower, lstrip, cons_stripped, rstrip, strip}

pub same_iff : (s t : Text) → (same s t ≡ true) ↔ (s ≡ t)
unfolding same
same_iff [] [] = (λ _. refl, λ _. refl)
same_iff [] (d ∷ t) = (λ h. cc, λ h. cc)
same_iff (c ∷ s) [] = (λ h. cc, λ h. cc)
same_iff (c ∷ s) (d ∷ t) = ground (arith, same_iff s t)

pub same_refl : (s : Text) → same s s ≡ true
same_refl s = (same_iff s s).1 refl

pub lower_char_idem : (c : ℕ) → lower_char (lower_char c) ≡ lower_char c
unfolding lower_char
lower_char_idem c = ground arith

pub lower_idem : (s : Text) → lower (lower s) ≡ lower s
unfolding lower
lower_idem [] = refl
lower_idem (c ∷ s) = cc (lower_char_idem c, lower_idem s)

lstrip_idem : (s : Text) → lstrip (lstrip s) ≡ lstrip s
unfolding lstrip
lstrip_idem [] = refl
lstrip_idem (c ∷ s) = ground (arith, lstrip_idem s)

rstrip-cons_stripped :
    (c : ℕ) (s : Text) → rstrip s ≡ s → rstrip (cons_stripped c s) ≡ cons_stripped c s
unfolding rstrip cons_stripped
rstrip-cons_stripped c [] h = ground arith
rstrip-cons_stripped c (d ∷ s) h = rw h

rstrip_idem : (s : Text) → rstrip (rstrip s) ≡ rstrip s
unfolding rstrip
rstrip_idem [] = refl
rstrip_idem (c ∷ s) = rstrip-cons_stripped c (rstrip s) (rstrip_idem s)

lstrip-cons_stripped :
    (c : ℕ) (s : Text) → is_space c ≡ false → lstrip (cons_stripped c s) ≡ cons_stripped c s
unfolding lstrip cons_stripped
lstrip-cons_stripped c [] h = ground arith
lstrip-cons_stripped c (d ∷ s) h = ground arith

lstrip-rstrip : (s : Text) → lstrip (rstrip (lstrip s)) ≡ rstrip (lstrip s)
unfolding lstrip rstrip
lstrip-rstrip [] = refl
lstrip-rstrip (c ∷ s) = elim (Bool-cases (is_space c)) [
  | inl e ↦ rw e (lstrip-rstrip s)
  | inr e ↦ rw e (lstrip-cons_stripped c (rstrip s) e)
]

-- A stripped text is left alone by another `strip`.
pub strip_idem : (s : Text) → strip (strip s) ≡ strip s
unfolding strip
strip_idem s = rw lstrip-rstrip (rstrip_idem (lstrip s))

is_space-lower_char : (c : ℕ) → is_space (lower_char c) ≡ is_space c
unfolding is_space lower_char
is_space-lower_char c = ground arith

lower-lstrip : (s : Text) → lower (lstrip s) ≡ lstrip (lower s)
unfolding lower lstrip
lower-lstrip [] = refl
lower-lstrip (c ∷ s) = ground (arith, is_space-lower_char c, lower-lstrip s)

lower-cons_stripped :
    (c : ℕ) (s : Text) → lower (cons_stripped c s) ≡ cons_stripped (lower_char c) (lower s)
unfolding lower cons_stripped
lower-cons_stripped c [] = ground (arith, is_space-lower_char c)
lower-cons_stripped c (d ∷ s) = refl

lower-rstrip : (s : Text) → lower (rstrip s) ≡ rstrip (lower s)
unfolding lower rstrip
lower-rstrip [] = refl
lower-rstrip (c ∷ s) =
    lower-cons_stripped c (rstrip s) ∙ ap (cons_stripped (lower_char c)) (lower-rstrip s)

-- The order in which a text is stripped and lowered does not matter.
pub lower-strip : (s : Text) → lower (strip s) ≡ strip (lower s)
unfolding strip
lower-strip s = rw (lower-rstrip (lstrip s), lower-lstrip s)

-- `value.strip().lower()`, which the program cleans its keys with.
abbrev pub clean : Text → Text
clean s = lower (strip s)

pub clean_idem : (s : Text) → clean (clean s) ≡ clean s
clean_idem s = rw (← lower-strip (strip s), lower_idem (strip (strip s))) (ap lower (strip_idem s))
