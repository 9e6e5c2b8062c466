-- ===== src/Phone/Laws.antt =====
-- Normalised phones (`normalize_phone` of app/data_quality.py).
use mathlib.Core.Path.{subst}
use ollum_sales.Prelude.{
  ◌≤◌, ◌≡◌, refl, true, false, ◌&&◌, [], ◌∷◌, some, arith, All, length, ◌==◌, Bool-cases, inl, inr,
}
use ollum_sales.Text.{Text, text}
use ollum_sales.Phone.{
  is_digit, digits_of, drop_00, to_country_code, all_zero, phone_digits, is_phone, normalize_phone,
  starts_with,
}

-- Only decimal digits.
abbrev pub Digits : Text → Type 0
Digits s = All (λ c. is_digit c ≡ true) s

digits_of-Digits : (s : Text) → Digits (digits_of s)
unfolding digits_of
digits_of-Digits [] = tt
digits_of-Digits (c ∷ s) = elim (Bool-cases (is_digit c)) [
  | inl e ↦ rw e (e, digits_of-Digits s)
  | inr e ↦ rw e (digits_of-Digits s)
]

drop_00-Digits : (s : Text) → Digits s → Digits (drop_00 s)
unfolding drop_00
drop_00-Digits [] h = tt
drop_00-Digits (a ∷ []) h = h
drop_00-Digits (a ∷ b ∷ s) h = elim (Bool-cases (a == b'0' && b == b'0')) [
  | inl e ↦ rw e h.1.1
  | inr e ↦ rw e h
]

is_digit_7 : is_digit b'7' ≡ true
unfolding is_digit
is_digit_7 = refl

country_code-Digits : (s : Text) → Digits s → Digits (to_country_code s)
unfolding to_country_code
country_code-Digits [] h = tt
country_code-Digits (c ∷ s) h = elim (Bool-cases (length s == 10 && c == b'8')) [
  | inl e ↦ rw e (is_digit_7, h.1)
  | inr e ↦ rw e h
]

digits_of-id : (s : Text) → Digits s → digits_of s ≡ s
unfolding digits_of
digits_of-id [] h = refl
digits_of-id (c ∷ s) h = rw (h.0, digits_of-id s h.1) refl

country_code_idem : (s : Text) → to_country_code (to_country_code s) ≡ to_country_code s
unfolding to_country_code
country_code_idem [] = refl
country_code_idem (c ∷ s) = ground arith

drop_00-id : (s : Text) → starts_with (text "00") s ≡ false → drop_00 s ≡ s
unfolding drop_00 starts_with
drop_00-id [] h = refl
drop_00-id (a ∷ []) h = refl
drop_00-id (a ∷ b ∷ s) h = ground arith

phone_digits-Digits : (value : Text) → Digits (phone_digits value)
unfolding phone_digits
phone_digits-Digits value =
    country_code-Digits (drop_00 (digits_of value))
      (drop_00-Digits (digits_of value) (digits_of-Digits value))

phone_digits-id :
    (value : Text)
    → starts_with (text "00") (phone_digits value) ≡ false
    → phone_digits (phone_digits value) ≡ phone_digits value
unfolding phone_digits
phone_digits-id value h =
    let d = phone_digits value in
    rw (digits_of-id d (phone_digits-Digits value), drop_00-id d h)
      (country_code_idem (drop_00 (digits_of value)))

accepted :
    (value digits : Text)
    → normalize_phone value ≡ some digits
    → (digits ≡ phone_digits value) × (is_phone (phone_digits value) ≡ true)
unfolding normalize_phone
accepted value digits h = ground arith

is_phone_bounds :
    (d : Text) → is_phone d ≡ true → (7 ≤ length d) × (length d ≤ 15) × (all_zero d ≡ false)
unfolding is_phone
is_phone_bounds d h = ground arith

-- A phone that was accepted has 7 to 15 characters, all decimal digits and not all zeros.
pub normalize_phone_lem :
    (value digits : Text)
    → normalize_phone value ≡ some digits
    → (7 ≤ length digits) × (length digits ≤ 15) × (all_zero digits ≡ false) × Digits digits
normalize_phone_lem value digits h =
    let (same_digits, valid) = accepted value digits h in
    let (low, high, nonzero) = is_phone_bounds (phone_digits value) valid in
    rw same_digits (low, high, nonzero, phone_digits-Digits value)

-- A phone that was accepted and does not still begin with 00 is its own normal form.
pub normalize_phone_idem :
    (value digits : Text)
    → normalize_phone value ≡ some digits
    → starts_with (text "00") digits ≡ false
    → normalize_phone digits ≡ some digits
unfolding normalize_phone
normalize_phone_idem value digits h n =
    let (same_digits, valid) = accepted value digits h in
    rw same_digits (
      rw
        (
          phone_digits-id value (subst (λ d. starts_with (text "00") d ≡ false) same_digits n),
          valid,
        )
        refl)
