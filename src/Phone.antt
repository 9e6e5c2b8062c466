-- ===== src/Phone.antt =====
-- Phones and WhatsApp addresses (app/data_quality.py): `normalize_phone`,
-- `normalize_whatsapp_jid` and `is_technical_whatsapp_jid`. `none` is the `ValueError`, or the
-- `None`, of the source.
pub mod Laws
use ollum_sales.Prelude.{
  ℕ, suc, ◌+◌, Bool, true, false, not, ◌&&◌, ◌||◌, List, [], ◌∷◌, ◌++◌, Option, none, some, length,
  ltb, leb, ◌==◌, if◌then◌else◌,
}
use ollum_sales.Text.{Text, text, same, strip, lower, is_empty, has_char, one_of}

-- The first code points of the blocks of decimal digits, which `\d` matches.
abbrev pub digit_blocks : List ℕ
digit_blocks =
    48 ∷ 1632 ∷ 1776 ∷ 1984 ∷ 2406 ∷ 2534 ∷ 2662 ∷ 2790 ∷ 2918 ∷ 3046 ∷ 3174 ∷ 3302 ∷ 3430 ∷ 3558
    ∷ 3664 ∷ 3792 ∷ 3872 ∷ 4160 ∷ 4240 ∷ 6112 ∷ 6160 ∷ 6470 ∷ 6608 ∷ 6784 ∷ 6800 ∷ 6992 ∷ 7088
    ∷ 7232 ∷ 7248 ∷ 42528 ∷ 43216 ∷ 43264 ∷ 43472 ∷ 43504 ∷ 43600 ∷ 44016 ∷ 65296 ∷ 66720 ∷ 68912
    ∷ 69734 ∷ 69872 ∷ 69942 ∷ 70096 ∷ 70384 ∷ 70736 ∷ 70864 ∷ 71248 ∷ 71360 ∷ 71472 ∷ 71904 ∷ 72016
    ∷ 72784 ∷ 73040 ∷ 73120 ∷ 73552 ∷ 92768 ∷ 92864 ∷ 93008 ∷ 120782 ∷ 120792 ∷ 120802 ∷ 120812
    ∷ 120822 ∷ 123200 ∷ 123632 ∷ 124144 ∷ 125264 ∷ 130032 ∷ []

in_blocks : ℕ → List ℕ → Bool
in_blocks c [] = false
in_blocks c (d ∷ ds) = leb d c && leb c (d + 9) || in_blocks c ds

unfoldable pub is_digit : ℕ → Bool
unfolding in_blocks
is_digit c = in_blocks c digit_blocks

-- `re.sub(r"\D", "", value)`
unfoldable pub digits_of : Text → Text
digits_of [] = []
digits_of (c ∷ s) = let rest = digits_of s in if is_digit c then c ∷ rest else rest

-- `digits.removeprefix("00")`
unfoldable pub drop_00 : Text → Text
drop_00 (a ∷ b ∷ s) = if a == b'0' && b == b'0' then s else a ∷ b ∷ s
drop_00 s = s

-- the national prefix 8 of an eleven digit number
unfoldable pub to_country_code : Text → Text
to_country_code [] = []
to_country_code (c ∷ s) = if length s == 10 && c == b'8' then b'7' ∷ s else c ∷ s

unfoldable pub all_zero : Text → Bool
all_zero [] = true
all_zero (c ∷ s) = c == b'0' && all_zero s

unfoldable pub phone_digits : Text → Text
unfolding digits_of drop_00 to_country_code
phone_digits value = to_country_code (drop_00 (digits_of value))

unfoldable pub is_phone : Text → Bool
unfolding all_zero
is_phone digits = not (ltb (length digits) 7 || ltb 15 (length digits) || all_zero digits)

unfoldable pub normalize_phone : Text → Option Text
normalize_phone value =
    let digits = phone_digits value in if is_phone digits then some digits else none

-- `raw.rsplit("@", 1)`, for a text that has the character
unfoldable pub rsplit_at : ℕ → Text → Option (Text × Text)
rsplit_at c [] = none
rsplit_at c (d ∷ s) = elim (rsplit_at c s) [
  | some (a, b) ↦ some (d ∷ a, b)
  | none ↦ if c == d then some ([], s) else none
]

-- `local.split(":", 1)[0]`
unfoldable pub before_char : ℕ → Text → Text
before_char c [] = []
before_char c (d ∷ s) = let rest = before_char c s in if c == d then [] else d ∷ rest

abbrev pub user_server : Text
user_server = text "s.whatsapp.net"

abbrev pub with_server : Text → Text → Text
with_server local server = local ++ b'@' ∷ server

abbrev pub user_jid : Option Text → Option Text
user_jid none = none
user_jid (some phone) = some (with_server phone user_server)

abbrev pub jid_of : Text → Option (Text × Text) → Option Text
jid_of raw none = user_jid (normalize_phone raw)
jid_of raw (some (local, server)) =
    if same server user_server
    then user_jid (normalize_phone (before_char b':' local))
    else if is_empty local || is_empty server
    then none
    else some (with_server local server)

unfoldable pub normalize_whatsapp_jid : Text → Option Text
normalize_whatsapp_jid value =
    let raw = lower (strip value) in if is_empty raw then none else jid_of raw (rsplit_at b'@' raw)

unfoldable pub starts_with : Text → Text → Bool
starts_with [] s = true
starts_with (c ∷ p) [] = false
starts_with (c ∷ p) (d ∷ s) = c == d && starts_with p s

unfoldable pub ends_with : Text → Text → Bool
ends_with p [] = is_empty p
ends_with p (d ∷ s) = same p (d ∷ s) || ends_with p s

abbrev pub technical_jids : List Text
technical_jids =
    text "0@s.whatsapp.net" ∷ text "status@broadcast" ∷ text "status@s.whatsapp.net" ∷ []

unfoldable pub is_technical_whatsapp_jid : Text → Bool
is_technical_whatsapp_jid value = elim (normalize_whatsapp_jid value) [
  | none ↦ true
  | some jid ↦
      one_of jid technical_jids
      || ends_with (text "@newsletter") jid
      || ends_with (text "@broadcast") jid
      || starts_with (text "0@") jid
]
