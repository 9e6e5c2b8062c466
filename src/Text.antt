-- ===== src/Text.antt =====
-- Python's `str` as the list of its code points, with the methods that the program calls:
-- `==`, `strip`, `lower`, `split` and `join`, slices. `lower` is exact on ASCII, Latin-1 and
-- Cyrillic letters and on the Kelvin sign; letters of other scripts are left as they are.
pub mod Laws
pub mod Lengths
use Prim.Native.Char.{code}
use Prim.Native.String.{String}
use ollum_sales.Prelude.{
  ℕ, ◌+◌, Bool, true, false, ◌&&◌, ◌||◌, List, [], ◌∷◌, ◌++◌, map, Option, none, some, leb, ltb,
  ◌==◌, if◌then◌else◌,
}

abbrev pub Text : Type 0
Text = List ℕ

-- A literal of the source.
abbrev pub text : String → Text
text String.[] = []
text (String.◌∷◌ c s) = code c ∷ text s

unfoldable pub same : Text → Text → Bool
same [] [] = true
same (c ∷ s) (d ∷ t) = c == d && same s t
same _ _ = false

abbrev between : ℕ → ℕ → ℕ → Bool
between lo hi c = leb lo c && leb c hi

-- The characters that `str.strip` and `str.split` take for white space.
unfoldable pub is_space : ℕ → Bool
is_space c =
    between 9 13 c
    || between 28 32 c
    || c == 133
    || c == 160
    || c == 5760
    || between 8192 8202 c
    || between 8232 8233 c
    || c == 8239
    || c == 8287
    || c == 12288

unfoldable pub lower_char : ℕ → ℕ
lower_char c =
    if between 65 90 c
    then c + 32
    else if between 192 214 c || between 216 222 c
    then c + 32
    else if between 1040 1071 c
    then c + 32
    else if between 1024 1039 c
    then c + 80
    else if c == 8490
    then 107
    else c

unfoldable pub lower : Text → Text
lower = map lower_char

unfoldable pub lstrip : Text → Text
lstrip [] = []
lstrip (c ∷ s) = let rest = lstrip s in if is_space c then rest else c ∷ s

-- One more character in front of a text that is stripped at its end.
unfoldable pub cons_stripped : ℕ → Text → Text
cons_stripped c [] = if is_space c then [] else c ∷ []
cons_stripped c (d ∷ s) = c ∷ d ∷ s

unfoldable pub rstrip : Text → Text
rstrip [] = []
rstrip (c ∷ s) = cons_stripped c (rstrip s)

unfoldable pub strip : Text → Text
strip s = rstrip (lstrip s)

flush : Text → List Text → List Text
flush [] ws = ws
flush (c ∷ w) ws = (c ∷ w) ∷ ws

-- `s.split()`; `word` is the word that is being read.
unfoldable pub split_from : Text → Text → List Text
unfolding flush
split_from word [] = flush word []
split_from word (c ∷ s) = elim (is_space c) [
  | true ↦ flush word (split_from [] s)
  | false ↦ split_from (word ++ c ∷ []) s
]

unfoldable pub join_spaces : List Text → Text
join_spaces [] = []
join_spaces (w ∷ []) = w
join_spaces (w ∷ v ∷ ws) = w ++ 32 ∷ join_spaces (v ∷ ws)

-- `" ".join(s.split())`
unfoldable pub collapse : Text → Text
unfolding split_from join_spaces
collapse s = join_spaces (split_from [] s)

-- `if s`, for a text.
abbrev pub is_empty : Text → Bool
is_empty [] = true
is_empty (c ∷ s) = false

-- `s or None`
abbrev pub or_none : Text → Option Text
or_none [] = none
or_none (c ∷ s) = some (c ∷ s)

-- `if s` for `s : str | None`
abbrev pub given : Option Text → Bool
given none = false
given (some []) = false
given (some (c ∷ s)) = true

-- `s or ""`
abbrev pub or_empty : Option Text → Text
or_empty none = []
or_empty (some s) = s

-- `c in "…"`
unfoldable pub has_char : ℕ → Text → Bool
has_char c [] = false
has_char c (d ∷ s) = c == d || has_char c s

-- `s in {…}` and `s in [...]`
unfoldable pub one_of : Text → List Text → Bool
one_of s [] = false
one_of s (t ∷ ts) = same s t || one_of s ts

-- `s < t`, by code points
unfoldable pub before : Text → Text → Bool
before s [] = false
before [] (d ∷ t) = true
before (c ∷ s) (d ∷ t) = ltb c d || c == d && before s t
