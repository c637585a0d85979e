-- ===== src/Core/Text.antt =====
-- Python's `str.strip` and `str.lower`, and the one definition of "the same address" built on them
-- (app/modules/users/service.py). `lower` maps the 26 ASCII letters and leaves other characters.
use Prim.Native.Char.{Char, code}
use Prim.Native.String.{◌++◌ as text_append}
use prompt_studio_backend.Prelude.{
  ℕ, zero, suc, ◌-◌, ◌/◌, ◌%◌, String, Bool, ◌&&◌, ◌||◌, List, [], ◌∷◌, ltb, leb, if◌then◌else◌,
  ◌==◌, nat_eq,
}

-- The characters that `str.strip` takes for white space.
unfoldable pub is_space : Char → Bool
is_space c =
    let k = code c in
    leb 9 k && leb k 13
    || leb 28 k && leb k 32
    || k == 133
    || k == 160
    || k == 5760
    || leb 8192 k && leb k 8202
    || k == 8232
    || k == 8233
    || k == 8239
    || k == 8287
    || k == 12288

unfoldable pub lstrip : String → String
lstrip String.[] = String.[]
lstrip (String.◌∷◌ c s) = let rest = lstrip s in if is_space c then rest else String.◌∷◌ c s

-- What is left of a text once its end is cut: a space before nothing goes too.
abbrev cons_rstrip : Char → String → String
cons_rstrip c String.[] = if is_space c then String.[] else String.◌∷◌ c String.[]
cons_rstrip c (String.◌∷◌ d s) = String.◌∷◌ c (String.◌∷◌ d s)

unfoldable pub rstrip : String → String
rstrip String.[] = String.[]
rstrip (String.◌∷◌ c s) = cons_rstrip c (rstrip s)

unfoldable pub strip : String → String
unfolding is_space lstrip rstrip
strip s = rstrip (lstrip s)

unfoldable pub letter_at : String → ℕ → Char → Char
letter_at String.[] n c = c
letter_at (String.◌∷◌ d s) zero c = d
letter_at (String.◌∷◌ d s) (suc n) c = letter_at s n c

lower_char : Char → Char
unfolding letter_at
lower_char c =
    let k = code c in
    if leb b'A' k && leb k b'Z' then letter_at "abcdefghijklmnopqrstuvwxyz" (k - 65) c else c

unfoldable pub lower : String → String
unfolding lower_char
lower String.[] = String.[]
lower (String.◌∷◌ c s) = String.◌∷◌ (lower_char c) (lower s)

-- Lower-cased and trimmed.
unfoldable pub normalise_email : String → String
unfolding strip lower
normalise_email email = lower (strip email)

-- An f-string: its pieces, one after the other.
abbrev pub format : List String → String
format [] = String.[]
format (s ∷ pieces) = text_append s (format pieces)

-- `str(n)`, with a digit for each round; a number has fewer digits than its successor's value.
unfoldable pub show_onto : ℕ → ℕ → String → String
show_onto zero n tail = tail
show_onto (suc digits) n tail =
    let digit = letter_at "0123456789" (n % 10) "0" in
    let more = show_onto digits (n / 10) (String.◌∷◌ digit tail) in
    if ltb n 10 then String.◌∷◌ digit tail else more

unfoldable pub show : ℕ → String
unfolding show_onto letter_at
show n = show_onto (suc n) n ""

-- The code points of the digit zero in each script, as of Unicode 15.1.
abbrev pub digit_zeros : List ℕ
digit_zeros =
    48 ∷ 1632 ∷ 1776 ∷ 1984 ∷ 2406 ∷ 2534 ∷ 2662 ∷ 2790 ∷ 2918 ∷ 3046 ∷ 3174 ∷ 3302 ∷ 3430 ∷ 3558
    ∷ 3664 ∷ 3792 ∷ 3872 ∷ 4160 ∷ 4240 ∷ 6112 ∷ 6160 ∷ 6470 ∷ 6608 ∷ 6784 ∷ 6800 ∷ 6992 ∷ 7088
    ∷ 7232 ∷ 7248 ∷ 42528 ∷ 43216 ∷ 43264 ∷ 43472 ∷ 43504 ∷ 43600 ∷ 44016 ∷ 65296 ∷ 66720 ∷ 68912
    ∷ 69734 ∷ 69872 ∷ 69942 ∷ 70096 ∷ 70384 ∷ 70736 ∷ 70864 ∷ 71248 ∷ 71360 ∷ 71472 ∷ 71904 ∷ 72016
    ∷ 72784 ∷ 73040 ∷ 73120 ∷ 73552 ∷ 92768 ∷ 92864 ∷ 93008 ∷ 120782 ∷ 120792 ∷ 120802 ∷ 120812
    ∷ 120822 ∷ 123200 ∷ 123632 ∷ 124144 ∷ 125264 ∷ 130032 ∷ []
