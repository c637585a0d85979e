-- ===== src/Core/RateLimit/Parse.antt =====
-- Reading the text of a quota, character by character (`_quota` of app/core/rate_limit.py).
use Prim.Native.Char.{Char, code}
use Prim.Native.String.{◌++◌ as text_append}
use Prim.Native.String.append
use mathlib.Core.Option
use prompt_studio_backend.Prelude.{
  ℕ, zero, suc, ◌+◌, ◌-◌, ◌*◌, ◌/◌, ◌%◌, ◌<◌, String, ◌≡◌, refl, ap, ◌∙◌, inl, inr, Bool, true,
  false, ◌&&◌, some, List, [], ◌∷◌, arith, ltb, leb, ◌==◌, nat_eq, Bool-cases, and_false,
}
use prompt_studio_backend.Core.RateLimit.{
  pos, digit_value, read_digits, read_signed, read_int, text_before, text_after, read_window, quota,
}
use prompt_studio_backend.Core.Text.{
  is_space, lstrip, rstrip, strip, letter_at, format, show_onto, show, digit_zeros,
}

abbrev IsDigitOf : ℕ → Char → Type 0
IsDigitOf d c = (d < 10) × (code c ≡ 48 + d)

abbrev AllDigits : String → Type 0
AllDigits String.[] = Unit {0}
AllDigits (String.◌∷◌ c s) = ((d : ℕ) × IsDigitOf d c) × AllDigits s

letter_at-IsDigitOf : (d : ℕ) → d < 10 → IsDigitOf d (letter_at "0123456789" d "0")
unfolding letter_at
letter_at-IsDigitOf zero h = (h, refl)
letter_at-IsDigitOf (suc zero) h = (h, refl)
letter_at-IsDigitOf (suc (suc zero)) h = (h, refl)
letter_at-IsDigitOf (suc (suc (suc zero))) h = (h, refl)
letter_at-IsDigitOf (suc (suc (suc (suc zero)))) h = (h, refl)
letter_at-IsDigitOf (suc (suc (suc (suc (suc zero))))) h = (h, refl)
letter_at-IsDigitOf (suc (suc (suc (suc (suc (suc zero)))))) h = (h, refl)
letter_at-IsDigitOf (suc (suc (suc (suc (suc (suc (suc zero))))))) h = (h, refl)
letter_at-IsDigitOf (suc (suc (suc (suc (suc (suc (suc (suc zero)))))))) h = (h, refl)
letter_at-IsDigitOf (suc (suc (suc (suc (suc (suc (suc (suc (suc zero))))))))) h = (h, refl)
letter_at-IsDigitOf (suc (suc (suc (suc (suc (suc (suc (suc (suc (suc n)))))))))) h =
    absurd (omega arith)

-- What the printer puts before the rest is digits.
show_onto-AllDigits :
    (fuel n : ℕ) (tail : String) → AllDigits tail → AllDigits (show_onto fuel n tail)
unfolding show_onto
show_onto-AllDigits zero n tail h = h
show_onto-AllDigits (suc fuel) n tail h =
    let digit : (d : ℕ) × IsDigitOf d (letter_at "0123456789" (n % 10) "0") =
      (n % 10, letter_at-IsDigitOf (n % 10) (omega arith)) in
    elim (Bool-cases (ltb n 10)) [
      | inl e ↦ rw e (digit, h)
      | inr e ↦ rw e (show_onto-AllDigits fuel (n / 10) _ (digit, h))
    ]

show-AllDigits : (n : ℕ) → AllDigits (show n)
unfolding show
show-AllDigits n = show_onto-AllDigits (suc n) n "" tt

digit_value-first :
    (z k : ℕ) (zs : List ℕ)
    → (leb z k && ltb k (z + 10)) ≡ true
    → digit_value (z ∷ zs) k ≡ some (k - z)
unfolding digit_value
digit_value-first z k zs e = rw e refl

digit_value-IsDigitOf :
    (d : ℕ) (c : Char) → IsDigitOf d c → digit_value digit_zeros (code c) ≡ some d
digit_value-IsDigitOf d c (small, e) =
    digit_value-first 48 (code c) _ (rw e (ground arith)) ∙ ap some (rw e (omega arith))

is_space-IsDigitOf : (d : ℕ) (c : Char) → IsDigitOf d c → is_space c ≡ false
unfolding is_space
is_space-IsDigitOf d c (small, e) = rw e (ground arith)

-- Reading one digit.
read_digits-step :
    (after_digit : Bool) (k d : ℕ) (c : Char) (s : String)
    → IsDigitOf d c
    → read_digits after_digit k (String.◌∷◌ c s) ≡ read_digits true (k * 10 + d) s
unfolding read_digits
read_digits-step after_digit k d c s h =
    let plain : (after_digit && code c == b'_') ≡ false =
      ap (λ b. after_digit && b) (rw h.1 (ground (arith, h.0))) ∙ and_false after_digit in
    rw (plain, digit_value-IsDigitOf d c h) refl

-- Reading on after the printed digits.
read_digits-show_onto :
    (fuel n : ℕ) (tail : String)
    → n < fuel
    → (m : ℕ) × ((after_digit : Bool) (k : ℕ)
        → read_digits after_digit k (show_onto fuel n tail) ≡ read_digits true (k * m + n) tail)
unfolding show_onto
read_digits-show_onto zero n tail h = absurd (omega arith)
read_digits-show_onto (suc fuel) n tail h = elim (Bool-cases (ltb n 10)) [
  | inl e ↦ (
    10,
    λ after_digit k.
        rw
          (
            e,
            read_digits-step after_digit k (n % 10) _ tail
                (letter_at-IsDigitOf (n % 10) (omega arith)),
          )
          (ap (λ i. read_digits true i tail) (ground arith)),
  )
  | inr e ↦
      let digit = letter_at "0123456789" (n % 10) "0" in
      let (m, rest) = read_digits-show_onto fuel (n / 10) (String.◌∷◌ digit tail) (ground arith) in
      (
        m * 10,
        λ after_digit k.
            rw
              (
                e,
                rest after_digit k,
                read_digits-step true (k * m + n / 10) (n % 10) digit tail
                    (letter_at-IsDigitOf (n % 10) (omega arith)),
              )
              (ap (λ i. read_digits true i tail) (grind arith)),
      )
]

read_digits-show : (n : ℕ) → read_digits false 0 (show n) ≡ some n
unfolding show read_digits
read_digits-show n =
    let (m, read) = read_digits-show_onto (suc n) n "" (omega arith) in
    read false 0 ∙ ap some (ground arith)

lstrip-AllDigits : (s : String) → AllDigits s → lstrip s ≡ s
unfolding lstrip
lstrip-AllDigits String.[] h = refl
lstrip-AllDigits (String.◌∷◌ c s) ((d, h), rest) = rw (is_space-IsDigitOf d c h) refl

rstrip-AllDigits : (s : String) → AllDigits s → rstrip s ≡ s
unfolding rstrip
rstrip-AllDigits String.[] h = refl
rstrip-AllDigits (String.◌∷◌ c String.[]) ((d, h), rest) = rw (is_space-IsDigitOf d c h) refl
rstrip-AllDigits (String.◌∷◌ c (String.◌∷◌ c' s)) (h, rest) =
    rw (rstrip-AllDigits (String.◌∷◌ c' s) rest) refl

read_signed-AllDigits :
    (s : String) → AllDigits s → read_signed s ≡ Option.map pos (read_digits false 0 s)
unfolding read_signed read_digits
read_signed-AllDigits String.[] h = refl
read_signed-AllDigits (String.◌∷◌ c s) ((d, h), rest) =
    let minus : (code c == b'-') ≡ false = rw h.1 (ground (arith, h.0)) in
    let plus : (code c == b'+') ≡ false = rw h.1 (ground (arith, h.0)) in rw (minus, plus) refl

-- What `str` prints, `int` reads back.
pub read_int-show : (n : ℕ) → read_int (show n) ≡ some (pos n)
unfolding read_int strip
read_int-show n =
    let digits = show-AllDigits n in
    rw
      (
        lstrip-AllDigits (show n) digits,
        rstrip-AllDigits (show n) digits,
        read_signed-AllDigits (show n) digits,
        read_digits-show n,
      )
      refl

text_before-AllDigits :
    (s tail : String)
    → AllDigits s
    → (text_before b'/' (text_append s (text_append "/" tail)) ≡ s)
      × (text_after b'/' (text_append s (text_append "/" tail)) ≡ tail)
unfolding text_before text_after
text_before-AllDigits String.[] tail h = rw (append.nil, append.cons) (refl, append.nil tail)
text_before-AllDigits (String.◌∷◌ c s) tail ((d, h), rest) =
    let (before, after) = text_before-AllDigits s tail rest in
    let other : (code c == b'/') ≡ false = rw h.1 (ground (arith, h.0)) in
    rw (append.cons, other, before, after) (refl, refl)

text_append-nil : (s : String) → text_append s "" ≡ s
text_append-nil String.[] = append.nil ""
text_append-nil (String.◌∷◌ c s) = append.cons c s "" ∙ ap (String.◌∷◌ c) (text_append-nil s)

-- A printed number is not empty.
read_window-show : (n : ℕ) → read_window (show n) ≡ some (pos n)
unfolding read_window read_int read_signed strip lstrip rstrip
read_window-show n = by_text (show n) (read_int-show n)
  where
    by_text : (s : String) → read_int s ≡ some (pos n) → read_window s ≡ some (pos n)
    by_text String.[] e = absurd cc
    by_text (String.◌∷◌ c s) e = e

-- A setting that is written as requests, a slash and seconds, both in decimal, is read back as the
-- quota of so many requests in so many seconds, whatever its name and its message.
pub quota_reads_back :
    (name message : String) (requests seconds : ℕ)
    → quota name (format (show requests ∷ "/" ∷ show seconds ∷ [])) message
      ≡ some (record { name = name; limit = pos requests; window = pos seconds; message = message })
unfolding quota Option.bind
quota_reads_back name message requests seconds =
    let (before, after) =
      text_before-AllDigits (show requests) (text_append (show seconds) "")
        (show-AllDigits requests) in
    rw
      (
        before,
        after,
        text_append-nil (show seconds),
        read_int-show requests,
        read_window-show seconds,
      )
      refl
