-- ===== src/Core/RateLimit.antt =====
-- app/core/rate_limit.py: quotas and how they are written, who is counted, and the counting.
pub mod Parse
pub mod Window
use Prim.Native.Char.{Char, code}
use mathlib.Core.Option
use prompt_studio_backend.Prelude.{
  ℕ, zero, suc, ◌+◌, ◌-◌, ◌*◌, String, Bool, true, false, not, ◌&&◌, Option, none, some, List, [],
  ◌∷◌, map, ltb, leb, if◌then◌else◌, ◌==◌, nat_eq, string_eq, or_else,
}
use prompt_studio_backend.Core.Errors.{rate_limit_error}
use prompt_studio_backend.Core.Text.{strip, format, digit_zeros}
use prompt_studio_backend.Store.Action.{Result, ok, err}

-- Python's integers.
pub data ℤ : Type 0 where
  pos : ℕ → ℤ
  negsuc : ℕ → ℤ

abbrev pub negate : ℕ → ℤ
negate zero = pos 0
negate (suc n) = negsuc n

-- `Quota`: so many requests in so many seconds.
pub record Quota : Type 0 where
  pub name : String
  pub limit : ℤ
  pub window : ℤ
  pub message : String

-- The value of a decimal digit of any script.
unfoldable pub digit_value : List ℕ → ℕ → Option ℕ
digit_value [] k = none
digit_value (zero_at ∷ zeros) k =
    let other = digit_value zeros k in
    if leb zero_at k && ltb k (zero_at + 10) then some (k - zero_at) else other

-- `int(text)`: digits, with single underscores between them, after a sign.
unfoldable pub read_digits : Bool → ℕ → String → Option ℕ
read_digits after_digit n String.[] = if after_digit then some n else none
read_digits after_digit n (String.◌∷◌ c s) =
    let skipped = read_digits false n s in
    if after_digit && code c == b'_' then skipped else elim (digit_value digit_zeros (code c)) [
      | none ↦ none
      | some d ↦ read_digits true (n * 10 + d) s
    ]

unfoldable pub read_signed : String → Option ℤ
read_signed String.[] = none
read_signed (String.◌∷◌ c s) =
    if code c == b'-'
    then Option.map negate (read_digits false 0 s)
    else if code c == b'+'
    then Option.map pos (read_digits false 0 s)
    else Option.map pos (read_digits false 0 (String.◌∷◌ c s))

unfoldable pub read_int : String → Option ℤ
read_int s = read_signed (strip s)

-- `text.partition(separator)`: what is before the first separator, and what is after it.
unfoldable pub text_before : ℕ → String → String
text_before separator String.[] = String.[]
text_before separator (String.◌∷◌ c s) =
    let more = text_before separator s in
    if code c == separator then String.[] else String.◌∷◌ c more

unfoldable pub text_after : ℕ → String → String
text_after separator String.[] = String.[]
text_after separator (String.◌∷◌ c s) =
    let more = text_after separator s in if code c == separator then s else more

-- `int(window or 60)`
unfoldable pub read_window : String → Option ℤ
read_window String.[] = some (pos 60)
read_window (String.◌∷◌ c s) = read_int (String.◌∷◌ c s)

-- `_quota`; a text that `int` does not read raises.
unfoldable pub quota : String → String → String → Option Quota
quota name spec message = Option.bind (read_int (text_before b'/' spec)) λ requests.
    Option.map
      (λ window. record { name = name; limit = requests; window = window; message = message })
      (read_window (text_after b'/' spec))

-- The four quotas, by the settings that they are read from.
abbrev pub sign_in_quota : String → Option Quota
sign_in_quota spec =
    quota "login" spec "Too many sign-in attempts. Wait a few minutes and try again"

abbrev pub register_quota : String → Option Quota
register_quota spec = quota "register" spec "Too many accounts created from here. Try again later"

abbrev pub public_read_quota : String → Option Quota
public_read_quota spec = quota "public_read" spec "Too many requests. Wait a moment and try again"

abbrev pub reset_quota : String → Option Quota
reset_quota spec =
    quota "reset" spec "Too many reset requests. Check your inbox, or try again later"

-- `caller`: the first hop that a proxy named, or else the peer.
unfoldable pub caller : Option String → Option String → String
caller none client = or_else client "unknown"
caller (some forwarded) client =
    if forwarded == "" then or_else client "unknown" else strip (text_before b',' forwarded)

-- The shared counters, as the redis client serves them: `none` is a command that raised. A command
-- is given the moment at which the server carries it out.
pub record CounterStore : Type 1 where
  pub State : Type 0
  pub is_connected : State → Bool
  pub incr : String → ℕ → State → Option (ℕ × State)
  pub expire : String → ℤ → ℕ → State → Option State

-- What `consume` reads of the settings.
pub record RateSettings : Type 0 where
  pub rate_limit_enabled : Bool
  pub environment : String

abbrev pub rate_key : RateSettings → Quota → String → String
rate_key settings q identity =
    format ("prompt-studio:rate:" ∷ settings.environment ∷ ":" ∷ q.name ∷ ":" ∷ identity ∷ [])

abbrev pub exceeds : ℕ → ℤ → Bool
exceeds used (pos limit) = ltb limit used
exceeds used (negsuc n) = true

module _ (store : CounterStore) where
  -- The verdict on a request, by the count that it came to.
  abbrev pub verdict : Quota → ℕ → store.State → Result (Unit {0}) × store.State
  verdict q used s = (if exceeds used q.limit then err (rate_limit_error q.message) else ok tt, s)

  -- The first request of a window sets its end; one that the store fails to end is let through.
  abbrev pub ended_window :
      Quota → ℕ → store.State → Option store.State → Result (Unit {0}) × store.State
  ended_window q used s none = (ok tt, s)
  ended_window q used s (some s') = verdict q used s'

  unfoldable pub counted :
      Quota → String → ℕ → store.State → Option (ℕ × store.State) → Result (Unit {0}) × store.State
  counted q key now s none = (ok tt, s)
  counted q key now s (some (used, s')) =
      if used == 1
      then ended_window q used s' (store.expire key q.window now s')
      else verdict q used s'

  unfoldable pub consume :
      RateSettings → Quota → String → ℕ → store.State → Result (Unit {0}) × store.State
  consume settings q identity now s =
      if not settings.rate_limit_enabled
      then (ok tt, s)
      else if not (store.is_connected s)
      then (ok tt, s)
      else counted q (rate_key settings q identity) now s
          (store.incr (rate_key settings q identity) now s)
