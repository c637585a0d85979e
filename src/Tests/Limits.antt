-- ===== src/Tests/Limits.antt =====
-- A quota that is read and spent, on a server that keeps one counter.
use prompt_studio_backend.Prelude.{
  ℕ, suc, ◌+◌, ◌≤◌, ◌<◌, String, ◌≡◌, refl, ◌⊎◌, inl, inr, true, false, Option, none, some, [], ◌∷◌,
  arith, leb, if◌then◌else◌, Bool-cases, some-injective,
}
use prompt_studio_backend.Core.Errors.{rate_limit_error}
use prompt_studio_backend.Core.RateLimit.{
  ℤ, Quota, quota, CounterStore, RateSettings, counted, consume, pos, negsuc,
}
use prompt_studio_backend.Core.RateLimit.Parse.{quota_reads_back}
use prompt_studio_backend.Core.RateLimit.Window.{IsCounterFor, allowed, window_lets_limit_through}
use prompt_studio_backend.Core.Text.{format, show}
use prompt_studio_backend.Store.Action.{err}

abbrev Counter : Type 0
Counter = ℕ × Option ℕ

abbrev incremented : ℕ → Counter → ℕ × Counter
incremented now (used, none) = (suc used, (suc used, none))
incremented now (used, some d) =
    if leb d now then (1, (1, none)) else (suc used, (suc used, some d))

abbrev expiring : ℤ → ℕ → Counter → Counter
expiring (pos seconds) now (used, d) = (used, some (now + seconds))
expiring (negsuc n) now (used, d) = (0, none)

abbrev one_counter : CounterStore
one_counter = record {
  State = Counter;
  is_connected = λ s. true;
  incr = λ key now s. some (incremented now s);
  expire = λ key seconds now s. some (expiring seconds now s);
}

incremented_live :
    (now d : ℕ) (s : Counter)
    → s.1 ≡ some d
    → now < d
    → (s' : Counter) × (some (incremented now s) ≡ some (suc s.0, s'))
      × (s'.0 ≡ suc s.0)
      × (s'.1 ≡ some d)
incremented_live now d (used, none) e h = cc
incremented_live now d (used, some d') e h =
    let same : d' ≡ d = some-injective e in
    let live : leb d' now ≡ false = rw same (ground arith) in
    rw live ((suc used, some d'), refl, refl, e)

incremented_new :
    (now : ℕ) (s : Counter)
    → (s.0 ≡ 0) ⊎ ((d : ℕ) × (s.1 ≡ some d) × (d ≤ now))
    → (s' : Counter) × (some (incremented now s) ≡ some (1, s')) × (s'.0 ≡ 1)
incremented_new now (used, none) (inl e) = rw e ((1, none), refl, refl)
incremented_new now (used, none) (inr (d, e, h)) = cc
incremented_new now (used, some d) (inl e) = elim (Bool-cases (leb d now)) [
  | inl k ↦ rw k ((1, none), refl, refl)
  | inr k ↦ rw (k, e) ((1, some d), refl, refl)
]
incremented_new now (used, some d) (inr (d', e, h)) =
    let gone : leb d now ≡ true = rw (some-injective e) (ground arith) in
    rw gone ((1, none), refl, refl)

abbrev one_counter_laws : (key : String) → IsCounterFor one_counter key
one_counter_laws key = record {
  value = λ s. s.0;
  deadline = λ s. s.1;
  connected = λ s. refl;
  incr_live = incremented_live;
  incr_new = incremented_new;
  expire_sets = λ seconds now s. (expiring (pos seconds) now s, refl, refl, refl);
}

abbrev some_settings : RateSettings
some_settings = record { rate_limit_enabled = true; environment = "test" }

abbrev two_a_minute : Quota
two_a_minute = record { name = "login"; limit = pos 2; window = pos 60; message = "Wait" }

window_lets_limit_through_example :
    allowed one_counter some_settings two_a_minute "10.0.0.1" (100 ∷ 110 ∷ 120 ∷ 159 ∷ []) (0, none)
    ≡ 2
window_lets_limit_through_example =
    window_lets_limit_through one_counter some_settings two_a_minute "10.0.0.1" (one_counter_laws _)
      refl refl 60 100 (110 ∷ 120 ∷ 159 ∷ []) (0, none) refl (inl refl)
      (omega arith, (omega arith, (omega arith, tt)))

quota_reads_back_example :
    quota "login" (format (show 20 ∷ "/" ∷ show 300 ∷ [])) "Wait"
    ≡ some (record { name = "login"; limit = pos 20; window = pos 300; message = "Wait" })
quota_reads_back_example = quota_reads_back "login" "Wait" 20 300

-- A server that counts, but does not take the end of the window.
abbrev unending : CounterStore
unending = record {
  State = Counter;
  is_connected = λ s. true;
  incr = λ key now s. some (incremented now s);
  expire = λ key seconds now s. none;
}

-- Two requests that go through, in a window that never ends.
abbrev spent : Counter
spent =
    (consume unending some_settings two_a_minute "10.0.0.1" 110
      (consume unending some_settings two_a_minute "10.0.0.1" 100 (0, none)).1).1

-- The third is refused, however much later it comes.
unended_window_refuses :
    (now : ℕ)
    → (consume unending some_settings two_a_minute "10.0.0.1" now spent).0
      ≡ err (rate_limit_error "Wait")
unfolding consume counted
unended_window_refuses now = refl
