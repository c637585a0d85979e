-- ===== src/Core/RateLimit/Window.antt =====
-- One caller's requests inside one window.
use Prim.Native.Nat.{min}
use prompt_studio_backend.Prelude.{
  ℕ, suc, ◌+◌, ◌-◌, ◌≤◌, ◌<◌, min, String, ◌≡◌, refl, ap, ◌∙◌, ◌⊎◌, inl, inr, true, false, Option,
  some, List, [], ◌∷◌, arith, ltb, if◌then◌else◌, ◌==◌, nat_eq, Bool-cases, length, All,
}
use prompt_studio_backend.Core.Errors.{rate_limit_error}
use prompt_studio_backend.Core.RateLimit.{
  pos, Quota, CounterStore, RateSettings, rate_key, verdict, counted, consume,
}
use prompt_studio_backend.Store.Action.{Result, ok, err}

-- What redis documents of the counter under one key, in terms of its value and of the moment at which
-- it expires; and that the server answers.
pub record IsCounterFor (store : CounterStore) (key : String) : Type 0 where
  pub value : store.State → ℕ
  pub deadline : store.State → Option ℕ
  pub connected : (s : store.State) → store.is_connected s ≡ true
  -- INCR of a counter that has not expired
  pub incr_live :
      (now d : ℕ) (s : store.State)
      → deadline s ≡ some d
      → now < d
      → (s' : store.State) × (store.incr key now s ≡ some (suc (value s), s'))
        × (value s' ≡ suc (value s))
        × (deadline s' ≡ some d)
  -- INCR of a counter that is missing or has expired
  pub incr_new :
      (now : ℕ) (s : store.State)
      → (value s ≡ 0) ⊎ ((d : ℕ) × (deadline s ≡ some d) × (d ≤ now))
      → (s' : store.State) × (store.incr key now s ≡ some (1, s')) × (value s' ≡ 1)
  pub expire_sets :
      (seconds now : ℕ) (s : store.State)
      → (s' : store.State) × (store.expire key (pos seconds) now s ≡ some s')
        × (value s' ≡ value s)
        × (deadline s' ≡ some (now + seconds))

abbrev tally : Result (Unit {0}) → ℕ
tally (ok x) = 1
tally (err e) = 0

module _ (store : CounterStore) (settings : RateSettings) (q : Quota) (identity : String) where
  -- How many of the requests at these moments are let through.
  unfoldable pub allowed : List ℕ → store.State → ℕ
  allowed [] s = 0
  allowed (now ∷ later) s =
      let (r, s') = consume store settings q identity now s in tally r + allowed later s'

  module _ {n : ℕ} (counter : IsCounterFor store (rate_key settings q identity))
      (enabled : settings.rate_limit_enabled ≡ true) (bound : q.limit ≡ pos n) where
    abbrev answer : ℕ → Result (Unit {0})
    answer used = if ltb n used then err (rate_limit_error q.message) else ok tt

    verdict-answer : (used : ℕ) (s : store.State) → verdict store q used s ≡ (answer used, s)
    verdict-answer used s = rw bound refl

    tally-answer :
        (v more : ℕ) → tally (answer (suc v)) + min (n - suc v) more ≡ min (n - v) (suc more)
    tally-answer v more = elim (Bool-cases (ltb n (suc v))) [
      | inl e ↦ rw e (ground arith)
      | inr e ↦ rw e (ground arith)
    ]

    consume_live :
        (d v t : ℕ) (s : store.State)
        → counter.deadline s ≡ some d
        → counter.value s ≡ suc v
        → t < d
        → (s' : store.State) × (consume store settings q identity t s ≡ (answer (suc (suc v)), s'))
          × (counter.value s' ≡ suc (suc v))
          × (counter.deadline s' ≡ some d)
    unfolding consume counted
    consume_live d v t s ends has soon =
        let (s', counts, has', ends') = counter.incr_live t d s ends soon in
        let more : (suc (counter.value s) == 1) ≡ false = rw has (ground arith) in
        (
          s',
          rw (enabled, counter.connected s, counts, more)
              (ap (λ u. verdict store q (suc u) s') has ∙ verdict-answer (suc (suc v)) s'),
          has' ∙ ap suc has,
          ends',
        )

    -- In a window that has begun, what is left of the limit.
    allowed_live :
        (d v : ℕ) (times : List ℕ) (s : store.State)
        → counter.deadline s ≡ some d
        → counter.value s ≡ suc v
        → All (λ t. t < d) times
        → allowed times s ≡ min (n - suc v) (length times)
    unfolding allowed
    allowed_live d v [] s ends has early = ground arith
    allowed_live d v (t ∷ times) s ends has (soon, early) =
        let (s', answered, has', ends') = consume_live d v t s ends has soon in
        rw (answered, allowed_live d (suc v) times s' ends' has' early)
          (tally-answer (suc v) (length times))

    -- From the first request of a caller to the end of the window that it begins, exactly as many
    -- requests are let through as the limit says, or as were made if those are fewer; the limiter is
    -- switched on, the quota is not negative, and the server keeps the counter as redis documents.
    pub window_lets_limit_through :
        (w first : ℕ) (times : List ℕ) (s : store.State)
        → q.window ≡ pos w
        → (counter.value s ≡ 0) ⊎ ((d : ℕ) × (counter.deadline s ≡ some d) × (d ≤ first))
        → All (λ t. t < first + w) times
        → allowed (first ∷ times) s ≡ min n (suc (length times))
    unfolding allowed consume counted
    window_lets_limit_through w first times s lasts fresh early =
        let (s', counts, has) = counter.incr_new first s fresh in
        let (s'', set, has', ends) = counter.expire_sets w first s' in
        rw
          (
            enabled,
            counter.connected s,
            counts,
            lasts,
            set,
            bound,
            allowed_live (first + w) 0 times s'' ends (has' ∙ has) early,
          )
          (tally-answer 0 (length times) ∙ ap (λ m. min m (suc (length times))) (omega arith))
