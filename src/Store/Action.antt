-- ===== src/Store/Action.antt =====
-- A service call: it reads and writes the world, and returns or raises an `AppError`. What was
-- written before the raise stays written in the session, and is lost when the request rolls back.
use mathlib.Core.Path.{subst}
use prompt_studio_backend.Prelude.{
  ℕ, ◌+◌, ◌≡◌, refl, sym, Bool, true, false, Option, none, some, [], ◌∷◌, ◌++◌, arith,
  if◌then◌else◌,
}
use prompt_studio_backend.Core.Errors.{AppError}
use prompt_studio_backend.Store.{Mail, World}

pub data Result {ℓ} (A : Type ℓ) : Type ℓ where
  ok : A → Result A
  err : AppError → Result A

abbrev pub Action : Type 0 → Type 0
Action A = World → Result A × World

module _ {A : Type 0} where
  abbrev pub pure : A → Action A
  pure a w = (ok a, w)

  abbrev pub raise : AppError → Action A
  raise e w = (err e, w)

  abbrev pub gets : (World → A) → Action A
  gets f w = (ok (f w), w)

  -- A row that must be there.
  abbrev pub or_raise : Option A → AppError → Action A
  or_raise none e = raise e
  or_raise (some a) e = pure a

module _ {A B : Type 0} where
  abbrev pub continue : Result A × World → (A → Action B) → Result B × World
  continue (ok a, w) f = f a w
  continue (err e, w) f = (err e, w)

  infixl 5 ◌>>=◌ ◌>>◌
  abbrev pub ◌>>=◌ : Action A → (A → Action B) → Action B
  ◌>>=◌ m f w = continue (m w) f

  abbrev pub ◌>>◌ : Action A → Action B → Action B
  ◌>>◌ m k w = continue (m w) (λ _. k)

module _ {A B : Type 0} where
  continue-ok :
      (r : Result A × World) (f : A → Action B) {a : A} → r.0 ≡ ok a → continue r f ≡ f a r.1
  continue-ok (ok b, w) f e = ground arith
  continue-ok (err x, w) f e = cc

  -- After an action that does not raise, the rest runs in the world that it left.
  pub bind-ok :
      (m : Action A) (f : A → Action B) {a : A} (w : World)
      → (m w).0 ≡ ok a
      → (m >>= f) w ≡ f a (m w).1
  bind-ok m f w e = continue-ok (m w) f e

  pub then-ok :
      (m : Action A) (k : Action B) {a : A} (w : World) → (m w).0 ≡ ok a → (m >> k) w ≡ k (m w).1
  then-ok m k w e = continue-ok (m w) (λ _. k) e

  -- A predicate on what is left of a chain, once its first action is known.
  pub bind-from {ℓ} :
      (P : Result B × World → Type ℓ) (m : Action A) (f : A → Action B) (w : World)
      {r : Result A × World}
      → m w ≡ r
      → P (continue r f)
      → P ((m >>= f) w)
  bind-from P m f w e h = subst (λ s. P (continue s f)) (sym e) h

  pub then-from {ℓ} :
      (P : Result B × World → Type ℓ) (m : Action A) (k : Action B) (w : World)
      {r : Result A × World}
      → m w ≡ r
      → P (continue r (λ _. k))
      → P ((m >> k) w)
  then-from P m k w e h = subst (λ s. P (continue s (λ _. k))) (sym e) h

abbrev pub modify : (World → World) → Action (Unit {0})
modify f w = (ok tt, f w)

abbrev pub raise_if : Bool → AppError → Action (Unit {0})
raise_if b e w = (if b then err e else ok tt, w)

abbrev pub when : Bool → Action (Unit {0}) → Action (Unit {0})
when true m w = m w
when false m w = (ok tt, w)

abbrev pub new_id : Action ℕ
new_id w = (ok w.next_id, record w { next_id = w.next_id + 1 })

-- `await db.commit()`, and the rollback of a session that is closed without it
abbrev pub commit : Action (Unit {0})
commit w = (ok tt, record w { committed = w.db })

abbrev pub rollback : World → World
rollback w = record w { db = w.committed }

-- One request over its own session (`get_db`): what it did not commit is dropped at the end.
abbrev pub request : {A : Type 0} → Action A → Action A
request m w = let (r, w') = m w in (r, rollback w')

-- `async with AsyncSessionLocal() as db`: a session of its own, which begins at what is committed.
abbrev pub own_session : {A : Type 0} → Action A → Action A
own_session m w = request m (rollback w)

-- `try: … except AppError: return None`
abbrev pub attempted : {A : Type 0} → Result A → Option A
attempted (ok a) = some a
attempted (err e) = none

abbrev pub attempt : {A : Type 0} → Action A → Action (Option A)
attempt m w = let (r, w') = m w in (ok (attempted r), w')

abbrev pub send_mail : Mail → Action (Unit {0})
send_mail m w = (ok tt, record w { outbox = w.outbox ++ m ∷ [] })

-- What a chain that begins with a check satisfies: its refusals do, and what is after the check.
module _ {A : Type 0} (P : Result A × World → Type 0) where
  pub raise_if-then :
      (b : Bool) (e : AppError) (k : Action A) (w : World)
      → P (err e, w)
      → (b ≡ false → P (k w))
      → P ((raise_if b e >> k) w)
  raise_if-then true e k w refused h = refused
  raise_if-then false e k w refused h = h refl

  pub or_raise-then :
      {B : Type 0} (found : Option B) (e : AppError) (k : B → Action A) (w : World)
      → P (err e, w)
      → ((b : B) → found ≡ some b → P (k b w))
      → P ((or_raise found e >>= k) w)
  or_raise-then none e k w refused h = refused
  or_raise-then (some b) e k w refused h = h b refl
