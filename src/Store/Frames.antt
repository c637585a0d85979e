-- ===== src/Store/Frames.antt =====
-- A chain of actions keeps what each of them keeps.
use prompt_studio_backend.Prelude.{Option, none, some}
use prompt_studio_backend.Core.Errors.{AppError}
use prompt_studio_backend.Store.{World}
use prompt_studio_backend.Store.Action.{Result, Action, or_raise, continue, ok, err}

-- `P` is what holds of the worlds on the way, and `Q` of what the chain comes to.
module _ {B : Type 0} (P : World → Type 0) (Q : Result B × World → Type 0)
    (ends : (r : Result B) (w : World) → P w → Q (r, w)) where
  pub continue-then :
      {A : Type 0} (r : Result A × World) (f : A → Action B)
      → P r.1
      → ((a : A) (w : World) → P w → Q (f a w))
      → Q (continue r f)
  continue-then (ok a, w) f p h = h a w p
  continue-then (err e, w) f p h = ends (err e) w p

pub or_raise-holds :
    {A : Type 0} (P : World → Type 0) (o : Option A) (e : AppError) (w : World)
    → P w
    → P (or_raise o e w).1
or_raise-holds P none e w p = p
or_raise-holds P (some a) e w p = p
