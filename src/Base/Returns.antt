-- ===== src/Base/Returns.antt =====
-- Calls that return a value in every world.
use mathlib.Core.Path.{◌≡◌, refl}
use mathlib.Core.Bool.{Bool, true, false}
use fractalnetworks_gateway.Base.Tests.{if◌then◌else◌}
use fractalnetworks_gateway.Base.Result.{
  Result, ok, err, panic, bind_result, Call, pure, lift, continue, ◌>>=◌,
}

-- The result is a value.
abbrev pub Yields : {A : Type 0} → Result A → Type 0
Yields {A} r = (a : A) × (r ≡ ok a)

pub Yields-bind :
    {A B : Type 0} (r : Result A) (f : A → Result B)
    → Yields r
    → ((a : A) → Yields (f a))
    → Yields (bind_result r f)
Yields-bind (ok a) f h k = k a
Yields-bind (err e) f (a, h) k = cc
Yields-bind panic f (a, h) k = cc

-- The call returns in every world.
pub record Returns {W A : Type 0} (m : Call W A) : Type 0 where
  pub returns : (w : W) → Yields (m w).0

module _ {W : Type 0} where
  pub Returns-pure : {A : Type 0} (a : A) → Returns (pure {W = W} a)
  unfolding pure
  Returns-pure a = record { returns = λ w. (a, refl) }

  pub Returns-lift : {A : Type 0} (r : Result A) → Yields r → Returns (lift {W = W} r)
  unfolding lift
  Returns-lift r h = record { returns = λ w. h }

  pub Returns-if :
      {A : Type 0} (b : Bool) (m k : Call W A)
      → Returns m
      → Returns k
      → Returns (if b then m else k)
  Returns-if true m k hm hk = hm
  Returns-if false m k hm hk = hk

  continue-Yields :
      {A B : Type 0} (k : A → Call W B) (r : Result A) (w : W)
      → Yields r
      → ((a : A) → r ≡ ok a → Yields (k a w).0)
      → Yields (continue r k w).0
  continue-Yields k (ok a) w h hk = hk a refl
  continue-Yields k (err e) w (a, h) hk = cc
  continue-Yields k panic w (a, h) hk = cc

  pub Returns-bind :
      {A B : Type 0} (m : Call W A) (k : A → Call W B)
      → Returns m
      → ((a : A) → Returns (k a))
      → Returns (m >>= k)
  unfolding ◌>>=◌
  Returns-bind m k hm hk = record {
    returns = λ w. continue-Yields k (m w).0 (m w).1 (hm.returns w) (λ a e. (hk a).returns (m w).1);
  }

  -- A step whose value is the same in every world.
  pub Returns-known :
      {A B : Type 0} (m : Call W A) (k : A → Call W B) (a : A)
      → ((w : W) → (m w).0 ≡ ok a)
      → Returns (k a)
      → Returns (m >>= k)
  unfolding ◌>>=◌
  Returns-known m k a hm hk = record { returns = λ w. rw (hm w) (hk.returns (m w).1) }

pub ruleset return_rules = (Returns-pure, Returns-if, Returns-bind)
