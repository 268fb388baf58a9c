-- ===== src/Base/Frames.antt =====
-- Calls that leave a part of the world alone, and what a sequence of calls that succeeded went through.
use mathlib.Core.Path.{◌≡◌, refl, ◌∙◌}
use mathlib.Core.Bool.{Bool, true, false}
use fractalnetworks_gateway.Base.Tests.{if◌then◌else◌}
use fractalnetworks_gateway.Base.Text.{Text}
use fractalnetworks_gateway.Base.Result.{
  Result, ok, err, panic, Call, context_of, pure, lift, context, continue, ◌>>=◌,
}

-- Whatever its outcome, the call leaves what `f` reads as it was.
pub record Frames {W V A : Type 0} (f : W → V) (m : Call W A) : Type 0 where
  pub frame : (w : W) → f (m w).1 ≡ f w

module _ {W V : Type 0} {f : W → V} where
  pub Frames-pure : {A : Type 0} (a : A) → Frames f (pure a)
  unfolding pure
  Frames-pure a = record { frame = λ w. refl }

  pub Frames-lift : {A : Type 0} (r : Result A) → Frames f (lift r)
  unfolding lift
  Frames-lift r = record { frame = λ w. refl }

  pub Frames-context : {A : Type 0} (c : Text) (m : Call W A) → Frames f m → Frames f (context c m)
  unfolding context
  Frames-context c m h = record { frame = λ w. h.frame w }

  pub Frames-if :
      {A : Type 0} (b : Bool) (m k : Call W A)
      → Frames f m
      → Frames f k
      → Frames f (if b then m else k)
  Frames-if true m k hm hk = hm
  Frames-if false m k hm hk = hk

  continue_frame :
      {A B : Type 0} (k : A → Call W B)
      → ((a : A) → Frames f (k a))
      → (r : Result A) (w w' : W) → f w' ≡ f w
      → f (continue r k w').1 ≡ f w
  continue_frame k h (ok a) w w' e = (h a).frame w' ∙ e
  continue_frame k h (err x) w w' e = e
  continue_frame k h panic w w' e = e

  pub Frames-bind :
      {A B : Type 0} (m : Call W A) (k : A → Call W B)
      → Frames f m
      → ((a : A) → Frames f (k a))
      → Frames f (m >>= k)
  unfolding ◌>>=◌
  Frames-bind m k hm hk = record { frame = λ w. continue_frame k hk (m w).0 w (m w).1 (hm.frame w) }

pub ruleset frame_rules = (Frames-pure, Frames-lift, Frames-context, Frames-if, Frames-bind)

module _ {W A B : Type 0} where
  went :
      (r : Result A) (k : A → Call W B) (w : W) (b : B)
      → (continue r k w).0 ≡ ok b
      → (a : A) × (r ≡ ok a) × ((k a w).0 ≡ ok b) × ((continue r k w).1 ≡ (k a w).1)
  went (ok a) k w b h = (a, refl, h, refl)
  went (err e) k w b h = cc
  went panic k w b h = cc

  -- The parts of a sequence that returned.
  pub bind_ok :
      (m : Call W A) (k : A → Call W B) (w : W) (b : B)
      → ((m >>= k) w).0 ≡ ok b
      → (a : A) × ((m w).0 ≡ ok a) × ((k a (m w).1).0 ≡ ok b) × (((m >>= k) w).1 ≡ (k a (m w).1).1)
  unfolding ◌>>=◌
  bind_ok m k w b h = went (m w).0 k (m w).1 b h

context_of_ok : {A : Type 0} (c : Text) (r : Result A) (a : A) → context_of c r ≡ ok a → r ≡ ok a
context_of_ok c (ok x) a h = h
context_of_ok c (err e) a h = cc
context_of_ok c panic a h = cc

module _ {W A : Type 0} where
  pub context_ok :
      (c : Text) (m : Call W A) (w : W) (a : A) → (context c m w).0 ≡ ok a → (m w).0 ≡ ok a
  unfolding context
  context_ok c m w a h = context_of_ok c (m w).0 a h
