-- ===== src/Base/Result.antt =====
-- The outcome of a Rust function that returns `anyhow::Result` or panics, and of an `async fn` that
-- also acts on the outside world. An error is the chain of its contexts, the outermost first, over
-- the message of its root; `e.to_string()` prints the outermost one.
use mathlib.Core.Path.{◌≡◌, refl}
use mathlib.Core.List.{List, ◌∷◌}
use mathlib.Core.Option.{Option, none, some}
use fractalnetworks_gateway.Base.Text.{Text}

abbrev pub Error : Type 0
Error = List Text

pub data Result {ℓ} (A : Type ℓ) : Type ℓ where
  ok : A → Result A
  err : Error → Result A
  panic : Result A

-- A call that may fail and that changes the world, also when it fails.
abbrev pub Call {ℓ} : Type ℓ → Type ℓ → Type ℓ
Call W A = W → Result A × W

module _ {ℓ} {A : Type ℓ} where
  -- `.context(text)`
  abbrev pub context_of : Text → Result A → Result A
  context_of c (ok a) = ok a
  context_of c (err e) = err (c ∷ e)
  context_of c panic = panic

  -- `Option::ok_or`
  abbrev pub ok_or : Option A → Error → Result A
  ok_or none e = err e
  ok_or (some a) e = ok a

  -- `Option::unwrap`
  abbrev pub unwrap : Option A → Result A
  unwrap none = panic
  unwrap (some a) = ok a

module _ {ℓ} {A : Type ℓ} {B : Type ℓ} where
  abbrev pub bind_result : Result A → (A → Result B) → Result B
  bind_result (ok a) f = f a
  bind_result (err e) f = err e
  bind_result panic f = panic

module _ {ℓ} {W A : Type ℓ} where
  unfoldable pub pure : A → Call W A
  pure a w = (ok a, w)

  unfoldable pub lift : Result A → Call W A
  lift r w = (r, w)

  -- `.await.context(text)`
  unfoldable pub context : Text → Call W A → Call W A
  context c m w = let (r, w') = m w in (context_of c r, w')

module _ {ℓ} {W A B : Type ℓ} where
  abbrev pub continue : Result A → (A → Call W B) → Call W B
  continue (ok a) f w = f a w
  continue (err e) f w = (err e, w)
  continue panic f w = (panic, w)

  infixl 5 ◌>>=◌ ◌>>◌
  -- `?` after each step. Opening this opens `pure`, `lift` and `context` too.
  unfoldable pub ◌>>=◌ : Call W A → (A → Call W B) → Call W B
  unfolding pure lift context
  ◌>>=◌ m f w = let (r, w') = m w in continue r f w'

  abbrev pub ◌>>◌ : Call W A → Call W B → Call W B
  m >> k = m >>= λ _. k

-- What a chain that succeeded went through.
pub bind_result-eq-ok {ℓ} :
    {A B : Type ℓ} (m : Result A) (f : A → Result B) (b : B)
    → bind_result m f ≡ ok b
    → (a : A) × (m ≡ ok a) × (f a ≡ ok b)
bind_result-eq-ok (ok a) f b h = (a, refl, h)
bind_result-eq-ok (err e) f b h = cc
bind_result-eq-ok panic f b h = cc
