-- ===== src/Client/Config/Partial.antt =====
-- What `GatewayConfig::apply_partial` leaves at each port.
use fractalnetworks_gateway.Base.{ℕ, ◌≡◌, refl, Option, none, some, [], ◌∷◌, arith}
use fractalnetworks_gateway.Base.Map.{get, insert, remove}
use fractalnetworks_gateway.Base.Map.Laws.{
  IsSorted, get-insert, get-remove, insert-IsSorted, remove-IsSorted,
}
use fractalnetworks_gateway.Base.Map.Sums.{get_of_Below}
use fractalnetworks_gateway.Base.Orders.{nat_order}
use fractalnetworks_gateway.Crates.{Crates}
use fractalnetworks_gateway.Client.Config.{GatewayConfig, GatewayConfigPartial, apply_partial}

-- The entry of a port after a change, from what the change lists for it and the entry before.
abbrev pub overlay {ℓ} : {V : Type ℓ} → Option (Option V) → Option V → Option V
overlay none old = old
overlay (some none) old = none
overlay (some (some v)) old = some v

module _ {X : Crates} where
  -- When the entries of the change are in the order of their ports, each once, every port that the
  -- change lists gets what is listed, nothing if that is `None`, and every other port keeps its
  -- network.
  pub get-apply_partial :
      (port : ℕ) (self : GatewayConfig X) (partial : GatewayConfigPartial X)
      → IsSorted partial
      → get port (apply_partial self partial) ≡ overlay (get port partial) (get port self)
  unfolding apply_partial get
  get-apply_partial port self [] s = refl
  get-apply_partial port self ((p, none) ∷ partial) (b, s) = ground (
    arith,
    get-apply_partial port (remove p self) partial s,
    get-remove port p self,
    get_of_Below p partial b,
  )
  get-apply_partial port self ((p, some n) ∷ partial) (b, s) = ground (
    arith,
    get-apply_partial port (insert p n self) partial s,
    get-insert port p n self,
    get_of_Below p partial b,
  )

  -- If a configuration is in the order of its ports, each once, the changed configuration is too.
  apply_partial-IsSorted :
      (self : GatewayConfig X) (partial : GatewayConfigPartial X)
      → IsSorted self
      → IsSorted (apply_partial self partial)
  unfolding apply_partial
  apply_partial-IsSorted self [] s = s
  apply_partial-IsSorted self ((p, none) ∷ partial) s =
      apply_partial-IsSorted (remove p self) partial (remove-IsSorted p self s)
  apply_partial-IsSorted self ((p, some n) ∷ partial) s =
      apply_partial-IsSorted (insert p n self) partial (insert-IsSorted p n self s)
