-- ===== src/Client/Config.antt =====
-- `NetworkState`, `PeerState`, `GatewayConfig`, `GatewayConfigPartial` and `apply_partial` of client/src/lib.rs.
pub mod Partial
use fractalnetworks_gateway.Base.{ℕ, Option, none, some, List, [], ◌∷◌}
use fractalnetworks_gateway.Base.Map.{Map, insert, remove}
use fractalnetworks_gateway.Base.Orders.{nat_order}
use fractalnetworks_gateway.Crates.{Crates, SocketAddr}

pub record PeerState (X : Crates) : Type 0 where
  pub preshared_key : Option X.Secret
  pub allowed_ips : List X.IpNet
  pub endpoint : Option SocketAddr

pub record NetworkState (X : Crates) : Type 0 where
  pub private_key : X.Privkey
  pub listen_port : ℕ
  pub mtu : ℕ
  pub address : List X.IpNet
  pub peers : Map X.Pubkey (PeerState X)
  pub proxy : Map X.Url (List SocketAddr)

abbrev pub GatewayConfig : Crates → Type 0
GatewayConfig X = Map ℕ (NetworkState X)

abbrev pub GatewayConfigPartial : Crates → Type 0
GatewayConfigPartial X = Map ℕ (Option (NetworkState X))

abbrev pub default_mtu : ℕ
default_mtu = 1420

module _ {X : Crates} where
  -- `GatewayConfig::apply_partial`, over the entries of the partial configuration in order.
  unfoldable pub apply_partial : GatewayConfig X → GatewayConfigPartial X → GatewayConfig X
  apply_partial self [] = self
  apply_partial self ((port, none) ∷ partial) = apply_partial (remove port self) partial
  apply_partial self ((port, some network) ∷ partial) =
      apply_partial (insert port network self) partial
