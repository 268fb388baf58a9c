-- ===== src/Types/Stats.antt =====
-- `NetworkStats`, `PeerStats` and `NetnsItem` of src/types.rs. The networking wrappers return values of
-- the same shape.
pub mod Parse
pub mod Dump
use fractalnetworks_gateway.Base.{ℕ, Option, List}
use fractalnetworks_gateway.Base.Text.{Text}
use fractalnetworks_gateway.Base.Time.{SystemTime}
use fractalnetworks_gateway.Crates.{Crates, SocketAddr}

pub record PeerStats (X : Crates) : Type 0 where
  pub public_key : X.Pubkey
  pub preshared_key : Option X.Secret
  pub endpoint : Option SocketAddr
  pub allowed_ips : List X.IpNet
  pub latest_handshake : Option SystemTime
  pub transfer_rx : ℕ
  pub transfer_tx : ℕ
  pub persistent_keepalive : Option ℕ

pub record NetworkStats (X : Crates) : Type 0 where
  pub private_key : X.Privkey
  pub public_key : X.Pubkey
  pub listen_port : ℕ
  pub fwmark : Option ℕ
  pub peers : List (PeerStats X)

pub record NetnsItem : Type 0 where
  pub name : Text
  pub id : Option ℕ
