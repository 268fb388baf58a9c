-- ===== src/Client/Event.antt =====
-- `GatewayEvent` with its three payloads, `GatewayRequest` and `GatewayResponse` of client/src/lib.rs.
use fractalnetworks_gateway.Base.Text.{Text}
use fractalnetworks_gateway.Crates.{Crates, SocketAddr}
use fractalnetworks_gateway.Client.Config.{GatewayConfig, GatewayConfigPartial}
use fractalnetworks_gateway.Client.Traffic.{TrafficInfo}

pub record GatewayPeerConnectedEvent (X : Crates) : Type 0 where
  pub network : X.Pubkey
  pub peer : X.Pubkey
  pub endpoint : SocketAddr

pub record GatewayPeerDisconnectedEvent (X : Crates) : Type 0 where
  pub network : X.Pubkey
  pub peer : X.Pubkey

pub record GatewayPeerEndpointEvent (X : Crates) : Type 0 where
  pub network : X.Pubkey
  pub peer : X.Pubkey
  pub endpoint : SocketAddr

pub data GatewayEvent (X : Crates) : Type 0 where
  peer_connected : GatewayPeerConnectedEvent X → GatewayEvent X
  peer_disconnected : GatewayPeerDisconnectedEvent X → GatewayEvent X
  endpoint : GatewayPeerEndpointEvent X → GatewayEvent X

pub data GatewayRequest (X : Crates) : Type 0 where
  apply : GatewayConfig X → GatewayRequest X
  apply_partial : GatewayConfigPartial X → GatewayRequest X
  shutdown : GatewayRequest X

-- `Result<(), String>`, the answer to the last apply operation.
pub data Status : Type 0 where
  applied : Status
  failed : Text → Status

pub data GatewayResponse (X : Crates) : Type 0 where
  traffic : TrafficInfo X.Pubkey → GatewayResponse X
  event : GatewayEvent X → GatewayResponse X
  apply : Status → GatewayResponse X
