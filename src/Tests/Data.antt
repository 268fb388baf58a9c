-- ===== src/Tests/Data.antt =====
-- The inputs of the examples.
use fractalnetworks_gateway.Base.{ℕ, ◌+◌, ◌*◌, none, some, List, [], ◌∷◌}
use fractalnetworks_gateway.Base.Text.{text}
use fractalnetworks_gateway.Base.Time.{unix_epoch, nanos}
use fractalnetworks_gateway.Crates.{SocketAddr, socket_v4}
use fractalnetworks_gateway.Crates.Sample.{sample, SampleUrl, SampleNet}
use fractalnetworks_gateway.Client.Config.{NetworkState, GatewayConfig, GatewayConfigPartial}
use fractalnetworks_gateway.Types.Stats.{PeerStats, NetworkStats}
use fractalnetworks_gateway.Watchdog.Peer.{Watch}
use fractalnetworks_gateway.Client.Traffic.{new_info}
use fractalnetworks_gateway.System.Sample.{sample_system}
use fractalnetworks_gateway.Gateway.Apply.{Gateway}

abbrev pub site : SampleUrl
site = record { scheme = text "https"; host = text "a" }

abbrev pub other_site : SampleUrl
other_site = record { scheme = text "http"; host = text "b" }

abbrev pub first_server : SocketAddr
first_server = socket_v4 10 80

abbrev pub second_server : SocketAddr
second_server = socket_v4 11 81

abbrev pub own_address : SampleNet
own_address = record { address = 99; length = 24 }

-- A network on a port, with two servers for one site and one for another.
abbrev pub network_on : ℕ → NetworkState sample
network_on port = record {
  private_key = 1;
  listen_port = port;
  mtu = 1420;
  address = own_address ∷ [];
  peers = [];
  proxy = (other_site, second_server ∷ []) ∷ (site, first_server ∷ second_server ∷ []) ∷ [];
}

abbrev pub old_config : GatewayConfig sample
old_config = (5, network_on 5) ∷ (6, network_on 6) ∷ []

-- The network on port 5 goes, one on port 7 comes.
abbrev pub change : GatewayConfigPartial sample
change = (5, none) ∷ (7, some (network_on 7)) ∷ []

-- A namespace of the gateway that is not configured, and one of somebody else.
abbrev pub before : Gateway sample_system
before = record {
  config = old_config;
  world = record { names = text "network-9" ∷ text "mine" ∷ []; events = [] };
}

abbrev pub peer_with : ℕ → ℕ → PeerStats sample
peer_with rx tx = record {
  public_key = 7;
  preshared_key = none;
  endpoint = some first_server;
  allowed_ips = [];
  latest_handshake = some (unix_epoch + 900 * nanos);
  transfer_rx = rx;
  transfer_tx = tx;
  persistent_keepalive = none;
}

abbrev pub stats_of : List (PeerStats sample) → NetworkStats sample
stats_of peers = record {
  private_key = 1;
  public_key = 2;
  listen_port = 5;
  fwmark = none;
  peers = peers;
}

abbrev pub start : Watch sample sample_system
start = record { world = record { names = []; events = [] }; traffic = new_info 0; peers = [] }
