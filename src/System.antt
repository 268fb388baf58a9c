-- ===== src/System.antt =====
-- The world outside the gateway, as a parameter: the calls of fractal-networking-wrappers (network
-- namespaces, interfaces, WireGuard, iptables, NGINX), the file system, the clock, the templates (tera),
-- the packet counter pattern (regex) and the broadcast channels (tokio).
pub mod Sample
pub mod Store
use fractalnetworks_gateway.Base.{ℕ, Bool, Option, List}
use fractalnetworks_gateway.Base.Text.{Text}
use fractalnetworks_gateway.Base.Result.{Result, Call}
use fractalnetworks_gateway.Base.Time.{SystemTime}
use fractalnetworks_gateway.Crates.{Crates}
use fractalnetworks_gateway.Client.Traffic.{TrafficInfo}
use fractalnetworks_gateway.Client.Event.{GatewayEvent}
use fractalnetworks_gateway.Types.Ports.{PortConfig}
use fractalnetworks_gateway.Types.Forwarding.{Forwarding}
use fractalnetworks_gateway.Types.Stats.{NetworkStats, NetnsItem}

-- What `interface_show` tells of an interface.
pub record InterfaceStatus : Type 0 where
  pub mtu : Option ℕ
  pub is_down : Bool

pub record System (X : Crates) : Type 1 where
  pub World : Type 0
  pub netns_list : Call World (List NetnsItem)
  pub netns_exists : Text → Call World Bool
  pub netns_add : Text → Call World (Unit {0})
  pub netns_del : Text → Call World (Unit {0})
  pub netns_write_file : Text → Text → Text → Call World (Unit {0})
  pub bridge_exists : Option Text → Text → Call World Bool
  pub bridge_add : Option Text → Text → Call World (Unit {0})
  pub addr_list : Option Text → Text → Call World (List X.IpNet)
  pub addr_add : Option Text → Text → X.IpNet → Call World (Unit {0})
  pub interface_show : Option Text → Text → Call World InterfaceStatus
  pub interface_mtu : Option Text → Text → ℕ → Call World (Unit {0})
  pub interface_up : Option Text → Text → Call World (Unit {0})
  pub wireguard_exists : Text → Text → Call World Bool
  pub wireguard_create : Option Text → Text → Call World (Unit {0})
  pub wireguard_syncconf : Text → Text → Call World (Unit {0})
  pub wireguard_stats : Text → Text → Call World (NetworkStats X)
  pub veth_exists : Text → Text → Call World Bool
  pub veth_add : Text → Text → Text → Call World (Unit {0})
  pub link_get_master : Option Text → Text → Call World (Option Text)
  pub link_set_master : Option Text → Text → Text → Call World (Unit {0})
  pub iptables_save : Option Text → Call World Text
  pub iptables_restore : Option Text → Text → Call World (Unit {0})
  pub nginx_reload : Call World (Unit {0})
  pub is_file : Text → Call World Bool
  pub write_file : Text → Text → Call World (Unit {0})
  pub now : Call World SystemTime
  pub send_event : GatewayEvent X → Call World (Unit {0})
  pub send_traffic : TrafficInfo X.Pubkey → Call World (Unit {0})
  -- `TERA_TEMPLATES.render` on the context of a value, for each of the three templates
  pub render_iptables : PortConfig → Result Text
  pub render_nginx : Forwarding → Result Text
  pub render_sites : Forwarding → Result Text
  -- `Regex::replace(line, "[0:0]")` with the pattern of a packet counter at the end of the line
  pub replace_counter : Text → Text
