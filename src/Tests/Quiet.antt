-- ===== src/Tests/Quiet.antt =====
-- The theorem on a configuration that is in place, at a concrete one.
use fractalnetworks_gateway.Base.{◌+◌, ◌≡◌, refl, true, false, none, some, [], ◌∷◌}
use fractalnetworks_gateway.Base.Text.{text, show, eq, starts_with}
use fractalnetworks_gateway.Base.Result.{context, ◌>>◌}
use fractalnetworks_gateway.Base.Word.{release, add_u16}
use fractalnetworks_gateway.Crates.Sample.{sample, SampleNet}
use fractalnetworks_gateway.Client.Config.{GatewayConfig}
use fractalnetworks_gateway.Types.Bridge.{bridge_addr, bridge_base, bridge_net, veth_ipv4net}
use fractalnetworks_gateway.Types.Names.{netns_name}
use fractalnetworks_gateway.Types.Ports.{port_config, flatten_proxy, number}
use fractalnetworks_gateway.System.{System}
use fractalnetworks_gateway.System.Sample.{sample_system, answer}
use fractalnetworks_gateway.Gateway.Interfaces.{bridge_interface}
use fractalnetworks_gateway.Gateway.Nginx.{apply_nginx}
use fractalnetworks_gateway.Gateway.Apply.{
  Gateway, apply, difference, networks_of, on_world, to_set,
}
use fractalnetworks_gateway.Gateway.Settled.{Steady, Settled, view}
use fractalnetworks_gateway.Gateway.Settled.Twice.{InPlace, rewrite_all, apply-InPlace}
use fractalnetworks_gateway.Tests.Data.{network_on, own_address}

abbrev bridge_sample : SampleNet
bridge_sample = record { address = bridge_addr; length = 16 }

abbrev veth_sample : SampleNet
veth_sample = record { address = bridge_base + 5; length = 16 }

-- A system in which every interface is there, is up, and has the three addresses.
abbrev ready_system : System sample
ready_system = record sample_system {
  addr_list = λ o i. answer (own_address ∷ bridge_sample ∷ veth_sample ∷ []);
  interface_show = λ o i. answer (record { mtu = some 1420; is_down = false });
  wireguard_exists = λ n i. answer true;
  veth_exists = λ n i. answer true;
  link_get_master = λ o i. answer (some bridge_interface);
}

ready-Steady : Steady ready_system
ready-Steady = record {
  reads-netns_list = λ w. refl;
  reads-netns_exists = λ n w. refl;
  reads-bridge_exists = λ o i w. refl;
  reads-addr_list = λ o i w. refl;
  reads-interface_show = λ o i w. refl;
  reads-wireguard_exists = λ n i w. refl;
  reads-veth_exists = λ n i w. refl;
  reads-link_get_master = λ o i w. refl;
  reads-iptables_save = λ o w. refl;
  keeps-netns_write_file = λ n p t. record { frame = λ w. refl };
  keeps-wireguard_syncconf = λ n i. record { frame = λ w. refl };
}

abbrev config : GatewayConfig sample
config = (5, network_on 5) ∷ []

-- The namespace of the network is there, and one of somebody else.
abbrev ready : Gateway ready_system
ready = record {
  config = [];
  world = record { names = text "network-5" ∷ text "mine" ∷ []; events = [] };
}

network-Settled : Settled ready_system release (network_on 5) (view ready_system ready.world)
unfolding netns_name show eq veth_ipv4net bridge_net port_config flatten_proxy number add_u16
network-Settled = record {
  namespace = refl;
  wireguard = refl;
  wireguard_up = record {
    status = record { mtu = some 1420; is_down = false };
    shown = refl;
    up = refl;
  };
  mtu = refl;
  addresses = record {
    current = own_address ∷ bridge_sample ∷ veth_sample ∷ [];
    listed = refl;
    present = (refl, tt);
  };
  veth = refl;
  veth_net = veth_sample;
  veth_net_ok = refl;
  veth_address = record {
    current = own_address ∷ bridge_sample ∷ veth_sample ∷ [];
    listed = refl;
    present = (refl, tt);
  };
  master = refl;
  inner_up = record {
    status = record { mtu = some 1420; is_down = false };
    shown = refl;
    up = refl;
  };
  outer_up = record {
    status = record { mtu = some 1420; is_down = false };
    shown = refl;
    up = refl;
  };
  config = _;
  config_ok = refl;
  rendered = [];
  rendered_ok = refl;
  saved = [];
  saved_ok = refl;
  same_rules = refl;
}

config-InPlace : InPlace ready_system release (networks_of config) (view ready_system ready.world)
unfolding networks_of bridge_net to_set difference netns_name show eq starts_with
config-InPlace = record {
  bridge = refl;
  net = bridge_sample;
  net_ok = refl;
  bridge_address = record {
    current = own_address ∷ bridge_sample ∷ veth_sample ∷ [];
    listed = refl;
    present = (refl, tt);
  };
  bridge_up = record {
    status = record { mtu = some 1420; is_down = false };
    shown = refl;
    up = refl;
  };
  items =
      record { name = text "network-5"; id = none } ∷ record { name = text "mine"; id = none } ∷ [];
  listed = refl;
  no_surplus = refl;
  settled = (network-Settled, tt);
}

apply-InPlace_example :
    apply ready_system release [] config ready
    ≡ on_world ready_system
        (rewrite_all ready_system (networks_of config)
          >> context
              (text "Applying nginx configuration")
              (apply_nginx ready_system release (networks_of config) []))
        (record ready { config = config })
apply-InPlace_example = apply-InPlace ready-Steady release [] config ready config-InPlace
