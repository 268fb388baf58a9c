-- ===== src/Tests/Applying.antt =====
-- The theorems on `apply` and `apply_partial` at concrete inputs.
use fractalnetworks_gateway.Base.{
  ℕ, ◌≡◌, refl, Bool, true, false, any, List, [], ◌∷◌, ◌++◌, map, if◌then◌else◌,
}
use fractalnetworks_gateway.Base.Text.{Text, eq, show, starts_with, text}
use fractalnetworks_gateway.Base.Result.{ok, ◌>>=◌}
use fractalnetworks_gateway.Base.Word.{add_u16, release}
use fractalnetworks_gateway.Crates.Sample.{sample}
use fractalnetworks_gateway.Client.Config.{GatewayConfigPartial}
use fractalnetworks_gateway.Client.Config
use fractalnetworks_gateway.System.Sample.{sample_system, sample_namespaces}
use fractalnetworks_gateway.Gateway.Apply.{
  apply, apply_networks, apply_partial, apply_world, create_bridge, delete_surplus, difference,
  networks_of, on_world, partial_loop, partial_nginx, to_set,
}
use fractalnetworks_gateway.Gateway.Apply.Configured.{
  config-apply_partial, config-apply_partial_any,
}
use fractalnetworks_gateway.Gateway.Apply.Namespaces.{has-apply}
use fractalnetworks_gateway.Base.Map.{get, insert, remove}
use fractalnetworks_gateway.Gateway.Interfaces.{
  add_missing, apply_addr, apply_bridge, apply_interface_up, apply_link_master,
}
use fractalnetworks_gateway.Base.Split.{join, lines}
use fractalnetworks_gateway.Gateway.Iptables.{apply_forwarding, clean_iptables}
use fractalnetworks_gateway.Gateway.Network.{
  apply_netns, apply_network, apply_veth, apply_wireguard,
}
use fractalnetworks_gateway.Gateway.Nginx.{add_customs, add_networks, apply_nginx, forwarding_of}
use fractalnetworks_gateway.Types.Bridge.{veth_ipv4net}
use fractalnetworks_gateway.Types.Forwarding.{add, add_http, add_https, add_url}
use fractalnetworks_gateway.Types.Names.{netns_name, netns_of_port}
use fractalnetworks_gateway.Types.Ports.{flatten_proxy, number, port_config}
use fractalnetworks_gateway.Tests.Data.{old_config, change, before}

apply_returns : (apply sample_system release [] old_config before).0 ≡ ok tt
unfolding ◌>>=◌ eq starts_with show add_u16 to_set difference networks_of on_world delete_surplus
    apply_networks create_bridge apply_world apply add_networks add_customs forwarding_of
    apply_nginx apply_netns apply_wireguard apply_veth apply_network lines join clean_iptables
    apply_forwarding add_missing apply_addr apply_interface_up apply_link_master apply_bridge
    add_https add_http add_url add netns_name veth_ipv4net flatten_proxy number port_config
apply_returns = refl

has-apply_example :
    sample_namespaces.has
      (apply sample_system release [] old_config before).1.world
      (text "network-9")
    ≡ false
unfolding starts_with eq fractalnetworks_gateway.Types.Names.netns_of_port
    fractalnetworks_gateway.Base.Text.show
has-apply_example =
    has-apply sample_namespaces release [] old_config before apply_returns (text "network-9")

apply_partial_returns : (apply_partial sample_system release [] change before).0 ≡ ok tt
unfolding ◌>>=◌ eq starts_with show add_u16 get insert remove to_set on_world create_bridge
    partial_loop partial_nginx apply_partial add_networks add_customs forwarding_of apply_nginx
    apply_netns apply_wireguard apply_veth apply_network lines join clean_iptables apply_forwarding
    add_missing apply_addr apply_interface_up apply_link_master apply_bridge add_https add_http
    add_url add netns_of_port netns_name veth_ipv4net flatten_proxy number port_config
apply_partial_returns = refl

config-apply_partial_example :
    (apply_partial sample_system release [] change before).1.config
    ≡ Config.apply_partial old_config change
config-apply_partial_example =
    config-apply_partial sample_system release [] change before apply_partial_returns

config-apply_partial_any_example :
    (done rest : GatewayConfigPartial sample) × (change ≡ done ++ rest)
    × ((apply_partial sample_system release [] change before).1.config
        ≡ Config.apply_partial old_config done)
config-apply_partial_any_example = config-apply_partial_any sample_system release [] change before
