-- ===== src/Tests/Again.antt =====
-- The theorems on a second `apply`, at a concrete system that starts with a namespace of an old network.
use fractalnetworks_gateway.Base.{Bool, All, List, ◌≡◌, refl, none, true, false, [], ◌∷◌, ◌++◌}
use fractalnetworks_gateway.Base.Text.{eq, show, starts_with, text}
use fractalnetworks_gateway.Base.Result.{Result, ok, context, ◌>>=◌, ◌>>◌}
use fractalnetworks_gateway.Base.Word.{add_u16, release}
use fractalnetworks_gateway.Crates.Sample.{sample}
use fractalnetworks_gateway.Gateway.Apply.{
  Gateway, apply, apply_networks, apply_world, create_bridge, delete_surplus, difference,
  networks_of, on_world, to_set,
}
use fractalnetworks_gateway.Gateway.Interfaces.{
  add_missing, apply_addr, apply_bridge, apply_interface_up, apply_link_master,
}
use fractalnetworks_gateway.Base.Split.{join, lines}
use fractalnetworks_gateway.Gateway.Iptables.{apply_forwarding, clean_iptables}
use fractalnetworks_gateway.Gateway.Network.{
  apply_netns, apply_network, apply_veth, apply_wireguard,
}
use fractalnetworks_gateway.Gateway.Nginx.{add_customs, add_networks, apply_nginx, forwarding_of}
use fractalnetworks_gateway.Types.Bridge.{veth_ipv4net}
use fractalnetworks_gateway.Types.Forwarding.{add, add_http, add_https, add_url}
use fractalnetworks_gateway.Types.Names.{netns_name}
use fractalnetworks_gateway.Types.Ports.{flatten_proxy, number, port_config}
use fractalnetworks_gateway.Tests.Data.{old_config}
use fractalnetworks_gateway.Client.Event.{GatewayRequest, GatewayResponse, applied}
use fractalnetworks_gateway.Websocket.{
  Connection, Session, message, text_message, on_socket, on_gateway, answer, serve, round,
}
use fractalnetworks_gateway.Websocket.Answers.{SendLog}
use fractalnetworks_gateway.Websocket.Applied.{IsInForce, round-IsInForce}
use fractalnetworks_gateway.System.Store.{store_system, store_namespaces}
use fractalnetworks_gateway.System.Store.Running.{store-Effects}
use fractalnetworks_gateway.Gateway.Effects.Serving.{IsServed}
use fractalnetworks_gateway.Gateway.Effects.Loading.{IsConfigured}
use fractalnetworks_gateway.System.Store.Settling.{store-Kernel, store-Plain}
use fractalnetworks_gateway.Gateway.Iptables.Cleaning.{Replaces}
use fractalnetworks_gateway.Gateway.Settled.{view}
use fractalnetworks_gateway.Gateway.Settled.Twice.{InPlace, rewrite_all}
use fractalnetworks_gateway.Gateway.Kernel.Reaching.{apply-reaches}
use fractalnetworks_gateway.Gateway.Kernel.Again.{apply-apply}

same-Replaces : Replaces (λ s. s)
same-Replaces = record {
  once = λ s. refl;
  no_newline = λ s h. h;
  no_return = λ s h. h;
  filled = λ s h. h;
  rule = λ s h. h;
}

-- Nothing is there but the namespace of an old network and one of somebody else.
abbrev bare : Gateway store_system
bare = record {
  config = [];
  world = record {
    base = record { names = text "network-4" ∷ text "mine" ∷ []; events = [] };
    bridges = λ i. false;
    wireguards = λ n i. false;
    veths = λ n i. false;
    addresses = λ o i. [];
    ups = λ o i. false;
    mtus = λ o i. 1500;
    masters = λ i. none;
    saved = λ n. [];
    files = λ n p. none;
    devices = λ n i. none;
    pages = λ p. none;
    running = λ p. none;
  };
}

apply_succeeds : (apply store_system release [] old_config bare).0 ≡ ok tt
unfolding ◌>>=◌ eq starts_with show add_u16 to_set difference networks_of on_world delete_surplus
    apply_networks create_bridge apply_world apply add_networks add_customs forwarding_of
    apply_nginx apply_netns apply_wireguard apply_veth apply_network lines join clean_iptables
    apply_forwarding add_missing apply_addr apply_interface_up apply_link_master apply_bridge
    add_https add_http add_url add netns_name veth_ipv4net flatten_proxy number port_config
apply_succeeds = refl

apply-reaches_example :
    InPlace store_system release
      (networks_of old_config)
      (view store_system (apply store_system release [] old_config bare).1.world)
    × All
        (IsConfigured store-Effects (apply store_system release [] old_config bare).1.world)
        (networks_of old_config)
    × IsServed store-Effects release
        (networks_of old_config)
        []
        (apply store_system release [] old_config bare).1.world
apply-reaches_example =
    apply-reaches store-Kernel store_namespaces store-Effects same-Replaces store-Plain release []
      old_config bare ((refl, tt), (tt, tt)) apply_succeeds

apply-apply_example :
    apply store_system release [] old_config (apply store_system release [] old_config bare).1
    ≡ on_world store_system
        (rewrite_all store_system (networks_of old_config)
          >> context
              (text "Applying nginx configuration")
              (apply_nginx store_system release (networks_of old_config) []))
        (record (apply store_system release [] old_config bare).1 { config = old_config })
apply-apply_example =
    apply-apply store-Kernel store_namespaces store-Effects same-Replaces store-Plain release []
      old_config bare ((refl, tt), (tt, tt)) apply_succeeds

-- Every message asks for the same configuration.
abbrev link : Connection sample
link = record {
  Socket = List (GatewayResponse sample);
  open_socket = λ k. (ok tt, k);
  send = λ r k. (ok tt, k ++ (r ∷ []));
  from_str = λ t. ok (GatewayRequest.apply old_config);
}

abbrev link_log : SendLog link
link_log = record { sent = λ k. k; sent-ok = λ r k h. refl }

abbrev session : Session store_system link release []
session = record { gateway = bare; socket = [] }

abbrev after : Result Bool × Session store_system link release []
after = round store_system link release [] (message (text_message [])) session

round_succeeds : (after.0 ≡ ok true) × (after.1.socket ≡ GatewayResponse.apply applied ∷ [])
unfolding ◌>>=◌ eq starts_with show add_u16 to_set difference networks_of on_world delete_surplus
    apply_networks create_bridge apply_world apply add_networks add_customs forwarding_of
    apply_nginx apply_netns apply_wireguard apply_veth apply_network lines join clean_iptables
    apply_forwarding add_missing apply_addr apply_interface_up apply_link_master apply_bridge
    add_https add_http add_url add netns_name veth_ipv4net flatten_proxy number port_config
    on_socket on_gateway answer serve round
round_succeeds = (refl, refl)

round-IsInForce_example : IsInForce store-Effects release [] old_config after.1.gateway
round-IsInForce_example =
    round-IsInForce store-Kernel store_namespaces store-Effects same-Replaces store-Plain link
      link_log release [] [] old_config session true refl ((refl, tt), (tt, tt)) round_succeeds.0
      round_succeeds.1
