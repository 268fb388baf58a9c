-- ===== src/Tests/Tables.antt =====
-- The theorems on names, addresses, ports and the tables of NGINX at concrete inputs.
use mathlib.Core.Option
use fractalnetworks_gateway.Base.{
  Option, ℕ, suc, ◌+◌, ◌^◌, ◌<◌, ◌≤◌, ◌≡◌, refl, inl, true, false, some, List, [], ◌∷◌, ◌++◌, map,
  length, get_elem?, if◌then◌else◌, arith,
}
use fractalnetworks_gateway.Base.Text.{Text, text}
use fractalnetworks_gateway.Base.Result.{ok}
use fractalnetworks_gateway.Base.Orders.{text_order}
use fractalnetworks_gateway.Base.Word.{debug}
use fractalnetworks_gateway.Crates.{SocketAddr, ip, port_of, v4}
use fractalnetworks_gateway.Crates.Sample.{sample, sample-IsLawful, SampleUrl, SampleNet}
use fractalnetworks_gateway.Types.Names.{wgif_name, veth_name}
use fractalnetworks_gateway.Types.Bridge.{bridge_base, veth_ipv4net, veth_ipv4net_lem}
use fractalnetworks_gateway.Types.Ports.{PortConfig, flatten_proxy, port_mappings, port_config}
use fractalnetworks_gateway.Types.Ports.Numbering.{numbered, port_mappings_ports, capacity}
use fractalnetworks_gateway.Types.Ports.Delivery.{destination, port_config_delivers}
use fractalnetworks_gateway.Types.Forwarding.{Forwarding, no_tables, new, register, add}
use fractalnetworks_gateway.Types.Forwarding.Upstreams.{
  servers, IsConsistent, no_tables-IsConsistent, register-IsConsistent, servers-register,
}
use fractalnetworks_gateway.Types.Forwarding.Servers.{sockets_for, Grows, new-IsGood}
use fractalnetworks_gateway.Types.Forwarding.Loops.{veth_socket, add-Grows}
use fractalnetworks_gateway.Gateway.Nginx.{forwarding_of}
use fractalnetworks_gateway.Gateway.Nginx.Tables.{wanted, forwarding_of_lem}
use fractalnetworks_gateway.Tests.Data.{network_on, site, first_server, second_server, own_address}

veth_ipv4net_lem_example :
    (n : SampleNet) × (veth_ipv4net sample (network_on 5) ≡ ok n)
    × (n.address ≡ bridge_base + 5)
    × (n.length ≡ 16)
    × (sample.ipv4_network n ≡ bridge_base)
veth_ipv4net_lem_example = veth_ipv4net_lem sample sample-IsLawful (network_on 5) (omega arith)

few : length (flatten_proxy (network_on 5).proxy) ≤ capacity
unfolding flatten_proxy
few = omega arith

port_mappings_ports_example :
    (ms : List (SampleUrl × ℕ × SocketAddr)) × (port_mappings debug (network_on 5) ≡ ok ms)
    × (length ms ≡ length (flatten_proxy (network_on 5).proxy))
    × (get_elem? ms 2
        ≡ Option.map
            (λ (url, addr). (url, 2002, addr))
            (get_elem? (flatten_proxy (network_on 5).proxy) 2))
port_mappings_ports_example = port_mappings_ports (network_on 5) debug 2 few

port_config_delivers_example :
    (c : PortConfig) × (port_config debug (network_on 5) ≡ ok c)
    × (c.interface_in ≡ veth_name (network_on 5))
    × (c.interface_out ≡ wgif_name (network_on 5))
    × (c.ip_source ≡ v4 99)
    × (destination c.mappings 2002
        ≡ Option.map
            (λ (url, addr). (ip addr, port_of addr))
            (get_elem? (flatten_proxy (network_on 5).proxy) 2))
port_config_delivers_example = port_config_delivers debug (network_on 5) own_address 2 refl few

register-IsConsistent_example :
    IsConsistent sample
      (text "https_")
      (register sample (text "https_") (text "a") first_server no_tables)
register-IsConsistent_example =
    register-IsConsistent sample (text "https_") sample-IsLawful (text "a") first_server no_tables
      (no_tables-IsConsistent sample (text "https_"))

servers-register_example :
    servers
      (register sample
        (text "https_")
        (text "a")
        second_server
        (register sample (text "https_") (text "a") first_server no_tables))
      (text "a")
    ≡ servers (register sample (text "https_") (text "a") first_server no_tables) (text "a")
      ++ (second_server ∷ [])
unfolding fractalnetworks_gateway.Base.Orders.compare_text
servers-register_example =
    servers-register sample (text "https_") sample-IsLawful (text "a") second_server
      (register sample (text "https_") (text "a") first_server no_tables)
      register-IsConsistent_again (text "a")
  where
    register-IsConsistent_again :
        IsConsistent sample
          (text "https_")
          (register sample (text "https_") (text "a") first_server no_tables)
    register-IsConsistent_again =
        register-IsConsistent sample (text "https_") sample-IsLawful (text "a") first_server
          no_tables (no_tables-IsConsistent sample (text "https_"))

add-Grows_example :
    (f' : Forwarding) × (net : SampleNet) × (add sample debug new (network_on 5) ≡ ok f')
    × (net.address ≡ bridge_base + 5)
    × Grows sample new f'
        (map (veth_socket net.address) (numbered 0 (flatten_proxy (network_on 5).proxy)))
add-Grows_example =
    add-Grows sample sample-IsLawful debug new (network_on 5) (new-IsGood sample) (omega arith) few

forwarding_of_lem_example :
    (f : Forwarding) × (forwarding_of sample debug (network_on 5 ∷ []) ((site, first_server) ∷ [])
      ≡ ok f)
    × ((h : Text)
        → servers f.https h
          ≡ sockets_for sample
              (text "https")
              h
              (wanted sample (network_on 5 ∷ []) ++ ((site, first_server) ∷ [])))
    × ((h : Text)
        → servers f.http h
          ≡ sockets_for sample
              (text "http")
              h
              (wanted sample (network_on 5 ∷ []) ++ ((site, first_server) ∷ [])))
forwarding_of_lem_example =
    forwarding_of_lem sample sample-IsLawful debug (network_on 5 ∷ []) ((site, first_server) ∷ [])
      ((omega arith, few), tt)
