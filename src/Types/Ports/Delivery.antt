-- ===== src/Types/Ports/Delivery.antt =====
-- What the rules rendered from `port_config` do with a packet to a mapped port.
use mathlib.Core.Option
use native.Mathlib.Nat.{zero-add}
use fractalnetworks_gateway.Base.{
  ℕ, suc, ◌+◌, ◌≤◌, ◌≡◌, refl, Option, none, some, List, [], ◌∷◌, map, length, get_elem?, ◌==◌,
  if◌then◌else◌, zero, arith,
}
use fractalnetworks_gateway.Base.Result.{ok, panic}
use fractalnetworks_gateway.Base.Word.{Build}
use fractalnetworks_gateway.Crates.{Crates, IpAddr, SocketAddr, ip, port_of}
use fractalnetworks_gateway.Client.Config.{NetworkState}
use fractalnetworks_gateway.Types.Names.{veth_name, wgif_name}
use fractalnetworks_gateway.Types.Ports.{
  PortMapping, PortConfig, flatten_proxy, port_config, mapping_of, first,
}
use fractalnetworks_gateway.Types.Ports.Numbering.{numbered, number-numbered, capacity}

-- The destination of the first PREROUTING rule that fits a port (templates/iptables.save.tera): DNAT
-- stops at the first match.
pub destination : List PortMapping → ℕ → Option (IpAddr × ℕ)
destination [] port = none
destination (m ∷ mappings) port =
    if m.port_in == port then some (m.ip_out, m.port_out) else destination mappings port

module _ {U : Type 0} where
  destination-numbered :
      (i j : ℕ) (pairs : List (U × SocketAddr))
      → destination (map mapping_of (numbered i pairs)) (2000 + (i + j))
        ≡ Option.map (λ (url, addr). (ip addr, port_of addr)) (get_elem? pairs j)
  unfolding destination
  destination-numbered i zero [] = refl
  destination-numbered i (suc j) [] = refl
  destination-numbered i zero ((u, a) ∷ pairs) = ground arith
  destination-numbered i (suc j) ((u, a) ∷ pairs) =
      let rest = destination-numbered (suc i) j pairs in
      let shift : 2000 + (suc i + j) ≡ 2000 + (i + suc j) = omega arith in
      ground (arith, rw shift at rest)

module _ {X : Crates} (b : Build) (s : NetworkState X) (address : X.IpNet) where
  -- For a network with an address and at most 63536 proxied addresses, none included, the
  -- configuration is made in any build, is for the network's own interfaces and address, and sends
  -- port 2000 + j to the j-th proxied address, and nowhere if there are not so many.
  pub port_config_delivers :
      (j : ℕ)
      → first s.address ≡ some address
      → length (flatten_proxy s.proxy) ≤ capacity
      → (c : PortConfig) × (port_config b s ≡ ok c)
        × (c.interface_in ≡ veth_name s)
        × (c.interface_out ≡ wgif_name s)
        × (c.ip_source ≡ X.net_addr address)
        × (destination c.mappings (2000 + j)
            ≡ Option.map
                (λ (url, addr). (ip addr, port_of addr))
                (get_elem? (flatten_proxy s.proxy) j))
  unfolding port_config
  port_config_delivers j h c = (
    record {
      interface_in = veth_name s;
      interface_out = wgif_name s;
      ip_source = X.net_addr address;
      mappings = map mapping_of (numbered 0 (flatten_proxy s.proxy));
    },
    rw (h, number-numbered b 0 (flatten_proxy s.proxy) (omega arith)),
    refl,
    refl,
    refl,
    rw zero-add at (destination-numbered 0 j (flatten_proxy s.proxy)),
  )

-- A network with no address cannot be given forwarding rules: the call panics.
pub port_config_panics :
    {X : Crates} (b : Build) (s : NetworkState X) → s.address ≡ [] → port_config b s ≡ panic
unfolding port_config
port_config_panics b s h = rw h
