-- ===== src/Types/Bridge.antt =====
-- `BRIDGE_NET` of src/gateway.rs and `veth_ipv4net` of src/types.rs.
use fractalnetworks_gateway.Base.{ℕ, ◌+◌, ◌*◌, ◌^◌, ◌<◌, ◌≡◌, ◌∙◌, arith}
use fractalnetworks_gateway.Base.Result.{Result, ok, bind_result, unwrap}
use fractalnetworks_gateway.Crates.{Crates, IsLawful}
use fractalnetworks_gateway.Client.Config.{NetworkState}

-- `Ipv4Addr::new`, as the number of the address
abbrev pub ipv4 : ℕ → ℕ → ℕ → ℕ → ℕ
ipv4 a b c d = ((a * 256 + b) * 256 + c) * 256 + d

-- The addresses 172.99.0.1 and 172.99.0.0.
abbrev pub bridge_addr : ℕ
bridge_addr = ipv4 172 99 0 1

abbrev pub bridge_base : ℕ
bridge_base = ipv4 172 99 0 0

module _ (X : Crates) where
  -- `BRIDGE_NET`: 172.99.0.1/16
  unfoldable pub bridge_net : Result X.Ipv4Net
  bridge_net = unwrap (X.new_ipv4net bridge_addr 16)

  -- The address of the inner end of the network's veth pair.
  unfoldable pub veth_ipv4net : NetworkState X → Result X.Ipv4Net
  unfolding bridge_net
  veth_ipv4net self = bind_result bridge_net λ bridge.
      let addr = X.saturating_add (X.ipv4_network bridge) self.listen_port in
      unwrap (X.new_ipv4net addr (X.prefix_len bridge))

  module _ (L : IsLawful X) where
    -- The bridge's network does not panic: it is 172.99.0.1/16, in the network 172.99.0.0.
    pub bridge_net_lem :
        (n : X.Ipv4Net) × (bridge_net ≡ ok n)
        × (X.ipv4_addr n ≡ bridge_addr)
        × (X.prefix_len n ≡ 16)
        × (X.ipv4_network n ≡ bridge_base)
    unfolding bridge_net
    bridge_net_lem =
        let (n, p, q, r) = L.new_ipv4net_ok bridge_addr 16 (omega arith) in
        (n, rw p, q, r, L.ipv4_network_lem n ∙ rw (q, r))

    -- For a port of 16 bits the veth address is made without a panic: it lies as many places
    -- behind 172.99.0.0 as the port says, with the prefix of 16 bits and the network address of
    -- the bridge's network.
    pub veth_ipv4net_lem :
        (s : NetworkState X)
        → s.listen_port < 2 ^ 16
        → (n : X.Ipv4Net) × (veth_ipv4net s ≡ ok n)
          × (X.ipv4_addr n ≡ bridge_base + s.listen_port)
          × (X.prefix_len n ≡ 16)
          × (X.ipv4_network n ≡ bridge_base)
    unfolding veth_ipv4net
    veth_ipv4net_lem s h =
        let (b, p, q, r, t) = bridge_net_lem in
        let (n, p', q', r') = L.new_ipv4net_ok (bridge_base + s.listen_port) 16 (omega arith) in
        let sum : X.saturating_add (X.ipv4_network b) s.listen_port ≡ bridge_base + s.listen_port =
          L.saturating_add_lem (X.ipv4_network b) s.listen_port ∙ rw t (omega arith) in
        (n, rw (p, sum, r, p'), q', r', L.ipv4_network_lem n ∙ rw (q', r') (omega arith))
