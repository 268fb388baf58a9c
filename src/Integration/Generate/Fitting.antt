-- ===== src/Integration/Generate/Fitting.antt =====
-- What the generated configurations of integration/src/main.rs hold.
use fractalnetworks_gateway.Base.{
  ℕ, zero, suc, ◌+◌, ◌%◌, ◌≤◌, ◌<◌, ◌≡◌, refl, sym, none, some, [], ◌∷◌, All, length, arith, inl,
  inr, Bool-cases,
}
use fractalnetworks_gateway.Base.Result.{ok, pure, lift, ◌>>=◌}
use fractalnetworks_gateway.Base.Map.{Map, get, insert, same}
use fractalnetworks_gateway.Base.Map.Laws.{
  get-insert, insert-All, length-insert, same→eq, same_refl,
}
use fractalnetworks_gateway.Base.Orders.{nat_order}
use fractalnetworks_gateway.Base.Word.{Build, add_u32_small, u32_size}
use fractalnetworks_gateway.Crates.{Crates, v4}
use fractalnetworks_gateway.Client.Config.{NetworkState, PeerState, GatewayConfig}
use fractalnetworks_gateway.System.{System}
use fractalnetworks_gateway.Integration.{Tools, IsFair}
use fractalnetworks_gateway.Integration.Generate.{
  Generator, network_mtu, peer_net, port_range_start, port_range_end, peers_loop, networks_loop,
  generate_config,
}

module _ {X : Crates} {S : System X} (T : Tools S) where
  -- The private key of the peer is kept.
  abbrev pub HasKey : Map X.Pubkey X.Privkey → X.Pubkey → Type 0
  HasKey keys k = (p : X.Privkey) × (get ⦃o = X.pubkey_order⦄ k keys ≡ some p) × (T.pubkey p ≡ k)

  -- A peer has one address and a known private key.
  abbrev pub IsGoodPeer : Map X.Pubkey X.Privkey → X.Pubkey × PeerState X → Type 0
  IsGoodPeer keys (k, peer) = HasKey keys k × ((a : X.IpNet) × (peer.allowed_ips ≡ a ∷ []))

  -- A network stands under its own port, which is in the range, with one address, and at most `most`
  -- good peers.
  abbrev pub IsFit : ℕ → Map X.Pubkey X.Privkey → ℕ × NetworkState X → Type 0
  IsFit hi keys (port, n) =
      (n.listen_port ≡ port)
      × (port_range_start ≤ port)
      × (port < port_range_end)
      × (n.mtu ≡ network_mtu)
      × ((a : X.IpNet) × (n.address ≡ a ∷ []))
      × (length n.peers < hi)
      × All (IsGoodPeer keys) n.peers

  -- Every key that was kept is kept.
  abbrev Grows : Map X.Pubkey X.Privkey → Map X.Pubkey X.Privkey → Type 0
  Grows keys keys' = (k : X.Pubkey) → HasKey keys k → HasKey keys' k

  store-Grows :
      (keys : Map X.Pubkey X.Privkey) (p : X.Privkey)
      → Grows keys (insert ⦃o = X.pubkey_order⦄ (T.pubkey p) p keys)
  store-Grows keys p k (q, h, e) = elim (Bool-cases (same ⦃o = X.pubkey_order⦄ k (T.pubkey p))) [
    | inl s ↦ (
      p,
      rw (get-insert ⦃o = X.pubkey_order⦄ k (T.pubkey p) p keys, s) refl,
      sym (same→eq ⦃o = X.pubkey_order⦄ k (T.pubkey p) s),
    )
    | inr s ↦ (q, rw (get-insert ⦃o = X.pubkey_order⦄ k (T.pubkey p) p keys, s) h, e)
  ]

  peers_grow :
      (keys keys' : Map X.Pubkey X.Privkey) (peers : Map X.Pubkey (PeerState X))
      → Grows keys keys'
      → All (IsGoodPeer keys) peers
      → All (IsGoodPeer keys') peers
  peers_grow keys keys' [] g h = tt
  peers_grow keys keys' ((k, peer) ∷ peers) g ((h, a), hs) =
      ((g k h, a), peers_grow keys keys' peers g hs)

  networks_grow :
      (hi : ℕ) (keys keys' : Map X.Pubkey X.Privkey) (config : GatewayConfig X)
      → Grows keys keys'
      → All (IsFit hi keys) config
      → All (IsFit hi keys') config
  networks_grow hi keys keys' [] g h = tt
  networks_grow hi keys keys' ((port, n) ∷ config) g ((p, l, u, m, a, few, ps), hs) = (
    (p, l, u, m, a, few, peers_grow keys keys' n.peers g ps),
    networks_grow hi keys keys' config g hs,
  )

  stored-HasKey :
      (keys : Map X.Pubkey X.Privkey) (p : X.Privkey)
      → HasKey (insert ⦃o = X.pubkey_order⦄ (T.pubkey p) p keys) (T.pubkey p)
  stored-HasKey keys p = (
    p,
    rw
        (
          get-insert ⦃o = X.pubkey_order⦄ (T.pubkey p) (T.pubkey p) p keys,
          same_refl ⦃o = X.pubkey_order⦄ (T.pubkey p),
        )
        refl,
    refl,
  )

  module _ (F : IsFair T) (b : Build) where
    -- A peer's address is made for every number of a `u32`.
    peer_net_ok :
        (address : X.IpNet) (a n : ℕ)
        → X.net_addr address ≡ v4 a
        → 1 + n < u32_size
        → (net : X.IpNet) × (peer_net T b address n ≡ ok net)
    peer_net_ok address a n e h =
        let small : n % u32_size ≡ n = omega arith in
        let (net, p) = F.new_net_v4 (X.saturating_add a (1 + n)) in
        (net, rw (e, small, add_u32_small b 1 n h, p) refl)

    -- The inner loop returns, with as many peers at most as it has rounds.
    peers_loop_fits :
        (address : X.IpNet) (a : ℕ)
        → X.net_addr address ≡ v4 a
        → (n left : ℕ) (peers : Map X.Pubkey (PeerState X)) (g : Generator T) → n + left < u32_size
        → All (IsGoodPeer g.peer_keys) peers
        → (peers' : Map X.Pubkey (PeerState X)) × (g' : Generator T) × (peers_loop T b address n
              left peers g
            ≡ (ok peers', g'))
          × All (IsGoodPeer g'.peer_keys) peers'
          × (length peers' ≤ length peers + left)
          × Grows g.peer_keys g'.peer_keys
    unfolding peers_loop pure lift ◌>>=◌
    peers_loop_fits address a e n zero peers g h good =
        (peers, g, refl, good, omega arith, λ k p. p)
    peers_loop_fits address a e n (suc left) peers g h good =
        let (net, p) = peer_net_ok address a n e (omega arith) in
        let (privkey, rng) = T.generate g.rng in
        let k = T.pubkey privkey in
        let keys = insert ⦃o = X.pubkey_order⦄ k privkey g.peer_keys in
        let peer : PeerState X = record {
          preshared_key = none;
          allowed_ips = net ∷ [];
          endpoint = none;
        } in
        let peers₁ = insert ⦃o = X.pubkey_order⦄ k peer peers in
        let grows = store-Grows g.peer_keys privkey in
        let good₁ =
          insert-All ⦃o = X.pubkey_order⦄ (IsGoodPeer keys) k peer peers
            (stored-HasKey g.peer_keys privkey, (net, refl))
            (peers_grow g.peer_keys keys peers grows good) in
        let (peers', g', q, good', few, grows') =
          peers_loop_fits address a e (suc n) left peers₁ (record { rng = rng; peer_keys = keys })
            (omega arith) good₁ in
        (
          peers',
          g',
          rw p q,
          good',
          omega (arith, few, length-insert ⦃o = X.pubkey_order⦄ k peer peers),
          λ j r. grows' j (grows j r),
        )

    networks_loop_fits :
        (size lo hi : ℕ) (config : GatewayConfig X) (g : Generator T)
        → lo < hi
        → hi ≤ u32_size
        → All (IsFit hi g.peer_keys) config
        → (config' : GatewayConfig X) × (g' : Generator T) × (networks_loop T b size lo hi config g
            ≡ (ok config', g'))
          × All (IsFit hi g'.peer_keys) config'
          × (length config' ≤ length config + size)
    unfolding networks_loop pure lift ◌>>=◌
    networks_loop_fits zero lo hi config g h k fits = (config, g, refl, fits, omega arith)
    networks_loop_fits (suc size) lo hi config g h k fits =
        let (port, r₁, p₁, low, high) =
          F.gen_range_lem port_range_start port_range_end g.rng (omega arith) in
        let (count, r₂, p₂, _, few) = F.gen_range_lem lo hi r₁ h in
        let (net, a, p, e) = F.own_net in
        let (privkey, r₃) = T.generate r₂ in
        let (peers, g₁, q, good, short, grows) =
          peers_loop_fits net a e 0 count [] (record { rng = r₃; peer_keys = g.peer_keys })
            (omega arith) tt in
        let n : NetworkState X = record {
          private_key = privkey;
          listen_port = port;
          mtu = network_mtu;
          address = net ∷ [];
          peers = peers;
          proxy = [];
        } in
        let (config', g', q', fits', size') =
          networks_loop_fits size lo hi (insert port n config) g₁ h k (
            insert-All (IsFit hi g₁.peer_keys) port n config
              (refl, low, high, refl, (net, refl), omega arith, good)
              (networks_grow hi g.peer_keys g₁.peer_keys config grows fits)) in
        (
          config',
          g',
          rw (p₁, p₂, p, q) q',
          fits',
          omega (arith, size', length-insert port n config),
        )

    -- If a range that is not empty yields one of its numbers and the tests' own addresses are
    -- networks, then for a range of peer numbers that is not empty and fits into 32 bits a
    -- configuration is generated without a panic. It has at most as many networks as were asked
    -- for (two may get the same port). Each is listed under its own port, which is in the range of
    -- ports, has one address and fewer peers than the end of the range, and each peer has one
    -- address and a public key whose private key is kept.
    pub generate_config-IsFit :
        (size lo hi : ℕ) (g : Generator T)
        → lo < hi
        → hi ≤ u32_size
        → (config : GatewayConfig X) × (g' : Generator T) × (generate_config T b size lo hi g
            ≡ (ok config, g'))
          × All (IsFit hi g'.peer_keys) config
          × (length config ≤ size)
    unfolding generate_config
    generate_config-IsFit size lo hi g h k =
        let (config, g', p, fits, few) = networks_loop_fits size lo hi [] g h k tt in
        (config, g', p, fits, omega arith)
