-- ===== src/Integration/Verify/Cleanup.antt =====
-- Which namespaces `verify_config` and `verify_old_config` of integration/src/main.rs leave behind.
use fractalnetworks_gateway.Base.{
  ℕ, ◌≡◌, refl, ap, ◌∙◌, Bool, true, false, any, any-append, List, [], ◌∷◌, ◌++◌, map,
  if◌then◌else◌, arith,
}
use fractalnetworks_gateway.Base.Text.{Text, eq}
use fractalnetworks_gateway.Base.Result.{ok, Call, pure, ◌>>◌}
use fractalnetworks_gateway.Base.Frames.{Frames, frame_rules, bind_ok}
use fractalnetworks_gateway.Base.Map.{Map}
use fractalnetworks_gateway.Crates.{Crates, IpAddr}
use fractalnetworks_gateway.Client.Config.{NetworkState, PeerState, GatewayConfig}
use fractalnetworks_gateway.System.{System}
use fractalnetworks_gateway.Gateway.Namespaces.{Namespaces}
use fractalnetworks_gateway.Integration.{Tools}
use fractalnetworks_gateway.Integration.Verify.{
  ping_host, test_netns, join_network, inverted, ping_gateway, ping_old_gateway, verify_peer,
  verify_old_peer, verify_peers, verify_old_peers, verify_config, verify_old_config,
}

module _ {X : Crates} {S : System X} (T : Tools S) (N : Namespaces S)
    (keeps-succeeds : (c : Text) (args : List Text) → Frames N.has (T.succeeds c args)) where
  -- Where the call returns, none of the named namespaces exists, and the others are as they were.
  abbrev Clears : Call S.World (Unit {0}) → List Text → Type 0
  Clears m names =
      (w : S.World)
      → (m w).0 ≡ ok tt
      → (n : Text) → N.has (m w).1 n ≡ (if any (eq n) names then false else N.has w n)

  Clears-pure : Clears (pure tt) []
  unfolding pure
  Clears-pure w h n = refl

  Clears-bind :
      (m k : Call S.World (Unit {0})) (names later : List Text)
      → Clears m names
      → Clears k later
      → Clears (m >> k) (names ++ later)
  Clears-bind m k names later hm hk w h n =
      let (u, p, q, r) = bind_ok m (λ _. k) w tt h in
      ap (λ s. N.has s n) r
      ∙ hk (m w).1 q n
      ∙ ground (arith, hm w p n, any-append (eq n) names later)

  -- A namespace is made, two things are done that leave the namespaces alone, and it is deleted.
  Clears-within :
      (netns : Text) (m p : Call S.World (Unit {0}))
      → Frames N.has m
      → Frames N.has p
      → Clears (S.netns_add netns >> (m >> (p >> S.netns_del netns))) (netns ∷ [])
  Clears-within netns m p f g w h n =
      let (_, a, h₁, e₁) =
        bind_ok (S.netns_add netns) (λ _. m >> (p >> S.netns_del netns)) w tt h in
      let w₁ = (S.netns_add netns w).1 in
      let (_, _, h₂, e₂) = bind_ok m (λ _. p >> S.netns_del netns) w₁ tt h₁ in
      let (_, _, h₃, e₃) = bind_ok p (λ _. S.netns_del netns) (m w₁).1 tt h₂ in
      let same = ap (λ (h : Text → Bool). h n) (g.frame (m w₁).1 ∙ f.frame w₁) in
      ap (λ s. N.has s n) (e₁ ∙ e₂ ∙ e₃)
      ∙ ground (arith, N.deleted netns (p (m w₁).1).1 h₃ n, same, N.added netns w a n)

  ping_host-Frames : (netns : Text) (host : IpAddr) → Frames N.has (ping_host T netns host)
  unfolding ping_host
  ping_host-Frames netns host = search (frame_rules, keeps-succeeds)

  inverted-Frames :
      (gateway : IpAddr) (keys : Map X.Pubkey X.Privkey) (m : Call S.World (Unit {0}))
      → Frames N.has m
      → Frames N.has (inverted T gateway keys m)
  inverted-Frames gateway keys m f = record { frame = f.frame }

  module _ (gateway : IpAddr) (keys : Map X.Pubkey X.Privkey) where
    join_network-Frames :
        (netns : Text) (port : ℕ) (network : NetworkState X) (k : X.Pubkey) (peer : PeerState X)
        → Frames N.has (join_network T gateway keys netns port network k peer)
    unfolding join_network
    join_network-Frames netns port network k peer =
        search
          (
            frame_rules, N.keeps-wireguard_create, N.keeps-up, N.keeps-addr_add, N.keeps-write,
            N.keeps-syncconf,
          )
          depth 20

    ping_gateway-Frames :
        (netns : Text) (network : NetworkState X)
        → Frames N.has (ping_gateway T gateway keys netns network)
    unfolding ping_gateway
    ping_gateway-Frames netns network = search (frame_rules, ping_host-Frames)

    ping_old_gateway-Frames :
        (netns : Text) (network : NetworkState X)
        → Frames N.has (ping_old_gateway T gateway keys netns network)
    unfolding ping_old_gateway
    ping_old_gateway-Frames netns network = search (frame_rules, ping_host-Frames, inverted-Frames)

    abbrev names_of_peers : ℕ → Map X.Pubkey (PeerState X) → List Text
    names_of_peers port peers = map (λ (k, _). test_netns T port k) peers

    -- The namespaces of the test, one for each peer.
    abbrev pub test_names : GatewayConfig X → List Text
    test_names [] = []
    test_names ((port, network) ∷ config) = names_of_peers port network.peers ++ test_names config

    peers-Clears :
        (port : ℕ) (network : NetworkState X) (peers : Map X.Pubkey (PeerState X))
        → Clears (verify_peers T gateway keys port network peers) (names_of_peers port peers)
          × Clears (verify_old_peers T gateway keys port network peers) (names_of_peers port peers)
    unfolding verify_peers verify_old_peers verify_peer verify_old_peer
    peers-Clears port network [] = (Clears-pure, Clears-pure)
    peers-Clears port network ((k, peer) ∷ peers) =
        let netns = test_netns T port k in
        let (new, old) = peers-Clears port network peers in
        let joins = join_network-Frames netns port network k peer in
        (
          Clears-bind _ _ (netns ∷ []) (names_of_peers port peers)
              (Clears-within netns _ _ joins (ping_gateway-Frames netns network)) new,
          Clears-bind _ _ (netns ∷ []) (names_of_peers port peers)
              (Clears-within netns _ _ joins (ping_old_gateway-Frames netns network)) old,
        )

    config-Clears :
        (config : GatewayConfig X)
        → Clears (verify_config T gateway keys config) (test_names config)
          × Clears (verify_old_config T gateway keys config) (test_names config)
    unfolding verify_config verify_old_config
    config-Clears [] = (Clears-pure, Clears-pure)
    config-Clears ((port, network) ∷ config) =
        let (new, old) = config-Clears config in
        let (new_peers, old_peers) = peers-Clears port network network.peers in
        (
          Clears-bind _ _ (names_of_peers port network.peers) (test_names config) new_peers new,
          Clears-bind _ _ (names_of_peers port network.peers) (test_names config) old_peers old,
        )

    -- Which of the two verifications runs.
    abbrev pub verification : Bool → GatewayConfig X → Call S.World (Unit {0})
    verification old config =
        if old then verify_old_config T gateway keys config else verify_config T gateway keys config

    -- If the calls on namespaces do what they say and no other call, a ping included, adds or
    -- removes one, then a verification that returns, of a configuration that is to be reachable or
    -- of an old one that is not, leaves none of the namespaces that it made for the peers, and
    -- every other namespace as it was.
    pub verify_config_clean :
        (old : Bool) (config : GatewayConfig X) (w : S.World) (n : Text)
        → (verification old config w).0 ≡ ok tt
        → N.has (verification old config w).1 n
          ≡ (if any (eq n) (test_names config) then false else N.has w n)
    verify_config_clean true config w n h = let (_, was) = config-Clears config in was w h n
    verify_config_clean false config w n h = let (is, _) = config-Clears config in is w h n
