-- ===== src/Integration/Verify.antt =====
-- `ping_host`, `verify_config` and `verify_old_config` of integration/src/main.rs: for every peer a
-- namespace joins the network as that peer and pings the gateway. The two functions differ only in
-- what they make of the ping.
pub mod Cleanup
use fractalnetworks_gateway.Base.{
  ℕ, Bool, true, false, Option, none, some, List, [], ◌∷◌, ◌++◌, if◌then◌else◌,
}
use fractalnetworks_gateway.Base.Text.{Text, text, show, newline}
use fractalnetworks_gateway.Base.Split.{join}
use fractalnetworks_gateway.Base.Result.{
  Result, ok, err, panic, bind_result, ok_or, unwrap, Call, pure, lift, ◌>>=◌, ◌>>◌,
}
use fractalnetworks_gateway.Base.Map.{Map, get}
use fractalnetworks_gateway.Crates.{Crates, IpAddr, v4, v6}
use fractalnetworks_gateway.Client.Config.{NetworkState, PeerState, GatewayConfig}
use fractalnetworks_gateway.System.{System}
use fractalnetworks_gateway.Integration.{Tools}

-- `[0]`
abbrev pub at_first : {A : Type 0} → List A → Result A
at_first [] = panic
at_first (a ∷ later) = ok a

module _ {X : Crates} {S : System X} (T : Tools S) where
  -- The error is told without the output of the command.
  unfoldable pub ping_host : Text → IpAddr → Call S.World (Unit {0})
  ping_host netns host = do
    success ← T.succeeds (text "ip") (
        text "netns"
        ∷ text "exec"
        ∷ netns
        ∷ text "ping"
        ∷ text "-f"
        ∷ text "-c"
        ∷ text "4"
        ∷ text "-W"
        ∷ text "0.1"
        ∷ T.show_addr host
        ∷ [])
    if success
        then pure tt
        else lift
            (err ((text "Error pinging " ++ (T.show_addr host ++ (text " in " ++ netns))) ∷ []))

  -- `network-{port}-{pubkey}`
  unfoldable pub test_netns : ℕ → X.Pubkey → Text
  test_netns port pubkey = text "network-" ++ (show port ++ (text "-" ++ T.to_hex pubkey))

  abbrev pub wide_net : ℕ → Result X.IpNet
  wide_net a =
      bind_result (ok_or (X.new_ipv4net a 8) (text "invalid prefix length" ∷ []))
        λ n. ok (X.from_ipv4net n)

  abbrev pub addr_of : IpAddr → Result X.IpNet
  addr_of (v4 a) = wide_net a
  addr_of (v6 a) = panic

  module _ (gateway : IpAddr) (peer_keys : Map X.Pubkey X.Privkey) where
    -- The text of the configuration file.
    abbrev pub peer_config : ℕ → NetworkState X → X.Privkey → X.IpNet → Text
    peer_config port network privkey address = join (newline ∷ []) (
        text "[Interface]"
        ∷ (text "PrivateKey = " ++ X.show_privkey privkey)
        ∷ []
        ∷ text "[Peer]"
        ∷ (text "PublicKey = " ++ X.show_pubkey (T.pubkey network.private_key))
        ∷ (text "Endpoint = " ++ (T.show_addr gateway ++ (text ":" ++ show port)))
        ∷ (text "AllowedIPs = " ++ X.show_net address)
        ∷ text "PersistentKeepalive = 25"
        ∷ [])

    -- What follows `netns_add`, up to the ping.
    unfoldable pub join_network :
        Text → ℕ → NetworkState X → X.Pubkey → PeerState X → Call S.World (Unit {0})
    join_network netns port network pubkey peer = do
      S.wireguard_create (some netns) (text "wg0")
      S.interface_up (some netns) (text "wg0")
      allowed ← lift (at_first peer.allowed_ips)
      addr ← lift (addr_of (X.net_addr allowed))
      S.addr_add (some netns) (text "wg0") addr
      privkey ← lift (unwrap (get ⦃o = X.pubkey_order⦄ pubkey peer_keys))
      address ← lift (at_first network.address)
      S.netns_write_file netns (text "wireguard/wg0.conf")
          (peer_config port network privkey address)
      S.wireguard_syncconf netns (text "wg0")

    unfoldable pub ping_gateway : Text → NetworkState X → Call S.World (Unit {0})
    ping_gateway netns network = do
      address ← lift (at_first network.address)
      ping_host netns (X.net_addr address)

    -- Lines 261 to 284.
    unfoldable pub verify_peer :
        ℕ → NetworkState X → X.Pubkey → PeerState X → Call S.World (Unit {0})
    verify_peer port network pubkey peer = do
      let netns = test_netns port pubkey
      S.netns_add netns
      join_network netns port network pubkey peer
      ping_gateway netns network
      S.netns_del netns

    -- Lines 319 to 322: a network that answers is an error.
    abbrev pub unreachable : Result (Unit {0}) → Result (Unit {0})
    unreachable (ok u) = err (text "Network is reachable" ∷ [])
    unreachable (err e) = ok tt
    unreachable panic = panic

    abbrev pub inverted : Call S.World (Unit {0}) → Call S.World (Unit {0})
    inverted m w = let (r, w') = m w in (unreachable r, w')

    -- `address[0]` is not part of the ping that may fail.
    unfoldable pub ping_old_gateway : Text → NetworkState X → Call S.World (Unit {0})
    ping_old_gateway netns network = do
      address ← lift (at_first network.address)
      inverted (ping_host netns (X.net_addr address))

    -- Lines 297 to 323.
    unfoldable pub verify_old_peer :
        ℕ → NetworkState X → X.Pubkey → PeerState X → Call S.World (Unit {0})
    verify_old_peer port network pubkey peer = do
      let netns = test_netns port pubkey
      S.netns_add netns
      join_network netns port network pubkey peer
      ping_old_gateway netns network
      S.netns_del netns

    unfoldable pub verify_peers :
        ℕ → NetworkState X → Map X.Pubkey (PeerState X) → Call S.World (Unit {0})
    verify_peers port network [] = pure tt
    verify_peers port network ((pubkey, peer) ∷ peers) = do
      verify_peer port network pubkey peer
      verify_peers port network peers

    unfoldable pub verify_config : GatewayConfig X → Call S.World (Unit {0})
    verify_config [] = pure tt
    verify_config ((port, network) ∷ config) = do
      verify_peers port network network.peers
      verify_config config

    unfoldable pub verify_old_peers :
        ℕ → NetworkState X → Map X.Pubkey (PeerState X) → Call S.World (Unit {0})
    verify_old_peers port network [] = pure tt
    verify_old_peers port network ((pubkey, peer) ∷ peers) = do
      verify_old_peer port network pubkey peer
      verify_old_peers port network peers

    unfoldable pub verify_old_config : GatewayConfig X → Call S.World (Unit {0})
    verify_old_config [] = pure tt
    verify_old_config ((port, network) ∷ config) = do
      verify_old_peers port network network.peers
      verify_old_config config
