-- ===== src/Integration/Generate.antt =====
-- `generate_config` and `generate_partial_config` of integration/src/main.rs.
pub mod Fitting
use fractalnetworks_gateway.Base.{ℕ, zero, suc, ◌+◌, ◌%◌, none, some, Option, List, [], ◌∷◌}
use fractalnetworks_gateway.Base.Text.{Text, text}
use fractalnetworks_gateway.Base.Result.{
  Result, ok, err, panic, bind_result, unwrap, Call, pure, lift, ◌>>=◌, ◌>>◌,
}
use fractalnetworks_gateway.Base.Map.{Map, insert}
use fractalnetworks_gateway.Base.Orders.{nat_order}
use fractalnetworks_gateway.Base.Word.{Build, add_u32, u32_size}
use fractalnetworks_gateway.Crates.{Crates, IpAddr, v4, v6}
use fractalnetworks_gateway.Client.Config.{
  NetworkState, PeerState, GatewayConfig, GatewayConfigPartial,
}
use fractalnetworks_gateway.System.{System}
use fractalnetworks_gateway.Integration.{Tools}

abbrev pub port_range_start : ℕ
port_range_start = 50000

abbrev pub port_range_end : ℕ
port_range_end = 60000

abbrev pub network_mtu : ℕ
network_mtu = 1420

-- `Result::unwrap`
abbrev pub expect : {A : Type 0} → Result A → Result A
expect (ok a) = ok a
expect (err e) = panic
expect panic = panic

module _ {X : Crates} {S : System X} (T : Tools S) where
  -- The random numbers, and the private keys of the peers by their public keys.
  pub record Generator : Type 0 where
    pub rng : T.Rng
    pub peer_keys : Map X.Pubkey X.Privkey

  abbrev pub draw : {A : Type 0} → Call T.Rng A → Call Generator A
  draw m g = let (r, rng) = m g.rng in (r, record g { rng = rng })

  abbrev pub generate_key : Call Generator X.Privkey
  generate_key g = let (k, rng) = T.generate g.rng in (ok k, record g { rng = rng })

  abbrev pub store_key : X.Privkey → Call Generator (Unit {0})
  store_key privkey g = (
    ok tt,
    record g { peer_keys = insert ⦃o = X.pubkey_order⦄ (T.pubkey privkey) privkey g.peer_keys },
  )

  -- Lines 59 to 62.
  abbrev pub peer_addr : Build → IpAddr → ℕ → Result IpAddr
  peer_addr b (v4 a) n =
      bind_result (add_u32 b 1 (n % u32_size)) λ m. ok (v4 (X.saturating_add a m))
  peer_addr b (v6 a) n = ok (v6 (T.saturating_add_v6 a (1 + n)))

  abbrev pub peer_net : Build → X.IpNet → ℕ → Result X.IpNet
  peer_net b address n =
      bind_result (peer_addr b (X.net_addr address) n) λ a. unwrap (T.new_net a 32)

  abbrev pub own_address : Result X.IpNet
  own_address = expect (X.parse_net (text "10.0.0.1/8"))

  -- The inner loop, from peer `n` on.
  unfoldable pub peers_loop :
      Build
      → X.IpNet
      → ℕ
      → ℕ
      → Map X.Pubkey (PeerState X)
      → Call Generator (Map X.Pubkey (PeerState X))
  peers_loop b address n zero peers = pure peers
  peers_loop b address n (suc left) peers = do
    net ← lift (peer_net b address n)
    privkey ← generate_key
    store_key privkey
    peers_loop b address (suc n) left (
        insert ⦃o = X.pubkey_order⦄ (T.pubkey privkey)
          (record { preshared_key = none; allowed_ips = net ∷ []; endpoint = none }) peers)

  -- The outer loop.
  unfoldable pub networks_loop :
      Build → ℕ → ℕ → ℕ → GatewayConfig X → Call Generator (GatewayConfig X)
  networks_loop b zero lo hi config = pure config
  networks_loop b (suc size) lo hi config = do
    port ← draw (T.gen_range port_range_start port_range_end)
    count ← draw (T.gen_range lo hi)
    address ← lift own_address
    privkey ← generate_key
    listed ← lift own_address
    peers ← peers_loop b address 0 count []
    networks_loop b size lo hi (
        insert port
          (record {
            private_key = privkey;
            listen_port = port;
            mtu = network_mtu;
            address = listed ∷ [];
            peers = peers;
            proxy = [];
          })
          config)

  unfoldable pub generate_config : Build → ℕ → ℕ → ℕ → Call Generator (GatewayConfig X)
  generate_config b size lo hi = networks_loop b size lo hi []

  -- The networks that are added.
  unfoldable pub list_added : GatewayConfig X → GatewayConfigPartial X → GatewayConfigPartial X
  list_added [] config = config
  list_added ((port, network) ∷ added) config = list_added added (insert port (some network) config)

  -- The ports whose networks are removed.
  unfoldable pub list_removed : List ℕ → GatewayConfigPartial X → GatewayConfigPartial X
  list_removed [] config = config
  list_removed (port ∷ ports) config = list_removed ports (insert port none config)

  unfoldable pub generate_partial_config :
      Build → ℕ → ℕ → ℕ → ℕ → List ℕ → Call Generator (GatewayConfigPartial X)
  generate_partial_config b add_count remove_count lo hi existing = do
    added ← generate_config b add_count lo hi
    chosen ← draw (T.choose_multiple existing remove_count)
    pure (list_removed chosen (list_added added []))
