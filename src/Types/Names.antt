-- ===== src/Types/Names.antt =====
-- The names of src/types.rs (`netns_name`, `wgif_name`, `veth_name`) and the one that src/watchdog.rs
-- derives from a namespace.
use fractalnetworks_gateway.Base.{ℕ, zero, suc, ◌≡◌, refl, ◌⊎◌, inl, inr, true, [], ◌∷◌, ◌++◌}
use fractalnetworks_gateway.Base.Text.{
  Text, text, show, starts_with, starts_with-append, append-show-injective,
}
use fractalnetworks_gateway.Crates.{Crates}
use fractalnetworks_gateway.Client.Config.{NetworkState}

abbrev pub netns_prefix : Text
netns_prefix = text "network-"

abbrev pub veth_prefix : Text
veth_prefix = text "veth"

abbrev pub wireguard_prefix : Text
wireguard_prefix = text "wg"

-- `format!("{NETNS_PREFIX}{port}")`
unfoldable pub netns_of_port : ℕ → Text
netns_of_port port = netns_prefix ++ show port

-- `&s[n..]` of an ASCII text that is long enough
abbrev pub skip : ℕ → Text → Text
skip zero s = s
skip (suc n) [] = []
skip (suc n) (c ∷ s) = skip n s

-- `format!("wg{}", &netns[8..])` of `watchdog_netns`
unfoldable pub wgif_of_netns : Text → Text
wgif_of_netns netns = text "wg" ++ skip 8 netns

module _ {X : Crates} where
  unfoldable pub netns_name : NetworkState X → Text
  unfolding netns_of_port
  netns_name self = netns_of_port self.listen_port

  unfoldable pub wgif_name : NetworkState X → Text
  wgif_name self = wireguard_prefix ++ show self.listen_port

  unfoldable pub veth_name : NetworkState X → Text
  veth_name self = veth_prefix ++ show self.listen_port

  -- The namespace of a network has the gateway's prefix, so that the watchdog visits it, and the
  -- interface name that the watchdog derives from it is that of the network's WireGuard interface.
  pub wgif_of_netns-netns_name :
      (n : NetworkState X)
      → (starts_with (netns_name n) netns_prefix ≡ true)
        × (wgif_of_netns (netns_name n) ≡ wgif_name n)
  unfolding netns_name wgif_of_netns wgif_name
  wgif_of_netns-netns_name n = (starts_with-append netns_prefix (show n.listen_port), refl)

  -- Two networks of which the namespaces, the WireGuard interfaces or the veth interfaces have the
  -- same name are on the same port.
  pub names_injective :
      (m n : NetworkState X)
      → ((netns_name m ≡ netns_name n) ⊎ (wgif_name m ≡ wgif_name n) ⊎ (veth_name m ≡ veth_name n))
      → m.listen_port ≡ n.listen_port
  unfolding netns_name wgif_name veth_name
  names_injective m n (inl h) = append-show-injective netns_prefix m.listen_port n.listen_port h
  names_injective m n (inr (inl h)) =
      append-show-injective wireguard_prefix m.listen_port n.listen_port h
  names_injective m n (inr (inr h)) =
      append-show-injective veth_prefix m.listen_port n.listen_port h
