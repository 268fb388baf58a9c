-- ===== src/Gateway/Settled/Twice.antt =====
-- `apply` of src/gateway.rs where everything that it reads back is in place already.
use mathlib.Core.Path.{subst}
use fractalnetworks_gateway.Base.{
  ◌≡◌, refl, sym, ap, ◌∙◌, true, false, none, any, List, [], ◌∷◌, map, All, arith, inl, inr,
  Bool-cases,
}
use fractalnetworks_gateway.Base.Text.{Text, text, starts_with}
use fractalnetworks_gateway.Base.Result.{ok, Result, Call, pure, lift, context, ◌>>=◌, ◌>>◌}
use fractalnetworks_gateway.Base.Word.{Build}
use fractalnetworks_gateway.Crates.{Crates}
use fractalnetworks_gateway.Client.Config.{NetworkState, GatewayConfig}
use fractalnetworks_gateway.Types.Names.{netns_prefix, netns_name}
use fractalnetworks_gateway.Types.Bridge.{bridge_net}
use fractalnetworks_gateway.Types.Stats.{NetnsItem}
use fractalnetworks_gateway.System.{System}
use fractalnetworks_gateway.Gateway.Interfaces.{bridge_interface, apply_bridge}
use fractalnetworks_gateway.Gateway.Network.{apply_network}
use fractalnetworks_gateway.Gateway.Nginx.{CustomForwarding, apply_nginx}
use fractalnetworks_gateway.Gateway.Apply.{
  Gateway, apply, apply_networks, apply_world, create_bridge, delete_surplus, difference, names_of,
  networks_of, on_world, to_set,
}
use fractalnetworks_gateway.Gateway.Settled.{
  View, view, Steady, HasAddresses, IsUp, Settled, bind_answer, bind_quiet, context_quiet,
  quiet-apply_addr, quiet-apply_interface_up,
}
use fractalnetworks_gateway.Gateway.Settled.Again.{
  bind_same, bind_instead, rewrite_wireguard, rewrite_wireguard-Frames, apply_network-Settled,
}

-- The bridge is there, every network is in place, and no other namespace has the gateway's prefix: all that
-- `apply` reads back. What WireGuard and NGINX run with it does not read; that is in Gateway/Effects.
pub record InPlace {X : Crates} (S : System X) (b : Build) (networks : List (NetworkState X))
    (v : View X) : Type 0 where
  pub bridge : v.bridge_exists none bridge_interface ≡ ok true
  pub net : X.Ipv4Net
  pub net_ok : bridge_net X ≡ ok net
  pub bridge_address : HasAddresses S v none bridge_interface (X.from_ipv4net net ∷ [])
  pub bridge_up : IsUp v none bridge_interface
  pub items : List NetnsItem
  pub listed : v.netns_list ≡ ok items
  pub no_surplus :
      any
        (λ n. starts_with n netns_prefix)
        (difference (to_set (names_of S items)) (to_set (map netns_name networks)))
      ≡ false
  pub settled : All (λ n. Settled S b n v) networks

module _ {X : Crates} (S : System X) where
  unfoldable pub rewrite_all : List (NetworkState X) → Call S.World (Unit {0})
  rewrite_all [] = pure tt
  rewrite_all (n ∷ networks) = do rewrite_wireguard S n; rewrite_all networks

module _ {X : Crates} {S : System X} (T : Steady S) (b : Build) where
  apply_networks-Settled :
      (networks : List (NetworkState X)) (w : S.World)
      → All (λ n. Settled S b n (view S w)) networks
      → apply_networks S b networks w ≡ rewrite_all S networks w
  unfolding apply_networks rewrite_all
  apply_networks-Settled [] w h = refl
  apply_networks-Settled (n ∷ networks) w (h, hs) =
      bind_instead (apply_network S b n) (rewrite_wireguard S n) (λ _. apply_networks S b networks)
        w (apply_network-Settled T b n w h)
      ∙ bind_same (rewrite_wireguard S n) (λ _. apply_networks S b networks)
          (λ _. rewrite_all S networks) w
          (λ a e. apply_networks-Settled networks (rewrite_wireguard S n w).1 (
            subst (λ v. All (λ m. Settled S b m v) networks)
              (sym ((rewrite_wireguard-Frames T n).frame w)) hs))

  quiet-delete_surplus :
      (names : List Text) (w : S.World)
      → any (λ n. starts_with n netns_prefix) names ≡ false
      → delete_surplus S names w ≡ (ok tt, w)
  unfolding delete_surplus ◌>>=◌
  quiet-delete_surplus [] w h = refl
  quiet-delete_surplus (n ∷ names) w h = elim (Bool-cases (starts_with n netns_prefix)) [
    | inl p ↦ absurd (ground (arith, p, h))
    | inr p ↦ rw p (quiet-delete_surplus names w (ground (arith, p, h)))
  ]

  quiet-create_bridge :
      (networks : List (NetworkState X)) (w : S.World)
      → InPlace S b networks (view S w)
      → create_bridge S w ≡ (ok tt, w)
  unfolding create_bridge apply_bridge lift pure
  quiet-create_bridge networks w h =
      bind_answer (lift (bridge_net X)) _ w h.net h.net_ok refl
      ∙ context_quiet (text "Creating bridge interface") _ w tt (
          bind_answer (S.bridge_exists none bridge_interface) _ w true h.bridge
            (T.reads-bridge_exists none bridge_interface w)
          ∙ bind_quiet (pure tt) _ w tt refl
          ∙ bind_quiet (context (text "Setting up bridge interface") _) _ w tt (
              context_quiet _ _ w tt (
                quiet-apply_addr T w none bridge_interface (X.from_ipv4net h.net ∷ [])
                  h.bridge_address))
          ∙ context_quiet _ _ w tt (quiet-apply_interface_up T w none bridge_interface h.bridge_up))

  -- If reading calls change nothing, and neither a written WireGuard file nor its synchronisation
  -- shows in what they read, then to apply a configuration that is in place (again) only writes
  -- and synchronises the WireGuard configuration of each network, and then writes and reloads that
  -- of NGINX: no namespace, interface, address or rule is made, changed or removed.
  pub apply-InPlace :
      (custom : CustomForwarding X) (config : GatewayConfig X) (g : Gateway S)
      → InPlace S b (networks_of config) (view S g.world)
      → apply S b custom config g
        ≡ on_world S
            (rewrite_all S (networks_of config)
              >> context
                  (text "Applying nginx configuration")
                  (apply_nginx S b (networks_of config) custom))
            (record g { config = config })
  unfolding apply apply_world on_world
  apply-InPlace custom config g h =
      let w = g.world in
      let networks = networks_of config in
      let surplus = difference (to_set (names_of S h.items)) (to_set (map netns_name networks)) in
      ap (λ (r : Result (Unit {0}) × S.World). (r.0, record g { config = config; world = r.1 }))
        (bind_quiet (create_bridge S) _ w tt (quiet-create_bridge networks w h)
          ∙ bind_answer S.netns_list _ w h.items h.listed (T.reads-netns_list w)
          ∙ bind_quiet (delete_surplus S surplus) _ w tt
              (quiet-delete_surplus surplus w h.no_surplus)
          ∙ bind_instead (apply_networks S b networks) (rewrite_all S networks) _ w
              (apply_networks-Settled networks w h.settled))
