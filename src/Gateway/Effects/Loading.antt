-- ===== src/Gateway/Effects/Loading.antt =====
-- After an `apply` of src/gateway.rs that returned, each WireGuard interface runs with the configuration of
-- its network, and NGINX with the tables of all networks.
use mathlib.Core.Path.{subst}
use fractalnetworks_gateway.Base.{
  ◌≡◌, sym, ap, ◌∙◌, Option, some, List, [], ◌∷◌, ◌++◌, map, All, inl,
}
use fractalnetworks_gateway.Base.Text.{Text, text}
use fractalnetworks_gateway.Base.Result.{ok, Call, pure, context, ◌>>=◌, ◌>>◌}
use fractalnetworks_gateway.Base.Frames.{Frames-bind, Frames-context, bind_ok}
use fractalnetworks_gateway.Base.Word.{Build}
use fractalnetworks_gateway.Crates.{Crates}
use fractalnetworks_gateway.Client.Config.{NetworkState}
use fractalnetworks_gateway.Types.Names.{netns_name, wgif_name, names_injective}
use fractalnetworks_gateway.Types.Wireguard.{to_config}
use fractalnetworks_gateway.Types.Stats.{NetnsItem}
use fractalnetworks_gateway.System.{System}
use fractalnetworks_gateway.Gateway.Interfaces.{apply_addr}
use fractalnetworks_gateway.Gateway.Network.{apply_wireguard, apply_network}
use fractalnetworks_gateway.Gateway.Nginx.{CustomForwarding, apply_nginx}
use fractalnetworks_gateway.Gateway.Apply.{
  apply_networks, create_bridge, apply_world, delete_surplus, difference, to_set, names_of,
}
use fractalnetworks_gateway.Gateway.Kernel.Placed.{IsApart, AllApart}
use fractalnetworks_gateway.Gateway.Effects.Serving.{
  Leaves, Leaves-later, Leaves-context, Leaves-here, IsServed, nginx-IsServed,
}
use fractalnetworks_gateway.Gateway.Effects.{
  Effects, addr-Frames, device, device_veth, device_forwarding, device_network, device_nginx,
}

module _ {X : Crates} {S : System X} (E : Effects S) where
  -- The interface of the network was last synchronised with the network's configuration.
  abbrev pub IsConfigured : S.World → NetworkState X → Type 0
  IsConfigured w n = E.devices w (netns_name n) (wgif_name n) ≡ some (to_config n)

  abbrev of_network : NetworkState X → S.World → Option Text
  of_network n = device E (netns_name n) (wgif_name n)

  module _ (n : NetworkState X) where
    abbrev path : Text
    path = text "wireguard/" ++ (wgif_name n ++ text ".conf")

    abbrev addr_step : Call S.World (Unit {0})
    addr_step =
        context (text "Applying wireguard interface addresses")
          (apply_addr S (some (netns_name n)) (wgif_name n) n.address)

    abbrev sync_step : Call S.World (Unit {0})
    sync_step = S.wireguard_syncconf (netns_name n) (wgif_name n)

    write_then_sync :
        Leaves
          (λ w. of_network n w ≡ some (to_config n))
          (S.netns_write_file (netns_name n) path (to_config n) >> (addr_step >> sync_step))
    write_then_sync = record {
      leaves = λ w u p.
          let write = S.netns_write_file (netns_name n) path (to_config n) in
          let (_, q, p₁, r₁) = bind_ok write (λ _. addr_step >> sync_step) w u p in
          let w₁ = (write w).1 in
          let (_, _, p₂, r₂) = bind_ok addr_step (λ _. sync_step) w₁ u p₁ in
          let kept =
            (Frames-context (text "Applying wireguard interface addresses") _ (
                addr-Frames S (λ v. E.files v (netns_name n) path)
                  (E.files-addr_list (netns_name n) path) (E.files-addr_add (netns_name n) path)
                  (some (netns_name n)) (wgif_name n) n.address)).frame
              w₁ in
          ap (of_network n) (r₁ ∙ r₂)
          ∙ E.synced (netns_name n) (wgif_name n) (addr_step w₁).1 p₂
          ∙ kept
          ∙ E.written (netns_name n) path (to_config n) w q;
    }

    wireguard_configures : Leaves (λ w. of_network n w ≡ some (to_config n)) (apply_wireguard S n)
    unfolding apply_wireguard
    wireguard_configures = Leaves-later _ _ (λ exists. Leaves-later _ _ (λ _.
        Leaves-later _ _ (λ status.
          Leaves-later _ _ (λ m. Leaves-later _ _ (λ _. Leaves-later _ _ (λ _. write_then_sync))))))

    network_configures :
        (b : Build) → Leaves (λ w. of_network n w ≡ some (to_config n)) (apply_network S b n)
    unfolding apply_network
    network_configures b = Leaves-later _ _ (λ _. Leaves-here _ _ wireguard_configures (λ _.
        Frames-bind _ _ (device_veth E (netns_name n) (wgif_name n) n)
          (λ _. device_forwarding E (netns_name n) (wgif_name n) b n)))

  module _ (b : Build) where
    later-IsConfigured :
        (n : NetworkState X) (networks : List (NetworkState X))
        → IsApart n networks
        → (w : S.World) (u : Unit {0}) → (apply_networks S b networks w).0 ≡ ok u
        → IsConfigured w n
        → IsConfigured (apply_networks S b networks w).1 n
    unfolding apply_networks pure
    later-IsConfigured n [] apart w u p h = h
    later-IsConfigured n (m ∷ networks) (first, apart) w u p h =
        let (_, _, q, r) = bind_ok (apply_network S b m) (λ _. apply_networks S b networks) w u p in
        let frame =
          (device_network E (netns_name n) (wgif_name n) m
              (λ e. first (names_injective m n (inl (sym e)))) b).frame
            w in
        ap (of_network n) r
        ∙ later-IsConfigured n networks apart (apply_network S b m w).1 u q (frame ∙ h)

    networks-IsConfigured :
        (networks : List (NetworkState X))
        → AllApart networks
        → (w : S.World) (u : Unit {0}) → (apply_networks S b networks w).0 ≡ ok u
        → All (IsConfigured (apply_networks S b networks w).1) networks
    unfolding apply_networks
    networks-IsConfigured [] apart w u p = tt
    networks-IsConfigured (n ∷ networks) (apart, rest) w u p =
        let (v, q, q', r) =
          bind_ok (apply_network S b n) (λ _. apply_networks S b networks) w u p in
        let w₁ = (apply_network S b n w).1 in
        subst (λ w'. All (IsConfigured w') (n ∷ networks)) (sym r)
          (
            later-IsConfigured n networks apart w₁ u q' ((network_configures n b).leaves w v q),
            networks-IsConfigured networks rest w₁ u q',
          )

    module _ (networks : List (NetworkState X)) (custom : CustomForwarding X) where
      abbrev nginx : Call S.World (Unit {0})
      nginx = context (text "Applying nginx configuration") (apply_nginx S b networks custom)

      nginx-IsConfigured :
          (l : List (NetworkState X)) (w : S.World)
          → All (IsConfigured w) l
          → All (IsConfigured (nginx w).1) l
      nginx-IsConfigured [] w h = tt
      nginx-IsConfigured (n ∷ l) w (h, hs) = (
        (Frames-context (text "Applying nginx configuration") _
                (device_nginx E (netns_name n) (wgif_name n) b networks custom)).frame
              w
            ∙ h,
        nginx-IsConfigured l w hs,
      )

      abbrev after_list : List NetnsItem → Call S.World (Unit {0})
      after_list items = do
        delete_surplus S (difference (to_set (names_of S items)) (to_set (map netns_name networks)))
        apply_networks S b networks
        nginx

      -- What `apply` leaves of the configurations of WireGuard and NGINX.
      pub loaded_world :
          AllApart networks
          → (w : S.World) → (apply_world S b custom networks w).0 ≡ ok tt
          → All (IsConfigured (apply_world S b custom networks w).1) networks
            × IsServed E b networks custom (apply_world S b custom networks w).1
      unfolding apply_world
      loaded_world apart w p =
          let (_, _, q₁, r₁) =
            bind_ok (create_bridge S) (λ _. S.netns_list >>= after_list) w tt p in
          let w₁ = (create_bridge S w).1 in
          let (items, _, q₂, r₂) = bind_ok S.netns_list after_list w₁ tt q₁ in
          let w₂ = (S.netns_list w₁).1 in
          let gone =
            delete_surplus S
              (difference (to_set (names_of S items)) (to_set (map netns_name networks))) in
          let (_, _, q₃, r₃) = bind_ok gone (λ _. apply_networks S b networks >> nginx) w₂ tt q₂ in
          let w₃ = (gone w₂).1 in
          let (_, h, q₄, r₄) = bind_ok (apply_networks S b networks) (λ _. nginx) w₃ tt q₃ in
          let w₄ = (apply_networks S b networks w₃).1 in
          subst (λ w'. All (IsConfigured w') networks × IsServed E b networks custom w')
            (sym (r₁ ∙ r₂ ∙ r₃ ∙ r₄))
            (
              nginx-IsConfigured networks w₄ (networks-IsConfigured networks apart w₃ tt h),
              (Leaves-context (text "Applying nginx configuration") _
                    (nginx-IsServed E b networks custom)).leaves
                  w₄ tt q₄,
            )
