-- ===== src/Gateway/Kernel/Reaching.antt =====
-- After an `apply` of src/gateway.rs that returned, everything that it reads back is in place, and WireGuard
-- and NGINX run with the configuration.
use mathlib.Core.Path.{subst}
use fractalnetworks_gateway.Base.{
  ◌≡◌, refl, sym, ◌∙◌, Bool, true, false, not, ◌&&◌, any, none, some, List, [], ◌∷◌, map, All,
  if◌then◌else◌, arith,
}
use fractalnetworks_gateway.Base.Map.Laws.{IsSorted}
use fractalnetworks_gateway.Base.Orders.{nat_order}
use fractalnetworks_gateway.Base.Text.{Text, text, eq_iff, starts_with}
use fractalnetworks_gateway.Base.Result.{ok, Call, lift, context, ◌>>=◌, ◌>>◌}
use fractalnetworks_gateway.Base.Frames.{bind_ok}
use fractalnetworks_gateway.Base.Word.{Build}
use fractalnetworks_gateway.Crates.{Crates}
use fractalnetworks_gateway.Client.Config.{NetworkState, GatewayConfig}
use fractalnetworks_gateway.Types.Names.{netns_prefix, netns_name, wgif_name, veth_name}
use fractalnetworks_gateway.Types.Bridge.{bridge_net}
use fractalnetworks_gateway.Types.Stats.{NetnsItem}
use fractalnetworks_gateway.System.{System}
use fractalnetworks_gateway.Gateway.Iptables.Cleaning.{Replaces}
use fractalnetworks_gateway.Gateway.Interfaces.{bridge_interface, apply_bridge}
use fractalnetworks_gateway.Gateway.Namespaces.{Namespaces}
use fractalnetworks_gateway.Gateway.Effects.{Effects}
use fractalnetworks_gateway.Gateway.Effects.Serving.{IsServed}
use fractalnetworks_gateway.Gateway.Effects.Loading.{IsConfigured, loaded_world}
use fractalnetworks_gateway.Gateway.Network.{apply_network}
use fractalnetworks_gateway.Gateway.Nginx.{CustomForwarding, apply_nginx}
use fractalnetworks_gateway.Gateway.Apply.{
  Gateway, contains, to_set, difference, names_of, networks_of, delete_surplus, apply_networks,
  create_bridge, apply_world, apply, on_world,
}
use fractalnetworks_gateway.Gateway.Apply.Namespaces.{contains-surplus_of, has-apply_world}
use fractalnetworks_gateway.Gateway.Settled.{view}
use fractalnetworks_gateway.Gateway.Settled.Twice.{InPlace}
use fractalnetworks_gateway.Gateway.Kernel.{
  Fact, listing, bridge, readable, address, up, mtu, master, rules, Agrees, IsRoot, Kernel,
}
use fractalnetworks_gateway.Gateway.Kernel.Facts.{facts_of, has_addresses}
use fractalnetworks_gateway.Gateway.Kernel.Keeping.{
  Keeps, Keeps-pure, Keeps-if, Keeps-bind, Keeps-read, Keeps-context, Keeps-apply_network,
  Keeps-apply_nginx,
}
use fractalnetworks_gateway.Gateway.Kernel.Making.{
  Makes, Makes-lift, Makes-context, Makes-here, Makes-later, Makes-read, Makes-bridge,
  Makes-bridge_up, Makes-bridge_readable, Makes-bridge_address,
}
use fractalnetworks_gateway.Gateway.Kernel.Placed.{
  AllApart, Plain, Placed, facts_kept, Keeps-apply_networks, apply_networks-Placed, Placed-Settled,
  networks_apart,
}

any_none :
    (p : Text → Bool) (l : List Text)
    → ((n : Text) → contains l n ≡ true → p n ≡ false)
    → any p l ≡ false
any_none p [] h = refl
any_none p (m ∷ l) h =
    let here = h m (rw ((eq_iff m m).1 refl) refl) in
    rw here (any_none p l (λ n e. h n (ground (arith, e))))

still_surplus :
    (listed wanted ours before : Bool)
    → (listed && not wanted) ≡ true
    → listed ≡ (if ours then wanted else before)
    → ours ≡ false
still_surplus listed wanted ours before h e = ground arith

module _ {X : Crates} {S : System X} (K : Kernel S) (b : Build) (custom : CustomForwarding X)
    (networks : List (NetworkState X)) where
  open K use {steady}

  abbrev surplus : List NetnsItem → List Text
  surplus items = difference (to_set (names_of S items)) (to_set (map netns_name networks))

  abbrev nginx : Call S.World (Unit {0})
  nginx = context (text "Applying nginx configuration") (apply_nginx S b networks custom)

  abbrev after_list : List NetnsItem → Call S.World (Unit {0})
  after_list items = do delete_surplus S (surplus items); apply_networks S b networks; nginx

  Keeps-nginx : (g : Fact X) → Keeps S g nginx
  Keeps-nginx g = Keeps-context _ _ (Keeps-apply_nginx K g b networks custom)

  nginx_kept : (gs : List (Fact X)) → All (λ g. Keeps S g nginx) gs
  nginx_kept [] = tt
  nginx_kept (g ∷ gs) = (Keeps-nginx g, nginx_kept gs)

  -- A fact of the root namespace that no network has a part in.
  module _ (g : Fact X) (root : IsRoot g)
      (no_mtu : (n : NetworkState X) → Agrees (mtu (some (netns_name n)) (wgif_name n) n.mtu) g)
      (no_master : (n : NetworkState X) → Agrees (master (veth_name n) bridge_interface) g)
      (no_rules : (n : NetworkState X) (t : Text) → Agrees (rules (netns_name n) t) g) where
    Keeps-delete_surplus : (names : List Text) → Keeps S g (delete_surplus S names)
    unfolding delete_surplus
    Keeps-delete_surplus [] = Keeps-pure tt
    Keeps-delete_surplus (n ∷ names) =
        Keeps-bind _ _
          (Keeps-if (starts_with n netns_prefix) _ _
            (Keeps-context _ _ (record { keeps = λ w u h held. K.delete-keeps n w g h root held }))
            (Keeps-pure tt))
          (λ _. Keeps-delete_surplus names)

    each_kept : (l : List (NetworkState X)) → All (λ n. Keeps S g (apply_network S b n)) l
    each_kept [] = tt
    each_kept (n ∷ l) =
        (Keeps-apply_network K g b n (no_mtu n) (no_master n) (no_rules n), each_kept l)

    Keeps-after_list : (items : List NetnsItem) → Keeps S g (after_list items)
    Keeps-after_list items = Keeps-bind _ _ (Keeps-delete_surplus (surplus items)) (λ _.
        Keeps-bind _ _ (Keeps-apply_networks K b g networks (each_kept networks))
          (λ _. Keeps-nginx g))

    from_bridge :
        (net : X.Ipv4Net)
        → bridge_net X ≡ ok net
        → Makes S g (apply_bridge S bridge_interface (X.from_ipv4net net ∷ []))
        → Makes S g (apply_world S b custom networks)
    unfolding apply_world create_bridge
    from_bridge net e h =
        Makes-here _ _ (Makes-lift _ _ net e (Makes-context _ _ h))
          (λ _. Keeps-bind _ _ (Keeps-read _ steady.reads-netns_list) Keeps-after_list)

  Makes-listing : Makes S listing (apply_world S b custom networks)
  unfolding apply_world
  Makes-listing = Makes-later _ _ (λ _. Makes-read _ _ steady.reads-netns_list (λ items w h c p.
      (Keeps-after_list listing tt (λ n. tt) (λ n. tt) (λ n t. tt) items).keeps w c p (items, h)))

  bridge_known :
      (w : S.World)
      → (apply_world S b custom networks w).0 ≡ ok tt
      → (net : X.Ipv4Net) × (bridge_net X ≡ ok net)
  unfolding apply_world create_bridge lift
  bridge_known w p =
      let (_, q, _, _) = bind_ok (create_bridge S) (λ _. S.netns_list >>= after_list) w tt p in
      let (net, e, _, _) = bind_ok (lift (bridge_net X)) _ w tt q in (net, e)

  after_nginx :
      (l : List (NetworkState X)) (w : S.World)
      → (nginx w).0 ≡ ok tt
      → All (Placed S b w) l
      → All (Placed S b (nginx w).1) l
  after_nginx [] w p h = tt
  after_nginx (n ∷ l) w p (h, hs) = (
    record {
      ready = h.ready;
      facts =
          facts_kept S (facts_of S b n h.ready) nginx w tt p (nginx_kept (facts_of S b n h.ready))
            h.facts;
    },
    after_nginx l w p hs,
  )

  -- The networks, in the world that the whole ends in.
  apply_world-Placed :
      Replaces S.replace_counter
      → Plain K
      → AllApart networks
      → (w : S.World) → (apply_world S b custom networks w).0 ≡ ok tt
      → All (Placed S b (apply_world S b custom networks w).1) networks
  unfolding apply_world
  apply_world-Placed R plain apart w p =
      let (_, _, q₁, r₁) = bind_ok (create_bridge S) (λ _. S.netns_list >>= after_list) w tt p in
      let w₁ = (create_bridge S w).1 in
      let (items, _, q₂, r₂) = bind_ok S.netns_list after_list w₁ tt q₁ in
      let w₂ = (S.netns_list w₁).1 in
      let (_, _, q₃, r₃) =
        bind_ok (delete_surplus S (surplus items)) (λ _. apply_networks S b networks >> nginx) w₂ tt
          q₂ in
      let w₃ = (delete_surplus S (surplus items) w₂).1 in
      let (_, h, q₄, r₄) = bind_ok (apply_networks S b networks) (λ _. nginx) w₃ tt q₃ in
      subst (λ w'. All (Placed S b w') networks) (sym (r₁ ∙ r₂ ∙ r₃ ∙ r₄))
        (after_nginx networks _ q₄ (apply_networks-Placed K b R plain networks apart w₃ tt h))

  -- What is listed then has no surplus.
  no_surplus :
      (N : Namespaces S) (w : S.World)
      → (apply_world S b custom networks w).0 ≡ ok tt
      → (items : List NetnsItem) → (S.netns_list (apply_world S b custom networks w).1).0 ≡ ok items
      → any (λ n. starts_with n netns_prefix) (surplus items) ≡ false
  no_surplus N w p items e =
      any_none (λ n. starts_with n netns_prefix) (surplus items)
        (λ n h.
          still_surplus _ (contains (map netns_name networks) n) (starts_with n netns_prefix)
            (N.has w n) (sym (contains-surplus_of N b custom networks items n) ∙ h)
            (N.listed (apply_world S b custom networks w).1 items e n
              ∙ has-apply_world N b custom networks w p n))

module _ {X : Crates} {S : System X} (K : Kernel S) (N : Namespaces S) (E : Effects S)
    (R : Replaces S.replace_counter) (plain : Plain K) (b : Build) where
  -- If the calls of the system do what they say, rendered rules hold no carriage return and are, cleaned,
  -- in the form in which they are saved, the replacement of counters is as `clean_iptables` needs it, and
  -- the configuration has its ports in order, then after an `apply` of it that returned `ok`, whatever was
  -- there before, everything that `apply` reads back is in place: the bridge, and for each network its
  -- namespace, its interfaces with their addresses, units, states and master, and its rules; and no other
  -- namespace has the gateway's prefix. Besides, the WireGuard interface of each network was last
  -- synchronised with the file of the network's own keys, port and peers, and NGINX runs with what was
  -- rendered for all networks and the custom forwardings.
  pub apply-reaches :
      (custom : CustomForwarding X) (config : GatewayConfig X) (g : Gateway S)
      → IsSorted config
      → (apply S b custom config g).0 ≡ ok tt
      → InPlace S b (networks_of config) (view S (apply S b custom config g).1.world)
        × All (IsConfigured E (apply S b custom config g).1.world) (networks_of config)
        × IsServed E b (networks_of config) custom (apply S b custom config g).1.world
  unfolding apply on_world
  apply-reaches custom config g sorted p =
      let networks = networks_of config in
      let w = g.world in
      let (net, e) = bridge_known K b custom networks w p in
      let (items, listed) = (Makes-listing K b custom networks).makes w tt p in
      let there =
        from_bridge K b custom networks (bridge bridge_interface) tt (λ n. tt) (λ n. tt) (λ n t. tt)
          net e (Makes-bridge K bridge_interface (X.from_ipv4net net ∷ [])) in
      let is_up =
        from_bridge K b custom networks (up none bridge_interface) (refl, refl) (λ n. tt) (λ n. tt)
          (λ n t. tt) net e (Makes-bridge_up K bridge_interface (X.from_ipv4net net ∷ [])) in
      let read =
        from_bridge K b custom networks (readable none bridge_interface) (refl, refl) (λ n. tt)
          (λ n. tt) (λ n t. tt) net e
          (Makes-bridge_readable K bridge_interface (X.from_ipv4net net ∷ [])) in
      let addr =
        from_bridge K b custom networks (address none bridge_interface (X.from_ipv4net net))
          (refl, refl) (λ n. tt) (λ n. tt) (λ n t. tt) net e
          (Makes-bridge_address K bridge_interface (X.from_ipv4net net)) in
      let (loaded, served) = loaded_world E b networks custom (networks_apart config sorted) w p in
      (
        record {
          bridge = there.makes w tt p;
          net = net;
          net_ok = e;
          bridge_address =
              has_addresses S (view S (apply_world S b custom networks w).1) none bridge_interface
                (read.makes w tt p) (X.from_ipv4net net ∷ []) (addr.makes w tt p, tt);
          bridge_up = is_up.makes w tt p;
          items = items;
          listed = listed;
          no_surplus = no_surplus K b custom networks N w p items listed;
          settled =
              Placed-Settled K b R networks (apply_world S b custom networks w).1
                (apply_world-Placed K b custom networks R plain (networks_apart config sorted) w p);
        },
        loaded,
        served,
      )
