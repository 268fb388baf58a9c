-- ===== src/Gateway/Kernel/Networks.antt =====
-- `apply_network` of src/gateway.rs brings a network into place, and leaves the networks on other ports in
-- place.
use fractalnetworks_gateway.Base.{◌≡◌, ◌≢◌, refl, true, inl, inr, some, List, [], ◌∷◌, map, All}
use fractalnetworks_gateway.Base.Text.{Text}
use fractalnetworks_gateway.Base.Result.{ok, ◌>>◌}
use fractalnetworks_gateway.Base.Frames.{bind_ok}
use fractalnetworks_gateway.Base.Word.{Build}
use fractalnetworks_gateway.Base.Split.{lacks, carriage_return}
use fractalnetworks_gateway.Crates.{Crates}
use fractalnetworks_gateway.Client.Config.{NetworkState}
use fractalnetworks_gateway.Types.Names.{netns_name, wgif_name, veth_name, names_injective}
use fractalnetworks_gateway.Types.Ports.{PortConfig}
use fractalnetworks_gateway.System.{System}
use fractalnetworks_gateway.Gateway.Iptables.{clean_iptables, apply_forwarding}
use fractalnetworks_gateway.Gateway.Iptables.Cleaning.{Replaces}
use fractalnetworks_gateway.Gateway.Interfaces.{bridge_interface, apply_addr}
use fractalnetworks_gateway.Gateway.Network.{
  apply_netns, apply_wireguard, apply_veth, apply_network,
}
use fractalnetworks_gateway.Gateway.Kernel.{
  Fact, namespace, address, mtu, master, rules, Agrees, Kernel,
}
use fractalnetworks_gateway.Gateway.Kernel.Facts.{Ready, facts_of}
use fractalnetworks_gateway.Gateway.Kernel.Keeping.{
  Keeps, Keeps-bind, Keeps-apply_veth, Keeps-apply_wireguard, Keeps-apply_forwarding,
  Keeps-apply_network,
}
use fractalnetworks_gateway.Gateway.Kernel.Making.{
  Makes, Makes-here, Makes-later, Makes-read, ensured, Makes-readable, Makes-addresses,
}
use fractalnetworks_gateway.Gateway.Kernel.Wireguard.{
  Makes-wireguard, Makes-wireguard_mtu, Makes-wireguard_up, made_with_addresses,
}
use fractalnetworks_gateway.Gateway.Kernel.Veth.{
  Makes-veth, Makes-veth_address, Makes-veth_master, Makes-inner_up, Makes-outer_up, veth_known,
  rules_known, Makes-rules,
}

module _ {X : Crates} {S : System X} (K : Kernel S) (b : Build) (n : NetworkState X) where
  open K use {steady}

  Makes-netns : Makes S (namespace (netns_name n)) (apply_netns S n)
  unfolding apply_netns
  Makes-netns = Makes-read _ _ (steady.reads-netns_exists (netns_name n)) (λ exists w h c p.
      ensured exists (S.netns_add (netns_name n)) (K.add_netns (netns_name n)) w (λ e. rw e at h) c
        p)

  module _ (g : Fact X) (no_rules : (t : Text) → Agrees (rules (netns_name n) t) g) where
    in_veth : Makes S g (apply_veth S n) → Makes S g (apply_network S b n)
    unfolding apply_network
    in_veth h = Makes-later _ _ (λ _.
        Makes-later _ _ (λ _. Makes-here _ _ h (λ _. Keeps-apply_forwarding K g b n no_rules)))

    module _ (no_master : Agrees (master (veth_name n) bridge_interface) g) where
      Keeps-after : Keeps S g (apply_veth S n >> apply_forwarding S b n)
      Keeps-after =
          Keeps-bind _ _ (Keeps-apply_veth K g n no_master)
            (λ _. Keeps-apply_forwarding K g b n no_rules)

      in_wireguard : Makes S g (apply_wireguard S n) → Makes S g (apply_network S b n)
      unfolding apply_network
      in_wireguard h = Makes-later _ _ (λ _. Makes-here _ _ h (λ _. Keeps-after))

      in_netns :
          Agrees (mtu (some (netns_name n)) (wgif_name n) n.mtu) g
          → Makes S g (apply_netns S n)
          → Makes S g (apply_network S b n)
      unfolding apply_network
      in_netns m h =
          Makes-here _ _ h (λ _. Keeps-bind _ _ (Keeps-apply_wireguard K g n m) (λ _. Keeps-after))

  in_forwarding :
      (g : Fact X) → Makes S g (apply_forwarding S b n) → Makes S g (apply_network S b n)
  unfolding apply_network
  in_forwarding g h = Makes-later _ _ (λ _. Makes-later _ _ (λ _. Makes-later _ _ (λ _. h)))

  made_addresses :
      (l : List X.IpNet)
      → All (λ a. Makes S (address (some (netns_name n)) (wgif_name n) a) (apply_wireguard S n)) l
      → All
          (λ g. Makes S g (apply_network S b n))
          (map (address (some (netns_name n)) (wgif_name n)) l)
  made_addresses [] h = tt
  made_addresses (a ∷ l) (h, hs) = (in_wireguard _ (λ t. tt) tt h, made_addresses l hs)

  with_addresses :
      (l : List X.IpNet)
      → All
          (λ a.
            Makes S
              (address (some (netns_name n)) (wgif_name n) a)
              (apply_addr S (some (netns_name n)) (wgif_name n) n.address))
          l
      → All (λ a. Makes S (address (some (netns_name n)) (wgif_name n) a) (apply_wireguard S n)) l
  with_addresses [] h = tt
  with_addresses (a ∷ l) (h, hs) = (made_with_addresses K n _ h, with_addresses l hs)

  pub Makes-facts :
      (R : Replaces S.replace_counter) (r : Ready S b n)
      → K.saved_form (clean_iptables S.replace_counter r.rendered)
      → All (λ g. Makes S g (apply_network S b n)) (facts_of S b n r)
  Makes-facts R r form =
      let netns = some (netns_name n) in
      let wgif = wgif_name n in
      (
        in_netns _ (λ t. tt) tt tt Makes-netns,
        (
          in_wireguard _ (λ t. tt) tt (Makes-wireguard K n),
          (
            in_wireguard _ (λ t. tt) tt (Makes-wireguard_up K n),
            (
              in_wireguard _ (λ t. tt) tt (Makes-wireguard_mtu K n),
              (
                in_wireguard _ (λ t. tt) tt
                    (made_with_addresses K n _ (Makes-readable K netns wgif n.address)),
                (
                  in_veth _ (λ t. tt) (Makes-veth K n),
                  (
                    in_veth _ (λ t. tt) (Makes-veth_address K n r.net r.net_ok),
                    (
                      in_veth _ (λ t. tt) (Makes-veth_master K n r.net r.net_ok),
                      (
                        in_veth _ (λ t. tt) (Makes-inner_up K n r.net r.net_ok),
                        (
                          in_veth _ (λ t. tt) (Makes-outer_up K n r.net r.net_ok),
                          (
                            in_forwarding _ (
                                Makes-rules K n b R r.config r.rendered r.config_ok r.rendered_ok
                                  r.clean form),
                            made_addresses n.address
                                (with_addresses n.address (Makes-addresses K netns wgif n.address)),
                          ),
                        ),
                      ),
                    ),
                  ),
                ),
              ),
            ),
          ),
        ),
      )

  -- What a network returned with.
  pub ready_network :
      ((config : PortConfig) (t : Text)
        → S.render_iptables config ≡ ok t
        → (lacks carriage_return t ≡ true) × K.saved_form (clean_iptables S.replace_counter t))
      → (w : S.World) (u : Unit {0}) → (apply_network S b n w).0 ≡ ok u
      → Ready S b n
  unfolding apply_network
  ready_network plain w u p =
      let (_, _, q, _) =
        bind_ok (apply_netns S n)
          (λ _. apply_wireguard S n >> (apply_veth S n >> apply_forwarding S b n)) w u p in
      let w₁ = (apply_netns S n w).1 in
      let (_, _, q', _) =
        bind_ok (apply_wireguard S n) (λ _. apply_veth S n >> apply_forwarding S b n) w₁ u q in
      let w₂ = (apply_wireguard S n w₁).1 in
      let (v, h, h', _) = bind_ok (apply_veth S n) (λ _. apply_forwarding S b n) w₂ u q' in
      let (net, e) = veth_known K n w₂ v h in
      let (config, rendered, c, c') = rules_known K n b (apply_veth S n w₂).1 u h' in
      record {
        net = net;
        net_ok = e;
        config = config;
        config_ok = c;
        rendered = rendered;
        rendered_ok = c';
        clean = (plain config rendered c').0;
      }

  -- A fact of a network on another port is kept.
  module _ (other : NetworkState X) (apart : other.listen_port ≢ n.listen_port) where
    Keeps-fact :
        (g : Fact X)
        → Agrees (mtu (some (netns_name other)) (wgif_name other) other.mtu) g
        → Agrees (master (veth_name other) bridge_interface) g
        → ((t : Text) → Agrees (rules (netns_name other) t) g)
        → Keeps S g (apply_network S b other)
    Keeps-fact g = Keeps-apply_network K g b other

    Keeps-addresses :
        (l : List X.IpNet)
        → All
            (λ g. Keeps S g (apply_network S b other))
            (map (address (some (netns_name n)) (wgif_name n)) l)
    Keeps-addresses [] = tt
    Keeps-addresses (a ∷ l) = (Keeps-fact _ tt tt (λ t. tt), Keeps-addresses l)

    pub Keeps-facts :
        (r : Ready S b n) → All (λ g. Keeps S g (apply_network S b other)) (facts_of S b n r)
    Keeps-facts r =
        let any_rules : (t : Text) → Unit {0} = λ t. tt in
        let names = names_injective other n in
        (
          Keeps-fact _ tt tt any_rules,
          (
            Keeps-fact _ tt tt any_rules,
            (
              Keeps-fact _ tt tt any_rules,
              (
                Keeps-fact _ (λ o i. absurd (apart (names (inr (inl i))))) tt any_rules,
                (
                  Keeps-fact _ tt tt any_rules,
                  (
                    Keeps-fact _ tt tt any_rules,
                    (
                      Keeps-fact _ tt tt any_rules,
                      (
                        Keeps-fact _ tt (λ i. refl) any_rules,
                        (
                          Keeps-fact _ tt tt any_rules,
                          (
                            Keeps-fact _ tt tt any_rules,
                            (
                              Keeps-fact _ tt tt (λ t o. absurd (apart (names (inl o)))),
                              Keeps-addresses n.address,
                            ),
                          ),
                        ),
                      ),
                    ),
                  ),
                ),
              ),
            ),
          ),
        )
