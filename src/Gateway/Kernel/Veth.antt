-- ===== src/Gateway/Kernel/Veth.antt =====
-- What `apply_veth` and `apply_forwarding` of src/gateway.rs bring into place.
use fractalnetworks_gateway.Base.{◌≡◌, true, not, none, some, List, [], ◌∷◌, if◌then◌else◌, arith}
use fractalnetworks_gateway.Base.Text.{Text, text, eq, eq_iff}
use fractalnetworks_gateway.Base.Result.{ok, Call, pure, lift, context, ◌>>=◌, ◌>>◌}
use fractalnetworks_gateway.Base.Frames.{bind_ok}
use fractalnetworks_gateway.Base.Word.{Build}
use fractalnetworks_gateway.Crates.{Crates}
use fractalnetworks_gateway.Client.Config.{NetworkState}
use fractalnetworks_gateway.Types.Names.{netns_name, veth_name}
use fractalnetworks_gateway.Types.Bridge.{veth_ipv4net}
use fractalnetworks_gateway.Types.Ports.{PortConfig, port_config}
use fractalnetworks_gateway.Base.Split.{lacks, carriage_return}
use fractalnetworks_gateway.Gateway.Iptables.{clean_iptables, apply_forwarding}
use fractalnetworks_gateway.Gateway.Iptables.Cleaning.{Replaces, return-clean}
use fractalnetworks_gateway.Gateway.Iptables.Rules.{Shown-clean}
use fractalnetworks_gateway.System.{System}
use fractalnetworks_gateway.Gateway.Interfaces.{
  bridge_interface, apply_addr, apply_interface_up, apply_link_master,
}
use fractalnetworks_gateway.Gateway.Network.{apply_veth}
use fractalnetworks_gateway.Gateway.Kernel.{
  Fact, veth, readable, address, up, master, rules, Agrees, Kernel,
}
use fractalnetworks_gateway.Gateway.Kernel.Keeping.{
  Keeps, Keeps-bind, Keeps-lift, Keeps-context, Keeps-apply_addr, Keeps-apply_interface_up,
  Keeps-apply_link_master,
}
use fractalnetworks_gateway.Gateway.Kernel.Making.{
  Makes, Makes-lift, Makes-context, Makes-here, Makes-later, Makes-read, ensured_made, ensured_then,
  Makes-readable, Makes-addresses, Makes-apply_interface_up, Makes-apply_link_master,
}

module _ {X : Crates} {S : System X} (K : Kernel S) (n : NetworkState X) where
  open K use {steady}

  abbrev netns : Text
  netns = netns_name n

  abbrev veth_if : Text
  veth_if = veth_name n

  abbrev links_step : Call S.World (Unit {0})
  links_step = do
    context (text "Setting veth master") (apply_link_master S none veth_if bridge_interface)
    context (text "Making inner veth interface UP") (apply_interface_up S (some netns) veth_if)
    context (text "Marking outer veth interface UP") (apply_interface_up S none veth_if)

  Keeps-ups :
      (g : Fact X)
      → Keeps S g (
          context
            (text "Making inner veth interface UP")
            (apply_interface_up S (some netns) veth_if)
          >> context (text "Marking outer veth interface UP") (apply_interface_up S none veth_if))
  Keeps-ups g =
      Keeps-bind _ _ (Keeps-context _ _ (Keeps-apply_interface_up K g (some netns) veth_if))
        (λ _. Keeps-context _ _ (Keeps-apply_interface_up K g none veth_if))

  Keeps-links_step :
      (g : Fact X) → Agrees (master veth_if bridge_interface) g → Keeps S g links_step
  Keeps-links_step g a =
      Keeps-bind _ _ (Keeps-context _ _ (Keeps-apply_link_master K g veth_if bridge_interface a))
        (λ _. Keeps-ups g)

  -- The facts about the veth pair, for the address that the network has.
  module _ (net : X.Ipv4Net) (known : veth_ipv4net X n ≡ ok net) where
    abbrev own : List X.IpNet
    own = X.from_ipv4net net ∷ []

    -- The address of the pair is computed, and then its steps follow.
    abbrev pair_step : Call S.World (Unit {0})
    pair_step = do
      context (text "Applying veth addr") (apply_addr S (some netns) veth_if own)
      links_step

    Makes-known :
        (g : Fact X)
        → Makes S g pair_step
        → Makes S g (
            lift (veth_ipv4net X n) >>= λ addr.
            (context
                (text "Applying veth addr")
                (apply_addr S (some netns) veth_if (X.from_ipv4net addr ∷ []))
              >> links_step))
    Makes-known g h = Makes-lift _ _ net known h

    made_in_veth : (g : Fact X) → Makes S g pair_step → Makes S g (apply_veth S n)
    unfolding apply_veth
    made_in_veth g h = Makes-later _ _ (λ exists. Makes-later _ _ (λ _. Makes-known g h))

    pub Makes-veth_readable : Makes S (readable (some netns) veth_if) (apply_veth S n)
    Makes-veth_readable = made_in_veth _ (
        Makes-here _ _ (Makes-context _ _ (Makes-readable K (some netns) veth_if own))
          (λ _. Keeps-links_step _ tt))

    pub Makes-veth_address :
        Makes S (address (some netns) veth_if (X.from_ipv4net net)) (apply_veth S n)
    Makes-veth_address = made_in_veth _ (
        Makes-here _ _ (Makes-context _ _ (Makes-addresses K (some netns) veth_if own).0)
          (λ _. Keeps-links_step _ tt))

    pub Makes-veth_master : Makes S (master veth_if bridge_interface) (apply_veth S n)
    Makes-veth_master = made_in_veth _ (
        Makes-later _ _ (λ _.
          Makes-here _ _ (Makes-context _ _ (Makes-apply_link_master K veth_if bridge_interface))
            (λ _. Keeps-ups _)))

    pub Makes-inner_up : Makes S (up (some netns) veth_if) (apply_veth S n)
    Makes-inner_up = made_in_veth _ (
        Makes-later _ _ (λ _. Makes-later _ _ (λ _.
          Makes-here _ _ (Makes-context _ _ (Makes-apply_interface_up K (some netns) veth_if))
            (λ _. Keeps-context _ _ (Keeps-apply_interface_up K _ none veth_if)))))

    pub Makes-outer_up : Makes S (up none veth_if) (apply_veth S n)
    Makes-outer_up = made_in_veth _ (
        Makes-later _ _ (λ _. Makes-later _ _ (λ _.
          Makes-later _ _ (λ _. Makes-context _ _ (Makes-apply_interface_up K none veth_if)))))

  -- The steps once the pair exists.
  abbrev after_add : Call S.World (Unit {0})
  after_add = lift (veth_ipv4net X n) >>= λ addr.
      (context (text "Applying veth addr")
          (apply_addr S (some netns) veth_if (X.from_ipv4net addr ∷ []))
        >> links_step)

  pub Makes-veth : Makes S (veth netns veth_if) (apply_veth S n)
  unfolding apply_veth
  Makes-veth = Makes-read _ _ (steady.reads-veth_exists netns veth_if) (λ exists w h c p.
      ensured_then exists (S.veth_add netns veth_if veth_if) after_add (K.add_veth netns veth_if)
        (Keeps-bind _ _ (Keeps-lift _) (λ addr.
          Keeps-bind _ _ (Keeps-context _ _ (Keeps-apply_addr K _ (some netns) veth_if _))
            (λ _. Keeps-links_step _ tt)))
        w (λ e. rw e at h) c p)

  -- Where `apply_veth` returned, the address of the pair is known.
  pub veth_known :
      (w : S.World) (u : Unit {0})
      → (apply_veth S n w).0 ≡ ok u
      → (net : X.Ipv4Net) × (veth_ipv4net X n ≡ ok net)
  unfolding apply_veth lift
  veth_known w u p =
      let (exists, _, q, _) =
        bind_ok (S.veth_exists netns veth_if)
          (λ exists. (if exists then pure tt else S.veth_add netns veth_if veth_if) >> after_add) w
          u p in
      let step : Call S.World (Unit {0}) =
        if exists then pure tt else S.veth_add netns veth_if veth_if in
      let w₁ = (S.veth_exists netns veth_if w).1 in
      let (_, _, q', _) = bind_ok step (λ _. after_add) w₁ u q in
      let (net, e, _, _) = bind_ok (lift (veth_ipv4net X n)) _ (step w₁).1 u q' in (net, e)

  module _ (b : Build) where
    -- Where `apply_forwarding` returned, the rules were rendered.
    pub rules_known :
        (w : S.World) (u : Unit {0})
        → (apply_forwarding S b n w).0 ≡ ok u
        → (config : PortConfig) × (rendered : Text) × (port_config b n ≡ ok config)
          × (S.render_iptables config ≡ ok rendered)
    unfolding apply_forwarding lift
    rules_known w u p =
        let (config, e, q, _) = bind_ok (lift (port_config b n)) _ w u p in
        let (rendered, e', _, _) = bind_ok (lift (S.render_iptables config)) _ w u q in
        (config, rendered, e, e')

    pub Makes-rules :
        (R : Replaces S.replace_counter) (config : PortConfig) (rendered : Text)
        → port_config b n ≡ ok config
        → S.render_iptables config ≡ ok rendered
        → lacks carriage_return rendered ≡ true
        → K.saved_form (clean_iptables S.replace_counter rendered)
        → Makes S (rules netns (clean_iptables S.replace_counter rendered)) (apply_forwarding S b n)
    unfolding apply_forwarding
    Makes-rules R config rendered e e' h form =
        let savefile = clean_iptables S.replace_counter rendered in
        let plain = return-clean S.replace_counter R rendered h in
        Makes-lift _ _ config e (
          Makes-lift _ _ rendered e' (
            Makes-read _ _ (steady.reads-iptables_save (some netns)) (λ current w q c p.
              let cleaned = clean_iptables S.replace_counter current in
              ensured_made S (rules netns savefile) (not (eq savefile cleaned))
                (S.iptables_restore (some netns) savefile) w
                (λ done. K.restored netns savefile w form done)
                (λ d. (
                  current,
                  q,
                  Shown-clean S.replace_counter R current savefile
                      ((eq_iff savefile cleaned).0 (ground (arith, d))) plain,
                ))
                c p)))
