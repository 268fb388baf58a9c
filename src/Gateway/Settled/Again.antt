-- ===== src/Gateway/Settled/Again.antt =====
-- `apply` of src/gateway.rs where all networks are in place already.
use mathlib.Core.Path.{subst}
use fractalnetworks_gateway.Base.{
  ◌≡◌, refl, sym, ap, ◌∙◌, true, none, some, [], ◌∷◌, ◌++◌, ◌==◌, if◌then◌else◌, arith,
}
use fractalnetworks_gateway.Base.Text.{text, eq_iff}
use fractalnetworks_gateway.Base.Result.{
  Result, ok, err, panic, Call, pure, lift, context, continue, ok_or, ◌>>=◌, ◌>>◌,
}
use fractalnetworks_gateway.Base.Frames.{Frames, Frames-bind}
use fractalnetworks_gateway.Base.Word.{Build}
use fractalnetworks_gateway.Crates.{Crates}
use fractalnetworks_gateway.Client.Config.{NetworkState}
use fractalnetworks_gateway.Types.Names.{netns_name, wgif_name, veth_name}
use fractalnetworks_gateway.Types.Bridge.{veth_ipv4net}
use fractalnetworks_gateway.Types.Ports.{port_config}
use fractalnetworks_gateway.Types.Wireguard.{to_config}
use fractalnetworks_gateway.System.{System}
use fractalnetworks_gateway.Gateway.Iptables.{apply_forwarding}
use fractalnetworks_gateway.Gateway.Interfaces.{bridge_interface, apply_addr}
use fractalnetworks_gateway.Gateway.Network.{
  apply_netns, apply_wireguard, apply_veth, apply_network,
}
use fractalnetworks_gateway.Gateway.Settled.{
  view, Steady, HasAddresses, Settled, bind_answer, bind_quiet, context_quiet, quiet-apply_addr,
  quiet-apply_interface_up, quiet-apply_link_master,
}

module _ {W A B : Type 0} where
  same_continue :
      (r : Result A) (w : W) (k l : A → Call W B)
      → ((a : A) → r ≡ ok a → k a w ≡ l a w)
      → continue r k w ≡ continue r l w
  same_continue (ok a) w k l h = h a refl
  same_continue (err e) w k l h = refl
  same_continue panic w k l h = refl

  -- What follows is only run where the call returned.
  pub bind_same :
      (m : Call W A) (k l : A → Call W B) (w : W)
      → ((a : A) → (m w).0 ≡ ok a → k a (m w).1 ≡ l a (m w).1)
      → (m >>= k) w ≡ (m >>= l) w
  unfolding ◌>>=◌
  bind_same m k l w h = same_continue (m w).0 (m w).1 k l h

  -- Two calls that do the same in a world.
  pub bind_instead :
      (m m' : Call W A) (k : A → Call W B) (w : W) → m w ≡ m' w → (m >>= k) w ≡ (m' >>= k) w
  unfolding ◌>>=◌
  bind_instead m m' k w h = ap (λ (r : Result A × W). continue r.0 k r.1) h

module _ {W : Type 0} where
  continue-pure : (r : Result (Unit {0})) (w : W) → continue r (λ _. pure tt) w ≡ (r, w)
  unfolding pure
  continue-pure (ok u) w = refl
  continue-pure (err e) w = refl
  continue-pure panic w = refl

  -- A call whose rest does nothing.
  bind_idle :
      (m : Call W (Unit {0})) (k : Call W (Unit {0})) (w : W)
      → k (m w).1 ≡ (ok tt, (m w).1)
      → (m >>= λ _. k) w ≡ m w
  unfolding ◌>>=◌
  bind_idle m k w h =
      same_continue (m w).0 (m w).1 (λ _. k) (λ _. pure tt) (λ a e. unfold pure in h)
      ∙ continue-pure (m w).0 (m w).1

module _ {X : Crates} (S : System X) where
  -- What is left to do for a network: its WireGuard configuration is written and synchronised.
  unfoldable pub rewrite_wireguard : NetworkState X → Call S.World (Unit {0})
  rewrite_wireguard n = do
    S.netns_write_file (netns_name n) (text "wireguard/" ++ (wgif_name n ++ text ".conf"))
        (to_config n)
    S.wireguard_syncconf (netns_name n) (wgif_name n)

module _ {X : Crates} {S : System X} (T : Steady S) where
  pub rewrite_wireguard-Frames : (n : NetworkState X) → Frames (view S) (rewrite_wireguard S n)
  unfolding rewrite_wireguard
  rewrite_wireguard-Frames n =
      Frames-bind _ _ (T.keeps-netns_write_file _ _ _)
        (λ _. T.keeps-wireguard_syncconf (netns_name n) (wgif_name n))

  module _ (b : Build) (n : NetworkState X) where
    quiet-apply_netns : (w : S.World) → Settled S b n (view S w) → apply_netns S n w ≡ (ok tt, w)
    unfolding apply_netns pure
    quiet-apply_netns w h =
        bind_answer (S.netns_exists (netns_name n)) _ w true h.namespace
          (T.reads-netns_exists (netns_name n) w)

    quiet-apply_forwarding :
        (w : S.World) → Settled S b n (view S w) → apply_forwarding S b n w ≡ (ok tt, w)
    unfolding apply_forwarding lift pure
    quiet-apply_forwarding w h =
        bind_answer (lift (port_config b n)) _ w h.config h.config_ok refl
        ∙ bind_answer (lift (S.render_iptables h.config)) _ w h.rendered h.rendered_ok refl
        ∙ bind_answer (S.iptables_save (some (netns_name n))) _ w h.saved h.saved_ok
            (T.reads-iptables_save (some (netns_name n)) w)
        ∙ rw ((eq_iff _ _).1 h.same_rules) refl

    quiet-apply_veth : (w : S.World) → Settled S b n (view S w) → apply_veth S n w ≡ (ok tt, w)
    unfolding apply_veth lift pure
    quiet-apply_veth w h =
        let netns = netns_name n in
        let veth = veth_name n in
        bind_answer (S.veth_exists netns veth) _ w true h.veth (T.reads-veth_exists netns veth w)
        ∙ bind_quiet (pure tt) _ w tt refl
        ∙ bind_answer (lift (veth_ipv4net X n)) _ w h.veth_net h.veth_net_ok refl
        ∙ bind_quiet (context (text "Applying veth addr") _) _ w tt (
            context_quiet _ _ w tt (
              quiet-apply_addr T w (some netns) veth (X.from_ipv4net h.veth_net ∷ [])
                h.veth_address))
        ∙ bind_quiet (context (text "Setting veth master") _) _ w tt (
            context_quiet _ _ w tt
              (quiet-apply_link_master T w none veth bridge_interface h.master))
        ∙ bind_quiet (context (text "Making inner veth interface UP") _) _ w tt
            (context_quiet _ _ w tt (quiet-apply_interface_up T w (some netns) veth h.inner_up))
        ∙ context_quiet _ _ w tt (quiet-apply_interface_up T w none veth h.outer_up)

    -- Between writing and synchronising, the addresses are there.
    quiet_addresses :
        (w w' : S.World)
        → view S w' ≡ view S w
        → Settled S b n (view S w)
        → (context
                (text "Applying wireguard interface addresses")
                (apply_addr S (some (netns_name n)) (wgif_name n) n.address)
              >>= λ _. S.wireguard_syncconf (netns_name n) (wgif_name n))
            w'
          ≡ S.wireguard_syncconf (netns_name n) (wgif_name n) w'
    quiet_addresses w w' e h =
        bind_quiet (context (text "Applying wireguard interface addresses") _) _ w' tt (
          context_quiet _ _ w' tt (
            quiet-apply_addr T w' (some (netns_name n)) (wgif_name n) n.address (
              subst (λ v. HasAddresses S v (some (netns_name n)) (wgif_name n) n.address) (sym e)
                h.addresses)))

    apply_wireguard-Settled :
        (w : S.World) → Settled S b n (view S w) → apply_wireguard S n w ≡ rewrite_wireguard S n w
    unfolding apply_wireguard rewrite_wireguard lift pure
    apply_wireguard-Settled w h =
        let netns = netns_name n in
        let wgif = wgif_name n in
        let write =
          S.netns_write_file netns (text "wireguard/" ++ (wgif ++ text ".conf")) (to_config n) in
        bind_answer (S.wireguard_exists netns wgif) _ w true h.wireguard
          (T.reads-wireguard_exists netns wgif w)
        ∙ bind_quiet (pure tt) _ w tt refl
        ∙ bind_answer (S.interface_show (some netns) wgif) _ w h.wireguard_up.status
            h.wireguard_up.shown (T.reads-interface_show (some netns) wgif w)
        ∙ bind_answer
            (lift (ok_or h.wireguard_up.status.mtu (text "Missing MTU for WireGuard network" ∷ [])))
            _ w n.mtu (rw h.mtu refl) refl
        ∙ bind_quiet (if n.mtu == n.mtu then pure tt else S.interface_mtu (some netns) wgif n.mtu) _
            w tt (ground arith)
        ∙ bind_quiet (context (text "Setting wireguard interface UP") _) _ w tt
            (context_quiet _ _ w tt (quiet-apply_interface_up T w (some netns) wgif h.wireguard_up))
        ∙ bind_same write _ _ w
            (λ a e. quiet_addresses w (write w).1 ((T.keeps-netns_write_file _ _ _).frame w) h)

    -- Applying a network that is in place only writes its WireGuard configuration and synchronises it.
    pub apply_network-Settled :
        (w : S.World) → Settled S b n (view S w) → apply_network S b n w ≡ rewrite_wireguard S n w
    unfolding apply_network
    apply_network-Settled w h =
        let w' = (rewrite_wireguard S n w).1 in
        let h' = subst (Settled S b n) (sym ((rewrite_wireguard-Frames n).frame w)) h in
        bind_quiet (apply_netns S n) _ w tt (quiet-apply_netns w h)
        ∙ bind_instead (apply_wireguard S n) (rewrite_wireguard S n) _ w
            (apply_wireguard-Settled w h)
        ∙ bind_idle (rewrite_wireguard S n) (apply_veth S n >>= λ _. apply_forwarding S b n) w (
            bind_quiet (apply_veth S n) _ w' tt (quiet-apply_veth w' h')
            ∙ quiet-apply_forwarding w' h')
