-- ===== src/Gateway/Kernel/Keeping.antt =====
-- What is in place stays in place through the parts of an `apply` of src/gateway.rs.
use mathlib.Core.Path.{subst}
use fractalnetworks_gateway.Base.{
  ◌==◌, ◌≡◌, sym, Bool, true, false, Option, none, some, List, [], ◌∷◌, if◌then◌else◌,
}
use fractalnetworks_gateway.Base.Text.{Text}
use fractalnetworks_gateway.Base.Result.{Result, ok, Call, pure, lift, context, ◌>>=◌}
use fractalnetworks_gateway.Base.Frames.{Frames, bind_ok, context_ok}
use fractalnetworks_gateway.Base.Word.{Build}
use fractalnetworks_gateway.Crates.{Crates}
use fractalnetworks_gateway.Client.Config.{NetworkState}
use fractalnetworks_gateway.Types.Names.{netns_name, wgif_name, veth_name}
use fractalnetworks_gateway.System.{System}
use fractalnetworks_gateway.Gateway.Iptables.{apply_forwarding}
use fractalnetworks_gateway.Gateway.Interfaces.{
  bridge_interface, has_addr, is_other, add_missing, apply_addr, apply_interface_up,
  apply_link_master, apply_bridge,
}
use fractalnetworks_gateway.Gateway.Network.{
  apply_netns, apply_wireguard, apply_veth, apply_network,
}
use fractalnetworks_gateway.Gateway.Nginx.{CustomForwarding, apply_nginx}
use fractalnetworks_gateway.Gateway.Settled.{view}
use fractalnetworks_gateway.Gateway.Kernel.{
  Fact, mtu, master, rules, Holds, Agrees, HoldsIn, Settles, Kernel,
}

-- Where the call returns, the fact holds if it held before.
pub record Keeps {X : Crates} (S : System X) (g : Fact X) {A : Type 0} (m : Call S.World A)
    : Type 0 where
  pub keeps : (w : S.World) (a : A) → (m w).0 ≡ ok a → HoldsIn S w g → HoldsIn S (m w).1 g

module _ {X : Crates} {S : System X} {g : Fact X} where
  pub Keeps-pure : {A : Type 0} (a : A) → Keeps S g (pure {W = S.World} a)
  unfolding pure
  Keeps-pure a = record { keeps = λ w b h k. k }

  pub Keeps-lift : {A : Type 0} (r : Result A) → Keeps S g (lift {W = S.World} r)
  unfolding lift
  Keeps-lift r = record { keeps = λ w b h k. k }

  pub Keeps-context :
      {A : Type 0} (c : Text) (m : Call S.World A) → Keeps S g m → Keeps S g (context c m)
  unfolding context
  Keeps-context c m km = record { keeps = λ w a h k. km.keeps w a (context_ok c m w a h) k }

  pub Keeps-if :
      {A : Type 0} (b : Bool) (m k : Call S.World A)
      → Keeps S g m
      → Keeps S g k
      → Keeps S g (if b then m else k)
  Keeps-if true m k hm hk = hm
  Keeps-if false m k hm hk = hk

  pub Keeps-bind :
      {A B : Type 0} (m : Call S.World A) (k : A → Call S.World B)
      → Keeps S g m
      → ((a : A) → Keeps S g (k a))
      → Keeps S g (m >>= k)
  Keeps-bind m k hm hk = record {
    keeps = λ w c h held.
        let (a, p, q, r) = bind_ok m k w c h in
        subst (λ w'. HoldsIn S w' g) (sym r) ((hk a).keeps (m w).1 c q (hm.keeps w a p held));
  }

  -- A call that does not show in what is read.
  pub Keeps-Frames : {A : Type 0} (m : Call S.World A) → Frames (view S) m → Keeps S g m
  Keeps-Frames m f = record { keeps = λ w a h k. subst (λ v. Holds S v g) (sym (f.frame w)) k }

  -- A call that only reads.
  pub Keeps-read : {A : Type 0} (m : Call S.World A) → ((w : S.World) → (m w).1 ≡ w) → Keeps S g m
  Keeps-read m e = record { keeps = λ w a h k. subst (λ w'. HoldsIn S w' g) (sym (e w)) k }

  pub Keeps-Settles :
      (m : Call S.World (Unit {0})) (f : Fact X) → Settles S m f → Agrees f g → Keeps S g m
  Keeps-Settles m f s a = record { keeps = λ w u h k. s.kept w g h a k }

pub ruleset keeps_rules = (Keeps-pure, Keeps-lift, Keeps-context, Keeps-if, Keeps-bind)

module _ {X : Crates} {S : System X} (K : Kernel S) (g : Fact X) where
  open K use {steady}

  Keeps-addr_list : (o : Option Text) (i : Text) → Keeps S g (S.addr_list o i)
  Keeps-addr_list o i = Keeps-read _ (steady.reads-addr_list o i)

  Keeps-interface_show : (o : Option Text) (i : Text) → Keeps S g (S.interface_show o i)
  Keeps-interface_show o i = Keeps-read _ (steady.reads-interface_show o i)

  Keeps-interface_up : (o : Option Text) (i : Text) → Keeps S g (S.interface_up o i)
  Keeps-interface_up o i = Keeps-Settles _ _ (K.bring_up o i) tt

  pub Keeps-add_missing :
      (o : Option Text) (i : Text) (current target : List X.IpNet)
      → Keeps S g (add_missing S o i current target)
  unfolding add_missing
  Keeps-add_missing o i current [] = Keeps-pure tt
  Keeps-add_missing o i current (a ∷ target) =
      Keeps-bind _ _
        (Keeps-if (has_addr S current a) _ _ (Keeps-pure tt)
          (Keeps-Settles _ _ (K.add_addr o i a) tt))
        (λ _. Keeps-add_missing o i current target)

  pub Keeps-apply_addr :
      (o : Option Text) (i : Text) (target : List X.IpNet) → Keeps S g (apply_addr S o i target)
  unfolding apply_addr
  Keeps-apply_addr o i target = search (keeps_rules, Keeps-addr_list, Keeps-add_missing)

  pub Keeps-apply_interface_up : (o : Option Text) (i : Text) → Keeps S g (apply_interface_up S o i)
  unfolding apply_interface_up
  Keeps-apply_interface_up o i = search (keeps_rules, Keeps-interface_show, Keeps-interface_up)

  pub Keeps-apply_link_master :
      (i m : Text) → Agrees (master i m) g → Keeps S g (apply_link_master S none i m)
  unfolding apply_link_master
  Keeps-apply_link_master i m a =
      Keeps-bind _ _ (Keeps-read _ (steady.reads-link_get_master none i)) (λ current.
        Keeps-if (is_other S current m) _ _
          (Keeps-context _ _ (Keeps-Settles _ _ (K.set_master i m) a)) (Keeps-pure tt))

  pub Keeps-apply_bridge : (i : Text) (target : List X.IpNet) → Keeps S g (apply_bridge S i target)
  unfolding apply_bridge
  Keeps-apply_bridge i target =
      Keeps-bind _ _ (Keeps-read _ (steady.reads-bridge_exists none bridge_interface)) (λ exists.
        Keeps-bind _ _
          (Keeps-if exists _ _ (Keeps-pure tt)
            (Keeps-Settles _ _ (K.add_bridge bridge_interface) tt))
          (λ _. search (keeps_rules, Keeps-apply_addr, Keeps-apply_interface_up)))

  pub Keeps-apply_netns : (n : NetworkState X) → Keeps S g (apply_netns S n)
  unfolding apply_netns
  Keeps-apply_netns n =
      Keeps-bind _ _ (Keeps-read _ (steady.reads-netns_exists (netns_name n))) (λ exists.
        Keeps-if exists _ _ (Keeps-pure tt) (Keeps-Settles _ _ (K.add_netns (netns_name n)) tt))

  pub Keeps-apply_wireguard :
      (n : NetworkState X)
      → Agrees (mtu (some (netns_name n)) (wgif_name n) n.mtu) g
      → Keeps S g (apply_wireguard S n)
  unfolding apply_wireguard
  Keeps-apply_wireguard n a =
      let netns = netns_name n in
      let wgif = wgif_name n in
      Keeps-bind _ _ (Keeps-read _ (steady.reads-wireguard_exists netns wgif)) (λ exists.
        Keeps-bind _ _
          (Keeps-if exists _ _ (Keeps-pure tt)
            (Keeps-Settles _ _ (K.create_wireguard netns wgif) tt))
          (λ _. Keeps-bind _ _ (Keeps-interface_show (some netns) wgif) (λ status.
            Keeps-bind _ _ (Keeps-lift _) (λ m.
              Keeps-bind _ _
                (Keeps-if (m == n.mtu) _ _ (Keeps-pure tt)
                  (Keeps-Settles _ _ (K.set_mtu (some netns) wgif n.mtu) a))
                (λ _.
                  Keeps-bind _ _ (Keeps-context _ _ (Keeps-apply_interface_up (some netns) wgif))
                    (λ _.
                      Keeps-bind _ _ (Keeps-Frames _ (steady.keeps-netns_write_file _ _ _)) (λ _.
                        Keeps-bind _ _
                          (Keeps-context _ _ (Keeps-apply_addr (some netns) wgif n.address))
                          (λ _. Keeps-Frames _ (steady.keeps-wireguard_syncconf netns wgif)))))))))

  pub Keeps-apply_veth :
      (n : NetworkState X)
      → Agrees (master (veth_name n) bridge_interface) g
      → Keeps S g (apply_veth S n)
  unfolding apply_veth
  Keeps-apply_veth n a =
      let netns = netns_name n in
      let veth = veth_name n in
      Keeps-bind _ _ (Keeps-read _ (steady.reads-veth_exists netns veth)) (λ exists.
        Keeps-bind _ _
          (Keeps-if exists _ _ (Keeps-pure tt) (Keeps-Settles _ _ (K.add_veth netns veth) tt))
          (λ _. Keeps-bind _ _ (Keeps-lift _) (λ net.
            Keeps-bind _ _ (Keeps-context _ _ (Keeps-apply_addr (some netns) veth _)) (λ _.
              Keeps-bind _ _ (Keeps-context _ _ (Keeps-apply_link_master veth bridge_interface a))
                (λ _.
                  Keeps-bind _ _ (Keeps-context _ _ (Keeps-apply_interface_up (some netns) veth))
                    (λ _. Keeps-context _ _ (Keeps-apply_interface_up none veth)))))))

  Keeps-restore :
      (n t : Text)
      → ((t' : Text) → Agrees (rules n t') g)
      → Keeps S g (S.iptables_restore (some n) t)
  Keeps-restore n t a = record { keeps = λ w u h held. K.restore-keeps n t w g h a held }

  pub Keeps-apply_forwarding :
      (b : Build) (n : NetworkState X)
      → ((t : Text) → Agrees (rules (netns_name n) t) g)
      → Keeps S g (apply_forwarding S b n)
  unfolding apply_forwarding
  Keeps-apply_forwarding b n a = Keeps-bind _ _ (Keeps-lift _) (λ config.
      Keeps-bind _ _ (Keeps-lift _) (λ rendered.
        Keeps-bind _ _ (Keeps-read _ (steady.reads-iptables_save (some (netns_name n))))
          (λ current. Keeps-if _ _ _ (Keeps-restore (netns_name n) _ a) (Keeps-pure tt))))

  -- A fact of another network.
  pub Keeps-apply_network :
      (b : Build) (n : NetworkState X)
      → Agrees (mtu (some (netns_name n)) (wgif_name n) n.mtu) g
      → Agrees (master (veth_name n) bridge_interface) g
      → ((t : Text) → Agrees (rules (netns_name n) t) g)
      → Keeps S g (apply_network S b n)
  unfolding apply_network
  Keeps-apply_network b n m v r = Keeps-bind _ _ (Keeps-apply_netns n) (λ _.
      Keeps-bind _ _ (Keeps-apply_wireguard n m)
        (λ _. Keeps-bind _ _ (Keeps-apply_veth n v) (λ _. Keeps-apply_forwarding b n r)))

  pub Keeps-apply_nginx :
      (b : Build) (networks : List (NetworkState X)) (custom : CustomForwarding X)
      → Keeps S g (apply_nginx S b networks custom)
  unfolding apply_nginx
  Keeps-apply_nginx b networks custom = Keeps-bind _ _ (Keeps-lift _) (λ f.
      Keeps-bind _ _ (Keeps-lift _) (λ config.
        Keeps-bind _ _ (Keeps-Frames _ (K.keeps-write_file _ _)) (λ _.
          Keeps-bind _ _ (Keeps-lift _) (λ sites.
            Keeps-bind _ _ (Keeps-Frames _ (K.keeps-write_file _ _))
              (λ _. Keeps-Frames _ K.keeps-nginx_reload)))))
