-- ===== src/Gateway/Namespaces.antt =====
-- What the theorems assume of the outside calls as to which network namespaces exist, and what the
-- parts of an apply do to them.
use fractalnetworks_gateway.Base.{
  ℕ, ◌≡◌, ap, sym, ◌∙◌, Bool, true, false, ◌||◌, any, Option, List, [], ◌∷◌, if◌then◌else◌, arith,
  inl, inr, Bool-cases,
}
use fractalnetworks_gateway.Base.Text.{Text, eq, eq_iff}
use fractalnetworks_gateway.Base.Result.{ok, pure, ◌>>◌}
use fractalnetworks_gateway.Base.Frames.{
  Frames, Frames-lift, Frames-pure, Frames-if, Frames-bind, frame_rules, bind_ok,
}
use fractalnetworks_gateway.Base.Word.{Build}
use fractalnetworks_gateway.Crates.{Crates}
use fractalnetworks_gateway.Client.Config.{NetworkState}
use fractalnetworks_gateway.Types.Names.{netns_name}
use fractalnetworks_gateway.Types.Stats.{NetnsItem}
use fractalnetworks_gateway.System.{System}
use fractalnetworks_gateway.Gateway.Interfaces.{
  add_missing, has_addr, apply_addr, apply_interface_up, apply_link_master, apply_bridge,
}
use fractalnetworks_gateway.Gateway.Iptables.{apply_forwarding}
use fractalnetworks_gateway.Gateway.Network.{
  apply_netns, apply_wireguard, apply_veth, apply_network,
}
use fractalnetworks_gateway.Gateway.Nginx.{CustomForwarding, apply_nginx}

-- `has` tells which namespaces exist. The four calls on namespaces do what they say when they return; no
-- other call adds or removes one.
pub record Namespaces {X : Crates} (S : System X) : Type 0 where
  pub has : S.World → Text → Bool
  pub listed :
      (w : S.World) (items : List NetnsItem)
      → (S.netns_list w).0 ≡ ok items
      → (n : Text) → any (λ (i : NetnsItem). eq n i.name) items ≡ has w n
  pub existing : (n : Text) (w : S.World) (b : Bool) → (S.netns_exists n w).0 ≡ ok b → b ≡ has w n
  pub added :
      (n : Text) (w : S.World)
      → (S.netns_add n w).0 ≡ ok tt
      → (m : Text) → has (S.netns_add n w).1 m ≡ (if eq m n then true else has w m)
  pub deleted :
      (n : Text) (w : S.World)
      → (S.netns_del n w).0 ≡ ok tt
      → (m : Text) → has (S.netns_del n w).1 m ≡ (if eq m n then false else has w m)
  pub keeps-list : Frames has S.netns_list
  pub keeps-exists : (n : Text) → Frames has (S.netns_exists n)
  pub keeps-write : (n p t : Text) → Frames has (S.netns_write_file n p t)
  pub keeps-bridge_exists : (o : Option Text) (i : Text) → Frames has (S.bridge_exists o i)
  pub keeps-bridge_add : (o : Option Text) (i : Text) → Frames has (S.bridge_add o i)
  pub keeps-addr_list : (o : Option Text) (i : Text) → Frames has (S.addr_list o i)
  pub keeps-addr_add : (o : Option Text) (i : Text) (a : X.IpNet) → Frames has (S.addr_add o i a)
  pub keeps-show : (o : Option Text) (i : Text) → Frames has (S.interface_show o i)
  pub keeps-mtu : (o : Option Text) (i : Text) (n : ℕ) → Frames has (S.interface_mtu o i n)
  pub keeps-up : (o : Option Text) (i : Text) → Frames has (S.interface_up o i)
  pub keeps-wireguard_exists : (n i : Text) → Frames has (S.wireguard_exists n i)
  pub keeps-wireguard_create : (o : Option Text) (i : Text) → Frames has (S.wireguard_create o i)
  pub keeps-syncconf : (n i : Text) → Frames has (S.wireguard_syncconf n i)
  pub keeps-veth_exists : (n i : Text) → Frames has (S.veth_exists n i)
  pub keeps-veth_add : (n i j : Text) → Frames has (S.veth_add n i j)
  pub keeps-get_master : (o : Option Text) (i : Text) → Frames has (S.link_get_master o i)
  pub keeps-set_master : (o : Option Text) (i m : Text) → Frames has (S.link_set_master o i m)
  pub keeps-save : (o : Option Text) → Frames has (S.iptables_save o)
  pub keeps-restore : (o : Option Text) (t : Text) → Frames has (S.iptables_restore o t)
  pub keeps-reload : Frames has S.nginx_reload
  pub keeps-write_file : (p t : Text) → Frames has (S.write_file p t)

module _ {X : Crates} {S : System X} (N : Namespaces S) where
  add_missing-Frames :
      (o : Option Text) (i : Text) (current target : List X.IpNet)
      → Frames N.has (add_missing S o i current target)
  unfolding add_missing
  add_missing-Frames o i current [] = search frame_rules
  add_missing-Frames o i current (a ∷ target) =
      Frames-bind _ _
        (Frames-if (has_addr S current a) (pure tt) _ (Frames-pure tt) (N.keeps-addr_add o i a))
        (λ _. add_missing-Frames o i current target)

  apply_addr-Frames :
      (o : Option Text) (i : Text) (target : List X.IpNet) → Frames N.has (apply_addr S o i target)
  unfolding apply_addr
  apply_addr-Frames o i target = search (frame_rules, N.keeps-addr_list, add_missing-Frames)

  apply_interface_up-Frames : (o : Option Text) (i : Text) → Frames N.has (apply_interface_up S o i)
  unfolding apply_interface_up
  apply_interface_up-Frames o i = search (frame_rules, N.keeps-show, N.keeps-up)

  apply_link_master-Frames :
      (o : Option Text) (i m : Text) → Frames N.has (apply_link_master S o i m)
  unfolding apply_link_master
  apply_link_master-Frames o i m = search (frame_rules, N.keeps-get_master, N.keeps-set_master)

  pub apply_bridge-Frames : (i : Text) (addr : List X.IpNet) → Frames N.has (apply_bridge S i addr)
  unfolding apply_bridge
  apply_bridge-Frames i addr =
      search
        (
          frame_rules, N.keeps-bridge_exists, N.keeps-bridge_add, apply_addr-Frames,
          apply_interface_up-Frames,
        )
        depth 8

  apply_wireguard-Frames : (n : NetworkState X) → Frames N.has (apply_wireguard S n)
  unfolding apply_wireguard
  apply_wireguard-Frames n =
      search
        (
          frame_rules, N.keeps-wireguard_exists, N.keeps-wireguard_create, N.keeps-show,
          N.keeps-mtu, N.keeps-write, N.keeps-syncconf, apply_addr-Frames,
          apply_interface_up-Frames,
        )
        depth 14

  apply_veth-Frames : (n : NetworkState X) → Frames N.has (apply_veth S n)
  unfolding apply_veth
  apply_veth-Frames n =
      search
        (
          frame_rules, N.keeps-veth_exists, N.keeps-veth_add, apply_addr-Frames,
          apply_link_master-Frames, apply_interface_up-Frames,
        )
        depth 14

  apply_forwarding-Frames : (b : Build) (n : NetworkState X) → Frames N.has (apply_forwarding S b n)
  unfolding apply_forwarding
  apply_forwarding-Frames b n = search (frame_rules, N.keeps-save, N.keeps-restore) depth 10

  pub apply_nginx-Frames :
      (b : Build) (ns : List (NetworkState X)) (custom : CustomForwarding X)
      → Frames N.has (apply_nginx S b ns custom)
  unfolding apply_nginx
  apply_nginx-Frames b ns custom = Frames-bind _ _ (Frames-lift _) (λ f.
      Frames-bind _ _ (Frames-lift _) (λ config. Frames-bind _ _ (N.keeps-write_file _ _) (λ _.
        Frames-bind _ _ (Frames-lift _)
          (λ sites. Frames-bind _ _ (N.keeps-write_file _ _) (λ _. N.keeps-reload)))))

  -- The last three steps of `apply_network`.
  after_netns-Frames :
      (b : Build) (n : NetworkState X)
      → Frames N.has (apply_wireguard S n >> (apply_veth S n >> apply_forwarding S b n))
  after_netns-Frames b n =
      search (frame_rules, apply_wireguard-Frames, apply_veth-Frames, apply_forwarding-Frames) depth
        8

  has-apply_netns :
      (n : NetworkState X) (w : S.World)
      → (apply_netns S n w).0 ≡ ok tt
      → (m : Text) → N.has (apply_netns S n w).1 m ≡ (eq m (netns_name n) || N.has w m)
  unfolding apply_netns pure
  has-apply_netns n w h m =
      let name = netns_name n in
      let (e, p, q, r) =
        bind_ok (S.netns_exists name) (λ e. if e then pure tt else S.netns_add name) w tt h in
      let same = ap (λ (f : Text → Bool). f m) ((N.keeps-exists name).frame w) in
      let same' = ap (λ (f : Text → Bool). f name) ((N.keeps-exists name).frame w) in
      let known = N.existing name w e p in
      ap (λ s. N.has s m) r
      ∙ decided e (S.netns_exists name w).1 q m (known ∙ sym same')
      ∙ ap (λ x. eq m name || x) same
    where
      decided :
          (e : Bool) (w' : S.World)
          → ((if e then pure tt else S.netns_add (netns_name n)) w').0 ≡ ok tt
          → (m : Text) → e ≡ N.has w' (netns_name n)
          → N.has ((if e then pure tt else S.netns_add (netns_name n)) w').1 m
            ≡ (eq m (netns_name n) || N.has w' m)
      decided true w' q m k = elim (Bool-cases (eq m (netns_name n))) [
        | inl p ↦ rw p (rw ((eq_iff m (netns_name n)).0 p) (sym k))
        | inr p ↦ rw p
      ]
      decided false w' q m k = N.added (netns_name n) w' q m ∙ ground arith

  -- A namespace exists after `apply_network` if it did before or is the network's.
  pub has-apply_network :
      (b : Build) (n : NetworkState X) (w : S.World)
      → (apply_network S b n w).0 ≡ ok tt
      → (m : Text) → N.has (apply_network S b n w).1 m ≡ (eq m (netns_name n) || N.has w m)
  unfolding apply_network
  has-apply_network b n w h m =
      let (u, p, q, r) =
        bind_ok (apply_netns S n)
          (λ _. apply_wireguard S n >> (apply_veth S n >> apply_forwarding S b n)) w tt h in
      ap (λ s. N.has s m) r
      ∙ ap (λ (f : Text → Bool). f m) ((after_netns-Frames b n).frame (apply_netns S n w).1)
      ∙ has-apply_netns n w p m
