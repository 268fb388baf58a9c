-- ===== src/Gateway/Kernel/Wireguard.antt =====
-- What `apply_wireguard` of src/gateway.rs brings into place.
use mathlib.Core.Path.{subst}
use fractalnetworks_gateway.Base.{
  ℕ, ◌==◌, ◌≡◌, sym, ap, ◌∙◌, Option, none, some, List, [], ◌∷◌, ◌++◌, if◌then◌else◌, arith,
}
use fractalnetworks_gateway.Base.Text.{Text, text}
use fractalnetworks_gateway.Base.Result.{ok, ok_or, Call, pure, lift, context, ◌>>=◌, ◌>>◌}
use fractalnetworks_gateway.Base.Frames.{bind_ok}
use fractalnetworks_gateway.Crates.{Crates}
use fractalnetworks_gateway.Client.Config.{NetworkState}
use fractalnetworks_gateway.Types.Names.{netns_name, wgif_name, veth_name}
use fractalnetworks_gateway.Types.Wireguard.{to_config}
use fractalnetworks_gateway.System.{System}
use fractalnetworks_gateway.Gateway.Interfaces.{apply_addr, apply_interface_up}
use fractalnetworks_gateway.Gateway.Network.{apply_wireguard}
use fractalnetworks_gateway.Gateway.Kernel.{Fact, wireguard, up, mtu, Agrees, HoldsIn, Kernel}
use fractalnetworks_gateway.Gateway.Kernel.Keeping.{
  Keeps, Keeps-bind, Keeps-read, Keeps-lift, Keeps-if, Keeps-pure, Keeps-Settles, Keeps-context,
  Keeps-Frames, Keeps-apply_addr, Keeps-apply_interface_up,
}
use fractalnetworks_gateway.Gateway.Kernel.Making.{
  Makes, Makes-context, Makes-here, Makes-later, Makes-read, ensured_then, Makes-apply_interface_up,
}

module _ {X : Crates} (S : System X) (n : NetworkState X) where
  -- The steps of `apply_wireguard` behind the addresses, and from further up.
  abbrev addresses_step : Call S.World (Unit {0})
  addresses_step = do
    context (text "Applying wireguard interface addresses")
        (apply_addr S (some (netns_name n)) (wgif_name n) n.address)
    S.wireguard_syncconf (netns_name n) (wgif_name n)

  abbrev up_step : Call S.World (Unit {0})
  up_step = do
    context (text "Setting wireguard interface UP")
        (apply_interface_up S (some (netns_name n)) (wgif_name n))
    S.netns_write_file (netns_name n) (text "wireguard/" ++ (wgif_name n ++ text ".conf"))
        (to_config n)
    addresses_step

  abbrev mtu_step : Call S.World (Unit {0})
  mtu_step = do
    status ← S.interface_show (some (netns_name n)) (wgif_name n)
    m ← lift (ok_or status.mtu (text "Missing MTU for WireGuard network" ∷ []))
    if m == n.mtu then pure tt else S.interface_mtu (some (netns_name n)) (wgif_name n) n.mtu
    up_step

module _ {X : Crates} {S : System X} (K : Kernel S) (n : NetworkState X) where
  open K use {steady}

  abbrev netns : Text
  netns = netns_name n

  abbrev wgif : Text
  wgif = wgif_name n

  abbrev veth_if : Text
  veth_if = veth_name n

  Keeps-addresses_step : (g : Fact X) → Keeps S g (addresses_step S n)
  Keeps-addresses_step g =
      Keeps-bind _ _ (Keeps-context _ _ (Keeps-apply_addr K g (some netns) wgif n.address))
        (λ _. Keeps-Frames _ (steady.keeps-wireguard_syncconf netns wgif))

  Keeps-up_step : (g : Fact X) → Keeps S g (up_step S n)
  Keeps-up_step g =
      Keeps-bind _ _ (Keeps-context _ _ (Keeps-apply_interface_up K g (some netns) wgif)) (λ _.
        Keeps-bind _ _ (Keeps-Frames _ (steady.keeps-netns_write_file _ _ _))
          (λ _. Keeps-addresses_step g))

  known_mtu : (o : Option ℕ) (m : ℕ) (e : List Text) → ok_or o e ≡ ok m → o ≡ some m
  known_mtu none m e h = cc
  known_mtu (some k) m e h = cc

  Keeps-mtu_step : (g : Fact X) → Agrees (mtu (some netns) wgif n.mtu) g → Keeps S g (mtu_step S n)
  Keeps-mtu_step g a =
      Keeps-bind _ _ (Keeps-read _ (steady.reads-interface_show (some netns) wgif)) (λ status.
        Keeps-bind _ _ (Keeps-lift _) (λ m.
          Keeps-bind _ _
            (Keeps-if (m == n.mtu) _ _ (Keeps-pure tt)
              (Keeps-Settles _ _ (K.set_mtu (some netns) wgif n.mtu) a))
            (λ _. Keeps-up_step g)))

  -- The unit is read and set where it differs.
  Makes-mtu : Makes S (mtu (some netns) wgif n.mtu) (mtu_step S n)
  unfolding lift
  Makes-mtu = Makes-read _ _ (steady.reads-interface_show (some netns) wgif) (λ status w h c p.
      let read : Call S.World ℕ =
        lift (ok_or status.mtu (text "Missing MTU for WireGuard network" ∷ [])) in
      let (m, q, r, t) =
        bind_ok read
          (λ m.
            (if m == n.mtu then pure tt else S.interface_mtu (some netns) wgif n.mtu)
            >> up_step S n)
          w c p in
      subst (λ w'. HoldsIn S w' (mtu (some netns) wgif n.mtu)) (sym t)
        (ensured_then (m == n.mtu) (S.interface_mtu (some netns) wgif n.mtu) (up_step S n)
          (K.set_mtu (some netns) wgif n.mtu) (Keeps-up_step (mtu (some netns) wgif n.mtu)) w
          (λ e. (status, h, known_mtu status.mtu m _ q ∙ ap some (ground (arith, e)))) c r))

  -- A fact that is made once the interface is there.
  made_in_wireguard : (g : Fact X) → Makes S g (mtu_step S n) → Makes S g (apply_wireguard S n)
  unfolding apply_wireguard
  made_in_wireguard g h = Makes-later _ _ (λ exists. Makes-later _ _ (λ _. h))

  made_up_step : (g : Fact X) → Makes S g (up_step S n) → Makes S g (mtu_step S n)
  made_up_step g h = Makes-later _ _ (λ status. Makes-later _ _ (λ m. Makes-later _ _ (λ _. h)))

  made_addresses_step : (g : Fact X) → Makes S g (addresses_step S n) → Makes S g (up_step S n)
  made_addresses_step g h = Makes-later _ _ (λ _. Makes-later _ _ (λ _. h))

  pub Makes-wireguard : Makes S (wireguard netns wgif) (apply_wireguard S n)
  unfolding apply_wireguard
  Makes-wireguard = Makes-read _ _ (steady.reads-wireguard_exists netns wgif) (λ exists w h c p.
      ensured_then exists (S.wireguard_create (some netns) wgif) (mtu_step S n)
        (K.create_wireguard netns wgif) (Keeps-mtu_step (wireguard netns wgif) tt) w
        (λ e. rw e at h) c p)

  pub Makes-wireguard_mtu : Makes S (mtu (some netns) wgif n.mtu) (apply_wireguard S n)
  Makes-wireguard_mtu = made_in_wireguard _ Makes-mtu

  pub Makes-wireguard_up : Makes S (up (some netns) wgif) (apply_wireguard S n)
  Makes-wireguard_up = made_in_wireguard _ (
      made_up_step _ (
        Makes-here _ _ (Makes-context _ _ (Makes-apply_interface_up K (some netns) wgif)) (λ _.
          Keeps-bind _ _ (Keeps-Frames _ (steady.keeps-netns_write_file _ _ _))
            (λ _. Keeps-addresses_step _))))

  pub made_with_addresses :
      (g : Fact X)
      → Makes S g (apply_addr S (some netns) wgif n.address)
      → Makes S g (apply_wireguard S n)
  made_with_addresses g h = made_in_wireguard g (
      made_up_step g (
        made_addresses_step g (
          Makes-here _ _ (Makes-context _ _ h)
            (λ _. Keeps-Frames _ (steady.keeps-wireguard_syncconf netns wgif)))))
