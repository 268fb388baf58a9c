-- ===== src/Gateway/Kernel/Making.antt =====
-- What the parts of an `apply` of src/gateway.rs bring into place.
use mathlib.Core.Path.{subst}
use fractalnetworks_gateway.Base.{
  ◌≡◌, refl, sym, ap, ◌∙◌, Bool, true, false, Option, none, some, List, [], ◌∷◌, All, if◌then◌else◌,
  arith,
}
use fractalnetworks_gateway.Base.Text.{Text, text, eq_iff}
use fractalnetworks_gateway.Base.Result.{Result, ok, Call, pure, lift, context, ◌>>=◌}
use fractalnetworks_gateway.Base.Frames.{bind_ok, context_ok}
use fractalnetworks_gateway.Crates.{Crates}
use fractalnetworks_gateway.System.{System}
use fractalnetworks_gateway.Gateway.Interfaces.{
  bridge_interface, has_addr, is_other, add_missing, apply_addr, apply_interface_up,
  apply_link_master, apply_bridge,
}
use fractalnetworks_gateway.Gateway.Kernel.{
  Fact, bridge, readable, address, up, master, HoldsIn, Settles, Kernel,
}
use fractalnetworks_gateway.Gateway.Kernel.Keeping.{
  Keeps, Keeps-bind, Keeps-pure, Keeps-if, Keeps-Settles, Keeps-context, Keeps-add_missing,
  Keeps-apply_addr, Keeps-apply_interface_up,
}

-- Where the call returns, the fact holds.
pub record Makes {X : Crates} (S : System X) (g : Fact X) {A : Type 0} (m : Call S.World A)
    : Type 0 where
  pub makes : (w : S.World) (a : A) → (m w).0 ≡ ok a → HoldsIn S (m w).1 g

module _ {X : Crates} (S : System X) (g : Fact X) where
  pub ensured_made :
      (e : Bool) (m : Call S.World (Unit {0})) (w : S.World)
      → ((m w).0 ≡ ok tt → HoldsIn S (m w).1 g)
      → (e ≡ false → HoldsIn S w g)
      → (u : Unit {0}) → ((if e then m else pure tt) w).0 ≡ ok u
      → HoldsIn S ((if e then m else pure tt) w).1 g
  unfolding pure
  ensured_made true m w made h u p = made p
  ensured_made false m w made h u p = h refl

module _ {X : Crates} {S : System X} {g : Fact X} where
  pub Makes-context :
      {A : Type 0} (c : Text) (m : Call S.World A) → Makes S g m → Makes S g (context c m)
  unfolding context
  Makes-context c m h = record { makes = λ w a e. h.makes w a (context_ok c m w a e) }

  -- The first step makes it and the others keep it.
  pub Makes-here :
      {A B : Type 0} (m : Call S.World A) (k : A → Call S.World B)
      → Makes S g m
      → ((a : A) → Keeps S g (k a))
      → Makes S g (m >>= k)
  Makes-here m k hm hk = record {
    makes = λ w c h.
        let (a, p, q, r) = bind_ok m k w c h in
        subst (λ w'. HoldsIn S w' g) (sym r) ((hk a).keeps (m w).1 c q (hm.makes w a p));
  }

  pub Makes-later :
      {A B : Type 0} (m : Call S.World A) (k : A → Call S.World B)
      → ((a : A) → Makes S g (k a))
      → Makes S g (m >>= k)
  Makes-later m k h = record {
    makes = λ w c e.
        let (a, p, q, r) = bind_ok m k w c e in
        subst (λ w'. HoldsIn S w' g) (sym r) ((h a).makes (m w).1 c q);
  }

  -- A value that is known is passed on.
  pub Makes-lift :
      {A B : Type 0} (r : Result A) (k : A → Call S.World B) (a : A)
      → r ≡ ok a
      → Makes S g (k a)
      → Makes S g (lift r >>= k)
  unfolding ◌>>=◌ lift
  Makes-lift r k a e h = record { makes = rw e h.makes }

  -- What follows may use what was read.
  pub Makes-read :
      {A B : Type 0} (m : Call S.World A) (k : A → Call S.World B)
      → ((w : S.World) → (m w).1 ≡ w)
      → ((a : A) (w : S.World)
          → (m w).0 ≡ ok a
          → (c : B) → (k a w).0 ≡ ok c
          → HoldsIn S (k a w).1 g)
      → Makes S g (m >>= k)
  Makes-read {A} {B} m k e h = record {
    makes = λ w c p.
        let (a, q, s, r) = bind_ok m k w c p in
        let s' : (k a w).0 ≡ ok c = subst (λ w'. (k a w').0 ≡ ok c) (e w) s in
        subst (λ w'. HoldsIn S w' g) (sym (r ∙ ap (λ w'. (k a w').1) (e w))) (h a w q c s');
  }

  -- A step that is skipped where the fact holds, and then something that keeps it.
  pub ensured :
      (e : Bool) (m : Call S.World (Unit {0}))
      → Settles S m g
      → (w : S.World) → (e ≡ true → HoldsIn S w g)
      → (u : Unit {0}) → ((if e then pure tt else m) w).0 ≡ ok u
      → HoldsIn S ((if e then pure tt else m) w).1 g
  unfolding pure
  ensured true m s w h u p = h refl
  ensured false m s w h u p = s.made w p

  pub ensured_not :
      (e : Bool) (m : Call S.World (Unit {0}))
      → Settles S m g
      → (w : S.World) → (e ≡ false → HoldsIn S w g)
      → (u : Unit {0}) → ((if e then m else pure tt) w).0 ≡ ok u
      → HoldsIn S ((if e then m else pure tt) w).1 g
  ensured_not e m s w h u p = ensured_made S g e m w (s.made w) h u p

  pub Settles-context :
      (c : Text) (m : Call S.World (Unit {0})) → Settles S m g → Settles S (context c m) g
  unfolding context
  Settles-context c m s = record {
    made = λ w h. s.made w (context_ok c m w tt h);
    kept = λ w f h. s.kept w f (context_ok c m w tt h);
  }

  pub ensured_then :
      {B : Type 0} (e : Bool) (m : Call S.World (Unit {0})) (k : Call S.World B)
      → Settles S m g
      → Keeps S g k
      → (w : S.World) → (e ≡ true → HoldsIn S w g)
      → (c : B) → (((if e then pure tt else m) >>= λ _. k) w).0 ≡ ok c
      → HoldsIn S (((if e then pure tt else m) >>= λ _. k) w).1 g
  ensured_then e m k s kk w h c p =
      let (u, q, r, t) = bind_ok (if e then pure tt else m) (λ _. k) w c p in
      subst (λ w'. HoldsIn S w' g) (sym t)
        (kk.keeps ((if e then pure tt else m) w).1 c r (ensured e m s w h u q))

module _ {X : Crates} (S : System X) where
  -- A call that makes all of some facts makes each.
  All-Makes :
      {A : Type 0} (f : A → Fact X) (m : Call S.World (Unit {0})) (l : List A)
      → ((w : S.World) (u : Unit {0}) → (m w).0 ≡ ok u → All (λ a. HoldsIn S (m w).1 (f a)) l)
      → All (λ a. Makes S (f a) m) l
  All-Makes f m [] h = tt
  All-Makes f m (a ∷ l) h =
      (record { makes = λ w u p. (h w u p).0 }, All-Makes f m l (λ w u p. (h w u p).1))

module _ {X : Crates} {S : System X} (K : Kernel S) where
  open K use {steady}

  -- An address of the list is there already, or it is added.
  add_missing_makes :
      (o : Option Text) (i : Text) (current target : List X.IpNet) (w : S.World)
      → ((a : X.IpNet) → has_addr S current a ≡ true → HoldsIn S w (address o i a))
      → (u : Unit {0}) → (add_missing S o i current target w).0 ≡ ok u
      → All (λ a. HoldsIn S (add_missing S o i current target w).1 (address o i a)) target
  unfolding add_missing
  add_missing_makes o i current [] w h u p = tt
  add_missing_makes o i current (a ∷ target) w h u p =
      let had = has_addr S current a in
      let step : Call S.World (Unit {0}) = if had then pure tt else S.addr_add o i a in
      let (v, q, r, t) = bind_ok step (λ _. add_missing S o i current target) w u p in
      let w₁ = (step w).1 in
      let here = ensured had (S.addr_add o i a) (K.add_addr o i a) w (h a) v q in
      let others =
        add_missing_makes o i current target w₁
          (λ a' e.
            (Keeps-if {g = address o i a'} had _ _ (Keeps-pure tt)
                (Keeps-Settles _ _ (K.add_addr o i a) tt)).keeps
              w v q (h a' e))
          u r in
      subst (λ w'. All (λ a'. HoldsIn S w' (address o i a')) (a ∷ target)) (sym t)
        ((Keeps-add_missing K (address o i a) o i current target).keeps w₁ u r here, others)

  pub apply_addr_makes :
      (o : Option Text) (i : Text) (target : List X.IpNet) (w : S.World) (u : Unit {0})
      → (apply_addr S o i target w).0 ≡ ok u
      → HoldsIn S (apply_addr S o i target w).1 (readable o i)
        × All (λ a. HoldsIn S (apply_addr S o i target w).1 (address o i a)) target
  unfolding apply_addr
  apply_addr_makes o i target w u p =
      let (current, q, r, t) =
        bind_ok (S.addr_list o i) (λ current. add_missing S o i current target) w u p in
      let w₁ = (S.addr_list o i w).1 in
      let same : w₁ ≡ w = steady.reads-addr_list o i w in
      let listed : (S.addr_list o i w₁).0 ≡ ok current = rw same q in
      subst (λ w'. HoldsIn S w' (readable o i) × All (λ a'. HoldsIn S w' (address o i a')) target)
        (sym t)
        (
          (Keeps-add_missing K (readable o i) o i current target).keeps w₁ u r (current, listed),
          add_missing_makes o i current target w₁ (λ a e. (current, listed, e)) u r,
        )

  pub Makes-readable :
      (o : Option Text) (i : Text) (target : List X.IpNet)
      → Makes S (readable o i) (apply_addr S o i target)
  Makes-readable o i target = record { makes = λ w u p. (apply_addr_makes o i target w u p).0 }

  pub Makes-addresses :
      (o : Option Text) (i : Text) (target : List X.IpNet)
      → All (λ a. Makes S (address o i a) (apply_addr S o i target)) target
  Makes-addresses o i target =
      All-Makes S (address o i) (apply_addr S o i target) target
        (λ w u p. (apply_addr_makes o i target w u p).1)

  pub Makes-apply_interface_up :
      (o : Option Text) (i : Text) → Makes S (up o i) (apply_interface_up S o i)
  unfolding apply_interface_up
  Makes-apply_interface_up o i = Makes-read _ _ (steady.reads-interface_show o i) (λ status w h c p.
      ensured_not status.is_down (S.interface_up o i) (K.bring_up o i) w
        (λ e. record { status = status; shown = h; up = e }) c p)

  same_master : (current : Option Text) (m : Text) → is_other S current m ≡ false → current ≡ some m
  same_master none m h = cc
  same_master (some k) m h = ap some ((eq_iff k m).0 (ground (arith, h)))

  pub Makes-apply_link_master : (i m : Text) → Makes S (master i m) (apply_link_master S none i m)
  unfolding apply_link_master context
  Makes-apply_link_master i m =
      Makes-read _ _ (steady.reads-link_get_master none i) (λ current w h c p.
        ensured_not (is_other S current m)
          (context (text "Setting master of interface") (S.link_set_master none i m))
          (Settles-context (text "Setting master of interface") (S.link_set_master none i m)
            (K.set_master i m))
          w (λ e. h ∙ ap ok (same_master current m e)) c p)

  pub Makes-bridge :
      (i : Text) (target : List X.IpNet)
      → Makes S (bridge bridge_interface) (apply_bridge S i target)
  unfolding apply_bridge
  Makes-bridge i target =
      Makes-read _ _ (steady.reads-bridge_exists none bridge_interface) (λ exists w h c p.
        ensured_then exists (S.bridge_add none bridge_interface) _ (K.add_bridge bridge_interface)
          (Keeps-bind _ _ (Keeps-context _ _ (Keeps-apply_addr K _ none bridge_interface target))
            (λ _. Keeps-context _ _ (Keeps-apply_interface_up K _ none bridge_interface)))
          w (λ e. rw e at h) c p)

  pub Makes-bridge_up :
      (i : Text) (target : List X.IpNet)
      → Makes S (up none bridge_interface) (apply_bridge S i target)
  unfolding apply_bridge
  Makes-bridge_up i target = Makes-later _ _ (λ exists. Makes-later _ _ (λ _.
      Makes-later _ _ (λ _. Makes-context _ _ (Makes-apply_interface_up none bridge_interface))))

  pub Makes-bridge_readable :
      (i : Text) (target : List X.IpNet)
      → Makes S (readable none bridge_interface) (apply_bridge S i target)
  unfolding apply_bridge
  Makes-bridge_readable i target = Makes-later _ _ (λ exists. Makes-later _ _ (λ _.
      Makes-here _ _ (Makes-context _ _ (Makes-readable none bridge_interface target))
        (λ _. Keeps-context _ _ (Keeps-apply_interface_up K _ none bridge_interface))))

  pub Makes-bridge_address :
      (i : Text) (a : X.IpNet)
      → Makes S (address none bridge_interface a) (apply_bridge S i (a ∷ []))
  unfolding apply_bridge
  Makes-bridge_address i a = Makes-later _ _ (λ exists. Makes-later _ _ (λ _.
      Makes-here _ _ (Makes-context _ _ (Makes-addresses none bridge_interface (a ∷ [])).0)
        (λ _. Keeps-context _ _ (Keeps-apply_interface_up K _ none bridge_interface))))
