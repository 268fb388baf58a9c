-- ===== src/System/Store/Growing.antt =====
-- What goes on to hold in the concrete system that keeps what is set.
use fractalnetworks_gateway.Base.{
  ℕ, ◌≡◌, refl, sym, ap, ◌∙◌, Bool, true, false, not, any, Option, none, some, List, ◌∷◌,
  if◌then◌else◌, arith,
}
use fractalnetworks_gateway.Base.Text.{Text, eq, eq_iff}
use fractalnetworks_gateway.Base.Result.{ok}
use fractalnetworks_gateway.Crates.Sample.{sample, SampleNet}
use fractalnetworks_gateway.Gateway.Iptables.Shown.{Shown}
use fractalnetworks_gateway.Base.Split.{lines}
use mathlib.Core.Path.{subst}
use fractalnetworks_gateway.Gateway.Interfaces.{has_addr}
use fractalnetworks_gateway.Gateway.Kernel.{
  Fact, listing, namespace, bridge, wireguard, veth, readable, address, up, mtu, master, rules,
  Agrees, HoldsIn,
}
use fractalnetworks_gateway.System.{InterfaceStatus}
use fractalnetworks_gateway.System.Store.{Store, store_system, at, same_space}

abbrev pub Holding : Store → Fact sample → Type 0
Holding = HoldsIn store_system

pub eq_refl : (t : Text) → eq t t ≡ true
eq_refl t = (eq_iff t t).1 refl

pub at_refl : (o : Option Text) (i : Text) → at o i o i ≡ true
at_refl none i = eq_refl i
at_refl (some n) i = ground (arith, eq_refl n, eq_refl i)

space_eq : (o o' : Option Text) → same_space o o' ≡ true → o ≡ o'
space_eq none none h = refl
space_eq none (some n) h = cc
space_eq (some m) none h = cc
space_eq (some m) (some n) h = ap some ((eq_iff m n).0 h)

same_address : (a : SampleNet) → sample.same_net a a ≡ true
same_address a = ground arith

-- An address that is there is there behind another one.
has_more :
    (a b : SampleNet) (current : List SampleNet)
    → has_addr store_system current b ≡ true
    → has_addr store_system (a ∷ current) b ≡ true
has_more a b current h = ground (arith, h)

-- All that was there is there still, but for what the new fact takes the place of.
pub record Grows (w w' : Store) (f : Fact sample) : Type 0 where
  pub names : (n : Text) → any (eq n) w.base.names ≡ true → any (eq n) w'.base.names ≡ true
  pub bridges : (i : Text) → w.bridges i ≡ true → w'.bridges i ≡ true
  pub wireguards : (n i : Text) → w.wireguards n i ≡ true → w'.wireguards n i ≡ true
  pub veths : (n i : Text) → w.veths n i ≡ true → w'.veths n i ≡ true
  pub addresses :
      (o : Option Text) (i : Text) (a : SampleNet)
      → has_addr store_system (w.addresses o i) a ≡ true
      → has_addr store_system (w'.addresses o i) a ≡ true
  pub ups : (o : Option Text) (i : Text) → w.ups o i ≡ true → w'.ups o i ≡ true
  pub mtus :
      (o : Option Text) (i : Text) (m : ℕ) → w.mtus o i ≡ m → Agrees f (mtu o i m) → w'.mtus o i ≡ m
  pub masters : (i m : Text) → w.masters i ≡ some m → Agrees f (master i m) → w'.masters i ≡ some m
  pub saved :
      (n t : Text)
      → Shown (λ s. s) (lines (w.saved n)) (lines t)
      → Agrees f (rules n t)
      → Shown (λ s. s) (lines (w'.saved n)) (lines t)

pub has_added :
    (b : Bool) (a : SampleNet) (current : List SampleNet)
    → b ≡ true
    → has_addr store_system (if b then a ∷ current else current) a ≡ true
has_added b a current h = rw h (ground (arith, same_address a))

pub had_added :
    (b : Bool) (a c : SampleNet) (current : List SampleNet)
    → has_addr store_system current c ≡ true
    → has_addr store_system (if b then a ∷ current else current) c ≡ true
had_added true a c current h = has_more a c current h
had_added false a c current h = h

pub chosen :
    {A : Type 0} (b : Bool) (new old k : A)
    → old ≡ k
    → (b ≡ true → new ≡ k)
    → (if b then new else old) ≡ k
chosen true new old k h e = e refl
chosen false new old k h e = h

pub at_eq :
    (o : Option Text) (i : Text) (o' : Option Text) (i' : Text)
    → at o i o' i' ≡ true
    → (o ≡ o') × (i ≡ i')
at_eq o i o' i' h =
    (sym (space_eq o' o (ground (arith, h))), sym ((eq_iff i' i).0 (ground (arith, h))))

-- What a status that was read says.
status_up :
    (m : ℕ) (b : Bool) (s : InterfaceStatus)
    → ok (record { mtu = some m; is_down = not b }) ≡ ok s
    → s.is_down ≡ false
    → b ≡ true
status_up m b s e d =
    let same : record { mtu = some m; is_down = not b } ≡ s = cc in
    let down : not b ≡ false = ap (λ (s : InterfaceStatus). s.is_down) same ∙ d in
    ground (arith, down)

status_mtu :
    (m k : ℕ) (b : Bool) (s : InterfaceStatus)
    → ok (record { mtu = some m; is_down = not b }) ≡ ok s
    → s.mtu ≡ some k
    → m ≡ k
status_mtu m k b s e d =
    let same : record { mtu = some m; is_down = not b } ≡ s = cc in
    let unit : some m ≡ some k = ap (λ (s : InterfaceStatus). s.mtu) same ∙ d in cc

some_master : (o : Option Text) (m : Text) → ok o ≡ ok (some m) → o ≡ some m
some_master o m h = cc

module _ (w w' : Store) (f : Fact sample) (h : Grows w w' f) where
  pub keep : (g : Fact sample) → Agrees f g → Holding w g → Holding w' g
  keep listing a held = (_, refl)
  keep (namespace n) a held = ap ok (h.names n cc)
  keep (bridge i) a held = ap ok (h.bridges i cc)
  keep (wireguard n i) a held = ap ok (h.wireguards n i cc)
  keep (veth n i) a held = ap ok (h.veths n i cc)
  keep (readable o i) a held = (_, refl)
  keep (address o i net) a (current, e, k) =
      let same : w.addresses o i ≡ current = cc in
      (w'.addresses o i, refl, h.addresses o i net (rw same k))
  keep (up o i) a held =
      let was = status_up (w.mtus o i) (w.ups o i) held.status held.shown held.up in
      record { status = _; shown = refl; up = ap not (h.ups o i was) }
  keep (mtu o i m) a (status, e, k) =
      (_, refl, ap some (h.mtus o i m (status_mtu _ m (w.ups o i) status e k) a))
  keep (master i m) a held = ap ok (h.masters i m (some_master (w.masters i) m held) a)
  keep (rules n t) a (saved, e, k) =
      let same : saved ≡ w.saved n = cc in
      (w'.saved n, refl, h.saved n t (subst (λ s. Shown (λ l. l) (lines s) (lines t)) same k) a)
