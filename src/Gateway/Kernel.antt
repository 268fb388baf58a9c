-- ===== src/Gateway/Kernel.antt =====
-- What the calls that change the system do to what the reading calls answer, as facts about a view:
-- the assumptions under which an `apply` of src/gateway.rs brings a configuration into place.
pub mod Keeping
pub mod Making
pub mod Wireguard
pub mod Veth
pub mod Facts
pub mod Networks
pub mod Placed
pub mod Reaching
pub mod Again
use fractalnetworks_gateway.Base.{
  ℕ, ◌≡◌, Bool, true, false, ◌⊎◌, Option, none, some, List, [], ◌∷◌, All,
}
use fractalnetworks_gateway.Base.Text.{Text}
use fractalnetworks_gateway.Base.Split.{lines}
use fractalnetworks_gateway.Base.Result.{Result, ok, Call}
use fractalnetworks_gateway.Base.Frames.{Frames}
use fractalnetworks_gateway.Crates.{Crates}
use fractalnetworks_gateway.Types.Stats.{NetnsItem}
use fractalnetworks_gateway.System.{System, InterfaceStatus}
use fractalnetworks_gateway.Gateway.Iptables.Shown.{Shown}
use fractalnetworks_gateway.Gateway.Interfaces.{bridge_interface, has_addr}
use fractalnetworks_gateway.Gateway.Settled.{View, view, Steady, IsUp}

-- A fact about the system. Interfaces of the root namespace have `none` for their namespace; the rules of
-- a namespace are the text that sets them.
pub data Fact (X : Crates) : Type 0 where
  listing : Fact X
  namespace : Text → Fact X
  bridge : Text → Fact X
  wireguard : Text → Text → Fact X
  veth : Text → Text → Fact X
  readable : Option Text → Text → Fact X
  address : Option Text → Text → X.IpNet → Fact X
  up : Option Text → Text → Fact X
  mtu : Option Text → Text → ℕ → Fact X
  master : Text → Text → Fact X
  rules : Text → Text → Fact X

module _ {X : Crates} (S : System X) where
  -- The fact shows in what the reading calls answer.
  abbrev pub Holds : View X → Fact X → Type 0
  Holds v listing = (items : List NetnsItem) × (v.netns_list ≡ ok items)
  Holds v (namespace n) = v.netns_exists n ≡ ok true
  Holds v (bridge i) = v.bridge_exists none i ≡ ok true
  Holds v (wireguard n i) = v.wireguard_exists n i ≡ ok true
  Holds v (veth n i) = v.veth_exists n i ≡ ok true
  Holds v (readable o i) = (current : List X.IpNet) × (v.addr_list o i ≡ ok current)
  Holds v (address o i a) =
      (current : List X.IpNet) × (v.addr_list o i ≡ ok current) × (has_addr S current a ≡ true)
  Holds v (up o i) = IsUp v o i
  Holds v (mtu o i m) =
      (status : InterfaceStatus) × (v.interface_show o i ≡ ok status) × (status.mtu ≡ some m)
  Holds v (master i m) = v.link_get_master none i ≡ ok (some m)
  Holds v (rules n t) =
      (saved : Text) × (v.iptables_save (some n) ≡ ok saved)
      × Shown S.replace_counter (lines saved) (lines t)

module _ {X : Crates} where
  -- A new fact does not take the place of another one.
  abbrev pub Agrees : Fact X → Fact X → Type 0
  Agrees (mtu o i m) (mtu o' i' m') = o ≡ o' → i ≡ i' → m ≡ m'
  Agrees (master i m) (master i' m') = i ≡ i' → m ≡ m'
  Agrees (rules n t) (rules n' t') = n ≡ n' → t ≡ t'
  Agrees _ _ = Unit

  -- A fact of the root namespace that no namespace has a part in.
  abbrev pub IsRoot : Fact X → Type 0
  IsRoot listing = Unit
  IsRoot (bridge i) = Unit
  IsRoot (readable o i) = (o ≡ none) × (i ≡ bridge_interface)
  IsRoot (address o i a) = (o ≡ none) × (i ≡ bridge_interface)
  IsRoot (up o i) = (o ≡ none) × (i ≡ bridge_interface)
  IsRoot _ = ⊥

module _ {X : Crates} (S : System X) where
  abbrev pub HoldsIn : S.World → Fact X → Type 0
  HoldsIn w f = Holds S (view S w) f

  -- Where the call returns, the fact holds, and what it does not take the place of still holds.
  pub record Settles (m : Call S.World (Unit {0})) (f : Fact X) : Type 0 where
    pub made : (w : S.World) → (m w).0 ≡ ok tt → HoldsIn (m w).1 f
    pub kept :
        (w : S.World) (g : Fact X) → (m w).0 ≡ ok tt → Agrees f g → HoldsIn w g → HoldsIn (m w).1 g

-- Each call makes one fact hold, and the deletion of a namespace leaves the bridge alone. `saved_form` are
-- the texts that name every table and spell the rules as `iptables-save` prints them: once such a text was
-- restored, that is what is saved, but for comments, blank lines and packet counters.
pub record Kernel {X : Crates} (S : System X) : Type 1 where
  pub saved_form : Text → Type 0
  pub steady : Steady S
  pub add_netns : (n : Text) → Settles S (S.netns_add n) (namespace n)
  pub add_bridge : (i : Text) → Settles S (S.bridge_add none i) (bridge i)
  pub create_wireguard : (n i : Text) → Settles S (S.wireguard_create (some n) i) (wireguard n i)
  pub add_veth : (n i : Text) → Settles S (S.veth_add n i i) (veth n i)
  pub add_addr :
      (o : Option Text) (i : Text) (a : X.IpNet) → Settles S (S.addr_add o i a) (address o i a)
  pub bring_up : (o : Option Text) (i : Text) → Settles S (S.interface_up o i) (up o i)
  pub set_mtu : (o : Option Text) (i : Text) (m : ℕ) → Settles S (S.interface_mtu o i m) (mtu o i m)
  pub set_master : (i m : Text) → Settles S (S.link_set_master none i m) (master i m)
  pub restored :
      (n t : Text) (w : S.World)
      → saved_form t
      → (S.iptables_restore (some n) t w).0 ≡ ok tt
      → HoldsIn S (S.iptables_restore (some n) t w).1 (rules n t)
  pub restore-keeps :
      (n t : Text) (w : S.World) (g : Fact X)
      → (S.iptables_restore (some n) t w).0 ≡ ok tt
      → ((t' : Text) → Agrees (rules n t') g)
      → HoldsIn S w g
      → HoldsIn S (S.iptables_restore (some n) t w).1 g
  pub delete-keeps :
      (n : Text) (w : S.World) (g : Fact X)
      → (S.netns_del n w).0 ≡ ok tt
      → IsRoot g
      → HoldsIn S w g
      → HoldsIn S (S.netns_del n w).1 g
  pub keeps-write_file : (p t : Text) → Frames (view S) (S.write_file p t)
  pub keeps-nginx_reload : Frames (view S) S.nginx_reload
