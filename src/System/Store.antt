-- ===== src/System/Store.antt =====
-- A concrete system that keeps what is set: namespaces, interfaces with their addresses, states and units,
-- masters, rules, files, and what WireGuard and NGINX were told. It meets what the theorems assume of the outside calls, and serves the examples.
pub mod Growing
pub mod Restoring
pub mod Settling
pub mod Running
use fractalnetworks_gateway.Base.{
  ℕ, ◌≡◌, refl, sym, ap, ◌∙◌, Bool, true, false, not, ◌&&◌, ◌||◌, any, filter, Option, none, some,
  List, [], ◌∷◌, ◌++◌, map, if◌then◌else◌, arith, inl, inr, Bool-cases,
}
use fractalnetworks_gateway.Base.Text.{Text, text, eq, eq_iff}
use fractalnetworks_gateway.Base.Result.{Result, ok}
use fractalnetworks_gateway.Base.Frames.{Frames}
use fractalnetworks_gateway.Crates.Sample.{sample, SampleNet}
use fractalnetworks_gateway.Types.Stats.{NetnsItem}
use fractalnetworks_gateway.System.{System}
use fractalnetworks_gateway.System.Sample.{SampleWorld, sample_system, items_listed, kept_names}
use fractalnetworks_gateway.Gateway.Namespaces.{Namespaces}
use fractalnetworks_gateway.Gateway.Settled.{Steady}

pub record Store : Type 0 where
  pub base : SampleWorld
  pub bridges : Text → Bool
  pub wireguards : Text → Text → Bool
  pub veths : Text → Text → Bool
  pub addresses : Option Text → Text → List SampleNet
  pub ups : Option Text → Text → Bool
  pub mtus : Option Text → Text → ℕ
  pub masters : Text → Option Text
  pub saved : Text → Text
  pub files : Text → Text → Option Text
  pub devices : Text → Text → Option Text
  pub pages : Text → Option Text
  pub running : Text → Option Text

abbrev pub same_space : Option Text → Option Text → Bool
same_space none none = true
same_space (some m) (some n) = eq m n
same_space _ _ = false

abbrev pub at : Option Text → Text → Option Text → Text → Bool
at o i o' i' = same_space o' o && eq i' i

abbrev pub read : {A : Type 0} → (Store → A) → Store → Result A × Store
read f w = (ok (f w), w)

abbrev item_of : Text → NetnsItem
item_of n = record { name = n; id = none }

abbrev with_names : Store → List Text → Store
with_names w names = record w { base = record w.base { names = names } }

abbrev pub created : Option Text → Text → Store → Store
created none i w = w
created (some n) i w = record w { wireguards = λ n' i'. (eq n' n && eq i' i) || w.wireguards n' i' }

abbrev pub restored : Option Text → Text → Store → Store
restored none t w = w
restored (some n) t w = record w { saved = λ n'. if eq n' n then t else w.saved n' }

abbrev pub saved_of : Option Text → (Text → Text) → Text
saved_of none saved = []
saved_of (some n) saved = saved n

abbrev pub store_system : System sample
store_system = record {
  World = Store;
  netns_list = read (λ (w : Store). map item_of w.base.names);
  netns_exists = λ n. read (λ (w : Store). any (eq n) w.base.names);
  netns_add = λ n w. (ok tt, with_names w (n ∷ w.base.names));
  netns_del = λ n w. (ok tt, with_names w (filter (λ m. not (eq m n)) w.base.names));
  netns_write_file = λ n p t w.
      (ok tt, record w { files = λ n' p'. if eq n' n && eq p' p then some t else w.files n' p' });
  bridge_exists = λ o i. read (λ (w : Store). w.bridges i);
  bridge_add = λ o i w. (ok tt, record w { bridges = λ i'. eq i' i || w.bridges i' });
  addr_list = λ o i. read (λ (w : Store). w.addresses o i);
  addr_add = λ o i a w. (
    ok tt,
    record w {
      addresses = λ o' i'. if at o i o' i' then a ∷ w.addresses o' i' else w.addresses o' i';
    },
  );
  interface_show =
      λ o i. read (λ (w : Store). record { mtu = some (w.mtus o i); is_down = not (w.ups o i) });
  interface_mtu =
      λ o i m w. (ok tt, record w { mtus = λ o' i'. if at o i o' i' then m else w.mtus o' i' });
  interface_up = λ o i w. (ok tt, record w { ups = λ o' i'. at o i o' i' || w.ups o' i' });
  wireguard_exists = λ n i. read (λ (w : Store). w.wireguards n i);
  wireguard_create = λ o i w. (ok tt, created o i w);
  wireguard_syncconf = λ n i w. (
    ok tt,
    record w {
      devices = λ n' i'.
          if eq n' n && eq i' i
          then w.files n (text "wireguard/" ++ (i ++ text ".conf"))
          else w.devices n' i';
    },
  );
  wireguard_stats = λ n i.
      read (λ w. record {
        private_key = 0;
        public_key = 0;
        listen_port = 0;
        fwmark = none;
        peers = [];
      });
  veth_exists = λ n i. read (λ (w : Store). w.veths n i);
  veth_add =
      λ n i j w. (ok tt, record w { veths = λ n' i'. (eq n' n && eq i' i) || w.veths n' i' });
  link_get_master = λ o i. read (λ (w : Store). w.masters i);
  link_set_master =
      λ o i m w. (ok tt, record w { masters = λ i'. if eq i' i then some m else w.masters i' });
  iptables_save = λ o. read (λ (w : Store). saved_of o w.saved);
  iptables_restore = λ o t w. (ok tt, restored o t w);
  nginx_reload = λ w. (ok tt, record w { running = w.pages });
  is_file = λ p. read (λ w. false);
  write_file = λ p t w. (ok tt, record w { pages = λ p'. if eq p' p then some t else w.pages p' });
  now = read (λ w. 0);
  send_event = λ e. read (λ w. tt);
  send_traffic = λ t. read (λ w. tt);
  render_iptables = λ c. ok (text "-P INPUT DROP");
  render_nginx = λ f. ok [];
  render_sites = λ f. ok [];
  replace_counter = λ s. s;
}

abbrev has_name : Store → Text → Bool
has_name w n = any (eq n) w.base.names

created_names : (o : Option Text) (i : Text) → Frames has_name (store_system.wireguard_create o i)
created_names none i = record { frame = λ w. refl }
created_names (some n) i = record { frame = λ w. refl }

restored_names : (o : Option Text) (t : Text) → Frames has_name (store_system.iptables_restore o t)
restored_names none t = record { frame = λ w. refl }
restored_names (some n) t = record { frame = λ w. refl }

pub store_namespaces : Namespaces store_system
store_namespaces = record {
  has = has_name;
  listed = λ w items h. items_listed w.base items h;
  existing = λ n w b h. cc;
  added = λ n w h m. ground arith;
  deleted = λ n w h m. kept_names w.base.names n m;
  keeps-list = record { frame = λ w. refl };
  keeps-exists = λ n. record { frame = λ w. refl };
  keeps-write = λ n p t. record { frame = λ w. refl };
  keeps-bridge_exists = λ o i. record { frame = λ w. refl };
  keeps-bridge_add = λ o i. record { frame = λ w. refl };
  keeps-addr_list = λ o i. record { frame = λ w. refl };
  keeps-addr_add = λ o i a. record { frame = λ w. refl };
  keeps-show = λ o i. record { frame = λ w. refl };
  keeps-mtu = λ o i n. record { frame = λ w. refl };
  keeps-up = λ o i. record { frame = λ w. refl };
  keeps-wireguard_exists = λ n i. record { frame = λ w. refl };
  keeps-wireguard_create = created_names;
  keeps-syncconf = λ n i. record { frame = λ w. refl };
  keeps-veth_exists = λ n i. record { frame = λ w. refl };
  keeps-veth_add = λ n i j. record { frame = λ w. refl };
  keeps-get_master = λ o i. record { frame = λ w. refl };
  keeps-set_master = λ o i m. record { frame = λ w. refl };
  keeps-save = λ o. record { frame = λ w. refl };
  keeps-restore = restored_names;
  keeps-reload = record { frame = λ w. refl };
  keeps-write_file = λ p t. record { frame = λ w. refl };
}

pub store-Steady : Steady store_system
store-Steady = record {
  reads-netns_list = λ w. refl;
  reads-netns_exists = λ n w. refl;
  reads-bridge_exists = λ o i w. refl;
  reads-addr_list = λ o i w. refl;
  reads-interface_show = λ o i w. refl;
  reads-wireguard_exists = λ n i w. refl;
  reads-veth_exists = λ n i w. refl;
  reads-link_get_master = λ o i w. refl;
  reads-iptables_save = λ o w. refl;
  keeps-netns_write_file = λ n p t. record { frame = λ w. refl };
  keeps-wireguard_syncconf = λ n i. record { frame = λ w. refl };
}
