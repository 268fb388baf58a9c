-- ===== src/System/Store/Settling.antt =====
-- What the concrete system that keeps what is set does to what it answers.
use fractalnetworks_gateway.Base.{ℕ, true, ◌≡◌, refl, sym, ap, Option, none, some, arith}
use fractalnetworks_gateway.Base.Text.{Text, text, eq, eq_iff}
use fractalnetworks_gateway.Base.Result.{ok}
use fractalnetworks_gateway.Crates.Sample.{sample, SampleNet}
use mathlib.Core.Path.{subst}
use fractalnetworks_gateway.Base.Split.{lines, join, lacks, carriage_return}
use fractalnetworks_gateway.Gateway.Iptables.{clean_iptables}
use fractalnetworks_gateway.Gateway.Kernel.Placed.{Plain}
use fractalnetworks_gateway.Gateway.Kernel.{
  Fact, listing, namespace, bridge, wireguard, veth, readable, address, up, mtu, master, rules,
  IsRoot, Settles, Kernel,
}
use fractalnetworks_gateway.System.Store.{Store, store_system, store-Steady, at}
use fractalnetworks_gateway.System.Store.Restoring.{all_rules, restored_rules, restored-keeps}
use fractalnetworks_gateway.System.Store.Growing.{
  Holding, eq_refl, at_refl, has_added, had_added, chosen, at_eq, keep,
}

Settles-netns_add : (n : Text) → Settles store_system (store_system.netns_add n) (namespace n)
Settles-netns_add n = record {
  made = λ w p. ap ok (ground (arith, eq_refl n));
  kept = λ w g p agrees held.
      keep w (store_system.netns_add n w).1 (namespace n)
        (record {
          names = λ m h. ground (arith, h);
          bridges = λ i h. h;
          wireguards = λ n i h. h;
          veths = λ n i h. h;
          addresses = λ o i a h. h;
          ups = λ o i h. h;
          mtus = λ o i m h a. h;
          masters = λ i m h a. h;
          saved = λ n t h a. h;
        })
        g agrees held;
}

Settles-bridge_add : (i : Text) → Settles store_system (store_system.bridge_add none i) (bridge i)
Settles-bridge_add i = record {
  made = λ w p. ap ok (ground (arith, eq_refl i));
  kept = λ w g p agrees held.
      keep w (store_system.bridge_add none i w).1 (bridge i)
        (record {
          names = λ n h. h;
          bridges = λ j h. ground (arith, h);
          wireguards = λ n i h. h;
          veths = λ n i h. h;
          addresses = λ o i a h. h;
          ups = λ o i h. h;
          mtus = λ o i m h a. h;
          masters = λ i m h a. h;
          saved = λ n t h a. h;
        })
        g agrees held;
}

Settles-wireguard_create :
    (n i : Text) → Settles store_system (store_system.wireguard_create (some n) i) (wireguard n i)
Settles-wireguard_create n i = record {
  made = λ w p. ap ok (ground (arith, eq_refl n, eq_refl i));
  kept = λ w g p agrees held.
      keep w (store_system.wireguard_create (some n) i w).1 (wireguard n i)
        (record {
          names = λ n h. h;
          bridges = λ i h. h;
          wireguards = λ m j h. ground (arith, h);
          veths = λ n i h. h;
          addresses = λ o i a h. h;
          ups = λ o i h. h;
          mtus = λ o i m h a. h;
          masters = λ i m h a. h;
          saved = λ n t h a. h;
        })
        g agrees held;
}

Settles-veth_add : (n i : Text) → Settles store_system (store_system.veth_add n i i) (veth n i)
Settles-veth_add n i = record {
  made = λ w p. ap ok (ground (arith, eq_refl n, eq_refl i));
  kept = λ w g p agrees held.
      keep w (store_system.veth_add n i i w).1 (veth n i)
        (record {
          names = λ n h. h;
          bridges = λ i h. h;
          wireguards = λ n i h. h;
          veths = λ m j h. ground (arith, h);
          addresses = λ o i a h. h;
          ups = λ o i h. h;
          mtus = λ o i m h a. h;
          masters = λ i m h a. h;
          saved = λ n t h a. h;
        })
        g agrees held;
}

Settles-addr_add :
    (o : Option Text) (i : Text) (a : SampleNet)
    → Settles store_system (store_system.addr_add o i a) (address o i a)
Settles-addr_add o i a = record {
  made = λ w p. (_, refl, has_added (at o i o i) a (w.addresses o i) (at_refl o i));
  kept = λ w g p agrees held.
      keep w (store_system.addr_add o i a w).1 (address o i a)
        (record {
          names = λ n h. h;
          bridges = λ i h. h;
          wireguards = λ n i h. h;
          veths = λ n i h. h;
          addresses = λ o' i' b h. had_added (at o i o' i') a b (w.addresses o' i') h;
          ups = λ o i h. h;
          mtus = λ o i m h a. h;
          masters = λ i m h a. h;
          saved = λ n t h a. h;
        })
        g agrees held;
}

Settles-interface_up :
    (o : Option Text) (i : Text) → Settles store_system (store_system.interface_up o i) (up o i)
Settles-interface_up o i = record {
  made = λ w p. record { status = _; shown = refl; up = ground (arith, at_refl o i) };
  kept = λ w g p agrees held.
      keep w (store_system.interface_up o i w).1 (up o i)
        (record {
          names = λ n h. h;
          bridges = λ i h. h;
          wireguards = λ n i h. h;
          veths = λ n i h. h;
          addresses = λ o i a h. h;
          ups = λ o' i' h. ground (arith, h);
          mtus = λ o i m h a. h;
          masters = λ i m h a. h;
          saved = λ n t h a. h;
        })
        g agrees held;
}

Settles-interface_mtu :
    (o : Option Text) (i : Text) (m : ℕ)
    → Settles store_system (store_system.interface_mtu o i m) (mtu o i m)
Settles-interface_mtu o i m = record {
  made = λ w p. (_, refl, rw (at_refl o i) refl);
  kept = λ w g p agrees held.
      keep w (store_system.interface_mtu o i m w).1 (mtu o i m)
        (record {
          names = λ n h. h;
          bridges = λ i h. h;
          wireguards = λ n i h. h;
          veths = λ n i h. h;
          addresses = λ o i a h. h;
          ups = λ o i h. h;
          mtus = λ o' i' k h a.
              chosen (at o i o' i') m _ k h (λ e. let (s, j) = at_eq o i o' i' e in a s j);
          masters = λ i m h a. h;
          saved = λ n t h a. h;
        })
        g agrees held;
}

Settles-link_set_master :
    (i m : Text) → Settles store_system (store_system.link_set_master none i m) (master i m)
Settles-link_set_master i m = record {
  made = λ w p. ap ok (rw (eq_refl i) refl);
  kept = λ w g p agrees held.
      keep w (store_system.link_set_master none i m w).1 (master i m)
        (record {
          names = λ n h. h;
          bridges = λ i h. h;
          wireguards = λ n i h. h;
          veths = λ n i h. h;
          addresses = λ o i a h. h;
          ups = λ o i h. h;
          mtus = λ o i m h a. h;
          masters = λ j k h a.
              chosen (eq j i) (some m) _ (some k) h (λ e. ap some (a (sym ((eq_iff j i).0 e))));
          saved = λ n t h a. h;
        })
        g agrees held;
}

deletion-keeps :
    (n : Text) (w : Store) (g : Fact sample)
    → (store_system.netns_del n w).0 ≡ ok tt
    → IsRoot g
    → Holding w g
    → Holding (store_system.netns_del n w).1 g
deletion-keeps n w listing p r h = (_, refl)
deletion-keeps n w (bridge i) p r h = h
deletion-keeps n w (readable o i) p r h = h
deletion-keeps n w (address o i a) p r h = h
deletion-keeps n w (up o i) p r h = record { status = h.status; shown = h.shown; up = h.up }
deletion-keeps n w (namespace m) p r h = elim r [ ]
deletion-keeps n w (wireguard m i) p r h = elim r [ ]
deletion-keeps n w (veth m i) p r h = elim r [ ]
deletion-keeps n w (mtu o i m) p r h = elim r [ ]
deletion-keeps n w (master i m) p r h = elim r [ ]
deletion-keeps n w (rules m t) p r h = elim r [ ]

pub store-Kernel : Kernel store_system
store-Kernel = record {
  steady = store-Steady;
  add_netns = Settles-netns_add;
  add_bridge = Settles-bridge_add;
  create_wireguard = Settles-wireguard_create;
  add_veth = Settles-veth_add;
  add_addr = Settles-addr_add;
  bring_up = Settles-interface_up;
  set_mtu = Settles-interface_mtu;
  set_master = Settles-link_set_master;
  saved_form = λ t. all_rules (lines t) ≡ true;
  restored = restored_rules;
  restore-keeps = restored-keeps;
  delete-keeps = deletion-keeps;
  keeps-write_file = λ p t. record { frame = λ w. refl };
  keeps-nginx_reload = record { frame = λ w. refl };
}

-- What is rendered there is in the form that is saved.
pub store-Plain : Plain store-Kernel
unfolding store-Kernel clean_iptables lines join
store-Plain config t h =
    let same : text "-P INPUT DROP" ≡ t = cc in
    subst
      (λ s.
        (lacks carriage_return s ≡ true)
        × store-Kernel.saved_form (clean_iptables store_system.replace_counter s))
      same (refl, refl)
