-- ===== src/System/Store/Running.antt =====
-- What WireGuard and NGINX run with in the concrete system that keeps what is set.
use fractalnetworks_gateway.Base.{◌≡◌, ◌≢◌, refl, Option, none, some, false, inl, inr, Bool-cases}
use fractalnetworks_gateway.Base.Text.{Text, eq, eq_iff}
use fractalnetworks_gateway.Base.Frames.{Frames}
use fractalnetworks_gateway.Gateway.Effects.{Effects}
use fractalnetworks_gateway.System.Store.{Store, store_system}
use fractalnetworks_gateway.System.Store.Growing.{eq_refl}

apart_eq : (m n : Text) → m ≢ n → eq m n ≡ false
apart_eq m n apart = elim (Bool-cases (eq m n)) [
  | inl p ↦ absurd (apart ((eq_iff m n).0 p))
  | inr p ↦ p
]

restored_devices :
    (m j : Text) (o : Option Text) (t : Text)
    → Frames (λ (w : Store). w.devices m j) (store_system.iptables_restore o t)
restored_devices m j none t = record { frame = λ w. refl }
restored_devices m j (some n) t = record { frame = λ w. refl }

pub store-Effects : Effects store_system
store-Effects = record {
  files = λ w. w.files;
  devices = λ w. w.devices;
  pages = λ w. w.pages;
  running = λ w. w.running;
  written = λ n p t w h. rw (eq_refl n, eq_refl p) refl;
  synced = λ n i w h. rw (eq_refl n, eq_refl i) refl;
  stored = λ p t w h q. refl;
  reloaded = λ w h p. refl;
  files-addr_list = λ n p o i. record { frame = λ w. refl };
  files-addr_add = λ n p o i a. record { frame = λ w. refl };
  keeps-netns_exists = λ m j n. record { frame = λ w. refl };
  keeps-netns_add = λ m j n apart. record { frame = λ w. refl };
  keeps-write = λ m j n p t. record { frame = λ w. refl };
  keeps-addr_list = λ m j o i. record { frame = λ w. refl };
  keeps-addr_add = λ m j o i a. record { frame = λ w. refl };
  keeps-show = λ m j o i. record { frame = λ w. refl };
  keeps-mtu = λ m j o i n. record { frame = λ w. refl };
  keeps-up = λ m j o i. record { frame = λ w. refl };
  keeps-wireguard_exists = λ m j n i. record { frame = λ w. refl };
  keeps-wireguard_create = λ m j n i apart. record { frame = λ w. refl };
  keeps-syncconf = λ m j n i apart. record { frame = λ w. rw (apart_eq m n apart) refl };
  keeps-veth_exists = λ m j n i. record { frame = λ w. refl };
  keeps-veth_add = λ m j n i k. record { frame = λ w. refl };
  keeps-get_master = λ m j o i. record { frame = λ w. refl };
  keeps-set_master = λ m j o i k. record { frame = λ w. refl };
  keeps-save = λ m j o. record { frame = λ w. refl };
  keeps-restore = restored_devices;
  keeps-write_file = λ m j p t. record { frame = λ w. refl };
  keeps-reload = λ m j. record { frame = λ w. refl };
}
