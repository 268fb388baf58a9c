-- ===== src/System/Sample.antt =====
-- A concrete world that meets what the theorems assume of the outside calls: it holds the names of the
-- network namespaces and the events that were sent, and its clock stands still. It serves the examples.
use fractalnetworks_gateway.Base.{
  ◌+◌, ◌*◌, ◌≡◌, refl, ap, true, false, not, ◌||◌, any, filter, none, some, List, [], ◌∷◌, ◌++◌,
  map, if◌then◌else◌, arith, inl, inr, Bool-cases,
}
use fractalnetworks_gateway.Base.Text.{Text, eq, eq_iff}
use fractalnetworks_gateway.Base.Result.{Result, ok}
use fractalnetworks_gateway.Base.Time.{unix_epoch, nanos}
use fractalnetworks_gateway.Crates.Sample.{sample}
use fractalnetworks_gateway.Client.Event.{GatewayEvent}
use fractalnetworks_gateway.Types.Stats.{NetworkStats, NetnsItem}
use fractalnetworks_gateway.System.{System}
use fractalnetworks_gateway.Watchdog.Peer.Events.{Journal}
use fractalnetworks_gateway.Gateway.Namespaces.{Namespaces}

pub record SampleWorld : Type 0 where
  pub names : List Text
  pub events : List (GatewayEvent sample)

-- A call that returns a value and changes nothing.
abbrev pub answer {ℓ} : {A : Type ℓ} → A → SampleWorld → Result A × SampleWorld
answer a w = (ok a, w)

abbrev item_of : Text → NetnsItem
item_of n = record { name = n; id = none }

abbrev no_stats : NetworkStats sample
no_stats = record { private_key = 0; public_key = 0; listen_port = 0; fwmark = none; peers = [] }

abbrev pub sample_system : System sample
sample_system = record {
  World = SampleWorld;
  netns_list = λ w. (ok (map item_of w.names), w);
  netns_exists = λ n w. (ok (any (eq n) w.names), w);
  netns_add = λ n w. (ok tt, record w { names = n ∷ w.names });
  netns_del = λ n w. (ok tt, record w { names = filter (λ m. not (eq m n)) w.names });
  netns_write_file = λ n p t. answer tt;
  bridge_exists = λ o i. answer true;
  bridge_add = λ o i. answer tt;
  addr_list = λ o i. answer [];
  addr_add = λ o i a. answer tt;
  interface_show = λ o i. answer (record { mtu = some 1420; is_down = true });
  interface_mtu = λ o i n. answer tt;
  interface_up = λ o i. answer tt;
  wireguard_exists = λ n i. answer false;
  wireguard_create = λ o i. answer tt;
  wireguard_syncconf = λ n i. answer tt;
  wireguard_stats = λ n i. answer no_stats;
  veth_exists = λ n i. answer false;
  veth_add = λ n i j. answer tt;
  link_get_master = λ o i. answer none;
  link_set_master = λ o i m. answer tt;
  iptables_save = λ o. answer [];
  iptables_restore = λ o t. answer tt;
  nginx_reload = answer tt;
  is_file = λ p. answer false;
  write_file = λ p t. answer tt;
  now = answer (unix_epoch + 1000 * nanos);
  send_event = λ e w. (ok tt, record w { events = w.events ++ (e ∷ []) });
  send_traffic = λ t. answer tt;
  render_iptables = λ c. ok [];
  render_nginx = λ f. ok [];
  render_sites = λ f. ok [];
  replace_counter = λ s. s;
}

abbrev pub sample_journal : Journal sample_system
sample_journal = record {
  sent = λ w. w.events;
  sent-ok = λ e w h. refl;
  sent-failed = λ e w h. absurd (h refl);
  sent-now = λ w. refl;
  sent-netns_list = λ w. refl;
  sent-traffic = λ t w. refl;
  sent-wireguard_stats = λ n i w. refl;
}

listed_names :
    (names : List Text) (n : Text)
    → any (λ (i : NetnsItem). eq n i.name) (map item_of names) ≡ any (eq n) names
listed_names [] n = refl
listed_names (m ∷ names) n = ap (λ b. eq n m || b) (listed_names names n)

pub items_listed :
    (w : SampleWorld) (items : List NetnsItem)
    → ok (map item_of w.names) ≡ ok items
    → (n : Text) → any (λ (i : NetnsItem). eq n i.name) items ≡ any (eq n) w.names
items_listed w items h n =
    let e : map item_of w.names ≡ items = cc in rw (← e) (listed_names w.names n)

pub kept_names :
    (names : List Text) (n m : Text)
    → any (eq m) (filter (λ k. not (eq k n)) names) ≡ (if eq m n then false else any (eq m) names)
kept_names [] n m = ground arith
kept_names (k ∷ names) n m = elim (Bool-cases (eq m k)) [
  | inl p ↦
      let e = (eq_iff m k).0 p in rw e (ground (arith, kept_names names n k, (eq_iff k k).1 refl))
  | inr p ↦ ground (arith, kept_names names n m, p)
]

abbrev pub sample_namespaces : Namespaces sample_system
sample_namespaces = record {
  has = λ w n. any (eq n) w.names;
  listed = items_listed;
  existing = λ n w b h. cc;
  added = λ n w h m. ground arith;
  deleted = λ n w h m. kept_names w.names n m;
  keeps-list = record { frame = λ w. refl };
  keeps-exists = λ n. record { frame = λ w. refl };
  keeps-write = λ n p t. record { frame = λ w. refl };
  keeps-bridge_exists = λ o i. record { frame = λ w. refl };
  keeps-bridge_add = λ o i. record { frame = λ w. refl };
  keeps-addr_list = λ o i. record { frame = λ w. refl };
  keeps-addr_add = λ o i a. record { frame = λ w. refl };
  keeps-show = λ o i. record { frame = λ w. refl };
  keeps-mtu = λ o i n. record { frame = λ w. refl };
  keeps-up = λ o i. record { frame = λ w. refl };
  keeps-wireguard_exists = λ n i. record { frame = λ w. refl };
  keeps-wireguard_create = λ o i. record { frame = λ w. refl };
  keeps-syncconf = λ n i. record { frame = λ w. refl };
  keeps-veth_exists = λ n i. record { frame = λ w. refl };
  keeps-veth_add = λ n i j. record { frame = λ w. refl };
  keeps-get_master = λ o i. record { frame = λ w. refl };
  keeps-set_master = λ o i m. record { frame = λ w. refl };
  keeps-save = λ o. record { frame = λ w. refl };
  keeps-restore = λ o t. record { frame = λ w. refl };
  keeps-reload = record { frame = λ w. refl };
  keeps-write_file = λ p t. record { frame = λ w. refl };
}
