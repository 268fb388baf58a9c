-- ===== src/Client/Traffic/Totals.antt =====
-- The totals of a `TrafficInfo` agree with what it holds per network and per device.
use mathlib.Core.Path.{subst}
use fractalnetworks_gateway.Base.{
  ℕ, max, inl, inr, Bool-cases, Option-cases, ◌+◌, ◌%◌, ◌≡◌, refl, some, arith,
}
use fractalnetworks_gateway.Base.Result.{ok, bind_result-eq-ok}
use fractalnetworks_gateway.Base.Map.{Order, Map, same, get, get_or, insert}
use fractalnetworks_gateway.Base.Map.Laws.{IsSorted, get-nil, get-insert, insert-IsSorted}
use fractalnetworks_gateway.Base.Map.Sums.{measure, sum_by, sum-insert}
use fractalnetworks_gateway.Base.Word.{Build, usize_size, add_usize-mod}
use fractalnetworks_gateway.Client.Traffic.{
  Traffic, DeviceTraffic, NetworkTraffic, TrafficInfo, add_assign, add_device, add_network,
  add_info, default_device, default_network, new_info,
}

abbrev pub rx_of_device : DeviceTraffic → ℕ
rx_of_device d = d.traffic.rx

abbrev pub tx_of_device : DeviceTraffic → ℕ
tx_of_device d = d.traffic.tx

abbrev pub rx_of_network : {Pubkey : Type 0} → NetworkTraffic Pubkey → ℕ
rx_of_network n = n.traffic.rx

abbrev pub tx_of_network : {Pubkey : Type 0} → NetworkTraffic Pubkey → ℕ
tx_of_network n = n.traffic.tx

-- The sum of two traffic items, modulo the word.
abbrev pub IsSum : Traffic → Traffic → Traffic → Type 0
IsSum s t u = (u.rx ≡ (s.rx + t.rx) % usize_size) × (u.tx ≡ (s.tx + t.tx) % usize_size)

pub add_assign-IsSum : (b : Build) (s t u : Traffic) → add_assign b s t ≡ ok u → IsSum s t u
unfolding add_assign
add_assign-IsSum b s t u h =
    ground (arith, add_usize-mod b s.rx t.rx u.rx, add_usize-mod b s.tx t.tx u.tx)

-- A total stays the sum of its parts when one part and the total grow by the same amount.
total_step :
    (total total' sum sum' old new t : ℕ)
    → total ≡ sum % usize_size
    → total' ≡ (total + t) % usize_size
    → new ≡ (old + t) % usize_size
    → sum' + old ≡ sum + new
    → total' ≡ sum' % usize_size
total_step total total' sum sum' old new t p q r s = omega arith

-- What `add_device` does to the total of the device.
pub add_device-IsSum :
    (b : Build) (d d' : DeviceTraffic) (time : ℕ) (t : Traffic)
    → add_device b d time t ≡ ok d'
    → IsSum d.traffic t d'.traffic
unfolding add_device
add_device-IsSum b d d' time t h =
    let (total, p, q) = bind_result-eq-ok (add_assign b d.traffic t) _ d' h in
    let sums = add_assign-IsSum b d.traffic t total p in ground (arith, sums)

module _ {Pubkey : Type 0} ⦃o : Order Pubkey⦄ where
  -- The network's total is the sum over its devices, modulo the word.
  pub record NetworkTotals (n : NetworkTraffic Pubkey) : Type 0 where
    pub sorted : IsSorted n.devices
    pub rx : n.traffic.rx ≡ sum_by rx_of_device n.devices % usize_size
    pub tx : n.traffic.tx ≡ sum_by tx_of_device n.devices % usize_size

  pub record InfoTotals (i : TrafficInfo Pubkey) : Type 0 where
    pub sorted : IsSorted i.networks
    pub rx : i.traffic.rx ≡ sum_by rx_of_network i.networks % usize_size
    pub tx : i.traffic.tx ≡ sum_by tx_of_network i.networks % usize_size
    pub each :
        (k : Pubkey) (n : NetworkTraffic Pubkey) → get k i.networks ≡ some n → NetworkTotals n

  pub default_network-NetworkTotals : NetworkTotals default_network
  default_network-NetworkTotals = record { sorted = tt; rx = refl; tx = refl }

  -- What `add_network` went through when it returned.
  pub add_network_parts :
      (b : Build) (n n' : NetworkTraffic Pubkey) (device : Pubkey) (time : ℕ) (t : Traffic)
      → add_network b n device time t ≡ ok n'
      → (total : Traffic) × (d : DeviceTraffic) × (IsSum n.traffic t total)
        × (add_device b (get_or device default_device n.devices) time t ≡ ok d)
        × (n' ≡ record { traffic = total; devices = insert device d n.devices })
  unfolding add_network
  add_network_parts b n n' device time t h =
      let (total, p, q) = bind_result-eq-ok (add_assign b n.traffic t) _ n' h in
      let (d, r, s) =
        bind_result-eq-ok (add_device b (get_or device default_device n.devices) time t) _ n' q in
      (total, d, add_assign-IsSum b n.traffic t total p, r, ground arith)

  measure-rx_of_device :
      (k : Pubkey) (m : Map Pubkey DeviceTraffic)
      → measure rx_of_device (get k m) ≡ (get_or k default_device m).traffic.rx
  measure-rx_of_device k m = ground arith

  measure-tx_of_device :
      (k : Pubkey) (m : Map Pubkey DeviceTraffic)
      → measure tx_of_device (get k m) ≡ (get_or k default_device m).traffic.tx
  measure-tx_of_device k m = ground arith

  pub add_network-NetworkTotals :
      (b : Build) (n n' : NetworkTraffic Pubkey) (device : Pubkey) (time : ℕ) (t : Traffic)
      → NetworkTotals n
      → add_network b n device time t ≡ ok n'
      → NetworkTotals n' × IsSum n.traffic t n'.traffic
  add_network-NetworkTotals b n n' device time t h e =
      let (total, d, sums, p, q) = add_network_parts b n n' device time t e in
      let old = get_or device default_device n.devices in
      let grown = add_device-IsSum b old d time t p in
      rw q (
        record {
          sorted = insert-IsSorted device d n.devices h.sorted;
          rx =
              total_step n.traffic.rx total.rx _ _ old.traffic.rx d.traffic.rx t.rx h.rx sums.0
                grown.0
                (rw (← measure-rx_of_device device n.devices)
                  (sum-insert rx_of_device device d n.devices h.sorted));
          tx =
              total_step n.traffic.tx total.tx _ _ old.traffic.tx d.traffic.tx t.tx h.tx sums.1
                grown.1
                (rw (← measure-tx_of_device device n.devices)
                  (sum-insert tx_of_device device d n.devices h.sorted));
        },
        sums,
      )

  pub add_info_parts :
      (b : Build) (i i' : TrafficInfo Pubkey) (network device : Pubkey) (time : ℕ) (t : Traffic)
      → add_info b i network device time t ≡ ok i'
      → (total : Traffic) × (n : NetworkTraffic Pubkey) × (IsSum i.traffic t total)
        × (add_network b (get_or network default_network i.networks) device time t ≡ ok n)
        × (i' ≡ record i {
          stop_time = max i.stop_time time;
          traffic = total;
          networks = insert network n i.networks;
        })
  unfolding add_info
  add_info_parts b i i' network device time t h =
      let (total, p, q) = bind_result-eq-ok (add_assign b i.traffic t) _ i' h in
      let (n, r, s) =
        bind_result-eq-ok (add_network b (get_or network default_network i.networks) device time t)
          _ i' q in
      (total, n, add_assign-IsSum b i.traffic t total p, r, ground arith)

  measure-rx_of_network :
      (k : Pubkey) (m : Map Pubkey (NetworkTraffic Pubkey))
      → measure rx_of_network (get k m) ≡ (get_or k default_network m).traffic.rx
  measure-rx_of_network k m = ground arith

  measure-tx_of_network :
      (k : Pubkey) (m : Map Pubkey (NetworkTraffic Pubkey))
      → measure tx_of_network (get k m) ≡ (get_or k default_network m).traffic.tx
  measure-tx_of_network k m = ground arith

  get_or-NetworkTotals :
      (i : TrafficInfo Pubkey) (k : Pubkey)
      → InfoTotals i
      → NetworkTotals (get_or k default_network i.networks)
  get_or-NetworkTotals i k h = elim (Option-cases (get k i.networks)) [
    | inl p ↦ rw (p, get_or) default_network-NetworkTotals
    | inr (n, p) ↦ rw (p, get_or) (h.each k n p)
  ]

  each_after :
      (i : TrafficInfo Pubkey) (network : Pubkey) (n : NetworkTraffic Pubkey)
      → InfoTotals i
      → NetworkTotals n
      → (k : Pubkey) (m : NetworkTraffic Pubkey) → get k (insert network n i.networks) ≡ some m
      → NetworkTotals m
  each_after i network n h hn k m e = elim (Bool-cases (same k network)) [
    | inl p ↦ subst NetworkTotals (ground (arith, get-insert k network n i.networks)) hn
    | inr p ↦ h.each k m (ground (arith, get-insert k network n i.networks))
  ]

  -- If the total of the slice and that of each network in it are the sums of their parts modulo
  -- the word, they still are after an item is added, in any build, when the call returns; and the
  -- slice's total has grown by the item, modulo the word.
  pub add_info-InfoTotals :
      (b : Build) (i i' : TrafficInfo Pubkey) (network device : Pubkey) (time : ℕ) (t : Traffic)
      → InfoTotals i
      → add_info b i network device time t ≡ ok i'
      → InfoTotals i' × IsSum i.traffic t i'.traffic
  add_info-InfoTotals b i i' network device time t h e =
      let (total, n, sums, p, q) = add_info_parts b i i' network device time t e in
      let old = get_or network default_network i.networks in
      let (hn, grown) =
        add_network-NetworkTotals b old n device time t (get_or-NetworkTotals i network h) p in
      rw q (
        record {
          sorted = insert-IsSorted network n i.networks h.sorted;
          rx =
              total_step i.traffic.rx total.rx _ _ old.traffic.rx n.traffic.rx t.rx h.rx sums.0
                grown.0
                (rw (← measure-rx_of_network network i.networks)
                  (sum-insert rx_of_network network n i.networks h.sorted));
          tx =
              total_step i.traffic.tx total.tx _ _ old.traffic.tx n.traffic.tx t.tx h.tx sums.1
                grown.1
                (rw (← measure-tx_of_network network i.networks)
                  (sum-insert tx_of_network network n i.networks h.sorted));
          each = each_after i network n h hn;
        },
        sums,
      )

  -- A new slice has agreeing totals.
  pub new_info-InfoTotals : (start : ℕ) → InfoTotals (new_info {Pubkey = Pubkey} start)
  new_info-InfoTotals start = record {
    sorted = tt;
    rx = refl;
    tx = refl;
    each = λ k n e. cc (get-nil {V = NetworkTraffic Pubkey} k);
  }
