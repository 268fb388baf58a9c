-- ===== src/Client/Traffic/Cells.antt =====
-- What one item changes in a `TrafficInfo`: the cell of its device in its network, and no other.
use fractalnetworks_gateway.Base.{ℕ, ◌%◌, ◌≡◌, false, ◌&&◌, none, arith, max}
use fractalnetworks_gateway.Base.Result.{ok, bind_result-eq-ok}
use fractalnetworks_gateway.Base.Map.{Order, same, get, get_or, insert}
use fractalnetworks_gateway.Base.Map.Laws.{IsSorted, get-insert, insert-IsSorted, same→eq}
use fractalnetworks_gateway.Base.Map.Sums.{sum_by, sum-insert}
use fractalnetworks_gateway.Base.Orders.{nat_order}
use fractalnetworks_gateway.Base.Word.{Build, usize_size}
use fractalnetworks_gateway.Client.Traffic.{
  Traffic, DeviceTraffic, NetworkTraffic, TrafficInfo, add_assign, add_device, add_info,
  default_device, default_network,
}
use fractalnetworks_gateway.Client.Traffic.Totals.{
  add_network_parts, add_info_parts, add_assign-IsSum,
}

module _ {Pubkey : Type 0} ⦃o : Order Pubkey⦄ where
  abbrev pub device_of : NetworkTraffic Pubkey → Pubkey → DeviceTraffic
  device_of n d = get_or d default_device n.devices

  abbrev pub network_of : TrafficInfo Pubkey → Pubkey → NetworkTraffic Pubkey
  network_of i n = get_or n default_network i.networks

  -- The entry of a device in a network, the default if there is none.
  abbrev pub cell : TrafficInfo Pubkey → Pubkey → Pubkey → DeviceTraffic
  cell i n d = device_of (network_of i n) d

  cells_after :
      (b : Build) (i i' : TrafficInfo Pubkey) (network device : Pubkey) (time : ℕ) (t : Traffic)
      → add_info b i network device time t ≡ ok i'
      → (add_device b (cell i network device) time t ≡ ok (cell i' network device))
        × ((n d : Pubkey) → (same n network && same d device) ≡ false → cell i' n d ≡ cell i n d)
        × (i'.stop_time ≡ max i.stop_time time)
        × (i'.start_time ≡ i.start_time)
  cells_after b i i' network device time t e =
      let (total, n', _, p, q) = add_info_parts b i i' network device time t e in
      let (total', d', _, r, s) = add_network_parts b (network_of i network) n' device time t p in
      (
        ground (
          arith,
          o.cmp_refl network,
          o.cmp_refl device,
          get-insert network network n' i.networks,
          get-insert device device d' (network_of i network).devices,
        ),
        λ n d h. ground (
          arith,
          get-insert n network n' i.networks,
          get-insert d device d' (network_of i network).devices,
          same→eq n network,
        ),
        ground arith,
        ground arith,
      )

  -- When an item is added to a slice and the call returns, the cell of its network and device gets
  -- the traffic at its time as `add_device` adds it there, the slice ends at the later of its old
  -- end and the item's time, and its start stays.
  pub add_info-cell :
      (b : Build) (i i' : TrafficInfo Pubkey) (network device : Pubkey) (time : ℕ) (t : Traffic)
      → add_info b i network device time t ≡ ok i'
      → (add_device b (cell i network device) time t ≡ ok (cell i' network device))
        × (i'.stop_time ≡ max i.stop_time time)
        × (i'.start_time ≡ i.start_time)
  add_info-cell b i i' network device time t e =
      let (own, _, stop, start) = cells_after b i i' network device time t e in (own, stop, start)

  -- When an item is added to a slice and the call returns, every other cell, of this network or of
  -- another, stays.
  pub add_info_elsewhere :
      (b : Build) (i i' : TrafficInfo Pubkey) (network device : Pubkey) (time : ℕ) (t : Traffic)
      (n d : Pubkey)
      → add_info b i network device time t ≡ ok i'
      → (same n network && same d device) ≡ false
      → cell i' n d ≡ cell i n d
  add_info_elsewhere b i i' network device time t n d e h =
      let (_, others, _, _) = cells_after b i i' network device time t e in others n d h

abbrev pub rx_of : Traffic → ℕ
rx_of t = t.rx

abbrev pub tx_of : Traffic → ℕ
tx_of t = t.tx

-- The device's total is the sum over its timestamps, modulo the word.
pub record TimesTotal (d : DeviceTraffic) : Type 0 where
  pub sorted : IsSorted d.times
  pub rx : d.traffic.rx ≡ sum_by rx_of d.times % usize_size
  pub tx : d.traffic.tx ≡ sum_by tx_of d.times % usize_size

-- If a device's total is the sum over its timestamps modulo the word, it still is after traffic is
-- added at a timestamp that it did not have, in any build, when the call returns.
add_device-TimesTotal :
    (b : Build) (d d' : DeviceTraffic) (time : ℕ) (t : Traffic)
    → TimesTotal d
    → get time d.times ≡ none
    → add_device b d time t ≡ ok d'
    → TimesTotal d'
unfolding add_device
add_device-TimesTotal b d d' time t h fresh e =
    let (total, p, q) = bind_result-eq-ok (add_assign b d.traffic t) _ d' e in
    let sums = add_assign-IsSum b d.traffic t total p in
    let shape : d' ≡ record { traffic = total; times = insert time t d.times } = ground arith in
    rw shape (record {
      sorted = insert-IsSorted time t d.times h.sorted;
      rx = omega (arith, h.rx, sums.0, rw fresh at (sum-insert rx_of time t d.times h.sorted));
      tx = omega (arith, h.tx, sums.1, rw fresh at (sum-insert tx_of time t d.times h.sorted));
    })
