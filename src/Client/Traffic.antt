-- ===== src/Client/Traffic.antt =====
-- `Traffic`, `TrafficInfo`, `NetworkTraffic` and `DeviceTraffic` of client/src/lib.rs. The sums are on
-- `usize`: they return a `Result`, since a debug build panics on overflow.
pub mod Totals
pub mod Cells
use fractalnetworks_gateway.Base.{ℕ, max, []}
use fractalnetworks_gateway.Base.Result.{Result, ok, bind_result}
use fractalnetworks_gateway.Base.Map.{Order, Map, get_or, insert}
use fractalnetworks_gateway.Base.Orders.{nat_order}
use fractalnetworks_gateway.Base.Word.{Build, add_usize}

pub record Traffic : Type 0 where
  pub rx : ℕ
  pub tx : ℕ

-- `Traffic::new`
abbrev pub new : ℕ → ℕ → Traffic
new rx tx = record { rx = rx; tx = tx }

abbrev pub default : Traffic
default = record { rx = 0; tx = 0 }

-- `Add for Traffic` and `Traffic::add`: the received bytes first.
unfoldable pub add : Build → Traffic → Traffic → Result Traffic
add b self rhs =
    bind_result (add_usize b self.rx rhs.rx)
      λ rx. bind_result (add_usize b self.tx rhs.tx) λ tx. ok (new rx tx)

-- `AddAssign for Traffic`: the sent bytes first.
unfoldable pub add_assign : Build → Traffic → Traffic → Result Traffic
add_assign b self other =
    bind_result (add_usize b self.tx other.tx)
      λ tx. bind_result (add_usize b self.rx other.rx) λ rx. ok (new rx tx)

pub record DeviceTraffic : Type 0 where
  pub traffic : Traffic
  pub times : Map ℕ Traffic

abbrev pub default_device : DeviceTraffic
default_device = record { traffic = default; times = [] }

-- `DeviceTraffic::add`
unfoldable pub add_device : Build → DeviceTraffic → ℕ → Traffic → Result DeviceTraffic
add_device b self time traffic =
    bind_result (add_assign b self.traffic traffic)
      λ total. ok (record { traffic = total; times = insert time traffic self.times })

pub record NetworkTraffic (Pubkey : Type 0) : Type 0 where
  pub traffic : Traffic
  pub devices : Map Pubkey DeviceTraffic

pub record TrafficInfo (Pubkey : Type 0) : Type 0 where
  pub start_time : ℕ
  pub stop_time : ℕ
  pub traffic : Traffic
  pub networks : Map Pubkey (NetworkTraffic Pubkey)

-- `TrafficInfo::new`
abbrev pub new_info : {Pubkey : Type 0} → ℕ → TrafficInfo Pubkey
new_info start_time = record {
  start_time = start_time;
  stop_time = start_time;
  traffic = default;
  networks = [];
}

abbrev pub default_network : {Pubkey : Type 0} → NetworkTraffic Pubkey
default_network = record { traffic = default; devices = [] }

module _ {Pubkey : Type 0} ⦃o : Order Pubkey⦄ where
  -- `NetworkTraffic::add`
  unfoldable pub add_network :
      Build → NetworkTraffic Pubkey → Pubkey → ℕ → Traffic → Result (NetworkTraffic Pubkey)
  add_network b self device time traffic = bind_result (add_assign b self.traffic traffic) λ total.
      bind_result (add_device b (get_or device default_device self.devices) time traffic)
        λ d. ok (record { traffic = total; devices = insert device d self.devices })

  -- `TrafficInfo::add`
  unfoldable pub add_info :
      Build → TrafficInfo Pubkey → Pubkey → Pubkey → ℕ → Traffic → Result (TrafficInfo Pubkey)
  add_info b self network device time traffic =
      bind_result (add_assign b self.traffic traffic) λ total.
        bind_result
          (add_network b (get_or network default_network self.networks) device time traffic)
          λ n. ok (record self {
            stop_time = max self.stop_time time;
            traffic = total;
            networks = insert network n self.networks;
          })
