-- ===== src/Tests/ClientCrate.antt =====
-- The theorems on the configuration and the traffic of the client crate at concrete inputs.
use fractalnetworks_gateway.Base.{ℕ, ◌≡◌, refl, none, max, [], ◌∷◌}
use fractalnetworks_gateway.Base.Result.{Result, ok}
use fractalnetworks_gateway.Base.Map.{get, insert}
use fractalnetworks_gateway.Base.Orders.{nat_order}
use fractalnetworks_gateway.Base.Word.{debug, add_usize}
use fractalnetworks_gateway.Client.Config.{apply_partial}
use fractalnetworks_gateway.Client.Config.Partial.{get-apply_partial}
use fractalnetworks_gateway.Client.Traffic.{
  TrafficInfo, new, new_info, add_assign, add_device, add_network, add_info,
}
use fractalnetworks_gateway.Client.Traffic.Totals.{
  InfoTotals, IsSum, new_info-InfoTotals, add_info-InfoTotals,
}
use fractalnetworks_gateway.Client.Traffic.Cells.{cell, add_info-cell, add_info_elsewhere}
use fractalnetworks_gateway.Tests.Data.{old_config, change}

get-apply_partial_example : get 5 (apply_partial old_config change) ≡ none
unfolding get
get-apply_partial_example = get-apply_partial 5 old_config change ((refl, tt), (tt, tt))

abbrev added : Result (TrafficInfo ℕ) → TrafficInfo ℕ
added (ok i) = i
added (Result.err e) = new_info 0
added Result.panic = new_info 0

-- A slice with one item.
abbrev one_item : TrafficInfo ℕ
one_item = record {
  start_time = 0;
  stop_time = 1000;
  traffic = new 3 4;
  networks =
      (
        2,
        record {
          traffic = new 3 4;
          devices = (7, record { traffic = new 3 4; times = (1000, new 3 4) ∷ [] }) ∷ [];
        },
      )
      ∷ [];
}

one_item_added : add_info debug (new_info 0) 2 7 1000 (new 3 4) ≡ ok one_item
unfolding add_info add_network add_device add_assign add_usize get insert
one_item_added = refl

add_info-InfoTotals_example : InfoTotals one_item × IsSum (new 0 0) (new 3 4) one_item.traffic
add_info-InfoTotals_example =
    add_info-InfoTotals debug (new_info 0) one_item 2 7 1000 (new 3 4) (new_info-InfoTotals 0)
      one_item_added

add_info-cell_example :
    (add_device debug (cell {Pubkey = ℕ} (new_info 0) 2 7) 1000 (new 3 4)
      ≡ ok (cell {Pubkey = ℕ} one_item 2 7))
    × (one_item.stop_time ≡ max 0 1000)
    × (one_item.start_time ≡ 0)
add_info-cell_example = add_info-cell debug (new_info 0) one_item 2 7 1000 (new 3 4) one_item_added

add_info_elsewhere_example : cell {Pubkey = ℕ} one_item 2 8 ≡ cell {Pubkey = ℕ} (new_info 0) 2 8
add_info_elsewhere_example =
    add_info_elsewhere debug (new_info 0) one_item 2 7 1000 (new 3 4) 2 8 one_item_added refl
