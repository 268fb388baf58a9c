-- ===== src/Gateway/Iptables.antt =====
-- `clean_iptables` and `apply_forwarding` of src/gateway.rs.
pub mod Cleaning
pub mod Shown
pub mod Rules
use fractalnetworks_gateway.Base.{
  ℕ, Bool, true, false, not, ◌&&◌, ◌==◌, filter, map, some, List, [], ◌∷◌, ◌++◌, if◌then◌else◌,
}
use fractalnetworks_gateway.Base.Text.{Text, newline, eq}
use fractalnetworks_gateway.Base.Split.{lines, join}
use fractalnetworks_gateway.Base.Result.{Call, pure, lift, ◌>>=◌}
use fractalnetworks_gateway.Base.Word.{Build}
use fractalnetworks_gateway.Crates.{Crates}
use fractalnetworks_gateway.Client.Config.{NetworkState}
use fractalnetworks_gateway.Types.Names.{netns_name}
use fractalnetworks_gateway.Types.Ports.{port_config}
use fractalnetworks_gateway.System.{System}

abbrev pub is_rule : Text → Bool
is_rule [] = true
is_rule (c ∷ line) = not (c == b'#')

abbrev pub is_filled : Text → Bool
is_filled [] = false
is_filled (c ∷ line) = true

unfoldable pub clean_iptables : (Text → Text) → Text → Text
clean_iptables replace_counter input =
    join (newline ∷ []) (map replace_counter (filter is_filled (filter is_rule (lines input))))
    ++ (newline ∷ [])

module _ {X : Crates} (S : System X) where
  unfoldable pub apply_forwarding : Build → NetworkState X → Call S.World (Unit {0})
  apply_forwarding b network = do
    config ← lift (port_config b network)
    rendered ← lift (S.render_iptables config)
    current ← S.iptables_save (some (netns_name network))
    let savefile = clean_iptables S.replace_counter rendered
    if not (eq savefile (clean_iptables S.replace_counter current))
        then S.iptables_restore (some (netns_name network)) savefile
        else pure tt
