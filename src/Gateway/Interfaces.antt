-- ===== src/Gateway/Interfaces.antt =====
-- `apply_bridge`, `apply_addr`, `apply_interface_up` and `apply_link_master` of src/gateway.rs.
use fractalnetworks_gateway.Base.{
  Bool, true, not, any, Option, none, some, List, [], ◌∷◌, if◌then◌else◌,
}
use fractalnetworks_gateway.Base.Text.{Text, text, eq}
use fractalnetworks_gateway.Base.Result.{Call, pure, context, ◌>>=◌, ◌>>◌}
use fractalnetworks_gateway.Crates.{Crates}
use fractalnetworks_gateway.System.{System}

abbrev pub bridge_interface : Text
bridge_interface = text "ensbr0"

module _ {X : Crates} (S : System X) where
  -- `current.contains(addr)`
  abbrev pub has_addr : List X.IpNet → X.IpNet → Bool
  has_addr current addr = any (λ a. X.same_net a addr) current

  -- The loop of `apply_addr`.
  unfoldable pub add_missing :
      Option Text → Text → List X.IpNet → List X.IpNet → Call S.World (Unit {0})
  add_missing netns interface current [] = pure tt
  add_missing netns interface current (addr ∷ target) = do
    if has_addr current addr then pure tt else S.addr_add netns interface addr
    add_missing netns interface current target

  unfoldable pub apply_addr : Option Text → Text → List X.IpNet → Call S.World (Unit {0})
  apply_addr netns interface target = do
    current ← S.addr_list netns interface
    add_missing netns interface current target

  unfoldable pub apply_interface_up : Option Text → Text → Call S.World (Unit {0})
  apply_interface_up netns interface = do
    status ← S.interface_show netns interface
    if status.is_down then S.interface_up netns interface else pure tt

  -- `current.is_none() || current.as_deref() != Some(master)`
  abbrev pub is_other : Option Text → Text → Bool
  is_other none master = true
  is_other (some current) master = not (eq current master)

  unfoldable pub apply_link_master : Option Text → Text → Text → Call S.World (Unit {0})
  apply_link_master netns interface master = do
    current ← S.link_get_master netns interface
    if is_other current master
        then context (text "Setting master of interface") (S.link_set_master netns interface master)
        else pure tt

  -- The name that is passed is not read.
  unfoldable pub apply_bridge : Text → List X.IpNet → Call S.World (Unit {0})
  apply_bridge _name addr = do
    exists ← S.bridge_exists none bridge_interface
    if exists then pure tt else S.bridge_add none bridge_interface
    context (text "Setting up bridge interface") (apply_addr none bridge_interface addr)
    context (text "Bringing bridge interface up") (apply_interface_up none bridge_interface)
