-- ===== src/Gateway/Nginx.antt =====
-- `apply_nginx` and `startup` of src/gateway.rs, with the options of src/lib.rs that they read.
pub mod Tables
use fractalnetworks_gateway.Base.{ℕ, Bool, true, false, List, [], ◌∷◌, if◌then◌else◌}
use fractalnetworks_gateway.Base.Text.{Text, text}
use fractalnetworks_gateway.Base.Result.{Result, ok, bind_result, Call, pure, lift, ◌>>=◌, ◌>>◌}
use fractalnetworks_gateway.Base.Word.{Build}
use fractalnetworks_gateway.Crates.{Crates, SocketAddr}
use fractalnetworks_gateway.Client.Config.{NetworkState}
use fractalnetworks_gateway.Types.Forwarding.{Forwarding, new, add, add_custom}
use fractalnetworks_gateway.System.{System}

abbrev pub nginx_module_path : Text
nginx_module_path = text "/etc/nginx/modules-enabled/gateway.conf"

abbrev pub nginx_site_path : Text
nginx_site_path = text "/etc/nginx/sites-enabled/gateway.conf"

module _ (X : Crates) where
  -- `options.custom_forwarding`
  abbrev pub CustomForwarding : Type 0
  CustomForwarding = List (X.Url × SocketAddr)

  unfoldable pub add_networks : Build → Forwarding → List (NetworkState X) → Result Forwarding
  add_networks b f [] = ok f
  add_networks b f (network ∷ networks) =
      bind_result (add X b f network) λ f'. add_networks b f' networks

  unfoldable pub add_customs : Forwarding → CustomForwarding → Result Forwarding
  add_customs f [] = ok f
  add_customs f ((url, socket) ∷ custom) =
      bind_result (add_custom X f url socket) λ f'. add_customs f' custom

  -- The tables that `apply_nginx` renders.
  unfoldable pub forwarding_of :
      Build → List (NetworkState X) → CustomForwarding → Result Forwarding
  forwarding_of b networks custom =
      bind_result (add_networks b new networks) λ f. add_customs f custom

module _ {X : Crates} (S : System X) where
  unfoldable pub apply_nginx :
      Build → List (NetworkState X) → CustomForwarding X → Call S.World (Unit {0})
  apply_nginx b networks custom = do
    forwarding ← lift (forwarding_of X b networks custom)
    config ← lift (S.render_nginx forwarding)
    S.write_file nginx_module_path config
    sites ← lift (S.render_sites forwarding)
    S.write_file nginx_site_path sites
    S.nginx_reload

  unfoldable pub startup : Build → CustomForwarding X → Call S.World (Unit {0})
  startup b custom = do
    present ← S.is_file nginx_module_path
    if present then pure tt else apply_nginx b [] custom
