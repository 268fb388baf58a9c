-- ===== src/Gateway/Effects/Serving.antt =====
-- What NGINX runs with after `apply_nginx` of src/gateway.rs.
use mathlib.Core.Path.{subst}
use fractalnetworks_gateway.Base.{◌≡◌, sym, ap, ◌∙◌, Option, some, List}
use fractalnetworks_gateway.Base.Text.{Text, eq}
use fractalnetworks_gateway.Base.Result.{ok, Call, lift, context, ◌>>=◌}
use fractalnetworks_gateway.Base.Frames.{Frames, bind_ok, context_ok}
use fractalnetworks_gateway.Base.Word.{Build}
use fractalnetworks_gateway.Crates.{Crates}
use fractalnetworks_gateway.Client.Config.{NetworkState}
use fractalnetworks_gateway.Types.Forwarding.{Forwarding}
use fractalnetworks_gateway.System.{System}
use fractalnetworks_gateway.Gateway.Nginx.{
  CustomForwarding, forwarding_of, apply_nginx, nginx_module_path, nginx_site_path,
}
use fractalnetworks_gateway.Gateway.Apply.{}
use fractalnetworks_gateway.Gateway.Effects.{Effects}

-- Where the call returns, the predicate holds.
pub record Leaves {W A : Type 0} (P : W → Type 0) (m : Call W A) : Type 0 where
  pub leaves : (w : W) (a : A) → (m w).0 ≡ ok a → P (m w).1

module _ {W : Type 0} {P : W → Type 0} where
  pub Leaves-later :
      {A B : Type 0} (m : Call W A) (k : A → Call W B)
      → ((a : A) → Leaves P (k a))
      → Leaves P (m >>= k)
  Leaves-later m k h = record {
    leaves =
        λ w b p. let (a, _, q, r) = bind_ok m k w b p in subst P (sym r) ((h a).leaves (m w).1 b q);
  }

  pub Leaves-context : {A : Type 0} (c : Text) (m : Call W A) → Leaves P m → Leaves P (context c m)
  unfolding context
  Leaves-context c m h = record { leaves = λ w a p. h.leaves w a (context_ok c m w a p) }

module _ {W : Type 0} {f : W → Option Text} {o : Option Text} where
  pub Leaves-here :
      {A B : Type 0} (m : Call W A) (k : A → Call W B)
      → Leaves (λ w. f w ≡ o) m
      → ((a : A) → Frames f (k a))
      → Leaves (λ w. f w ≡ o) (m >>= k)
  Leaves-here m k h frames = record {
    leaves = λ w b p.
        let (a, p', q, r) = bind_ok m k w b p in
        ap f r ∙ (frames a).frame (m w).1 ∙ h.leaves w a p';
  }

-- The configuration that was rendered for the networks, and NGINX runs with it.
pub record IsServed {X : Crates} {S : System X} (E : Effects S) (b : Build)
    (networks : List (NetworkState X)) (custom : CustomForwarding X) (w : S.World) : Type 0 where
  pub tables : Forwarding
  pub tables_ok : forwarding_of X b networks custom ≡ ok tables
  pub config : Text
  pub config_ok : S.render_nginx tables ≡ ok config
  pub sites : Text
  pub sites_ok : S.render_sites tables ≡ ok sites
  pub module_running : E.running w nginx_module_path ≡ some config
  pub sites_running : E.running w nginx_site_path ≡ some sites

module _ {X : Crates} {S : System X} (E : Effects S) (b : Build) (networks : List (NetworkState X))
    (custom : CustomForwarding X) where
  pub nginx-IsServed : Leaves (IsServed E b networks custom) (apply_nginx S b networks custom)
  unfolding apply_nginx lift eq
  nginx-IsServed = record {
    leaves = λ w u p.
        let (f, e, p₁, r₁) = bind_ok (lift (forwarding_of X b networks custom)) _ w u p in
        let (config, e₁, p₂, r₂) = bind_ok (lift (S.render_nginx f)) _ w u p₁ in
        let (_, q, p₃, r₃) = bind_ok (S.write_file nginx_module_path config) _ w u p₂ in
        let w₁ = (S.write_file nginx_module_path config w).1 in
        let (sites, e₂, p₄, r₄) = bind_ok (lift (S.render_sites f)) _ w₁ u p₃ in
        let (_, q', p₅, r₅) =
          bind_ok (S.write_file nginx_site_path sites) (λ _. S.nginx_reload) w₁ u p₄ in
        let w₂ = (S.write_file nginx_site_path sites w₁).1 in
        subst (IsServed E b networks custom) (sym (r₁ ∙ r₂ ∙ r₃ ∙ r₄ ∙ r₅)) (record {
          tables = f;
          tables_ok = e;
          config = config;
          config_ok = e₁;
          sites = sites;
          sites_ok = e₂;
          module_running =
              E.reloaded w₂ p₅ nginx_module_path
              ∙ E.stored nginx_site_path sites w₁ q' nginx_module_path
              ∙ E.stored nginx_module_path config w q nginx_module_path;
          sites_running =
              E.reloaded w₂ p₅ nginx_site_path
              ∙ E.stored nginx_site_path sites w₁ q' nginx_site_path;
        });
  }
