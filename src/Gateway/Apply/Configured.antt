-- ===== src/Gateway/Apply/Configured.antt =====
-- What `apply` and `apply_partial` leave in the configuration that `Global` keeps.
use fractalnetworks_gateway.Base.{
  ℕ, ◌≡◌, refl, ap, sym, append-nil, ◌∙◌, inl, inr, Bool-cases, none, some, List, [], ◌∷◌, ◌++◌,
}
use fractalnetworks_gateway.Base.Text.{Text}
use fractalnetworks_gateway.Base.Result.{Result, ok, err, panic, Call, continue, ◌>>=◌, ◌>>◌}
use fractalnetworks_gateway.Base.Map.{insert, remove}
use fractalnetworks_gateway.Base.Orders.{nat_order}
use fractalnetworks_gateway.Base.Word.{Build}
use fractalnetworks_gateway.Crates.{Crates}
use fractalnetworks_gateway.Client.Config
use fractalnetworks_gateway.Client.Config.{NetworkState, GatewayConfig, GatewayConfigPartial}
use fractalnetworks_gateway.Types.Names.{netns_of_port}
use fractalnetworks_gateway.Types.Stats.{NetnsItem}
use fractalnetworks_gateway.System.{System}
use fractalnetworks_gateway.Gateway.Network.{apply_network}
use fractalnetworks_gateway.Gateway.Nginx.{CustomForwarding}
use fractalnetworks_gateway.Gateway.Apply.{
  Gateway, on_world, set_config, contains, names_of, to_set, apply, create_bridge, partial_loop,
  partial_nginx, apply_partial,
}

-- The configuration after the entries `done` of a change, those being the whole change if nothing failed.
pub record Applied {X : Crates} (config : GatewayConfig X) (partial : GatewayConfigPartial X)
    (r : Result (Unit {0})) (config' : GatewayConfig X) : Type 0 where
  pub done : GatewayConfigPartial X
  pub rest : GatewayConfigPartial X
  pub parts : partial ≡ done ++ rest
  pub result : config' ≡ Config.apply_partial config done
  pub whole : r ≡ ok tt → rest ≡ []

module _ {X : Crates} where
  -- Nothing is done yet, and something failed.
  Applied-failed :
      (config : GatewayConfig X) (partial : GatewayConfigPartial X) (r : Result (Unit {0}))
      → (r ≡ ok tt → ⊥)
      → Applied config partial r config
  unfolding Config.apply_partial
  Applied-failed config partial r h = record {
    done = [];
    rest = partial;
    parts = refl;
    result = refl;
    whole = λ e. absurd (h e);
  }

  Applied-nothing : (config : GatewayConfig X) → Applied config [] (ok tt) config
  unfolding Config.apply_partial
  Applied-nothing config = record {
    done = [];
    rest = [];
    parts = refl;
    result = refl;
    whole = λ e. refl;
  }

  Applied-removed :
      (port : ℕ) (config : GatewayConfig X) (partial : GatewayConfigPartial X)
      (r : Result (Unit {0})) (config' : GatewayConfig X)
      → Applied (remove port config) partial r config'
      → Applied config ((port, none) ∷ partial) r config'
  unfolding Config.apply_partial
  Applied-removed port config partial r config' a = record {
    done = (port, none) ∷ a.done;
    rest = a.rest;
    parts = ap (λ l. (port, none) ∷ l) a.parts;
    result = a.result;
    whole = a.whole;
  }

  Applied-inserted :
      (port : ℕ) (network : NetworkState X) (config : GatewayConfig X)
      (partial : GatewayConfigPartial X) (r : Result (Unit {0})) (config' : GatewayConfig X)
      → Applied (insert port network config) partial r config'
      → Applied config ((port, some network) ∷ partial) r config'
  unfolding Config.apply_partial
  Applied-inserted port network config partial r config' a = record {
    done = (port, some network) ∷ a.done;
    rest = a.rest;
    parts = ap (λ l. (port, some network) ∷ l) a.parts;
    result = a.result;
    whole = a.whole;
  }

module _ {X : Crates} (S : System X) (b : Build) where
  -- A deletion that fails has already taken the port out of the configuration.
  Applied-stopped :
      (port : ℕ) (config : GatewayConfig X) (partial : GatewayConfigPartial X)
      (r : Result (Unit {0}))
      → (r ≡ ok tt → ⊥)
      → Applied config ((port, none) ∷ partial) r (remove port config)
  Applied-stopped port config partial r h =
      Applied-removed port config partial r (remove port config)
        (Applied-failed (remove port config) partial r h)

  abbrev at : GatewayConfig X → S.World → Gateway S
  at config world = record { config = config; world = world }

  module _ (listed : List Text) where
    -- What the rest of the loop does from any state.
    abbrev Rest : GatewayConfigPartial X → Type 0
    Rest partial =
        (g : Gateway S)
        → Applied g.config partial (partial_loop S b listed partial g).0
            (partial_loop S b listed partial g).1.config

    after_removed :
        (port : ℕ) (partial : GatewayConfigPartial X) (config : GatewayConfig X)
        (r : Result (Unit {0})) (w : S.World)
        → Rest partial
        → let out = continue r (λ _. partial_loop S b listed partial) (at (remove port config) w) in
          Applied config ((port, none) ∷ partial) out.0 out.1.config
    after_removed port partial config (ok u) w ih =
        Applied-removed port config partial _ _ (ih (at (remove port config) w))
    after_removed port partial config (err x) w ih =
        Applied-stopped port config partial (err x) (λ h. cc)
    after_removed port partial config panic w ih =
        Applied-stopped port config partial panic (λ h. cc)

    after-Applied :
        (port : ℕ) (network : NetworkState X) (partial : GatewayConfigPartial X)
        (config : GatewayConfig X) (r : Result (Unit {0})) (w : S.World)
        → Rest partial
        → let out =
            continue r
              (λ _. set_config S (insert port network) >> partial_loop S b listed partial)
              (at config w) in
          Applied config ((port, some network) ∷ partial) out.0 out.1.config
    unfolding ◌>>=◌
    after-Applied port network partial config (ok u) w ih =
        Applied-inserted port network config partial _ _ (ih (at (insert port network config) w))
    after-Applied port network partial config (err x) w ih =
        Applied-failed config _ (err x) (λ h. cc)
    after-Applied port network partial config panic w ih = Applied-failed config _ panic (λ h. cc)

    partial_loop-Applied : (partial : GatewayConfigPartial X) → Rest partial
    unfolding partial_loop ◌>>=◌ on_world
    partial_loop-Applied [] g = Applied-nothing g.config
    partial_loop-Applied ((port, none) ∷ partial) g =
        let here = contains listed (netns_of_port port) in
        elim (Bool-cases here) [
          | inl p ↦
              let (r, w) = S.netns_del (netns_of_port port) g.world in
              rw p (after_removed port partial g.config r w (partial_loop-Applied partial))
          | inr p ↦
              rw p
                (after_removed port partial g.config (ok tt) g.world (partial_loop-Applied partial))
        ]
    partial_loop-Applied ((port, some network) ∷ partial) g =
        let (r, w) = apply_network S b network g.world in
        after-Applied port network partial g.config r w (partial_loop-Applied partial)

  Applied-weaken :
      (config : GatewayConfig X) (partial : GatewayConfigPartial X) (r r' : Result (Unit {0}))
      (config' : GatewayConfig X)
      → (r' ≡ ok tt → r ≡ ok tt)
      → Applied config partial r config'
      → Applied config partial r' config'
  Applied-weaken config partial r r' config' f a = record {
    done = a.done;
    rest = a.rest;
    parts = a.parts;
    result = a.result;
    whole = λ e. a.whole (f e);
  }

  module _ (custom : CustomForwarding X) (partial : GatewayConfigPartial X) where
    after_loop :
        (config : GatewayConfig X) (r : Result (Unit {0})) (g : Gateway S)
        → Applied config partial r g.config
        → let out = continue r (λ _. partial_nginx S b custom) g in
          Applied config partial out.0 out.1.config
    unfolding partial_nginx on_world
    after_loop config (ok u) g a = Applied-weaken config partial (ok u) _ g.config (λ e. refl) a
    after_loop config (err x) g a = a
    after_loop config panic g a = a

    -- The loop and what follows it.
    abbrev finish : List NetnsItem → Call (Gateway S) (Unit {0})
    finish items = do partial_loop S b (to_set (names_of S items)) partial; partial_nginx S b custom

    finish-Applied :
        (items : List NetnsItem) (g : Gateway S)
        → Applied g.config partial (finish items g).0 (finish items g).1.config
    unfolding ◌>>=◌
    finish-Applied items g =
        let out = partial_loop S b (to_set (names_of S items)) partial g in
        after_loop g.config out.0 out.1 (partial_loop-Applied (to_set (names_of S items)) partial g)

    after_listing :
        (config : GatewayConfig X) (r : Result (List NetnsItem)) (w : S.World)
        → let out = continue r finish (at config w) in Applied config partial out.0 out.1.config
    after_listing config (ok items) w = finish-Applied items (at config w)
    after_listing config (err x) w = Applied-failed config partial (err x) (λ h. cc)
    after_listing config panic w = Applied-failed config partial panic (λ h. cc)

    after_bridge :
        (config : GatewayConfig X) (r : Result (Unit {0})) (w : S.World)
        → let out = continue r (λ _. on_world S S.netns_list >>= finish) (at config w) in
          Applied config partial out.0 out.1.config
    unfolding ◌>>=◌ on_world
    after_bridge config (ok u) w = let (r, w') = S.netns_list w in after_listing config r w'
    after_bridge config (err x) w = Applied-failed config partial (err x) (λ h. cc)
    after_bridge config panic w = Applied-failed config partial panic (λ h. cc)

    applied :
        (g : Gateway S)
        → let out = apply_partial S b custom partial g in
          Applied g.config partial out.0 out.1.config
    unfolding apply_partial ◌>>=◌ on_world
    applied g = let (r, w) = create_bridge S g.world in after_bridge g.config r w

    -- When `apply_partial` succeeds, the stored configuration is the old one with the whole change, as
    -- `GatewayConfig::apply_partial` of the client crate applies it.
    pub config-apply_partial :
        (g : Gateway S)
        → (apply_partial S b custom partial g).0 ≡ ok tt
        → (apply_partial S b custom partial g).1.config ≡ Config.apply_partial g.config partial
    config-apply_partial g h =
        let a = applied g in
        let done_all : a.done ≡ partial =
          sym (a.parts ∙ ap (λ l. a.done ++ l) (a.whole h) ∙ append-nil a.done) in
        a.result ∙ ap (Config.apply_partial g.config) done_all

    -- Whatever happens outside, also an error or a panic, the stored configuration is the old one
    -- with some first entries of the change, as `GatewayConfig::apply_partial` applies them.
    pub config-apply_partial_any :
        (g : Gateway S)
        → (done rest : GatewayConfigPartial X) × (partial ≡ done ++ rest)
          × ((apply_partial S b custom partial g).1.config ≡ Config.apply_partial g.config done)
    config-apply_partial_any g = let a = applied g in (a.done, a.rest, a.parts, a.result)

    -- After `apply` the stored configuration is the new one, also if the call fails.
    pub config-apply :
        (config : GatewayConfig X) (g : Gateway S) → (apply S b custom config g).1.config ≡ config
    unfolding apply on_world
    config-apply config g = refl
