-- ===== src/Integration/Run.antt =====
-- `run_tests` and the end of `main` of integration/src/main.rs. The pause before old networks are
-- verified is left out.
pub mod Sending
pub mod Requests
use fractalnetworks_gateway.Base.{ℕ, zero, suc, List, [], ◌∷◌}
use fractalnetworks_gateway.Base.Result.{Result, ok, err, panic, Call, pure, lift, ◌>>=◌, ◌>>◌}
use fractalnetworks_gateway.Base.Map.{keys}
use fractalnetworks_gateway.Base.Word.{Build}
use fractalnetworks_gateway.Crates.{Crates, IpAddr}
use fractalnetworks_gateway.Client.Config.{GatewayConfig, GatewayConfigPartial, apply_partial}
use fractalnetworks_gateway.Client.Event.{GatewayRequest, Status, applied, failed}
use fractalnetworks_gateway.System.{System}
use fractalnetworks_gateway.Integration.{Tools}
use fractalnetworks_gateway.Integration.Generate.{
  Generator, generate_config, generate_partial_config,
}
use fractalnetworks_gateway.Integration.Exchange.{
  Server, Link, request, apply_config, apply_partial_config,
}
use fractalnetworks_gateway.Integration.Verify.{verify_config, verify_old_config}

-- `assert!(response.is_ok())`
abbrev pub assert_ok : Status → Result (Unit {0})
assert_ok applied = ok tt
assert_ok (failed e) = panic

module _ {X : Crates} {S : System X} (T : Tools S) (V : Server X) (b : Build)
    (gateway : IpAddr) where
  pub record Test : Type 0 where
    pub world : S.World
    pub link : Link V
    pub generator : Generator T

  abbrev pub on_link : {A : Type 0} → Call (Link V) A → Call Test A
  on_link m t = let (r, link) = m t.link in (r, record t { link = link })

  abbrev pub generated : {A : Type 0} → Call (Generator T) A → Call Test A
  generated m t = let (r, generator) = m t.generator in (r, record t { generator = generator })

  abbrev pub verified :
      (GatewayConfig X → Call S.World (Unit {0})) → GatewayConfig X → Call Test (Unit {0})
  verified verify config t =
      let (r, world) = verify config t.world in (r, record t { world = world })

  -- A verification with the private keys that are known by then.
  abbrev pub check : GatewayConfig X → Call Test (Unit {0})
  check config t = verified (verify_config T gateway t.generator.peer_keys) config t

  abbrev pub check_old : GatewayConfig X → Call Test (Unit {0})
  check_old config t = verified (verify_old_config T gateway t.generator.peer_keys) config t

  unfoldable pub apply_all : GatewayConfig X → Call Test (Unit {0})
  apply_all config = do response ← on_link (apply_config V config); lift (assert_ok response)

  unfoldable pub apply_some : GatewayConfigPartial X → Call Test (Unit {0})
  apply_some partial = do
    response ← on_link (apply_partial_config V partial)
    lift (assert_ok response)

  -- The first loop, which returns the configuration that was applied last.
  unfoldable pub apply_rounds : ℕ → GatewayConfig X → Call Test (GatewayConfig X)
  apply_rounds zero config = pure config
  apply_rounds (suc n) config = do
    config' ← generated (generate_config T b 10 0 3)
    apply_all config'
    check config'
    apply_rounds n config'

  -- The second loop: the networks from before are no longer reachable.
  unfoldable pub replace_rounds : ℕ → GatewayConfig X → Call Test (GatewayConfig X)
  replace_rounds zero config = pure config
  replace_rounds (suc n) config = do
    new_config ← generated (generate_config T b 10 0 3)
    apply_all new_config
    check_old config
    replace_rounds n new_config

  -- A round of the last two loops, once the partial configuration is there.
  unfoldable pub partial_round :
      GatewayConfig X → GatewayConfigPartial X → Call Test (GatewayConfig X)
  partial_round config partial = do
    apply_some partial
    check (apply_partial config partial)
    pure (apply_partial config partial)

  unfoldable pub add_rounds : ℕ → GatewayConfig X → Call Test (GatewayConfig X)
  add_rounds zero config = pure config
  add_rounds (suc n) config = do
    partial ← generated (generate_partial_config T b 10 0 0 3 [])
    config' ← partial_round config partial
    add_rounds n config'

  unfoldable pub remove_rounds : ℕ → GatewayConfig X → Call Test (GatewayConfig X)
  remove_rounds zero config = pure config
  remove_rounds (suc n) config = do
    partial ← generated (generate_partial_config T b 0 10 0 3 (keys config))
    config' ← partial_round config partial
    remove_rounds n config'

  unfoldable pub run_tests : Call Test (Unit {0})
  run_tests = do
    apply_all []
    first ← apply_rounds 3 []
    second ← replace_rounds 3 first
    third ← add_rounds 3 second
    remove_rounds 3 third
    apply_all []

  -- The shutdown is sent whatever the tests returned, and its own result is not looked at (the
  -- message has no part that could fail to be serialised); after a panic nothing is sent.
  abbrev pub shut_down : Result (Unit {0}) → Test → Result (Unit {0}) × Test
  shut_down panic t = (panic, t)
  shut_down (ok u) t = (ok u, (on_link (request V GatewayRequest.shutdown) t).1)
  shut_down (err e) t = (err e, (on_link (request V GatewayRequest.shutdown) t).1)

  unfoldable pub test_and_shut_down : Call Test (Unit {0})
  test_and_shut_down t = let (r, t') = run_tests t in shut_down r t'
