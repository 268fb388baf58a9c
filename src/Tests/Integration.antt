-- ===== src/Tests/Integration.antt =====
-- The theorems on the test runner at concrete inputs.
use fractalnetworks_gateway.Base.{
  ℕ, zero, suc, ◌-◌, ◌≤◌, ◌≡◌, refl, true, false, any, none, some, Option, List, [], ◌∷◌, ◌++◌, map,
  All, length, ltb, if◌then◌else◌, arith,
}
use fractalnetworks_gateway.Base.Text.{Text, text, eq, value, show}
use fractalnetworks_gateway.Base.Split.{split}
use fractalnetworks_gateway.Base.Result.{Result, ok, err, panic, Call, ◌>>=◌}
use fractalnetworks_gateway.Base.Word.{release}
use fractalnetworks_gateway.Base.Map.{get, insert, remove}
use fractalnetworks_gateway.Crates.{IpAddr, v4, v6}
use fractalnetworks_gateway.Crates.Sample.{sample, SampleNet}
use fractalnetworks_gateway.Client.Config.{GatewayConfig}
use fractalnetworks_gateway.Client.Event.{
  GatewayRequest, GatewayResponse, applied, peer_disconnected,
}
use fractalnetworks_gateway.System.Sample.{sample_system, SampleWorld, sample_namespaces}
use fractalnetworks_gateway.Websocket.{Incoming, text_message, other_message}
use fractalnetworks_gateway.Integration.{Tools, IsFair}
use fractalnetworks_gateway.Integration.Generate.{
  Generator, generate_config, generate_partial_config, list_added, list_removed, networks_loop,
  peers_loop,
}
use fractalnetworks_gateway.Integration.Generate.Fitting.{IsFit, generate_config-IsFit}
use fractalnetworks_gateway.Integration.Exchange.{
  Server, missing, apply_config, apply_partial_config, receive,
}
use fractalnetworks_gateway.Integration.Exchange.Answered.{apply_config-answer}
use fractalnetworks_gateway.Integration.Verify.{
  join_network, ping_host, ping_old_gateway, test_netns, verify_config, verify_old_config,
  verify_old_peer, verify_old_peers, verify_peers,
}
use fractalnetworks_gateway.Integration.Verify.Cleanup.{verify_config_clean}
use fractalnetworks_gateway.Integration.Run.{
  Test, add_rounds, apply_all, apply_rounds, apply_some, partial_round, remove_rounds,
  replace_rounds, run_tests,
}
use fractalnetworks_gateway.Integration.Run.Sending.{RequestLog, is_partial, times}
use fractalnetworks_gateway.Integration.Run.Requests.{run_tests-log}
use fractalnetworks_gateway.Tests.Data.{network_on, own_address}

abbrev net_of_addr : IpAddr → ℕ → Option SampleNet
net_of_addr (v4 a) p = some (record { address = a; length = p })
net_of_addr (v6 a) p = none

abbrev last_of : ℕ → ℕ → Call ℕ ℕ
last_of lo hi r = if ltb lo hi then (ok (hi - 1), r) else (panic, r)

abbrev first_of : ℕ → ℕ → Call ℕ ℕ
first_of lo hi r = if ltb lo hi then (ok lo, r) else (panic, r)

-- Keys are counted, a range gives the number that is picked, and a ping succeeds while no event was sent.
abbrev tools_with : (ℕ → ℕ → Call ℕ ℕ) → Tools sample_system
tools_with pick = record {
  Rng = ℕ;
  gen_range = pick;
  choose_multiple = λ ports n r. (ok ports, r);
  generate = λ r. (r, suc r);
  pubkey = λ k. k;
  to_hex = show;
  new_net = net_of_addr;
  saturating_add_v6 = λ a n. a;
  show_addr = λ a. text "address";
  succeeds = λ c args w. (ok (elim w.events [ [] ↦ true | _ ↦ false ]), w);
}

last-IsFair : IsFair (tools_with last_of)
unfolding split value
last-IsFair = record {
  gen_range_lem = λ lo hi r h. (hi - 1, r, ground arith, omega arith, omega arith);
  own_net = (
    record { address = value (text "10.0.0.1"); length = 8 },
    value (text "10.0.0.1"),
    refl,
    refl,
  );
  new_net_v4 = λ a. (record { address = a; length = 32 }, refl);
}

abbrev generator : Generator (tools_with last_of)
generator = record { rng = 0; peer_keys = [] }

generate_config-IsFit_example :
    (config : GatewayConfig sample) × (g : Generator (tools_with last_of)) × (generate_config
        (tools_with last_of)
        release
        2
        0
        3
        generator
      ≡ (ok config, g))
    × All (IsFit (tools_with last_of) 3 g.peer_keys) config
    × (length config ≤ 2)
generate_config-IsFit_example =
    generate_config-IsFit (tools_with last_of) last-IsFair release 2 0 3 generator (omega arith)
      (omega arith)

abbrev response_of : Text → Result (GatewayResponse sample)
response_of [] = ok (GatewayResponse.event (peer_disconnected (record { network = 1; peer = 2 })))
response_of (c ∷ t) = ok (GatewayResponse.apply applied)

abbrev server : Server sample
server = record {
  Socket = List (GatewayRequest sample);
  send = λ r k. (ok tt, k ++ (r ∷ []));
  from_str = response_of;
}

apply_config-answer_example :
    (apply_config server [] (record {
      socket = [];
      incoming = text_message [] ∷ other_message ∷ text_message (text "a") ∷ [];
    })
      ≡ (ok applied, record { socket = GatewayRequest.apply [] ∷ []; incoming = [] }))
    × (apply_partial_config server ((5, none) ∷ []) (record {
      socket = [];
      incoming = text_message [] ∷ other_message ∷ text_message (text "a") ∷ [];
    })
        ≡ (
          ok applied,
          record { socket = GatewayRequest.apply_partial ((5, none) ∷ []) ∷ []; incoming = [] },
        ))
    × (apply_config server []
          (record { socket = []; incoming = text_message [] ∷ other_message ∷ [] })
        ≡ (err missing, record { socket = GatewayRequest.apply [] ∷ []; incoming = [] }))
    × (apply_partial_config server
          ((5, none) ∷ [])
          (record { socket = []; incoming = text_message [] ∷ other_message ∷ [] })
        ≡ (
          err missing,
          record { socket = GatewayRequest.apply_partial ((5, none) ∷ []) ∷ []; incoming = [] },
        ))
apply_config-answer_example =
    apply_config-answer server [] ((5, none) ∷ []) [] (text_message [] ∷ other_message ∷ []) []
      (text "a") applied (tt, (tt, tt)) refl

-- A network with one peer, whose private key is known.
abbrev config : GatewayConfig sample
config =
    (
      5,
      record (network_on 5) {
        peers =
            (7, record { preshared_key = none; endpoint = none; allowed_ips = own_address ∷ [] })
            ∷ [];
      },
    )
    ∷ []

abbrev up : SampleWorld
up = record { names = text "mine" ∷ []; events = [] }

abbrev down : SampleWorld
down = record { names = []; events = peer_disconnected (record { network = 1; peer = 2 }) ∷ [] }

verify_old_returns :
    (verify_old_config (tools_with last_of) (v4 1) ((7, 7) ∷ []) config down).0 ≡ ok tt
unfolding verify_old_config verify_old_peers verify_old_peer join_network ping_old_gateway ping_host
    ◌>>=◌ get
verify_old_returns = refl

verify_config_clean_example :
    any
      (eq (text "mine"))
      (verify_old_config (tools_with last_of) (v4 1) ((7, 7) ∷ []) config down).1.names
    ≡ false
unfolding eq test_netns show
verify_config_clean_example =
    verify_config_clean (tools_with last_of) sample_namespaces
      (λ c args. record { frame = λ w. refl }) (v4 1) ((7, 7) ∷ []) true config down (text "mine")
      verify_old_returns

abbrev request_log : RequestLog server
request_log = record { sent = λ k. k; sent-ok = λ r k h. refl }

-- That many answers are on the way.
abbrev answers : ℕ → List Incoming
answers zero = []
answers (suc n) = text_message (text "a") ∷ answers n

abbrev test : Test (tools_with first_of) server release (v4 1)
test = record {
  world = up;
  link = record { socket = []; incoming = answers 14 };
  generator = record { rng = 0; peer_keys = [] };
}

run_returns : (run_tests (tools_with first_of) server release (v4 1) test).0 ≡ ok tt
unfolding run_tests apply_all apply_some apply_rounds replace_rounds partial_round add_rounds
    remove_rounds generate_config generate_partial_config networks_loop peers_loop list_added
    list_removed insert remove fractalnetworks_gateway.Client.Config.apply_partial apply_config
    apply_partial_config receive verify_config verify_peers verify_old_config verify_old_peers ◌>>=◌
    split value
run_returns = refl

run_tests-log_example :
    (rs : List (GatewayRequest sample)) × ((run_tests
        (tools_with first_of)
        server
        release
        (v4 1)
        test).1.link.socket
      ≡ GatewayRequest.apply [] ∷ (rs ++ (GatewayRequest.apply [] ∷ [])))
    × (map is_partial rs ≡ times 6 false ++ times 6 true)
run_tests-log_example =
    run_tests-log (tools_with first_of) server request_log release (v4 1) test run_returns
