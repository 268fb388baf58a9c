-- ===== src/Tests/Start.antt =====
-- The theorems on the options, the start and the end of the daemon at concrete inputs.
use fractalnetworks_gateway.Base.{◌≡◌, ◌≢◌, refl, true, List, [], ◌∷◌, ◌++◌}
use fractalnetworks_gateway.Base.Text.{Text, text}
use fractalnetworks_gateway.Base.Result.{Error, ok, err, ◌>>=◌}
use fractalnetworks_gateway.Base.Word.{release}
use fractalnetworks_gateway.Crates.{socket_v4}
use fractalnetworks_gateway.Crates.Sample.{sample, SampleUrl}
use fractalnetworks_gateway.System.{System}
use fractalnetworks_gateway.System.Sample.{sample_system}
use fractalnetworks_gateway.Gateway.Nginx.{
  startup, apply_nginx, forwarding_of, add_networks, add_customs,
}
use fractalnetworks_gateway.Websocket.{
  Selected, message, text_message, happened, waiting, Session, serve_loop,
}
use fractalnetworks_gateway.Websocket.Shutdown.{serve_loop-shutdown}
use fractalnetworks_gateway.Options.{Options, Process, in_world, parse_custom_forwarding, run}
use fractalnetworks_gateway.Options.Forwarding.{parse_custom_forwarding_pair}
use fractalnetworks_gateway.Options.Running.{run_fails}
use fractalnetworks_gateway.Tests.Data.{site, before}
use fractalnetworks_gateway.Tests.Manager.{connection, event}

abbrev host_a : SampleUrl
host_a = record { scheme = text "https"; host = text "a" }

parse_custom_forwarding_pair_example :
    (parse_custom_forwarding sample (text "a=10.80") ≡ ok (host_a, socket_v4 10 80))
    × (parse_custom_forwarding sample (text "a=10.80=b=") ≡ ok (host_a, socket_v4 10 80))
    × (parse_custom_forwarding sample (text "a") ≡ err (text "Missing socket part" ∷ []))
unfolding fractalnetworks_gateway.Base.Split.split fractalnetworks_gateway.Base.Text.value
parse_custom_forwarding_pair_example =
    parse_custom_forwarding_pair sample (text "a") (text "10.80") (text "b=") host_a
      (socket_v4 10 80) refl refl refl refl

-- An event, then a shutdown, then another event.
abbrev mixed : List (Selected sample)
mixed = happened (ok event) ∷ message (text_message []) ∷ happened (ok event) ∷ []

abbrev session : Session sample_system connection release []
session = record { gateway = before; socket = [] }

serve_loop-shutdown_example :
    (serve_loop sample_system connection release [] mixed session
      ≡ serve_loop sample_system connection release []
          (happened (ok event) ∷ message (text_message []) ∷ [])
          session)
    × ((serve_loop sample_system connection release [] mixed session).0 ≢ ok waiting)
serve_loop-shutdown_example =
    serve_loop-shutdown sample_system connection release [] (happened (ok event) ∷ []) []
      (happened (ok event) ∷ []) session refl

-- A system on which NGINX cannot be reloaded.
abbrev broken_system : System sample
broken_system = record sample_system { nginx_reload = λ w. (err (text "no NGINX" ∷ []), w) }

abbrev options : Options sample
options = record {
  token = text "token";
  watchdog = 60;
  custom_forwarding = [];
  manager = site;
  identity = text "here";
}

abbrev process : Process broken_system connection release options
process = record {
  session = record {
    gateway = record { config = []; world = record { names = []; events = [] } };
    socket = [];
  };
  watching = true;
}

run_returns :
    (run broken_system connection release options [] process).0
    ≡ err (text "Starting up gateway" ∷ text "no NGINX" ∷ [])
unfolding run ◌>>=◌ in_world startup apply_nginx forwarding_of add_networks add_customs
run_returns = refl

run_fails_example :
    (cause : Error) × ((startup broken_system release [] (record { names = []; events = [] })).0
      ≡ err cause)
    × (text "Starting up gateway" ∷ text "no NGINX" ∷ [] ≡ text "Starting up gateway" ∷ cause)
    × ((run broken_system connection release options [] process).1.session.socket ≡ [])
run_fails_example =
    run_fails broken_system connection release options [] process
      (text "Starting up gateway" ∷ text "no NGINX" ∷ []) run_returns
