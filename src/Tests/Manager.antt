-- ===== src/Tests/Manager.antt =====
-- The theorems on the connection to the manager at concrete inputs.
use fractalnetworks_gateway.Base.{◌≡◌, refl, true, List, [], ◌∷◌, ◌++◌, map}
use fractalnetworks_gateway.Base.Text.{Text, text, eq, starts_with, show}
use fractalnetworks_gateway.Base.Result.{Result, ok, ◌>>=◌}
use fractalnetworks_gateway.Base.Word.{release}
use fractalnetworks_gateway.Crates.Sample.{sample}
use fractalnetworks_gateway.Client.Traffic.{new_info}
use fractalnetworks_gateway.Client.Event.{
  GatewayEvent, GatewayRequest, GatewayResponse, Status, applied, peer_disconnected,
}
use fractalnetworks_gateway.System.Sample.{sample_system}
use fractalnetworks_gateway.Gateway.Apply.{
  apply, apply_networks, apply_world, create_bridge, delete_surplus, difference, networks_of,
  on_world, to_set,
}
use fractalnetworks_gateway.Gateway.Interfaces.{
  add_missing, apply_addr, apply_bridge, apply_interface_up,
}
use fractalnetworks_gateway.Gateway.Nginx.{add_customs, add_networks, apply_nginx, forwarding_of}
use fractalnetworks_gateway.Websocket.{
  Connection, text_message, Selected, message, slice, happened, finished, Session, on_socket,
  on_gateway, answer, serve, round, serve_loop,
}
use fractalnetworks_gateway.Websocket.Answers.{
  SendLog, Tells, kind_of, all_due, serve_loop-log, round-apply,
}
use fractalnetworks_gateway.Websocket.Replay.{replay, serve_loop-replay}
use fractalnetworks_gateway.Types.Bridge.{bridge_net}
use fractalnetworks_gateway.Tests.Data.{before}

-- One message asks for a shutdown, every other for an empty configuration.
abbrev request_of : Text → Result (GatewayRequest sample)
request_of [] = ok GatewayRequest.shutdown
request_of (c ∷ t) = ok (GatewayRequest.apply [])

abbrev pub connection : Connection sample
connection = record {
  Socket = List (GatewayResponse sample);
  open_socket = λ k. (ok tt, k);
  send = λ r k. (ok tt, k ++ (r ∷ []));
  from_str = request_of;
}

abbrev send_log : SendLog connection
send_log = record { sent = λ k. k; sent-ok = λ r k h. refl }

abbrev session : Session sample_system connection release []
session = record { gateway = before; socket = [] }

abbrev pub event : GatewayEvent sample
event = peer_disconnected (record { network = 2; peer = 7 })

abbrev selected : List (Selected sample)
selected =
    message (text_message (text "apply"))
    ∷ happened (ok event)
    ∷ message (text_message [])
    ∷ slice (ok (new_info 0))
    ∷ []

loop_returns : (serve_loop sample_system connection release [] selected session).0 ≡ ok finished
unfolding ◌>>=◌ eq starts_with show on_world to_set difference networks_of delete_surplus
    apply_networks create_bridge apply_world apply add_networks add_customs forwarding_of
    apply_nginx add_missing apply_addr apply_interface_up apply_bridge on_socket on_gateway answer
    serve round serve_loop bridge_net
loop_returns = refl

serve_loop-log_example :
    (map kind_of (serve_loop sample_system connection release [] selected session).1.socket
      ≡ GatewayResponse.apply applied ∷ GatewayResponse.event event ∷ [])
    × (finished ≡ finished)
unfolding all_due
serve_loop-log_example =
    serve_loop-log sample_system connection send_log release [] selected session finished
      loop_returns

-- The answer, and the event.
abbrev news : List (GatewayResponse sample)
news = GatewayResponse.apply applied ∷ GatewayResponse.event event ∷ []

loop_sends : (serve_loop sample_system connection release [] selected session).1.socket ≡ [] ++ news
unfolding ◌>>=◌ eq starts_with show on_world to_set difference networks_of delete_surplus
    apply_networks create_bridge apply_world apply add_networks add_customs forwarding_of
    apply_nginx add_missing apply_addr apply_interface_up apply_bridge on_socket on_gateway answer
    serve round serve_loop bridge_net
loop_sends = refl

serve_loop-replay_example :
    (serve_loop sample_system connection release [] selected session).1.gateway.config
    ≡ replay connection selected before.config
serve_loop-replay_example =
    serve_loop-replay sample_system connection send_log release [] selected session finished news
      loop_returns loop_sends refl

round_returns :
    (round sample_system connection release [] (message (text_message (text "apply"))) session).0
    ≡ ok true
unfolding ◌>>=◌ eq starts_with show on_world to_set difference networks_of delete_surplus
    apply_networks create_bridge apply_world apply add_networks add_customs forwarding_of
    apply_nginx add_missing apply_addr apply_interface_up apply_bridge on_socket on_gateway answer
    serve round bridge_net
round_returns = refl

round-apply_example :
    (status : Status) × (true ≡ true)
    × Tells (apply sample_system release [] [] before).0 status
    × ((round sample_system connection release []
          (message (text_message (text "apply")))
          session).1.socket
        ≡ GatewayResponse.apply status ∷ [])
    × ((round sample_system connection release []
          (message (text_message (text "apply")))
          session).1.gateway
        ≡ (apply sample_system release [] [] before).1)
round-apply_example =
    round-apply sample_system connection send_log release [] (text "apply") [] session true refl
      round_returns
