-- ===== src/Integration/Exchange.antt =====
-- `apply_config` and `apply_partial_config` of integration/src/main.rs: a request, and the wait for its
-- answer. What the stream of messages yields is a list; behind its end the stream is closed.
pub mod Answered
use fractalnetworks_gateway.Base.{List, [], ◌∷◌}
use fractalnetworks_gateway.Base.Text.{Text, text}
use fractalnetworks_gateway.Base.Result.{Error, Result, ok, err, panic, Call, ◌>>=◌, ◌>>◌}
use fractalnetworks_gateway.Crates.{Crates}
use fractalnetworks_gateway.Client.Config.{GatewayConfig, GatewayConfigPartial}
use fractalnetworks_gateway.Client.Event.{GatewayRequest, GatewayResponse, Status}
use fractalnetworks_gateway.Websocket.{
  Incoming, text_message, other_message, failure, end_of_stream,
}

-- The server's side of a connection (tokio-tungstenite) with the JSON codec (serde_json).
pub record Server (X : Crates) : Type 1 where
  pub Socket : Type 0
  -- `to_string` and `websocket.send`
  pub send : GatewayRequest X → Call Socket (Unit {0})
  pub from_str : Text → Result (GatewayResponse X)

abbrev pub missing : Error
missing = text "Missing apply config response" ∷ []

module _ {X : Crates} (V : Server X) where
  pub record Link : Type 0 where
    pub socket : V.Socket
    pub incoming : List Incoming

  -- `match value`, with what the loop does next.
  abbrev pub on_response :
      Result (GatewayResponse X)
      → List Incoming
      → Result Status × List Incoming
      → Result Status × List Incoming
  on_response (ok (GatewayResponse.apply status)) later rest = (ok status, later)
  on_response (ok (GatewayResponse.traffic _)) later rest = rest
  on_response (ok (GatewayResponse.event _)) later rest = rest
  on_response (err e) later rest = (err e, later)
  on_response panic later rest = (panic, later)

  -- The `while let` loop with the error behind it.
  unfoldable pub receive : List Incoming → Result Status × List Incoming
  receive [] = (err missing, [])
  receive (text_message t ∷ later) = on_response (V.from_str t) later (receive later)
  receive (other_message ∷ later) = receive later
  receive (failure e ∷ later) = (err missing, later)
  receive (end_of_stream ∷ later) = (err missing, later)

  abbrev pub request : GatewayRequest X → Call Link (Unit {0})
  request r k = let (sent, socket) = V.send r k.socket in (sent, record k { socket = socket })

  abbrev pub await_status : Call Link Status
  await_status k =
      let (status, incoming) = receive k.incoming in (status, record k { incoming = incoming })

  unfoldable pub apply_config : GatewayConfig X → Call Link Status
  apply_config config = do request (GatewayRequest.apply config); await_status

  unfoldable pub apply_partial_config : GatewayConfigPartial X → Call Link Status
  apply_partial_config config = do request (GatewayRequest.apply_partial config); await_status
