-- ===== src/Websocket/Shutdown.antt =====
-- How a shutdown ends the loop of the connection.
use fractalnetworks_gateway.Base.{
  ◌≡◌, ◌≢◌, refl, Bool, true, false, List, [], ◌∷◌, ◌++◌, if◌then◌else◌,
}
use fractalnetworks_gateway.Base.Text.{Text}
use fractalnetworks_gateway.Base.Result.{Result, ok, err, panic, continue, pure, lift, Call, ◌>>=◌}
use fractalnetworks_gateway.Base.Word.{Build}
use fractalnetworks_gateway.Crates.{Crates}
use fractalnetworks_gateway.Client.Event.{GatewayRequest}
use fractalnetworks_gateway.System.{System}
use fractalnetworks_gateway.Gateway.Nginx.{CustomForwarding}
use fractalnetworks_gateway.Websocket.{
  Connection, Selected, Outcome, waiting, finished, message, text_message, Session, round, serve,
  serve_loop,
}

module _ {X : Crates} (S : System X) (N : Connection X) (b : Build)
    (custom : CustomForwarding X) where
  left :
      (r : Result Bool) (s : Session S N b custom) (k : Call (Session S N b custom) Outcome)
      (after : Call (Session S N b custom) Outcome)
      → (k s ≡ after s)
      → ((k s).0 ≢ ok waiting)
      → (continue r (λ go_on. if go_on then k else pure finished) s
          ≡ continue r (λ go_on. if go_on then after else pure finished) s)
        × ((continue r (λ go_on. if go_on then k else pure finished) s).0 ≢ ok waiting)
  unfolding pure
  left (ok true) s k after h w = (h, w)
  left (ok false) s k after h w = (refl, λ e. cc)
  left (err e) s k after h w = (refl, λ e'. cc)
  left panic s k after h w = (refl, λ e'. cc)

  -- A shutdown that is selected is the last thing that is looked at: what is selected after it makes no
  -- difference, and the loop does not wait for more, whatever was selected before it.
  pub serve_loop-shutdown :
      (before : List (Selected X)) (t : Text) (later : List (Selected X)) (s : Session S N b custom)
      → N.from_str t ≡ ok GatewayRequest.shutdown
      → (serve_loop S N b custom (before ++ (message (text_message t) ∷ later)) s
          ≡ serve_loop S N b custom (before ++ (message (text_message t) ∷ [])) s)
        × ((serve_loop S N b custom (before ++ (message (text_message t) ∷ later)) s).0
            ≢ ok waiting)
  unfolding serve_loop round serve ◌>>=◌ lift pure
  serve_loop-shutdown [] t later s h = (rw h refl, λ e. cc (rw h at e))
  serve_loop-shutdown (selected ∷ before) t later s h =
      let (r, s') = round S N b custom selected s in
      let (same, ended) = serve_loop-shutdown before t later s' h in
      left r s' (serve_loop S N b custom (before ++ (message (text_message t) ∷ later)))
        (serve_loop S N b custom (before ++ (message (text_message t) ∷ []))) same ended
