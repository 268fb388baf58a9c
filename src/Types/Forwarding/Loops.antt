-- ===== src/Types/Forwarding/Loops.antt =====
-- The dispatch on a URL's scheme, and the loops over port mappings and over custom forwardings.
use mathlib.Core.Path.{subst}
use fractalnetworks_gateway.Base.{
  ℕ, ◌+◌, ◌^◌, ◌≤◌, ◌<◌, ◌≡◌, refl, sym, ◌∙◌, length, true, false, List, [], ◌∷◌, arith, map, inl,
  inr, Bool-cases,
}
use fractalnetworks_gateway.Base.Text.{Text, text, eq, eq_iff}
use fractalnetworks_gateway.Base.Result.{ok, bind_result, bind_result-eq-ok}
use fractalnetworks_gateway.Base.Word.{Build}
use fractalnetworks_gateway.Crates.{Crates, IsLawful, SocketAddr, new_socket, v4}
use fractalnetworks_gateway.Client.Config.{NetworkState}
use fractalnetworks_gateway.Types.Bridge.{bridge_base, veth_ipv4net, veth_ipv4net_lem}
use fractalnetworks_gateway.Types.Ports.{flatten_proxy}
use fractalnetworks_gateway.Types.Ports.Numbering.{numbered, number-numbered, capacity}
use fractalnetworks_gateway.Types.Forwarding.{
  Forwarding, register, add_https, add_http, add_url, add_custom, add_mappings, add,
}
use fractalnetworks_gateway.Types.Forwarding.Servers.{
  IsGood, Grows, Grows-nil, Grows-trans, add_https-Grows, add_http-Grows, other-Grows,
}

-- A text is not both "https" and "http".
https-ne-http : (s : Text) → eq s (text "https") ≡ true → eq s (text "http") ≡ false
unfolding eq
https-ne-http s p = rw ((eq_iff s (text "https")).0 p)

-- Where NGINX finds the port of a mapping: at the veth address of the network.
abbrev pub veth_socket : {U : Type 0} → ℕ → U × ℕ × SocketAddr → U × SocketAddr
veth_socket addr (url, port, sock) = (url, new_socket (v4 addr) port)

module _ (X : Crates) where
  add_url-eq-add_custom :
      (f : Forwarding) (url : X.Url) (a : SocketAddr) → add_url X f url a ≡ add_custom X f url a
  unfolding add_url add_custom
  add_url-eq-add_custom f url a = ground arith

module _ (X : Crates) (L : IsLawful X) where
  module _ (f f' : Forwarding) (url : X.Url) (a : SocketAddr) (g : IsGood X f) where
    pub add_custom-Grows : add_custom X f url a ≡ ok f' → Grows X f f' ((url, a) ∷ [])
    unfolding add_custom
    add_custom-Grows e = elim (Bool-cases (eq (X.scheme url) (text "https"))) [
      | inl p ↦
          let q = https-ne-http (X.scheme url) p in
          add_https-Grows X L f f' url a g p q (ground (arith, p, e))
      | inr p ↦ elim (Bool-cases (eq (X.scheme url) (text "http"))) [
        | inl q ↦ add_http-Grows X L f f' url a g p q (ground (arith, p, q, e))
        | inr q ↦ other-Grows X L f f' url a g p q (ground (arith, p, q, e))
      ]
    ]

    pub add_url-Grows : add_url X f url a ≡ ok f' → Grows X f f' ((url, a) ∷ [])
    add_url-Grows e = add_custom-Grows (sym (add_url-eq-add_custom X f url a) ∙ e)

  pub add_mappings-Grows :
      (network : NetworkState X) (net : X.Ipv4Net) (f f' : Forwarding)
      (ms : List (X.Url × ℕ × SocketAddr))
      → IsGood X f
      → veth_ipv4net X network ≡ ok net
      → add_mappings X f network ms ≡ ok f'
      → Grows X f f' (map (veth_socket (X.ipv4_addr net)) ms)
  unfolding add_mappings
  add_mappings-Grows network net f f' [] g v e =
      let unchanged : f ≡ f' = ground (arith, e) in
      subst (λ x. Grows X f x []) unchanged (Grows-nil X f g)
  add_mappings-Grows network net f f' ((url, port, sock) ∷ ms) g v e =
      let socket = new_socket (v4 (X.ipv4_addr net)) port in
      let rest = λ (f₁ : Forwarding). add_mappings X f₁ network ms in
      let e' : bind_result (add_url X f url socket) rest ≡ ok f' = rw v at e in
      let (f₁, p, q) = bind_result-eq-ok (add_url X f url socket) rest f' e' in
      let step = add_url-Grows f f₁ url socket g p in
      Grows-trans X f f₁ f' _ _ step (add_mappings-Grows network net f₁ f' ms step.good v q)

  -- The URL crate gives every web URL a host, so nothing panics here.
  pub add_custom_total :
      (f : Forwarding) (url : X.Url) (a : SocketAddr)
      → (f' : Forwarding) × (add_custom X f url a ≡ ok f')
  unfolding add_custom add_https add_http
  add_custom_total f url a = elim (Bool-cases (eq (X.scheme url) (text "https"))) [
    | inl p ↦
        let (h, q) = L.web_host url (ground (arith, p)) in
        (record f { https = register X (text "https_") h a f.https }, rw (p, q))
    | inr p ↦ elim (Bool-cases (eq (X.scheme url) (text "http"))) [
      | inl r ↦
          let (h, q) = L.web_host url (ground (arith, r)) in
          (record f { http = register X (text "http_") h a f.http }, rw (p, r, q))
      | inr r ↦ (f, rw (p, r))
    ]
  ]

  add_mappings_total :
      (network : NetworkState X) (net : X.Ipv4Net) (f : Forwarding)
      (ms : List (X.Url × ℕ × SocketAddr))
      → veth_ipv4net X network ≡ ok net
      → (f' : Forwarding) × (add_mappings X f network ms ≡ ok f')
  unfolding add_mappings
  add_mappings_total network net f [] v = (f, refl)
  add_mappings_total network net f ((url, port, sock) ∷ ms) v =
      let socket = new_socket (v4 (X.ipv4_addr net)) port in
      let (f₁, p) = add_custom_total f url socket in
      let (f', q) = add_mappings_total network net f₁ ms v in
      (f', rw (v, add_url-eq-add_custom X f url socket, p) q)

  -- From consistent tables, and if web URLs have hosts, `add` on a network with a 16-bit port and
  -- at most 63536 proxied addresses returns, in any build; each host of each web scheme gains, in
  -- the order of the proxy settings, the network's veth address with the port of each mapping, and
  -- no other host anything.
  pub add-Grows :
      (b : Build) (f : Forwarding) (network : NetworkState X)
      → IsGood X f
      → network.listen_port < 2 ^ 16
      → length (flatten_proxy network.proxy) ≤ capacity
      → (f' : Forwarding) × (net : X.Ipv4Net) × (add X b f network ≡ ok f')
        × (X.ipv4_addr net ≡ bridge_base + network.listen_port)
        × Grows X f f'
            (map (veth_socket (X.ipv4_addr net)) (numbered 0 (flatten_proxy network.proxy)))
  unfolding add
  add-Grows b f network g h c =
      let (net, v, addr, _, _) = veth_ipv4net_lem X L network h in
      let ms = numbered 0 (flatten_proxy network.proxy) in
      let (f', p) = add_mappings_total network net f ms v in
      let numbers = number-numbered b 0 (flatten_proxy network.proxy) (omega arith) in
      (f', net, rw numbers p, addr, add_mappings-Grows network net f f' ms g v p)
