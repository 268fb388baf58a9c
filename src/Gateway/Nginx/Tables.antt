-- ===== src/Gateway/Nginx/Tables.antt =====
-- The tables from which NGINX is configured: complete, in order, and with nothing else in them.
use mathlib.Core.Path.{subst}
use fractalnetworks_gateway.Base.{
  ◌+◌, ◌^◌, ◌≤◌, ◌<◌, ◌≡◌, refl, ap, ◌∙◌, List, [], ◌∷◌, ◌++◌, map, All, length,
}
use fractalnetworks_gateway.Base.Text.{Text, text}
use fractalnetworks_gateway.Base.Result.{ok}
use fractalnetworks_gateway.Base.Word.{Build}
use fractalnetworks_gateway.Crates.{Crates, IsLawful, SocketAddr}
use fractalnetworks_gateway.Client.Config.{NetworkState}
use fractalnetworks_gateway.Types.Bridge.{bridge_base}
use fractalnetworks_gateway.Types.Ports.{flatten_proxy}
use fractalnetworks_gateway.Types.Ports.Numbering.{numbered, capacity}
use fractalnetworks_gateway.Types.Forwarding.{Forwarding, new}
use fractalnetworks_gateway.Types.Forwarding.Upstreams.{servers, servers-no_tables}
use fractalnetworks_gateway.Types.Forwarding.Servers.{
  sockets_for, IsGood, Grows, new-IsGood, Grows-nil, Grows-trans,
}
use fractalnetworks_gateway.Types.Forwarding.Loops.{
  veth_socket, add-Grows, add_custom-Grows, add_custom_total,
}
use fractalnetworks_gateway.Gateway.Nginx.{
  CustomForwarding, add_networks, add_customs, forwarding_of,
}

module _ (X : Crates) where
  -- What the types of the source bound, and that there are ports for all mappings.
  abbrev pub Fits : NetworkState X → Type 0
  Fits n = (n.listen_port < 2 ^ 16) × (length (flatten_proxy n.proxy) ≤ capacity)

  -- Each proxied URL of a network with the socket that NGINX is to use: port 2000 + j at the veth
  -- address for the j-th one.
  abbrev pub wanted_of : NetworkState X → List (X.Url × SocketAddr)
  wanted_of n = map (veth_socket (bridge_base + n.listen_port)) (numbered 0 (flatten_proxy n.proxy))

  abbrev pub wanted : List (NetworkState X) → List (X.Url × SocketAddr)
  wanted [] = []
  wanted (n ∷ networks) = wanted_of n ++ wanted networks

  module _ (L : IsLawful X) (b : Build) where
    add_customs-Grows :
        (f : Forwarding) (custom : CustomForwarding X)
        → IsGood X f
        → (f' : Forwarding) × (add_customs X f custom ≡ ok f') × Grows X f f' custom
    unfolding add_customs
    add_customs-Grows f [] g = (f, refl, Grows-nil X f g)
    add_customs-Grows f ((url, a) ∷ custom) g =
        let (f₁, p) = add_custom_total X L f url a in
        let step = add_custom-Grows X L f f₁ url a g p in
        let (f', q, rest) = add_customs-Grows f₁ custom step.good in
        (f', rw p q, Grows-trans X f f₁ f' ((url, a) ∷ []) custom step rest)

    add_networks-Grows :
        (f : Forwarding) (networks : List (NetworkState X))
        → IsGood X f
        → All Fits networks
        → (f' : Forwarding) × (add_networks X b f networks ≡ ok f') × Grows X f f' (wanted networks)
    unfolding add_networks
    add_networks-Grows f [] g fits = (f, refl, Grows-nil X f g)
    add_networks-Grows f (n ∷ networks) g ((small, few), fits) =
        let (f₁, net, p, addr, step) = add-Grows X L b f n g small few in
        let step' : Grows X f f₁ (wanted_of n) =
          subst (λ a. Grows X f f₁ (map (veth_socket a) (numbered 0 (flatten_proxy n.proxy)))) addr
            step in
        let (f', q, rest) = add_networks-Grows f₁ networks step.good fits in
        (f', rw p q, Grows-trans X f f₁ f' (wanted_of n) (wanted networks) step' rest)

    -- For networks with 16-bit ports and at most 63536 proxied addresses each, and web URLs that
    -- have hosts, the tables are made in any build, and for each host of each web scheme they list
    -- exactly the sockets wanted for it, in order, those of the networks first and the custom ones
    -- behind.
    pub forwarding_of_lem :
        (networks : List (NetworkState X)) (custom : CustomForwarding X)
        → All Fits networks
        → (f : Forwarding) × (forwarding_of X b networks custom ≡ ok f)
          × ((h : Text)
              → servers f.https h ≡ sockets_for X (text "https") h (wanted networks ++ custom))
          × ((h : Text)
              → servers f.http h ≡ sockets_for X (text "http") h (wanted networks ++ custom))
    unfolding forwarding_of
    forwarding_of_lem networks custom fits =
        let (f₁, p, first) = add_networks-Grows new networks (new-IsGood X) fits in
        let (f, q, second) = add_customs-Grows f₁ custom first.good in
        let all = Grows-trans X new f₁ f (wanted networks) custom first second in
        (
          f,
          rw p q,
          λ h.
              all.https h
              ∙ ap (λ l. l ++ sockets_for X (text "https") h (wanted networks ++ custom))
                  (servers-no_tables h),
          λ h.
              all.http h
              ∙ ap (λ l. l ++ sockets_for X (text "http") h (wanted networks ++ custom))
                  (servers-no_tables h),
        )
