-- ===== src/Types/Forwarding/Servers.antt =====
-- What `add` and `add_custom` leave: each host of each scheme has the sockets added for it, in order.
use mathlib.Core.List.{append-nil, append_assoc}
use fractalnetworks_gateway.Base.{
  ◌≡◌, refl, ◌∙◌, ◌&&◌, Bool, true, false, none, some, List, [], ◌∷◌, ◌++◌, if◌then◌else◌, arith,
}
use fractalnetworks_gateway.Base.Text.{Text, text, eq}
use fractalnetworks_gateway.Base.Result.{ok, bind_result-eq-ok, unwrap}
use fractalnetworks_gateway.Base.Map.{same}
use fractalnetworks_gateway.Base.Orders.{text_order}
use fractalnetworks_gateway.Crates.{Crates, IsLawful, SocketAddr}
use fractalnetworks_gateway.Types.Forwarding.{Forwarding, new, register, add_https, add_http}
use fractalnetworks_gateway.Types.Forwarding.Upstreams.{
  servers, IsConsistent, no_tables-IsConsistent, register-IsConsistent, servers-register,
}

abbrev https_text : Text
https_text = text "https"

abbrev http_text : Text
http_text = text "http"

module _ (X : Crates) where
  abbrev pub has_host : X.Url → Text → Bool
  has_host url h = elim (X.host_str url) [ none ↦ false | some g ↦ same h g ]

  -- The sockets that a list of URLs with sockets holds for a host of a scheme, in order.
  pub sockets_for : Text → Text → List (X.Url × SocketAddr) → List SocketAddr
  sockets_for scheme h [] = []
  sockets_for scheme h ((url, a) ∷ rest) =
      let later = sockets_for scheme h rest in
      if eq (X.scheme url) scheme && has_host url h then a ∷ later else later

  pub sockets_for-append :
      (scheme h : Text) (xs ys : List (X.Url × SocketAddr))
      → sockets_for scheme h (xs ++ ys) ≡ sockets_for scheme h xs ++ sockets_for scheme h ys
  unfolding sockets_for
  sockets_for-append scheme h [] ys = refl
  sockets_for-append scheme h ((url, a) ∷ xs) ys = ground (arith, sockets_for-append scheme h xs ys)

  -- Both pairs of tables are consistent.
  pub record IsGood (f : Forwarding) : Type 0 where
    pub https : IsConsistent X (text "https_") f.https
    pub http : IsConsistent X (text "http_") f.http

  -- From `f` to `f'` each host has gained the sockets of the list, behind those that it had.
  pub record Grows (f f' : Forwarding) (added : List (X.Url × SocketAddr)) : Type 0 where
    pub good : IsGood f'
    pub https :
        (h : Text) → servers f'.https h ≡ servers f.https h ++ sockets_for (text "https") h added
    pub http :
        (h : Text) → servers f'.http h ≡ servers f.http h ++ sockets_for (text "http") h added
    pub ssh : f'.ssh_forwarding ≡ f.ssh_forwarding

  pub new-IsGood : IsGood new
  new-IsGood = record {
    https = no_tables-IsConsistent X (text "https_");
    http = no_tables-IsConsistent X (text "http_");
  }

  pub Grows-nil : (f : Forwarding) → IsGood f → Grows f f []
  unfolding sockets_for
  Grows-nil f g = record {
    good = g;
    https = λ h. rw append-nil;
    http = λ h. rw append-nil;
    ssh = refl;
  }

  pub Grows-trans :
      (f f' f'' : Forwarding) (xs ys : List (X.Url × SocketAddr))
      → Grows f f' xs
      → Grows f' f'' ys
      → Grows f f'' (xs ++ ys)
  Grows-trans f f' f'' xs ys p q = record {
    good = q.good;
    https = λ h. q.https h ∙ rw (p.https h, append_assoc, sockets_for-append);
    http = λ h. q.http h ∙ rw (p.http h, append_assoc, sockets_for-append);
    ssh = q.ssh ∙ p.ssh;
  }

  module _ (L : IsLawful X) (f f' : Forwarding) (url : X.Url) (a : SocketAddr) (g : IsGood f) where
    pub add_https-Grows :
        eq (X.scheme url) (text "https") ≡ true
        → eq (X.scheme url) (text "http") ≡ false
        → add_https X f url a ≡ ok f'
        → Grows f f' ((url, a) ∷ [])
    unfolding add_https sockets_for
    add_https-Grows p q e =
        let (host, r, s) = bind_result-eq-ok (unwrap (X.host_str url)) _ f' e in
        let found : X.host_str url ≡ some host = ground (arith, r) in
        let shape : f' ≡ record f { https = register X (text "https_") host a f.https } =
          ground (arith, s) in
        rw shape (record {
          good = record {
            https = register-IsConsistent X (text "https_") L host a f.https g.https;
            http = g.http;
          };
          https = λ h.
              servers-register X (text "https_") L host a f.https g.https h
              ∙ rw (p, found, has_host);
          http = λ h. rw (q) (rw append-nil);
          ssh = refl;
        })

    pub add_http-Grows :
        eq (X.scheme url) (text "https") ≡ false
        → eq (X.scheme url) (text "http") ≡ true
        → add_http X f url a ≡ ok f'
        → Grows f f' ((url, a) ∷ [])
    unfolding add_http sockets_for
    add_http-Grows p q e =
        let (host, r, s) = bind_result-eq-ok (unwrap (X.host_str url)) _ f' e in
        let found : X.host_str url ≡ some host = ground (arith, r) in
        let shape : f' ≡ record f { http = register X (text "http_") host a f.http } =
          ground (arith, s) in
        rw shape (record {
          good = record {
            https = g.https;
            http = register-IsConsistent X (text "http_") L host a f.http g.http;
          };
          https = λ h. rw (p) (rw append-nil);
          http = λ h.
              servers-register X (text "http_") L host a f.http g.http h ∙ rw (q, found, has_host);
          ssh = refl;
        })

    -- A URL of another scheme adds nothing.
    pub other-Grows :
        eq (X.scheme url) (text "https") ≡ false
        → eq (X.scheme url) (text "http") ≡ false
        → f ≡ f'
        → Grows f f' ((url, a) ∷ [])
    unfolding sockets_for
    other-Grows p q e = rw (← e) (record {
      good = g;
      https = λ h. rw (p) (rw append-nil);
      http = λ h. rw (q) (rw append-nil);
      ssh = refl;
    })
