-- ===== src/Types/Forwarding/Upstreams.antt =====
-- The two tables of a scheme stay consistent, and serve for each host what was registered for it.
use mathlib.Core.List.{append-nil}
use fractalnetworks_gateway.Base.{
  length, ◌≡◌, ◌≢◌, refl, is_some, false, none, some, List, [], ◌∷◌, ◌++◌, if◌then◌else◌, arith,
  inl, inr, Bool-cases, Option-cases,
}
use fractalnetworks_gateway.Base.Text.{Text}
use fractalnetworks_gateway.Base.Map.{same, get, get_or}
use fractalnetworks_gateway.Base.Map.Laws.{get-nil, get-insert, same→eq, same_refl}
use fractalnetworks_gateway.Base.Orders.{text_order}
use fractalnetworks_gateway.Crates.{Crates, IsLawful, SocketAddr}
use fractalnetworks_gateway.Types.Forwarding.{Tables, no_tables, upstream_name, register}

-- The servers to which a connection for a host goes.
abbrev pub servers : Tables → Text → List SocketAddr
servers t host = elim (get host t.forwarding) [ none ↦ [] | some u ↦ get_or u [] t.upstream ]

append_cancel : (p s t : Text) → p ++ s ≡ p ++ t → s ≡ t
append_cancel [] s t h = h
append_cancel (c ∷ p) s t h = append_cancel p s t (cc)

length-behind : (l : List SocketAddr) (a : SocketAddr) → length (l ++ (a ∷ [])) ≢ 0
length-behind [] a = omega arith
length-behind (b ∷ l) a = omega arith

module _ (X : Crates) (prefix : Text) where
  -- A host's upstream is the one named after it and has a server at least; a host with no upstream has no
  -- servers under its name.
  pub record IsConsistent (t : Tables) : Type 0 where
    pub named : (h u : Text) → get h t.forwarding ≡ some u → u ≡ upstream_name X prefix h
    pub served : (h u : Text) → get h t.forwarding ≡ some u → length (get_or u [] t.upstream) ≢ 0
    pub fresh :
        (h : Text) → get h t.forwarding ≡ none → get (upstream_name X prefix h) t.upstream ≡ none

  pub no_tables-IsConsistent : IsConsistent no_tables
  no_tables-IsConsistent = record {
    named = λ h u e. cc (get-nil {V = Text} h);
    served = λ h u e. cc (get-nil {V = Text} h);
    fresh = λ h e. get-nil (upstream_name X prefix h);
  }

  module _ (L : IsLawful X) where
    upstream_name-injective :
        (g h : Text) → upstream_name X prefix g ≡ upstream_name X prefix h → g ≡ h
    upstream_name-injective g h e =
        L.base32_injective g h (append_cancel prefix (X.base32_encode g) (X.base32_encode h) e)

    module _ (host : Text) (socket : SocketAddr) (t : Tables) (c : IsConsistent t) where
      abbrev name : Text
      name = upstream_name X prefix host

      abbrev after : Tables
      after = register X prefix host socket t

      -- The upstream of the host, old or new, is the one named after it.
      used : get_or host name t.forwarding ≡ name
      used = elim (Option-cases (get host t.forwarding)) [
        | inl p ↦ rw (p, get_or)
        | inr (u, p) ↦ rw (p, get_or) (c.named host u p)
      ]

      -- What the lookups give afterwards.
      get_forwarding :
          (h : Text)
          → get h after.forwarding ≡ (if same h host then some name else get h t.forwarding)
      unfolding register
      get_forwarding h = elim (Option-cases (get host t.forwarding)) [
        | inl p ↦ rw (p, is_some, get_or) (get-insert h host name t.forwarding)
        | inr (u, p) ↦
            let e = c.named host u p in rw (p, is_some) (ground (arith, p, e, same→eq h host))
      ]

      get_upstream :
          (u : Text)
          → get u after.upstream ≡ (
              if same u name
              then some (get_or name [] t.upstream ++ (socket ∷ []))
              else get u t.upstream)
      unfolding register
      get_upstream u =
          rw used (get-insert u name (get_or name [] t.upstream ++ (socket ∷ [])) t.upstream)

      same_names : (h : Text) → same h host ≡ false → same (upstream_name X prefix h) name ≡ false
      same_names h p = elim (Bool-cases (same (upstream_name X prefix h) name)) [
        | inl q ↦ ground (
          arith,
          same_refl h,
          upstream_name-injective h host (same→eq (upstream_name X prefix h) name q),
        )
        | inr q ↦ q
      ]

      -- If base32 is injective and the tables of a scheme are consistent (each host with an
      -- upstream has the one named after it, which has a server at least, and the name of any other
      -- host is free), they still are after a socket is registered for a host.
      pub register-IsConsistent : IsConsistent after
      register-IsConsistent = record {
        named = λ h u e. ground (
          arith,
          get_forwarding h,
          same→eq h host,
          λ (p : get h t.forwarding ≡ some u). c.named h u p,
        );
        served = λ h u e. ground (
          arith,
          get_forwarding h,
          get_upstream u,
          same_refl name,
          length-behind (get_or name [] t.upstream) socket,
          λ (p : get h t.forwarding ≡ some u). c.served h u p,
        );
        fresh = λ h e. ground (
          arith,
          get_forwarding h,
          get_upstream (upstream_name X prefix h),
          same_names h,
          λ (p : get h t.forwarding ≡ none). c.fresh h p,
        );
      }

      servers_host : servers after host ≡ servers t host ++ (socket ∷ [])
      servers_host = elim (Option-cases (get host t.forwarding)) [
        | inl p ↦ ground (
          arith,
          p,
          get_forwarding host,
          get_upstream name,
          same_refl host,
          same_refl name,
          c.fresh host p,
        )
        | inr (u, p) ↦ ground (
          arith,
          p,
          get_forwarding host,
          get_upstream name,
          same_refl host,
          same_refl name,
          c.named host u p,
        )
      ]

      servers_other : (h : Text) → same h host ≡ false → servers after h ≡ servers t h
      servers_other h d = elim (Option-cases (get h t.forwarding)) [
        | inl p ↦ ground (arith, p, d, get_forwarding h)
        | inr (u, p) ↦
            ground (arith, p, d, get_forwarding h, get_upstream u, c.named h u p, same_names h d)
      ]

      -- If the tables of a scheme are consistent and base32 is injective, registering a socket for
      -- a host adds it behind the servers of that host, and leaves the servers of every other host
      -- as they are.
      pub servers-register :
          (h : Text) → servers after h ≡ servers t h ++ (if same h host then socket ∷ [] else [])
      servers-register h = elim (Bool-cases (same h host)) [
        | inl p ↦ rw (p, same→eq h host p) servers_host
        | inr p ↦ rw (p, append-nil) (servers_other h p)
      ]

pub servers-no_tables : (h : Text) → servers no_tables h ≡ []
unfolding get
servers-no_tables h = refl
