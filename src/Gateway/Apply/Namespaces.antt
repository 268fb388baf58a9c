-- ===== src/Gateway/Apply/Namespaces.antt =====
-- Which network namespaces exist after `apply`.
use fractalnetworks_gateway.Base.{
  ◌≡◌, refl, ap, ◌∙◌, Bool, true, false, not, ◌&&◌, ◌||◌, any, List, [], ◌∷◌, map, if◌then◌else◌,
  arith, inl, inr, Bool-cases,
}
use fractalnetworks_gateway.Base.Text.{Text, text, eq, eq_iff, starts_with}
use fractalnetworks_gateway.Base.Result.{ok, Call, pure, context, ◌>>=◌, ◌>>◌}
use fractalnetworks_gateway.Base.Frames.{
  Frames, Frames-bind, Frames-lift, Frames-context, bind_ok, context_ok,
}
use fractalnetworks_gateway.Base.Word.{Build}
use fractalnetworks_gateway.Crates.{Crates}
use fractalnetworks_gateway.Client.Config.{NetworkState, GatewayConfig}
use fractalnetworks_gateway.Base.Map.{keys}
use fractalnetworks_gateway.Types.Names.{
  netns_prefix, netns_of_port, netns_name, wgif_of_netns-netns_name,
}
use fractalnetworks_gateway.Types.Stats.{NetnsItem}
use fractalnetworks_gateway.System.{System}
use fractalnetworks_gateway.Gateway.Namespaces.{
  Namespaces, apply_bridge-Frames, apply_nginx-Frames, has-apply_network,
}
use fractalnetworks_gateway.Gateway.Network.{apply_network}
use fractalnetworks_gateway.Gateway.Nginx.{CustomForwarding, apply_nginx}
use fractalnetworks_gateway.Gateway.Apply.{
  Gateway, contains, to_set, difference, names_of, networks_of, delete_surplus, apply_networks,
  create_bridge, apply_world, apply, on_world,
}

contains-swap : (a b : Text) → eq a b ≡ true → a ≡ b
contains-swap a b h = (eq_iff a b).0 h

contains-to_set : (names : List Text) (n : Text) → contains (to_set names) n ≡ contains names n
unfolding to_set
contains-to_set [] n = refl
contains-to_set (m ∷ names) n = elim (Bool-cases (contains names m)) [
  | inl p ↦ elim (Bool-cases (eq n m)) [
    | inl q ↦ rw p (contains-to_set names n ∙ rw q (rw ((eq_iff n m).0 q) p))
    | inr q ↦ rw (p, q) (contains-to_set names n)
  ]
  | inr p ↦ rw p (ap (λ b. eq n m || b) (contains-to_set names n))
]

contains-difference :
    (names expected : List Text) (n : Text)
    → contains (difference names expected) n ≡ (contains names n && not (contains expected n))
unfolding difference
contains-difference [] expected n = refl
contains-difference (m ∷ names) expected n = elim (Bool-cases (eq n m)) [
  | inl q ↦
      let e = (eq_iff n m).0 q in
      elim (Bool-cases (contains expected m)) [
        | inl p ↦ rw (p, q) (contains-difference names expected n ∙ rw e (rw p (ground arith)))
        | inr p ↦ rw p (rw q (rw e (rw p)))
      ]
  | inr q ↦ elim (Bool-cases (contains expected m)) [
    | inl p ↦ rw (p, q) (contains-difference names expected n)
    | inr p ↦ rw p (rw q (contains-difference names expected n))
  ]
]

module _ {X : Crates} {S : System X} (N : Namespaces S) where
  create_bridge-Frames : Frames N.has (create_bridge S)
  unfolding create_bridge
  create_bridge-Frames =
      Frames-bind _ _ (Frames-lift _) (λ net. Frames-context _ _ (apply_bridge-Frames N _ _))

  abbrev delete_if : Bool → Text → Call S.World (Unit {0})
  delete_if b m =
      if b then context (text "Removing surplus network namespace") (S.netns_del m) else pure tt

  has-delete_if :
      (b : Bool) (m : Text) (w : S.World)
      → (delete_if b m w).0 ≡ ok tt
      → (n : Text) → N.has (delete_if b m w).1 n ≡ (if eq n m && b then false else N.has w n)
  unfolding context pure
  has-delete_if true m w h n =
      N.deleted m w (context_ok (text "Removing surplus network namespace") (S.netns_del m) w tt h)
        n
      ∙ ground arith
  has-delete_if false m w h n = ground arith

  combine :
      (m n : Text) (later before : Bool)
      → (if later && starts_with n netns_prefix
          then false
          else if eq n m && starts_with m netns_prefix
          then false
          else before)
        ≡ (if (eq n m || later) && starts_with n netns_prefix then false else before)
  combine m n later before = elim (Bool-cases (eq n m)) [
    | inl q ↦ let e = (eq_iff n m).0 q in rw q (rw e (ground arith))
    | inr q ↦ rw q (ground arith)
  ]

  -- A namespace that is listed as surplus and is the gateway's is gone; the others stay.
  has-delete_surplus :
      (surplus : List Text) (w : S.World)
      → (delete_surplus S surplus w).0 ≡ ok tt
      → (n : Text)
      → N.has (delete_surplus S surplus w).1 n
        ≡ (if contains surplus n && starts_with n netns_prefix then false else N.has w n)
  unfolding delete_surplus pure
  has-delete_surplus [] w h n = refl
  has-delete_surplus (m ∷ surplus) w h n =
      let first = delete_if (starts_with m netns_prefix) m in
      let (u, p, q, r) = bind_ok first (λ _. delete_surplus S surplus) w tt h in
      ap (λ s. N.has s n) r
      ∙ has-delete_surplus surplus (first w).1 q n
      ∙ ap (λ b. if contains surplus n && starts_with n netns_prefix then false else b)
          (has-delete_if (starts_with m netns_prefix) m w p n)
      ∙ combine m n (contains surplus n) (N.has w n)

  has-apply_networks :
      (b : Build) (networks : List (NetworkState X)) (w : S.World)
      → (apply_networks S b networks w).0 ≡ ok tt
      → (n : Text)
      → N.has (apply_networks S b networks w).1 n
        ≡ (contains (map netns_name networks) n || N.has w n)
  unfolding apply_networks pure
  has-apply_networks b [] w h n = refl
  has-apply_networks b (network ∷ networks) w h n =
      let (u, p, q, r) =
        bind_ok (apply_network S b network) (λ _. apply_networks S b networks) w tt h in
      ap (λ s. N.has s n) r
      ∙ has-apply_networks b networks (apply_network S b network w).1 q n
      ∙ ap (λ x. contains (map netns_name networks) n || x) (has-apply_network N b network w p n)
      ∙ ground arith

  contains-names_of :
      (items : List NetnsItem) (n : Text)
      → contains (names_of S items) n ≡ any (λ (i : NetnsItem). eq n i.name) items
  contains-names_of [] n = refl
  contains-names_of (i ∷ items) n = ap (λ b. eq n i.name || b) (contains-names_of items n)

  abbrev expected : List (NetworkState X) → List Text
  expected = map netns_name

  -- Only names with the gateway's prefix are expected.
  contains-expected :
      (networks : List (NetworkState X)) (n : Text)
      → contains (expected networks) n ≡ true
      → starts_with n netns_prefix ≡ true
  contains-expected [] n h = cc
  contains-expected (network ∷ networks) n h = elim (Bool-cases (eq n (netns_name network))) [
    | inl q ↦ rw ((eq_iff n (netns_name network)).0 q) (wgif_of_netns-netns_name network).0
    | inr q ↦ contains-expected networks n (ground (arith, q, h))
  ]

  -- What is listed as surplus goes, what is expected comes, and the rest stays.
  settled :
      (listed wanted ours before : Bool)
      → listed ≡ before
      → (wanted ≡ true → ours ≡ true)
      → (wanted || (if (listed && not wanted) && ours then false else before))
        ≡ (if ours then wanted else before)
  settled listed wanted ours before e h = elim (Bool-cases wanted) [
    | inl p ↦ rw (p, h p)
    | inr p ↦ rw (p, e) (ground arith)
  ]

  module _ (b : Build) (custom : CustomForwarding X) (networks : List (NetworkState X)) where
    abbrev nginx_step : Call S.World (Unit {0})
    nginx_step = context (text "Applying nginx configuration") (apply_nginx S b networks custom)

    abbrev pub surplus_of : List NetnsItem → List Text
    surplus_of items = difference (to_set (names_of S items)) (to_set (expected networks))

    has-applied :
        (w : S.World)
        → ((apply_networks S b networks >> nginx_step) w).0 ≡ ok tt
        → (n : Text)
        → N.has ((apply_networks S b networks >> nginx_step) w).1 n
          ≡ (contains (expected networks) n || N.has w n)
    has-applied w h n =
        let (u, p, q, r) = bind_ok (apply_networks S b networks) (λ _. nginx_step) w tt h in
        ap (λ s. N.has s n) r
        ∙ ap (λ (f : Text → Bool). f n)
            ((Frames-context _ _ (apply_nginx-Frames N b networks custom)).frame _)
        ∙ has-apply_networks b networks w p n

    has-replaced :
        (surplus : List Text) (w : S.World)
        → ((delete_surplus S surplus >> (apply_networks S b networks >> nginx_step)) w).0 ≡ ok tt
        → (n : Text)
        → N.has ((delete_surplus S surplus >> (apply_networks S b networks >> nginx_step)) w).1 n
          ≡ (contains (expected networks) n
              || (if contains surplus n && starts_with n netns_prefix then false else N.has w n))
    has-replaced surplus w h n =
        let (u, p, q, r) =
          bind_ok (delete_surplus S surplus) (λ _. apply_networks S b networks >> nginx_step) w tt
            h in
        ap (λ s. N.has s n) r
        ∙ has-applied _ q n
        ∙ ap (λ x. contains (expected networks) n || x) (has-delete_surplus surplus w p n)

    pub contains-surplus_of :
        (items : List NetnsItem) (n : Text)
        → contains (surplus_of items) n
          ≡ (any (λ (i : NetnsItem). eq n i.name) items && not (contains (expected networks) n))
    contains-surplus_of items n =
        contains-difference (to_set (names_of S items)) (to_set (expected networks)) n
        ∙ rw (
          contains-to_set (names_of S items) n,
          contains-to_set (expected networks) n,
          contains-names_of items n,
        )

    abbrev listing_step : Call S.World (Unit {0})
    listing_step = do
      items ← S.netns_list
      delete_surplus S (surplus_of items)
      apply_networks S b networks
      nginx_step

    has-listed :
        (w : S.World)
        → (listing_step w).0 ≡ ok tt
        → (n : Text)
        → N.has (listing_step w).1 n
          ≡ (if starts_with n netns_prefix then contains (expected networks) n else N.has w n)
    has-listed w h n =
        let (items, p, q, r) =
          bind_ok S.netns_list
            (λ items.
              delete_surplus S (surplus_of items) >> (apply_networks S b networks >> nginx_step))
            w tt h in
        let kept = ap (λ (f : Text → Bool). f n) (N.keeps-list.frame w) in
        ap (λ s. N.has s n) r
        ∙ has-replaced (surplus_of items) _ q n
        ∙ rw (contains-surplus_of items n, kept)
            (settled _ (contains (expected networks) n) (starts_with n netns_prefix) (N.has w n)
              (N.listed w items p n) (contains-expected networks n))

    -- The namespaces that exist after a successful `apply_world`, in terms of those before.
    pub has-apply_world :
        (w : S.World)
        → (apply_world S b custom networks w).0 ≡ ok tt
        → (n : Text)
        → N.has (apply_world S b custom networks w).1 n
          ≡ (if starts_with n netns_prefix then contains (expected networks) n else N.has w n)
    unfolding apply_world
    has-apply_world w h n =
        let (u, p, q, r) = bind_ok (create_bridge S) (λ _. listing_step) w tt h in
        let kept = ap (λ (f : Text → Bool). f n) (create_bridge-Frames.frame w) in
        ap (λ s. N.has s n) r ∙ has-listed _ q n ∙ rw kept

module _ {X : Crates} where
  names-networks_of :
      (config : GatewayConfig X)
      → map netns_name (networks_of config) ≡ map netns_of_port (keys config)
  unfolding networks_of netns_name netns_of_port
  names-networks_of [] = refl
  names-networks_of ((port, network) ∷ config) =
      ap (λ rest. netns_of_port port ∷ rest) (names-networks_of config)

module _ {X : Crates} {S : System X} (N : Namespaces S) where
  -- If the calls on network namespaces do what they say and no other call adds or removes one,
  -- then after an `apply` that returned `ok` a name with the gateway's prefix is the name of a
  -- namespace exactly when the configuration has a port of that name, whatever was there before;
  -- and a namespace without the prefix is there exactly when it was before.
  pub has-apply :
      (b : Build) (custom : CustomForwarding X) (config : GatewayConfig X) (g : Gateway S)
      → (apply S b custom config g).0 ≡ ok tt
      → (n : Text)
      → N.has (apply S b custom config g).1.world n ≡ (
          if starts_with n netns_prefix
          then contains (map netns_of_port (keys config)) n
          else N.has g.world n)
  unfolding apply on_world
  has-apply b custom config g h n =
      has-apply_world N b custom (networks_of config) g.world h n
      ∙ ap (λ l. if starts_with n netns_prefix then contains l n else N.has g.world n)
          (names-networks_of config)
