-- ===== src/System/Store/Restoring.antt =====
-- What the restoring of rules does to what the concrete system that keeps what is set answers.
use fractalnetworks_gateway.Base.{
  ◌==◌, ◌&&◌, not, Bool, true, false, List, [], ◌∷◌, if◌then◌else◌, ◌∙◌, ◌≡◌, refl, sym, ap, some,
  arith,
}
use fractalnetworks_gateway.Base.Text.{Text, eq, eq_iff}
use fractalnetworks_gateway.Base.Result.{ok}
use fractalnetworks_gateway.Crates.Sample.{sample}
use fractalnetworks_gateway.Base.Split.{lines}
use fractalnetworks_gateway.Gateway.Iptables.Shown.{Shown, done, blank, blank_rule, rule}
use fractalnetworks_gateway.Gateway.Kernel.{
  Fact, listing, namespace, bridge, wireguard, veth, readable, address, up, mtu, master, rules,
  Agrees,
}
use fractalnetworks_gateway.System.Store.{Store, store_system}
use fractalnetworks_gateway.System.Store.Growing.{Holding, eq_refl}

abbrev pub all_rules : List Text → Bool
all_rules [] = true
all_rules ([] ∷ ls) = all_rules ls
all_rules ((c ∷ l) ∷ ls) = not (c == b'#') && all_rules ls

-- Lines are shown as they are, if none is a comment.
lines-Shown : (ls : List Text) → all_rules ls ≡ true → Shown (λ s. s) ls ls
lines-Shown [] h = done
lines-Shown ([] ∷ ls) h = blank (blank_rule (lines-Shown ls h))
lines-Shown ((c ∷ l) ∷ ls) h =
    let here : (c == b'#') ≡ false = ground (arith, h) in
    rule here here refl (lines-Shown ls (ground (arith, h)))

pub restored_rules :
    (n t : Text) (w : Store)
    → all_rules (lines t) ≡ true
    → (store_system.iptables_restore (some n) t w).0 ≡ ok tt
    → Holding (store_system.iptables_restore (some n) t w).1 (rules n t)
restored_rules n t w form p = (t, rw (eq_refl n) refl, lines-Shown (lines t) form)

pub restored-keeps :
    (n t : Text) (w : Store) (g : Fact sample)
    → (store_system.iptables_restore (some n) t w).0 ≡ ok tt
    → ((t' : Text) → Agrees (rules n t') g)
    → Holding w g
    → Holding (store_system.iptables_restore (some n) t w).1 g
restored-keeps n t w listing p a h = (_, refl)
restored-keeps n t w (namespace m) p a h = h
restored-keeps n t w (bridge i) p a h = h
restored-keeps n t w (wireguard m i) p a h = h
restored-keeps n t w (veth m i) p a h = h
restored-keeps n t w (readable o i) p a h = h
restored-keeps n t w (address o i net) p a h = h
restored-keeps n t w (up o i) p a h = record { status = h.status; shown = h.shown; up = h.up }
restored-keeps n t w (mtu o i m) p a h = h
restored-keeps n t w (master i m) p a h = h
restored-keeps n t w (rules m s) p a (saved, e, k) = (saved, ap ok (elsewhere (eq m n) refl) ∙ e, k)
  where
    elsewhere : (b : Bool) → eq m n ≡ b → (if b then t else w.saved m) ≡ w.saved m
    elsewhere true q =
        let same : n ≡ m = sym ((eq_iff m n).0 q) in
        let empty = a [] same in let full = a (b'a' ∷ []) same in absurd cc
    elsewhere false q = refl
