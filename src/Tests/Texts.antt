-- ===== src/Tests/Texts.antt =====
-- The theorems on texts that are written and read, at concrete inputs.
use fractalnetworks_gateway.Base.{
  List, ◌++◌, ℕ, ◌≡◌, refl, true, ◌==◌, none, some, [], ◌∷◌, map, All, if◌then◌else◌, arith,
}
use fractalnetworks_gateway.Base.Text.{Text, text, newline}
use fractalnetworks_gateway.Base.Split.{join, lines, lacks, carriage_return}
use fractalnetworks_gateway.Base.Result.{ok, err}
use fractalnetworks_gateway.Crates.Sample.{sample}
use fractalnetworks_gateway.Crates.Sample.Printed.{sample-IsPrinted}
use fractalnetworks_gateway.Client.Config.{NetworkState}
use fractalnetworks_gateway.Types.Stats.Parse.{network_from_str}
use fractalnetworks_gateway.Types.Stats.Dump.{
  DumpedPeer, DumpedNetwork, NetworkInRange, dump, parsed_network, show_mark,
}
use fractalnetworks_gateway.Types.Stats.Dump.RoundTrip.{network_from_str-dump}
use fractalnetworks_gateway.Types.Wireguard.{to_config}
use fractalnetworks_gateway.Types.Wireguard.Sections.{sections, interface_settings, peer_settings}
use fractalnetworks_gateway.Types.Wireguard.ReadBack.{sections-to_config}
use fractalnetworks_gateway.Gateway.Iptables.{clean_iptables, is_rule, is_filled}
use fractalnetworks_gateway.Gateway.Iptables.Cleaning.{Replaces, IsTidy}
use fractalnetworks_gateway.Gateway.Iptables.Shown.{Shown}
use fractalnetworks_gateway.Gateway.Iptables.Rules.{clean_iptables-IsTidy}
use fractalnetworks_gateway.Tests.Data.{network_on, first_server, own_address}

-- A peer that has everything, and one that has nothing.
abbrev full_peer : DumpedPeer sample
full_peer = record {
  public_key = 7;
  preshared_key = some 8;
  endpoint = some first_server;
  allowed_ips = own_address ∷ own_address ∷ [];
  latest_handshake = 1650000000;
  transfer_rx = 100;
  transfer_tx = 200;
  persistent_keepalive = some 25;
}

abbrev empty_peer : DumpedPeer sample
empty_peer = record {
  public_key = 9;
  preshared_key = none;
  endpoint = none;
  allowed_ips = [];
  latest_handshake = 0;
  transfer_rx = 0;
  transfer_tx = 0;
  persistent_keepalive = none;
}

abbrev dumped : DumpedNetwork sample
dumped = record {
  private_key = 1;
  public_key = 2;
  listen_port = 5;
  fwmark = none;
  peers = full_peer ∷ empty_peer ∷ [];
}

dumped-NetworkInRange : NetworkInRange dumped
dumped-NetworkInRange = (
  omega arith,
  ((omega arith, omega arith, omega arith), ((omega arith, omega arith, omega arith), tt)),
)

network_from_str-dump_example :
    network_from_str sample (dump (record dumped { fwmark = some 51820 }))
    ≡ err (text "invalid digit found in string" ∷ [])
network_from_str-dump_example =
    network_from_str-dump sample-IsPrinted (record dumped { fwmark = some 51820 })
      dumped-NetworkInRange

unmarked_test : network_from_str sample (dump dumped) ≡ ok (parsed_network dumped)
unmarked_test = network_from_str-dump sample-IsPrinted dumped dumped-NetworkInRange

show_mark_test : show_mark 51820 ≡ text "0xca6c"
unfolding show_mark
show_mark_test = refl

abbrev joined : NetworkState sample
joined = record (network_on 5) {
  peers =
      (7, record { preshared_key = some 8; endpoint = none; allowed_ips = own_address ∷ [] })
      ∷ (9, record { preshared_key = none; endpoint = some first_server; allowed_ips = [] })
      ∷ [];
}

sections-to_config_example :
    sections (lines (to_config joined)) ≡ interface_settings joined ∷ map peer_settings joined.peers
sections-to_config_example = sections-to_config sample-IsPrinted joined

-- From a bracket on, the line is replaced by the counter.
replace_from : Text → Text
replace_from [] = []
replace_from (c ∷ s) = let rest = replace_from s in if c == b'[' then text "[0:0]" else c ∷ rest

replace_from_once : (s : Text) → replace_from (replace_from s) ≡ replace_from s
unfolding replace_from
replace_from_once [] = refl
replace_from_once (c ∷ s) = ground (arith, replace_from_once s)

lacks-replace_from :
    (k : ℕ) (s : Text)
    → lacks k (text "[0:0]") ≡ true
    → lacks k s ≡ true
    → lacks k (replace_from s) ≡ true
unfolding replace_from
lacks-replace_from k [] e h = refl
lacks-replace_from k (c ∷ s) e h = ground (arith, lacks-replace_from k s e)

replace_from_filled : (s : Text) → is_filled s ≡ true → is_filled (replace_from s) ≡ true
unfolding replace_from
replace_from_filled [] h = h
replace_from_filled (c ∷ s) h = ground arith

replace_from_rule : (s : Text) → is_rule s ≡ true → is_rule (replace_from s) ≡ true
unfolding replace_from
replace_from_rule [] h = h
replace_from_rule (c ∷ s) h = ground arith

replace_from-Replaces : Replaces replace_from
replace_from-Replaces = record {
  once = replace_from_once;
  no_newline = λ s. lacks-replace_from newline s refl;
  no_return = λ s. lacks-replace_from carriage_return s refl;
  filled = replace_from_filled;
  rule = replace_from_rule;
}

-- Two lines with counters, a comment and an empty line.
abbrev saved : Text
saved = text "# saved\n*nat\n\n:INPUT ACCEPT [7:420]\nCOMMIT\n"

clean_iptables-IsTidy_example :
    (ls : List Text) × Shown replace_from (lines saved) ls
    × All (IsTidy replace_from replace_from-Replaces) ls
    × (clean_iptables replace_from saved ≡ join (newline ∷ []) ls ++ (newline ∷ []))
    × (clean_iptables replace_from (clean_iptables replace_from saved)
        ≡ clean_iptables replace_from saved)
clean_iptables-IsTidy_example = clean_iptables-IsTidy replace_from replace_from-Replaces saved refl
