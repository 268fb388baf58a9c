-- ===== src/Options/Forwarding.antt =====
-- What `parse_custom_forwarding` of src/lib.rs accepts.
use fractalnetworks_gateway.Base.{◌≡◌, true, [], ◌∷◌, ◌++◌}
use fractalnetworks_gateway.Base.Text.{Text, text}
use fractalnetworks_gateway.Base.Split.{lacks, split-append, split-lacks}
use fractalnetworks_gateway.Base.Result.{err, ok}
use fractalnetworks_gateway.Crates.{Crates, SocketAddr}
use fractalnetworks_gateway.Options.{parse_custom_forwarding}

-- Where URL and socket hold no equals sign, the text `URL=socket` is parsed to the two; a further
-- `=` with anything behind it changes nothing, and a URL alone is refused.
pub parse_custom_forwarding_pair :
    (X : Crates) (u s rest : Text) (url : X.Url) (socket : SocketAddr)
    → lacks b'=' u ≡ true
    → lacks b'=' s ≡ true
    → X.parse_url u ≡ ok url
    → X.parse_socket s ≡ ok socket
    → (parse_custom_forwarding X (u ++ (b'=' ∷ s)) ≡ ok (url, socket))
      × (parse_custom_forwarding X (u ++ (b'=' ∷ (s ++ (b'=' ∷ rest)))) ≡ ok (url, socket))
      × (parse_custom_forwarding X u ≡ err (text "Missing socket part" ∷ []))
unfolding parse_custom_forwarding
parse_custom_forwarding_pair X u s rest url socket h k p q = (
  rw (split-append b'=' u s h, split-lacks b'=' s k, p, q),
  rw (split-append b'=' u (s ++ (b'=' ∷ rest)) h, split-append b'=' s rest k, p, q),
  rw (split-lacks b'=' u h, p),
)
