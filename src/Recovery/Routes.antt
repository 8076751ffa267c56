-- ===== src/Recovery/Routes.antt =====
-- `_routes`, `_verify` and `_sign` of session_peer_relay/recovery.py, and `direct_address` and `validate_relay_url` of
-- session_peer_relay/wire.py.
use session_peer.Common.{
  ℕ, String, Bool, true, false, Option, none, some, List, [], ◌∷◌, ◌==◌, string_eq, nat_eq, ◌&&◌,
  ◌||◌, not, leb, length, member,
}
use Prim.Native.String.{◌++◌ as text_append}
use session_peer.Common.Json.{Json, Fields, str, obj, end, field, size, within, get}
use session_peer.Common.Text.{codes, every}

-- The parts of an address, as `urllib.parse.urlsplit` reads it
pub record Url : Type 0 where
  pub scheme : String
  pub hostname : Option String
  pub port : Option ℕ
  pub username : Option String
  pub password : Option String
  pub path : String
  pub query : String
  pub fragment : String

-- What is taken from `urllib` and `cryptography`: an address that cannot be read has no value, and a port
-- that is absent or cannot be read none; `sign` is the device's signature of a dictionary's canonical text, and `verified` is whether a text is
-- such a signature by the key of a certificate.
pub record Keeper : Type 0 where
  pub split : String → Option Url
  pub sign : Fields → String
  pub verified : String → Fields → String → Bool

-- `not text`, of a text that may be None
abbrev pub is_absent : Option String → Bool
is_absent none = true
is_absent (some t) = t == ""

abbrev pub is_port : Option ℕ → Bool
is_port none = false
is_port (some n) = leb 1 n && leb n 65535

abbrev pub is_loopback : Option String → Bool
is_loopback none = false
is_loopback (some host) = member host ("127.0.0.1" ∷ "::1" ∷ "localhost" ∷ [])

-- `direct_address` of `tcp://` before the value raises nothing
abbrev pub is_direct_address : Url → Bool
is_direct_address u =
    not (is_absent u.hostname)
    && is_port u.port
    && is_absent u.username
    && is_absent u.password
    && u.path == ""
    && u.query == ""
    && u.fragment == ""

-- `validate_relay_url` raises nothing
abbrev pub is_relay_url : Url → Bool
is_relay_url u =
    (u.scheme == "ws" || u.scheme == "wss")
    && not (is_absent u.hostname)
    && is_absent u.username
    && is_absent u.password
    && u.query == ""
    && u.fragment == ""
    && u.path == "/v1/connect"
    && not (u.scheme == "ws" && not (is_loopback u.hostname))

abbrev pub passes : (Url → Bool) → Option Url → Bool
passes p none = false
passes p (some u) = p u

-- `[A-Za-z0-9_-]{80,144}`
abbrev pub is_proof_char : ℕ → Bool
is_proof_char c =
    leb b'A' c && leb c b'Z'
    || leb b'a' c && leb c b'z'
    || leb b'0' c && leb c b'9'
    || c == b'_'
    || c == b'-'

abbrev pub is_proof : List ℕ → Bool
is_proof cs = leb 80 (length cs) && leb (length cs) 144 && every is_proof_char cs

module _ (keeper : Keeper) where
  abbrev pub are_texts : Fields → Bool
  are_texts end = true
  are_texts (field _ (str _) d) = are_texts d
  are_texts (field _ _ d) = false

  -- a route that is absent passes
  abbrev pub route_passes : (Url → Bool) → (String → String) → Option Json → Bool
  route_passes p prefix none = true
  route_passes p prefix (some (str s)) = passes p (keeper.split (prefix s))
  route_passes p prefix (some _) = false

  -- `_routes` raises nothing
  unfoldable pub are_routes : Json → Bool
  are_routes (obj d) =
      not (size d == 0)
      && within ("direct" ∷ "relay" ∷ []) d
      && are_texts d
      && route_passes is_direct_address (λ s. text_append "tcp://" s) (get "direct" d)
      && route_passes is_relay_url (λ s. s) (get "relay" d)
  are_routes _ = false

  -- `_verify` raises nothing
  unfoldable pub is_verified : String → Fields → Json → Bool
  is_verified cert payload (str proof) =
      is_proof (codes proof) && keeper.verified cert payload proof
  is_verified cert payload _ = false
