-- ===== src/Handoff/Texts.antt =====
-- `HANDOFF_UUID`, `handoff_uuid` and `handoff_identifier` as tests, and what the ledger takes from `json`, `hashlib` and
-- `base64`.
use session_peer.Common.{
  ℕ, String, Bool, List, [], ◌∷◌, ◌==◌, nat_eq, ◌&&◌, ◌||◌, not, leb, ltb, length, Option, none,
  some,
}
use session_peer.Common.Text.{codes, every, is_hex, matches, times, hyphen, utf8_length}
use session_peer.Common.Json.{Items, Fields}
use session_peer.Handoff.State.{Record, Ledger}

-- What the ledger takes from `json`, `hashlib` and `base64`: the text of a list, a digest of a text, the
-- bytes of URL-safe base 64 and back (without padding), and the size of a JSON text.
pub record Library : Type 0 where
  pub dumps : Items → String
  pub sha256 : String → String
  pub decode64 : String → List ℕ
  pub encode64 : List ℕ → String
  pub json_size : Fields → ℕ
  pub record_size : Record → ℕ
  pub ledger_size : Ledger → ℕ

abbrev variant : ℕ → Bool
variant c = c == b'8' || c == b'9' || c == b'a' || c == b'b'

abbrev version : ℕ → Bool
version c = c == b'4'

-- `HANDOFF_UUID.fullmatch(value)`
unfoldable pub is_uuid : String → Bool
is_uuid s =
    matches
      (times 8 is_hex (
        hyphen
        ∷ times 4 is_hex (
            hyphen
            ∷ version
            ∷ times 3 is_hex (hyphen ∷ variant ∷ times 3 is_hex (hyphen ∷ times 12 is_hex [])))))
      (codes s)

abbrev is_control : ℕ → Bool
is_control c = ltb c 32 || (leb 127 c && leb c 159) || (leb 55296 c && leb c 57343)

-- `handoff_identifier(value, limit)` returns
unfoldable pub is_identifier : ℕ → String → Bool
is_identifier limit s =
    not (length (codes s) == 0)
    && every (λ c. not (is_control c)) (codes s)
    && leb (utf8_length (codes s)) limit

abbrev pub if_some {ℓ} : {A : Type ℓ} → (A → Bool) → Option A → Bool
if_some p none = Bool.true
if_some p (some a) = p a

-- `9223372036854775807` and `9007199254740991`
abbrev pub uint_max : ℕ
uint_max = 9223372036854775807

abbrev pub utc_max : ℕ
utc_max = 9007199254740991
