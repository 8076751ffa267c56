-- ===== src/Handoff/Wire.antt =====
-- `handoff_private_wire`: the frames of receipts and confirmations.
use session_peer.Common.{
  ℕ, String, Bool, List, [], ◌∷◌, ◌==◌, string_eq, nat_eq, ◌&&◌, ◌||◌, not, leb, ltb, length, pure,
  raise, raise_if, ◌>>=◌, ◌>>◌,
}
use session_peer.Common.Text.{codes, every}
use session_peer.Common.Json.{Json, Fields, str, at, has_exactly, is_true, is_text, is_upto}
use session_peer.Handoff.State.{LedgerAction, invalid_receipt, invalid_correlation_id}
use session_peer.Handoff.Texts.{Library, is_uuid, is_identifier}

pub record Wire : Type 0 where
  pub epoch : String
  pub correlation : String
  pub generation : String
  pub receipt : String
  pub capability : String

-- `handoff_uuid` and `handoff_identifier` of a value that may be no text
abbrev pub uuid_of : Json → LedgerAction String
uuid_of (str s) = raise_if (not (is_uuid s)) invalid_correlation_id >> pure s
uuid_of _ = raise invalid_correlation_id

abbrev pub identifier_of : Json → LedgerAction String
identifier_of (str s) = raise_if (not (is_identifier 256 s)) invalid_receipt >> pure s
identifier_of _ = raise invalid_receipt

abbrev pub is_base64 : ℕ → Bool
is_base64 c =
    (leb b'A' c && leb c b'Z')
    || (leb b'a' c && leb c b'z')
    || (leb b'0' c && leb c b'9')
    || c == b'_'
    || c == b'-'

abbrev pub is_version_1 : Json → Bool
is_version_1 v = is_upto 1 v && not (is_upto 0 v)

abbrev pub epoch_keys : List String
epoch_keys = "ledgerEpoch" ∷ "correlationId" ∷ "targetGeneration" ∷ []

module _ (library : Library) where
  -- the checks of a capability's text
  unfoldable pub is_token_text : String → Bool
  is_token_text s =
      length (codes s) == 43
      && every is_base64 (codes s)
      && length (library.decode64 s) == 32
      && library.encode64 (library.decode64 s) == s

  abbrev pub token_of : Json → LedgerAction String
  unfolding is_token_text
  token_of (str s) = raise_if (not (is_token_text s)) invalid_receipt >> pure s
  token_of _ = raise invalid_receipt

  unfoldable pub private_wire : Fields → LedgerAction Wire
  unfolding token_of
  private_wire d = do
    raise_if
        (ltb 4096 (library.json_size d)
          || not
              (has_exactly ("schemaVersion" ∷ "kind" ∷ "receiptId" ∷ "capability" ∷ epoch_keys) d)
          || not (is_version_1 (at "schemaVersion" d)))
        invalid_receipt
    epoch ← uuid_of (at "ledgerEpoch" d)
    correlation ← uuid_of (at "correlationId" d)
    generation ← identifier_of (at "targetGeneration" d)
    receipt ← uuid_of (at "receiptId" d)
    raise_if (not (is_text "receipt" (at "kind" d))) invalid_receipt
    capability ← token_of (at "capability" d)
    pure (record {
      epoch = epoch;
      correlation = correlation;
      generation = generation;
      receipt = receipt;
      capability = capability;
    })

  -- `handoff_private_wire(raw, confirmation=True)`: what it names
  unfoldable pub confirmation_wire : Fields → LedgerAction (String × String × String)
  confirmation_wire d = do
    raise_if
        (ltb 4096 (library.json_size d)
          || not (has_exactly ("schemaVersion" ∷ "confirmed" ∷ epoch_keys) d)
          || not (is_version_1 (at "schemaVersion" d)))
        invalid_receipt
    epoch ← uuid_of (at "ledgerEpoch" d)
    correlation ← uuid_of (at "correlationId" d)
    generation ← identifier_of (at "targetGeneration" d)
    raise_if (not (is_true (at "confirmed" d))) invalid_receipt
    pure (epoch, correlation, generation)
