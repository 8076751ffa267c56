-- ===== src/Handoff/Collector.antt =====
-- `handoff_collect`, the collector's answer to one frame, and `handoff_confirm`, an operator's word for a
-- receipt.
use session_peer.Common.{
  Option, String, Bool, true, false, none, some, List, [], ◌∷◌, ◌==◌, string_eq, ◌&&◌, ◌||◌, not,
  if◌then◌else◌, pure, raise, raise_if, gets, modify, ◌>>=◌, ◌>>◌,
}
use session_peer.Common.Json.{Fields, str, at, put, has_exactly, is_true, is_text, field, end}
use session_peer.Handoff.State.{
  Ack, Wait, WaitStatus, LedgerAction, RecordAction, timed_out_unknown, operator_confirmed,
  invalid_receipt, receipt_authority_unavailable, receipt_submission_unconfirmed,
  receipt_order_unprovable, is_submitted,
}
use session_peer.Handoff.Texts.{Library}
use session_peer.Handoff.Transactions.{Moment, on_record, transaction, same_optional}
use session_peer.Handoff.Receipts.{Reply, clock, mint_record, accept_record}
use session_peer.Handoff.Wire.{uuid_of, identifier_of, private_wire}

-- `frame == {"op": "clock"}`
abbrev pub is_clock_frame : Fields → Bool
is_clock_frame d = has_exactly ("op" ∷ []) d && is_text "clock" (at "op" d)

-- `frame == {"op": "clock", "readOnly": True}`, and the second is a truth value
abbrev pub is_read_only_clock : Fields → Bool
is_read_only_clock d =
    has_exactly ("op" ∷ "readOnly" ∷ []) d
    && is_text "clock" (at "op" d)
    && is_true (at "readOnly" d)

-- `{key: value for key, value in frame.items() if key != "op"}`
abbrev pub without_op : Fields → Fields
without_op end = end
without_op (field k v d) = if k == "op" then without_op d else field k v (without_op d)

abbrev pub as_receipt : Fields → Fields
as_receipt d =
    put "receiptId" (str "00000000-0000-4000-8000-000000000000")
      (put "kind" (str "receipt") (without_op d))

abbrev pub mint_keys : List String
mint_keys = "op" ∷ "ledgerEpoch" ∷ "correlationId" ∷ "targetGeneration" ∷ []

abbrev pub classify_keys : List String
classify_keys =
    "op" ∷ "schemaVersion" ∷ "ledgerEpoch" ∷ "correlationId" ∷ "targetGeneration" ∷ "capability"
    ∷ []

-- `record is None` and another epoch are refused alike.
unfoldable pub at_epoch : {A : Type 0} → String → String → RecordAction A → LedgerAction A
at_epoch epoch correlation change = do
  current ← gets (λ l. l.epoch)
  raise_if (not (current == epoch)) receipt_authority_unavailable
  on_record correlation (raise receipt_authority_unavailable) change

module _ (library : Library) (moment : Moment) (epoch_id : String) where
  unfoldable pub mint_frame : String → Fields → LedgerAction Reply
  mint_frame token frame = do
    raise_if (not (has_exactly mint_keys frame)) invalid_receipt
    epoch ← uuid_of (at "ledgerEpoch" frame)
    correlation ← uuid_of (at "correlationId" frame)
    generation ← identifier_of (at "targetGeneration" frame)
    at_epoch epoch correlation (mint_record library moment epoch_id token epoch generation)

  unfoldable pub accept_frame : Bool → Fields → LedgerAction Reply
  accept_frame classify frame = do
    wire ← private_wire library frame
    at_epoch wire.epoch wire.correlation (accept_record library moment epoch_id classify wire)

  -- `token` is the text of the 32 random bytes that a capability is made of.
  unfoldable pub collect_frame : String → Fields → LedgerAction Reply
  collect_frame token frame =
      if is_clock_frame frame || is_read_only_clock frame
      then pure (clock epoch_id)
      else if is_text "mint" (at "op" frame)
      then mint_frame token frame
      else if is_text "classify" (at "op" frame)
      then (raise_if (not (has_exactly classify_keys frame)) invalid_receipt
          >> accept_frame true (as_receipt frame))
      else accept_frame false frame

  unfoldable pub collect : String → Fields → LedgerAction Reply
  collect token frame =
      transaction library moment (is_read_only_clock frame) (collect_frame token frame)

abbrev is_timed_out : WaitStatus → Bool
is_timed_out timed_out_unknown = true
is_timed_out _ = false

-- the first wait has not run out
abbrev pub is_origin_open : List Wait → Bool
is_origin_open [] = false
is_origin_open (w ∷ _) = not (is_timed_out w.status)

abbrev pub has_waits : List Wait → Bool
has_waits [] = false
has_waits (_ ∷ _) = true

module _ (moment : Moment) where
  -- An existing acknowledgement is not written again.
  abbrev pub confirm_first : Option Ack → RecordAction Unit
  confirm_first (some _) = pure tt
  confirm_first none = do
    r ← gets (λ r. r)
    raise_if (is_origin_open r.waits) receipt_order_unprovable
    modify (λ r. record r {
      ack = some (record {
        assurance = operator_confirmed;
        received_utc = moment.utc;
        late = has_waits r.waits;
        receipt = none;
        classified = none;
      });
    })

  unfoldable pub confirm_record : String → RecordAction Unit
  confirm_record generation = do
    r ← gets (λ r. r)
    raise_if (not (same_optional r.generation (some generation))) receipt_authority_unavailable
    raise_if (not (is_submitted r.submission)) receipt_submission_unconfirmed
    confirm_first r.ack

  -- The argument is what `handoff_private_wire(raw, confirmation=True)` returns.
  unfoldable pub confirm : Library → String × String × String → LedgerAction Unit
  confirm library frame =
      transaction library moment false (at_epoch frame.0 frame.1 (confirm_record frame.2))
