-- ===== src/Dispatch/Tests.antt =====
-- Runs of `dispatch` of session_peer_relay/app.py.
use session_peer.Common.{◌*◌, false, true, String, false, none, some, [], ◌∷◌, ◌≡◌, refl, ok}
use session_peer.Common.Json.{real, finite, put, bool, Fields, str, num, obj, dict}
use session_peer.Store.State.{Store}
use session_peer.Store.Keys.{principal}
use session_peer.Store.Journal as Journal
use session_peer.Store.Samples.{platform, key_a, key_b, with_laptop}
use session_peer.Dispatch.{turn, request_id, is_restricted}
use session_peer.Dispatch.State.{second, Clock, Policy, Turn, answer, deliver, Message}
use session_peer.Dispatch.Messages.{check_message}
use session_peer.Dispatch.Granted.{Granted}
use session_peer.Dispatch.Requests.{IsRequest, FitsFrames}
use session_peer.Dispatch.Gates.{IsSettled, dispatch_delivers, MaySend}

abbrev clock : Clock
clock = record {
  pairing = 100;
  preparing = record { now = 100; adopting = 100; accept = 100 };
  committing = record {
    for_key = 100;
    for_row = 100;
    adopting = 100;
    accept = 100;
    terminal = 100;
  };
  for_key = 100;
  before = 100 * second;
  after = 100 * second;
  rotation = 100;
}

abbrev binding : Fields
binding = dict (("agent", str "claude") ∷ ("target", str "claude:1") ∷ [])

abbrev policy : Policy
policy = record {
  targets = record { alias = "desk"; binding = binding } ∷ [];
  peers = record { peer = key_a; capabilities = "send" ∷ []; targets = "desk" ∷ [] } ∷ [];
}

abbrev text_of : Fields → String
text_of d = "canonical"

abbrev request : Fields
request = dict (
    ("v", num 1)
    ∷ ("sender", str key_a)
    ∷ ("receiver", str key_b)
    ∷ ("id", str "m1")
    ∷ ("expires", real (finite false 160 (2 * 1125899906842624)) "160.5")
    ∷ ("op", str "send")
    ∷ ("body", obj (dict (("target", str "desk") ∷ ("message", str "hello") ∷ [])))
    ∷ [])

abbrev message : Message
message = record { alias = "desk"; binding = binding; text = "hello"; key = key_a; explain = false }

abbrev after : Store
after = (Journal.begin platform key_a "m1" "canonical" with_laptop).1

delivered :
    turn platform text_of policy clock (some key_a) request with_laptop
    ≡ (ok (deliver key_a "m1" message), after)
unfolding turn session_peer.Dispatch.device_turn principal session_peer.Common.Sql.find
    session_peer.Store.Keys.authorize session_peer.Dispatch.admit is_restricted
    session_peer.Store.Keys.key_status session_peer.Dispatch.operation_turn
    session_peer.Dispatch.message_turn session_peer.Dispatch.Messages.read_message
    session_peer.Dispatch.Messages.message_for session_peer.Dispatch.State.permit
    session_peer.Framing.valid_text check_message session_peer.Delivery.peer_delivery_message
    session_peer.Common.Text.is_hex64 session_peer.Delivery.header session_peer.Delivery.hex_digit
    session_peer.Delivery.is_special session_peer.Delivery.join session_peer.Delivery.lines
    session_peer.Delivery.neutral session_peer.Dispatch.journal_turn session_peer.Framing.dumps
    session_peer.Framing.encode_chars session_peer.Framing.encoded_frame
    session_peer.Framing.worker_frame Journal.begin session_peer.Store.State.recovery_required
    session_peer.Store.State.atomically
delivered = refl

dispatch_delivers_example :
    (principal 100 key_a with_laptop ≡ (ok key_a, with_laptop))
    × MaySend key_a with_laptop
    × (str "send" ≡ str "send")
    × IsRequest clock key_a key_b "m1" request
    × IsSettled key_a key_a with_laptop
    × Granted policy key_a message
    × (key_a ≡ key_a)
    × FitsFrames "send" message
    × (Journal.begin platform key_a "m1" "canonical" with_laptop ≡ (ok none, after))
dispatch_delivers_example =
    dispatch_delivers platform text_of policy clock key_a key_a "m1" request message with_laptop
      after delivered

-- a message that is sent again gets the state of the first
repeated_request :
    turn platform text_of policy clock (some key_a) request after
    ≡ (ok (answer (put "duplicate" (bool true) (Journal.unknown_outcome "m1"))), after)
unfolding turn session_peer.Dispatch.device_turn principal session_peer.Common.Sql.find
    session_peer.Store.Keys.authorize session_peer.Dispatch.admit is_restricted
    session_peer.Store.Keys.key_status session_peer.Dispatch.operation_turn
    session_peer.Dispatch.message_turn session_peer.Dispatch.Messages.read_message
    session_peer.Dispatch.Messages.message_for session_peer.Dispatch.State.permit
    session_peer.Framing.valid_text check_message session_peer.Delivery.peer_delivery_message
    session_peer.Common.Text.is_hex64 session_peer.Delivery.header session_peer.Delivery.hex_digit
    session_peer.Delivery.is_special session_peer.Delivery.join session_peer.Delivery.lines
    session_peer.Delivery.neutral session_peer.Dispatch.journal_turn session_peer.Framing.dumps
    session_peer.Framing.encode_chars session_peer.Framing.encoded_frame
    session_peer.Framing.worker_frame Journal.begin session_peer.Store.State.recovery_required
    session_peer.Store.State.atomically Journal.status
repeated_request = refl
