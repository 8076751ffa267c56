-- ===== src/Dispatch/Messages.antt =====
-- The checks of `dispatch` of session_peer_relay/app.py on a message that is to be sent or resolved.
use session_peer.Common.{
  String, Bool, Option, none, some, [], ◌∷◌, string_eq, nat_eq, ◌&&◌, ◌||◌, not, is_some, pure,
  raise, raise_if, or_crash, or_reject, ◌>>=◌, ◌>>◌, if◌then◌else◌, ok, rejected, crash,
}
use session_peer.Common.Json.{Json, Fields, str, obj, at, get, is_text, is_true, has_exactly}
use session_peer.Common.Text.{codes}
use session_peer.Store.State.{Action}
use session_peer.Store.Reasons.{
  invalid_body, invalid_target, invalid_message, framed_message_too_large,
}
use session_peer.Delivery.{peer_delivery_message}
use session_peer.Framing.{Frame, worker_frame, valid_text, Job}
use session_peer.Dispatch.State.{Policy, Message, find_target, permit}

abbrev pub is_body : Json → Fields → Bool
is_body op d =
    (has_exactly ("target" ∷ "message" ∷ []) d
      || has_exactly ("target" ∷ "message" ∷ "explain" ∷ []) d)
    && (not (is_some (get "explain" d)) || is_text "resolve" op && is_true (at "explain" d))

abbrev pub as_body : Json → Json → Option Fields
as_body op (obj d) = if is_body op d then some d else none
as_body op _ = none

abbrev pub as_text : Json → Option String
as_text (str s) = some s
as_text _ = none

-- `valid_text(value)`, and then the text
abbrev pub as_message : Json → Option String
as_message (str s) = if valid_text (codes s) then some s else none
as_message _ = none

abbrev pub job_of : String → Message → Job
job_of operation m = record {
  binding = m.binding;
  operation = operation;
  text = some m.text;
  fingerprint = some m.key;
  explain = m.explain;
}

-- `except FrameRejected`
abbrev pub check_frame : Frame → Action Unit
check_frame (ok _) = pure tt
check_frame (rejected e) = raise e
check_frame crash = λ s. (crash, s)

abbrev pub operation_of : Json → String
operation_of op = if is_text "resolve" op then "resolve" else "send"

-- the budgets of the final frames, before any effect
unfoldable pub check_message : Json → Message → Action Unit
check_message op m = do
  agent ← or_crash (as_text (at "agent" m.binding))
  framed ← or_crash (peer_delivery_message (codes m.text) agent (some m.key))
  raise_if (not (valid_text framed)) framed_message_too_large
  check_frame (worker_frame (job_of (operation_of op) m))

unfoldable pub message_for : Policy → String → String → Json → Fields → Action Message
message_for policy key peer op d = do
  alias ← or_reject (as_text (at "target" d)) invalid_target
  permit policy peer "send" (some alias)
  text ← or_reject (as_message (at "message" d)) invalid_message
  target ← or_crash (find_target alias policy)
  pure (record {
    alias = alias;
    binding = target.binding;
    text = text;
    key = key;
    explain = is_true (at "explain" d);
  })

unfoldable pub read_message : Policy → String → String → Json → Json → Action Message
read_message policy key peer op body = do
  d ← or_reject (as_body op body) invalid_body
  m ← message_for policy key peer op d
  check_message op m
  pure m
