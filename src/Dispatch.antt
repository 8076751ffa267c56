-- ===== src/Dispatch.antt =====
-- `dispatch` of session_peer_relay/app.py: what the receiver does with one request of a device. It is cut
-- where it waits for the native worker: `turn` goes up to there, `settle` (in Settle) goes on from there,
-- and other requests may be served between the two. The log of lifecycle events is left out.
pub mod State
pub mod Messages
pub mod Settle
pub mod Granted
pub mod Stages
pub mod Requests
pub mod Gates
mod Tests
use session_peer.Common.{
  ◌*◌, ℕ, ◌+◌, String, Bool, true, false, Option, none, some, List, [], ◌∷◌, ◌==◌, string_eq,
  nat_eq, ◌&&◌, ◌||◌, not, ltb, leb, is_some, map, pure, raise, raise_if, gets, or_crash, or_reject,
  fail, ◌>>=◌, ◌>>◌, if◌then◌else◌,
}
use session_peer.Common.Sql.{find, exists}
use session_peer.Common.Json.{
  neg, real, finite, Json, Fields, null, bool, num, str, arr, obj, nil, cons, end, field, dict,
  get_or, at, is_text, is_one_of, is_true, has_exactly,
}
use session_peer.Store.State.{Store, Action, Platform, recovery_required, is_active}
use session_peer.Store.Reasons.{
  Reason, unpaired_device, invalid_request, invalid_request_id, peer_policy_denied,
  key_rotation_restricted, invalid_list_request,
}
use session_peer.Store.Keys.{principal, authorize, key_status}
use session_peer.Store.Journal as Journal
use session_peer.Store.Prepare as Prepare
use session_peer.Store.Commit as Commit
use session_peer.KeyRotation.{remote_prepare, remote_commit, remote_status, is_prepared}
use session_peer.Dispatch.State.{
  second, Clock, Policy, Turn, answer, survey, inspect, deliver, Message, find_rights, permit,
}
use session_peer.Store.Pairing.{pairing_transaction, plain}
use session_peer.Dispatch.Messages.{as_text, read_message}

-- a value that SQLite takes no parameter of: a list, a dictionary, or an integer beyond 64 bits
abbrev pub is_unbindable : Json → Bool
is_unbindable (arr _) = true
is_unbindable (obj _) = true
is_unbindable (num n) = leb 9223372036854775808 n
is_unbindable (neg n) = leb 9223372036854775808 n
is_unbindable _ = false

-- `value.get("invitation")` that can be bound; one that is neither a text nor absent is no row's identifier
abbrev pub invitation_of : Json → Option String
invitation_of (str s) = some s
invitation_of null = none
invitation_of _ = some ""

-- a number of seconds, in the parts of a second in which the clock is read; True is 1 and False 0 in Python, and what
-- is negative, infinite or no number is in no interval of times
abbrev pub instant_of : Json → Option ℕ
instant_of (num n) = some (n * second)
instant_of (real (finite false n parts) _) = some (n * second + parts)
instant_of (bool b) = some (if b then second else 0)
instant_of _ = none

abbrev pub is_within : ℕ → ℕ → Option ℕ → Bool
is_within before after none = false
is_within before after (some t) = ltb before t && leb t (after + 65 * second)

abbrev pub is_due : ℕ → ℕ → Json → Bool
is_due before after value = is_within before after (instant_of value)

abbrev pub is_version : Json → Bool
is_version (num n) = n == 1
is_version _ = false

abbrev pub request_fields : List String
request_fields = "v" ∷ "sender" ∷ "receiver" ∷ "id" ∷ "expires" ∷ "op" ∷ "body" ∷ []

abbrev pub is_addressed : Clock → String → String → Fields → Bool
is_addressed at_ peer device value =
    has_exactly request_fields value
    && is_version (at "v" value)
    && is_text peer (at "sender" value)
    && is_text device (at "receiver" value)
    && is_due at_.before at_.after (at "expires" value)

-- the identifier of a request that is well-formed, for this receiver, from this sender and in time
abbrev pub request_id : Clock → String → String → Fields → Option String
request_id at_ peer device value = elim (as_text (at "id" value)) [
  | none ↦ none
  | some ident ↦ if is_addressed at_ peer device value then some ident else none
]

-- The key is not the active one of its device, or a change of keys is under way.
unfoldable pub is_restricted : String → String → Store → Bool
is_restricted key peer s =
    not (is_active (key_status key s))
    || exists (λ r. r.peer == peer && is_prepared r.status) s.rotations

abbrev pub unrestricted : List String
unrestricted = "probe" ∷ "status" ∷ "rotation.prepare" ∷ "rotation.commit" ∷ "rotation.status" ∷ []

abbrev pub probe_answer : String → Fields
probe_answer device = dict (
    ("ok", bool true)
    ∷ ("device", str device)
    ∷ ("receiverReady", bool true)
    ∷ (
      "features",
      arr (cons (str "identity-rotation-v1") (cons (str "delivery-explanation-v1") nil)),
    )
    ∷ [])

-- `Store.status(peer, body)`: what is no text is no row's identifier
abbrev pub status_unnamed : Action Fields
status_unnamed = gets (λ s. if recovery_required s then Journal.recovery_gap else Journal.not_found)

unfoldable pub status_answer : String → Json → Action Fields
status_answer peer body = elim (as_text body) [
  | some ident ↦ Journal.status peer ident
  | none ↦ if is_unbindable body then fail else status_unnamed
]

abbrev pub is_empty_body : Json → Bool
is_empty_body null = true
is_empty_body (obj end) = true
is_empty_body _ = false

abbrev pub answered : Action Fields → Action Turn
answered m = do reply ← m; pure (answer reply)

-- the text that the journal knows a message by
abbrev pub journal_text : (Fields → String) → Message → String
journal_text text_of m = text_of (dict (("binding", obj m.binding) ∷ ("message", str m.text) ∷ []))

module _ (platform : Platform) (text_of : Fields → String) (policy : Policy) (at_ : Clock) where
  unfoldable pub list_turn : String → Json → Action Turn
  list_turn peer body = do
    aliases ← permit policy peer "list" none
    raise_if (not (is_empty_body body)) invalid_list_request
    pure (survey aliases)

  -- A message is journalled before it goes out.
  unfoldable pub journal_turn : String → String → Message → Action Turn
  journal_turn peer ident m s =
      (Journal.begin platform peer ident (journal_text text_of m) >>= λ existing. elim existing [
        | some reply ↦ pure (answer reply)
        | none ↦ pure (deliver peer ident m)
      ])
        s

  unfoldable pub message_turn : String → String → String → Json → Json → Action Turn
  message_turn key peer ident op body = do
    m ← read_message policy key peer op body
    if is_text "resolve" op then pure (inspect m) else journal_turn peer ident m

  -- The operations; what is none of them is "send" or "resolve".
  unfoldable pub operation_turn : String → String → String → Json → Json → Action Turn
  operation_turn key peer ident op body =
      if is_text "probe" op
      then answered (gets (λ s. probe_answer s.device))
      else if is_text "status" op
      then answered (status_answer peer body)
      else if is_text "rotation.prepare" op
      then (gets recovery_required >>= λ gap. raise_if gap Reason.recovery_required)
        >> answered (remote_prepare platform peer key body)
      else if is_text "rotation.commit" op
      then (gets recovery_required >>= λ gap. raise_if gap Reason.recovery_required)
        >> answered (remote_commit platform at_.rotation peer key body)
      else if is_text "rotation.status" op
      then answered (remote_status platform peer body)
      else if is_text "list" op
      then list_turn peer body
      else message_turn key peer ident op body

  -- the identifier of a request that may be served
  unfoldable pub admit : String → String → Fields → Action String
  admit key peer value = do
    device ← gets (λ s. s.device)
    ident ← or_reject (request_id at_ peer device value) invalid_request
    raise_if (not (platform.is_uuid ident)) invalid_request_id
    raise_if (not (is_some (find_rights peer policy))) peer_policy_denied
    restricted ← gets (is_restricted key peer)
    raise_if (restricted && not (is_one_of unrestricted (at "op" value))) key_rotation_restricted
    pure ident

  unfoldable pub device_turn : String → Fields → Action Turn
  device_turn key value = do
    peer ← principal at_.for_key key
    authorize peer (at "op" value)
    ident ← admit key peer value
    operation_turn key peer ident (at "op" value) (at "body" value)

  abbrev pub commit_call : String → Fields → Commit.Call
  commit_call key value = record {
    peer = key;
    invitation = invitation_of (at "invitation" value);
    authenticated_key = some key;
    offer = is_true (at "offer" value);
  }

  -- `Store.commit` with an invitation that SQLite cannot be asked for: the lookup of its offer raises.
  unfoldable pub commit_unbindable : String → Fields → Action Fields
  commit_unbindable key value = pairing_transaction plain at_.pairing (do
    raise_if (← gets recovery_required) Reason.recovery_required
    peer ← Commit.authenticated (commit_call key value) at_.committing
    Commit.row_of peer at_.committing.for_row
    fail)

  unfoldable pub commit_reply : String → Fields → Action Fields
  commit_reply key value =
      if is_unbindable (at "invitation" value)
      then commit_unbindable key value
      else Commit.commit platform at_.pairing (commit_call key value) at_.committing

  -- `key` is the fingerprint of the client's certificate, if it has shown one that is trusted
  unfoldable pub turn : Option String → Fields → Action Turn
  turn none value =
      if is_text "pair.prepare" (at "op" value)
      then answered (Prepare.prepare platform at_.pairing at_.preparing (obj value))
      else raise unpaired_device
  turn (some key) value =
      if is_text "pair.commit" (at "op" value)
      then answered (commit_reply key value)
      else device_turn key value
