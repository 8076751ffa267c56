-- ===== src/Store/Journal.antt =====
-- The journal of requests: `begin`, `_begin_locked`, `finish` and `status` of `class Store`. A row is
-- committed before the message goes to the native inbox, and is never removed.
mod Tests
pub mod Replies
pub mod AtMostOnce
use session_peer.Common.{
  String, Bool, true, false, Option, none, some, List, [], ◌∷◌, ◌++◌, ◌==◌, string_eq, ◌&&◌, Exec,
  pure, raise, or_crash, modify, ◌>>=◌, ◌>>◌, leb, length, if◌then◌else◌,
}
use session_peer.Common.Sql.{find, insert, update}
use session_peer.Common.Json.{Json, Fields, dict, bool, str, get, put, truthy}
use session_peer.Store.State.{
  Store, Action, Request, RequestStatus, done, recovery_required, Platform, atomically,
}
use session_peer.Store.Reasons.{Reason, message_id_conflict, journal_full}

-- `WHERE peer=? AND id=?`
abbrev pub names : String → String → Request → Bool
names peer ident r = r.peer == peer && r.id == ident

abbrev pub recovery_gap : Fields
recovery_gap = dict (
    ("ok", bool false)
    ∷ ("status", str "unknown")
    ∷ ("reason", str "recovery_gap")
    ∷ ("consumptionConfirmed", bool false)
    ∷ ("retryAllowed", bool false)
    ∷ [])

abbrev pub not_found : Fields
not_found = dict (("ok", bool true) ∷ ("status", str "not_found") ∷ [])

abbrev pub unknown_outcome : String → Fields
unknown_outcome ident = dict (
    ("ok", bool false)
    ∷ ("status", str "unknown")
    ∷ ("messageId", str ident)
    ∷ ("consumptionConfirmed", bool false)
    ∷ ("retryAllowed", bool false)
    ∷ [])

status_of : String → Request → Action Fields
status_of ident row = elim row.status [
  | done ↦ or_crash row.result
  | RequestStatus.pending ↦ pure (unknown_outcome ident)
]

unfoldable pub status : String → String → Action Fields
unfolding status_of
status peer ident s = elim (find (names peer ident) s.requests) [
  | none ↦ if recovery_required s then pure recovery_gap s else pure not_found s
  | some row ↦ status_of ident row s
]

-- The reply to a message that is in the journal.
repeated : String → String → String → Request → Action (Option Fields)
unfolding status
repeated digest peer ident row =
    if row.hash == digest
    then (do reply ← status peer ident; pure (some (put "duplicate" (bool true) reply)))
    else raise message_id_conflict

abbrev new_request : String → String → String → Request
new_request peer ident digest = record {
  peer = peer;
  id = ident;
  hash = digest;
  status = RequestStatus.pending;
  result = none;
}

journal : String → String → String → Action (Option Fields)
journal digest peer ident s =
    if recovery_required s
    then raise Reason.recovery_required s
    else if leb 10000 (length s.requests)
    then raise journal_full s
    else (modify (λ t. record t { requests = insert (new_request peer ident digest) t.requests })
          >> pure none)
        s

module _ (platform : Platform) where
  begin_locked : String → String → String → Action (Option Fields)
  unfolding repeated journal
  begin_locked peer ident text s =
      let digest = platform.sha256 text in
      elim (find (names peer ident) s.requests) [
        | some row ↦ repeated digest peer ident row s
        | none ↦ journal digest peer ident s
      ]

  unfoldable pub begin : String → String → String → Action (Option Fields)
  unfolding begin_locked atomically
  begin peer ident text = atomically (begin_locked peer ident text)

with_native_id : Fields → Fields
with_native_id result = elim (get "requestId" result) [
  | none ↦ result
  | some v ↦ if truthy v then put "nativeRequestId" v result else result
]

unfoldable pub final_result : String → Fields → Fields
unfolding with_native_id
final_result ident result =
    put "consumptionConfirmed" (bool false) (put "messageId" (str ident) (with_native_id result))

unfoldable pub finish : String → String → Fields → Action Fields
unfolding final_result
finish peer ident result = do
  let final = final_result ident result
  modify (λ s. record s {
    requests =
        update (names peer ident) (λ r. record r { status = done; result = some final }) s.requests;
  })
  pure final
