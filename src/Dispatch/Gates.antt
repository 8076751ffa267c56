-- ===== src/Dispatch/Gates.antt =====
-- What has been checked when `dispatch` of session_peer_relay/app.py hands a message to the native worker.
use session_peer.Common.{
  ◌==◌, string_eq, ◌&&◌, not, refl, sym, ◌∙◌, String, true, false, none, some, [], ◌∷◌, nat_eq,
  member, arith, ◌≡◌, inl, inr, Option-cases, Bool-cases, ap, ok,
}
use session_peer.Common.Json.{is_text-eq, Json, Fields, at, is_text, is_one_of}
use session_peer.Store.State.{Store, Platform, Peer, is_paired}
use session_peer.Store.Keys.{operations, lacks, principal, authorize, find_peer}
use session_peer.Store.Journal as Journal
use session_peer.Dispatch.{
  unrestricted, commit_reply, journal_text, turn, device_turn, is_restricted,
}
use session_peer.Dispatch.State.{Clock, Policy, deliver, Message}
use session_peer.Dispatch.Granted.{Granted}
use session_peer.Common.Sql.{find}
use session_peer.KeyRotation.{is_prepared}
use session_peer.Store.State.{KeyStatus, active, is_active}
use session_peer.Store.Keys.{key_status}
use session_peer.Common.Json.{str}
use session_peer.Dispatch.Requests.{
  IsRequest, request_id-IsRequest, FitsFrames, check_message-FitsFrames,
}
use session_peer.Dispatch.Stages.{
  delivers, device-Passed, answered-delivers, operation-message, operation-other, message-ok,
}

op-send :
    (op : Json)
    → is_one_of operations op ≡ true
    → is_one_of
        ("probe" ∷ "status" ∷ "rotation.prepare" ∷ "rotation.commit" ∷ "rotation.status" ∷ "list"
          ∷ [])
        op
      ≡ false
    → is_text "resolve" op ≡ false
    → is_text "send" op ≡ true
op-send op h k r = ground arith

-- The key is an active one, and no rotation of its device is prepared.
abbrev pub IsSettled : String → String → Store → Type 0
IsSettled key peer s =
    (key_status key s ≡ active)
    × (find (λ r. r.peer == peer && is_prepared r.status) s.rotations ≡ none)

active-eq : (k : KeyStatus) → is_active k ≡ true → k ≡ active
active-eq active h = refl
active-eq _ h = ground arith

free-IsSettled :
    (key peer : String) (op : Json) (s : Store)
    → op ≡ str "send"
    → (is_restricted key peer s && not (is_one_of unrestricted op)) ≡ false
    → IsSettled key peer s
unfolding is_restricted
free-IsSettled key peer op s sends free =
    elim (Option-cases (find (λ r. r.peer == peer && is_prepared r.status) s.rotations)) [
      | inl e ↦ (active-eq (key_status key s) (ground arith), e)
      | inr (r, e) ↦ ground arith
    ]

-- a paired device that may send
abbrev pub MaySend : String → Store → Type 0
MaySend peer s =
    (row : Peer) × (find_peer peer s ≡ some row)
    × (is_paired row.status ≡ true)
    × (member "send" row.capabilities ≡ true)

authorized :
    (peer : String) (op : Json) (s : Store)
    → authorize peer op s ≡ (ok tt, s)
    → (row : Peer) × (find_peer peer s ≡ some row)
      × (is_paired row.status ≡ true)
      × (lacks row op ≡ false)
      × (is_one_of operations op ≡ true)
unfolding authorize
authorized peer op s h = elim (Option-cases (find_peer peer s)) [
  | inl e ↦ ground arith
  | inr (row, e) ↦ (row, e, ground arith, ground arith, ground arith)
]

module _ (platform : Platform) (text_of : Fields → String) (policy : Policy) (at_ : Clock) where
  device-turn :
      (key : String) (value : Fields) (s s' : Store) (peer ident : String) (m : Message)
      → turn platform text_of policy at_ (some key) value s ≡ (ok (deliver peer ident m), s')
      → device_turn platform text_of policy at_ key value s ≡ (ok (deliver peer ident m), s')
  unfolding turn
  device-turn key value s s' peer ident m h =
      elim (Bool-cases (is_text "pair.commit" (at "op" value))) [
        | inr e ↦ ground arith
        | inl e ↦
            ground (arith, answered-delivers (commit_reply platform text_of policy at_ key value) s)
      ]

  -- When the handler of a request hands a message over to the native worker, the request is a send with
  -- the fields of a request and no other, of version 1, from the device that the key at the transport stands for to
  -- this receiver, and ends after the clock's reading and at most 65 seconds later; that device is paired
  -- and may send, the key is active and no rotation of the device is prepared; the policy grants the device to send
  -- and grants the target whose binding the message has; the worker is told that very key; the framed message
  -- has at most 32 KiB and the worker's frame at most 256 KiB; and the journal has taken the message as new.
  pub dispatch_delivers :
      (key peer ident : String) (value : Fields) (m : Message) (s s' : Store)
      → turn platform text_of policy at_ (some key) value s ≡ (ok (deliver peer ident m), s')
      → (principal at_.for_key key s ≡ (ok peer, s))
        × MaySend peer s
        × (at "op" value ≡ str "send")
        × IsRequest at_ peer s.device ident value
        × IsSettled key peer s
        × Granted policy peer m
        × (m.key ≡ key)
        × FitsFrames "send" m
        × (Journal.begin platform peer ident (journal_text text_of m) s ≡ (ok none, s'))
  dispatch_delivers key peer ident value m s s' h =
      let op = at "op" value in
      let (owner, i, (proven, allowed, valid, free), rest) =
        device-Passed platform text_of policy at_ key value s s' (deliver peer ident m)
          (device-turn key value s s' peer ident m h) in
      let goes = ap (λ r. delivers r.0) rest in
      let (a, b, unresolved, granted, bound, fits, begun) =
        message-ok platform text_of policy at_ key owner peer i ident op (at "body" value) m s s' (
          sym
            (operation-message platform text_of policy at_ key owner i op (at "body" value) s goes)
          ∙ rest) in
      let (row, found, paired, has, known) = authorized owner op s allowed in
      let other =
        operation-other platform text_of policy at_ key owner i op (at "body" value) s goes in
      let sends = is_text-eq "send" op (op-send op known other unresolved) in
      let freed = free-IsSettled key owner op s sends free in
      (
        ground arith,
        (row, ground arith, paired, ground arith),
        sends,
        ground (arith, request_id-IsRequest at_ owner s.device i value valid),
        ground (arith, freed),
        ground arith,
        bound,
        ground (arith, check_message-FitsFrames op m s s fits),
        ground arith,
      )
