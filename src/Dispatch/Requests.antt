-- ===== src/Dispatch/Requests.antt =====
-- What a request of session_peer_relay/app.py says when `dispatch` takes its identifier, and what the budgets of a
-- message are, in the terms of its fields and its bytes.
use session_peer.Common.{
  ℕ, ◌+◌, ◌*◌, ◌≤◌, ◌<◌, String, Bool, true, false, some, List, [], ◌∷◌, string_eq, nat_eq, ◌≡◌,
  ◌⊎◌, inl, inr, refl, arith, ok, Option-cases, Outcome-cases, if◌then◌else◌,
}
use session_peer.Common.Json.{
  is_text-eq, Json, Fields, bool, num, real, str, finite, at, has_exactly,
}
use session_peer.Common.Text.{codes, utf8_length}
use session_peer.Store.State.{Store}
use session_peer.Delivery.{peer_delivery_message}
use session_peer.Framing.{Job, dumps, job_value, worker_frame, encoded_frame, valid_text}
use session_peer.Dispatch.{request_id, is_version, instant_of}
use session_peer.Dispatch.State.{Clock, Message, second}
use session_peer.Dispatch.Messages.{as_text, check_message, job_of, operation_of}

-- The value is a number of seconds, an integer, a Boolean or a float, and that instant is `t`.
abbrev pub IsInstant : Json → ℕ → Type 0
IsInstant value t =
    ((n : ℕ) × (value ≡ num n) × (t ≡ n * second))
    ⊎ ((n parts : ℕ) × (text : String) × (value ≡ real (finite false n parts) text)
        × (t ≡ n * second + parts))
    ⊎ ((b : Bool) × (value ≡ bool b) × (t ≡ (if b then second else 0)))

instant_of-IsInstant : (value : Json) (t : ℕ) → instant_of value ≡ some t → IsInstant value t
instant_of-IsInstant (num n) t h = inl (n, refl, ground arith)
instant_of-IsInstant (real (finite false n parts) text) t h =
    inr (inl (n, parts, text, refl, ground arith))
instant_of-IsInstant (bool b) t h = inr (inr (b, refl, ground arith))
instant_of-IsInstant _ t h = ground arith

pub as_text-eq : (j : Json) (t : String) → as_text j ≡ some t → j ≡ str t
as_text-eq (str s) t h = ground arith
as_text-eq _ t h = ground arith

is_version-eq : (j : Json) → is_version j ≡ true → j ≡ num 1
is_version-eq (num n) h = ground arith
is_version-eq _ h = ground arith

-- The request has the fields of a request and no other, is of version 1, from `peer` to `device`, and its end is
-- after the first reading of the clock and at most 65 seconds after the second.
abbrev pub IsRequest : Clock → String → String → String → Fields → Type 0
IsRequest at_ peer device ident value =
    (has_exactly ("v" ∷ "sender" ∷ "receiver" ∷ "id" ∷ "expires" ∷ "op" ∷ "body" ∷ []) value ≡ true)
    × (at "v" value ≡ num 1)
    × (at "sender" value ≡ str peer)
    × (at "receiver" value ≡ str device)
    × (at "id" value ≡ str ident)
    × (t : ℕ) × IsInstant (at "expires" value) t
    × (at_.before < t)
    × (t ≤ at_.after + 65 * second)

pub request_id-IsRequest :
    (at_ : Clock) (peer device ident : String) (value : Fields)
    → request_id at_ peer device value ≡ some ident
    → IsRequest at_ peer device ident value
request_id-IsRequest at_ peer device ident value h = elim (Option-cases (as_text (at "id" value))) [
  | inl e ↦ ground arith
  | inr (i, e) ↦ elim (Option-cases (instant_of (at "expires" value))) [
    | inl e' ↦ ground arith
    | inr (t, e') ↦ (
      ground arith,
      is_version-eq (at "v" value) (ground arith),
      is_text-eq peer (at "sender" value) (ground arith),
      is_text-eq device (at "receiver" value) (ground arith),
      as_text-eq (at "id" value) ident (ground arith),
      t,
      instant_of-IsInstant (at "expires" value) t e',
      ground arith,
      ground arith,
    )
  ]
]

-- The message as the agent gets it has at most 32 KiB, and the frame for the worker at most 256 KiB.
abbrev pub FitsFrames : String → Message → Type 0
FitsFrames operation m =
    (agent : String) × (framed : List ℕ) × (at "agent" m.binding ≡ str agent)
    × (peer_delivery_message (codes m.text) agent (some m.key) ≡ some framed)
    × (utf8_length framed ≤ 32768)
    × (utf8_length (dumps (job_value (job_of operation m))) ≤ 262144)

worker_frame-fits :
    (j : Job) (frame : List ℕ)
    → worker_frame j ≡ ok frame
    → utf8_length (dumps (job_value j)) ≤ 262144
unfolding worker_frame encoded_frame
worker_frame-fits j frame h = ground arith

pub check_message-FitsFrames :
    (op : Json) (m : Message) (s s' : Store)
    → check_message op m s ≡ (ok tt, s')
    → FitsFrames (operation_of op) m
unfolding check_message valid_text
check_message-FitsFrames op m s s' h = elim (Option-cases (as_text (at "agent" m.binding))) [
  | inl e ↦ ground arith
  | inr (agent, e) ↦ elim (Option-cases (peer_delivery_message (codes m.text) agent (some m.key))) [
    | inl e' ↦ ground arith
    | inr (framed, e') ↦ elim (Outcome-cases (worker_frame (job_of (operation_of op) m))) [
      | inl (x, e'') ↦ (
        agent,
        framed,
        as_text-eq (at "agent" m.binding) agent e,
        e',
        ground arith,
        worker_frame-fits (job_of (operation_of op) m) x e'',
      )
      | inr (inl (x, e'')) ↦ ground arith
      | inr (inr e'') ↦ ground arith
    ]
  ]
]
