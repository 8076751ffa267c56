-- ===== src/Dispatch/Granted.antt =====
-- What `dispatch` of session_peer_relay/app.py has checked of a message when it has read it.
use session_peer.Common.{
  String, true, Option, none, some, List, string_eq, nat_eq, member, arith, ◌≡◌, refl, inl, inr,
  Option-cases, Outcome-cases, >>=-eq-read, >>=-eq-ok, ok, or_reject, pure,
}
use session_peer.Common.Json.{Json, Fields, at}
use session_peer.Common.Text.{codes}
use session_peer.Delivery.{peer_delivery_message}
use session_peer.Framing.{worker_frame}
use session_peer.Store.State.{Store}
use session_peer.Store.Reasons.{Reason}
use session_peer.Dispatch.State.{Policy, Message, Rights, Target, find_rights, find_target, permit}
use session_peer.Dispatch.Messages.{
  job_of, operation_of, as_body, as_text, as_message, read_message, check_message, message_for,
}

pub permit-same :
    (policy : Policy) (peer op : String) (alias : Option String) (s : Store)
    → (permit policy peer op alias s).1 ≡ s
unfolding permit
permit-same policy peer op alias s = elim (Option-cases (find_rights peer policy)) [
  | inl e ↦ ground arith
  | inr (r, e) ↦ ground arith
]

module _ (policy : Policy) where
  -- what the policy grants a peer that sends to a target
  abbrev pub Granted : String → Message → Type 0
  Granted peer m =
      (r : Rights) × (find_rights peer policy ≡ some r)
      × (member "send" r.capabilities ≡ true)
      × (member m.alias r.targets ≡ true)
      × (t : Target) × (find_target m.alias policy ≡ some t)
      × (m.binding ≡ t.binding)

  pub permit-ok :
      (peer op alias : String) (s s' : Store) (l : List String)
      → permit policy peer op (some alias) s ≡ (ok l, s')
      → (r : Rights) × (find_rights peer policy ≡ some r)
        × (member op r.capabilities ≡ true)
        × (member alias r.targets ≡ true)
  unfolding permit
  permit-ok peer op alias s s' l h = elim (Option-cases (find_rights peer policy)) [
    | inl e ↦ ground arith
    | inr (r, e) ↦ (r, e, ground arith, ground arith)
  ]

  pub or_reject-same :
      {A : Type 0} (o : Option A) (e : Reason) (s : Store) → (or_reject o e s).1 ≡ s
  or_reject-same none e s = refl
  or_reject-same (some a) e s = refl

  pub message_for-ok :
      (key peer : String) (op : Json) (d : Fields) (s s' : Store) (m : Message)
      → message_for policy key peer op d s ≡ (ok m, s')
      → Granted peer m × (m.key ≡ key) × (s' ≡ s)
  unfolding message_for
  message_for-ok key peer op d s s' m h =
      let (alias, e, h₁) =
        >>=-eq-read (or_reject (as_text (at "target" d)) Reason.invalid_target) _ s {b = m} {u = s'}
          (or_reject-same (as_text (at "target" d)) Reason.invalid_target s) h in
      let (l, e', h₂) =
        >>=-eq-read (permit policy peer "send" (some alias)) _ s {b = m} {u = s'}
          (permit-same policy peer "send" (some alias) s) h₁ in
      let (text, e'', h₃) =
        >>=-eq-read (or_reject (as_message (at "message" d)) Reason.invalid_message) _ s {b = m}
          {u = s'} (or_reject-same (as_message (at "message" d)) Reason.invalid_message s) h₂ in
      let (r, found, may, reaches) = permit-ok peer "send" alias s s l e' in
      elim (Option-cases (find_target alias policy)) [
        | inl e₃ ↦ ground arith
        | inr (t, e₃) ↦ (
          (r, found, may, ground arith, t, ground arith, ground arith),
          ground arith,
          ground arith,
        )
      ]

  check_message-same : (op : Json) (m : Message) (s : Store) → (check_message op m s).1 ≡ s
  unfolding check_message
  check_message-same op m s = elim (Option-cases (as_text (at "agent" m.binding))) [
    | inl e ↦ ground arith
    | inr (agent, e) ↦
        elim (Option-cases (peer_delivery_message (codes m.text) agent (some m.key))) [
          | inl e' ↦ ground arith
          | inr (framed, e') ↦ elim (Outcome-cases (worker_frame (job_of (operation_of op) m))) [
            | inl (x, e'') ↦ ground arith
            | inr (inl (x, e'')) ↦ ground arith
            | inr (inr e'') ↦ ground arith
          ]
        ]
  ]

  -- A message that is read is granted, is bound to the key, and fits its frames.
  pub read_message-ok :
      (key peer : String) (op body : Json) (s s' : Store) (m : Message)
      → read_message policy key peer op body s ≡ (ok m, s')
      → Granted peer m × (m.key ≡ key) × (check_message op m s ≡ (ok tt, s)) × (s' ≡ s)
  unfolding read_message
  read_message-ok key peer op body s s' m h =
      let (d, e, h₁) =
        >>=-eq-read (or_reject (as_body op body) Reason.invalid_body) _ s {b = m} {u = s'}
          (or_reject-same (as_body op body) Reason.invalid_body s) h in
      let (m', e', h₂) = >>=-eq-ok (message_for policy key peer op d) _ s {b = m} {u = s'} h₁ in
      let (granted, bound, same) =
        message_for-ok key peer op d s (message_for policy key peer op d s).1 m' (ground arith) in
      let (_, e'', h₃) =
        >>=-eq-read (check_message op m') (λ _. pure m') s {b = m} {u = s'}
          (check_message-same op m' s) (rw (← same) h₂) in
      (ground arith, ground arith, ground arith, ground arith)
