-- ===== src/Dispatch/Stages.antt =====
-- The stages of `turn`, for a request that ends with a message handed over.
use session_peer.Common.{
  ℕ, String, Bool, true, false, none, some, [], ◌∷◌, string_eq, nat_eq, ◌&&◌, not, arith, ◌≡◌, refl,
  inl, inr, Option-cases, Outcome-cases, Bool-cases, >>=-eq-read, >>=-eq-ok, ap, ok, Outcome, ◌>>=◌,
  ◌>>◌, raise_if, gets,
}
use session_peer.Common.Json.{Json, Fields, at, is_text, is_one_of}
use session_peer.Store.State.{Store, Platform, Action}
use session_peer.Store.Keys.{principal, authorize}
use session_peer.Store.Journal as Journal
use session_peer.Store.Reasons.{Reason}
use session_peer.Store.State.{recovery_required}
use session_peer.KeyRotation.{remote_prepare, remote_commit, remote_status}
use session_peer.Dispatch.{
  journal_text, admit, answered, probe_answer, status_answer, device_turn, operation_turn,
  message_turn, journal_turn, list_turn, request_id, is_restricted, unrestricted,
}
use session_peer.Dispatch.State.{Clock, Policy, Turn, deliver, Message, permit}
use session_peer.Dispatch.Messages.{read_message, check_message}
use session_peer.Dispatch.Granted.{Granted, read_message-ok}

principal-same : (now : ℕ) (key : String) (s : Store) → (principal now key s).1 ≡ s
unfolding principal
principal-same now key s = ground arith

authorize-same : (peer : String) (op : Json) (s : Store) → (authorize peer op s).1 ≡ s
unfolding authorize
authorize-same peer op s = ground arith

module _ (platform : Platform) (text_of : Fields → String) (policy : Policy) (at_ : Clock) where
  abbrev pub Passed : String → Fields → String → String → Store → Type 0
  Passed key value peer ident s =
      (principal at_.for_key key s ≡ (ok peer, s))
      × (authorize peer (at "op" value) s ≡ (ok tt, s))
      × (request_id at_ peer s.device value ≡ some ident)
      × ((is_restricted key peer s && not (is_one_of unrestricted (at "op" value))) ≡ false)

  admit-ok :
      (key peer : String) (value : Fields) (s : Store) (ident : String)
      → (admit platform text_of policy at_ key peer value s).0 ≡ ok ident
      → (request_id at_ peer s.device value ≡ some ident)
        × ((is_restricted key peer s && not (is_one_of unrestricted (at "op" value))) ≡ false)
  unfolding admit
  admit-ok key peer value s ident h = elim (Option-cases (request_id at_ peer s.device value)) [
    | inl e ↦ ground arith
    | inr (i, e) ↦ (ground arith, ground arith)
  ]

  admit-same :
      (key peer : String) (value : Fields) (s : Store)
      → (admit platform text_of policy at_ key peer value s).1 ≡ s
  unfolding admit
  admit-same key peer value s = elim (Option-cases (request_id at_ peer s.device value)) [
    | inl e ↦ ground arith
    | inr (i, e) ↦ ground arith
  ]

  pub device-Passed :
      (key : String) (value : Fields) (s s' : Store) (t : Turn)
      → device_turn platform text_of policy at_ key value s ≡ (ok t, s')
      → (peer ident : String) × Passed key value peer ident s
        × (operation_turn platform text_of policy at_ key peer ident
              (at "op" value)
              (at "body" value)
              s
            ≡ (ok t, s'))
  unfolding device_turn
  device-Passed key value s s' t h =
      let (peer, e, h₁) =
        >>=-eq-read (principal at_.for_key key) _ s {b = t} {u = s'}
          (principal-same at_.for_key key s) h in
      let (_, e', h₂) =
        >>=-eq-read (authorize peer (at "op" value)) _ s {b = t} {u = s'}
          (authorize-same peer (at "op" value) s) h₁ in
      let (ident, e'', h₃) =
        >>=-eq-read (admit platform text_of policy at_ key peer value) _ s {b = t} {u = s'}
          (admit-same key peer value s) h₂ in
      let (valid, free) = admit-ok key peer value s ident (ap (λ r. r.0) e'') in
      (peer, ident, (e, e', valid, free), h₃)

-- whether a handler goes on to hand over a message
abbrev pub delivers : Outcome Reason Turn → Bool
delivers (ok (deliver _ _ _)) = true
delivers _ = false

pub answered-delivers : (a : Action Fields) (s : Store) → delivers (answered a s).0 ≡ false
answered-delivers a s = elim (Outcome-cases (a s).0) [
  | inl (d, e) ↦ rw e refl
  | inr (inl (d, e)) ↦ rw e refl
  | inr (inr e) ↦ rw e refl
]

module _ (platform : Platform) (text_of : Fields → String) (policy : Policy) (at_ : Clock) where
  list-delivers :
      (peer : String) (body : Json) (s : Store)
      → delivers (list_turn platform text_of policy at_ peer body s).0 ≡ false
  unfolding list_turn
  list-delivers peer body s = elim (Outcome-cases (permit policy peer "list" none s).0) [
    | inl (x, e) ↦ ground arith
    | inr (inl (x, e)) ↦ ground arith
    | inr (inr e) ↦ ground arith
  ]

  guarded-delivers :
      (m : Action Fields) (s : Store)
      → delivers
          (((gets recovery_required >>= λ gap. raise_if gap Reason.recovery_required) >> answered m)
            s).0
        ≡ false
  guarded-delivers m s = ground (arith, answered-delivers m s)

  pub operation-message :
      (key peer ident : String) (op body : Json) (s : Store)
      → delivers (operation_turn platform text_of policy at_ key peer ident op body s).0 ≡ true
      → operation_turn platform text_of policy at_ key peer ident op body s
        ≡ message_turn platform text_of policy at_ key peer ident op body s
  unfolding operation_turn
  operation-message key peer ident op body s h = ground (
    arith,
    answered-delivers (gets (λ s. probe_answer s.device)) s,
    answered-delivers (status_answer peer body) s,
    guarded-delivers (remote_prepare platform peer key body) s,
    guarded-delivers (remote_commit platform at_.rotation peer key body) s,
    answered-delivers (remote_status platform peer body) s,
    list-delivers peer body s,
  )

module _ (platform : Platform) (text_of : Fields → String) (policy : Policy) (at_ : Clock) where
  journal-ok :
      (peer peer' ident ident' : String) (m m' : Message) (s s' : Store)
      → journal_turn platform text_of policy at_ peer ident m s ≡ (ok (deliver peer' ident' m'), s')
      → (peer' ≡ peer)
        × (ident' ≡ ident)
        × (m' ≡ m)
        × (Journal.begin platform peer ident (journal_text text_of m) s ≡ (ok none, s'))
  unfolding journal_turn
  journal-ok peer peer' ident ident' m m' s s' h =
      let (existing, e, h₁) =
        >>=-eq-ok (Journal.begin platform peer ident (journal_text text_of m)) _ s
          {b = deliver peer' ident' m'} {u = s'} h in
      elim (Option-cases existing) [
        | inl e' ↦ (ground arith, ground arith, ground arith, ground arith)
        | inr (x, e') ↦ ground arith
      ]

  pub message-ok :
      (key peer peer' ident ident' : String) (op body : Json) (m : Message) (s s' : Store)
      → message_turn platform text_of policy at_ key peer ident op body s
        ≡ (ok (deliver peer' ident' m), s')
      → (peer' ≡ peer)
        × (ident' ≡ ident)
        × (is_text "resolve" op ≡ false)
        × Granted policy peer m
        × (m.key ≡ key)
        × (check_message op m s ≡ (ok tt, s))
        × (Journal.begin platform peer ident (journal_text text_of m) s ≡ (ok none, s'))
  unfolding message_turn
  message-ok key peer peer' ident ident' op body m s s' h =
      let (m', e, h₁) =
        >>=-eq-ok (read_message policy key peer op body) _ s {b = deliver peer' ident' m} {u = s'}
          h in
      let (granted, bound, fits, same) =
        read_message-ok policy key peer op body s (read_message policy key peer op body s).1 m'
          (ground arith) in
      elim (Bool-cases (is_text "resolve" op)) [
        | inl e' ↦ ground arith
        | inr e' ↦
            let (a, b, c, d) = journal-ok peer peer' ident ident' m' m s s' (ground arith) in
            (a, b, e', ground arith, ground arith, ground arith, ground arith)
      ]

  pub operation-other :
      (key peer ident : String) (op body : Json) (s : Store)
      → delivers (operation_turn platform text_of policy at_ key peer ident op body s).0 ≡ true
      → is_one_of
          ("probe" ∷ "status" ∷ "rotation.prepare" ∷ "rotation.commit" ∷ "rotation.status" ∷ "list"
            ∷ [])
          op
        ≡ false
  unfolding operation_turn
  operation-other key peer ident op body s h = ground (
    arith,
    answered-delivers (gets (λ s. probe_answer s.device)) s,
    answered-delivers (status_answer peer body) s,
    guarded-delivers platform text_of policy at_ (remote_prepare platform peer key body) s,
    guarded-delivers platform text_of policy at_ (remote_commit platform at_.rotation peer key body)
        s,
    answered-delivers (remote_status platform peer body) s,
    list-delivers platform text_of policy at_ peer body s,
  )
