-- ===== src/Store/Remember.antt =====
-- The inviting device's side of `class Store`, on the device that uses an invitation: `stage`,
-- `_stage_locked`, `discard_pairing_stage`, `remember`, `_remember_locked`, `save_offer_intent`,
-- `_receiver_offer_identity_locked`, `_expired_pending_projection_locked` and
-- `receiver_offer_identity`.
pub mod Standing
use session_peer.Common.{
  ℕ, zero, String, Bool, true, false, Option, none, some, List, [], ◌∷◌, ◌==◌, string_eq, nat_eq,
  ◌&&◌, ◌||◌, not, pure, raise, raise_if, gets, modify, fail, or_crash, ◌>>=◌, ◌>>◌, leb, ltb,
  is_some, if◌then◌else◌,
}
use session_peer.Common.Sql.{find, insert, delete, replace, count, exists}
use session_peer.Common.Json.{Json, num}
use session_peer.Common.Text.{is_hex64}
use session_peer.Store.State.{
  Store, Action, Invitation, Peer, PeerStatus, paired, PeerKey, Reservation, Intent, Platform,
  is_paired, is_active, is_pending_peer, is_revoked_peer, recovery_required, atomically,
}
use session_peer.Store.Keys.{find_peer, find_key, register_key}
use session_peer.Store.Pairing.{find_owner, is_for, release, pairing_transaction, plain}
use session_peer.Store.Prepare.{insert_reservation, both_rights}
use session_peer.Store.Reasons.{
  Reason, principal_already_paired, revoked_device, peer_already_reserved, pin_mismatch,
  invalid_pairing_intent, pairing_intent_conflict, unproven_receiver_principal,
  receiver_pairing_pending, invalid_invitation, invitation_consumed, pairing_intent_capacity,
}

-- `invite.get('keyGeneration', 0)`
abbrev pub generation_of : Invitation → Json
generation_of i = elim i.key_generation [ none ↦ num 0 | some g ↦ g ]

abbrev pub peer_row : Invitation → PeerStatus → ℕ → Peer
peer_row i status expires = record {
  id = i.device;
  cert = i.certificate;
  status = status;
  expires = expires;
  routes = i.routes;
  capabilities = both_rights;
}

-- `INSERT OR REPLACE INTO peers`
unfoldable pub put_peer : Invitation → PeerStatus → ℕ → Store → Store
put_peer i status expires s = record s {
  peers = replace (λ p. p.id == i.device) (peer_row i status expires) s.peers;
}

abbrev owns : Reservation → String → String → Bool
owns r ident key = r.invitation == ident && r.client_key == key

pub check_stage_owner : Invitation → String → Option Peer → Option Reservation → Action Unit
check_stage_owner i key existing (some r) = raise_if (not (owns r i.id key)) peer_already_reserved
check_stage_owner i key existing none = raise_if (is_some existing) peer_already_reserved

reserve_staged : Invitation → String → Option Peer → Bool → Option Reservation → Action Unit
reserve_staged i key existing had_key (some _) = pure tt
reserve_staged i key existing had_key none = insert_reservation (record {
  peer = i.device;
  invitation = i.id;
  client_key = key;
  created_peer = not (is_some existing);
  created_key = not had_key;
})

-- the key and the reservation that `_stage_locked` writes, for a peer that is absent or pending
pub stage_trust : Platform → Invitation → Option Peer → String → Action Unit
stage_trust platform i existing key = do
  owner ← gets (find_owner i.device)
  check_stage_owner i key existing owner
  had_key ← gets (find_key key)
  register_key platform i.device i.certificate (generation_of i)
  reserve_staged i key existing (is_some had_key) owner

pub stage_pending : Platform → Invitation → Option Peer → Action Unit
stage_pending platform i existing = do
  key ← or_crash (platform.fingerprint i.certificate)
  stage_trust platform i existing key
  modify (put_peer i PeerStatus.pending i.expires)

pub stage_existing : Platform → Invitation → Peer → Action Unit
stage_existing platform i p s =
    if not (p.cert == i.certificate) then raise principal_already_paired s else elim p.status [
      | PeerStatus.revoked ↦ raise revoked_device s
      | paired ↦ pure tt s
      | PeerStatus.pending ↦ stage_pending platform i (some p) s
    ]

pub stage_locked : Platform → Invitation → Action Unit
stage_locked platform i s = elim (find_peer i.device s) [
  | none ↦ stage_pending platform i none s
  | some p ↦ stage_existing platform i p s
]

unfoldable pub stage : Platform → ℕ → Invitation → Action Unit
stage platform now i = pairing_transaction plain now (stage_locked platform i)

unfoldable pub discard_pairing_stage : ℕ → String → Action Unit
discard_pairing_stage now invitation = pairing_transaction plain now (modify (release invitation))

-- `fingerprint(invite['certificate']) == invite.get('keyFingerprint', invite['device'])`
abbrev pub is_pinned : Invitation → String → Bool
is_pinned i key = elim i.key_fingerprint [ none ↦ key == i.device | some pin ↦ key == pin ]

abbrev is_held_elsewhere : Invitation → Option Reservation → Bool
is_held_elsewhere i none = false
is_held_elsewhere i (some r) = not (r.invitation == i.id)

pub check_remembered : Invitation → Option Peer → Option Reservation → Action Unit
check_remembered i none owner = pure tt
check_remembered i (some p) owner =
    raise_if (is_revoked_peer p.status) revoked_device
    >> raise_if (not (p.cert == i.certificate)) principal_already_paired
    >> raise_if (is_pending_peer p.status && is_held_elsewhere i owner) peer_already_reserved

forget_reservation : Invitation → Store → Store
forget_reservation i s = record s {
  reservations = delete (λ r. r.peer == i.device && r.invitation == i.id) s.reservations;
}

pub settle_remembered : Invitation → Option Peer → Action Unit
settle_remembered i existing =
    if elim existing [ none ↦ false | some p ↦ is_paired p.status ]
    then pure tt
    else (modify (put_peer i paired 0) >> modify (forget_reservation i))

pub remember_locked : Platform → Invitation → Action Unit
remember_locked platform i = do
  key ← or_crash (platform.fingerprint i.certificate)
  raise_if (not (is_pinned i key)) pin_mismatch
  existing ← gets (find_peer i.device)
  owner ← gets (find_owner i.device)
  check_remembered i existing owner
  register_key platform i.device i.certificate (generation_of i)
  settle_remembered i existing

unfoldable pub remember : Platform → ℕ → Invitation → Action Unit
remember platform now i = pairing_transaction plain now (remember_locked platform i)

-- Read-only: the peer is pending and expired, and nothing live stands behind it.
is_expired_projection : Platform → ℕ → Peer → Action Bool
is_expired_projection platform now p s =
    if not (is_pending_peer p.status)
      || ltb now p.expires
      || exists (λ i. is_for i.peer p.id && ltb now i.expires) s.invites
    then pure false s
    else elim (find_owner p.id s) [
      | none ↦ pure true s
      | some r ↦ elim (platform.fingerprint p.cert) [
        | none ↦ fail s
        | some key ↦
            pure
              (r.client_key == key
                && not (exists (λ i. i.id == r.invitation && ltb now i.expires) s.invites))
              s
      ]
    ]

-- the columns of the receiver's key row that the invitation promises
abbrev is_promised : Invitation → Option PeerKey → Bool
is_promised i none = false
is_promised i (some k) =
    k.principal == i.device
    && k.cert == i.certificate
    && is_active k.status
    && elim (generation_of i) [ num n ↦ k.generation == n | _ ↦ false ]

abbrev is_zero : Json → Bool
is_zero (num zero) = true
is_zero _ = false

abbrev is_unproven_receiver : Invitation → String → Option PeerKey → Bool
is_unproven_receiver i key anchor =
    is_some anchor && not (is_promised i anchor)
    || (not (i.device == key) || not (is_zero (generation_of i))) && not (is_promised i anchor)

pub record ReceiverIdentity : Type 0 where
  pub principal : String
  pub key_fingerprint : String
  pub generation : Json

abbrev same_facts : Intent → Intent → Bool
same_facts a b =
    a.digest == b.digest
    && a.receiver == b.receiver
    && a.receiver_key == b.receiver_key
    && a.client_key == b.client_key

abbrev as_intent : Invitation → String → String → String → Intent
as_intent i digest key expected = record {
  id = i.id;
  digest = digest;
  receiver = i.device;
  receiver_key = key;
  client_key = expected;
}

check_previous : Platform → Invitation → ℕ → Bool → Bool → Option Peer → Action Unit
check_previous platform i now known promised none = pure tt
check_previous platform i now known promised (some p) = do
  raise_if (is_revoked_peer p.status) revoked_device
  raise_if (not (p.cert == i.certificate)) principal_already_paired
  gone ← is_expired_projection platform now p
  raise_if (not gone && is_pending_peer p.status && (not known || not promised))
      receiver_pairing_pending

-- The last part of the result is whether the intent was there before. `at_projection` and `at_expiry`
-- are the readings of the clock.
pub receiver_offer_identity_locked :
    Platform → Invitation → String → String → ℕ → ℕ → Action (ReceiverIdentity × Bool)
receiver_offer_identity_locked platform i digest expected_key at_projection at_expiry = do
  mine ← gets (λ s. s.key_id)
  raise_if (not (is_hex64 digest) || not (expected_key == mine)) invalid_pairing_intent
  key ← or_crash (platform.fingerprint i.certificate)
  existing ← gets (λ s. find (λ (x : Intent). x.id == i.id) s.intents)
  raise_if
      (elim existing [
        | none ↦ false
        | some x ↦ not (same_facts x (as_intent i digest key expected_key))
      ])
      pairing_intent_conflict
  anchor ← gets (find_key key)
  raise_if (is_unproven_receiver i key anchor) unproven_receiver_principal
  previous ← gets (find_peer i.device)
  check_previous platform i at_projection (is_some existing) (is_promised i anchor) previous
  raise_if (leb i.expires at_expiry && not (is_some existing)) invalid_invitation
  pure (
    record { principal = i.device; key_fingerprint = key; generation = generation_of i },
    is_some existing,
  )

unfoldable pub receiver_offer_identity :
    Platform → Invitation → String → String → ℕ → ℕ → Action ReceiverIdentity
receiver_offer_identity platform i digest expected_key at_projection at_expiry = atomically do
  raise_if (← gets recovery_required) Reason.recovery_required
  found ← receiver_offer_identity_locked platform i digest expected_key at_projection at_expiry
  pure found.0

add_intent : Invitation → String → String → String → ℕ → Action Unit
add_intent i digest key expected_key now = do
  raise_if (leb i.expires now) invalid_invitation
  previous ← gets (find_peer i.device)
  raise_if (elim previous [ none ↦ false | some p ↦ is_paired p.status ]) invitation_consumed
  raise_if (← gets (λ s. leb 1024 (count (λ _. true) s.intents))) pairing_intent_capacity
  modify (λ s. record s { intents = insert (as_intent i digest key expected_key) s.intents })

-- `Store.save_offer_intent`: whether the same intent had been saved before
pub save_offer_intent_locked : Platform → Invitation → String → String → ℕ → ℕ → ℕ → Action Bool
save_offer_intent_locked platform i digest expected_key at_projection at_expiry now = do
  raise_if (← gets recovery_required) Reason.recovery_required
  found ← receiver_offer_identity_locked platform i digest expected_key at_projection at_expiry
  let identity = found.0
  let existing = found.1
  if existing then pure tt else add_intent i digest identity.key_fingerprint expected_key now
  pure existing

unfoldable pub save_offer_intent : Platform → Invitation → String → String → ℕ → ℕ → ℕ → Action Bool
save_offer_intent platform i digest expected_key at_projection at_expiry now =
    atomically (save_offer_intent_locked platform i digest expected_key at_projection at_expiry now)
