-- ===== src/Recovery/Requested.antt =====
-- What a request says that `peer_approve` of session_peer_relay/recovery.py takes, and what the peer does then.
use session_peer.Common.{
  String, true, false, none, some, ◌==◌, string_eq, nat_eq, ◌||◌, ◌≡◌, ◌⊎◌, inl, inr, refl, arith,
  ok, Option-cases, Outcome-cases, >>=-eq-read,
}
use session_peer.Common.Sql.{find, insert}
use session_peer.Common.Json.{Json, Fields, str, obj, at, is_text-eq}
use session_peer.Store.State.{
  Store, Peer, PeerStatus, paired, Platform, recovery_required, is_paired, is_revoked_peer,
}
use session_peer.Store.Keys.{find_peer}
use session_peer.Recovery.State.{Notary}
use session_peer.Recovery.Routes.{Keeper, is_verified}
use session_peer.Recovery.Approve.{
  Approver, Claim, as_text, text_at, check_operation, check_identity, check_request, check_old,
  peer_approve, peer_approve_request, without,
}
use session_peer.Recovery.Successor.{
  Moved, hand_trust-Moved, approve_new-ok, check_request-same, check_operation-same,
  check_identity-same,
}

as_text-eq : (j : Json) (t : String) → as_text j ≡ some t → j ≡ str t
as_text-eq (str s) t h = ground arith
as_text-eq _ t h = ground arith

module _ (platform : Platform) (notary : Notary) (keeper : Keeper) where
  check_operation-ok :
      (d : Fields) (a : Approver) (recovery : String)
      → (check_operation platform notary keeper d a).0 ≡ ok recovery
      → (at "recoveryId" d ≡ str recovery)
        × (platform.is_uuid4 recovery ≡ true)
        × (expected : String) × (at "expectedPeer" d ≡ str expected)
        × (at "operationId" d ≡ str (notary.derived recovery expected))
  unfolding check_operation
  check_operation-ok d a recovery h = elim (Option-cases (as_text (at "recoveryId" d))) [
    | inl e ↦ ground arith
    | inr (x, e) ↦ elim (Option-cases (as_text (at "expectedPeer" d))) [
      | inl e' ↦ ground arith
      | inr (y, e') ↦ (
        ground (arith, as_text-eq (at "recoveryId" d) x e),
        ground arith,
        y,
        as_text-eq (at "expectedPeer" d) y e',
        is_text-eq (notary.derived recovery y) (at "operationId" d) (ground arith),
      )
    ]
  ]

  check_identity-ok :
      (d : Fields) (a : Approver) (cert : String)
      → (check_identity platform notary keeper d a).0 ≡ ok cert
      → (at "expectedPeer" d ≡ str a.store.device)
        × (at "certificate" d ≡ str cert)
        × (key : String) × (platform.fingerprint cert ≡ some key)
        × (at "newPrincipal" d ≡ str key)
  unfolding check_identity
  check_identity-ok d a cert h = elim (Option-cases (as_text (at "certificate" d))) [
    | inl e ↦ ground arith
    | inr (x, e) ↦ elim (Option-cases (platform.fingerprint x)) [
      | inl e' ↦ ground arith
      | inr (key, e') ↦ (
        is_text-eq a.store.device (at "expectedPeer" d) (ground arith),
        ground (arith, as_text-eq (at "certificate" d) x e),
        key,
        ground arith,
        is_text-eq key (at "newPrincipal" d) (ground arith),
      )
    ]
  ]

  is_verified-ok :
      (cert : String) (payload : Fields) (j : Json)
      → is_verified keeper cert payload j ≡ true
      → (proof : String) × (j ≡ str proof) × (keeper.verified cert payload proof ≡ true)
  unfolding is_verified
  is_verified-ok cert payload (str proof) h = (proof, refl, ground arith)
  is_verified-ok cert payload _ h = ground arith

  check_old-ok :
      (v : Json) (a : Approver)
      → check_old platform notary keeper v a ≡ (ok tt, a)
      → (t : String) × (v ≡ str t)
  unfolding check_old
  check_old-ok (str t) a h = (t, refl)
  check_old-ok _ a h = ground arith

  -- The request is signed by the certificate that it carries, whose fingerprint is the fresh identity; it names
  -- this device, and its operation is the one that its recovery has for this device.
  abbrev pub IsProven : Store → Fields → Claim → Type 0
  IsProven s d c =
      (at "expectedPeer" d ≡ str s.device)
      × (at "recoveryId" d ≡ str c.recovery)
      × (platform.is_uuid4 c.recovery ≡ true)
      × (at "operationId" d ≡ str c.operation)
      × (c.operation ≡ notary.derived c.recovery s.device)
      × (at "certificate" d ≡ str c.certificate)
      × (platform.fingerprint c.certificate ≡ some c.fresh)
      × (at "newPrincipal" d ≡ str c.fresh)
      × (proof : String) × (at "proof" d ≡ str proof)
      × (keeper.verified c.certificate (without "proof" d) proof ≡ true)
      × (recovery_required s ≡ false)

  check_request-IsProven :
      (d : Fields) (a : Approver) (c : Claim)
      → check_request platform notary keeper d a ≡ (ok c, a)
      → IsProven a.store d c × (c.old ≡ text_at platform notary keeper "oldPrincipal" d)
  unfolding check_request
  check_request-IsProven d a c h =
      elim (Outcome-cases (check_operation platform notary keeper d a).0) [
        | inr e ↦ ground (arith, check_operation-same platform notary keeper d a)
        | inl (recovery, e) ↦ elim (Outcome-cases (check_identity platform notary keeper d a).0) [
          | inr e' ↦ ground (
            arith,
            check_operation-same platform notary keeper d a,
            check_identity-same platform notary keeper d a,
          )
          | inl (cert, e') ↦
              let same = check_operation-same platform notary keeper d a in
              let same' = check_identity-same platform notary keeper d a in
              let (r, uuid, expected, x, o) = check_operation-ok d a recovery e in
              let (x', ct, key, f, n) = check_identity-ok d a cert e' in
              let (proof, p, v) =
                is_verified-ok cert (without "proof" d) (at "proof" d)
                  (ground (arith, same, same')) in
              (
                (
                  x',
                  ground (arith, same, same'),
                  ground (arith, same, same'),
                  ground (arith, same, same'),
                  ground (arith, same, same'),
                  ground (arith, same, same'),
                  ground (arith, same, same'),
                  ground (arith, same, same'),
                  proof,
                  p,
                  ground (arith, same, same'),
                  ground (arith, same, same'),
                ),
                ground (arith, same, same'),
              )
        ]
      ]

  known-statuses :
      (k : PeerStatus)
      → (is_paired k || is_revoked_peer k) ≡ true
      → (k ≡ paired) ⊎ (k ≡ PeerStatus.revoked)
  known-statuses paired h = inl refl
  known-statuses PeerStatus.revoked h = inr refl
  known-statuses PeerStatus.pending h = ground arith

  -- If a peer that has not approved a request's operation before approves the request, then the request names
  -- this peer and the operation that its recovery has for this peer, is signed by the certificate that it carries, and
  -- names as the new principal that certificate's fingerprint; this peer is not itself under recovery; the
  -- old principal that the request names was paired or revoked here; and in the store that principal is then
  -- revoked, the new one, which was nobody, is paired with the old one's capabilities and the request's routes,
  -- every other peer is as before, and the approval is recorded.
  pub peer_approve_moves :
      (d : Fields) (operation : String) (a a' : Approver) (r : Fields)
      → at "operationId" d ≡ str operation
      → find (λ x. x.id == operation) a.approvals ≡ none
      → peer_approve platform notary keeper (obj d) a ≡ (ok r, a')
      → (c : Claim) × IsProven a.store d c
        × (at "oldPrincipal" d ≡ str c.old)
        × (old : Peer) × (find_peer c.old a.store ≡ some old)
        × ((old.status ≡ paired) ⊎ (old.status ≡ PeerStatus.revoked))
        × Moved platform notary keeper c (at "routes" d) old a.store a'.store
        × (a'.approvals
            ≡ insert
                (record {
                  id = operation;
                  hash = platform.sha256 (platform.canonical (without "proof" d));
                  old_peer = c.old;
                  new_peer = c.fresh;
                  response = r;
                })
                a.approvals)
  unfolding peer_approve peer_approve_request
  peer_approve_moves d operation a a' r named first h =
      let digest = platform.sha256 (platform.canonical (without "proof" d)) in
      let (c, e, h₁) =
        >>=-eq-read (check_request platform notary keeper d) _ a {b = r} {u = a'}
          (check_request-same platform notary keeper d a) h in
      let (proven, from_old) = check_request-IsProven d a c e in
      let (_, _, _, is_named, _, _, _, _, _, _, _, _) = proven in
      let (passed, old, known, status, handed, recorded) =
        approve_new-ok platform notary keeper c d digest a a' r (ground arith) in
      let (t, is_old) = check_old-ok (at "oldPrincipal" d) a passed in
      (
        c,
        proven,
        ground arith,
        old,
        known,
        known-statuses old.status status,
        hand_trust-Moved platform notary keeper c (at "routes" d) old a.store a'.store handed known,
        ground arith,
      )
