-- ===== src/Recovery/Approvals.antt =====
-- `peer_approve` of session_peer_relay/recovery.py, when a request is sent again.
use session_peer.Common.{
  String, none, ◌==◌, string_eq, ◌≡◌, inl, inr, arith, ok, Option-cases, Outcome-cases, >>=-eq-read,
  eq_refl,
}
use session_peer.Common.Sql.{find, find-insert}
use session_peer.Common.Json.{Json, Fields, obj, num, at}
use session_peer.Store.State.{Store, Peer, Platform, recovery_required}
use session_peer.Store.Keys.{revoke, register_key}
use session_peer.Recovery.State.{Notary}
use session_peer.Recovery.Routes.{Keeper}
use session_peer.Recovery.Approve.{
  without, Approver, Claim, as_text, check_operation, check_identity, check_request, hand_trust,
  approve_new, peer_approve, peer_approve_request,
}
use session_peer.Recovery.Successor.{
  approve_new-ok, check_request-same, check_operation-same, check_identity-same,
}

-- The part of a store that the checks of a request read
abbrev pub Alike : Store → Store → Type 0
Alike s t = (t.device ≡ s.device) × (recovery_required t ≡ recovery_required s)

pub register_key-Alike :
    (platform : Platform) (owner cert : String) (g : Json) (s : Store)
    → Alike s (register_key platform owner cert g s).1
unfolding register_key recovery_required
register_key-Alike platform owner cert g s = elim (Option-cases (platform.fingerprint cert)) [
  | inl e ↦ (ground arith, ground arith)
  | inr (key, e) ↦ (ground arith, ground arith)
]

module _ (platform : Platform) (notary : Notary) (keeper : Keeper) where
  hand_trust-Alike :
      (c : Claim) (routes : Json) (old : Peer) (s : Store)
      → Alike s (hand_trust platform notary keeper c routes old s).1
  unfolding hand_trust revoke recovery_required
  hand_trust-Alike c routes old s =
      let known = register_key-Alike platform c.fresh c.certificate (num 0) (revoke c.old s).1 in
      elim (Outcome-cases
        (register_key platform c.fresh c.certificate (num 0) (revoke c.old s).1).0) [
          | inl (_, e) ↦ (ground arith, ground arith)
          | inr (inl (_, e)) ↦ (ground arith, ground arith)
          | inr (inr e) ↦ (ground arith, ground arith)
        ]

  check_operation-Alike :
      (d : Fields) (a b : Approver)
      → (check_operation platform notary keeper d b).0
        ≡ (check_operation platform notary keeper d a).0
  unfolding check_operation
  check_operation-Alike d a b = elim (Option-cases (as_text (at "recoveryId" d))) [
    | inl e ↦ ground arith
    | inr (x, e) ↦ elim (Option-cases (as_text (at "expectedPeer" d))) [
      | inl e' ↦ ground arith
      | inr (y, e') ↦ ground arith
    ]
  ]

  check_identity-Alike :
      (d : Fields) (a b : Approver)
      → Alike a.store b.store
      → (check_identity platform notary keeper d b).0
        ≡ (check_identity platform notary keeper d a).0
  unfolding check_identity
  check_identity-Alike d a b (device, _) = elim (Option-cases (as_text (at "certificate" d))) [
    | inl e ↦ ground arith
    | inr (x, e) ↦ elim (Option-cases (platform.fingerprint x)) [
      | inl e' ↦ ground arith
      | inr (y, e') ↦ ground arith
    ]
  ]

  check_request-Alike :
      (d : Fields) (a b : Approver) (c : Claim)
      → Alike a.store b.store
      → check_request platform notary keeper d a ≡ (ok c, a)
      → check_request platform notary keeper d b ≡ (ok c, b)
  unfolding check_request
  check_request-Alike d a b c alike h =
      let operation = check_operation-Alike d a b in
      let identity = check_identity-Alike d a b alike in
      let same = check_operation-same platform notary keeper d in
      let same' = check_identity-same platform notary keeper d in
      let gap = alike.1 in
      elim (Outcome-cases (check_operation platform notary keeper d a).0) [
        | inr e ↦ ground (arith, same a)
        | inl (x, e) ↦ elim (Outcome-cases (check_identity platform notary keeper d a).0) [
          | inr e' ↦ ground (arith, same a, same' a)
          | inl (y, e') ↦ ground (arith, same a, same' a, same b, same' b)
        ]
      ]

  approve_new-again :
      (d : Fields) (a a' : Approver) (c : Claim) (r : Fields)
      → check_request platform notary keeper d a ≡ (ok c, a)
      → find (λ x. x.id == c.operation) a.approvals ≡ none
      → approve_new platform notary keeper c d
          (platform.sha256 (platform.canonical (without "proof" d)))
          a
        ≡ (ok r, a')
      → peer_approve platform notary keeper (obj d) a' ≡ (ok r, a')
  unfolding peer_approve peer_approve_request
  approve_new-again d a a' c r e first h =
      let digest = platform.sha256 (platform.canonical (without "proof" d)) in
      let (passed, old, found, status, handed, recorded) =
        approve_new-ok platform notary keeper c d digest a a' r h in
      let (device, gap) = hand_trust-Alike c (at "routes" d) old a.store in
      let passes = check_request-Alike d a a' c (ground arith, ground arith) e in
      ground (
        arith,
        eq_refl c.operation,
        eq_refl digest,
        find-insert (λ x. x.id == c.operation)
            (record {
              id = c.operation;
              hash = digest;
              old_peer = c.old;
              new_peer = c.fresh;
              response = r;
            })
            a.approvals,
      )

  -- A request that has been approved is approved again with the same response, and nothing is written.
  pub peer_approve_again :
      (d : Fields) (a a' : Approver) (r : Fields)
      → peer_approve platform notary keeper (obj d) a ≡ (ok r, a')
      → peer_approve platform notary keeper (obj d) a' ≡ (ok r, a')
  unfolding peer_approve peer_approve_request
  peer_approve_again d a a' r h =
      let (c, e, h₁) =
        >>=-eq-read (check_request platform notary keeper d) _ a {b = r} {u = a'}
          (check_request-same platform notary keeper d a) h in
      elim (Option-cases (find (λ x. x.id == c.operation) a.approvals)) [
        | inl first ↦ approve_new-again d a a' c r e first (ground arith)
        | inr (x, found) ↦ ground arith
      ]
