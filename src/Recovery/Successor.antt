-- ===== src/Recovery/Successor.antt =====
-- Who is trusted after `peer_approve` of session_peer_relay/recovery.py.
use session_peer.Common.{
  ◌||◌, true, String, none, some, ◌==◌, string_eq, nat_eq, if◌then◌else◌, ◌≡◌, ◌≢◌, inl, inr, refl,
  arith, ok, Option-cases, Outcome-cases, >>=-eq-ok, >>=-eq-read, eq_iff, eq_refl, ◌>>◌,
}
use session_peer.Common.Sql.{find-holds, insert, find-insert, find-update}
use session_peer.Common.Json.{str, Json, Fields, num, at}
use session_peer.Store.State.{paired, is_paired, is_revoked_peer, Store, Peer, PeerStatus, Platform}
use session_peer.Store.Keys.{find_peer, revoke, register_key}
use session_peer.Store.Remember.Standing.{register_key-peers}
use session_peer.Recovery.State.{Notary}
use session_peer.Recovery.Routes.{Keeper}
use session_peer.Recovery.Approve.{
  check_old, Approver, Claim, as_text, check_operation, check_identity, check_request, add_peer,
  successor, hand_trust, approve_new, on_store, in_transaction,
}

module _ (platform : Platform) (notary : Notary) (keeper : Keeper) where
  find-revoke :
      (q old : String) (s : Store)
      → find_peer q (revoke old s).1 ≡ elim (find_peer q s) [
        | some p ↦ some (if p.id == old then record p { status = PeerStatus.revoked } else p)
        | none ↦ none
      ]
  unfolding revoke
  find-revoke q old s =
      find-update (λ p. p.id == old) (λ p. p.id == q)
        (λ p. record p { status = PeerStatus.revoked }) s.peers (λ r. refl)

  find-hand_trust :
      (q : String) (c : Claim) (routes : Json) (old : Peer) (s s' : Store)
      → hand_trust platform notary keeper c routes old s ≡ (ok tt, s')
      → (find_peer c.fresh s ≡ none)
        × (find_peer q s' ≡ elim (find_peer q (revoke c.old s).1) [
          | some p ↦ some p
          | none ↦
              if c.fresh == q then some (successor platform notary keeper c routes old) else none
        ])
  unfolding hand_trust
  find-hand_trust q c routes old s s' h =
      let key = register_key platform c.fresh c.certificate (num 0) in
      let revoked = (revoke c.old s).1 in
      let keyed = (key revoked).1 in
      let (_, e, h₁) =
        >>=-eq-ok (revoke c.old >> key)
          (λ _. add_peer platform notary keeper (successor platform notary keeper c routes old)) s
          {b = tt} {u = s'} h in
      let same = register_key-peers platform c.fresh c.certificate (num 0) revoked in
      (
        ground (arith, same, find-revoke c.fresh c.old s),
        ground (
          arith,
          same,
          find-insert (λ p. p.id == q) (successor platform notary keeper c routes old) keyed.peers,
        ),
      )

  check_old-same : (v : Json) (a : Approver) → (check_old platform notary keeper v a).1 ≡ a
  unfolding check_old
  check_old-same (str s) a = refl
  check_old-same _ a = refl

  pub approve_new-ok :
      (c : Claim) (d : Fields) (digest : String) (a a' : Approver) (r : Fields)
      → approve_new platform notary keeper c d digest a ≡ (ok r, a')
      → (check_old platform notary keeper (at "oldPrincipal" d) a ≡ (ok tt, a))
        × (old : Peer) × (find_peer c.old a.store ≡ some old)
        × ((is_paired old.status || is_revoked_peer old.status) ≡ true)
        × (hand_trust platform notary keeper c (at "routes" d) old a.store ≡ (ok tt, a'.store))
        × (a'.approvals
            ≡ insert
                (record {
                  id = c.operation;
                  hash = digest;
                  old_peer = c.old;
                  new_peer = c.fresh;
                  response = r;
                })
                a.approvals)
  unfolding approve_new in_transaction on_store
  approve_new-ok c d digest a a' r h =
      let (_, passed, rest) =
        >>=-eq-read (check_old platform notary keeper (at "oldPrincipal" d)) _ a {b = r} {u = a'}
          (check_old-same (at "oldPrincipal" d) a) h in
      elim (Option-cases (find_peer c.old a.store)) [
        | inl e ↦ ground arith
        | inr (old, e) ↦
            elim (Outcome-cases
              (hand_trust platform notary keeper c (at "routes" d) old a.store).0) [
                | inl (_, e') ↦ (passed, old, e, ground arith, ground arith, ground arith)
                | inr (inl (_, e')) ↦ ground arith
                | inr (inr e') ↦ ground arith
              ]
      ]

  pub check_operation-same :
      (d : Fields) (a : Approver) → (check_operation platform notary keeper d a).1 ≡ a
  unfolding check_operation
  check_operation-same d a = elim (Option-cases (as_text (at "recoveryId" d))) [
    | inl e ↦ ground arith
    | inr (x, e) ↦ elim (Option-cases (as_text (at "expectedPeer" d))) [
      | inl e' ↦ ground arith
      | inr (y, e') ↦ ground arith
    ]
  ]

  pub check_identity-same :
      (d : Fields) (a : Approver) → (check_identity platform notary keeper d a).1 ≡ a
  unfolding check_identity
  check_identity-same d a = elim (Option-cases (as_text (at "certificate" d))) [
    | inl e ↦ ground arith
    | inr (x, e) ↦ elim (Option-cases (platform.fingerprint x)) [
      | inl e' ↦ ground arith
      | inr (y, e') ↦ ground arith
    ]
  ]

  pub check_request-same :
      (d : Fields) (a : Approver) → (check_request platform notary keeper d a).1 ≡ a
  unfolding check_request
  check_request-same d a = elim (Outcome-cases (check_operation platform notary keeper d a).0) [
    | inr e ↦ ground (arith, check_operation-same d a)
    | inl (x, e) ↦ elim (Outcome-cases (check_identity platform notary keeper d a).0) [
      | inr e' ↦ ground (arith, check_operation-same d a, check_identity-same d a)
      | inl (y, e') ↦ ground (arith, check_operation-same d a, check_identity-same d a)
    ]
  ]

  -- What a claim changes in the peers: the old identity is revoked, the fresh one, which was nobody, is paired
  -- with the old one's capabilities, and everybody else is as before.
  abbrev pub Moved : Claim → Json → Peer → Store → Store → Type 0
  Moved c routes old s s' =
      (find_peer c.fresh s ≡ none)
      × (find_peer c.old s' ≡ some (record old { status = PeerStatus.revoked }))
      × (find_peer c.fresh s'
          ≡ some (record {
            id = c.fresh;
            cert = c.certificate;
            status = paired;
            expires = 0;
            routes = routes;
            capabilities = old.capabilities;
          }))
      × ((q : String) → q ≢ c.old → q ≢ c.fresh → find_peer q s' ≡ find_peer q s)

  pub hand_trust-Moved :
      (c : Claim) (routes : Json) (old : Peer) (s s' : Store)
      → hand_trust platform notary keeper c routes old s ≡ (ok tt, s')
      → find_peer c.old s ≡ some old
      → Moved c routes old s s'
  hand_trust-Moved c routes old s s' h e =
      let holds = find-holds (λ p. p.id == c.old) {r = old} s.peers e in
      let (nobody, at_old) = find-hand_trust c.old c routes old s s' h in
      let (_, at_fresh) = find-hand_trust c.fresh c routes old s s' h in
      (
        nobody,
        ground (arith, find-revoke c.old c.old s),
        ground (arith, find-revoke c.fresh c.old s, eq_refl c.fresh),
        λ q apart other.
            let (_, at_q) = find-hand_trust q c routes old s s' h in
            elim (Option-cases (find_peer q s)) [
              | inl none_q ↦ ground (arith, find-revoke q c.old s, eq_iff c.fresh q)
              | inr (p, found) ↦ ground (
                arith,
                find-revoke q c.old s,
                find-holds (λ p. p.id == q) {r = p} s.peers found,
                eq_iff p.id q,
                eq_iff p.id c.old,
              )
            ],
      )
