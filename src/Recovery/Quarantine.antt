-- ===== src/Recovery/Quarantine.antt =====
-- What a device does with its plan in session_peer_relay/recovery.py before it is activated, and that it takes no
-- request meanwhile.
use session_peer.Common.{
  ℕ, String, Bool, false, none, List, [], ◌∷◌, ◌≡◌, ◌∙◌, inl, inr, refl, arith, ok, Option-cases,
  Outcome-cases, Bool-cases, ap, ◌==◌, string_eq, rejected,
}
use session_peer.Common.Sql.{find, exists}
use session_peer.Common.Json.{Json, Fields, obj, at, num}
use session_peer.Store.State.{Store, Platform, recovery_required}
use session_peer.Store.Journal.{names}
use session_peer.Store.Journal as Journal
use session_peer.Store.Keys.{register_key}
use session_peer.Store.Reasons.{Reason}
use session_peer.Recovery.State.{Plan, PlanPeer, Classification, Device, Notary, Report}
use session_peer.Recovery.Begin.{begin}
use session_peer.Recovery.Gates.{refused, begin-quarantined}
use session_peer.Recovery.Status.{is_committed, load, status, save, atomically}
use session_peer.Recovery.Reconcile.{reconcile, reconcile_new, is_operation}
use session_peer.Recovery.Activate.{record_control}
use session_peer.Recovery.Routes.{Keeper}
use session_peer.Recovery.Approvals.{Alike, register_key-Alike}
use session_peer.Recovery.Commit.{
  peer_of, exact, generation_of, capabilities_of, on_device, commit_new, commit_item,
  commit_response, read_response, pinned_generation, peer_commit, peer_commit_fields,
}
use session_peer.Recovery.Commit.Pins.{status-same}

-- the operations on a plan between its begin and its activation
pub data Inquiry : Type 0 where
  ask : Bool → Inquiry
  classify : Bool → String → Bool → String → String → Classification → Inquiry
  fence : Bool → Fields → Inquiry
  approval : Bool → Json → Inquiry

module _ (platform : Platform) (notary : Notary) (keeper : Keeper) where
  reconcile-store :
      (authenticated : Bool) (operation : String) (is_native : Bool) (peer request : String)
      (c : Classification) (d : Device)
      → (reconcile platform notary authenticated operation is_native peer request c d).1.store
        ≡ d.store
  unfolding reconcile load reconcile_new save status
  reconcile-store authenticated operation is_native peer request c d = elim (Option-cases d.plan) [
    | inl e ↦ ground arith
    | inr (p, e) ↦
        elim (Option-cases (find (is_operation platform notary operation) p.operations)) [
          | inl e' ↦ ground arith
          | inr (o, e') ↦ ground arith
        ]
  ]

  record_control-store :
      (authenticated : Bool) (receipt : Fields) (d : Device)
      → (record_control platform notary authenticated receipt d).1.store ≡ d.store
  unfolding record_control load save status
  record_control-store authenticated receipt d = elim (Option-cases d.plan) [
    | inl e ↦ ground arith
    | inr (p, e) ↦ ground arith
  ]

  read_response-same :
      (plan : Plan) (f : Fields) (d : Device) → (read_response platform keeper plan f d).1 ≡ d
  unfolding read_response
  read_response-same plan f d = elim (Option-cases (peer_of plan f)) [
    | inl e ↦ ground arith
    | inr (p, e) ↦ ground arith
  ]

  pinned_generation-same :
      (item : PlanPeer) (f : Fields) (d : Device)
      → (pinned_generation platform keeper item f d).1 ≡ d
  unfolding pinned_generation
  pinned_generation-same item f d =
      elim (Option-cases (exact (generation_of platform keeper item f))) [
        | inl e ↦ ground arith
        | inr (n, e) ↦ ground arith
      ]

  commit_new-Alike :
      (plan : Plan) (item : PlanPeer) (n : ℕ) (f : Fields) (d : Device)
      → Alike d.store (commit_new platform keeper plan item n f d).1.store
  unfolding commit_new atomically on_device save recovery_required
  commit_new-Alike plan item n f d =
      let key = register_key platform item.principal item.certificate (num n) in
      let known = register_key-Alike platform item.principal item.certificate (num n) d.store in
      elim (Option-cases (capabilities_of (at "capabilities" f))) [
        | inl e ↦ (ground arith, ground arith)
        | inr (cs, e) ↦ elim (Outcome-cases (key d.store).0) [
          | inl (_, e') ↦ (ground (arith, known), ground (arith, known))
          | inr (inl (x, e')) ↦ (ground arith, ground arith)
          | inr (inr e') ↦ (ground arith, ground arith)
        ]
      ]

  commit_item-Alike :
      (plan : Plan) (item : PlanPeer) (n : ℕ) (f : Fields) (d : Device)
      → Alike d.store (commit_item platform keeper plan item n f d).1.store
  unfolding commit_item
  commit_item-Alike plan item n f d = elim (Bool-cases (is_committed item.status)) [
    | inl e ↦ (ground arith, ground arith)
    | inr e ↦
        let new = commit_new-Alike plan item n f d in (ground (arith, new), ground (arith, new))
  ]

  commit_response-Alike :
      (plan : Plan) (f : Fields) (d : Device)
      → Alike d.store (commit_response platform keeper plan f d).1.store
  unfolding commit_response
  commit_response-Alike plan f d =
      let same = read_response-same plan f d in
      elim (Outcome-cases (read_response platform keeper plan f d).0) [
        | inl (item, e) ↦
            let same' = pinned_generation-same item f d in
            elim (Outcome-cases (pinned_generation platform keeper item f d).0) [
              | inl (n, e') ↦
                  let new = commit_item-Alike plan item n f d in
                  (ground (arith, same, same', new), ground (arith, same, same', new))
              | inr (inl (x, e')) ↦ (ground (arith, same, same'), ground (arith, same, same'))
              | inr (inr e') ↦ (ground (arith, same, same'), ground (arith, same, same'))
            ]
        | inr (inl (x, e)) ↦ (ground (arith, same), ground (arith, same))
        | inr (inr e) ↦ (ground (arith, same), ground (arith, same))
      ]

  peer_commit-Alike :
      (authenticated : Bool) (j : Json) (d : Device)
      → Alike d.store (peer_commit platform keeper authenticated j d).1.store
  unfolding peer_commit peer_commit_fields load
  peer_commit-Alike authenticated (obj f) d = elim (Option-cases d.plan) [
    | inl e ↦ (ground arith, ground arith)
    | inr (plan, e) ↦
        let new = commit_response-Alike plan f d in
        let same = status-same authenticated (commit_response platform keeper plan f d).1 in
        elim (Outcome-cases (commit_response platform keeper plan f d).0) [
          | inl (_, e') ↦ (ground (arith, new, same), ground (arith, new, same))
          | inr (inl (x, e')) ↦ (ground (arith, new), ground (arith, new))
          | inr (inr e') ↦ (ground (arith, new), ground (arith, new))
        ]
  ]
  peer_commit-Alike authenticated _ d = (refl, refl)

  unfoldable pub inquire : Inquiry → Device → Device
  inquire (ask authenticated) d = (status authenticated d).1
  inquire (classify authenticated operation is_native peer request c) d =
      (reconcile platform notary authenticated operation is_native peer request c d).1
  inquire (fence authenticated receipt) d =
      (record_control platform notary authenticated receipt d).1
  inquire (approval authenticated response) d =
      (peer_commit platform keeper authenticated response d).1

  unfoldable pub inquire_each : List Inquiry → Device → Device
  inquire_each [] d = d
  inquire_each (q ∷ qs) d = inquire_each qs (inquire q d)

  inquire-required :
      (q : Inquiry) (d : Device) → recovery_required (inquire q d).store ≡ recovery_required d.store
  unfolding inquire
  inquire-required (ask authenticated) d =
      ap (λ v. recovery_required v.store) (status-same authenticated d)
  inquire-required (classify authenticated operation is_native peer request c) d =
      ap recovery_required (reconcile-store authenticated operation is_native peer request c d)
  inquire-required (fence authenticated receipt) d =
      ap recovery_required (record_control-store authenticated receipt d)
  inquire-required (approval authenticated response) d =
      (peer_commit-Alike authenticated response d).1

  inquire_each-required :
      (qs : List Inquiry) (d : Device)
      → recovery_required (inquire_each qs d).store ≡ recovery_required d.store
  unfolding inquire_each
  inquire_each-required [] d = refl
  inquire_each-required (q ∷ qs) d = inquire_each-required qs (inquire q d) ∙ inquire-required q d

  -- From the begin that makes the plan on, whatever reports, reconciliations, control receipts and
  -- approvals of peers come after it, a device that was not activated before takes no new request into its
  -- journal, as long as activate is not called.
  pub begin_quarantines :
      (authenticated : Bool) (restored : Store) (operation : String) (d d' : Device) (r : Report)
      (qs : List Inquiry) (peer ident text : String)
      → begin platform notary authenticated restored operation d ≡ (ok r, d')
      → d.plan ≡ none
      → exists (λ m. m.key == "recovery_activation") d.store.metadata ≡ false
      → find (names peer ident) (inquire_each qs d').store.requests ≡ none
      → Journal.begin platform peer ident text (inquire_each qs d').store
        ≡ (rejected Reason.recovery_required, (inquire_each qs d').store)
  begin_quarantines authenticated restored operation d d' r qs peer ident text h e never new =
      refused platform peer ident text (inquire_each qs d').store new (
        inquire_each-required qs d'
        ∙ begin-quarantined platform notary authenticated restored operation d d' r h e never)
