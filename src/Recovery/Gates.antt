-- ===== src/Recovery/Gates.antt =====
-- What `activate` of session_peer_relay/recovery.py waits for.
use session_peer.Common.{
  String, Bool, true, false, none, some, List, [], ◌∷◌, ◌++◌, ◌≡◌, inl, inr, refl, ok, rejected,
  arith, ◌&&◌, ◌||◌, not, is_some, map, ◌==◌, string_eq, nat_eq, eq_refl, Option-cases,
}
use session_peer.Common.Sql.{find, exists, find-insert}
use session_peer.Common.Text.{every}
use session_peer.Store.State.{Store, Request, RequestStatus, Tombstone, Platform, recovery_required}
use session_peer.Store.Journal.{names}
use session_peer.Store.Journal as Journal
use session_peer.Store.Reasons.{Reason, recovery_gates_incomplete}
use session_peer.Recovery.State.{
  Effect, Plan, PlanPeer, Device, Notary, Report, Gate, native, outgoing,
}
use session_peer.Recovery.Begin.{
  begin, begin_new, new_plan, plan_peers, by_peer, native_classification, as_effect, by_request,
  place, order_by,
}
use session_peer.Recovery.Status.{
  atomically, save, status, load, remaining, effect_gates, peer_gates, control_gates, is_none,
  is_unknown_class, is_committed,
}
use session_peer.Recovery.Activate.{activate, is_archive}

abbrev is_known : Effect → Bool
is_known e = not (is_unknown_class e.classification)

abbrev is_done : PlanPeer → Bool
is_done p = is_committed p.status

no-effect_gates :
    (gate : String → String → Gate) (es : List Effect)
    → is_none (effect_gates gate es) ≡ true
    → every is_known es ≡ true
no-effect_gates gate [] h = refl
no-effect_gates gate (e ∷ es) h = ground (arith, no-effect_gates gate es)

no-peer_gates : (ps : List PlanPeer) → is_none (peer_gates ps) ≡ true → every is_done ps ≡ true
no-peer_gates [] h = refl
no-peer_gates (p ∷ ps) h = ground (arith, no-peer_gates ps)

is_none-append : (xs ys : List Gate) → is_none (xs ++ ys) ≡ (is_none xs && is_none ys)
is_none-append [] ys = refl
is_none-append (x ∷ xs) ys = refl

-- nothing is left to do
pub is_ready : Plan → Bool
is_ready p =
    (not (is_some p.control.name) || is_committed p.control.status)
    && every is_known p.native_effects
    && every is_known p.outgoing_receipts
    && every is_done p.peers

no-remaining :
    (authenticated : Bool) (p : Plan)
    → is_none (remaining authenticated p) ≡ true
    → is_ready p ≡ true
unfolding remaining is_ready
no-remaining authenticated p h =
    let effects = effect_gates native p.native_effects in
    let receipts = effect_gates outgoing p.outgoing_receipts in
    let peers = peer_gates p.peers in
    ground (
      arith,
      is_none-append (control_gates authenticated p.control) (effects ++ receipts ++ peers),
      is_none-append effects (receipts ++ peers),
      is_none-append receipts peers,
      no-effect_gates native p.native_effects,
      no-effect_gates outgoing p.outgoing_receipts,
      no-peer_gates p.peers,
    )

module _ (platform : Platform) (notary : Notary) where
  -- If activate answers, the archive is the one that the plan was made for, and nothing is left to do: the
  -- control fence is committed where one is required, every effect and every receipt is classified, and
  -- every peer has approved and is committed.
  pub activate_ready :
      (authenticated : Bool) (restored : Store) (d d' : Device) (r : Report)
      → activate platform notary authenticated restored d ≡ (ok r, d')
      → (p : Plan) × (d.plan ≡ some p)
        × (is_archive platform notary p (find (λ _. true) restored.tombstones) ≡ true)
        × (is_ready p ≡ true)
  unfolding activate load
  activate_ready authenticated restored d d' r h = elim (Option-cases d.plan) [
    | inl e ↦ ground arith
    | inr (p, e) ↦ (p, e, ground arith, no-remaining authenticated p (ground arith))
  ]

-- a request whose delivery has not been finished
abbrev pub is_open : Request → Bool
is_open r = elim r.status [ RequestStatus.pending ↦ true | RequestStatus.done ↦ false ]

exists-place :
    (q : Request → Bool) (before : Request → Request → Bool) (a : Request) (rs : List Request)
    → exists q (place before a rs) ≡ exists q (a ∷ rs)
unfolding find
exists-place q before a [] = refl
exists-place q before a (b ∷ rs) = ground (arith, exists-place q before a rs)

exists-order_by :
    (q : Request → Bool) (before : Request → Request → Bool) (rs : List Request)
    → exists q (order_by before rs) ≡ exists q rs
unfolding find
exists-order_by q before [] = refl
exists-order_by q before (r ∷ rs) =
    ground (arith, exists-place q before r (order_by before rs), exists-order_by q before rs)

open-unknown :
    (rs : List Request) → exists is_open rs ≡ true → every is_known (map as_effect rs) ≡ false
unfolding find native_classification
open-unknown [] h = ground arith
open-unknown (r ∷ rs) h = ground (arith, open-unknown rs)

quarantined :
    (s : Store)
    → exists (λ m. m.key == "recovery_origin") s.metadata ≡ true
    → exists (λ m. m.key == "recovery_activation") s.metadata ≡ false
    → recovery_required s ≡ true
unfolding recovery_required
quarantined s h k = ground arith

pub refused :
    (platform : Platform) (peer ident text : String) (s : Store)
    → find (names peer ident) s.requests ≡ none
    → recovery_required s ≡ true
    → Journal.begin platform peer ident text s ≡ (rejected Reason.recovery_required, s)
unfolding Journal.begin
refused platform peer ident text s h k = ground arith

module _ (platform : Platform) (notary : Notary) where
  begin-plan :
      (authenticated : Bool) (restored : Store) (operation : String) (d d' : Device) (r : Report)
      → begin platform notary authenticated restored operation d ≡ (ok r, d')
      → d.plan ≡ none
      → (t : Tombstone) × (ps : List PlanPeer) × (find (λ _. true) restored.tombstones ≡ some t)
        × (d'.plan ≡ some (new_plan platform notary operation restored t d.store.device ps))
        × (exists (λ m. m.key == "recovery_origin") d'.store.metadata ≡ true)
        × (exists (λ m. m.key == "recovery_activation") d'.store.metadata
            ≡ exists (λ m. m.key == "recovery_activation") d.store.metadata)
  unfolding begin begin_new atomically save status load
  begin-plan authenticated restored operation d d' r h e =
      elim (Option-cases (find (λ _. true) restored.tombstones)) [
        | inl e' ↦ ground arith
        | inr (t, e') ↦
            elim (Option-cases
              (plan_peers platform notary operation restored (order_by by_peer restored.peers))) [
                | inl e'' ↦ ground arith
                | inr (ps, e'') ↦ (
                  t,
                  ps,
                  e',
                  ground arith,
                  ground (
                    arith,
                    find-insert (λ m. m.key == "recovery_origin")
                        (record {
                          key = "recovery_origin";
                          value = notary.listing (operation ∷ t.principal ∷ []);
                        })
                        d.store.metadata,
                  ),
                  ground (
                    arith,
                    find-insert (λ m. m.key == "recovery_activation")
                        (record {
                          key = "recovery_origin";
                          value = notary.listing (operation ∷ t.principal ∷ []);
                        })
                        d.store.metadata,
                  ),
                )
              ]
      ]

  not-ready :
      (authenticated : Bool) (restored : Store) (d : Device) (p : Plan)
      → d.plan ≡ some p
      → is_archive platform notary p (find (λ _. true) restored.tombstones) ≡ true
      → is_ready p ≡ false
      → activate platform notary authenticated restored d ≡ (rejected recovery_gates_incomplete, d)
  unfolding activate load
  not-ready authenticated restored d p e archive busy = ground (arith, no-remaining authenticated p)

  busy-plan :
      (operation : String) (restored : Store) (t : Tombstone) (fresh : String) (ps : List PlanPeer)
      → exists is_open restored.requests ≡ true
      → is_ready (new_plan platform notary operation restored t fresh ps) ≡ false
  unfolding is_ready
  busy-plan operation restored t fresh ps h = ground (
    arith,
    open-unknown (order_by by_request restored.requests),
    exists-order_by is_open by_request restored.requests,
  )

  -- If the restored journal has a request whose delivery was not finished, activate is refused after the
  -- begin that makes the plan, and writes nothing.
  pub begin_waits :
      (authenticated again : Bool) (restored : Store) (operation : String) (d d' : Device)
      (r : Report)
      → begin platform notary authenticated restored operation d ≡ (ok r, d')
      → d.plan ≡ none
      → exists is_open restored.requests ≡ true
      → activate platform notary again restored d' ≡ (rejected recovery_gates_incomplete, d')
  begin_waits authenticated again restored operation d d' r h e waits =
      let (t, ps, found, plan, _, _) = begin-plan authenticated restored operation d d' r h e in
      not-ready again restored d' (new_plan platform notary operation restored t d.store.device ps)
        plan (rw found (ground (arith, eq_refl t.principal, eq_refl t.generation)))
        (busy-plan operation restored t d.store.device ps waits)

  pub begin-quarantined :
      (authenticated : Bool) (restored : Store) (operation : String) (d d' : Device) (r : Report)
      → begin platform notary authenticated restored operation d ≡ (ok r, d')
      → d.plan ≡ none
      → exists (λ m. m.key == "recovery_activation") d.store.metadata ≡ false
      → recovery_required d'.store ≡ true
  begin-quarantined authenticated restored operation d d' r h e never =
      let (t, ps, _, _, origin, activation) =
        begin-plan authenticated restored operation d d' r h e in
      quarantined d'.store origin (ground arith)
