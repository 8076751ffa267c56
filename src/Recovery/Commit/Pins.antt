-- ===== src/Recovery/Commit/Pins.antt =====
-- What a device has after `peer_commit` of session_peer_relay/recovery.py.
use session_peer.Common.{
  ◌&&◌, none, ◌≤◌, ℕ, String, Bool, true, some, List, ◌==◌, string_eq, nat_eq, ok, ◌≡◌, ◌⊎◌, inl,
  inr, arith, Option-cases, Outcome-cases, Bool-cases, >>=-eq-ok, eq_refl,
}
use session_peer.Common.Sql.{find, update, delete, delete, find-insert, find-delete_self}
use session_peer.Common.Json.{arr, Fields, obj, at, num}
use session_peer.Store.State.{PeerKey, paired, Store, active, Peer, Platform}
use session_peer.Store.Keys.{find_key, new_key, register_key, find_peer}
use session_peer.Recovery.State.{Progress, committed, Plan, PlanPeer, Device, Report}
use session_peer.Recovery.Status.{load, save, status, atomically, is_committed}
use session_peer.Recovery.Routes.{Keeper}
use session_peer.Recovery.Approve.{text_items}
use session_peer.Recovery.Commit.{
  commit_response, capabilities_of, pinned_generation, has_generation, read_response, peer_row,
  commit_new, commit_item, peer_commit_fields, peer_commit, on_device,
}
use session_peer.Recovery.Commit.Stated.{
  capabilities_of-items, is_committed-eq, not_committed-eq, register_key-holds, IsFor,
  read_response-IsFor, IsStated, pinned_generation-IsStated,
}

pub status-same : (authenticated : Bool) (v : Device) → (status authenticated v).1 ≡ v
unfolding status load
status-same authenticated v = elim (Option-cases v.plan) [
  | inl e ↦ ground arith
  | inr (p, e) ↦ ground arith
]

module _ (platform : Platform) (keeper : Keeper) where
  -- The peer is paired in the store with the routes and capabilities of the approval, its certificate's key is in
  -- the store, with the generation `n` where it was not there before, and the peer is committed in the plan.
  abbrev pub Paired : Plan → PlanPeer → ℕ → Fields → Device → Device → Type 0
  Paired plan item n d v v' =
      (capabilities : List String) × (at "capabilities" d ≡ arr (text_items capabilities))
      × (find_peer item.principal v'.store
          ≡ some (record {
            id = item.principal;
            cert = item.certificate;
            status = paired;
            expires = 0;
            routes = at "routes" d;
            capabilities = capabilities;
          }))
      × (key : String) × (platform.fingerprint item.certificate ≡ some key)
      × (find_key key v'.store
          ≡ some (elim (find_key key v.store) [
            | some k ↦ k
            | none ↦ new_key key item.principal item.certificate n active
          ]))
      × (v'.plan
          ≡ some (record plan {
            peers =
                update (λ x. x.principal == item.principal) (λ x. record x { status = committed })
                  plan.peers;
          }))

  commit_new-Paired :
      (plan : Plan) (item : PlanPeer) (n : ℕ) (d : Fields) (v v' : Device)
      → commit_new platform keeper plan item n d v ≡ (ok tt, v')
      → Paired plan item n d v v'
  unfolding commit_new atomically on_device save
  commit_new-Paired plan item n d v v' h =
      let key = register_key platform item.principal item.certificate (num n) in
      elim (Option-cases (capabilities_of (at "capabilities" d))) [
        | inl e ↦ ground arith
        | inr (cs, e) ↦ elim (Outcome-cases (key v.store).0) [
          | inl (_, e') ↦
              let row = peer_row platform keeper item (at "routes" d) cs in
              let t = (key v.store).1 in
              let is = λ (q : Peer). q.id == item.principal in
              let (k, print, held) =
                register_key-holds platform item.principal item.certificate n v.store e' in
              (
                cs,
                capabilities_of-items (at "capabilities" d) cs e,
                ground (
                  arith,
                  eq_refl item.principal,
                  find-insert is row (delete is t.peers),
                  find-delete_self is t.peers,
                ),
                k,
                print,
                ground (arith, held),
                ground arith,
              )
          | inr (inl (_, e')) ↦ ground arith
          | inr (inr e') ↦ ground arith
        ]
      ]

  -- The key of the certificate is in the store under the peer, with the generation `n`.
  abbrev pub IsHeld : PlanPeer → ℕ → Store → Type 0
  IsHeld item n s =
      (key : String) × (platform.fingerprint item.certificate ≡ some key)
      × (k : PeerKey) × (find (λ k. k.principal == item.principal && k.fingerprint == key)
            s.peer_keys
          ≡ some k)
      × (k.generation ≡ n)

  has_generation-IsHeld :
      (item : PlanPeer) (n : ℕ) (s : Store)
      → has_generation platform keeper item n s ≡ true
      → IsHeld item n s
  has_generation-IsHeld item n s h = elim (Option-cases (platform.fingerprint item.certificate)) [
    | inl e ↦ ground arith
    | inr (key, e) ↦
        elim (Option-cases
          (find (λ k. k.principal == item.principal && k.fingerprint == key) s.peer_keys)) [
            | inl e' ↦ ground arith
            | inr (k, e') ↦ (key, e, k, e', ground arith)
          ]
  ]

  -- What is known of an approval that is taken.
  abbrev pub Pinned : Plan → Fields → Device → Device → Type 0
  Pinned plan d v v' =
      (item : PlanPeer) × IsFor platform keeper plan item v.store d
      × (n : ℕ) × IsStated platform keeper item d n
      × (n ≤ 9007199254740991)
      × ((k : ℕ) → item.generation ≡ some k → n ≡ k)
      × (((item.status ≡ committed) × IsHeld item n v.store × (v' ≡ v))
          ⊎ ((item.status ≡ Progress.pending) × Paired plan item n d v v'))

  commit_response-Pinned :
      (plan : Plan) (d : Fields) (v v' : Device)
      → commit_response platform keeper plan d v ≡ (ok tt, v')
      → Pinned plan d v v'
  unfolding commit_response commit_item
  commit_response-Pinned plan d v v' h =
      let (item, e, h₁) =
        >>=-eq-ok (read_response platform keeper plan d) _ v {b = tt} {u = v'} h in
      let (is_for, same) =
        read_response-IsFor platform keeper plan d v (read_response platform keeper plan d v).1 item
          (ground arith) in
      let (n, e', h₂) =
        >>=-eq-ok (pinned_generation platform keeper item d)
          (λ n. commit_item platform keeper plan item n d) v {b = tt} {u = v'} (ground arith) in
      let (stated, fits, pin, same') =
        pinned_generation-IsStated platform keeper item d v
          (pinned_generation platform keeper item d v).1 n (ground arith) in
      (
        item,
        is_for,
        n,
        stated,
        fits,
        pin,
        elim (Bool-cases (is_committed item.status)) [
          | inl c ↦ inl (
            is_committed-eq item.status c,
            has_generation-IsHeld item n v.store (ground arith),
            ground arith,
          )
          | inr c ↦
              inr (
                not_committed-eq item.status c,
                commit_new-Paired plan item n d v v' (ground arith),
              )
        ],
      )

  -- If the device takes an approval, it is for the device's plan and fresh identity, for a peer of the plan, and
  -- signed by the certificate that the plan has for that peer. The peer's generation is the one that the
  -- approval states, or the archived one, or 0 for a certificate that is the principal's own; it is the
  -- archived one wherever there is one. Either the peer was committed before with its key in the store under
  -- that generation, and nothing is written; or the peer is then paired in the store under that certificate with
  -- the routes and capabilities of the approval, its key is there, with that generation if it is new, and the peer
  -- is committed in the plan.
  pub peer_commit_pins :
      (authenticated : Bool) (d : Fields) (v v' : Device) (r : Report)
      → peer_commit platform keeper authenticated (obj d) v ≡ (ok r, v')
      → (plan : Plan) × (v.plan ≡ some plan) × Pinned plan d v v'
  unfolding peer_commit peer_commit_fields load status
  peer_commit_pins authenticated d v v' r h = elim (Option-cases v.plan) [
    | inl e ↦ ground arith
    | inr (plan, e) ↦ elim (Outcome-cases (commit_response platform keeper plan d v).0) [
      | inl (_, e') ↦ (
        plan,
        e,
        commit_response-Pinned plan d v v' (
            ground (arith, status-same authenticated (commit_response platform keeper plan d v).1)),
      )
      | inr (inl (_, e')) ↦ ground arith
      | inr (inr e') ↦ ground arith
    ]
  ]
