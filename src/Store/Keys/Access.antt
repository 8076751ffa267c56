-- ===== src/Store/Keys/Access.antt =====
-- Who may do what: `authorize` decides a table of rights, and `revoke` takes all of them.
use session_peer.Common.{
  ℕ, String, ◌≡◌, ◌≢◌, ◌↔◌, ◌⊎◌, inl, inr, refl, true, false, Option, none, some, List, ◌==◌,
  string_eq, eq_iff, Option-cases, arith, ok, rejected, member, if◌then◌else◌,
}
use session_peer.Common.Sql.{find-update, find-holds}
use session_peer.Common.Json.{Json, is_one_of, str}
use session_peer.Store.State.{Store, Peer, PeerKey, PeerStatus, KeyStatus, paired}
use session_peer.Store.Keys.{
  find_peer, find_key, principal, authorize, authorize_row, revoke, operations,
}
use session_peer.Store.Reasons.{retired_key, unpaired_device}

-- What a paired device with these capabilities may ask for: a listing needs `list`, a message and its
-- preview need `send`, and the rest needs no more than the pairing.
abbrev pub Allowed : List String → Json → Type 0
Allowed capabilities (str op) =
    ((op ≡ "list") × (member "list" capabilities ≡ true))
    ⊎ (((op ≡ "send") ⊎ (op ≡ "resolve")) × (member "send" capabilities ≡ true))
    ⊎ (op ≡ "probe")
    ⊎ (op ≡ "status")
    ⊎ (op ≡ "rotation.prepare")
    ⊎ (op ≡ "rotation.commit")
    ⊎ (op ≡ "rotation.status")
Allowed capabilities _ = ⊥

-- `op in (…)`, as the texts that it holds of
is_one_of-operations :
    (op : String)
    → (is_one_of operations (str op) ≡ true) ↔ (
        (op ≡ "list")
        ⊎ (op ≡ "send")
        ⊎ (op ≡ "resolve")
        ⊎ (op ≡ "probe")
        ⊎ (op ≡ "status")
        ⊎ (op ≡ "rotation.prepare")
        ⊎ (op ≡ "rotation.commit")
        ⊎ (op ≡ "rotation.status"))
is_one_of-operations op = ground (
  arith,
  eq_iff op "list",
  eq_iff op "send",
  eq_iff op "resolve",
  eq_iff op "probe",
  eq_iff op "status",
  eq_iff op "rotation.prepare",
  eq_iff op "rotation.commit",
  eq_iff op "rotation.status",
)

-- The operations with a right of their own are none of the others.
other_op :
    (op : String)
    → (op ≡ "probe")
      ⊎ (op ≡ "status")
      ⊎ (op ≡ "rotation.prepare")
      ⊎ (op ≡ "rotation.commit")
      ⊎ (op ≡ "rotation.status")
    → ((op == "list") ≡ false) × ((op == "send") ≡ false) × ((op == "resolve") ≡ false)
other_op op (inl e) = rw e (refl, refl, refl)
other_op op (inr (inl e)) = rw e (refl, refl, refl)
other_op op (inr (inr (inl e))) = rw e (refl, refl, refl)
other_op op (inr (inr (inr (inl e)))) = rw e (refl, refl, refl)
other_op op (inr (inr (inr (inr e)))) = rw e (refl, refl, refl)

allowed :
    (row : Peer) (op : Json) (s : Store)
    → ((authorize_row op row s).0 ≡ ok tt) ↔ ((row.status ≡ paired) × Allowed row.capabilities op)
unfolding authorize
allowed row (str op) s = ground (
  arith,
  is_one_of-operations op,
  other_op op,
  eq_iff op "list",
  eq_iff op "send",
  eq_iff op "resolve",
  eq_iff "list" "send",
  eq_iff "list" "resolve",
)
allowed row _ s = ground arith

-- `authorize` reads of the state no more than the device's row.
authorize_lem :
    (peer : String) (op : Json) (s : Store)
    → authorize peer op s ≡ elim (find_peer peer s) [
      | none ↦ (rejected unpaired_device, s)
      | some row ↦ ((authorize_row op row s).0, s)
    ]
unfolding authorize
authorize_lem peer op s = ground arith

back :
    (op : Json) (row r : Peer) (s : Store) {o : Option Peer}
    → o ≡ some row
    → o ≡ some r
    → ((authorize_row op r s).0 ≡ ok tt) ↔ ((r.status ≡ paired) × Allowed r.capabilities op)
    → (r.status ≡ paired) × Allowed r.capabilities op
    → (authorize_row op row s).0 ≡ ok tt
back op row r s p q fits h = ground (arith, fits.1 h)

-- `authorize` lets an operation through exactly when the device is paired and its capabilities allow
-- the operation, and it never writes.
pub authorize_iff :
    (peer : String) (op : Json) (s : Store)
    → (((authorize peer op s).0 ≡ ok tt) ↔ (
        (row : Peer) × (find_peer peer s ≡ some row)
        × (row.status ≡ paired)
        × Allowed row.capabilities op))
      × ((authorize peer op s).1 ≡ s)
unfolding authorize
authorize_iff peer op s = elim (Option-cases (find_peer peer s)) [
  | inl e ↦ ((λ h. ground arith, λ h. ground arith), ground arith)
  | inr (row, e) ↦ (
    (
      λ h. let through = (allowed row op s).0 (ground arith) in (row, e, through.0, through.1),
      λ h.
          ground
            (arith, authorize_lem peer op s, back op row h.0 s e h.1 (allowed h.0 op s) (h.2, h.3)),
    ),
    ground arith,
  )
]

pub find_peer-revoke :
    (peer q : String) (s : Store)
    → find_peer q (revoke peer s).1 ≡ elim (find_peer q s) [
      | some p ↦ some (if p.id == peer then record p { status = PeerStatus.revoked } else p)
      | none ↦ none
    ]
unfolding revoke
find_peer-revoke peer q s =
    find-update (λ p. p.id == peer) (λ p. p.id == q) (λ p. record p { status = PeerStatus.revoked })
      s.peers (λ p. refl)

find_key-revoke :
    (peer key : String) (s : Store)
    → find_key key (revoke peer s).1 ≡ elim (find_key key s) [
      | some k ↦ some (if k.principal == peer then record k { status = KeyStatus.revoked } else k)
      | none ↦ none
    ]
unfolding revoke
find_key-revoke peer key s =
    find-update (λ k. k.principal == peer) (λ k. k.fingerprint == key)
      (λ k. record k { status = KeyStatus.revoked }) s.peer_keys (λ p. refl)

pub find_peer-id : (q : String) (row : Peer) (s : Store) → find_peer q s ≡ some row → row.id ≡ q
find_peer-id q row s h = (eq_iff row.id q).0 (find-holds (λ p. p.id == q) {r = row} s.peers h)

authorize_row_store :
    (op : Json) (row : Peer) (s t : Store) → (authorize_row op row s).0 ≡ (authorize_row op row t).0
unfolding authorize
authorize_row_store op row s t = ground arith

unpaired :
    (op : Json) (row : Peer) (s : Store)
    → row.status ≡ PeerStatus.revoked
    → (authorize_row op row s).0 ≡ rejected unpaired_device
unfolding authorize
unpaired op row s h = ground arith

-- After `revoke(peer)` every operation of the device is refused as unpaired, and what any other device
-- may do is what it was.
pub revoke_denies :
    (peer other : String) (op : Json) (s : Store)
    → other ≢ peer
    → let t = (revoke peer s).1 in
      (authorize peer op t ≡ (rejected unpaired_device, t))
      × ((authorize other op t).0 ≡ (authorize other op s).0)
revoke_denies peer other op s ne =
    let t = (revoke peer s).1 in
    (
      elim (Option-cases (find_peer peer s)) [
        | inl e ↦ ground (arith, authorize_lem peer op t, find_peer-revoke peer peer s)
        | inr (row, e) ↦ ground (
          arith,
          authorize_lem peer op t,
          find_peer-revoke peer peer s,
          find_peer-id peer row s e,
          eq_iff row.id peer,
          unpaired op (record row { status = PeerStatus.revoked }) t refl,
        )
      ],
      elim (Option-cases (find_peer other s)) [
        | inl e ↦ ground (
          arith,
          authorize_lem other op t,
          authorize_lem other op s,
          find_peer-revoke peer other s,
        )
        | inr (row, e) ↦ ground (
          arith,
          authorize_lem other op t,
          authorize_lem other op s,
          find_peer-revoke peer other s,
          find_peer-id other row s e,
          eq_iff row.id peer,
          authorize_row_store op row s t,
        )
      ],
    )

-- After `revoke(peer)` each key that was bound to the device is refused as retired, at any time.
pub revoke_retires :
    (peer key : String) (k : PeerKey) (now : ℕ) (s : Store)
    → find_key key s ≡ some k
    → k.principal ≡ peer
    → let t = (revoke peer s).1 in principal now key t ≡ (rejected retired_key, t)
unfolding principal
revoke_retires peer key k now s found own =
    ground (arith, find_key-revoke peer key s, eq_iff peer peer)
