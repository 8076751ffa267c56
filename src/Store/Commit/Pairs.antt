-- ===== src/Store/Commit/Pairs.antt =====
-- Whom a commit pairs: the device whose active key was authenticated, and nobody else.
use session_peer.Common.{
  ℕ, String, ◌≡◌, refl, ap, true, Option, none, some, ◌==◌, string_eq, eq_iff, arith, ok,
  Outcome-cases, ◌⊎◌, inl, inr, Option-cases, Bool-cases, if◌then◌else◌,
}
use session_peer.Common.Sql.{update, find-update}
use session_peer.Store.State.{Store, Peer, paired, recovery_required, active, Offer, Platform}
use session_peer.Store.Keys.{find_peer, principal, key_status}
use session_peer.Store.Keys.Access.{find_peer-id}
use session_peer.Store.Pairing.{retire_invite}
use session_peer.Store.Pairing.Standing.{standing, IsKeyed, update-IsKeyed}
use session_peer.Store.Prepare.Accept.{adopt-peers}
use session_peer.Store.Commit.{
  pair_peer, conclude, Readings, Call, key_of, can_commit, authenticated, row_of, reservation_of,
  settle, commit_row, commit_locked, set_paired, invitation_of,
}

pair_peer-peers :
    (at : Readings) (peer : String) (invitation : Option String) (bound : Option Offer) (s : Store)
    → (pair_peer at peer invitation bound s).1.peers ≡ (set_paired peer s).peers
unfolding pair_peer update retire_invite
pair_peer-peers at peer none none s = refl
pair_peer-peers at peer (some ident) none s = refl
pair_peer-peers at peer none (some o) s = refl
pair_peer-peers at peer (some ident) (some o) s = refl

conclude-peers :
    (c : Call) (at : Readings) (peer : String) (row : Peer) (invitation : Option String)
    (reservation : Option (String × String)) (bound : Option Offer) (s : Store)
    → ((conclude c at peer row invitation reservation bound s).1.peers ≡ s.peers)
      ⊎ ((conclude c at peer row invitation reservation bound s).1.peers
          ≡ (set_paired peer s).peers)
unfolding conclude
conclude-peers c at peer row invitation reservation bound s =
    ground (arith, pair_peer-peers at peer invitation bound s)

settle-peers :
    (c : Call) (at : Readings) (peer : String) (row : Peer) (reservation : Option (String × String))
    (bound : Option Offer) (s : Store)
    → ((settle c at peer row reservation bound s).1.peers ≡ s.peers)
      ⊎ ((settle c at peer row reservation bound s).1.peers ≡ (set_paired peer s).peers)
unfolding settle
settle-peers c at peer row reservation bound s =
    ground (arith, conclude-peers c at peer row (invitation_of c reservation) reservation bound s)

authenticated-reads : (c : Call) (at : Readings) (s : Store) → (authenticated c at s).1 ≡ s
unfolding authenticated principal
authenticated-reads c at s = ground arith

authenticated_ok :
    (c : Call) (at : Readings) (s : Store) (peer : String)
    → (authenticated c at s).0 ≡ ok peer
    → (principal at.for_key (key_of c) s ≡ (ok peer, s))
      × (key_status (key_of c) s ≡ active)
      × ((c.peer ≡ key_of c) ⊎ (c.peer ≡ peer))
unfolding authenticated principal
authenticated_ok c at s peer h = ground (arith, eq_iff c.peer (key_of c), eq_iff c.peer peer)

row_of-reads : (peer : String) (now : ℕ) (s : Store) → (row_of peer now s).1 ≡ s
unfolding row_of
row_of-reads peer now s = ground arith

row_of_ok :
    (peer : String) (now : ℕ) (s : Store) (row : Peer)
    → (row_of peer now s).0 ≡ ok row
    → (find_peer peer s ≡ some row) × (can_commit now row ≡ true)
unfolding row_of
row_of_ok peer now s row h = ground arith

reservation_of-peers :
    (platform : Platform) (c : Call) (at : Readings) (peer : String) (row : Peer) (s : Store)
    → (reservation_of platform c at peer row s).1.peers ≡ s.peers
unfolding reservation_of
reservation_of-peers platform c at peer row s = grind (arith, adopt-peers)

commit_row-peers :
    (platform : Platform) (c : Call) (at : Readings) (peer : String) (row : Peer) (s : Store)
    → ((commit_row platform c at peer row s).1.peers ≡ s.peers)
      ⊎ ((commit_row platform c at peer row s).1.peers ≡ (set_paired peer s).peers)
unfolding commit_row set_paired
commit_row-peers platform c at peer row s =
    let same = reservation_of-peers platform c at peer row s in grind (arith, same, settle-peers)

standing-set_paired :
    (peer q : String) (s : Store)
    → standing q (set_paired peer s) ≡ (
        if peer == q
        then elim (find_peer q s) [ none ↦ none | some _ ↦ some paired ]
        else standing q s)
unfolding set_paired
standing-set_paired peer q s = elim (Option-cases (find_peer q s)) [
  | inl e ↦ ground (
    arith,
    find-update (λ p. p.id == peer) (λ p. p.id == q)
        (λ p. record p { status = paired; expires = 0 }) s.peers (λ p. refl),
  )
  | inr (row, e) ↦ ground (
    arith,
    find_peer-id q row s e,
    eq_iff row.id peer,
    eq_iff peer q,
    find-update (λ p. p.id == peer) (λ p. p.id == q)
        (λ p. record p { status = paired; expires = 0 }) s.peers (λ p. refl),
  )
]

-- `_commit_locked` stops without a write, or goes on with the caller's device and its row.
commit_locked-cases :
    (platform : Platform) (c : Call) (at : Readings) (s : Store)
    → ((commit_locked platform c at s).1 ≡ s)
      ⊎ ((peer : String) × (row : Peer) × ((authenticated c at s).0 ≡ ok peer)
          × ((row_of peer at.for_row s).0 ≡ ok row)
          × (commit_locked platform c at s ≡ commit_row platform c at peer row s))
unfolding commit_locked
commit_locked-cases platform c at s = elim (Outcome-cases (authenticated c at s).0) [
  | inl (peer, e) ↦ elim (Outcome-cases (row_of peer at.for_row s).0) [
    | inl (row, e') ↦ elim (Bool-cases (recovery_required s)) [
      | inl required ↦ inl (ground arith)
      | inr free ↦ inr (
        peer,
        row,
        e,
        e',
        ground (arith, authenticated-reads c at s, row_of-reads peer at.for_row s),
      )
    ]
    | inr (inl (x, e')) ↦
        inl (ground (arith, authenticated-reads c at s, row_of-reads peer at.for_row s))
    | inr (inr e') ↦
        inl (ground (arith, authenticated-reads c at s, row_of-reads peer at.for_row s))
  ]
  | inr (inl (x, e)) ↦ inl (ground (arith, authenticated-reads c at s))
  | inr (inr e) ↦ inl (ground (arith, authenticated-reads c at s))
]

-- A commit changes nothing of the standing of a device, unless it pairs it; and it pairs a device only
-- for a call whose key is active and bound to that device, and while the device is paired or waits
-- within its time.
pub commit_pairs :
    (platform : Platform) (c : Call) (at : Readings) (s : Store) (q : String)
    → let t = (commit_locked platform c at s).1 in
      (standing q t ≡ standing q s)
      ⊎ ((standing q t ≡ some paired)
          × (principal at.for_key (key_of c) s ≡ (ok q, s))
          × (key_status (key_of c) s ≡ active)
          × ((row : Peer) × (find_peer q s ≡ some row) × (can_commit at.for_row row ≡ true)))
commit_pairs platform c at s q = elim (commit_locked-cases platform c at s) [
  | inl e ↦ inl (ap (standing q) e)
  | inr (peer, row, auth, found, e) ↦ elim (commit_row-peers platform c at peer row s) [
    | inl same ↦ inl (ground arith)
    | inr wrote ↦ elim (Bool-cases (peer == q)) [
      | inl own ↦
          let (found', can) = row_of_ok peer at.for_row s row found in
          let (bound, live, _) = authenticated_ok c at s peer auth in
          rw (← (eq_iff peer q).0 own) (
            inr (
              ground (arith, standing-set_paired peer peer s, eq_iff peer peer),
              bound,
              live,
              (row, found', can),
            ))
      | inr other ↦ inl (ground (arith, standing-set_paired peer q s))
    ]
  ]
]

pub commit_locked-IsKeyed :
    (platform : Platform) (c : Call) (at : Readings) (s : Store)
    → IsKeyed s.peers
    → IsKeyed (commit_locked platform c at s).1.peers
commit_locked-IsKeyed platform c at s keyed = elim (commit_locked-cases platform c at s) [
  | inl e ↦ rw e keyed
  | inr (peer, row, auth, found, e) ↦ elim (commit_row-peers platform c at peer row s) [
    | inl same ↦ rw (e, same) keyed
    | inr wrote ↦
        rw (e, wrote)
          (unfold set_paired in
            update-IsKeyed (λ p. p.id == peer) (λ p. record p { status = paired; expires = 0 })
              s.peers (λ p. refl) keyed)
  ]
]
