-- ===== src/KeyRotation/Replies.antt =====
-- Repeated requests of a rotation, and how many rotations are prepared at once.
use mathlib.Core.Path.{subst}
use session_peer.Common.{
  ℕ, ◌≤◌, String, ◌≡◌, refl, ap, ◌∙◌, true, false, none, some, [], ◌∷◌, ◌++◌, ◌==◌, string_eq,
  eq_iff, ◌&&◌, arith, ok, ◌⊎◌, inl, inr, Option-cases, Bool-cases, Outcome-cases,
}
use session_peer.Common.Sql.{
  find, exists, count, find-update, find-insert, find-holds, count-insert, count-none, count-update,
}
use session_peer.Common.Json.{Json, Fields, str}
use session_peer.Store.State.{Store, Rotation, prepared, committed, Proposal, Platform, atomically}
use session_peer.KeyRotation.{
  names, is_prepared, find_rotation, hand_over, operation_id, status_of, read_proposal,
  add_rotation, prepare_locked, remote_prepare, commit_locked, commit_row, remote_commit,
  remote_status,
}
use session_peer.KeyRotation.Handover.{status_of-reads, IsCommitted, remote_commit_ok}
use session_peer.KeyRotation.Proposals.{Accepted, remote_prepare_ok, read_proposal-device}

-- how many rotations of the device are prepared
abbrev pub count_prepared : String → Store → ℕ
count_prepared peer s = count (λ r. r.peer == peer && is_prepared r.status) s.rotations

find_rotation-hand_over :
    (now : ℕ) (peer key ident cert : String) (s : Store)
    → find_rotation peer ident (hand_over now peer key ident cert s)
      ≡ elim (find_rotation peer ident s) [
        | none ↦ none
        | some r ↦ some (record r { status = committed })
      ]
unfolding hand_over
find_rotation-hand_over now peer key ident cert s =
    elim (Option-cases (find_rotation peer ident s)) [
      | inl e ↦ ground (
        arith,
        find-update (names peer ident) (names peer ident) (λ r. record r { status = committed })
            s.rotations (λ r. refl),
      )
      | inr (r, e) ↦ ground (
        arith,
        find-holds (names peer ident) {r = r} s.rotations e,
        find-update (names peer ident) (names peer ident) (λ r. record r { status = committed })
            s.rotations (λ r. refl),
      )
    ]

module _ (platform : Platform) where
  find_rotation-added :
      (peer ident digest fresh : String) (p : Proposal) (n : ℕ) (s : Store)
      → find_rotation peer ident s ≡ none
      → find_rotation peer ident (add_rotation platform peer ident digest p fresh n s)
        ≡ some (record { peer = peer; id = ident; hash = digest; proposal = p; status = prepared })
  unfolding add_rotation
  find_rotation-added peer ident digest fresh p n s h = ground (
    arith,
    eq_iff peer peer,
    eq_iff ident ident,
    find-insert (names peer ident)
        (record { peer = peer; id = ident; hash = digest; proposal = p; status = prepared })
        s.rotations,
  )

  committed_row :
      (now : ℕ) (peer key : String) (value : Json) (s t : Store) (reply : Fields)
      → (c : IsCommitted platform now peer key value s t reply)
      → (r : Rotation) × (find_rotation peer c.ident t ≡ some r)
        × (r.status ≡ committed)
        × (platform.fingerprint r.proposal.certificate ≡ some key)
  committed_row now peer key value s t reply c =
      let cert = c.row.proposal.certificate in
      let closed : Rotation = record c.row { status = committed } in
      elim (Bool-cases (is_prepared c.row.status)) [
        | inl waits ↦ (
          closed,
          ground (arith, c.after, c.found, find_rotation-hand_over now peer key c.ident cert s),
          refl,
          c.own,
        )
        | inr done ↦ (c.row, ground (arith, c.after, c.found), ground arith, c.own)
      ]

  commit_row_again :
      (later : ℕ) (peer key ident : String) (r : Rotation) (t : Store) (reply : Fields)
      → find_rotation peer ident t ≡ some r
      → r.status ≡ committed
      → platform.fingerprint r.proposal.certificate ≡ some key
      → platform.is_uuid ident ≡ true
      → (status_of platform peer ident t).0 ≡ ok reply
      → (remote_commit platform later peer key (str ident) t ≡ (ok reply, t))
        × (remote_status platform peer (str ident) t ≡ (ok reply, t))
  unfolding remote_commit remote_status commit_locked commit_row operation_id atomically
  commit_row_again later peer key ident r t reply found done own fits told =
      ground (arith, eq_iff key key, status_of-reads platform peer ident t)

  -- Once a commit of a rotation has answered, the same commit at any later time and `remote_status`
  -- give the same answer, and neither writes.
  pub commit_again :
      (now later : ℕ) (peer key : String) (value : Json) (s t : Store) (reply : Fields)
      → remote_commit platform now peer key value s ≡ (ok reply, t)
      → (remote_commit platform later peer key value t ≡ (ok reply, t))
        × (remote_status platform peer value t ≡ (ok reply, t))
  commit_again now later peer key value s t reply h =
      let c = remote_commit_ok platform now peer key value s t reply h in
      let (r, found, done, own) = committed_row now peer key value s t reply c in
      rw c.named (commit_row_again later peer key c.ident r t reply found done own c.fits c.told)

  add_rotation-device :
      (peer ident digest fresh : String) (p : Proposal) (n : ℕ) (s : Store)
      → (add_rotation platform peer ident digest p fresh n s).device ≡ s.device
  unfolding add_rotation
  add_rotation-device peer ident digest fresh p n s = refl

  -- What an accepted proposal leaves: its row with its digest, under the same receiver.
  Accepted-row :
      (peer key ident : String) (p : Proposal) (s t : Store)
      → Accepted platform peer key ident p s t
      → (t.device ≡ s.device)
        × ((r : Rotation) × (find_rotation peer ident t ≡ some r)
            × (r.hash ≡ platform.sha256 (platform.canonical p.body)))
  Accepted-row peer key ident p s t (inl (r, found, same, e)) =
      (ground arith, (r, ground arith, same))
  Accepted-row peer key ident p s t (inr (absent, new)) =
      let digest = platform.sha256 (platform.canonical p.body) in
      let u = add_rotation platform peer ident digest p new.fresh new.generation s in
      let row : Rotation = record {
        peer = peer;
        id = ident;
        hash = digest;
        proposal = p;
        status = prepared;
      } in
      (
        ap (λ (x : Store). x.device) new.after
            ∙ add_rotation-device peer ident digest new.fresh p new.generation s,
        (
          row,
          ap (find_rotation peer ident) new.after
              ∙ find_rotation-added peer ident digest new.fresh p new.generation s absent,
          refl,
        ),
      )

  prepare_row_again :
      (peer key ident : String) (p : Proposal) (value : Json) (r : Rotation) (t : Store)
      (reply : Fields)
      → read_proposal platform peer key value t ≡ (ok (ident, p), t)
      → find_rotation peer ident t ≡ some r
      → r.hash ≡ platform.sha256 (platform.canonical p.body)
      → (status_of platform peer ident t).0 ≡ ok reply
      → remote_prepare platform peer key value t ≡ (ok reply, t)
  unfolding remote_prepare prepare_locked atomically
  prepare_row_again peer key ident p value r t reply read found same told = ground (
    arith,
    eq_iff r.hash (platform.sha256 (platform.canonical p.body)),
    status_of-reads platform peer ident t,
  )

  -- Once a proposal has been accepted, the same proposal under the same key gets the same answer, and
  -- nothing is written.
  pub prepare_again :
      (peer key : String) (value : Json) (s t : Store) (reply : Fields)
      → remote_prepare platform peer key value s ≡ (ok reply, t)
      → remote_prepare platform peer key value t ≡ (ok reply, t)
  prepare_again peer key value s t reply h =
      let (ident, p, read, done, told) = remote_prepare_ok platform peer key value s t reply h in
      let (device, (r, found, same)) = Accepted-row peer key ident p s t done in
      let (_, kept, alike) = read_proposal-device platform peer key value s t device in
      prepare_row_again peer key ident p value r t reply (ground arith) found same told

  count_prepared-added :
      (q peer ident digest fresh : String) (p : Proposal) (n : ℕ) (s : Store)
      → exists (λ r. r.peer == peer && is_prepared r.status) s.rotations ≡ false
      → count_prepared q s ≤ 1
      → count_prepared q (add_rotation platform peer ident digest p fresh n s) ≤ 1
  unfolding add_rotation
  count_prepared-added q peer ident digest fresh p n s alone le =
      let row : Rotation = record {
        peer = peer;
        id = ident;
        hash = digest;
        proposal = p;
        status = prepared;
      } in
      elim (Option-cases (find (λ r. r.peer == peer && is_prepared r.status) s.rotations)) [
        | inr (r, e) ↦ ground arith
        | inl e ↦ elim (Bool-cases (peer == q)) [
          | inl own ↦
              subst
                (λ x.
                  count (λ r. r.peer == x && is_prepared r.status) (s.rotations ++ row ∷ []) ≤ 1)
                ((eq_iff peer q).0 own)
                (ground (
                  arith,
                  count-insert (λ r. r.peer == peer && is_prepared r.status) row s.rotations,
                  count-none (λ r. r.peer == peer && is_prepared r.status) s.rotations e,
                ))
          | inr other ↦
              ground
                (arith, count-insert (λ r. r.peer == q && is_prepared r.status) row s.rotations)
        ]
      ]

  count_prepared-hand_over :
      (q : String) (now : ℕ) (peer key ident cert : String) (s : Store)
      → count_prepared q (hand_over now peer key ident cert s) ≤ count_prepared q s
  unfolding hand_over
  count_prepared-hand_over q now peer key ident cert s =
      count-update (λ r. r.peer == q && is_prepared r.status) (names peer ident)
        (λ r. record r { status = committed }) s.rotations (λ r h. ground arith)

  kept_or_prepared :
      (peer key : String) (value : Json) (s : Store)
      → ((remote_prepare platform peer key value s).1 ≡ s)
        ⊎ ((reply : Fields) × (t : Store) × (remote_prepare platform peer key value s
              ≡ (ok reply, t)))
  unfolding remote_prepare atomically
  kept_or_prepared peer key value s =
      let (same, _, _) = read_proposal-device platform peer key value s s refl in
      elim (Outcome-cases (read_proposal platform peer key value s).0) [
        | inl (found, e) ↦
            let u = (read_proposal platform peer key value s).1 in
            elim (Outcome-cases (prepare_locked platform peer key found.0 found.1 u).0) [
              | inl (reply, e') ↦
                  inr (reply, (prepare_locked platform peer key found.0 found.1 u).1, ground arith)
              | inr (inl (x, e')) ↦ inl (ground arith)
              | inr (inr e') ↦ inl (ground arith)
            ]
        | inr (inl (x, e)) ↦ inl (ground arith)
        | inr (inr e) ↦ inl (ground arith)
      ]

  operation_id-same : (value : Json) (s : Store) → (operation_id platform value s).1 ≡ s
  unfolding operation_id
  operation_id-same value s = ground arith

  kept_or_committed :
      (now : ℕ) (peer key : String) (value : Json) (s : Store)
      → ((remote_commit platform now peer key value s).1 ≡ s)
        ⊎ ((reply : Fields) × (t : Store) × (remote_commit platform now peer key value s
              ≡ (ok reply, t)))
  unfolding remote_commit atomically
  kept_or_committed now peer key value s =
      let same = operation_id-same value s in
      elim (Outcome-cases (operation_id platform value s).0) [
        | inl (ident, e) ↦ elim (Outcome-cases (commit_locked platform now peer key ident s).0) [
          | inl (reply, e') ↦
              inr (reply, (commit_locked platform now peer key ident s).1, ground arith)
          | inr (inl (x, e')) ↦ inl (ground arith)
          | inr (inr e') ↦ inl (ground arith)
        ]
        | inr (inl (x, e)) ↦ inl (ground arith)
        | inr (inr e) ↦ inl (ground arith)
      ]

  Accepted-le-1 :
      (q peer key ident : String) (p : Proposal) (s t : Store)
      → Accepted platform peer key ident p s t
      → count_prepared q s ≤ 1
      → count_prepared q t ≤ 1
  Accepted-le-1 q peer key ident p s t (inl (r, found, same, e)) le = rw e le
  Accepted-le-1 q peer key ident p s t (inr (absent, new)) le =
      let digest = platform.sha256 (platform.canonical p.body) in
      rw new.after
        (count_prepared-added q peer ident digest new.fresh p new.generation s new.alone le)

  committed-le-1 :
      (q : String) (now : ℕ) (peer key : String) (value : Json) (s t : Store) (reply : Fields)
      → IsCommitted platform now peer key value s t reply
      → count_prepared q s ≤ 1
      → count_prepared q t ≤ 1
  committed-le-1 q now peer key value s t reply c le =
      let cert = c.row.proposal.certificate in
      elim (Bool-cases (is_prepared c.row.status)) [
        | inl waits ↦
            rw (c.after, waits)
              (omega (arith, le, count_prepared-hand_over q now peer key c.ident cert s))
        | inr done ↦ rw (c.after, done) le
      ]

  -- If a device has at most one prepared rotation, it has at most one after `remote_prepare` and after
  -- `remote_commit`, whatever they are given and whether or not they succeed.
  pub prepared-le-1 :
      (q peer key : String) (value : Json) (now : ℕ) (s : Store)
      → count_prepared q s ≤ 1
      → (count_prepared q (remote_prepare platform peer key value s).1 ≤ 1)
        × (count_prepared q (remote_commit platform now peer key value s).1 ≤ 1)
  prepared-le-1 q peer key value now s le = (
    elim (kept_or_prepared peer key value s) [
      | inl e ↦ rw e le
      | inr (reply, t, h) ↦
          let (ident, p, read, done, told) =
            remote_prepare_ok platform peer key value s t reply h in
          rw h (Accepted-le-1 q peer key ident p s t done le)
    ],
    elim (kept_or_committed now peer key value s) [
      | inl e ↦ rw e le
      | inr (reply, t, h) ↦ rw h (
          committed-le-1 q now peer key value s t reply
            (remote_commit_ok platform now peer key value s t reply h) le)
    ],
  )
