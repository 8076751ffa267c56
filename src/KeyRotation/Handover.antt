-- ===== src/KeyRotation/Handover.antt =====
-- What a rotation's commit does to the keys of its device.
use session_peer.Common.{
  ℕ, ◌+◌, String, ◌≡◌, ◌≢◌, refl, true, none, some, ◌==◌, string_eq, eq_iff, ◌&&◌, arith, ok,
  rejected, inl, inr, Option-cases, ltb, if◌then◌else◌,
}
use session_peer.Common.Sql.{update, find-update, find-holds}
use session_peer.Common.Json.{Json, Fields, str}
use session_peer.Store.State.{
  atomically, Store, PeerKey, active, retired, Rotation, prepared, Platform, is_active,
}
use session_peer.Store.Keys.{find_key, principal, key_status}
use session_peer.Store.Reasons.{retired_key}
use session_peer.KeyRotation.{
  is_prepared, find_rotation, hand_over, operation_id, status_of, commit_locked, commit_row,
  remote_commit,
}

-- a key after the device's active keys are retired and `key` is made active
abbrev handed : ℕ → String → String → PeerKey → PeerKey
handed now peer key k =
    let j =
      if k.principal == peer && is_active k.status
      then record k { status = retired; expires = now + 600 }
      else k in
    if j.fingerprint == key then record j { status = active; expires = 0 } else j

find_key-hand_over :
    (now : ℕ) (peer key ident cert other : String) (s : Store)
    → find_key other (hand_over now peer key ident cert s)
      ≡ elim (find_key other s) [ none ↦ none | some k ↦ some (handed now peer key k) ]
unfolding hand_over
find_key-hand_over now peer key ident cert other s = ground (
  arith,
  find-update (λ k. k.principal == peer && is_active k.status) (λ k. k.fingerprint == other)
      (λ k. record k { status = retired; expires = now + 600 }) s.peer_keys (λ k. refl),
  find-update (λ k. k.fingerprint == key) (λ k. k.fingerprint == other)
      (λ k. record k { status = active; expires = 0 })
      (update (λ k. k.principal == peer && is_active k.status)
        (λ k. record k { status = retired; expires = now + 600 }) s.peer_keys)
      (λ k. refl),
)

module _ (platform : Platform) where
  pub status_of-reads : (peer ident : String) (s : Store) → (status_of platform peer ident s).1 ≡ s
  unfolding status_of
  status_of-reads peer ident s = ground arith

  -- A commit that answers has found its rotation, whose certificate is of the presenting key, and
  -- has handed the device over to that key if it was still prepared.
  pub record IsCommitted (now : ℕ) (peer key : String) (value : Json) (s t : Store) (reply : Fields)
      : Type 0 where
    pub ident : String
    pub named : value ≡ str ident
    pub fits : platform.is_uuid ident ≡ true
    pub row : Rotation
    pub found : find_rotation peer ident s ≡ some row
    pub own : platform.fingerprint row.proposal.certificate ≡ some key
    pub after : t ≡ (
        if is_prepared row.status
        then hand_over now peer key ident row.proposal.certificate s
        else s)
    pub told : (status_of platform peer ident t).0 ≡ ok reply

  commit_row_ok :
      (now : ℕ) (peer key ident : String) (r : Rotation) (s t : Store) (reply : Fields)
      → commit_row platform now peer key ident r s ≡ (ok reply, t)
      → (platform.fingerprint r.proposal.certificate ≡ some key)
        × (t ≡ (
            if is_prepared r.status
            then hand_over now peer key ident r.proposal.certificate s
            else s))
        × ((status_of platform peer ident t).0 ≡ ok reply)
  unfolding commit_row
  commit_row_ok now peer key ident r s t reply h =
      let u =
        if is_prepared r.status then hand_over now peer key ident r.proposal.certificate s else s in
      elim (Option-cases (platform.fingerprint r.proposal.certificate)) [
        | inl e ↦ ground arith
        | inr (own, e) ↦ ground (arith, eq_iff key own, status_of-reads peer ident u)
      ]

  pub remote_commit_ok :
      (now : ℕ) (peer key : String) (value : Json) (s t : Store) (reply : Fields)
      → remote_commit platform now peer key value s ≡ (ok reply, t)
      → IsCommitted now peer key value s t reply
  unfolding remote_commit operation_id commit_locked atomically
  remote_commit_ok now peer key (str ident) s t reply h =
      elim (Option-cases (find_rotation peer ident s)) [
        | inl e ↦ ground arith
        | inr (r, e) ↦
            let fits : platform.is_uuid ident ≡ true = ground arith in
            let done = commit_row_ok now peer key ident r s t reply (ground arith) in
            record {
              ident = ident;
              named = refl;
              fits = fits;
              row = r;
              found = e;
              own = done.0;
              after = done.1;
              told = done.2;
            }
      ]
  remote_commit_ok now peer key _ s t reply h = ground arith

  handed_from :
      (now : ℕ) (peer key ident : String) (row : Rotation) (s t : Store) (reply : Fields)
      → find_rotation peer ident s ≡ some row
      → row.status ≡ prepared
      → IsCommitted now peer key (str ident) s t reply
      → t ≡ hand_over now peer key ident row.proposal.certificate s
  handed_from now peer key ident row s t reply found waits c =
      let same : ident ≡ c.ident = ground arith in ground arith

  find_holds_key :
      (key : String) (k : PeerKey) (s : Store) → find_key key s ≡ some k → k.fingerprint ≡ key
  find_holds_key key k s h =
      (eq_iff k.fingerprint key).0 (find-holds (λ j. j.fingerprint == key) {r = k} s.peer_keys h)

  handed_over :
      (now : ℕ) (peer key ident : String) (row : Rotation) (s t : Store) (reply : Fields)
      → remote_commit platform now peer key (str ident) s ≡ (ok reply, t)
      → find_rotation peer ident s ≡ some row
      → row.status ≡ prepared
      → t ≡ hand_over now peer key ident row.proposal.certificate s
  handed_over now peer key ident row s t reply h found waits =
      handed_from now peer key ident row s t reply found waits
        (remote_commit_ok now peer key (str ident) s t reply h)

  -- Once a prepared rotation is committed, no key of the device is active but the one that presented
  -- the commit.
  pub one_active_key :
      (now : ℕ) (peer key ident other : String) (row : Rotation) (k : PeerKey) (s t : Store)
      (reply : Fields)
      → remote_commit platform now peer key (str ident) s ≡ (ok reply, t)
      → find_rotation peer ident s ≡ some row
      → row.status ≡ prepared
      → find_key other t ≡ some k
      → k.principal ≡ peer
      → k.status ≡ active
      → other ≡ key
  one_active_key now peer key ident other row k s t reply h found waits at own live =
      let after = handed_over now peer key ident row s t reply h found waits in
      let cert = row.proposal.certificate in
      elim (Option-cases (find_key other s)) [
        | inl e ↦ ground (arith, find_key-hand_over now peer key ident cert other s)
        | inr (j, e) ↦ ground (
          arith,
          find_key-hand_over now peer key ident cert other s,
          find_holds_key other j s e,
          eq_iff j.fingerprint key,
          eq_iff j.principal peer,
        )
      ]

  -- Once a prepared rotation is committed, another key of the device that was active is retired: it
  -- still stands for the device up to 600 seconds after the commit, and is refused later.
  pub old_key_ends :
      (now later : ℕ) (peer key ident old : String) (row : Rotation) (k : PeerKey) (s t : Store)
      (reply : Fields)
      → remote_commit platform now peer key (str ident) s ≡ (ok reply, t)
      → find_rotation peer ident s ≡ some row
      → row.status ≡ prepared
      → find_key old s ≡ some k
      → k.principal ≡ peer
      → k.status ≡ active
      → old ≢ key
      → (key_status old t ≡ retired)
        × (principal later old t
            ≡ ((if ltb (now + 600) later then rejected retired_key else ok peer), t))
  unfolding key_status principal
  old_key_ends now later peer key ident old row k s t reply h found waits at own live ne =
      let after = handed_over now peer key ident row s t reply h found waits in
      let cert = row.proposal.certificate in
      ground (
        arith,
        find_key-hand_over now peer key ident cert old s,
        find_holds_key old k s at,
        eq_iff k.fingerprint key,
        eq_iff k.principal peer,
      )
