-- ===== src/Store/Trust.antt =====
-- The methods of `class Store` that write to the tables of trust, as the operations that handlers and
-- the command line run one after another, each with its own arguments and readings of the clock.
use session_peer.Common.{
  ℕ, String, ◌≡◌, ◌≢◌, refl, ap, ◌∙◌, Bool, true, false, Option, none, some, List, [], ◌∷◌, ◌==◌,
  eq_iff, string_eq, arith, ◌⊎◌, inl, inr, Option-cases, Bool-cases, ok,
}
use session_peer.Common.Json.{Json}
use session_peer.Store.State.{Store, Peer, PeerStatus, paired, Invitation, Platform, active}
use session_peer.Store.Keys.{find_peer, principal, key_status, revoke}
use session_peer.Store.Keys.Access.{find_peer-revoke, find_peer-id}
use session_peer.Store.Pairing.{plain}
use session_peer.Store.Pairing.Standing.{
  standing, IsKeyed, IsQuiet, release-IsQuiet, update-IsKeyed,
}
use session_peer.Store.Pairing.Transaction.{
  started, started-IsQuiet, transaction-cases, transaction-IsQuiet,
}
use session_peer.Store.Offers
use session_peer.Store.Offers.Quiet.{
  create_offer_locked-IsQuiet, cancel_offer_locked-IsQuiet, invite_locked-IsQuiet,
}
use session_peer.Store.Prepare
use session_peer.Store.Prepare.Accept.{prepare_value-IsQuiet}
use session_peer.Store.Commit
use session_peer.Store.Commit.{Call, key_of, can_commit, commit_locked}
use session_peer.Store.Commit.Pairs.{commit_pairs, commit_locked-IsKeyed}
use session_peer.Store.Remember
use session_peer.Store.Remember.{remember_locked, is_pinned}
use session_peer.Store.Remember.Standing.{
  stage_locked-IsQuiet, remember_pairs, remember_locked-IsKeyed,
}

pub data Operation : Type 0 where
  invite : ℕ → Offers.Draw → Json → Operation
  create_offer :
      ℕ → Offers.Draw → ℕ → Json → String → Option String → Option Offers.Identity → Operation
  cancel_offer : ℕ → ℕ → String → Operation
  prepare : ℕ → Prepare.Readings → Json → Operation
  commit : ℕ → Call → Commit.Readings → Operation
  stage : ℕ → Invitation → Operation
  discard : ℕ → String → Operation
  remember : ℕ → Invitation → Operation
  revoke_peer : String → Operation

revoked_standing :
    (peer q : String) (s : Store)
    → peer ≡ q
    → standing q (revoke peer s).1
      ≡ elim (find_peer q s) [ none ↦ none | some _ ↦ some PeerStatus.revoked ]
revoked_standing peer q s e = elim (Option-cases (find_peer q s)) [
  | inl absent ↦ ground (arith, find_peer-revoke peer q s)
  | inr (row, found) ↦
      ground (arith, find_peer-revoke peer q s, find_peer-id q row s found, eq_iff row.id peer)
]

kept_standing :
    (peer q : String) (s : Store)
    → (peer == q) ≡ false
    → standing q (revoke peer s).1 ≡ standing q s
kept_standing peer q s ne = elim (Option-cases (find_peer q s)) [
  | inl absent ↦ ground (arith, find_peer-revoke peer q s)
  | inr (row, found) ↦ ground (
    arith,
    find_peer-revoke peer q s,
    find_peer-id q row s found,
    eq_iff row.id peer,
    eq_iff peer q,
  )
]

module _ (platform : Platform) (encodes : Invitation → String → Bool) where
  -- The state after one operation, whether it answers, is refused or crashes.
  pub apply : Operation → Store → Store
  apply (invite now draw routes) s = (Offers.invite platform now draw routes s).1
  apply (create_offer now draw created routes key ident expected) s =
      (Offers.create_offer platform encodes now draw created routes key ident expected s).1
  apply (cancel_offer now terminal ident) s = (Offers.cancel_offer now terminal ident s).1
  apply (prepare now at request) s = (Prepare.prepare platform now at request s).1
  apply (commit now call at) s = (Commit.commit platform now call at s).1
  apply (stage now i) s = (Remember.stage platform now i s).1
  apply (discard now ident) s = (Remember.discard_pairing_stage now ident s).1
  apply (remember now i) s = (Remember.remember platform now i s).1
  apply (revoke_peer peer) s = (revoke peer s).1

  pub apply_all : List Operation → Store → Store
  apply_all [] s = s
  apply_all (op ∷ ops) s = apply_all ops (apply op s)

  abbrev pub MayPair : Operation → Store → String → Type 0
  -- a commit by an active key that is bound to the device
  MayPair (commit now call at) s q =
      (u : Store) × (standing q u ≡ standing q s)
      × (principal at.for_key (key_of call) u ≡ (ok q, u))
      × (key_status (key_of call) u ≡ active)
      × ((row : Peer) × (find_peer q u ≡ some row) × (can_commit at.for_row row ≡ true))
  -- a confirmed invitation of the device, under the pinned certificate
  MayPair (remember now i) s q =
      (q ≡ i.device)
      × (standing q s ≢ some PeerStatus.revoked)
      × ((key : String) × (platform.fingerprint i.certificate ≡ some key)
          × (is_pinned i key ≡ true))
  MayPair _ s q = ⊥

  -- how an operation may change a device's standing
  abbrev pub Changes : Operation → Store → String → Type 0
  Changes op s q =
      (standing q (apply op s) ≡ standing q s)
      ⊎ ((standing q (apply op s) ≡ some paired) × MayPair op s q)
      ⊎ ((op ≡ revoke_peer q)
          × (standing q (apply op s)
              ≡ elim (find_peer q s) [ none ↦ none | some _ ↦ some PeerStatus.revoked ]))

  -- The operations that only prepare a pairing, or give one up.
  abbrev pub IsPreparatory : Operation → Type 0
  IsPreparatory (commit _ _ _) = ⊥
  IsPreparatory (remember _ _) = ⊥
  IsPreparatory (revoke_peer _) = ⊥
  IsPreparatory _ = Unit

  quiet : (op : Operation) (s : Store) → IsPreparatory op → IsQuiet s (apply op s)
  unfolding apply Offers.invite Offers.create_offer Offers.cancel_offer Prepare.prepare
      Remember.stage Remember.discard_pairing_stage
  quiet (invite now draw routes) s _ =
      transaction-IsQuiet _ now _ s (λ u. invite_locked-IsQuiet platform draw routes none u)
  quiet (create_offer now draw created routes key ident expected) s _ =
      transaction-IsQuiet _ now _ s
        (λ u. create_offer_locked-IsQuiet platform encodes draw created routes key ident expected u)
  quiet (cancel_offer now terminal ident) s _ =
      transaction-IsQuiet _ now _ s (λ u. cancel_offer_locked-IsQuiet terminal ident u)
  quiet (prepare now at request) s _ =
      transaction-IsQuiet _ now _ s (λ u. prepare_value-IsQuiet platform at request u)
  quiet (stage now i) s _ = transaction-IsQuiet _ now _ s (λ u. stage_locked-IsQuiet platform i u)
  quiet (discard now ident) s _ = transaction-IsQuiet _ now _ s (λ u. release-IsQuiet ident u)
  quiet (commit _ _ _) s h = absurd h
  quiet (remember _ _) s h = absurd h
  quiet (revoke_peer _) s h = absurd h

  commit_changes :
      (now : ℕ) (call : Call) (at : Commit.Readings) (s u : Store) (q : String)
      → standing q u ≡ standing q s
      → let t = (commit_locked platform call at u).1 in
        (standing q t ≡ standing q s)
        ⊎ ((standing q t ≡ some paired) × MayPair (commit now call at) s q)
  commit_changes now call at s u q same = elim (commit_pairs platform call at u q) [
    | inl e ↦ inl (e ∙ same)
    | inr (e, bound, live, row) ↦ inr (e, (u, same, bound, live, row))
  ]

  remember_changes :
      (now : ℕ) (i : Invitation) (s u : Store) (q : String)
      → standing q u ≡ standing q s
      → let t = (remember_locked platform i u).1 in
        (standing q t ≡ standing q s)
        ⊎ ((standing q t ≡ some paired) × MayPair (remember now i) s q)
  remember_changes now i s u q same = elim (remember_pairs platform i u q) [
    | inl e ↦ inl (e ∙ same)
    | inr (e, own, live, pin) ↦ inr (e, (own, λ r. live (same ∙ r), pin))
  ]

  weaken : {A B C : Type 0} → A ⊎ B → A ⊎ B ⊎ C
  weaken (inl a) = inl a
  weaken (inr b) = inr (inl b)

  -- On a table of peers with unique identifiers, one operation leaves a device's standing as it was, or
  -- pairs the device by a commit under an active key that is bound to it or by a remembered invitation
  -- of it under the pinned certificate, or is the device's own revocation.
  pub apply-Changes : (op : Operation) (s : Store) (q : String) → IsKeyed s.peers → Changes op s q
  unfolding apply Commit.commit Remember.remember
  apply-Changes (commit now call at) s q k =
      let u = started plain now s in
      let same = (started-IsQuiet plain now s).same k q in
      elim (transaction-cases plain now (commit_locked platform call at) s) [
        | inl e ↦ inl (ap (standing q) e)
        | inr (inl e) ↦ weaken (rw e (commit_changes now call at s s q refl))
        | inr (inr (inl e)) ↦ inl (ap (standing q) e ∙ same)
        | inr (inr (inr e)) ↦ weaken (rw e (commit_changes now call at s u q same))
      ]
  apply-Changes (remember now i) s q k =
      let u = started plain now s in
      let same = (started-IsQuiet plain now s).same k q in
      elim (transaction-cases plain now (remember_locked platform i) s) [
        | inl e ↦ inl (ap (standing q) e)
        | inr (inl e) ↦ weaken (rw e (remember_changes now i s s q refl))
        | inr (inr (inl e)) ↦ inl (ap (standing q) e ∙ same)
        | inr (inr (inr e)) ↦ weaken (rw e (remember_changes now i s u q same))
      ]
  apply-Changes (revoke_peer peer) s q k = elim (Bool-cases (peer == q)) [
    | inl own ↦ inr (
        inr (
          ap revoke_peer ((eq_iff peer q).0 own),
          revoked_standing peer q s ((eq_iff peer q).0 own),
        ))
    | inr other ↦ inl (kept_standing peer q s other)
  ]
  apply-Changes op s q k = inl ((quiet op s tt).same k q)

  apply-IsKeyed : (op : Operation) (s : Store) → IsKeyed s.peers → IsKeyed (apply op s).peers
  unfolding apply Commit.commit Remember.remember revoke
  apply-IsKeyed (commit now call at) s k =
      let u = started plain now s in
      elim (transaction-cases plain now (commit_locked platform call at) s) [
        | inl e ↦ rw e k
        | inr (inl e) ↦ rw e (commit_locked-IsKeyed platform call at s k)
        | inr (inr (inl e)) ↦ rw e ((started-IsQuiet plain now s).keyed k)
        | inr (inr (inr e)) ↦
            rw e (commit_locked-IsKeyed platform call at u ((started-IsQuiet plain now s).keyed k))
      ]
  apply-IsKeyed (remember now i) s k =
      let u = started plain now s in
      elim (transaction-cases plain now (remember_locked platform i) s) [
        | inl e ↦ rw e k
        | inr (inl e) ↦ rw e (remember_locked-IsKeyed platform i s k)
        | inr (inr (inl e)) ↦ rw e ((started-IsQuiet plain now s).keyed k)
        | inr (inr (inr e)) ↦
            rw e (remember_locked-IsKeyed platform i u ((started-IsQuiet plain now s).keyed k))
      ]
  apply-IsKeyed (revoke_peer peer) s k =
      update-IsKeyed (λ p. p.id == peer) (λ p. record p { status = PeerStatus.revoked }) s.peers
        (λ p. refl) k
  apply-IsKeyed op s k = (quiet op s tt).keyed k

  -- A commit does not pair a revoked device.
  revoked_cannot :
      (op : Operation) (s : Store) (q : String)
      → standing q s ≡ some PeerStatus.revoked
      → MayPair op s q
      → ⊥
  revoked_cannot (commit now call at) s q h (u, same, _, _, (row, found, can)) = ground arith
  revoked_cannot (remember now i) s q h (_, live, _) = live h
  revoked_cannot (invite _ _ _) s q h m = m
  revoked_cannot _ s q h m = m

  still_revoked :
      (op : Operation) (s : Store) (q : String)
      → standing q s ≡ some PeerStatus.revoked
      → Changes op s q
      → standing q (apply op s) ≡ some PeerStatus.revoked
  still_revoked op s q h (inl e) = e ∙ h
  still_revoked op s q h (inr (inl (e, may))) = absurd (revoked_cannot op s q h may)
  still_revoked op s q h (inr (inr (e, e'))) = ground arith

  -- On a table of peers with unique identifiers, a revoked device stays revoked, whatever
  -- operations of the type `Operation` follow and whatever the clocks read.
  pub revoked_is_final :
      (ops : List Operation) (s : Store) (q : String)
      → IsKeyed s.peers
      → standing q s ≡ some PeerStatus.revoked
      → standing q (apply_all ops s) ≡ some PeerStatus.revoked
  unfolding apply_all
  revoked_is_final [] s q k h = h
  revoked_is_final (op ∷ ops) s q k h =
      revoked_is_final ops (apply op s) q (apply-IsKeyed op s k)
        (still_revoked op s q h (apply-Changes op s q k))
