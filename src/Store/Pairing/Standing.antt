-- ===== src/Store/Pairing/Standing.antt =====
-- A device's standing: paired, revoked, or neither. Pairing that is under way, and its expiry, never
-- touch it.
use session_peer.Common.{
  ℕ, String, ◌≡◌, refl, ap, ◌∙◌, Bool, true, Option, none, some, List, [], ◌∷◌, ◌++◌, ◌==◌,
  string_eq, eq_iff, ◌&&◌, arith, Option-cases, Bool-cases, inl, inr, ltb, leb, if◌then◌else◌,
}
use session_peer.Common.Sql.{
  exists, find, update, delete, select, find-insert, find-delete_self, find-delete_ne, find-update,
}
use session_peer.Store.State.{Store, Peer, PeerStatus, is_pending_peer, Reservation, Invite, Offer}
use session_peer.Store.Keys.{find_peer}
use session_peer.Store.Pairing.{
  is_stale, is_old, expire_offer, retire_invite, release_row, release, release_each, expire_each,
  drop_abandoned, is_abandoned, forget_each, release_stale, expire_invites, expire_pairings,
}

abbrev pub settled : Option Peer → Option PeerStatus
settled none = none
settled (some p) = if is_pending_peer p.status then none else some p.status

abbrev pub standing : String → Store → Option PeerStatus
standing q s = settled (find_peer q s)

-- `id TEXT PRIMARY KEY` of the table `peers`
abbrev pub IsKeyed : List Peer → Type 0
IsKeyed [] = Unit
IsKeyed (p ∷ ps) = (find (λ r. r.id == p.id) ps ≡ none) × IsKeyed ps

find-delete-none :
    (p q : Peer → Bool) (rs : List Peer) → find q rs ≡ none → find q (delete p rs) ≡ none
unfolding find delete
find-delete-none p q [] h = refl
find-delete-none p q (x ∷ rs) h = ground (arith, find-delete-none p q rs)

pub delete-IsKeyed : (p : Peer → Bool) (rs : List Peer) → IsKeyed rs → IsKeyed (delete p rs)
unfolding delete
delete-IsKeyed p [] h = tt
delete-IsKeyed p (x ∷ rs) h =
    ground (arith, delete-IsKeyed p rs h.1, find-delete-none p (λ r. r.id == x.id) rs h.0)

pub insert-IsKeyed :
    (p : Peer) (rs : List Peer)
    → IsKeyed rs
    → find (λ r. r.id == p.id) rs ≡ none
    → IsKeyed (rs ++ p ∷ [])
unfolding find
insert-IsKeyed p [] h new = (refl, tt)
insert-IsKeyed p (x ∷ rs) h new = ground (
  arith,
  insert-IsKeyed p rs h.1,
  find-insert (λ r. r.id == x.id) p rs,
  eq_iff x.id p.id,
  eq_iff p.id x.id,
)

pub update-IsKeyed :
    (p : Peer → Bool) (f : Peer → Peer) (rs : List Peer)
    → ((r : Peer) → (f r).id ≡ r.id)
    → IsKeyed rs
    → IsKeyed (update p f rs)
unfolding update
update-IsKeyed p f [] same h = tt
update-IsKeyed p f (x ∷ rs) same h = ground (
  arith,
  same x,
  update-IsKeyed p f rs same h.1,
  find-update p (λ r. r.id == x.id) f rs (λ r. ap (λ i. i == x.id) (same r)),
)

-- A deletion of pending rows.
settled-delete :
    (p : Peer → Bool) (q : String) (rs : List Peer)
    → IsKeyed rs
    → ((r : Peer) → p r ≡ true → is_pending_peer r.status ≡ true)
    → settled (find (λ r. r.id == q) (delete p rs)) ≡ settled (find (λ r. r.id == q) rs)
unfolding find delete
settled-delete p q [] h pend = refl
settled-delete p q (x ∷ rs) h pend = ground (
  arith,
  pend x,
  eq_iff x.id q,
  settled-delete p q rs h.1 pend,
  find-delete-none p (λ r. r.id == x.id) rs h.0,
)

-- From `s` to `t` the table stays keyed, and no device's standing changes.
pub record IsQuiet (s t : Store) : Type 0 where
  pub keyed : IsKeyed s.peers → IsKeyed t.peers
  pub same : IsKeyed s.peers → (q : String) → standing q t ≡ standing q s

pub IsQuiet-same : (s t : Store) → t.peers ≡ s.peers → IsQuiet s t
IsQuiet-same s t e = record { keyed = λ k. rw e k; same = λ k q. rw e }

pub IsQuiet-trans : (s t u : Store) → IsQuiet s t → IsQuiet t u → IsQuiet s u
IsQuiet-trans s t u a b = record {
  keyed = λ k. b.keyed (a.keyed k);
  same = λ k q. b.same (a.keyed k) q ∙ a.same k q;
}

-- The row of a pending device goes.
settled-delete_pending :
    (peer q : String) (row : Peer) (s : Store)
    → find_peer peer s ≡ some row
    → is_pending_peer row.status ≡ true
    → settled (find (λ p. p.id == q) (delete (λ p. p.id == peer) s.peers)) ≡ standing q s
settled-delete_pending peer q row s found pend = elim (Bool-cases (peer == q)) [
  | inl e ↦
      rw (← (eq_iff peer q).0 e) (ground (arith, find-delete_self (λ p. p.id == peer) s.peers))
  | inr e ↦ ap settled (
      find-delete_ne (λ p. p.id == peer) (λ p. p.id == q) s.peers
        (λ r h. ground (arith, eq_iff r.id q, eq_iff r.id peer, eq_iff peer q)))
]

release_row-IsQuiet : (row : Reservation) (s : Store) → IsQuiet s (release_row row s)
unfolding release_row
release_row-IsQuiet row s = elim (Option-cases (find_peer row.peer s)) [
  | inl e ↦ IsQuiet-same s (release_row row s) (ground arith)
  | inr (p, e) ↦ record {
    keyed = λ k. ground (arith, delete-IsKeyed (λ p. p.id == row.peer) s.peers k);
    same = λ k q. ground (arith, settled-delete_pending row.peer q p s e);
  }
]

pub release-IsQuiet : (invitation : String) (s : Store) → IsQuiet s (release invitation s)
unfolding release
release-IsQuiet invitation s =
    elim (Option-cases (find (λ r. r.invitation == invitation) s.reservations)) [
      | inl e ↦ IsQuiet-same s (release invitation s) (ground arith)
      | inr (row, e) ↦
          IsQuiet-trans s (release_row row s) (release invitation s) (release_row-IsQuiet row s)
            (IsQuiet-same (release_row row s) (release invitation s) (ground arith))
    ]

release_each-IsQuiet : (rs : List Reservation) (s : Store) → IsQuiet s (release_each rs s)
unfolding release_each
release_each-IsQuiet [] s = IsQuiet-same s s refl
release_each-IsQuiet (r ∷ rs) s =
    let t = release r.invitation s in
    IsQuiet-trans s t (release_each rs t) (release-IsQuiet r.invitation s)
      (release_each-IsQuiet rs t)

expire_each-IsQuiet :
    (now : ℕ) (offers : List Offer) (is : List Invite) (s : Store)
    → IsQuiet s (expire_each now offers is s)
unfolding expire_each
expire_each-IsQuiet now offers [] s = IsQuiet-same s s refl
expire_each-IsQuiet now offers (i ∷ is) s =
    let t = release i.id s in
    let u =
      if exists (λ o. o.id == i.id) offers
      then expire_offer now i.id t
      else retire_invite i.id (expire_offer now i.id t) in
    IsQuiet-trans s t (expire_each now offers is u) (release-IsQuiet i.id s) (
      IsQuiet-trans t u (expire_each now offers is u) (IsQuiet-same t u (ground arith))
        (expire_each-IsQuiet now offers is u))

drop_abandoned-IsQuiet : (now : ℕ) (s : Store) → IsQuiet s (drop_abandoned now s)
unfolding drop_abandoned
drop_abandoned-IsQuiet now s = record {
  keyed = delete-IsKeyed (is_abandoned now s) s.peers;
  same = λ k q. settled-delete (is_abandoned now s) q s.peers k (λ r h. ground arith);
}

forget_each-peers : (os : List Offer) (s : Store) → (forget_each os s).peers ≡ s.peers
unfolding forget_each
forget_each-peers [] s = refl
forget_each-peers (o ∷ os) s = forget_each-peers os _

pub expire_pairings-IsQuiet : (now : ℕ) (s : Store) → IsQuiet s (expire_pairings now s)
unfolding expire_pairings
expire_pairings-IsQuiet now s =
    let t = release_stale now s in
    let u = expire_invites now t in
    let v = drop_abandoned now u in
    IsQuiet-trans s t (expire_pairings now s)
      (release_each-IsQuiet (select (is_stale now s) s.reservations) s)
      (IsQuiet-trans t u (expire_pairings now s)
        (expire_each-IsQuiet now t.offers
          (select (λ i. leb i.expires now && ltb 0 i.expires) t.invites) t)
        (IsQuiet-trans u v (expire_pairings now s) (drop_abandoned-IsQuiet now u) (
          IsQuiet-same v (expire_pairings now s)
            (forget_each-peers (select (is_old now) v.offers) v))))

-- On a table of peers with unique identifiers, `_expire_pairings_locked` changes the standing of no
-- device, whatever the clock says: it removes no paired and no revoked device.
pub standing-expire_pairings :
    (now : ℕ) (s : Store) (q : String)
    → IsKeyed s.peers
    → standing q (expire_pairings now s) ≡ standing q s
standing-expire_pairings now s q k = (expire_pairings-IsQuiet now s).same k q
