-- ===== src/Store/Pairing.antt =====
-- What every pairing method shares: `_pairing_charge_locked`, `_release_reservation_locked`,
-- `_expire_pairings_locked` and the transaction `_pairing_transaction` of `class Store`.
mod Tests
pub mod Charges
pub mod Rate
pub mod Standing
pub mod Transaction
use session_peer.Common.{
  ℕ, ◌+◌, ◌*◌, String, Bool, true, false, Option, none, some, List, [], ◌∷◌, ◌++◌, ◌==◌, string_eq,
  ◌&&◌, ◌||◌, not, ok, rejected, crash, pure, raise, raise_if, ◌>>=◌, ◌>>◌, ltb, leb, length, keep,
  map, is_some, if◌then◌else◌,
}
use session_peer.Common.Sql.{find, insert, update, delete, select, exists}
use session_peer.Common.Json.{Json, str}
use session_peer.Store.State.{
  Store, Action, Invite, Peer, PeerKey, Offer, OfferState, expired, Reservation, Limit, Scope,
  create, prepare, offer, same_scope, is_pending_peer, is_active, is_open_or_reserved,
  recovery_required, atomically,
}
use session_peer.Store.Keys.{find_peer}
use session_peer.Store.Reasons.{Reason, pairing_rate_limited}

abbrev pub find_invite : String → Store → Option Invite
find_invite ident s = find (λ i. i.id == ident) s.invites

abbrev pub find_offer : String → Store → Option Offer
find_offer ident s = find (λ o. o.id == ident) s.offers

-- `SELECT … FROM pairing_reservations WHERE peer=?`
abbrev pub find_owner : String → Store → Option Reservation
find_owner peer s = find (λ r. r.peer == peer) s.reservations

abbrev pub find_limit : Scope → Store → Option Limit
find_limit scope s = find (λ l. same_scope l.scope scope) s.limits

-- `[value for value in attempts if value > now-60]`
abbrev pub recent : ℕ → List ℕ → List ℕ
recent now = keep (λ value. ltb now (value + 60))

unfoldable pub attempts : Scope → Store → List ℕ
attempts scope s = elim (find_limit scope s) [ none ↦ [] | some l ↦ l.attempts ]

abbrev set_attempts : Scope → List ℕ → Store → Store
set_attempts scope values s = record s {
  limits =
      if is_some (find_limit scope s)
      then update (λ l. same_scope l.scope scope) (λ l. record l { attempts = values }) s.limits
      else insert (record { scope = scope; attempts = values }) s.limits;
}

-- `_pairing_charge_locked`: true means that the scope has used up its limit
unfoldable pub charge : Scope → ℕ → ℕ → Action Bool
unfolding attempts
charge scope limit now s =
    let values = recent now (attempts scope s) in
    if leb limit (length values)
    then (ok true, s)
    else (ok false, set_attempts scope (values ++ now ∷ []) s)

-- whether the reservation's peer is still pending
abbrev awaits : Reservation → Store → Bool
awaits row s = elim (find_peer row.peer s) [ none ↦ false | some p ↦ is_pending_peer p.status ]

release_row : Reservation → Store → Store
release_row row s = record s {
  peers =
      if awaits row s && row.created_peer then delete (λ p. p.id == row.peer) s.peers else s.peers;
  peer_keys =
      if awaits row s && row.created_key
      then delete (λ k. k.fingerprint == row.client_key && is_active k.status) s.peer_keys
      else s.peer_keys;
}

unfoldable pub release : String → Store → Store
unfolding release_row
release invitation s = elim (find (λ r. r.invitation == invitation) s.reservations) [
  | none ↦ s
  | some row ↦
      let t = release_row row s in
      record t { reservations = delete (λ r. r.invitation == invitation) t.reservations }
]

abbrev pub is_for : Option String → String → Bool
is_for none peer = false
is_for (some p) peer = p == peer

-- a reservation of a pending peer that has expired, with no live invitation behind it
abbrev is_stale : ℕ → Store → Reservation → Bool
is_stale now s r =
    exists (λ p. p.id == r.peer && is_pending_peer p.status && leb p.expires now) s.peers
    && not (
        exists (λ i. (i.id == r.invitation || is_for i.peer r.peer) && ltb now i.expires) s.invites)

release_each : List Reservation → Store → Store
release_each [] s = s
release_each (r ∷ rs) s = release_each rs (release r.invitation s)

expire_offer : ℕ → String → Store → Store
expire_offer now ident s = record s {
  offers =
      update (λ o. o.id == ident && is_open_or_reserved o.state)
        (λ o. record o { state = expired; terminal = some now }) s.offers;
}

unfoldable pub retire_invite : String → Store → Store
retire_invite ident s = record s {
  invites = update (λ i. i.id == ident) (λ i. record i { expires = 0 }) s.invites;
}

-- The rows come from one `SELECT` before the loop; `offers` are those of that moment.
expire_each : ℕ → List Offer → List Invite → Store → Store
unfolding expire_offer retire_invite
expire_each now offers [] s = s
expire_each now offers (i ∷ is) s =
    let t = expire_offer now i.id (release i.id s) in
    expire_each now offers is
      (if exists (λ o. o.id == i.id) offers then t else retire_invite i.id t)

-- pending peers of versions that had no reservations
abbrev is_abandoned : ℕ → Store → Peer → Bool
is_abandoned now s p =
    is_pending_peer p.status
    && leb p.expires now
    && not (exists (λ r. r.peer == p.id) s.reservations)
    && not (exists (λ i. is_for i.peer p.id && ltb now i.expires) s.invites)

drop_abandoned : ℕ → Store → Store
drop_abandoned now s = record s { peers = delete (is_abandoned now s) s.peers }

abbrev is_old : ℕ → Offer → Bool
is_old now o = elim o.terminal [ none ↦ false | some t ↦ ltb (t + 7 * 86400) now ]

forget_each : List Offer → Store → Store
forget_each [] s = s
forget_each (o ∷ os) s = forget_each os (record s {
  invites = delete (λ i. i.id == o.id) s.invites;
  offers = delete (λ p. p.id == o.id) s.offers;
  limits = delete (λ l. same_scope l.scope (offer o.id)) s.limits;
})

-- `_expire_pairings_locked`, its four loops in turn
release_stale : ℕ → Store → Store
unfolding release_each
release_stale now s = release_each (select (is_stale now s) s.reservations) s

expire_invites : ℕ → Store → Store
unfolding expire_each
expire_invites now s =
    expire_each now s.offers (select (λ i. leb i.expires now && ltb 0 i.expires) s.invites) s

forget_offers : ℕ → Store → Store
unfolding forget_each
forget_offers now s = forget_each (select (is_old now) s.offers) s

unfoldable pub expire_pairings : ℕ → Store → Store
unfolding release_stale expire_invites drop_abandoned forget_offers
expire_pairings now s =
    forget_offers now (drop_abandoned now (expire_invites now (release_stale now s)))

-- The `creation`, `attempt` and `read_only_quarantine` arguments; `attempt` is absent or any value.
pub record Mode : Type 0 where
  pub creation : Bool
  pub attempt : Option Json
  pub read_only : Bool

abbrev pub plain : Mode
plain = record { creation = false; attempt = none; read_only = false }

abbrev charge_or_raise : Scope → ℕ → ℕ → Action Unit
charge_or_raise scope limit now = do
  full ← charge scope limit now
  raise_if full pairing_rate_limited

charge_offer : Json → ℕ → Action Unit
charge_offer (str ident) now s =
    if is_some (find_offer ident s) then charge_or_raise (offer ident) 8 now s else pure tt s
charge_offer _ now s = pure tt s

charge_attempt : Option Json → ℕ → Action Unit
unfolding charge_offer
charge_attempt none now = pure tt
charge_attempt (some value) now = do charge_or_raise prepare 32 now; charge_offer value now

pub admit : Mode → ℕ → Action Unit
unfolding charge_attempt
admit mode now =
    (if mode.creation then charge_or_raise create 5 now else pure tt)
    >> charge_attempt mode.attempt now

-- `SAVEPOINT`, the body, then `RELEASE`; `ROLLBACK TO` it on `Rejected`, and to `before` otherwise
abbrev with_savepoint : {A : Type 0} → Store → Action A → Action A
with_savepoint before body s =
    let (r, t) = body s in
    elim r [ ok a ↦ (ok a, t) | rejected e ↦ (rejected e, s) | crash ↦ (crash, before) ]

-- Under quarantine a body that is let in commits also what it wrote before a `Rejected`.
abbrev quarantined : {A : Type 0} → Action A → Action A
quarantined body s =
    let (r, t) = body s in
    elim r [ ok a ↦ (ok a, t) | rejected e ↦ (rejected e, t) | crash ↦ (crash, s) ]

unfoldable pub pairing_transaction : {A : Type 0} → Mode → ℕ → Action A → Action A
unfolding admit
pairing_transaction mode now body s =
    if recovery_required s
    then (if mode.read_only then quarantined body s else raise Reason.recovery_required s)
    else let (r, t) = admit mode now (expire_pairings now s) in
      elim r [ ok _ ↦ with_savepoint s body t | rejected e ↦ (rejected e, t) | crash ↦ (crash, s) ]
