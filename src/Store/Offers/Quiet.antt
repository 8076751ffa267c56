-- ===== src/Store/Offers/Quiet.antt =====
-- Offers and invitations leave the table of peers alone, but for what a cancelled offer had reserved.
use session_peer.Common.{ℕ, String, ◌≡◌, refl, Bool, Option, none, some, arith, ◌⊎◌, inl, inr}
use session_peer.Common.Json.{Json}
use session_peer.Store.State.{Store, Invitation, Offer, Platform}
use session_peer.Store.Pairing.{release, retire_invite}
use session_peer.Store.Pairing.Standing.{IsQuiet, IsQuiet-same, IsQuiet-trans, release-IsQuiet}
use session_peer.Store.Offers.{
  Identity, Draw, offer_identity_locked, identity_for, chosen_ident, invite_locked, insert_offer,
  create_offer_locked, offer_status_locked, cancel, cancel_offer_locked,
}

offer_identity_locked-reads : (key : String) (s : Store) → (offer_identity_locked key s).1 ≡ s
unfolding offer_identity_locked
offer_identity_locked-reads key s = ground arith

identity_for-reads :
    (key : String) (expected : Option Identity) (s : Store) → (identity_for key expected s).1 ≡ s
unfolding identity_for
identity_for-reads key none s = offer_identity_locked-reads key s
identity_for-reads key (some e) s = ground (arith, offer_identity_locked-reads key s)

chosen_ident-reads :
    (platform : Platform) (draw : Draw) (o : Option String) (s : Store)
    → (chosen_ident platform draw o s).1 ≡ s
unfolding chosen_ident
chosen_ident-reads platform draw none s = refl
chosen_ident-reads platform draw (some x) s = ground arith

invite_locked-peers :
    (platform : Platform) (draw : Draw) (routes : Json) (o : Option String) (s : Store)
    → (invite_locked platform draw routes o s).1.peers ≡ s.peers
unfolding invite_locked
invite_locked-peers platform draw routes o s = ground (arith, chosen_ident-reads platform draw o s)

insert_offer-peers : (o : Offer) (s : Store) → (insert_offer o s).1.peers ≡ s.peers
unfolding insert_offer
insert_offer-peers o s = ground arith

create_offer_locked-peers :
    (platform : Platform) (encodes : Invitation → String → Bool) (draw : Draw) (created : ℕ)
    (routes : Json) (key : String) (o : Option String) (expected : Option Identity) (s : Store)
    → (create_offer_locked platform encodes draw created routes key o expected s).1.peers ≡ s.peers
unfolding create_offer_locked
create_offer_locked-peers platform encodes draw created routes key o expected s =
    grind (arith, identity_for-reads key expected s, invite_locked-peers, insert_offer-peers)

offer_status_locked-reads : (ident : String) (s : Store) → (offer_status_locked ident s).1 ≡ s
unfolding offer_status_locked
offer_status_locked-reads ident s = ground arith

cancel-IsQuiet : (terminal : ℕ) (ident : String) (s : Store) → IsQuiet s (cancel terminal ident s)
unfolding cancel retire_invite
cancel-IsQuiet terminal ident s =
    IsQuiet-trans s (release ident s) (cancel terminal ident s) (release-IsQuiet ident s)
      (IsQuiet-same (release ident s) (cancel terminal ident s) refl)

cancel_offer_locked-cases :
    (terminal : ℕ) (ident : String) (s : Store)
    → let t = (cancel_offer_locked terminal ident s).1 in (t ≡ s) ⊎ (t ≡ cancel terminal ident s)
unfolding cancel_offer_locked
cancel_offer_locked-cases terminal ident s = ground (
  arith,
  offer_status_locked-reads ident s,
  offer_status_locked-reads ident (cancel terminal ident s),
)

pub cancel_offer_locked-IsQuiet :
    (terminal : ℕ) (ident : String) (s : Store) → IsQuiet s (cancel_offer_locked terminal ident s).1
cancel_offer_locked-IsQuiet terminal ident s = elim (cancel_offer_locked-cases terminal ident s) [
  | inl e ↦ rw e (IsQuiet-same s s refl)
  | inr e ↦ rw e (cancel-IsQuiet terminal ident s)
]

pub create_offer_locked-IsQuiet :
    (platform : Platform) (encodes : Invitation → String → Bool) (draw : Draw) (created : ℕ)
    (routes : Json) (key : String) (o : Option String) (expected : Option Identity) (s : Store)
    → IsQuiet s (create_offer_locked platform encodes draw created routes key o expected s).1
create_offer_locked-IsQuiet platform encodes draw created routes key o expected s =
    IsQuiet-same s (create_offer_locked platform encodes draw created routes key o expected s).1
      (create_offer_locked-peers platform encodes draw created routes key o expected s)

pub invite_locked-IsQuiet :
    (platform : Platform) (draw : Draw) (routes : Json) (o : Option String) (s : Store)
    → IsQuiet s (invite_locked platform draw routes o s).1
invite_locked-IsQuiet platform draw routes o s =
    IsQuiet-same s (invite_locked platform draw routes o s).1
      (invite_locked-peers platform draw routes o s)
