-- ===== src/Store/Prepare/Proven.antt =====
-- What a request has proved once `prepare` has read it: its invitation, secret and certificate.
use mathlib.Core.Path.{subst}
use session_peer.Common.{
  sym, ap, ◌∙◌, ℕ, ◌<◌, String, ◌≡◌, Bool, true, false, Option, none, some, ◌==◌, string_eq, nat_eq,
  eq_iff, arith, ok, >>=-eq-ok, raise_if, pure, ◌>>◌,
}
use session_peer.Common.Sql.{find-holds}
use session_peer.Common.Json.{Json, Fields, str, num, null, get, get_or, is_true}
use session_peer.Store.State.{Store, Invite, Offer, Platform, is_open_or_reserved}
use session_peer.Store.Pairing.{find_invite, find_offer}
use session_peer.Store.Reasons.{Reason, invalid_invitation, invalid_client_identity}
use session_peer.Store.Prepare.{
  as_text, live_invite, certificate_key, check_offer, claimed, Claim, read_claim, disagrees,
}
use session_peer.Store.Prepare.Accept.{as_text-reads, live_invite-reads, certificate_key-reads}

-- The request's secret has the digest of the invitation.
abbrev pub Knows : Platform → Option Json → Invite → Type 0
Knows platform (some (str secret)) row = row.hash ≡ platform.sha256 secret
Knows platform _ row = ⊥

-- An offer of this invitation is bound to the claim's key and identity, and is still to be had.
abbrev pub Fits : Claim → Option Offer → Type 0
Fits c none = Unit
Fits c (some o) =
    (o.client_key ≡ c.key)
    × (o.principal ≡ c.peer)
    × (o.generation ≡ c.generation)
    × (is_open_or_reserved o.state ≡ true)

pub record IsProven (platform : Platform) (now : ℕ) (request : Fields) (s : Store) (c : Claim)
    : Type 0 where
  pub named : get "invitation" request ≡ some (str c.invite.id)
  pub live : find_invite c.invite.id s ≡ some c.invite
  pub before : now < c.invite.expires
  pub knows : Knows platform (get "secret" request) c.invite
  pub sent : get_or "certificate" (str "") request ≡ str c.pem
  pub certified : platform.fingerprint c.pem ≡ some c.key
  pub offered : c.offer ≡ find_offer c.invite.id s
  pub bound : Fits c c.offer

as_text_ok :
    (o : Option Json) (e : Reason) (s : Store) (x : String)
    → (as_text o e s).0 ≡ ok x
    → o ≡ some (str x)
unfolding as_text
as_text_ok o e s x h = ground arith

live_invite_ok :
    (platform : Platform) (now : ℕ) (o : Option Json) (ident : String) (s : Store) (row : Invite)
    → (live_invite platform now o ident s).0 ≡ ok row
    → (find_invite ident s ≡ some row)
      × (now < row.expires)
      × Knows platform o row
      × (row.id ≡ ident)
unfolding live_invite
live_invite_ok platform now (some (str x)) ident s row h =
    let found : find_invite ident s ≡ some row = ground arith in
    ground (
      arith,
      found,
      find-holds (λ i. i.id == ident) {r = row} s.invites found,
      eq_iff row.id ident,
      eq_iff row.hash (platform.sha256 x),
    )
live_invite_ok platform now _ ident s row h = ground arith

certificate_key_ok :
    (platform : Platform) (v : Json) (s : Store) (found : String × String)
    → (certificate_key platform v s).0 ≡ ok found
    → (v ≡ str found.0) × (platform.fingerprint found.0 ≡ some found.1)
unfolding certificate_key
certificate_key_ok platform v s found h = ground arith

abbrev IsKeyOf : String → Option Offer → Type 0
IsKeyOf key none = Unit
IsKeyOf key (some o) = (o.client_key ≡ key) × (is_open_or_reserved o.state ≡ true)

check_offer_ok :
    (asked : Bool) (key : String) (o : Option Offer) (s : Store)
    → (check_offer asked key o s).0 ≡ ok tt
    → IsKeyOf key o
unfolding check_offer
check_offer_ok asked key none s h = tt
check_offer_ok asked key (some o) s h = ground (arith, eq_iff o.client_key key)

agrees :
    (o : Offer) (peer : String) (n : ℕ)
    → disagrees (some o) peer n ≡ false
    → (o.principal ≡ peer) × (o.generation ≡ n)
agrees o peer n h = ground (arith, eq_iff o.principal peer)

-- The last steps, from the claimed identity on.
finish_claim :
    (platform : Platform) (request : Fields) (s t : Store) (c : Claim) (row : Invite)
    (found : String × String) (offer : Option Offer) (who : String × ℕ)
    → (do
      raise_if (disagrees offer who.0 who.1) invalid_client_identity
      pure (record {
        invite = row;
        pem = found.0;
        key = found.1;
        offer = offer;
        peer = who.0;
        generation = who.1;
      }))
        s
      ≡ (ok c, t)
    → (c ≡ record {
      invite = row;
      pem = found.0;
      key = found.1;
      offer = offer;
      peer = who.0;
      generation = who.1;
    })
      × (disagrees offer who.0 who.1 ≡ false)
finish_claim platform request s t c row found offer who h = ground arith

abbrev claim_of : Invite → String × String → Option Offer → String × ℕ → Claim
claim_of row found offer who = record {
  invite = row;
  pem = found.0;
  key = found.1;
  offer = offer;
  peer = who.0;
  generation = who.1;
}

Fits-of :
    (row : Invite) (found : String × String) (offer : Option Offer) (who : String × ℕ)
    → IsKeyOf found.1 offer
    → disagrees offer who.0 who.1 ≡ false
    → Fits (claim_of row found offer who) offer
Fits-of row found none who own same = tt
Fits-of row found (some o) who own same = ground (arith, agrees o who.0 who.1 same)

module _ (platform : Platform) (now : ℕ) (request : Fields) (s s1 s3 : Store) (ident : String)
    (row : Invite) (found : String × String) (who : String × ℕ) where
  assemble :
      s1 ≡ s
      → s3 ≡ s
      → get "invitation" request ≡ some (str ident)
      → (find_invite ident s1 ≡ some row)
        × (now < row.expires)
        × Knows platform (get "secret" request) row
        × (row.id ≡ ident)
      → (get_or "certificate" (str "") request ≡ str found.0)
        × (platform.fingerprint found.0 ≡ some found.1)
      → IsKeyOf found.1 (find_offer ident s3)
      → disagrees (find_offer ident s3) who.0 who.1 ≡ false
      → IsProven platform now request s (claim_of row found (find_offer ident s3) who)
  assemble same1 same3 named live cert own same = record {
    named = rw live.3 named;
    live =
        subst (λ k. find_invite k s ≡ some row) (sym live.3)
          (subst (λ u. find_invite ident u ≡ some row) same1 live.0);
    before = live.1;
    knows = live.2;
    sent = cert.0;
    certified = cert.1;
    offered =
        subst (λ k. find_offer ident s3 ≡ find_offer k s) (sym live.3)
          (ap (find_offer ident) same3);
    bound = Fits-of row found (find_offer ident s3) who own same;
  }

pub read_claim-IsProven :
    (platform : Platform) (now : ℕ) (request : Fields) (s t : Store) (c : Claim)
    → read_claim platform now request s ≡ (ok c, t)
    → IsProven platform now request s c
unfolding read_claim
read_claim-IsProven platform now request s t c h =
    let (ident, e1, h1) = >>=-eq-ok (as_text (get "invitation" request) invalid_invitation) _ s h in
    let s1 = (as_text (get "invitation" request) invalid_invitation s).1 in
    let (row, e2, h2) = >>=-eq-ok (live_invite platform now (get "secret" request) ident) _ s1 h1 in
    let s2 = (live_invite platform now (get "secret" request) ident s1).1 in
    let (found, e3, h3) =
      >>=-eq-ok (certificate_key platform (get_or "certificate" (str "") request)) _ s2 h2 in
    let s3 = (certificate_key platform (get_or "certificate" (str "") request) s2).1 in
    let offer = find_offer ident s3 in
    let (_, e4, h4) =
      >>=-eq-ok (check_offer (is_true (get_or "offer" null request)) found.1 offer) _ s3 h3 in
    let s4 = (check_offer (is_true (get_or "offer" null request)) found.1 offer s3).1 in
    let (who, e5, h5) =
      >>=-eq-ok
        (claimed (get_or "principal" (str found.1) request) (get_or "generation" (num 0) request)) _
        s4 h4 in
    let s5 =
      (claimed (get_or "principal" (str found.1) request) (get_or "generation" (num 0) request)
        s4).1 in
    let done = finish_claim platform request s5 t c row found offer who h5 in
    let same1 = as_text-reads (get "invitation" request) invalid_invitation s in
    let same2 = live_invite-reads platform now (get "secret" request) ident s1 in
    let same3 = certificate_key-reads platform (get_or "certificate" (str "") request) s2 in
    rw done.0 (
      assemble platform now request s s1 s3 ident row found who same1 (same3 ∙ same2 ∙ same1)
        (as_text_ok (get "invitation" request) invalid_invitation s ident e1)
        (live_invite_ok platform now (get "secret" request) ident s1 row e2)
        (certificate_key_ok platform (get_or "certificate" (str "") request) s2 found e3)
        (check_offer_ok (is_true (get_or "offer" null request)) found.1 offer s3 e4) done.1)
