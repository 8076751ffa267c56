-- ===== src/Handoff/History.antt =====
-- What no operation on a record takes back, and the operations of session_peer_core/handoff.py as steps of the ledger.
pub mod Steps
pub mod Bodies
pub mod Reach
pub mod Once
use session_peer.Common.{
  ℕ, String, Bool, true, false, Option, none, some, List, [], ◌∷◌, ◌≡◌, ◌∙◌, ◌⊎◌, inl, inr, refl,
  ok, rejected, crash, Option-cases, Bool-cases, Outcome-cases, arith, >>=-eq-ok, ◌&&◌, ◌||◌, not,
  is_some, if◌then◌else◌,
}
use session_peer.Handoff.State.{
  Record, Ledger, Wait, WaitStatus, WaitReason, Capability, Binding, Context, is_prepared,
  RecordAction, LedgerAction,
}
use session_peer.Handoff.Texts.{Library}
use session_peer.Handoff.Transactions.{Moment, retain}
use session_peer.Handoff.Intents.{quarantine, expire_authority, revoke_capability}
use session_peer.Handoff.Receipts.{Reply, mint_record, accept_record}
use session_peer.Handoff.Wire.{Wire}
use session_peer.Handoff.Collector.{confirm_record}
use session_peer.Handoff.Waits.{Start, open_wait, on_wait, start_wait}
use session_peer.Handoff.Send.{Wishes, Native, refuse, attempt, settle, withdraw}

-- A capability once minted is never another one: it may be dropped, or revoked for good.
unfoldable pub SameAuthority : Option Capability → Option Capability → Type 0
SameAuthority c none = Unit
SameAuthority none (some d) = ⊥
SameAuthority (some c) (some d) =
    (d.hash ≡ c.hash)
    × (d.clock_epoch ≡ c.clock_epoch)
    × (d.expires ≡ c.expires)
    × (c.revoked ≡ true → d.revoked ≡ true)

pub SameAuthority-refl : (c : Option Capability) → SameAuthority c c
unfolding SameAuthority
SameAuthority-refl none = tt
SameAuthority-refl (some c) = (refl, refl, refl, λ h. h)

pub SameAuthority-revoke : (c : Option Capability) → SameAuthority c (revoke_capability c)
unfolding SameAuthority
SameAuthority-revoke none = tt
SameAuthority-revoke (some c) = (refl, refl, refl, λ h. refl)

pub SameAuthority-drop : (c : Option Capability) → SameAuthority c none
unfolding SameAuthority
SameAuthority-drop none = tt
SameAuthority-drop (some c) = tt

pub SameAuthority-trans :
    (c d e : Option Capability) → SameAuthority c d → SameAuthority d e → SameAuthority c e
unfolding SameAuthority
SameAuthority-trans c d none h k = SameAuthority-drop c
SameAuthority-trans none none (some e) h k = k
SameAuthority-trans (some c) none (some e) h k = absurd k
SameAuthority-trans none (some d) (some e) h k = absurd h
SameAuthority-trans (some c) (some d) (some e) h k = (cc, cc, cc, λ p. k.3 (h.3 p))

-- What a record was prepared for, under its identifier
abbrev pub intent_of :
    Record → String × Binding × Option String × ℕ × ℕ × Option String × Option Context
intent_of r = (r.id, r.binding, r.generation, r.created, r.created_utc, r.history_boot, r.context)

-- What every operation leaves of a record: what it was prepared for, and that it is no longer prepared if
-- it was not.
pub record Follows (r r' : Record) : Type 0 where
  pub same_intent : intent_of r' ≡ intent_of r
  pub not_again : is_prepared r'.phase ≡ true → is_prepared r.phase ≡ true
  pub authority : is_prepared r.phase ≡ false → SameAuthority r.capability r'.capability

pub Follows-refl : (r : Record) → Follows r r
Follows-refl r = record {
  same_intent = refl;
  not_again = λ h. h;
  authority = λ _. SameAuthority-refl r.capability;
}

pub Follows-trans : (p q r : Record) → Follows p q → Follows q r → Follows p r
Follows-trans p q r h k = record {
  same_intent = k.same_intent ∙ h.same_intent;
  not_again = λ e. h.not_again (k.not_again e);
  authority = λ e.
      SameAuthority-trans p.capability q.capability r.capability (h.authority e)
        (k.authority (ground (arith, h.not_again)));
}

pub Follows-mint :
    (library : Library) (moment : Moment) (epoch_id token epoch generation : String) (r r' : Record)
    {a : Reply}
    → mint_record library moment epoch_id token epoch generation r ≡ (ok a, r')
    → Follows r r'
unfolding mint_record
Follows-mint library moment epoch_id token epoch generation r r' h = record {
  same_intent = ground arith;
  not_again = ground arith;
  authority = ground arith;
}

pub Follows-accept :
    (library : Library) (moment : Moment) (epoch_id : String) (classify : Bool) (wire : Wire)
    (r r' : Record) {a : Reply}
    → accept_record library moment epoch_id classify wire r ≡ (ok a, r')
    → Follows r r'
unfolding accept_record
Follows-accept library moment epoch_id classify wire r r' h =
    let k = SameAuthority-refl r.capability in
    record { same_intent = ground arith; not_again = ground arith; authority = λ p. ground arith }

pub Follows-confirm :
    (moment : Moment) (generation : String) (r r' : Record) {a : Unit}
    → confirm_record moment generation r ≡ (ok a, r')
    → Follows r r'
unfolding confirm_record
Follows-confirm moment generation r r' h =
    let k = SameAuthority-refl r.capability in
    record { same_intent = ground arith; not_again = ground arith; authority = λ p. ground arith }

pub Follows-withdraw : (r : Record) → Follows r (withdraw r).1
unfolding withdraw
Follows-withdraw r = record {
  same_intent = refl;
  not_again = λ h. h;
  authority = λ _. SameAuthority-revoke r.capability;
}

pub Follows-quarantine : (r : Record) → Follows r (quarantine r)
unfolding quarantine
Follows-quarantine r = record {
  same_intent = refl;
  not_again = ground arith;
  authority = λ _. SameAuthority-revoke r.capability;
}

pub Follows-retain : (boot : Option String) (now : ℕ) (r : Record) → Follows r (retain boot now r)
unfolding retain
Follows-retain boot now r =
    let k = SameAuthority-refl r.capability in
    let d = SameAuthority-drop r.capability in
    record { same_intent = ground arith; not_again = ground arith; authority = λ p. ground arith }

pub Follows-expire : (r : Record) → Follows r (expire_authority r)
unfolding expire_authority
Follows-expire r =
    let k = SameAuthority-refl r.capability in
    let d = SameAuthority-revoke r.capability in
    record { same_intent = ground arith; not_again = ground arith; authority = λ p. ground arith }

pub Follows-open_wait :
    (short : Bool) (verified : Option String) (start : Start) (r r' : Record) {a : String}
    → open_wait short verified start r ≡ (ok a, r')
    → Follows r r'
unfolding open_wait
Follows-open_wait short verified start r r' h =
    let k = SameAuthority-refl r.capability in
    record { same_intent = ground arith; not_again = ground arith; authority = λ p. ground arith }

pub Follows-on_wait :
    (operation : String) (change : Record → Wait → Wait) (r r' : Record) {a : WaitStatus}
    → on_wait operation change r ≡ (ok a, r')
    → Follows r r'
unfolding on_wait
Follows-on_wait operation change r r' h =
    let k = SameAuthority-refl r.capability in
    record { same_intent = ground arith; not_again = ground arith; authority = λ p. ground arith }

pub Follows-refuse :
    (wishes : Wishes) (reason : WaitReason) (start : Start) (r r' : Record) {a : Unit}
    → refuse wishes reason start r ≡ (ok a, r')
    → Follows r r'
unfolding refuse
Follows-refuse wishes reason start r r' h = record {
  same_intent = ground arith;
  not_again = ground arith;
  authority = ground arith;
}

pub Follows-attempt :
    (wishes : Wishes) (cutoff now : ℕ) (start : Start) (r r' : Record) {a : Option String}
    → attempt wishes cutoff now start r ≡ (ok a, r')
    → Follows r r'
unfolding attempt
Follows-attempt wishes cutoff now start r r' h = record {
  same_intent = ground arith;
  not_again = ground arith;
  authority = ground arith;
}

pub Follows-settle :
    (outcome : Native) (operation : Option String) (r r' : Record) {a : Unit}
    → settle outcome operation r ≡ (ok a, r')
    → Follows r r'
unfolding settle
Follows-settle outcome operation r r' h =
    let k = SameAuthority-refl r.capability in
    let d = SameAuthority-revoke r.capability in
    record { same_intent = ground arith; not_again = ground arith; authority = λ p. ground arith }
