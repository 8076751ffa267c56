-- ===== src/Store/Pairing/Transaction.antt =====
-- What `_pairing_transaction` keeps of a body that is refused, fails or succeeds.
use session_peer.Common.{
  ℕ, ◌≡◌, refl, ap, false, Option, string_eq, arith, ok, rejected, crash, Outcome, ◌⊎◌, inl, inr,
}
use session_peer.Common.Json.{Json}
use session_peer.Store.State.{Store, Action, Scope, recovery_required}
use session_peer.Store.Reasons.{Reason}
use session_peer.Store.Pairing.{
  charge, charge_or_raise, charge_offer, charge_attempt, Mode, admit, expire_pairings,
  pairing_transaction,
}
use session_peer.Store.Pairing.Standing.{
  IsQuiet, IsQuiet-same, IsQuiet-trans, expire_pairings-IsQuiet,
}

-- only the rate limits differ
abbrev pub SameButLimits : Store → Store → Type 0
SameButLimits s t = t ≡ record s { limits = t.limits }

charge-limits :
    (scope : Scope) (limit now : ℕ) (s : Store) → SameButLimits s (charge scope limit now s).1
unfolding charge
charge-limits scope limit now s = ground arith

charge_or_raise-limits :
    (scope : Scope) (limit now : ℕ) (s : Store)
    → SameButLimits s (charge_or_raise scope limit now s).1
charge_or_raise-limits scope limit now s = ground (arith, charge-limits scope limit now s)

charge_offer-limits :
    (value : Json) (now : ℕ) (s : Store) → SameButLimits s (charge_offer value now s).1
unfolding charge_offer
charge_offer-limits value now s = grind (arith, charge-limits)

charge_attempt-limits :
    (value : Option Json) (now : ℕ) (s : Store) → SameButLimits s (charge_attempt value now s).1
unfolding charge_attempt
charge_attempt-limits value now s = grind (arith, charge-limits)

-- Admission writes only the rate limits.
pub admit-limits : (mode : Mode) (now : ℕ) (s : Store) → SameButLimits s (admit mode now s).1
unfolding admit
admit-limits mode now s = grind (arith, charge-limits)

abbrev pub NotOk : {A : Type 0} → Outcome Reason A → Type 0
NotOk (ok _) = ⊥
NotOk _ = Unit

module _ {A : Type 0} (mode : Mode) (now : ℕ) (body : Action A) (s : Store) where
  -- If a pairing transaction is refused outside quarantine, be it by a rate limit or by the body after
  -- whatever it wrote, what is left is the state after the expiry of pairings, but for the rate limits.
  pub transaction_undone :
      (e : Reason)
      → recovery_required s ≡ false
      → (pairing_transaction mode now body s).0 ≡ rejected e
      → SameButLimits (expire_pairings now s) (pairing_transaction mode now body s).1
  unfolding pairing_transaction
  transaction_undone e free refused = ground (arith, admit-limits mode now (expire_pairings now s))

  -- A pairing transaction that ends in an exception other than a refusal leaves the state as it was.
  pub transaction_crash :
      (pairing_transaction mode now body s).0 ≡ crash → (pairing_transaction mode now body s).1 ≡ s
  unfolding pairing_transaction
  transaction_crash crashed = ground arith

-- the state that the body starts from
abbrev pub started : Mode → ℕ → Store → Store
started mode now s = (admit mode now (expire_pairings now s)).1

pub started-IsQuiet : (mode : Mode) (now : ℕ) (s : Store) → IsQuiet s (started mode now s)
started-IsQuiet mode now s =
    let t = expire_pairings now s in
    IsQuiet-trans s t (started mode now s) (expire_pairings-IsQuiet now s)
      (IsQuiet-same t (started mode now s) (ap (λ u. u.peers) (admit-limits mode now t)))

-- A pairing transaction ends in the state before it, in the one that its body starts from, or in the
-- one in which its body ends.
pub transaction-cases :
    {A : Type 0} (mode : Mode) (now : ℕ) (body : Action A) (s : Store)
    → let t = (pairing_transaction mode now body s).1 in
      (t ≡ s) ⊎ (t ≡ (body s).1) ⊎ (t ≡ started mode now s) ⊎ (t ≡ (body (started mode now s)).1)
unfolding pairing_transaction
transaction-cases mode now body s = ground arith

pub transaction-IsQuiet :
    {A : Type 0} (mode : Mode) (now : ℕ) (body : Action A) (s : Store)
    → ((u : Store) → IsQuiet u (body u).1)
    → IsQuiet s (pairing_transaction mode now body s).1
transaction-IsQuiet mode now body s quiet = elim (transaction-cases mode now body s) [
  | inl e ↦ rw e (IsQuiet-same s s refl)
  | inr (inl e) ↦ rw e (quiet s)
  | inr (inr (inl e)) ↦ rw e (started-IsQuiet mode now s)
  | inr (inr (inr e)) ↦ rw e (
      IsQuiet-trans s (started mode now s) (body (started mode now s)).1
        (started-IsQuiet mode now s) (quiet (started mode now s)))
]
