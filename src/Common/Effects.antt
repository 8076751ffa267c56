-- ===== src/Common/Effects.antt =====
-- Methods that change a state and may raise. What was written before a raise stays written, until
-- a handler undoes it, so the state comes back beside the error.
use mathlib.Core.Path.{◌≡◌, refl}
use mathlib.Core.Logic.{◌⊎◌, inl, inr}
use native.Mathlib.Omega.{arith}
use mathlib.Core.Bool.{Bool, false}
use mathlib.Core.Option.{Option, none, some}
use session_peer.Common.Tests.{if◌then◌else◌}

-- `Rejected(reason)` is the program's own refusal; `crash` is any other exception.
pub data Outcome (E A : Type 0) : Type 0 where
  ok : A → Outcome E A
  rejected : E → Outcome E A
  crash : Outcome E A

abbrev pub Exec : Type 0 → Type 0 → Type 0 → Type 0
Exec E S A = S → Outcome E A × S

module _ {E S A : Type 0} where
  abbrev pub pure : A → Exec E S A
  pure a s = (ok a, s)

  abbrev pub raise : E → Exec E S A
  raise e s = (rejected e, s)

  abbrev pub fail : Exec E S A
  fail s = (crash, s)

  abbrev pub gets : (S → A) → Exec E S A
  gets f s = (ok (f s), s)

  abbrev pub or_crash : Option A → Exec E S A
  or_crash none = fail
  or_crash (some a) = pure a

abbrev pub or_reject : {E S A : Type 0} → Option A → E → Exec E S A
or_reject none e = raise e
or_reject (some a) e = pure a

-- `if c: raise Rejected(e)`
abbrev pub raise_if : {E S : Type 0} → Bool → E → Exec E S Unit
raise_if c e s = (if c then rejected e else ok tt, s)

abbrev pub modify : {E S : Type 0} → (S → S) → Exec E S Unit
modify f s = (ok tt, f s)

module _ {E S A B : Type 0} where
  abbrev continue : Outcome E A → (A → Exec E S B) → Exec E S B
  continue (ok a) f s = f a s
  continue (rejected e) f s = (rejected e, s)
  continue crash f s = (crash, s)

  infixl 5 ◌>>=◌ ◌>>◌
  abbrev pub ◌>>=◌ : Exec E S A → (A → Exec E S B) → Exec E S B
  ◌>>=◌ m f s = let (r, s') = m s in continue r f s'

  abbrev pub ◌>>◌ : Exec E S A → Exec E S B → Exec E S B
  m >> n = m >>= λ _. n

module _ {E A : Type 0} where
  pub Outcome-cases :
      (r : Outcome E A) → ((a : A) × (r ≡ ok a)) ⊎ ((e : E) × (r ≡ rejected e)) ⊎ (r ≡ crash)
  Outcome-cases (ok a) = inl (a, refl)
  Outcome-cases (rejected e) = inr (inl (e, refl))
  Outcome-cases crash = inr (inr refl)

module _ {E S A B : Type 0} where
  -- A block that returns has a first action that returns, and a rest that returns after it.
  pub >>=-eq-ok :
      (m : Exec E S A) (f : A → Exec E S B) (s : S) {b : B} {u : S}
      → (m >>= f) s ≡ (ok b, u)
      → (a : A) × ((m s).0 ≡ ok a) × (f a (m s).1 ≡ (ok b, u))
  >>=-eq-ok m f s {b} {u} h = elim (Outcome-cases (m s).0) [
    | inl (a, e) ↦ (a, e, rw (← h) (rw e refl))
    | inr (inl (e, e')) ↦ ground arith
    | inr (inr e) ↦ ground arith
  ]

module _ {E S A B : Type 0} where
  -- The same, where the first action leaves the state alone.
  pub >>=-eq-read :
      (m : Exec E S A) (f : A → Exec E S B) (s : S) {b : B} {u : S}
      → (m s).1 ≡ s
      → (m >>= f) s ≡ (ok b, u)
      → (a : A) × (m s ≡ (ok a, s)) × (f a s ≡ (ok b, u))
  >>=-eq-read m f s {b} {u} same h =
      let (a, e, rest) = >>=-eq-ok m f s {b = b} {u = u} h in (a, ground arith, ground arith)

module _ {E S : Type 0} where
  pub raise_if-eq-ok : (b : Bool) (e : E) (s : S) (x : Unit) → (raise_if b e s).0 ≡ ok x → b ≡ false
  raise_if-eq-ok b e s x h = ground arith
