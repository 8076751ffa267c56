-- ===== src/Store/Pairing/Charges.antt =====
-- What `_pairing_charge_locked` of session_peer_relay/store.py records, and what it lets through.
use session_peer.Common.{
  not, ◌*◌, pure, ◌>>◌, keep, Outcome-cases, ℕ, ◌+◌, ◌≤◌, ◌≡◌, ◌≢◌, ◌↔◌, refl, Bool, true, false,
  List, [], ◌∷◌, ◌++◌, string_eq, eq_iff, arith, ok, Outcome, keep-append, keep-keep, ltb, leb,
  length, length-append, if◌then◌else◌, inl, inr, Option-cases, Bool-cases,
}
use session_peer.Common.Sql.{find-insert, find-update, find-holds}
use session_peer.Store.State.{Store, Scope, create, prepare, offer, same_scope}
use session_peer.Store.Reasons.{Reason}
use session_peer.Store.State.{Action}
use session_peer.Store.Pairing.{find_limit, charge_or_raise, recent, attempts, set_attempts, charge}

same_scope_iff : (a b : Scope) → (same_scope a b ≡ true) ↔ (a ≡ b)
same_scope_iff create create = ground arith
same_scope_iff (offer a) (offer b) = ground (arith, eq_iff a b)
same_scope_iff _ _ = ground arith

module _ (scope : Scope) (values : List ℕ) (s : Store) where
  attempts-set_self : attempts scope (set_attempts scope values s) ≡ values
  unfolding attempts
  attempts-set_self = elim (Option-cases (find_limit scope s)) [
    | inl e ↦ ground (
      arith,
      same_scope_iff scope scope,
      find-insert (λ l. same_scope l.scope scope) (record { scope = scope; attempts = values })
          s.limits,
    )
    | inr (l, e) ↦ ground (
      arith,
      find-holds (λ l. same_scope l.scope scope) {r = l} s.limits e,
      find-update (λ l. same_scope l.scope scope) (λ l. same_scope l.scope scope)
          (λ l. record l { attempts = values }) s.limits (λ l. refl),
    )
  ]

  attempts-set_ne :
      (other : Scope)
      → scope ≢ other
      → attempts other (set_attempts scope values s) ≡ attempts other s
  unfolding attempts
  attempts-set_ne other ne = elim (Option-cases (find_limit other s)) [
    | inl e ↦ ground (
      arith,
      same_scope_iff scope other,
      find-insert (λ l. same_scope l.scope other) (record { scope = scope; attempts = values })
          s.limits,
      find-update (λ l. same_scope l.scope scope) (λ l. same_scope l.scope other)
          (λ l. record l { attempts = values }) s.limits (λ l. refl),
    )
    | inr (l, e) ↦ ground (
      arith,
      same_scope_iff l.scope scope,
      same_scope_iff l.scope other,
      find-holds (λ l. same_scope l.scope other) {r = l} s.limits e,
      find-insert (λ l. same_scope l.scope other) (record { scope = scope; attempts = values })
          s.limits,
      find-update (λ l. same_scope l.scope scope) (λ l. same_scope l.scope other)
          (λ l. record l { attempts = values }) s.limits (λ l. refl),
    )
  ]

-- A charge is seen in the attempts of its own scope, and of no other.
pub attempts-charge :
    (scope other : Scope) (limit now : ℕ) (s : Store)
    → attempts other (charge scope limit now s).1 ≡ (
        if same_scope scope other
        then (if leb limit (length (recent now (attempts scope s)))
            then attempts scope s
            else recent now (attempts scope s) ++ now ∷ [])
        else attempts other s)
unfolding charge
attempts-charge scope other limit now s =
    let values = recent now (attempts scope s) ++ now ∷ [] in
    elim (Bool-cases (same_scope scope other)) [
      | inl e ↦
          rw (← (same_scope_iff scope other).0 e)
            (ground (arith, attempts-set_self scope values s, same_scope_iff scope scope))
      | inr e ↦ ground (arith, attempts-set_ne scope values s other, same_scope_iff scope other)
    ]

-- how often a scope may be let through in a minute
abbrev pub allowed : Scope → ℕ
allowed create = 5
allowed prepare = 32
allowed (offer _) = 8

-- the times in the minute up to `now`
abbrev pub last_minute : ℕ → List ℕ → List ℕ
last_minute now = keep (λ value. ltb now (value + 60))

abbrev pub fresh : ℕ → ℕ → ℕ
fresh later now = if ltb later (now + 60) then 1 else 0

abbrev pub is_ok : Outcome Reason Unit → Bool
is_ok (ok _) = true
is_ok _ = false

-- how often a scope stands in a list
abbrev pub hits : Scope → List Scope → ℕ
hits other [] = 0
hits other (c ∷ cs) = (if same_scope c other then 1 else 0) + hits other cs

unfoldable pub Fits : Store → Type 0
Fits s = (scope : Scope) → length (attempts scope s) ≤ allowed scope

-- An action that charges the scopes `cs` at `now`: what is recorded stays recorded for a minute, each of the
-- scopes is recorded once more where the action succeeds, and no scope goes over what it is allowed.
pub record Charges (m : Action Unit) (cs : List Scope) (now : ℕ) (s : Store) : Type 0 where
  pub grows :
      (other : Scope) (later : ℕ)
      → now ≤ later
      → length (last_minute later (attempts other s))
          + (if is_ok (m s).0 then hits other cs * fresh later now else 0)
        ≤ length (last_minute later (attempts other (m s).1))
  pub fits : Fits (m s).1
  pub offers : (m s).1.offers ≡ s.offers

recent-recent :
    (earlier now : ℕ) (values : List ℕ)
    → earlier ≤ now
    → last_minute now (recent earlier values) ≡ last_minute now values
recent-recent earlier now values le =
    keep-keep (λ v. ltb now (v + 60)) (λ v. ltb earlier (v + 60)) values (λ v h. ground arith)

pub pure-Charges : (now : ℕ) (s : Store) → Fits s → Charges (pure tt) [] now s
pure-Charges now s fits = record {
  grows = λ other later le. omega arith;
  fits = fits;
  offers = refl;
}

pub hits-append :
    (other : Scope) (cs ds : List Scope) → hits other (cs ++ ds) ≡ hits other cs + hits other ds
hits-append other [] ds = omega arith
hits-append other (c ∷ cs) ds = omega (arith, hits-append other cs ds)

pub seq-Charges :
    (m n : Action Unit) (cs ds : List Scope) (now : ℕ) (s : Store)
    → Charges m cs now s
    → (Fits (m s).1 → Charges n ds now (m s).1)
    → Charges (m >> n) (cs ++ ds) now s
seq-Charges m n cs ds now s first second =
    let after = second first.fits in
    elim (Outcome-cases (m s).0) [
      | inl (_, e) ↦ record {
        grows = λ other later le. ground (
          arith,
          first.grows other later le,
          after.grows other later le,
          hits-append other cs ds,
        );
        fits = ground (arith, after.fits);
        offers = ground (arith, after.offers, first.offers);
      }
      | inr (inl (x, e)) ↦ record {
        grows = λ other later le. ground (arith, first.grows other later le);
        fits = ground (arith, first.fits);
        offers = ground (arith, first.offers);
      }
      | inr (inr e) ↦ record {
        grows = λ other later le. ground (arith, first.grows other later le);
        fits = ground (arith, first.fits);
        offers = ground (arith, first.offers);
      }
    ]

charge-ok :
    (scope : Scope) (limit now : ℕ) (s : Store)
    → (charge scope limit now s).0 ≡ ok (leb limit (length (recent now (attempts scope s))))
unfolding charge
charge-ok scope limit now s = ground arith

charge-offers :
    (scope : Scope) (limit now : ℕ) (s : Store) → (charge scope limit now s).1.offers ≡ s.offers
unfolding charge
charge-offers scope limit now s = ground arith

charge_or_raise-same :
    (scope : Scope) (limit now : ℕ) (s : Store)
    → ((charge_or_raise scope limit now s).1 ≡ (charge scope limit now s).1)
      × (is_ok (charge_or_raise scope limit now s).0
          ≡ not (leb limit (length (recent now (attempts scope s)))))
charge_or_raise-same scope limit now s =
    (ground (arith, charge-ok scope limit now s), ground (arith, charge-ok scope limit now s))

pub charge-Charges :
    (scope : Scope) (now : ℕ) (s : Store)
    → Fits s
    → Charges (charge_or_raise scope (allowed scope) now) (scope ∷ []) now s
unfolding Fits
charge-Charges scope now s fits =
    let (same, passes) = charge_or_raise-same scope (allowed scope) now s in
    let kept = recent now (attempts scope s) in
    record {
      grows = λ other later le. elim (Bool-cases (same_scope scope other)) [
        | inl e ↦ rw (← (same_scope_iff scope other).0 e) (
            ground (
              arith,
              same,
              passes,
              same_scope_iff scope scope,
              attempts-charge scope scope (allowed scope) now s,
              recent-recent now later (attempts scope s) le,
              keep-append (λ v. ltb later (v + 60)) kept (now ∷ []),
              length-append (last_minute later kept) (last_minute later (now ∷ [])),
            ))
        | inr e ↦ ground (arith, same, attempts-charge scope other (allowed scope) now s)
      ];
      fits = λ other. elim (Bool-cases (same_scope scope other)) [
        | inl e ↦ rw (← (same_scope_iff scope other).0 e) (
            ground (
              arith,
              same,
              attempts-charge scope scope (allowed scope) now s,
              same_scope_iff scope scope,
              fits scope,
              length-append kept (now ∷ []),
            ))
        | inr e ↦
            ground (arith, same, attempts-charge scope other (allowed scope) now s, fits other)
      ];
      offers = ground (arith, same, charge-offers scope (allowed scope) now s);
    }
