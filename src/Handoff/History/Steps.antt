-- ===== src/Handoff/History/Steps.antt =====
-- The transactions of session_peer_core/handoff.py as steps of the ledger, and that no step loses a
-- record or lets it be attempted again.
use session_peer.Common.{
  String, Bool, true, false, none, some, List, [], ◌∷◌, ◌==◌, string_eq, ◌≡◌, ◌∙◌, ap, sym, inl,
  inr, refl, ok, Option-cases, arith, map, if◌then◌else◌, eq_iff, eq→≡, eq_refl, raise_if, ◌>>=◌,
  >>=-eq-ok,
}
use mathlib.Core.Option.{some-injective}
use session_peer.Common.Sql.{find, update, find-holds}
use session_peer.Handoff.State.{Record, Ledger, is_id, RecordAction, LedgerAction, HandoffReason}
use session_peer.Handoff.Texts.{Library}
use session_peer.Handoff.Transactions.{Moment, retain, retain_all, transaction, on_record}
use session_peer.Handoff.Transactions.Outcomes.{transaction-cases}
use session_peer.Handoff.History.{Follows, Follows-refl, Follows-trans, Follows-retain}

-- Each record of the first ledger is in the second, as one that follows it.
abbrev pub Kept : Ledger → Ledger → Type 0
Kept l l' =
    (ident : String) (r : Record)
    → find (is_id ident) l.records ≡ some r
    → (r' : Record) × (find (is_id ident) l'.records ≡ some r') × Follows r r'

pub Kept-refl : (l : Ledger) → Kept l l
Kept-refl l ident r e = (r, e, Follows-refl r)

pub Kept-trans : (k l m : Ledger) → Kept k l → Kept l m → Kept k m
Kept-trans k l m f g ident r e =
    let (q, e', h) = f ident r e in
    let (p, e'', h') = g ident q e' in (p, e'', Follows-trans r q p h h')

find-map :
    (f : Record → Record) (same : (r : Record) → (f r).id ≡ r.id) (ident : String)
    (rs : List Record) {r : Record}
    → find (is_id ident) rs ≡ some r
    → find (is_id ident) (map f rs) ≡ some (f r)
unfolding find
find-map f same ident [] e = ground arith
find-map f same ident (x ∷ rs) {r} e = ground (arith, same x, find-map f same ident rs {r = r})

find-map-none :
    (f : Record → Record) (same : (r : Record) → (f r).id ≡ r.id) (ident : String)
    (rs : List Record)
    → find (is_id ident) rs ≡ none
    → find (is_id ident) (map f rs) ≡ none
unfolding find
find-map-none f same ident [] e = refl
find-map-none f same ident (x ∷ rs) e = ground (arith, same x, find-map-none f same ident rs)

pub Kept-map :
    (f : Record → Record)
    → ((r : Record) → Follows r (f r))
    → (l : Ledger) → Kept l (record l { records = map f l.records })
Kept-map f follows l ident r e =
    (f r, find-map f (λ q. ap (λ i. i.0) (follows q).same_intent) ident l.records e, follows r)

pub Kept-retain : (moment : Moment) (l : Ledger) → Kept l (retain_all moment l)
unfolding retain_all
Kept-retain moment =
    Kept-map (retain moment.boot (moment.clock 0)) (Follows-retain moment.boot (moment.clock 0))

pub find-retain :
    (moment : Moment) (ident : String) (l : Ledger)
    → find (is_id ident) l.records ≡ none
    → find (is_id ident) (retain_all moment l).records ≡ none
unfolding retain_all
find-retain moment ident l =
    find-map-none (retain moment.boot (moment.clock 0))
      (λ r. ap (λ i. i.0) (Follows-retain moment.boot (moment.clock 0) r).same_intent) ident
      l.records

-- a body that keeps the records wherever it returns
abbrev pub Keeps : {A : Type 0} → LedgerAction A → Type 0
Keeps {A} body = (l l' : Ledger) (a : A) → body l ≡ (ok a, l') → Kept l l'

find-set :
    (ident other : String) (r' : Record)
    → r'.id ≡ ident
    → (rs : List Record) {r : Record} → find (is_id other) rs ≡ some r
    → find (is_id other) (update (is_id ident) (λ _. r') rs)
      ≡ some (if ident == other then r' else r)
unfolding find update
find-set ident other r' same [] e = ground arith
find-set ident other r' same (x ∷ rs) {r} e = ground (
  arith,
  eq_iff ident other,
  eq_iff x.id ident,
  eq_iff x.id other,
  eq_iff r'.id other,
  find-set ident other r' same rs {r = r},
)

Follows-if :
    (b : Bool) (r' q : Record) → (b ≡ true → Follows q r') → Follows q (if b then r' else q)
Follows-if true r' q h = h refl
Follows-if false r' q h = Follows-refl q

-- Putting a record that follows its predecessor in its place keeps all of them.
pub Kept-set :
    (ident : String) (r r' : Record) (l : Ledger)
    → find (is_id ident) l.records ≡ some r
    → Follows r r'
    → Kept l (record l { records = update (is_id ident) (λ _. r') l.records })
Kept-set ident r r' l found follows other q found' =
    let named = eq→≡ r.id ident (find-holds (is_id ident) l.records found) in
    let same = ap (λ i. i.0) follows.same_intent in
    (
      if ident == other then r' else q,
      find-set ident other r' (same ∙ named) l.records found',
      Follows-if (ident == other) r' q (λ b.
          let e = eq→≡ ident other b in
          let q_is_r : some q ≡ some r = sym found' ∙ rw (← e) found in
          rw (some-injective q r q_is_r) follows),
    )

module _ {A : Type 0} where
  pub on_record-none :
      (ident : String) (absent : LedgerAction A) (change : RecordAction A) (l : Ledger)
      → find (is_id ident) l.records ≡ none
      → on_record ident absent change l ≡ absent l
  unfolding on_record
  on_record-none ident absent change l e = rw (e, on_record) refl

  pub on_record-some :
      (ident : String) (absent : LedgerAction A) (change : RecordAction A) (l : Ledger) (r : Record)
      → find (is_id ident) l.records ≡ some r
      → on_record ident absent change l
        ≡ ((change r).0, record l { records = update (is_id ident) (λ _. (change r).1) l.records })
  unfolding on_record
  on_record-some ident absent change l r e = rw (e, on_record) refl

  pub Keeps-on_record :
      (ident : String) (absent : LedgerAction A) (change : RecordAction A)
      → ((l l' : Ledger) (a : A) → absent l ≡ (ok a, l') → l' ≡ l)
      → ((r r' : Record) (a : A) → change r ≡ (ok a, r') → Follows r r')
      → Keeps (on_record ident absent change)
  Keeps-on_record ident absent change nothing follows l l' a e =
      elim (Option-cases (find (is_id ident) l.records)) [
        | inl missing ↦
            rw (nothing l l' a (sym (on_record-none ident absent change l missing) ∙ e))
              (Kept-refl l)
        | inr (r, found) ↦
            let e' = sym (on_record-some ident absent change l r found) ∙ e in
            rw (sym (ap (λ p. p.1) e')) (
              Kept-set ident r (change r).1 l found
                (follows r (change r).1 a (ap (λ o. (o, (change r).1)) (ap (λ p. p.0) e'))))
      ]

  -- A change that returns has found its record and has put the changed one in its place.
  pub on_record-eq-ok :
      (ident : String) (absent : LedgerAction A) (change : RecordAction A)
      → ((l l' : Ledger) (a : A) → absent l ≡ (ok a, l') → ⊥)
      → ((r r' : Record) (a : A) → change r ≡ (ok a, r') → Follows r r')
      → (l l' : Ledger) (a : A) → on_record ident absent change l ≡ (ok a, l')
      → (r : Record) × (find (is_id ident) l.records ≡ some r)
        × (change r ≡ (ok a, (change r).1))
        × (find (is_id ident) l'.records ≡ some (change r).1)
  on_record-eq-ok ident absent change never follows l l' a e =
      elim (Option-cases (find (is_id ident) l.records)) [
        | inl missing ↦
            absurd (never l l' a (sym (on_record-none ident absent change l missing) ∙ e))
        | inr (r, found) ↦
            let e' = sym (on_record-some ident absent change l r found) ∙ e in
            let returns = ap (λ o. (o, (change r).1)) (ap (λ p. p.0) e') in
            let named = eq→≡ r.id ident (find-holds (is_id ident) l.records found) in
            let same = ap (λ i. i.0) (follows r (change r).1 a returns).same_intent in
            (
              r,
              found,
              returns,
              rw (sym (ap (λ p. p.1) e')) (
                  find-set ident ident (change r).1 (same ∙ named) l.records found
                  ∙ ap (λ b. some (if b then (change r).1 else r)) (eq_refl ident)),
            )
      ]

  pub Kept-transaction_at :
      (library : Library) (moment : Moment) (read_only : Bool) (body : LedgerAction A) (l : Ledger)
      → ((l' : Ledger) (a : A)
          → body (retain_all moment l) ≡ (ok a, l')
          → Kept (retain_all moment l) l')
      → Kept l (transaction library moment read_only body l).1
  Kept-transaction_at library moment read_only body l keeps =
      elim (transaction-cases library moment read_only body l) [
        | inl same ↦ rw same (Kept-refl l)
        | inr (a, e, e', _, _, _) ↦ rw e' (
            Kept-trans l (retain_all moment l) (body (retain_all moment l)).1 (Kept-retain moment l)
              (keeps (body (retain_all moment l)).1 a e))
      ]

  pub Kept-transaction :
      (library : Library) (moment : Moment) (read_only : Bool) (body : LedgerAction A)
      → Keeps body
      → (l : Ledger) → Kept l (transaction library moment read_only body l).1
  Kept-transaction library moment read_only body keeps l =
      Kept-transaction_at library moment read_only body l (keeps (retain_all moment l))

pub Keeps-raise_if : (b : Bool) (e : HandoffReason) → Keeps (raise_if {S = Ledger} b e)
Keeps-raise_if b e l l' a h = rw (sym (ap (λ p. p.1) h)) (Kept-refl l)

pub Keeps->>= :
    {A B : Type 0} (m : LedgerAction A) (f : A → LedgerAction B)
    → Keeps m
    → ((a : A) → Keeps (f a))
    → Keeps (m >>= f)
Keeps->>= m f keeps-m keeps-f l l' b e =
    let (a, r, e') = >>=-eq-ok m f l e in
    Kept-trans l (m l).1 l' (keeps-m l (m l).1 a (ap (λ o. (o, (m l).1)) r))
      (keeps-f a (m l).1 l' b e')
