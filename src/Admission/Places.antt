-- ===== src/Admission/Places.antt =====
-- Every connection of a Receiver holds a place in one of its sets.
use session_peer.Common.{
  suc, leb, ◌≡◌, ◌↔◌, Bool, true, false, List, [], ◌∷◌, ◌||◌, ◌&&◌, not, nat_eq, arith, inl, inr,
  Bool-cases, length, if◌then◌else◌, Option-cases,
}
use session_peer.Common.Sql.{find, find-insert, find-delete_ne, find-delete_self}
use session_peer.Admission.{
  Raw, direct, relayed, same_raw, is_full, Receiver, fresh, contains, add, discard, abort, accept,
  refuse, release, Event, spawns, authenticates, ends, completes, closes, step, run,
}

same_raw_iff : (a b : Raw) → (same_raw a b ≡ true) ↔ (a ≡ b)
same_raw_iff (direct a) (direct b) = ground arith
same_raw_iff (relayed a) (relayed b) = ground arith
same_raw_iff _ _ = ground arith

contains-add : (x y : Raw) (rs : List Raw) → contains x (add y rs) ≡ (same_raw x y || contains x rs)
contains-add x y rs = elim (Option-cases (find (same_raw y) rs)) [
  | inl e ↦ ground (arith, find-insert (same_raw x) y rs)
  | inr (z, e) ↦ elim (Bool-cases (same_raw x y)) [
    | inl s ↦ ground (arith, (same_raw_iff x y).0 s)
    | inr n ↦ ground arith
  ]
]

contains-discard :
    (x y : Raw) (rs : List Raw) → contains x (discard y rs) ≡ (not (same_raw x y) && contains x rs)
contains-discard x y rs = elim (Bool-cases (same_raw x y)) [
  | inl s ↦ ground (arith, same_raw_iff x y, find-delete_self (same_raw y) rs)
  | inr n ↦ ground (
    arith,
    find-delete_ne (same_raw y) (same_raw x) rs
        (λ r h. ground (arith, same_raw_iff x r, same_raw_iff y r, same_raw_iff x y)),
  )
]

abbrev holds_place : Raw → Receiver → Bool
holds_place x r =
    contains x r.direct_preauth || contains x r.relay_preauth || contains x r.authenticated

-- whoever is connected holds a place
abbrev pub IsPlaced : Receiver → Type 0
IsPlaced r = (x : Raw) → contains x r.connections ≡ true → holds_place x r ≡ true

release-IsPlaced : (raw : Raw) (r : Receiver) → IsPlaced r → IsPlaced (release raw r)
unfolding release
release-IsPlaced raw r h x c = ground (
  arith,
  h x,
  contains-discard x raw r.connections,
  contains-discard x raw r.direct_preauth,
  contains-discard x raw r.relay_preauth,
  contains-discard x raw r.authenticated,
)

accept-IsPlaced : (raw : Raw) (r : Receiver) → IsPlaced r → IsPlaced (accept raw r)
unfolding accept
accept-IsPlaced raw r h x c = ground (
  arith,
  h x,
  contains-add x raw r.connections,
  contains-add x raw r.direct_preauth,
  contains-add x raw r.relay_preauth,
)

abort-IsPlaced :
    (fails : Bool) (raw : Raw) (r : Receiver) → IsPlaced r → IsPlaced (abort fails raw r)
unfolding abort
abort-IsPlaced true raw r h =
    release-IsPlaced raw (record r { abort_failed = suc r.abort_failed }) h
abort-IsPlaced false raw r h = release-IsPlaced raw r h

if-IsPlaced : (b : Bool) (x y : Receiver) → IsPlaced x → IsPlaced y → IsPlaced (if b then x else y)
if-IsPlaced true x y h k = h
if-IsPlaced false x y h k = k

admit-IsPlaced :
    (raw : Raw) (r : Receiver)
    → IsPlaced r
    → IsPlaced (record r {
      authenticated = add raw r.authenticated;
      direct_preauth = discard raw r.direct_preauth;
      relay_preauth = discard raw r.relay_preauth;
    })
admit-IsPlaced raw r h x c = ground (
  arith,
  h x,
  contains-add x raw r.authenticated,
  contains-discard x raw r.direct_preauth,
  contains-discard x raw r.relay_preauth,
)

step-IsPlaced : (e : Event) (r : Receiver) → IsPlaced r → IsPlaced (step e r)
unfolding step
step-IsPlaced (spawns fails raw) r h =
    if-IsPlaced r.closing _ _
      (abort-IsPlaced fails raw (record r { closing_refused = suc r.closing_refused }) h)
      (if-IsPlaced (is_full raw r) _ _ (abort-IsPlaced fails raw (refuse raw r) h)
        (accept-IsPlaced raw r h))
step-IsPlaced (authenticates fails raw) r h =
    if-IsPlaced (leb 8 (length r.authenticated)) _ _
      (abort-IsPlaced fails raw (record r { authenticated_refused = suc r.authenticated_refused })
        h)
      (admit-IsPlaced raw r h)
step-IsPlaced (ends fails raw) r h = abort-IsPlaced fails raw r h
step-IsPlaced (completes fails failed raw) r h =
    let t = if contains raw r.connections then abort fails raw r else r in
    let held : IsPlaced t =
      if-IsPlaced (contains raw r.connections) (abort fails raw r) r (abort-IsPlaced fails raw r h)
        h in
    release-IsPlaced raw (if failed then record t { handler_failed = suc t.handler_failed } else t)
      (if-IsPlaced failed (record t { handler_failed = suc t.handler_failed }) t held held)
step-IsPlaced closes r h = h

run-IsPlaced : (es : List Event) (r : Receiver) → IsPlaced r → IsPlaced (run es r)
unfolding run
run-IsPlaced [] r h = h
run-IsPlaced (e ∷ es) r h = run-IsPlaced es (step e r) (step-IsPlaced e r h)

-- After any events on a fresh Receiver, whoever is among its connections is also among those that wait
-- for authentication or among the authenticated.
pub run-places :
    (es : List Event) (x : Raw)
    → contains x (run es fresh).connections ≡ true
    → let r = run es fresh in
      (contains x r.direct_preauth || contains x r.relay_preauth || contains x r.authenticated)
      ≡ true
run-places es x c = run-IsPlaced es fresh (λ y d. unfold find in ground arith) x c
