-- ===== src/Admission/Limits.antt =====
-- How many connections a Receiver holds, and that each holds a place.
use session_peer.Common.{
  suc, leb, ◌+◌, ◌≤◌, ◌≡◌, refl, Bool, true, false, List, [], ◌∷◌, nat_eq, arith, inl, inr,
  Bool-cases, length, length-append, if◌then◌else◌,
}
use session_peer.Common.Sql.{length-delete}
use session_peer.Admission.{
  Raw, same_raw, Receiver, fresh, contains, add, discard, abort, spawn, authenticate, completed,
  release, accept, refuse, is_full, Event, spawns, authenticates, ends, completes, closes, step,
  run,
}

-- The sets are within their limits.
pub record IsBounded (r : Receiver) : Type 0 where
  pub few_direct : length r.direct_preauth ≤ 16
  pub few_relayed : length r.relay_preauth ≤ 2
  pub few_authenticated : length r.authenticated ≤ 8

length-add : (raw : Raw) (rs : List Raw) → length (add raw rs) ≤ length rs + 1
length-add raw rs = ground (arith, length-append rs (raw ∷ []))

length-discard : (raw : Raw) (rs : List Raw) → length (discard raw rs) ≤ length rs
length-discard raw rs = length-delete (same_raw raw) rs

release-IsBounded : (raw : Raw) (r : Receiver) → IsBounded r → IsBounded (release raw r)
unfolding release
release-IsBounded raw r h = record {
  few_direct = omega (arith, h.few_direct, length-discard raw r.direct_preauth);
  few_relayed = omega (arith, h.few_relayed, length-discard raw r.relay_preauth);
  few_authenticated = omega (arith, h.few_authenticated, length-discard raw r.authenticated);
}

-- Only the three sets matter.
same-IsBounded :
    (r t : Receiver)
    → t.direct_preauth ≡ r.direct_preauth
    → t.relay_preauth ≡ r.relay_preauth
    → t.authenticated ≡ r.authenticated
    → IsBounded r
    → IsBounded t
same-IsBounded r t p q a h = record {
  few_direct = rw p h.few_direct;
  few_relayed = rw q h.few_relayed;
  few_authenticated = rw a h.few_authenticated;
}

abort-IsBounded :
    (fails : Bool) (raw : Raw) (r : Receiver) → IsBounded r → IsBounded (abort fails raw r)
unfolding abort
abort-IsBounded fails raw r h =
    let t = if fails then record r { abort_failed = suc r.abort_failed } else r in
    release-IsBounded raw t (same-IsBounded r t (ground arith) (ground arith) (ground arith) h)

accept-IsBounded :
    (raw : Raw) (r : Receiver) → is_full raw r ≡ false → IsBounded r → IsBounded (accept raw r)
unfolding accept
accept-IsBounded raw r room h = record {
  few_direct = ground (arith, h.few_direct, length-add raw r.direct_preauth);
  few_relayed = ground (arith, h.few_relayed, length-add raw r.relay_preauth);
  few_authenticated = h.few_authenticated;
}

-- Either way that a test goes.
if-IsBounded :
    (b : Bool) (x y : Receiver)
    → (b ≡ true → IsBounded x)
    → (b ≡ false → IsBounded y)
    → IsBounded (if b then x else y)
if-IsBounded true x y h k = h refl
if-IsBounded false x y h k = k refl

spawn-IsBounded :
    (fails : Bool) (raw : Raw) (r : Receiver) → IsBounded r → IsBounded (spawn fails raw r)
unfolding spawn
spawn-IsBounded fails raw r h =
    let t = record r { closing_refused = suc r.closing_refused } in
    if-IsBounded r.closing _ _
      (λ e. abort-IsBounded fails raw t (same-IsBounded r t refl refl refl h))
      (λ e.
        if-IsBounded (is_full raw r) _ _
          (λ full.
            abort-IsBounded fails raw (refuse raw r)
              (same-IsBounded r (refuse raw r) refl refl refl h))
          (λ room. accept-IsBounded raw r room h))

authenticate-IsBounded :
    (fails : Bool) (raw : Raw) (r : Receiver) → IsBounded r → IsBounded (authenticate fails raw r)
unfolding authenticate
authenticate-IsBounded fails raw r h =
    let t = record r { authenticated_refused = suc r.authenticated_refused } in
    if-IsBounded (leb 8 (length r.authenticated)) _ _
      (λ full. abort-IsBounded fails raw t (same-IsBounded r t refl refl refl h))
      (λ room. record {
        few_direct = omega (arith, h.few_direct, length-discard raw r.direct_preauth);
        few_relayed = omega (arith, h.few_relayed, length-discard raw r.relay_preauth);
        few_authenticated = ground (arith, length-add raw r.authenticated);
      })

completed-IsBounded :
    (fails failed : Bool) (raw : Raw) (r : Receiver)
    → IsBounded r
    → IsBounded (completed fails failed raw r)
unfolding completed
completed-IsBounded fails failed raw r h =
    let t = if contains raw r.connections then abort fails raw r else r in
    let u = if failed then record t { handler_failed = suc t.handler_failed } else t in
    let held : IsBounded t = elim (Bool-cases (contains raw r.connections)) [
      | inl e ↦ rw e (abort-IsBounded fails raw r h)
      | inr e ↦ rw e h
    ] in
    release-IsBounded raw u (same-IsBounded t u (ground arith) (ground arith) (ground arith) held)

step-IsBounded : (e : Event) (r : Receiver) → IsBounded r → IsBounded (step e r)
unfolding step
step-IsBounded (spawns fails raw) r h = spawn-IsBounded fails raw r h
step-IsBounded (authenticates fails raw) r h = authenticate-IsBounded fails raw r h
step-IsBounded (ends fails raw) r h = abort-IsBounded fails raw r h
step-IsBounded (completes fails failed raw) r h = completed-IsBounded fails failed raw r h
step-IsBounded closes r h = same-IsBounded r _ refl refl refl h

run-IsBounded : (es : List Event) (r : Receiver) → IsBounded r → IsBounded (run es r)
unfolding run
run-IsBounded [] r h = h
run-IsBounded (e ∷ es) r h = run-IsBounded es (step e r) (step-IsBounded e r h)

-- After any events on a fresh Receiver, at most 16 connections over TCP and 2 through the Relay wait for
-- authentication, and at most 8 are authenticated.
pub run-bounds :
    (es : List Event)
    → let r = run es fresh in
      (length r.direct_preauth ≤ 16) × (length r.relay_preauth ≤ 2) × (length r.authenticated ≤ 8)
run-bounds es =
    let h = run-IsBounded es fresh (record {
      few_direct = omega arith;
      few_relayed = omega arith;
      few_authenticated = omega arith;
    }) in
    (h.few_direct, h.few_relayed, h.few_authenticated)
