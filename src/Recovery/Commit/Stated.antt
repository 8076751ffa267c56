-- ===== src/Recovery/Commit/Stated.antt =====
-- What an approval says that `peer_commit` of session_peer_relay/recovery.py takes.
use session_peer.Common.{
  none, refl, ◌≤◌, ap, eq_iff, ℕ, String, true, false, some, List, ◌==◌, string_eq, nat_eq, ok, ◌≡◌,
  ◌⊎◌, inl, inr, arith, Option-cases, Bool-cases, eq_refl,
}
use session_peer.Common.Sql.{find, find-insert}
use session_peer.Common.Json.{
  Json, Items, nil, cons, null, str, arr, get, is_text, is_text-eq, Fields, at, num,
}
use session_peer.Store.State.{Store, active, Platform}
use session_peer.Store.Keys.{find_key, new_key, register_key}
use session_peer.Recovery.State.{Progress, pending, committed, Plan, PlanPeer, Device}
use session_peer.Recovery.Status.{is_committed}
use session_peer.Recovery.Routes.{Keeper, is_verified}
use session_peer.Recovery.Approve.{text_items, without}
use session_peer.Recovery.Commit.{
  is_for_plan, is_for_peer, is_null, is_own_key, capabilities_in, peer_of, capabilities_of, exact,
  generation_of, pinned_generation, read_response,
}

pub is_verified-ok :
    (keeper : Keeper) (cert : String) (payload : Fields) (j : Json)
    → is_verified keeper cert payload j ≡ true
    → (proof : String) × (j ≡ str proof) × (keeper.verified cert payload proof ≡ true)
unfolding is_verified
is_verified-ok keeper cert payload (str proof) h = (proof, refl, ground arith)
is_verified-ok keeper cert payload _ h = ground arith

capabilities_in-items :
    (l : Items) (cs : List String) → capabilities_in l ≡ some cs → l ≡ text_items cs
capabilities_in-items nil cs h = ground arith
capabilities_in-items (cons (str s) l) cs h = elim (Option-cases (capabilities_in l)) [
  | inl e ↦ ground arith
  | inr (more, e) ↦ ground (arith, capabilities_in-items l more e)
]
capabilities_in-items (cons _ l) cs h = ground arith

pub capabilities_of-items :
    (j : Json) (cs : List String) → capabilities_of j ≡ some cs → j ≡ arr (text_items cs)
capabilities_of-items (arr l) cs h = ap arr (capabilities_in-items l cs h)
capabilities_of-items _ cs h = ground arith

exact-num : (j : Json) (n : ℕ) → exact j ≡ some n → (j ≡ num n) × (n ≤ 9007199254740991)
exact-num (num k) n h = (ground arith, ground arith)
exact-num _ n h = ground arith

is_null-eq : (j : Json) → is_null j ≡ true → j ≡ null
is_null-eq null h = refl
is_null-eq _ h = ground arith

pub is_committed-eq : (p : Progress) → is_committed p ≡ true → p ≡ committed
is_committed-eq committed h = refl
is_committed-eq pending h = ground arith

pub not_committed-eq : (p : Progress) → is_committed p ≡ false → p ≡ pending
not_committed-eq pending h = refl
not_committed-eq committed h = ground arith

pub register_key-holds :
    (platform : Platform) (owner cert : String) (n : ℕ) (s : Store)
    → (register_key platform owner cert (num n) s).0 ≡ ok tt
    → (key : String) × (platform.fingerprint cert ≡ some key)
      × (find_key key (register_key platform owner cert (num n) s).1
          ≡ some (elim (find_key key s) [ some k ↦ k | none ↦ new_key key owner cert n active ]))
unfolding register_key
register_key-holds platform owner cert n s h = elim (Option-cases (platform.fingerprint cert)) [
  | inl e ↦ ground arith
  | inr (key, e) ↦ (
    key,
    e,
    ground (
      arith,
      eq_refl key,
      find-insert (λ k. k.fingerprint == key) (new_key key owner cert n active) s.peer_keys,
    ),
  )
]

module _ (platform : Platform) (keeper : Keeper) where
  -- The approval is for the plan, the device and that peer of the plan, under the certificate that the plan has
  -- for the peer, and it is signed by that certificate.
  abbrev pub IsFor : Plan → PlanPeer → Store → Fields → Type 0
  IsFor plan item s d =
      (find (λ x. is_text x.principal (at "peerPrincipal" d)) plan.peers ≡ some item)
      × (at "recoveryId" d ≡ str plan.id)
      × (at "oldPrincipal" d ≡ str plan.old_principal)
      × (at "newPrincipal" d ≡ str s.device)
      × (at "operationId" d ≡ str item.operation)
      × (at "certificate" d ≡ str item.certificate)
      × (proof : String) × (at "proof" d ≡ str proof)
      × (keeper.verified item.certificate (without "proof" d) proof ≡ true)

  is_for_plan-eq :
      (plan : Plan) (s : Store) (d : Fields)
      → is_for_plan plan s d ≡ true
      → (at "recoveryId" d ≡ str plan.id)
        × (at "oldPrincipal" d ≡ str plan.old_principal)
        × (at "newPrincipal" d ≡ str s.device)
  is_for_plan-eq plan s d h = (
    is_text-eq plan.id (at "recoveryId" d) (ground arith),
    is_text-eq plan.old_principal (at "oldPrincipal" d) (ground arith),
    is_text-eq s.device (at "newPrincipal" d) (ground arith),
  )

  is_for_peer-eq :
      (item : PlanPeer) (d : Fields)
      → is_for_peer item d ≡ true
      → (at "operationId" d ≡ str item.operation) × (at "certificate" d ≡ str item.certificate)
  is_for_peer-eq item d h = (
    is_text-eq item.operation (at "operationId" d) (ground arith),
    is_text-eq item.certificate (at "certificate" d) (ground arith),
  )

  read_response-ok :
      (plan : Plan) (d : Fields) (v v' : Device) (item : PlanPeer)
      → read_response platform keeper plan d v ≡ (ok item, v')
      → (is_for_plan plan v.store d ≡ true)
        × (peer_of plan d ≡ some item)
        × (is_for_peer item d ≡ true)
        × (is_verified keeper item.certificate (without "proof" d) (at "proof" d) ≡ true)
        × (v' ≡ v)
  unfolding read_response
  read_response-ok plan d v v' item h = elim (Bool-cases (is_for_plan plan v.store d)) [
    | inr e ↦ ground arith
    | inl e ↦ elim (Option-cases (peer_of plan d)) [
      | inl e' ↦ ground arith
      | inr (x, e') ↦ elim (Bool-cases (is_for_peer x d)) [
        | inr e'' ↦ ground arith
        | inl e'' ↦ (e, ground arith, ground arith, ground arith, ground arith)
      ]
    ]
  ]

  pub read_response-IsFor :
      (plan : Plan) (d : Fields) (v v' : Device) (item : PlanPeer)
      → read_response platform keeper plan d v ≡ (ok item, v')
      → IsFor plan item v.store d × (v' ≡ v)
  read_response-IsFor plan d v v' item h =
      let (for_plan, found, for_peer, signed, same) = read_response-ok plan d v v' item h in
      let (a, b, c) = is_for_plan-eq plan v.store d for_plan in
      let (o, t) = is_for_peer-eq item d for_peer in
      let (proof, p, q) =
        is_verified-ok keeper item.certificate (without "proof" d) (at "proof" d) signed in
      ((found, a, b, c, o, t, proof, p, q), same)

  -- The generation is the one that the approval states; or it states none and the archived one is taken; or
  -- there is neither, the certificate is the principal's own, and it is 0.
  abbrev pub IsStated : PlanPeer → Fields → ℕ → Type 0
  IsStated item d n =
      (get "peerGeneration" d ≡ some (num n))
      ⊎ ((get "peerGeneration" d ≡ none) × (item.generation ≡ some n))
      ⊎ (((get "peerGeneration" d ≡ some null)
            ⊎ ((get "peerGeneration" d ≡ none) × (item.generation ≡ none)))
          × (platform.fingerprint item.certificate ≡ some item.principal)
          × (n ≡ 0))

  own_key-eq :
      (item : PlanPeer)
      → is_own_key platform keeper item ≡ true
      → platform.fingerprint item.certificate ≡ some item.principal
  own_key-eq item h = elim (Option-cases (platform.fingerprint item.certificate)) [
    | inl e ↦ ground arith
    | inr (key, e) ↦ ground (arith, eq_iff key item.principal)
  ]

  generation_of-IsStated :
      (item : PlanPeer) (d : Fields) (n : ℕ)
      → generation_of platform keeper item d ≡ num n
      → IsStated item d n
  generation_of-IsStated item d n h = elim (Option-cases (get "peerGeneration" d)) [
    | inr (g, e) ↦ elim (Bool-cases (is_null g)) [
      | inl null_g ↦ inr (
          inr (
            inl (ground (arith, is_null-eq g null_g)),
            own_key-eq item (ground (arith, is_null-eq g null_g)),
            ground (arith, is_null-eq g null_g),
          ))
      | inr real_g ↦ inl (ground arith)
    ]
    | inl e ↦ elim (Option-cases item.generation) [
      | inl e' ↦ inr (inr (inr (e, e'), own_key-eq item (ground arith), ground arith))
      | inr (k, e') ↦ inr (inl (e, ground arith))
    ]
  ]

  pub pinned_generation-IsStated :
      (item : PlanPeer) (d : Fields) (v v' : Device) (n : ℕ)
      → pinned_generation platform keeper item d v ≡ (ok n, v')
      → IsStated item d n
        × (n ≤ 9007199254740991)
        × ((k : ℕ) → item.generation ≡ some k → n ≡ k)
        × (v' ≡ v)
  unfolding pinned_generation
  pinned_generation-IsStated item d v v' n h =
      elim (Option-cases (exact (generation_of platform keeper item d))) [
        | inl e ↦ ground arith
        | inr (x, e) ↦
            let (is, fits) = exact-num (generation_of platform keeper item d) n (ground arith) in
            (generation_of-IsStated item d n is, fits, λ k pinned. ground arith, ground arith)
      ]
