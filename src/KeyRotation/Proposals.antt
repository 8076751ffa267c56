-- ===== src/KeyRotation/Proposals.antt =====
-- What a rotation's proposal needs to be accepted, and what repeated requests answer.
use mathlib.Core.Path.{subst}
use session_peer.Common.{
  ℕ, ◌+◌, String, ◌≡◌, refl, sym, ◌∙◌, true, false, Option, none, some, ◌==◌, string_eq, eq_iff,
  ◌&&◌, arith, ok, ◌⊎◌, inl, inr, Option-cases, >>=-eq-ok,
}
use session_peer.Common.Sql.{exists}
use session_peer.Common.Json.{Json, Fields, str, obj, get_or, null, num, is_text}
use session_peer.Store.State.{
  Store, PeerKey, active, Rotation, Proposal, Platform, Action, atomically,
}
use session_peer.Store.Keys.{find_key, as_generation}
use session_peer.KeyRotation.{
  is_prepared, find_rotation, find_bound, continues, operation_id, status_of, read_proposal,
  read_body, proposal_of, add_rotation, prepare_new, prepare_locked, remote_prepare,
}
use session_peer.KeyRotation.Handover.{status_of-reads}

module _ (platform : Platform) where
  operation_id-reads : (value : Json) (s : Store) → (operation_id platform value s).1 ≡ s
  unfolding operation_id
  operation_id-reads value s = ground arith

  -- Reading a proposal does not write, and depends on the state by the receiver's own name.
  read_body-device :
      (peer key : String) (body : Fields) (s t : Store)
      → t.device ≡ s.device
      → ((read_body platform peer key body s).1 ≡ s)
        × ((read_body platform peer key body t).1 ≡ t)
        × ((read_body platform peer key body t).0 ≡ (read_body platform peer key body s).0)
  unfolding read_body operation_id
  read_body-device peer key body s t e = elim (Option-cases (proposal_of s.device peer key body)) [
    | inl o ↦ ground arith
    | inr (p, o) ↦ ground arith
  ]

  pub read_proposal-device :
      (peer key : String) (value : Json) (s t : Store)
      → t.device ≡ s.device
      → ((read_proposal platform peer key value s).1 ≡ s)
        × ((read_proposal platform peer key value t).1 ≡ t)
        × ((read_proposal platform peer key value t).0
            ≡ (read_proposal platform peer key value s).0)
  unfolding read_proposal
  read_proposal-device peer key (obj body) s t e = read_body-device peer key body s t e
  read_proposal-device peer key _ s t e = (refl, refl, refl)

  -- A new proposal that is accepted.
  pub record IsNew (peer key ident digest : String) (p : Proposal) (s t : Store) : Type 0 where
    pub follows : continues (find_bound key peer s) p.generation ≡ true
    pub alone : exists (λ r. r.peer == peer && is_prepared r.status) s.rotations ≡ false
    pub fresh : String
    pub certified : platform.fingerprint p.certificate ≡ some fresh
    pub unused : find_key fresh s ≡ none
    pub generation : ℕ
    pub counted : as_generation p.generation ≡ some generation
    pub after : t ≡ add_rotation platform peer ident digest p fresh generation s

  prepare_new_ok :
      (peer key ident digest : String) (p : Proposal) (s t : Store) (reply : Fields)
      → prepare_new platform peer key ident digest p s ≡ (ok reply, t)
      → IsNew peer key ident digest p s t × ((status_of platform peer ident t).0 ≡ ok reply)
  unfolding prepare_new
  prepare_new_ok peer key ident digest p s t reply h =
      elim (Option-cases (platform.fingerprint p.certificate)) [
        | inl e ↦ ground arith
        | inr (fresh, e) ↦ elim (Option-cases (as_generation p.generation)) [
          | inl e' ↦ ground arith
          | inr (n, e') ↦
              let u = add_rotation platform peer ident digest p fresh n s in
              (
                record {
                  follows = ground arith;
                  alone = ground arith;
                  fresh = fresh;
                  certified = e;
                  unused = ground arith;
                  generation = n;
                  counted = e';
                  after = ground (arith, status_of-reads platform peer ident u);
                },
                ground (arith, status_of-reads platform peer ident u),
              )
        ]
      ]

  -- A repeated proposal under the same identifier and with the same digest, or a new one.
  abbrev pub Accepted : String → String → String → Proposal → Store → Store → Type 0
  Accepted peer key ident p s t =
      let digest = platform.sha256 (platform.canonical p.body) in
      ((r : Rotation) × (find_rotation peer ident s ≡ some r) × (r.hash ≡ digest) × (t ≡ s))
      ⊎ ((find_rotation peer ident s ≡ none) × IsNew peer key ident digest p s t)

  pub prepare_locked_ok :
      (peer key ident : String) (p : Proposal) (s t : Store) (reply : Fields)
      → prepare_locked platform peer key ident p s ≡ (ok reply, t)
      → Accepted peer key ident p s t × ((status_of platform peer ident t).0 ≡ ok reply)
  unfolding prepare_locked
  prepare_locked_ok peer key ident p s t reply h =
      let digest = platform.sha256 (platform.canonical p.body) in
      elim (Option-cases (find_rotation peer ident s)) [
        | inl e ↦
            let done = prepare_new_ok peer key ident digest p s t reply (ground arith) in
            (inr (e, done.0), done.1)
        | inr (r, e) ↦ (
          inl (
            r,
            e,
            ground (arith, eq_iff r.hash digest),
            ground (arith, status_of-reads platform peer ident s),
          ),
          ground (arith, status_of-reads platform peer ident s),
        )
      ]

  atomically_ok :
      (m : Action Fields) (s t : Store) (reply : Fields)
      → atomically m s ≡ (ok reply, t)
      → m s ≡ (ok reply, t)
  unfolding atomically
  atomically_ok m s t reply h = ground arith

  -- A proposal that `remote_prepare` accepts was read as such and verified.
  pub remote_prepare_ok :
      (peer key : String) (value : Json) (s t : Store) (reply : Fields)
      → remote_prepare platform peer key value s ≡ (ok reply, t)
      → (ident : String) × (p : Proposal) × ((read_proposal platform peer key value s).0
          ≡ ok (ident, p))
        × Accepted peer key ident p s t
        × ((status_of platform peer ident t).0 ≡ ok reply)
  unfolding remote_prepare
  remote_prepare_ok peer key value s t reply h =
      let (found, e, rest) = >>=-eq-ok (read_proposal platform peer key value) _ s h in
      let same = (read_proposal-device peer key value s s refl).0 in
      let done = prepare_locked_ok peer key found.0 found.1 s t reply (
        atomically_ok (prepare_locked platform peer key found.0 found.1) s t reply (
          subst
            (λ u. atomically (prepare_locked platform peer key found.0 found.1) u ≡ (ok reply, t))
            same rest)) in
      (found.0, found.1, e, done.0, done.1)

  is_text_ok : (x : String) (v : Json) → is_text x v ≡ true → v ≡ str x
  is_text_ok x (str y) h = ground (arith, eq_iff y x)
  is_text_ok x _ h = ground arith

  proposal_of_ok :
      (device peer key : String) (body : Fields) (p : Proposal)
      → proposal_of device peer key body ≡ some p
      → (p.body ≡ body)
        × (p.generation ≡ get_or "generation" null body)
        × (get_or "certificate" null body ≡ str p.certificate)
        × (get_or "principal" null body ≡ str peer)
        × (get_or "previous" null body ≡ str key)
  unfolding proposal_of
  proposal_of_ok device peer key body p h = ground (
    arith,
    is_text_ok peer (get_or "principal" null body),
    is_text_ok key (get_or "previous" null body),
  )

  operation_id_ok :
      (value : Json) (ident : String) (s : Store)
      → (operation_id platform value s).0 ≡ ok ident
      → value ≡ str ident
  unfolding operation_id
  operation_id_ok (str x) ident s h = ground arith
  operation_id_ok _ ident s h = ground arith

  read_body_ok :
      (peer key : String) (body : Fields) (s : Store) (ident : String) (p : Proposal)
      → (read_body platform peer key body s).0 ≡ ok (ident, p)
      → (platform.verifies body ≡ true)
        × (get_or "id" null body ≡ str ident)
        × (proposal_of s.device peer key body ≡ some p)
  unfolding read_body
  read_body_ok peer key body s ident p h =
      elim (Option-cases (proposal_of s.device peer key body)) [
        | inl e ↦ ground (arith, operation_id-reads (get_or "id" null body) s)
        | inr (q, e) ↦ ground (
          arith,
          operation_id-reads (get_or "id" null body) s,
          operation_id_ok (get_or "id" null body) ident s,
        )
      ]

  continues_ok :
      (o : Option PeerKey) (g : Json)
      → continues o g ≡ true
      → (k : PeerKey) × (o ≡ some k) × (k.status ≡ active) × (g ≡ num (k.generation + 1))
  continues_ok (some k) (num n) h = (k, refl, ground arith, ground arith)
  continues_ok none g h = ground arith
  continues_ok _ _ h = ground arith

  new_of :
      (peer key ident : String) (p : Proposal) (s t : Store)
      → Accepted peer key ident p s t
      → find_rotation peer ident s ≡ none
      → continues (find_bound key peer s) p.generation ≡ true
  new_of peer key ident p s t (inl (r, found, _, _)) absent = ground arith
  new_of peer key ident p s t (inr (_, new)) absent = new.follows

  -- If `remote_prepare` accepts a proposal under an identifier that the device has not used before,
  -- its proof is verified, it names the device and the presenting key, that key is bound to the device
  -- and active, and the proposal's generation is the one after the key's.
  pub prepare_follows :
      (peer key ident : String) (body : Fields) (s t : Store) (reply : Fields)
      → remote_prepare platform peer key (obj body) s ≡ (ok reply, t)
      → get_or "id" null body ≡ str ident
      → find_rotation peer ident s ≡ none
      → (platform.verifies body ≡ true)
        × (get_or "principal" null body ≡ str peer)
        × (get_or "previous" null body ≡ str key)
        × ((k : PeerKey) × (find_bound key peer s ≡ some k)
            × (k.status ≡ active)
            × (get_or "generation" null body ≡ num (k.generation + 1)))
  unfolding read_proposal
  prepare_follows peer key ident body s t reply h named absent =
      let (ident', p, read, done, told) = remote_prepare_ok peer key (obj body) s t reply h in
      let (verified, named', made) = read_body_ok peer key body s ident' p read in
      let (_, generation, _, principal, previous) = proposal_of_ok s.device peer key body p made in
      let same : ident' ≡ ident = ground arith in
      let follows = new_of peer key ident' p s t done (rw same absent) in
      let (k, bound, live, next) = continues_ok (find_bound key peer s) p.generation follows in
      (verified, principal, previous, (k, bound, live, sym generation ∙ next))
