-- ===== src/Handoff/Public/Shown.antt =====
-- When session_peer_core/handoff.py can show a record of its ledger.
use session_peer.Common.{
  ℕ, String, Bool, true, Option, none, some, List, [], ◌∷◌, ◌≡◌, ◌↔◌, inl, inr, refl, arith, ◌&&◌,
  ◌||◌, not, is_some, leb, Option-cases,
}
use session_peer.Common.Text.{every}
use session_peer.Handoff.State.{Record, Wait, is_for_ack}
use session_peer.Handoff.Texts.{Library, is_uuid, is_identifier, if_some}
use session_peer.Handoff.Valid.{validate_record, is_wait, is_ack, is_consistent, is_intent}
use session_peer.Handoff.Waits.{has_authority}
use session_peer.Handoff.View.{View}
use session_peer.Handoff.Public.{project, last_wait, public}
use session_peer.Handoff.Closed.{
  validate_public, is_observation, is_public_ack, is_public_wait, are_actions, is_satisfied, allows,
}

-- A wait that is satisfied has an acknowledgement to show for it.
unfoldable pub has_evidence : Record → Option Wait → Bool
has_evidence r none = true
has_evidence r (some w) = not (is_satisfied w.status) || (is_for_ack w.goal && is_some r.ack)

-- A receipt that is waited for has a generation to come from.
unfoldable pub has_source : Record → Bool
has_source r =
    is_some r.ack || not (r.ack_requested && has_authority r.capability) || is_some r.generation

every-last_wait :
    (p : Wait → Bool) (ws : List Wait) → every p ws ≡ true → if_some p (last_wait ws) ≡ true
every-last_wait p [] h = refl
every-last_wait p (w ∷ []) h = ground arith
every-last_wait p (w ∷ v ∷ ws) h = ground (arith, every-last_wait p (v ∷ ws))

module _ (library : Library) (epoch : String) (active : Option String) (now : ℕ) (r : Record) where
  project-reads :
      ((project epoch active now r).id ≡ r.id)
      × ((project epoch active now r).epoch ≡ epoch)
      × ((project epoch active now r).submission ≡ r.submission)
      × ((project epoch active now r).generation ≡ r.generation)
  unfolding project
  project-reads = (refl, refl, refl, refl)

  observation-shown : is_observation (project epoch active now r) ≡ true
  unfolding is_observation project
  observation-shown = ground arith

  actions-shown : are_actions (project epoch active now r) ≡ true
  unfolding are_actions project
  actions-shown = elim (Option-cases (last_wait r.waits)) [
    | inl e ↦ ground arith
    | inr (w, e) ↦ ground arith
  ]

  waits-valid : validate_record library r ≡ true → every is_wait r.waits ≡ true
  unfolding validate_record
  waits-valid h = ground arith

  ack-valid : validate_record library r ≡ true → if_some (is_ack r) r.ack ≡ true
  unfolding validate_record
  ack-valid h = ground arith

  consistent-valid : validate_record library r ≡ true → is_consistent r ≡ true
  unfolding validate_record
  consistent-valid h = ground arith

  ack-shown :
      if_some (is_ack r) r.ack ≡ true → is_public_ack (project epoch active now r) ≡ has_source r
  unfolding is_public_ack project has_source is_ack
  ack-shown h = elim (Option-cases r.ack) [
    | inl e ↦ elim (Option-cases (last_wait r.waits)) [
      | inl e' ↦ ground arith
      | inr (w, e') ↦ ground arith
    ]
    | inr (a, e) ↦ ground arith
  ]

  state-shown :
      is_consistent r ≡ true
      → if_some (is_ack r) r.ack ≡ true
      → allows (project epoch active now r).state r.submission ≡ true
  unfolding project is_consistent is_ack
  state-shown h k = elim (Option-cases (last_wait r.waits)) [
    | inl e ↦ ground arith
    | inr (w, e) ↦ ground arith
  ]

  generation-valid :
      validate_record library r ≡ true → if_some (is_identifier 256) r.generation ≡ true
  unfolding validate_record is_intent
  generation-valid h = ground arith

  wait-shown :
      if_some is_wait (last_wait r.waits) ≡ true
      → is_public_wait (project epoch active now r) ≡ has_evidence r (last_wait r.waits)
  unfolding is_public_wait project has_evidence is_wait
  wait-shown h = elim (Option-cases (last_wait r.waits)) [
    | inl e ↦ ground arith
    | inr (w, e) ↦ ground arith
  ]

  -- A record that the ledger's validation passes is shown, within the size of a view, exactly if its last
  -- wait is not satisfied without an acknowledgement to satisfy it, and a receipt that is waited for has a
  -- generation to come from.
  pub public_iff :
      (view_size : View → ℕ)
      → validate_record library r ≡ true
      → is_uuid epoch ≡ true
      → is_uuid r.id ≡ true
      → leb (view_size (project epoch active now r)) 8192 ≡ true
      → (is_some (public view_size epoch active now r) ≡ true)
        ↔ ((has_evidence r (last_wait r.waits) && has_source r) ≡ true)
  unfolding public validate_public
  public_iff view_size valid epoch_ok id_ok fits =
      let state = state-shown (consistent-valid valid) (ack-valid valid) in
      let wait = wait-shown (every-last_wait is_wait r.waits (waits-valid valid)) in
      let ack = ack-shown (ack-valid valid) in
      ground (
        arith,
        state,
        wait,
        ack,
        observation-shown,
        actions-shown,
        generation-valid valid,
        project-reads,
      )
