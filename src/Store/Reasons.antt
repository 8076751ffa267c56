-- ===== src/Store/Reasons.antt =====
-- The reasons that `Rejected` carries, each named as the source spells it.
pub data Reason : Type 0 where
  retired_key key_already_used invalid_principal recovery_required invalid_pairing_offer_id : Reason
  pairing_offer_exists pairing_rate_limited invalid_client_key client_key_unavailable : Reason
  pairing_identity_changed principal_already_paired pairing_offer_capacity : Reason
  invalid_pairing_link pairing_offer_unknown invalid_invitation invalid_certificate : Reason
  pairing_offer_required invalid_pairing_offer invalid_client_identity unproven_principal : Reason
  invitation_already_reserved revoked_device invitation_consumed peer_already_reserved : Reason
  pairing_not_pending pin_mismatch invalid_pairing_intent pairing_intent_conflict : Reason
  unproven_receiver_principal receiver_pairing_pending pairing_intent_capacity : Reason
  unpaired_device operation_denied message_id_conflict journal_full : Reason
  invalid_rotation_id invalid_rotation invalid_rotation_proof rotation_id_conflict : Reason
  rotation_generation_conflict rotation_in_progress rotation_not_prepared : Reason
  new_key_proof_required rotation_requires_paired_peer : Reason
  restored_state_required recovery_tombstone_required recovery_operation_conflict : Reason
  fresh_state_required recovery_plan_not_found invalid_operation_id : Reason
  invalid_reconciliation native_effect_not_found control_fence_not_required : Reason
  invalid_operation_receipt recovery_archive_mismatch recovery_gates_incomplete : Reason
  application_frame_too_large native_worker_frame_too_large invalid_explain : Reason
  invalid_request invalid_request_id peer_policy_denied key_rotation_restricted : Reason
  invalid_list_request invalid_body invalid_target target_denied invalid_message : Reason
  framed_message_too_large : Reason
  recovery_peer_not_found invalid_recovery_routes invalid_recovery_request : Reason
  recovery_identity_mismatch invalid_recovery_proof old_identity_not_paired : Reason
  new_identity_already_known invalid_recovery_approval recovery_peer_mismatch : Reason
  recovery_generation_required recovery_generation_conflict invalid_recovery_capabilities : Reason
