-- ===== src/Handoff/Valid.antt =====
-- `HandoffLedger._validate_record`: true where it returns, false where it raises, which
-- `transaction` reports as a corrupt ledger. What it asks of the types is in the types of a record.
use session_peer.Common.{
  String, Bool, true, false, Option, none, some, [], ◌∷◌, ◌==◌, string_eq, ◌&&◌, ◌||◌, not, leb,
  length, is_some, if◌then◌else◌,
}
use session_peer.Common.Text.{is_hex64, every}
use session_peer.Common.Json.{Fields, at, has_exactly, is_false, is_bool, is_optional, dict}
use session_peer.Handoff.State.{
  Record, Wait, Ack, Capability, PendingReceipt, Context, Submission, WaitStatus, WaitReason,
  refused, unknown, stopped, stopped_by_operator, is_prepared, is_attempted, is_terminal,
  is_tombstone, is_quarantined, is_submitted, is_unknown, is_not_attempted, is_token,
}
use session_peer.Handoff.Texts.{Library, is_uuid, is_identifier, if_some, uint_max, utc_max}
use session_peer.Handoff.Native.{validate_native, codex_resolution}

abbrev pub is_stop_reason : Option WaitReason → Bool
is_stop_reason (some stopped_by_operator) = true
is_stop_reason _ = false

abbrev pub is_stopped : WaitStatus → Bool
is_stopped stopped = true
is_stopped _ = false

-- `for wait in record["waits"]`
unfoldable pub is_wait : Wait → Bool
is_wait w =
    is_uuid w.operation
    && leb w.deadline uint_max
    && leb w.deadline_utc utc_max
    && if_some is_uuid w.clock_epoch
    && (not (is_stopped w.status) || is_stop_reason w.reason)

unfoldable pub is_capability : Capability → Bool
is_capability c = is_hex64 c.hash && leb c.expires uint_max && is_uuid c.clock_epoch

unfoldable pub is_ack : Record → Ack → Bool
is_ack r a =
    leb a.received_utc utc_max
    && (if is_token a.assurance
        then elim a.receipt [ none ↦ false | some i ↦ is_uuid i ]
          && elim a.classified [ none ↦ false | some c ↦ is_uuid c ]
        else not (is_some a.receipt) && not (is_some a.classified))
    && is_some r.generation
    && is_submitted r.submission

unfoldable pub is_receipt : Record → PendingReceipt → Bool
is_receipt r p =
    is_uuid p.receipt
    && is_uuid p.clock_epoch
    && leb p.received uint_max
    && leb p.received_utc utc_max
    && is_some r.generation
    && is_some r.capability

-- the rules that tie the phase, the submission and the evidence together
unfoldable pub is_consistent : Record → Bool
is_consistent r =
    (not (is_terminal r.phase) || not (is_not_attempted r.submission))
    && (not (is_prepared r.phase)
        || is_not_attempted r.submission
          && not (is_some r.native)
          && not (is_some r.ack)
          && not (is_some r.receipt))
    && (not (is_attempted r.phase)
        || is_unknown r.submission && not (is_some r.native) && not (is_some r.ack))
    && (not (is_tombstone r.phase || is_quarantined r.phase)
        || is_unknown r.submission
          && not (is_some r.native)
          && not (is_some r.ack)
          && not (is_some r.receipt))
    && (not (is_tombstone r.phase) || not (is_some r.capability))
    && (not (is_submitted r.submission) || is_terminal r.phase && is_some r.native)

unfoldable pub is_binding : Record → Bool
is_binding r =
    is_identifier 128 r.binding.agent
    && is_identifier 4096 r.binding.target
    && leb 1 (length r.binding.destination)
    && leb (length r.binding.destination) 32
    && every (is_identifier 256) r.binding.destination
    && if_some (is_identifier 4096) r.binding.home
    && is_hex64 r.binding.payload_digest

-- `{"unknown": …, "refused": …}.get(record["submission"])`
abbrev failure_reason : Submission → Option String
failure_reason unknown = some "native_outcome_unknown"
failure_reason refused = some "native_submission_refused"
failure_reason _ = none

module _ (library : Library) where
  unfoldable pub is_context : Record → Context → Bool
  unfolding codex_resolution
  is_context r c =
      r.binding.agent == "codex"
      && is_optional r.binding.home c.root
      && leb (library.json_size (dict (("root", c.root) ∷ ("resolution", c.resolution) ∷ []))) 4096
      && codex_resolution c.resolution r.binding.home

  unfoldable pub is_native : Record → Fields → Bool
  unfolding validate_native
  is_native r n =
      leb (library.json_size n) 8192
      && is_bool (at "ok" n)
      && (if is_submitted r.submission
          then validate_native n r
          else has_exactly ("ok" ∷ "reason" ∷ "retryAllowed" ∷ []) n
            && is_false (at "ok" n)
            && is_false (at "retryAllowed" n)
            && is_optional (failure_reason r.submission) (at "reason" n))

  -- the part that no operation changes
  unfoldable pub is_intent : Record → Bool
  is_intent r =
      leb r.created uint_max
      && leb r.created_utc utc_max
      && if_some is_hex64 r.history_boot
      && if_some (is_identifier 256) r.generation
      && is_binding r
      && if_some (is_context r) r.context

  unfoldable pub validate_record : Record → Bool
  validate_record r =
      is_intent r
      && leb (length r.waits) 64
      && every is_wait r.waits
      && if_some is_capability r.capability
      && if_some (is_ack r) r.ack
      && if_some (is_receipt r) r.receipt
      && is_consistent r
      && if_some (is_native r) r.native
