-- ===== src/Handoff/Native.antt =====
-- `handoff_codex_resolution`, `handoff_validate_native` and `handoff_validate_dry_run`: the profiles of
-- a native result. Each is true where the code returns and false where it raises.
use session_peer.Common.{
  ℕ, suc, String, Bool, true, false, Option, none, some, List, [], ◌∷◌, ◌+◌, ◌==◌, nat_eq,
  string_eq, ◌&&◌, ◌||◌, not, ltb, leb, length, if◌then◌else◌,
}
use session_peer.Common.Text.{codes, matches, times, hyphen, is_hex, prints_as}
use session_peer.Common.Json.{
  Json, Items, Fields, null, num, str, arr, obj, nil, cons, at, get, closed, has_exactly, is_true,
  is_false, is_bool, is_text, is_one_of, is_upto, is_optional, same_json,
}
use session_peer.Handoff.State.{Record}
use session_peer.Handoff.Texts.{is_identifier, if_some, utc_max}

-- `MAX_MESSAGE_CHARS` of session_peer_core/common.py
abbrev max_message_chars : ℕ
max_message_chars = 1000000

-- `handoff_identifier` of a value that may be no text
abbrev is_identifier_value : ℕ → Json → Bool
is_identifier_value limit (str s) = is_identifier limit s
is_identifier_value limit _ = false

abbrev if_present : String → (Json → Bool) → Fields → Bool
if_present k p d = if_some p (get k d)

abbrev is_null : Json → Bool
is_null null = true
is_null _ = false

-- `for candidate in resolution["candidates"]`
unfoldable is_candidate : Json → Bool
is_candidate (obj d) =
    closed ("codexHome" ∷ "savedThread" ∷ "writerLock" ∷ "reason" ∷ [])
      ("activity" ∷ "ownerPid" ∷ "ownerStartTime" ∷ "ownerStable" ∷ []) d
    && (is_null (at "savedThread" d) || is_bool (at "savedThread" d))
    && is_one_of ("not_checked" ∷ "absent" ∷ "free" ∷ "held" ∷ "unknown" ∷ []) (at "writerLock" d)
    && (is_null (at "activity" d)
        || is_one_of ("inactive" ∷ "live_writer" ∷ "unknown" ∷ []) (at "activity" d))
    && is_identifier_value 4096 (at "codexHome" d)
    && is_identifier_value 256 (at "reason" d)
    && if_present "ownerStable" is_bool d
    && if_present "ownerPid" (is_upto utc_max) d
    && if_present "ownerStartTime" (is_identifier_value 4096) d
is_candidate _ = false

unfoldable all_candidates : Items → Bool
unfolding is_candidate
all_candidates nil = true
all_candidates (cons v l) = is_candidate v && all_candidates l

abbrev count_items : Items → ℕ
count_items nil = 0
count_items (cons v l) = suc (count_items l)

abbrev is_selected : Option String → Json → Bool
is_selected root (obj d) = is_optional root (at "codexHome" d) && is_true (at "savedThread" d)
is_selected root _ = false

-- `sum(… for candidate in resolution["candidates"])`
unfoldable count_selected : Option String → Items → ℕ
count_selected root nil = 0
count_selected root (cons v l) = (if is_selected root v then 1 else 0) + count_selected root l

abbrev pub are_candidates : Option String → Json → Bool
unfolding all_candidates count_selected
are_candidates root (arr l) =
    leb 1 (count_items l)
    && leb (count_items l) 32
    && all_candidates l
    && count_selected root l == 1
are_candidates root _ = false

unfoldable pub codex_resolution : Json → Option String → Bool
codex_resolution (obj d) root =
    has_exactly ("schemaVersion" ∷ "status" ∷ "selected" ∷ "reason" ∷ "candidates" ∷ []) d
    && is_upto 1 (at "schemaVersion" d)
    && not (is_upto 0 (at "schemaVersion" d))
    && is_one_of ("explicit" ∷ "selected" ∷ []) (at "status" d)
    && is_optional root (at "selected" d)
    && is_one_of
        ("explicit_inactive_opt_in" ∷ "explicit_live_writer" ∷ "single_stable_live_writer" ∷ [])
        (at "reason" d)
    && are_candidates root (at "candidates" d)
codex_resolution _ root = false

abbrev lower : ℕ → ℕ
lower c = if leb b'A' c && leb c b'Z' then c + 32 else c

abbrev same_codes : List ℕ → List ℕ → Bool
same_codes [] [] = true
same_codes (a ∷ as_) (b ∷ bs) = a == b && same_codes as_ bs
same_codes _ _ = false

abbrev lowered : List ℕ → List ℕ
lowered [] = []
lowered (c ∷ cs) = lower c ∷ lowered cs

abbrev is_any_hex : ℕ → Bool
is_any_hex c = is_hex c || (leb b'A' c && leb c b'F')

-- `re.fullmatch(r"[0-9a-fA-F]{8}(?:-[0-9a-fA-F]{4}){3}-[0-9a-fA-F]{12}", text)`
abbrev is_any_uuid : List ℕ → Bool
is_any_uuid = matches (
    times 8 is_any_hex (
      hyphen
      ∷ times 4 is_any_hex (
          hyphen
          ∷ times 4 is_any_hex (hyphen ∷ times 4 is_any_hex (hyphen ∷ times 12 is_any_hex [])))))

-- `target["id"].lower() == binding["target"]`, for a text that is a UUID
abbrev names_target : String → Json → Bool
names_target target (str s) = is_any_uuid (codes s) && same_codes (lowered (codes s)) (codes target)
names_target target _ = false

abbrev is_codex_target : String → Json → Bool
is_codex_target target (obj d) =
    has_exactly ("agent" ∷ "id" ∷ []) d
    && is_text "codex" (at "agent" d)
    && names_target target (at "id" d)
is_codex_target target _ = false

-- `str(target["pid"]) == binding["target"]`, where the number is above 1
abbrev is_pid : String → Json → Bool
is_pid target (num n) = ltb 1 n && prints_as n (codes target)
is_pid target _ = false

abbrev is_claude_target : String → Json → Bool
is_claude_target target (obj d) =
    has_exactly ("pid" ∷ "name" ∷ []) d
    && is_pid target (at "pid" d)
    && (is_null (at "name" d) || elim (at "name" d) [ str _ ↦ true | _ ↦ false ])
is_claude_target target _ = false

abbrev codex_keys : List String
codex_keys =
    "ok" ∷ "target" ∷ "chars" ∷ "dryRun" ∷ "codexHome" ∷ "submitted" ∷ "consumptionConfirmed"
    ∷ "status" ∷ "codexHomeResolution" ∷ []

-- `resolution.get("selected") == binding["home"]` of a dictionary
abbrev selects : Option String → Json → Bool
selects home (obj d) = is_optional home (at "selected" d)
selects home _ = false

abbrev is_home_text : Option String → Json → Bool
is_home_text none v = false
is_home_text (some t) v = is_text t v

unfoldable pub is_codex_profile : Fields → Record → Bool
is_codex_profile native r =
    length r.binding.destination == 1
    && closed codex_keys ("queueId" ∷ []) native
    && is_codex_target r.binding.target (at "target" native)
    && is_true (at "ok" native)
    && is_false (at "dryRun" native)
    && is_text "queued" (at "status" native)
    && is_true (at "submitted" native)
    && is_false (at "consumptionConfirmed" native)
    && is_upto max_message_chars (at "chars" native)
    && is_home_text r.binding.home (at "codexHome" native)
    && selects r.binding.home (at "codexHomeResolution" native)
    && if_present "queueId" (is_identifier_value 128) native
    && codex_resolution (at "codexHomeResolution" native) r.binding.home
    && if_some (λ c. same_json (at "codexHomeResolution" native) c.resolution) r.context

unfoldable pub is_claude_profile : Fields → Record → Bool
is_claude_profile native r =
    r.binding.agent == "claude"
    && length r.binding.destination == 1
    && has_exactly ("ok" ∷ "target" ∷ "chars" ∷ "dryRun" ∷ []) native
    && is_claude_target r.binding.target (at "target" native)
    && is_true (at "ok" native)
    && is_false (at "dryRun" native)
    && is_upto max_message_chars (at "chars" native)

-- `handoff_validate_native(native, record)` returns
unfoldable pub validate_native : Fields → Record → Bool
validate_native native r =
    if r.binding.agent == "codex" then is_codex_profile native r else is_claude_profile native r
