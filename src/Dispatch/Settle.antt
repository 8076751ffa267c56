-- ===== src/Dispatch/Settle.antt =====
-- `Native.invoke` of session_peer_relay/native.py, and what `dispatch` of session_peer_relay/app.py does with the results.
-- The worker's process is a parameter: it has no value where it fails, is too slow, or writes more than 60 KiB or
-- what is no JSON; the store may be another one when it ends, since other requests are served meanwhile.
use session_peer.Common.{
  string_eq, ◌==◌, if◌then◌else◌, ℕ, String, Bool, true, false, Option, none, some, List, [], ◌∷◌,
  ◌++◌, string_eq, nat_eq, pure, fail, or_crash, ◌>>=◌, if◌then◌else◌, ok, rejected, crash,
}
use session_peer.Common.Json.{
  end, Json, Items, Fields, bool, str, arr, obj, nil, cons, dict, at, get_or, put, truthy, is_bool,
}
use session_peer.Store.State.{Action}
use session_peer.Store.Journal as Journal
use session_peer.Store.Reasons.{Reason}
use session_peer.Framing.{Frame, worker_frame, Job}
use session_peer.Dispatch.State.{Policy, find_target, Turn, answer, survey, inspect, deliver}
use session_peer.Dispatch.Messages.{job_of}

abbrev pub frame_reason : Reason → String
frame_reason Reason.invalid_explain = "invalid_explain"
frame_reason _ = "native_worker_frame_too_large"

abbrev pub frame_refused : Reason → Fields
frame_refused e = dict (
    ("ok", bool false)
    ∷ ("status", str "refused")
    ∷ ("submitted", bool false)
    ∷ ("reason", str (frame_reason e))
    ∷ ("retryAllowed", bool false)
    ∷ ("consumptionConfirmed", bool false)
    ∷ [])

abbrev pub outcome_unknown : Fields
outcome_unknown = dict (
    ("ok", bool false)
    ∷ ("status", str "unknown")
    ∷ ("reason", str "native_outcome_unknown")
    ∷ ("retryAllowed", bool false)
    ∷ ("consumptionConfirmed", bool false)
    ∷ [])

-- the value of the worker, where it is a dictionary with a Boolean "ok"
abbrev pub worker_result : Option Json → Fields
worker_result (some (obj d)) = if is_bool (at "ok" d) then d else outcome_unknown
worker_result _ = outcome_unknown

-- the rows of one target, each with its target
abbrev pub with_target : String → Json → Items → Option (List Json)
with_target alias native nil = some []
with_target alias native (cons (obj row) rows) = elim (with_target alias native rows) [
  | none ↦ none
  | some more ↦ some (obj (put "nativeTarget" native (put "target" (str alias) row)) ∷ more)
]
with_target alias native (cons _ rows) = none

-- the rows that a target's answer lists; what is neither empty nor a list of dictionaries cannot be read
abbrev pub sessions_of : String → Json → Json → Option (List Json)
sessions_of alias native (arr rows) = with_target alias native rows
sessions_of alias native (obj end) = some []
sessions_of alias native (str s) = if s == "" then some [] else none
sessions_of alias native _ = none

abbrev pub items : List Json → Items
items [] = nil
items (v ∷ vs) = cons v (items vs)

abbrev pub error_of : String → Fields → List Json
error_of alias part =
    if truthy (at "ok" part)
    then []
    else obj (
        dict
          (("target", str alias) ∷ ("reason", get_or "reason" (str "discovery_failed") part) ∷ []))
      ∷ []

-- `target`, its binding's native target, and what the worker found there
pub record Part : Type 0 where
  pub alias : String
  pub native : Json
  pub found : Fields

abbrev pub errors_of : List Part → List Json
errors_of [] = []
errors_of (p ∷ ps) = error_of p.alias p.found ++ errors_of ps

abbrev pub all_sessions : List Part → Option (List Json)
all_sessions [] = some []
all_sessions (p ∷ ps) = elim (sessions_of p.alias p.native (get_or "sessions" (arr nil) p.found)) [
  | none ↦ none
  | some rows ↦ elim (all_sessions ps) [ none ↦ none | some more ↦ some (rows ++ more) ]
]

abbrev pub is_empty_list : List Json → Bool
is_empty_list [] = true
is_empty_list (_ ∷ _) = false

abbrev pub listing : List Json → List Json → Fields
listing errors sessions = dict (
    ("ok", bool (is_empty_list errors))
    ∷ ("sessions", arr (items sessions))
    ∷ ("errors", arr (items errors))
    ∷ [])

module _ (worker : List ℕ → Action (Option Json)) where
  -- `Native.invoke`
  run_frame : Frame → Action Fields
  run_frame (ok payload) = do value ← worker payload; pure (worker_result value)
  run_frame (rejected e) = pure (frame_refused e)
  run_frame crash = fail

  unfoldable pub invoke : Job → Action Fields
  unfolding run_frame
  invoke job = run_frame (worker_frame job)

  abbrev pub list_job : Fields → Job
  list_job binding = record {
    binding = binding;
    operation = "list";
    text = none;
    fingerprint = none;
    explain = false;
  }

  -- the parts, in the order of the aliases: the workers are asked at once, and here one after another
  unfoldable pub survey_parts : Policy → List String → Action (List Part)
  survey_parts policy [] = pure []
  survey_parts policy (alias ∷ aliases) = do
    target ← or_crash (find_target alias policy)
    found ← invoke (list_job target.binding)
    more ← survey_parts policy aliases
    pure (record { alias = alias; native = at "target" target.binding; found = found } ∷ more)

  unfoldable pub settle : Policy → Turn → Action Fields
  settle policy (answer reply) = pure reply
  settle policy (survey aliases) = do
    parts ← survey_parts policy aliases
    sessions ← or_crash (all_sessions parts)
    pure (listing (errors_of parts) sessions)
  settle policy (inspect m) = invoke (job_of "resolve" m)
  settle policy (deliver peer ident m) = do
    result ← invoke (job_of "send" m)
    Journal.finish peer ident result
