-- ===== src/Framing.antt =====
-- session_peer_relay/framing.py: the text of a frame and the budgets in bytes, `encoded_frame`,
-- `application_frame`, `worker_frame` and `valid_text`. A text of Unicode characters always has an encoding, so
-- the branches for `UnicodeError` are absent.
use session_peer.Common.{
  ℕ, zero, suc, ◌+◌, String, Bool, true, false, Option, none, some, List, [], ◌∷◌, ◌++◌, ◌==◌,
  nat_eq, ◌&&◌, ◌||◌, not, ltb, leb, Outcome, ok, rejected, if◌then◌else◌, member, string_eq,
}
use Prim.Native.Nat.{◌/◌, ◌%◌}
use session_peer.Common.Json.{
  Json, Items, Fields, null, bool, num, neg, real, str, arr, obj, nil, cons, end, field,
}
use session_peer.Common.Text.{codes, utf8_length}
use session_peer.Delivery.{escape}
use session_peer.Store.Reasons.{
  Reason, application_frame_too_large, native_worker_frame_too_large, invalid_explain,
}

-- `json.dumps(value, separators=(",", ":"), ensure_ascii=False)`
abbrev pub encode_char : ℕ → List ℕ
encode_char c =
    if c == 34
    then 92 ∷ 34 ∷ []
    else if c == 92
    then 92 ∷ 92 ∷ []
    else if c == 10
    then 92 ∷ b'n' ∷ []
    else if c == 13
    then 92 ∷ b'r' ∷ []
    else if c == 9
    then 92 ∷ b't' ∷ []
    else if c == 12
    then 92 ∷ b'f' ∷ []
    else if c == 8
    then 92 ∷ b'b' ∷ []
    else if ltb c 32
    then escape c
    else c ∷ []

unfoldable pub encode_chars : List ℕ → List ℕ
encode_chars [] = []
encode_chars (c ∷ cs) = encode_char c ++ encode_chars cs

abbrev pub encode_text : String → List ℕ
encode_text s = (34 ∷ encode_chars (codes s)) ++ 34 ∷ []

-- the digits of a number before those that follow; a number has no more digits than its value and one
abbrev decimal : ℕ → ℕ → List ℕ → List ℕ
decimal zero n after = after
decimal (suc fuel) n after =
    let rest = decimal fuel (n / 10) ((b'0' + n % 10) ∷ after) in
    if ltb n 10 then (b'0' + n) ∷ after else rest

abbrev encode_number : ℕ → List ℕ
encode_number n = decimal (suc n) n []

unfoldable mutual
  pub dumps : Json → List ℕ
  dumps null = codes "null"
  dumps (bool true) = codes "true"
  dumps (bool false) = codes "false"
  dumps (num n) = encode_number n
  dumps (neg n) = b'-' ∷ encode_number (suc n)
  dumps (real _ text) = codes text
  dumps (str s) = encode_text s
  dumps (arr l) = (b'[' ∷ dump_items l) ++ b']' ∷ []
  dumps (obj d) = (b'{' ∷ dump_fields d) ++ b'}' ∷ []

  dump_items : Items → List ℕ
  dump_items nil = []
  dump_items (cons v nil) = dumps v
  dump_items (cons v (cons w l)) = dumps v ++ b',' ∷ dump_items (cons w l)

  dump_fields : Fields → List ℕ
  dump_fields end = []
  dump_fields (field k v end) = encode_text k ++ b':' ∷ dumps v
  dump_fields (field k v (field j w d)) =
      encode_text k ++ b':' ∷ dumps v ++ b',' ∷ dump_fields (field j w d)

-- The texts that stand for the bytes, or the reason of a `FrameRejected`
abbrev pub Frame : Type 0
Frame = Outcome Reason (List ℕ)

unfoldable pub encoded_frame : Json → ℕ → Reason → Frame
encoded_frame value limit reason =
    if leb (utf8_length (dumps value)) limit then ok (dumps value) else rejected reason

abbrev pub max_text_bytes : ℕ
max_text_bytes = 32768

abbrev pub max_application_bytes : ℕ
max_application_bytes = 65536

abbrev pub max_worker_bytes : ℕ
max_worker_bytes = 262144

abbrev pub application_frame : Json → Frame
application_frame value = encoded_frame value max_application_bytes application_frame_too_large

-- What goes to the worker
pub record Job : Type 0 where
  pub binding : Fields
  pub operation : String
  pub text : Option String
  pub fingerprint : Option String
  pub explain : Bool

abbrev pub optional_text : Option String → Json
optional_text none = null
optional_text (some t) = str t

abbrev with_fingerprint : Option String → Fields → Fields
with_fingerprint none d = d
with_fingerprint (some key) d = field "peerFingerprint" (str key) d

abbrev with_explain : Bool → Fields
with_explain true = field "explain" (bool true) end
with_explain false = end

abbrev pub job_value : Job → Json
job_value j = obj (
    field "binding" (obj j.binding) (
      field "operation" (str j.operation) (
        field "text" (optional_text j.text)
          (with_fingerprint j.fingerprint (with_explain j.explain)))))

unfoldable pub worker_frame : Job → Frame
worker_frame j =
    if j.explain && not (j.operation == "resolve")
    then rejected invalid_explain
    else encoded_frame (job_value j) max_worker_bytes native_worker_frame_too_large

-- what `str.strip` takes off
abbrev pub is_space : ℕ → Bool
is_space c =
    leb 9 c && leb c 13
    || leb 28 c && leb c 32
    || leb 8192 c && leb c 8202
    || member c (133 ∷ 160 ∷ 5760 ∷ 8232 ∷ 8233 ∷ 8239 ∷ 8287 ∷ 12288 ∷ [])

abbrev pub is_blank : List ℕ → Bool
is_blank [] = true
is_blank (c ∷ cs) = is_space c && is_blank cs

-- `valid_text` of a value that is a text
unfoldable pub valid_text : List ℕ → Bool
valid_text text =
    not (is_blank text) && not (member 0 text) && leb (utf8_length text) max_text_bytes
