-- ===== src/Delivery/Envelope.antt =====
-- A body cannot leave the quotation of `peer_delivery_message` of session_peer_core/replies.py.
use session_peer.Common.{
  ◌≤◌, ◌⊎◌, leb, false, ◌&&◌, ℕ, ◌<◌, String, Bool, true, Option, none, some, List, [], ◌∷◌, ◌++◌,
  ◌==◌, nat_eq, string_eq, not, map, if◌then◌else◌, ◌≡◌, refl, All, arith, ◌∙◌, ap, Bool-cases, inl,
  inr,
}
use Prim.Native.Nat.{◌/◌, ◌%◌}
use session_peer.Common.Text.{codes, is_hex64, every, is_hex}
use session_peer.Delivery.{
  is_fingerprint, title, reminder, newline, lines, join, is_special, hex_digit, escape, neutral,
  quoted, header, envelope, peer_delivery_message, footer, warning, evidence,
}

-- a character that stands in a line as it is
abbrev pub is_plain : ℕ → Bool
is_plain c = not (is_special c)

abbrev pub IsPlain : List ℕ → Type 0
IsPlain line = every is_plain line ≡ true

every-append :
    (p : ℕ → Bool) (xs ys : List ℕ)
    → every p xs ≡ true
    → every p ys ≡ true
    → every p (xs ++ ys) ≡ true
every-append p [] ys h k = k
every-append p (x ∷ xs) ys h k = ground (arith, every-append p xs ys)

hex_digit-plain : (d : ℕ) → d < 16 → is_plain (hex_digit d) ≡ true
unfolding hex_digit is_special
hex_digit-plain d h = ground arith

mod_lt : (c : ℕ) → c % 16 < 16
mod_lt c = omega arith

backslash_plain : is_plain b'\\' ≡ true
unfolding is_special
backslash_plain = refl

u_plain : is_plain b'u' ≡ true
unfolding is_special
u_plain = refl

escape-IsPlain : (c : ℕ) → IsPlain (escape c)
escape-IsPlain c = ground (
  arith,
  backslash_plain,
  u_plain,
  hex_digit-plain (c / 4096 % 16) (mod_lt (c / 4096)),
  hex_digit-plain (c / 256 % 16) (mod_lt (c / 256)),
  hex_digit-plain (c / 16 % 16) (mod_lt (c / 16)),
  hex_digit-plain (c % 16) (mod_lt c),
)

neutral-IsPlain : (line : List ℕ) → IsPlain (neutral line)
unfolding neutral
neutral-IsPlain [] = refl
neutral-IsPlain (c ∷ cs) =
    every-append is_plain (if is_special c then escape c else c ∷ []) (neutral cs)
      (elim (Bool-cases (is_special c)) [ inl e ↦ rw e (escape-IsPlain c) | inr e ↦ ground arith ])
      (neutral-IsPlain cs)

lines-plain : (l : List ℕ) → IsPlain l → lines l ≡ l ∷ []
unfolding lines is_special
lines-plain [] h = refl
lines-plain (c ∷ cs) h = ground (arith, lines-plain cs)

lines-break : (l r : List ℕ) → IsPlain l → lines (l ++ newline ∷ r) ≡ l ∷ lines r
unfolding lines is_special
lines-break [] r h = refl
lines-break (c ∷ cs) r h = ground (arith, lines-break cs r)

lines-join :
    (l : List ℕ) (ls : List (List ℕ)) → All IsPlain (l ∷ ls) → lines (join (l ∷ ls)) ≡ l ∷ ls
unfolding join
lines-join l [] h = lines-plain l h.0
lines-join l (k ∷ ls) h =
    lines-break l (join (k ∷ ls)) h.0 ∙ ap (λ ks. l ∷ ks) (lines-join k ls h.1)

All-append : (P : List ℕ → Type 0) (xs ys : List (List ℕ)) → All P xs → All P ys → All P (xs ++ ys)
All-append P [] ys h k = k
All-append P (x ∷ xs) ys h k = (h.0, All-append P xs ys h.1 k)

quoted-IsPlain : (ls : List (List ℕ)) → All IsPlain (map quoted ls)
unfolding is_special
quoted-IsPlain [] = tt
quoted-IsPlain (l ∷ ls) = (neutral-IsPlain l, quoted-IsPlain ls)

hex-IsPlain : (cs : List ℕ) → every is_hex cs ≡ true → IsPlain cs
unfolding is_special
hex-IsPlain [] h = refl
hex-IsPlain (c ∷ cs) h = ground (arith, hex-IsPlain cs)

warning-IsPlain : (agent : String) → All IsPlain (warning agent)
unfolding is_special
warning-IsPlain agent = elim (Bool-cases (agent == "claude")) [
  | inl e ↦ rw e tt
  | inr e ↦ rw e (refl, tt)
]

evidence-IsPlain : (key : Option String) → is_fingerprint key ≡ true → All IsPlain (evidence key)
unfolding is_special is_hex64
evidence-IsPlain none h = tt
evidence-IsPlain (some key) h = (
  every-append is_plain (codes "Receiver-verified TLS certificate SHA-256: ") (codes key) refl
      (hex-IsPlain (codes key) (ground arith)),
  (refl, tt),
)

header-IsPlain :
    (agent : String) (key : Option String)
    → is_fingerprint key ≡ true
    → All IsPlain (header agent key)
unfolding header is_special
header-IsPlain agent key h =
    All-append IsPlain (title ++ warning agent ++ evidence key) reminder
      (All-append IsPlain (title ++ warning agent) (evidence key)
        (All-append IsPlain title (warning agent) (refl, (refl, tt)) (warning-IsPlain agent))
        (evidence-IsPlain key h))
      (refl, (refl, tt))

envelope-IsPlain :
    (text : List ℕ) (agent : String) (key : Option String)
    → is_fingerprint key ≡ true
    → All IsPlain (envelope text agent key)
unfolding is_special
envelope-IsPlain text agent key h =
    All-append IsPlain (header agent key ++ map quoted (lines text)) (footer ∷ [])
      (All-append IsPlain (header agent key) (map quoted (lines text)) (header-IsPlain agent key h)
        (quoted-IsPlain (lines text)))
      (refl, tt)

lines-envelope :
    (text : List ℕ) (agent : String) (key : Option String)
    → is_fingerprint key ≡ true
    → lines (join (envelope text agent key)) ≡ envelope text agent key
unfolding header
lines-envelope text agent key h = lines-join _ _ (envelope-IsPlain text agent key h)

framed-eq :
    (text : List ℕ) (agent : String) (key : Option String) (framed : List ℕ)
    → peer_delivery_message text agent key ≡ some framed
    → (is_fingerprint key ≡ true) × (framed ≡ join (envelope text agent key))
unfolding peer_delivery_message
framed-eq text agent key framed h = (ground arith, ground arith)

-- no control character, no separator of lines or paragraphs, and none of the characters that embed, override or
-- isolate a direction
abbrev pub IsShown : ℕ → Type 0
IsShown c =
    (32 ≤ c) × ((c < 127) ⊎ (159 < c)) × ((c < 8232) ⊎ (8238 < c)) × ((c < 8294) ⊎ (8297 < c))

below-above : (a b c : ℕ) → (leb a c && leb c b) ≡ false → (c < a) ⊎ (b < c)
below-above a b c h = elim (Bool-cases (leb a c)) [
  | inl e ↦ inr (ground arith)
  | inr e ↦ inl (ground arith)
]

plain-IsShown : (c : ℕ) → is_plain c ≡ true → IsShown c
unfolding is_special
plain-IsShown c h = (
  ground arith,
  below-above 127 159 c (ground arith),
  below-above 8232 8238 c (ground arith),
  below-above 8294 8297 c (ground arith),
)

outside : (a b c : ℕ) → (c < a) ⊎ (b < c) → (leb a c && leb c b) ≡ false
outside a b c (inl h) = ground arith
outside a b c (inr h) = ground arith

IsShown-plain : (c : ℕ) → IsShown c → is_special c ≡ false
unfolding is_special
IsShown-plain c (low, del, separators, isolates) =
    ground
      (arith, outside 127 159 c del, outside 8232 8238 c separators, outside 8294 8297 c isolates)

IsPlain-IsShown : (l : List ℕ) → IsPlain l → All IsShown l
IsPlain-IsShown [] h = tt
IsPlain-IsShown (c ∷ cs) h = (plain-IsShown c (ground arith), IsPlain-IsShown cs (ground arith))

All-IsShown : (ls : List (List ℕ)) → All IsPlain ls → All (All IsShown) ls
All-IsShown [] h = tt
All-IsShown (l ∷ ls) h = (IsPlain-IsShown l h.0, All-IsShown ls h.1)

neutral-shown : (l : List ℕ) → All IsShown l → neutral l ≡ l
unfolding neutral
neutral-shown [] h = refl
neutral-shown (c ∷ cs) h = ground (arith, IsShown-plain c h.0, neutral-shown cs h.1)

-- A message that is framed is, line by line, the header, then one line for each line of the body, then the
-- closing line; each line of the body is quoted behind "| ", as it is where it has only characters that are shown;
-- and no line has a character below U+0020, from U+007F to U+009F, from U+2028 to U+202E, or from U+2066 to
-- U+2069.
pub envelope_quotes :
    (text : List ℕ) (agent : String) (key : Option String) (framed : List ℕ)
    → peer_delivery_message text agent key ≡ some framed
    → (lines framed
        ≡ header agent key ++ map (λ line. b'|' ∷ b' ' ∷ neutral line) (lines text) ++ footer ∷ [])
      × ((line : List ℕ) → All IsShown line → neutral line ≡ line)
      × All (All IsShown) (lines framed)
envelope_quotes text agent key framed h =
    let (valid, same) = framed-eq text agent key framed h in
    let split = lines-envelope text agent key valid in
    rw same (
      split,
      neutral-shown,
      All-IsShown (lines (join (envelope text agent key)))
          (rw split (envelope-IsPlain text agent key valid)),
    )
