-- ===== src/Common/Text.antt =====
-- Tests on texts that the program writes as regular expressions.
use Prim.Native.Nat.{ℕ, zero, suc, ◌+◌, ◌*◌, ◌-◌}
use Prim.Native.Char.{code}
use Prim.Native.String.{String}
use mathlib.Core.Bool.{Bool, true, false, not, ◌&&◌, ◌||◌}
use mathlib.Core.List.{List, [], ◌∷◌}
use session_peer.Common.Tests.{leb, ◌==◌, nat_eq, if◌then◌else◌}
use session_peer.Common.Lists.{length}

abbrev pub codes : String → List ℕ
codes String.[] = []
codes (String.◌∷◌ c s) = code c ∷ codes s

abbrev pub every {ℓ} : {A : Type ℓ} → (A → Bool) → List A → Bool
every p [] = true
every p (x ∷ xs) = p x && every p xs

-- `[a-f0-9]`
abbrev pub is_hex : ℕ → Bool
is_hex c = leb b'a' c && leb c b'f' || leb b'0' c && leb c b'9'

-- `re.fullmatch(r'[a-f0-9]{64}', s)`
unfoldable pub is_hex64 : String → Bool
is_hex64 s = length (codes s) == 64 && every is_hex (codes s)

-- one code after another, each in its class: a regular expression without repetition
abbrev pub matches : List (ℕ → Bool) → List ℕ → Bool
matches [] [] = true
matches (p ∷ ps) (c ∷ cs) = p c && matches ps cs
matches _ _ = false

abbrev pub times : ℕ → (ℕ → Bool) → List (ℕ → Bool) → List (ℕ → Bool)
times zero p ps = ps
times (suc n) p ps = p ∷ times n p ps

abbrev pub hyphen : ℕ → Bool
hyphen c = c == b'-'

-- the bytes of one character in UTF-8
abbrev pub utf8_width : ℕ → ℕ
utf8_width c = if leb c 127 then 1 else if leb c 2047 then 2 else if leb c 65535 then 3 else 4

-- `len(text.encode("utf-8"))`
abbrev pub utf8_length : List ℕ → ℕ
utf8_length [] = 0
utf8_length (c ∷ cs) = utf8_width c + utf8_length cs

abbrev is_digit : ℕ → Bool
is_digit c = leb b'0' c && leb c b'9'

abbrev decimal_value : ℕ → List ℕ → ℕ
decimal_value n [] = n
decimal_value n (c ∷ cs) = decimal_value (n * 10 + (c - b'0')) cs

-- `str(n) == text`, for a number that is not 0
abbrev pub prints_as : ℕ → List ℕ → Bool
prints_as n [] = false
prints_as n (c ∷ cs) = not (c == b'0') && every is_digit (c ∷ cs) && decimal_value 0 (c ∷ cs) == n
