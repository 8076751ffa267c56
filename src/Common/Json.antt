-- ===== src/Common/Json.antt =====
-- The values of Python's `json`: what requests, native results and replies are made of. Integers
-- are split by sign: `neg n` is one less than minus n.
use Prim.Native.Nat.{ℕ, suc}
use Prim.Native.String.{String}
use mathlib.Core.Path.{◌≡◌, refl, ap}
use mathlib.Core.Bool.{Bool, true, false, not, ◌&&◌, ◌||◌}
use mathlib.Core.List.{List, [], ◌∷◌, ◌++◌}
use mathlib.Core.Option.{Option, none, some}
use native.Mathlib.Omega.{arith}
use session_peer.Common.Lists.{member, length}
use session_peer.Common.Tests.{is_some, if◌then◌else◌, ◌==◌, string_eq, nat_eq, leb}
use text.Mathlib.TextEquality.{eq_iff}

-- A floating-point number: the sign (true for minus), the whole part and so many 2^-52 parts, in which every number
-- of at least 1 is exact
pub data Float : Type 0 where
  finite : Bool → ℕ → ℕ → Float
  infinite : Bool → Float
  nan : Float

abbrev is_zero : Float → Bool
is_zero (finite _ n f) = n == 0 && f == 0
is_zero _ = false

-- `f == n`, for an integer that is not negative
abbrev is_whole : ℕ → Float → Bool
is_whole k (finite minus n f) = n == k && f == 0 && (not minus || k == 0)
is_whole _ _ = false

abbrev is_minus : ℕ → Float → Bool
is_minus k (finite minus n f) = minus && n == k && f == 0
is_minus _ _ = false

abbrev same_sign : Bool → Bool → Bool
same_sign a b = if a then b else not b

-- `f == g`: 0.0 and -0.0 are equal, and nan is equal to nothing
abbrev same_float : Float → Float → Bool
same_float (finite a n f) (finite b k g) = n == k && f == g && (same_sign a b || n == 0 && f == 0)
same_float (infinite a) (infinite b) = same_sign a b
same_float _ _ = false

mutual
  pub data Json : Type 0 where
    null : Json
    bool : Bool → Json
    num : ℕ → Json
    neg : ℕ → Json
    -- with the text that `repr` has for it
    real : Float → String → Json
    str : String → Json
    arr : Items → Json
    obj : Fields → Json

  pub data Items : Type 0 where
    nil : Items
    cons : Json → Items → Items

  pub data Fields : Type 0 where
    end : Fields
    field : String → Json → Fields → Fields

-- `d.get(k)`
abbrev pub get : String → Fields → Option Json
get k end = none
get k (field j v d) = if j == k then some v else get k d

-- `d.get(k, default)`
abbrev pub get_or : String → Json → Fields → Json
get_or k v d = elim (get k d) [ none ↦ v | some w ↦ w ]

-- `d[k] = v`, and `{**d, k: v}`
abbrev pub put : String → Json → Fields → Fields
put k v end = field k v end
put k v (field j w d) = if j == k then field j v d else field j w (put k v d)

-- a dictionary literal
abbrev pub dict : List (String × Json) → Fields
dict [] = end
dict ((k, v) ∷ l) = field k v (dict l)

-- `bool(v)`
abbrev pub truthy : Json → Bool
truthy null = false
truthy (bool b) = b
truthy (num n) = not (n == 0)
truthy (neg n) = true
truthy (real f _) = not (is_zero f)
truthy (str s) = not (s == "")
truthy (arr nil) = false
truthy (arr (cons _ _)) = true
truthy (obj end) = false
truthy (obj (field _ _ _)) = true

-- `v is True`
abbrev pub is_true : Json → Bool
is_true (bool true) = true
is_true _ = false

pub get-put :
    (k j : String) (v : Json) (d : Fields)
    → get j (put k v d) ≡ (if k == j then some v else get j d)
get-put k j v end = refl
get-put k j v (field i w d) = ground (arith, eq_iff k j, eq_iff i k, eq_iff i j, get-put k j v d)

-- `v == text`
abbrev pub is_text : String → Json → Bool
is_text t (str s) = s == t
is_text t _ = false

pub is_text-eq : (t : String) (j : Json) → is_text t j ≡ true → j ≡ str t
is_text-eq t (str s) h = ap str ((eq_iff s t).0 h)
is_text-eq t _ h = ground arith

-- `v in texts`
abbrev pub is_one_of : List String → Json → Bool
is_one_of texts (str s) = member s texts
is_one_of texts _ = false

-- `text in list`
abbrev pub in_items : String → Items → Bool
in_items t nil = false
in_items t (cons v l) = is_text t v || in_items t l

abbrev pub size : Fields → ℕ
size end = 0
size (field _ _ d) = suc (size d)

abbrev has_all : List String → Fields → Bool
has_all [] d = true
has_all (k ∷ ks) d = is_some (get k d) && has_all ks d

-- `set(d) == {…}`, where the keys of `d` are distinct
abbrev pub has_exactly : List String → Fields → Bool
has_exactly ks d = has_all ks d && size d == length ks

abbrev pub within : List String → Fields → Bool
within ks end = true
within ks (field k _ d) = member k ks && within ks d

-- `required <= set(d) <= required | optional`
abbrev pub closed : List String → List String → Fields → Bool
closed required optional d = has_all required d && within (required ++ optional) d

-- `d.get(k)` of what is read as a dictionary, with None for an absent key
abbrev pub at : String → Fields → Json
at k d = get_or k null d

-- `type(v) is dict`, and then the dictionary
abbrev pub as_dict : Json → Option Fields
as_dict (obj d) = some d
as_dict _ = none

abbrev pub is_bool : Json → Bool
is_bool (bool _) = true
is_bool _ = false

-- `v is False`
abbrev pub is_false : Json → Bool
is_false (bool b) = not b
is_false _ = false

-- `type(v) is int and 0 <= v <= bound`
abbrev pub is_upto : ℕ → Json → Bool
is_upto bound (num n) = leb n bound
is_upto bound _ = false

-- `v == text`, where the text may be None
abbrev pub is_optional : Option String → Json → Bool
is_optional (some t) v = is_text t v
is_optional none null = true
is_optional none _ = false

abbrev mutual
  -- `v == w`: dictionaries are equal in any order of their keys, and True and False are 1 and 0.
  pub same_json : Json → Json → Bool
  same_json null null = true
  same_json (bool a) (bool b) = if a then b else not b
  same_json (bool a) (num n) = n == (if a then 1 else 0)
  same_json (num n) (bool a) = n == (if a then 1 else 0)
  same_json (num n) (num k) = n == k
  same_json (neg n) (neg k) = n == k
  same_json (bool a) (real f _) = is_whole (if a then 1 else 0) f
  same_json (real f _) (bool a) = is_whole (if a then 1 else 0) f
  same_json (num n) (real f _) = is_whole n f
  same_json (real f _) (num n) = is_whole n f
  same_json (neg n) (real f _) = is_minus (suc n) f
  same_json (real f _) (neg n) = is_minus (suc n) f
  same_json (real f _) (real g _) = same_float f g
  same_json (str s) (str t) = s == t
  same_json (arr l) (arr k) = same_items l k
  same_json (obj d) (obj e) = size d == size e && contained d e
  same_json _ _ = false

  same_items : Items → Items → Bool
  same_items nil nil = true
  same_items (cons v l) (cons w k) = same_json v w && same_items l k
  same_items _ _ = false

  contained : Fields → Fields → Bool
  contained end e = true
  contained (field k v d) e =
      elim (get k e) [ none ↦ false | some w ↦ same_json v w ] && contained d e
