-- ===== src/Common/Sql.antt =====
-- The statements that the program sends to SQLite, on a table held as the list of its rows in the
-- order of insertion. A `WHERE` clause is a Boolean function of the row.
use Prim.Native.Nat.{ℕ, ◌+◌, ◌≤◌}
use mathlib.Core.Path.{◌≡◌, refl}
use mathlib.Core.Bool.{Bool, true, false}
use mathlib.Core.Option.{Option, none, some}
use mathlib.Core.List.{List, [], ◌∷◌, ◌++◌}
use native.Mathlib.Omega.{arith}
use session_peer.Common.Tests.{if◌then◌else◌, is_some}
use session_peer.Common.Lists.{length, All}

module _ {R : Type 0} where
  -- `SELECT … WHERE p` and `fetchone()`
  unfoldable pub find : (R → Bool) → List R → Option R
  find p [] = none
  find p (r ∷ rs) = if p r then some r else find p rs

  -- `INSERT INTO … VALUES(r)`, where no row has the key of `r`
  abbrev pub insert : R → List R → List R
  insert r rs = rs ++ r ∷ []

  -- `UPDATE … SET f WHERE p`
  unfoldable pub update : (R → Bool) → (R → R) → List R → List R
  update p f [] = []
  update p f (r ∷ rs) = (if p r then f r else r) ∷ update p f rs

  -- `DELETE FROM … WHERE p`
  unfoldable pub delete : (R → Bool) → List R → List R
  delete p [] = []
  delete p (r ∷ rs) = if p r then delete p rs else r ∷ delete p rs

  -- `SELECT COUNT(*) … WHERE p`
  unfoldable pub count : (R → Bool) → List R → ℕ
  count p [] = 0
  count p (r ∷ rs) = (if p r then 1 else 0) + count p rs

  -- `SELECT 1 … WHERE p` has a row
  abbrev pub exists : (R → Bool) → List R → Bool
  exists p rs = is_some (find p rs)

  -- `fetchall()`
  unfoldable pub select : (R → Bool) → List R → List R
  select p [] = []
  select p (r ∷ rs) = if p r then r ∷ select p rs else select p rs

  -- `INSERT OR REPLACE INTO …`, where `p` is equality of the key
  abbrev pub replace : (R → Bool) → R → List R → List R
  replace p r rs = insert r (delete p rs)

  -- `INSERT OR IGNORE INTO …`, where `p` is equality of the key
  abbrev pub insert_ignore : (R → Bool) → R → List R → List R
  insert_ignore p r rs = if exists p rs then rs else insert r rs

  pub find-insert :
      (p : R → Bool) (r : R) (rs : List R)
      → find p (rs ++ r ∷ [])
        ≡ elim (find p rs) [ some x ↦ some x | none ↦ if p r then some r else none ]
  unfolding find
  find-insert p r [] = refl
  find-insert p r (x ∷ rs) = ground (arith, find-insert p r rs)

  pub find-holds : (p : R → Bool) {r : R} (rs : List R) → find p rs ≡ some r → p r ≡ true
  unfolding find
  find-holds p [] h = ground arith
  find-holds p {r = r} (x ∷ rs) h = ground (arith, find-holds p {r = r} rs)

  -- A deletion of what `p` selects leaves nothing that `p` selects.
  pub find-delete_self : (p : R → Bool) (rs : List R) → find p (delete p rs) ≡ none
  unfolding find delete
  find-delete_self p [] = refl
  find-delete_self p (x ∷ rs) = ground (arith, find-delete_self p rs)

  -- A deletion elsewhere does not show.
  pub find-delete_ne :
      (p q : R → Bool) (rs : List R)
      → ((r : R) → q r ≡ true → p r ≡ false)
      → find q (delete p rs) ≡ find q rs
  unfolding find delete
  find-delete_ne p q [] apart = refl
  find-delete_ne p q (x ∷ rs) apart = ground (arith, apart x, find-delete_ne p q rs apart)

  -- An update that keeps what `q` looks at is seen in the row that `q` finds.
  pub find-update :
      (p q : R → Bool) (f : R → R) (rs : List R)
      → ((r : R) → q (f r) ≡ q r)
      → find q (update p f rs)
        ≡ elim (find q rs) [ some x ↦ some (if p x then f x else x) | none ↦ none ]
  unfolding find update
  find-update p q f [] keep = refl
  find-update p q f (x ∷ rs) keep = ground (arith, keep x, find-update p q f rs keep)

  pub length-update : (p : R → Bool) (f : R → R) (rs : List R) → length (update p f rs) ≡ length rs
  unfolding update
  length-update p f [] = refl
  length-update p f (x ∷ rs) = omega (arith, length-update p f rs)

  pub length-delete : (p : R → Bool) (rs : List R) → length (delete p rs) ≤ length rs
  unfolding delete
  length-delete p [] = omega arith
  length-delete p (x ∷ rs) = ground (arith, length-delete p rs)

  pub count-insert :
      (p : R → Bool) (r : R) (rs : List R)
      → count p (rs ++ r ∷ []) ≡ count p rs + (if p r then 1 else 0)
  unfolding count
  count-insert p r [] = omega arith
  count-insert p r (x ∷ rs) = omega (arith, count-insert p r rs)

  pub count-none : (p : R → Bool) (rs : List R) → find p rs ≡ none → count p rs ≡ 0
  unfolding count find
  count-none p [] h = refl
  count-none p (x ∷ rs) h = ground (arith, count-none p rs)

  -- An update that makes no row satisfy `p` that did not before.
  pub count-update :
      (p q : R → Bool) (f : R → R) (rs : List R)
      → ((r : R) → p (f r) ≡ true → p r ≡ true)
      → count p (update q f rs) ≤ count p rs
  unfolding count update
  count-update p q f [] less = omega arith
  count-update p q f (x ∷ rs) less = ground (arith, less x, count-update p q f rs less)

  module _ (P : R → Type 0) where
    pub All-insert : (r : R) (rs : List R) → All P rs → P r → All P (rs ++ r ∷ [])
    All-insert r [] h k = (k, tt)
    All-insert r (x ∷ rs) h k = (h.0, All-insert r rs h.1 k)

    pub All-delete : (p : R → Bool) (rs : List R) → All P rs → All P (delete p rs)
    unfolding delete
    All-delete p [] h = tt
    All-delete p (x ∷ rs) h = ground (arith, All-delete p rs h.1)

    pub All-find : (p : R → Bool) {r : R} (rs : List R) → All P rs → find p rs ≡ some r → P r
    unfolding find
    All-find p [] h e = cc
    All-find p {r = r} (x ∷ rs) h e = ground (arith, All-find p {r = r} rs h.1)
