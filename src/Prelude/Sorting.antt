-- ===== src/Prelude/Sorting.antt =====
-- `ORDER BY` and `LIMIT` of a query, and the members that they keep.
pub mod Unique
use mathlib.Core.Path.{◌≡◌, refl, ap, sym, ◌∙◌}
use Prim.Native.Nat.{ℕ, zero, suc, ◌+◌}
use mathlib.Core.Logic.{◌⊎◌, inl, inr}
use mathlib.Core.Bool.{Bool, true, false}
use mathlib.Core.List.{List, [], ◌∷◌, ◌++◌, Perm}
use mathlib.Core.List.Perm
use aipy.Prelude.Tests.{leb, if◌then◌else◌}
use aipy.Prelude.Lists.{Any, length}
use Prim.Native.Nat.{◌≤◌}
use native.Mathlib.Omega.{arith}

module _ {A : Type 0} where
  -- `.limit(n)`
  unfoldable pub limit : ℕ → List A → List A
  limit zero xs = []
  limit (suc n) [] = []
  limit (suc n) (x ∷ xs) = x ∷ limit n xs

  -- `.order_by(key)`, where rows with equal keys keep their order.
  unfoldable pub insert_by : (A → ℕ) → A → List A → List A
  insert_by key x [] = x ∷ []
  insert_by key x (y ∷ ys) =
      let rest = insert_by key x ys in if leb (key x) (key y) then x ∷ (y ∷ ys) else y ∷ rest

  unfoldable pub order_by : (A → ℕ) → List A → List A
  unfolding insert_by
  order_by key [] = []
  order_by key (x ∷ xs) = insert_by key x (order_by key xs)

  -- `.order_by(key.desc())`
  unfoldable pub insert_by_desc : (A → ℕ) → A → List A → List A
  insert_by_desc key x [] = x ∷ []
  insert_by_desc key x (y ∷ ys) =
      let rest = insert_by_desc key x ys in if leb (key y) (key x) then x ∷ (y ∷ ys) else y ∷ rest

  unfoldable pub order_by_desc : (A → ℕ) → List A → List A
  unfolding insert_by_desc
  order_by_desc key [] = []
  order_by_desc key (x ∷ xs) = insert_by_desc key x (order_by_desc key xs)

  Any-cons_if :
      (P : A → Type 0) (t : Bool) (x y : A) (ys rest : List A)
      → (Any P rest → P x ⊎ Any P ys)
      → Any P (if t then x ∷ (y ∷ ys) else y ∷ rest)
      → P x ⊎ (P y ⊎ Any P ys)
  Any-cons_if P true x y ys rest f h = h
  Any-cons_if P false x y ys rest f (inl h) = inr (inl h)
  Any-cons_if P false x y ys rest f (inr h) = elim (f h) [ inl k ↦ inl k | inr k ↦ inr (inr k) ]

  Any-insert_by :
      (P : A → Type 0) (key : A → ℕ) (x : A) (ys : List A)
      → Any P (insert_by key x ys)
      → P x ⊎ Any P ys
  unfolding insert_by
  Any-insert_by P key x [] h = h
  Any-insert_by P key x (y ∷ ys) h =
      Any-cons_if P (leb (key x) (key y)) x y ys (insert_by key x ys) (Any-insert_by P key x ys) h

  Any-insert_by_desc :
      (P : A → Type 0) (key : A → ℕ) (x : A) (ys : List A)
      → Any P (insert_by_desc key x ys)
      → P x ⊎ Any P ys
  unfolding insert_by_desc
  Any-insert_by_desc P key x [] h = h
  Any-insert_by_desc P key x (y ∷ ys) h =
      Any-cons_if P (leb (key y) (key x)) x y ys (insert_by_desc key x ys)
        (Any-insert_by_desc P key x ys) h

  pub Any-order_by :
      (P : A → Type 0) (key : A → ℕ) (xs : List A) → Any P (order_by key xs) → Any P xs
  unfolding order_by
  Any-order_by P key [] h = h
  Any-order_by P key (x ∷ xs) h = elim (Any-insert_by P key x (order_by key xs) h) [
    | inl k ↦ inl k
    | inr k ↦ inr (Any-order_by P key xs k)
  ]

  cons_if-Any :
      (P : A → Type 0) (t : Bool) (x y : A) (ys rest : List A)
      → (P x ⊎ Any P ys → Any P rest)
      → P x ⊎ (P y ⊎ Any P ys)
      → Any P (if t then x ∷ (y ∷ ys) else y ∷ rest)
  cons_if-Any P true x y ys rest f h = h
  cons_if-Any P false x y ys rest f (inl h) = inr (f (inl h))
  cons_if-Any P false x y ys rest f (inr (inl h)) = inl h
  cons_if-Any P false x y ys rest f (inr (inr h)) = inr (f (inr h))

  insert_by-Any :
      (P : A → Type 0) (key : A → ℕ) (x : A) (ys : List A)
      → P x ⊎ Any P ys
      → Any P (insert_by key x ys)
  unfolding insert_by
  insert_by-Any P key x [] h = h
  insert_by-Any P key x (y ∷ ys) h =
      cons_if-Any P (leb (key x) (key y)) x y ys (insert_by key x ys) (insert_by-Any P key x ys) h

  pub order_by-Any :
      (P : A → Type 0) (key : A → ℕ) (xs : List A) → Any P xs → Any P (order_by key xs)
  unfolding order_by
  order_by-Any P key [] h = h
  order_by-Any P key (x ∷ xs) (inl h) = insert_by-Any P key x (order_by key xs) (inl h)
  order_by-Any P key (x ∷ xs) (inr h) =
      insert_by-Any P key x (order_by key xs) (inr (order_by-Any P key xs h))

  pub Any-order_by_desc :
      (P : A → Type 0) (key : A → ℕ) (xs : List A) → Any P (order_by_desc key xs) → Any P xs
  unfolding order_by_desc
  Any-order_by_desc P key [] h = h
  Any-order_by_desc P key (x ∷ xs) h = elim (Any-insert_by_desc P key x (order_by_desc key xs) h) [
    | inl k ↦ inl k
    | inr k ↦ inr (Any-order_by_desc P key xs k)
  ]

  pub Any-limit : (P : A → Type 0) (n : ℕ) (xs : List A) → Any P (limit n xs) → Any P xs
  unfolding limit
  Any-limit P zero xs h = elim h [ ]
  Any-limit P (suc n) [] h = h
  Any-limit P (suc n) (x ∷ xs) (inl h) = inl h
  Any-limit P (suc n) (x ∷ xs) (inr h) = inr (Any-limit P n xs h)

  pub length-limit : (n : ℕ) (xs : List A) → length (limit n xs) ≤ n
  unfolding limit
  length-limit zero xs = omega arith
  length-limit (suc n) [] = omega arith
  length-limit (suc n) (x ∷ xs) = omega (arith, length-limit n xs)

-- A read that stays below its limit has read everything.
pub limit_whole :
    {A : Type 0} (n : ℕ) (xs : List A) → length (limit (suc n) xs) ≤ n → limit (suc n) xs ≡ xs
unfolding limit
limit_whole n [] h = refl
limit_whole zero (x ∷ xs) h = absurd (omega arith)
limit_whole (suc n) (x ∷ xs) h = ap (λ ys. x ∷ ys) (limit_whole n xs (omega arith))

-- `.offset(n)`
module _ {A : Type 0} where
  unfoldable pub offset : ℕ → List A → List A
  offset zero xs = xs
  offset (suc n) [] = []
  offset (suc n) (x ∷ xs) = offset n xs

  limit-nil : (n : ℕ) → limit {A = A} n [] ≡ []
  unfolding limit
  limit-nil zero = refl
  limit-nil (suc n) = refl

  -- A longer read is a shorter one and what is read behind it.
  pub limit_add : (n k : ℕ) (xs : List A) → limit (n + k) xs ≡ limit n xs ++ limit k (offset n xs)
  unfolding limit offset
  limit_add zero k xs = ap (λ m. limit m xs) (omega arith)
  limit_add (suc n) k [] = limit-nil (suc n + k) ∙ sym (limit-nil k)
  limit_add (suc n) k (x ∷ xs) =
      let e : suc n + k ≡ suc (n + k) = omega arith in rw e (ap (λ ys. x ∷ ys) (limit_add n k xs))

  pub limit_all : (n : ℕ) (xs : List A) → length xs ≤ n → limit n xs ≡ xs
  unfolding limit
  limit_all n [] h = limit-nil n
  limit_all zero (x ∷ xs) h = absurd (omega arith)
  limit_all (suc n) (x ∷ xs) h = ap (λ ys. x ∷ ys) (limit_all n xs (omega arith))

  insert_by-perm_step :
      (t : Bool) (x y : A) (ys rest : List A)
      → Perm rest (x ∷ ys)
      → Perm (if t then x ∷ (y ∷ ys) else y ∷ rest) (x ∷ (y ∷ ys))
  insert_by-perm_step true x y ys rest h = Perm.refl (x ∷ (y ∷ ys))
  insert_by-perm_step false x y ys rest h = Perm.trans (Perm.cons y h) (Perm.swap x y ys)

  insert_by-perm : (key : A → ℕ) (x : A) (ys : List A) → Perm (insert_by key x ys) (x ∷ ys)
  unfolding insert_by
  insert_by-perm key x [] = Perm.refl (x ∷ [])
  insert_by-perm key x (y ∷ ys) =
      insert_by-perm_step (leb (key x) (key y)) x y ys (insert_by key x ys)
        (insert_by-perm key x ys)

  -- An ordered query has the rows of the query, each as often.
  pub order_by-perm : (key : A → ℕ) (xs : List A) → Perm (order_by key xs) xs
  unfolding order_by
  order_by-perm key [] = Perm.refl []
  order_by-perm key (x ∷ xs) =
      Perm.trans (insert_by-perm key x (order_by key xs)) (Perm.cons x (order_by-perm key xs))

  length-insert_by :
      (key : A → ℕ) (x : A) (ys : List A) → length (insert_by key x ys) ≡ suc (length ys)
  unfolding insert_by
  length-insert_by key x [] = refl
  length-insert_by key x (y ∷ ys) = ground (arith, length-insert_by key x ys)

  pub length-order_by : (key : A → ℕ) (xs : List A) → length (order_by key xs) ≡ length xs
  unfolding order_by
  length-order_by key [] = refl
  length-order_by key (x ∷ xs) =
      length-insert_by key x (order_by key xs) ∙ ap suc (length-order_by key xs)
