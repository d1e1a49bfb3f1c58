-- ===== src/Prelude/Sorting/Unique.antt =====
-- What orders the rows of an `ORDER BY`: lists that are sorted by a key, and when there is only one.
use mathlib.Core.Path.{◌≡◌, refl, ap, sym, subst, ◌∙◌}
use mathlib.Core.Logic.Or
use mathlib.Core.List.{List, [], ◌∷◌, Perm, Mem, mem-cons, not-mem-nil}
use mathlib.Core.List.Perm
use mathlib.Core.Logic.{inl, inr}
use mathlib.Core.Bool.{Bool}
use Prim.Native.Nat.{ℕ, ◌≤◌}
use mathlib.Core.Logic.{◌≢◌}
use mathlib.Core.HLevel.{⊥_prop}
use native.Mathlib.Bridge.{le_prop}
use native.Mathlib.Omega.{arith}
use aipy.Prelude.Tests.{leb, Bool-cases}
use aipy.Prelude.Lists.{All, keep}
use aipy.Prelude.Sorting.{insert_by, order_by, order_by-perm}

module _ {A : Type 0} (key : A → ℕ) where
  abbrev pub Sorted : List A → Type 0
  Sorted [] = Unit
  Sorted (x ∷ xs) = All (λ y. key x ≤ key y) xs × Sorted xs

  -- What a statement's `ORDER BY` does to the rows that it reads: it keeps each as often as it is
  -- there, and sorts them by the key. Rows with the same key may come in any order.
  pub record Orders (order : List A → List A) : Type 0 where
    pub same_rows : (xs : List A) → Perm (order xs) xs
    pub sorted : (xs : List A) → Sorted (order xs)

  -- The keys of the rows are pairwise different.
  abbrev pub Apart : List A → Type 0
  Apart [] = Unit
  Apart (x ∷ xs) = All (λ y. key x ≢ key y) xs × Apart xs

  -- Rows that share the key are the same row.
  abbrev pub KeyIsUnique : List A → Type 0
  KeyIsUnique xs = (x y : A) → Mem x xs → Mem y xs → key x ≡ key y → x ≡ y

  least-mem :
      (n : ℕ) (x y : A) (ys : List A)
      → n ≤ key x
      → All (λ z. n ≤ key z) ys
      → Mem y (x ∷ ys)
      → n ≤ key y
  least-mem n x y [] h hs m =
      Or.elim le_prop (mem-cons.0 m) (λ e. rw e h) (λ k. absurd (not-mem-nil k))
  least-mem n x y (z ∷ ys) h (k, ks) m =
      Or.elim le_prop (mem-cons.0 m) (λ e. rw e h) (least-mem n z y ys k ks)

  -- Two sorted lists of the same rows are equal if no two of the rows share the key.
  pub Sorted-unique :
      (xs ys : List A) → Sorted xs → Sorted ys → Perm xs ys → KeyIsUnique xs → xs ≡ ys
  Sorted-unique [] [] hx hy p unique = refl
  Sorted-unique [] (y ∷ ys) hx hy p unique =
      absurd (not-mem-nil ((Perm.mem_iff p).1 (mem-cons.1 (Or.inl refl))))
  Sorted-unique (x ∷ xs) [] hx hy p unique =
      absurd (not-mem-nil ((Perm.mem_iff p).0 (mem-cons.1 (Or.inl refl))))
  Sorted-unique (x ∷ xs) (y ∷ ys) (least_x, hx) (least_y, hy) p unique =
      let x_first : Mem x (x ∷ xs) = mem-cons.1 (Or.inl refl) in
      let y_there = (Perm.mem_iff p).1 (mem-cons.1 (Or.inl refl)) in
      let below = least-mem (key x) x y xs (omega arith) least_x y_there in
      let above = least-mem (key y) y x ys (omega arith) least_y ((Perm.mem_iff p).0 x_first) in
      let same : x ≡ y = unique x y x_first y_there (omega (arith, below, above)) in
      let rest = Perm.cons_inv {a = x} (subst (λ c. Perm (x ∷ xs) (c ∷ ys)) (sym same) p) in
      let tails =
        Sorted-unique xs ys hx hy rest
          (λ a b m n. unique a b (mem-cons.1 (Or.inr m)) (mem-cons.1 (Or.inr n))) in
      cc

  All-insert_by :
      (P : A → Type 0) (x : A) (ys : List A) → P x → All P ys → All P (insert_by key x ys)
  unfolding insert_by
  All-insert_by P x [] h hs = (h, tt)
  All-insert_by P x (y ∷ ys) h (k, ks) = elim (Bool-cases (leb (key x) (key y))) [
    | inl e ↦ rw e (h, (k, ks))
    | inr e ↦ rw e (k, All-insert_by P x ys h ks)
  ]

  below-All : (m n : ℕ) (ys : List A) → m ≤ n → All (λ y. n ≤ key y) ys → All (λ y. m ≤ key y) ys
  below-All m n [] h hs = tt
  below-All m n (y ∷ ys) h (k, ks) = (omega (arith, h, k), below-All m n ys h ks)

  insert_by-Sorted : (x : A) (ys : List A) → Sorted ys → Sorted (insert_by key x ys)
  unfolding insert_by
  insert_by-Sorted x [] h = (tt, tt)
  insert_by-Sorted x (y ∷ ys) (least, h) = elim (Bool-cases (leb (key x) (key y))) [
    | inl e ↦
        let le : key x ≤ key y = ground arith in
        rw e ((le, below-All (key x) (key y) ys le least), (least, h))
    | inr e ↦
        let le : key y ≤ key x = ground arith in
        rw e (All-insert_by (λ z. key y ≤ key z) x ys le least, insert_by-Sorted x ys h)
  ]

  order_by-Sorted : (xs : List A) → Sorted (order_by key xs)
  unfolding order_by
  order_by-Sorted [] = tt
  order_by-Sorted (x ∷ xs) = insert_by-Sorted x (order_by key xs) (order_by-Sorted xs)

  -- One way to order.
  pub order_by-Orders : Orders (order_by key)
  order_by-Orders = record { same_rows = order_by-perm key; sorted = order_by-Sorted }

  apart-mem : (n : ℕ) (xs : List A) (a : A) → All (λ y. n ≢ key y) xs → Mem a xs → n ≡ key a → ⊥
  apart-mem n [] a h m e = not-mem-nil m
  apart-mem n (x ∷ xs) a (h, hs) m e =
      Or.elim ⊥_prop (mem-cons.0 m) (λ k. h (e ∙ ap key k)) (λ k. apart-mem n xs a hs k e)

  Apart-unique : IsSet A → (xs : List A) → Apart xs → KeyIsUnique xs
  Apart-unique set [] h a b m n e = absurd (not-mem-nil m)
  Apart-unique set (x ∷ xs) (h, hs) a b m n e =
      Or.elim (set a b) (mem-cons.0 m)
        (λ ea.
          Or.elim (set a b) (mem-cons.0 n) (λ eb. ea ∙ sym eb)
            (λ l. absurd (apart-mem (key x) xs b h l (ap key (sym ea) ∙ e))))
        (λ k.
          Or.elim (set a b) (mem-cons.0 n)
            (λ eb. absurd (apart-mem (key x) xs a h k (ap key (sym eb) ∙ sym e)))
            (λ l. Apart-unique set xs hs a b k l e))

  All-keep_from : (P : A → Type 0) (p : A → Bool) (xs : List A) → All P xs → All P (keep p xs)
  All-keep_from P p [] h = h
  All-keep_from P p (x ∷ xs) (h, hs) = elim (Bool-cases (p x)) [
    | inl e ↦ rw e (h, All-keep_from P p xs hs)
    | inr e ↦ rw e (All-keep_from P p xs hs)
  ]

  pub keep-Apart : (p : A → Bool) (xs : List A) → Apart xs → Apart (keep p xs)
  keep-Apart p [] h = h
  keep-Apart p (x ∷ xs) (h, hs) = elim (Bool-cases (p x)) [
    | inl e ↦ rw e (All-keep_from (λ y. key x ≢ key y) p xs h, keep-Apart p xs hs)
    | inr e ↦ rw e (keep-Apart p xs hs)
  ]

  -- If the keys are pairwise different, there is one way to order the rows.
  pub ordered_once :
      (order : List A → List A) (xs : List A)
      → IsSet A
      → Orders order
      → Apart xs
      → order xs ≡ order_by key xs
  ordered_once order xs set orders apart =
      Sorted-unique (order xs) (order_by key xs) (orders.sorted xs) (order_by-Sorted xs)
        (Perm.trans (orders.same_rows xs) (Perm.symm (order_by-perm key xs)))
        (λ a b m n.
          Apart-unique set xs apart a b ((Perm.mem_iff (orders.same_rows xs)).0 m)
            ((Perm.mem_iff (orders.same_rows xs)).0 n))
