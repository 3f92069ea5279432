-- ===== src/Prisma/Insertion.antt =====
-- An order of rows by insertion, with texts in the order of their lengths: the assumption on
-- `orderBy` can be met.
use Prim.Native.String.{len}
use mathlib.Core.List.{Perm}
use mathlib.Core.List.Perm
use pr_sentinel_backend.Base.{Bool, List, [], ◌∷◌, if◌then◌else◌, leb, Bool-cases, inl, inr}
use pr_sentinel_backend.Prisma.Orders.{Orders}

module _ {Row : Type 0} (precedes : Row → Row → Bool) where
  pub insert : Row → List Row → List Row
  insert x [] = x ∷ []
  insert x (y ∷ ys) = let rest = insert x ys in if precedes x y then x ∷ y ∷ ys else y ∷ rest

  pub insertion_sort : List Row → List Row
  insertion_sort [] = []
  insertion_sort (x ∷ xs) = insert x (insertion_sort xs)

  insert-Perm : (x : Row) (ys : List Row) → Perm (insert x ys) (x ∷ ys)
  unfolding insert
  insert-Perm x [] = Perm.rfl
  insert-Perm x (y ∷ ys) = elim (Bool-cases (precedes x y)) [
    | inl first ↦ rw first Perm.rfl
    | inr later ↦ rw later (Perm.trans (Perm.cons y (insert-Perm x ys)) (Perm.swap x y ys))
  ]

  pub insertion_sort-Perm : (xs : List Row) → Perm (insertion_sort xs) xs
  unfolding insertion_sort
  insertion_sort-Perm [] = Perm.rfl
  insertion_sort-Perm (x ∷ xs) =
      Perm.trans (insert-Perm x (insertion_sort xs)) (Perm.cons x (insertion_sort-Perm xs))

instance pub by_insertion : Orders
by_insertion = record {
  collate = λ s t. leb (len s) (len t);
  order_by = insertion_sort;
  order_by-Perm = insertion_sort-Perm;
}
