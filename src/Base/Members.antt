-- ===== src/Base/Members.antt =====
-- What holds of every element of a list, and what some element passes, after the changes of tables.
use mathlib.Core.Path.{◌≡◌, refl}
use mathlib.Core.Logic.{inl, inr}
use mathlib.Core.Bool.{Bool, true, false, not, ◌&&◌}
use mathlib.Core.List.{List, [], ◌∷◌, ◌++◌}
use mathlib.Core.Option.{some}
use native.Mathlib.Omega.{arith}
use pr_sentinel_backend.Base.Tests.{Bool-cases}
use pr_sentinel_backend.Base.Lists.{any, find, keep, map_where, All}

module _ {ℓ κ} {A : Type ℓ} where
  pub All-map : (P Q : A → Type κ) (xs : List A) → ((x : A) → P x → Q x) → All P xs → All Q xs
  All-map P Q [] step all = tt
  All-map P Q (x ∷ xs) step (px, all) = (step x px, All-map P Q xs step all)

  pub All-append : (P : A → Type κ) (xs ys : List A) → All P xs → All P ys → All P (xs ++ ys)
  All-append P [] ys all all' = all'
  All-append P (x ∷ xs) ys (px, all) all' = (px, All-append P xs ys all all')

  -- What a removal spares, where the test of the removal may be used.
  pub All-keep :
      (P Q : A → Type κ) (s : A → Bool) (xs : List A)
      → ((x : A) → s x ≡ true → P x → Q x)
      → All P xs
      → All Q (keep s xs)
  All-keep P Q s [] step all = tt
  All-keep P Q s (x ∷ xs) step (px, all) = elim (Bool-cases (s x)) [
    | inl spared ↦ rw spared (step x spared px, All-keep P Q s xs step all)
    | inr removed ↦ rw removed (All-keep P Q s xs step all)
  ]

  pub All-map_where :
      (P : A → Type κ) (test : A → Bool) (f : A → A) (xs : List A)
      → ((x : A) → P x → P (f x))
      → All P xs
      → All P (map_where test f xs)
  All-map_where P test f [] step all = tt
  All-map_where P test f (x ∷ xs) step (px, all) = elim (Bool-cases (test x)) [
    | inl passes ↦ rw passes (step x px, All-map_where P test f xs step all)
    | inr fails ↦ rw fails (px, All-map_where P test f xs step all)
  ]

module _ {ℓ} {A : Type ℓ} where
  pub any-append : (q : A → Bool) (xs ys : List A) → any q xs ≡ true → any q (xs ++ ys) ≡ true
  any-append q [] ys h = cc
  any-append q (x ∷ xs) ys h = ground (arith, any-append q xs ys, h)

  pub any-last : (q : A → Bool) (xs : List A) (x : A) → q x ≡ true → any q (xs ++ x ∷ []) ≡ true
  any-last q [] x e = rw e
  any-last q (y ∷ xs) x e = ground (arith, any-last q xs x)

  pub any-map_where :
      (q test : A → Bool) (f : A → A) (xs : List A)
      → ((x : A) → q (f x) ≡ q x)
      → any q (map_where test f xs) ≡ any q xs
  any-map_where q test f [] same = refl
  any-map_where q test f (x ∷ xs) same = ground (arith, same x, any-map_where q test f xs same)

  -- What is spared by the removal of elements that do not count.
  pub any-keep :
      (q p : A → Bool) (xs : List A)
      → any q xs ≡ true
      → any (λ x. q x && p x) xs ≡ false
      → any q (keep (λ x. not (p x)) xs) ≡ true
  any-keep q p [] some_passes none_removed = cc
  any-keep q p (x ∷ xs) some_passes none_removed = ground (arith, any-keep q p xs)

  pub any-member :
      (q p : A → Bool) (xs : List A) {x : A} → find p xs ≡ some x → q x ≡ true → any q xs ≡ true
  any-member q p [] e h = cc
  any-member q p (y ∷ xs) {x} e h = ground (arith, any-member q p xs {x = x}, h)
