-- ===== src/Base/Counting.antt =====
-- How many elements of a list pass a test, and the lists that tests pick.
use mathlib.Core.Path.{◌≡◌, refl}
use mathlib.Core.Logic.{inl, inr}
use mathlib.Core.Bool.{Bool, true, false, not, ◌&&◌}
use mathlib.Core.List.{List, [], ◌∷◌, ◌++◌, map}
use mathlib.Core.Option.{none, some}
use Prim.Native.Nat.{ℕ, ◌+◌, ◌≤◌}
use native.Mathlib.Omega.{arith}
use pr_sentinel_backend.Base.Tests.{if◌then◌else◌, Bool-cases}
use pr_sentinel_backend.Base.Lists.{any, find, keep, map_where}

module _ {ℓ} {A : Type ℓ} where
  -- How many elements pass a test.
  unfoldable pub count : (A → Bool) → List A → ℕ
  count q [] = 0
  count q (x ∷ xs) = (if q x then 1 else 0) + count q xs

  pub count-append : (q : A → Bool) (xs ys : List A) → count q (xs ++ ys) ≡ count q xs + count q ys
  unfolding count
  count-append q [] ys = omega arith
  count-append q (x ∷ xs) ys = rw (count-append q xs ys) (omega arith)

  pub count-none : (q : A → Bool) (xs : List A) → find q xs ≡ none → count q xs ≡ 0
  unfolding count
  count-none q [] e = refl
  count-none q (x ∷ xs) e = elim (Bool-cases (q x)) [
    | inl passes ↦ cc (rw passes at e)
    | inr fails ↦ let rest = count-none q xs (rw fails at e) in rw fails (omega (arith, rest))
  ]

  -- Where only elements with `p` pass `q`.
  pub count-within :
      (q p : A → Bool) (xs : List A)
      → any (λ x. q x && not (p x)) xs ≡ false
      → count q xs ≤ count p xs
  unfolding count
  count-within q p [] e = omega arith
  count-within q p (x ∷ xs) e = ground (arith, count-within q p xs)

  pub count-map_within :
      (q p : A → Bool) (f : A → A) (xs : List A)
      → any (λ x. q x && not (p x)) xs ≡ false
      → count q (map_where p f xs) ≤ count p xs
  unfolding count
  count-map_within q p f [] e = omega arith
  count-map_within q p f (x ∷ xs) e = ground (arith, count-map_within q p f xs)

  -- A change by which nothing comes to pass the test.
  pub count-map_where :
      (q p : A → Bool) (f : A → A) (xs : List A)
      → ((x : A) → q (f x) ≡ true → q x ≡ true)
      → count q (map_where p f xs) ≤ count q xs
  unfolding count
  count-map_where q p f [] same = omega arith
  count-map_where q p f (x ∷ xs) same = ground (arith, same x, count-map_where q p f xs same)

  find-uncounted :
      (p q : A → Bool) (xs : List A) → count p xs ≤ 0 → find (λ y. p y && q y) xs ≡ none
  unfolding count
  find-uncounted p q [] h = refl
  find-uncounted p q (y ∷ xs) h = ground (arith, find-uncounted p q xs)

  -- The one element that passes a test is found by it, where it is found by a stronger one.
  pub find-count_one :
      (p q : A → Bool) (xs : List A) {x : A}
      → count p xs ≤ 1
      → find (λ y. p y && q y) xs ≡ some x
      → find p xs ≡ some x
  unfolding count
  find-count_one p q [] h e = e
  find-count_one p q (y ∷ xs) {x} h e = elim (Bool-cases (p y)) [
    | inr fails ↦ ground (arith, find-count_one p q xs {x = x}, fails)
    | inl passes ↦ elim (Bool-cases (q y)) [
      | inl both ↦ rw (passes) (rw (passes, both) at e)
      | inr only ↦
          let none_left = find-uncounted p q xs (omega (arith, rw passes at h)) in
          cc (rw (passes, only, none_left) at e)
    ]
  ]

  pub any-found : (q : A → Bool) (xs : List A) {x : A} → find q xs ≡ some x → any q xs ≡ true
  any-found q [] e = cc
  any-found q (y ∷ xs) {x} e = ground (arith, any-found q xs {x = x})

  pub any-not_found : (q : A → Bool) (xs : List A) → find q xs ≡ none → any q xs ≡ false
  any-not_found q [] e = refl
  any-not_found q (y ∷ xs) e = ground (arith, any-not_found q xs)

  pub keep-same : (p q : A → Bool) (xs : List A) → ((x : A) → p x ≡ q x) → keep p xs ≡ keep q xs
  keep-same p q [] same = refl
  keep-same p q (x ∷ xs) same = rw (same x, keep-same p q xs same)

  pub keep-nothing : (xs : List A) → keep (λ x. false) xs ≡ []
  keep-nothing [] = refl
  keep-nothing (x ∷ xs) = keep-nothing xs

  pub map-keep {κ} :
      {B : Type κ} (f g : A → B) (p : A → Bool) (xs : List A)
      → ((x : A) → p x ≡ true → f x ≡ g x)
      → map f (keep p xs) ≡ map g (keep p xs)
  map-keep f g p [] same = refl
  map-keep f g p (x ∷ xs) same = elim (Bool-cases (p x)) [
    | inl passes ↦ rw (passes, same x passes, map-keep f g p xs same)
    | inr fails ↦ rw fails (map-keep f g p xs same)
  ]
