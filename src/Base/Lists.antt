-- ===== src/Base/Lists.antt =====
-- Lists as the tables of a database and the arrays of the source: search, update and removal by a
-- Boolean test.
use Prim.Native.Nat.{ℕ, zero, suc, ◌+◌, ◌≤◌, ◌<◌}
use mathlib.Core.Path.{◌≡◌, refl, ap}
use native.Mathlib.Nat.{zero-add, suc-add}
use native.Mathlib.Numerals.{towards_suc}
use mathlib.Core.Bool.{Bool, true, false, ◌||◌}
use mathlib.Core.List.{List, [], ◌∷◌, ◌++◌}
use mathlib.Core.Option.{Option, none, some}
use mathlib.Core.Option
use native.Mathlib.Omega.{arith}
use pr_sentinel_backend.Base.Tests.{if◌then◌else◌, or_option, Bool-cases}
use mathlib.Core.Logic.{inl, inr}

module _ {ℓ} {A : Type ℓ} where
  abbrev pub length : List A → ℕ
  length [] = 0
  length (x ∷ xs) = suc (length xs)

  pub length-append : (xs ys : List A) → length (xs ++ ys) ≡ length xs + length ys
  length-append [] ys = omega arith
  length-append (x ∷ xs) ys = omega (arith, length-append xs ys)

  abbrev pub any : (A → Bool) → List A → Bool
  any p [] = false
  any p (x ∷ xs) = p x || any p xs

  -- The first element that passes the test.
  abbrev pub find : (A → Bool) → List A → Option A
  find p [] = none
  find p (x ∷ xs) = if p x then some x else find p xs

  -- The elements that pass the test, in order.
  abbrev pub keep : (A → Bool) → List A → List A
  keep p [] = []
  keep p (x ∷ xs) = if p x then x ∷ keep p xs else keep p xs

  abbrev pub change : (A → Bool) → (A → A) → A → A
  change p f x = if p x then f x else x

  -- The list with `f` applied to the elements that pass the test.
  abbrev pub map_where : (A → Bool) → (A → A) → List A → List A
  map_where p f [] = []
  map_where p f (x ∷ xs) = change p f x ∷ map_where p f xs

  -- Every element, as a predicate by recursion.
  abbrev pub All {κ} : (A → Type κ) → List A → Type κ
  All P [] = Unit
  All P (x ∷ xs) = P x × All P xs

module _ {ℓ} {A : Type ℓ} where
  pub find-append :
      (p : A → Bool) (xs ys : List A) → find p (xs ++ ys) ≡ or_option (find p xs) (find p ys)
  find-append p [] ys = refl
  find-append p (x ∷ xs) ys = ground (arith, find-append p xs ys)

  -- A search is not disturbed by a change that no test can see.
  pub find-map_where :
      (q p : A → Bool) (f : A → A) (xs : List A)
      → ((x : A) → q (f x) ≡ q x)
      → find q (map_where p f xs) ≡ Option.map (change p f) (find q xs)
  find-map_where q p f [] same = refl
  find-map_where q p f (x ∷ xs) same = ground (arith, same x, find-map_where q p f xs same)

  -- A search for what a removal spares.
  pub find-keep_other :
      (q p : A → Bool) (xs : List A)
      → ((x : A) → q x ≡ true → p x ≡ true)
      → find q (keep p xs) ≡ find q xs
  find-keep_other q p [] spare = refl
  find-keep_other q p (x ∷ xs) spare = ground (arith, spare x, find-keep_other q p xs spare)

  -- A search for what a removal takes.
  pub find-keep-none :
      (q p : A → Bool) (xs : List A)
      → ((x : A) → q x ≡ true → p x ≡ false)
      → find q (keep p xs) ≡ none
  find-keep-none q p [] gone = refl
  find-keep-none q p (x ∷ xs) gone = ground (arith, gone x, find-keep-none q p xs gone)

  pub find-passes : (p : A → Bool) (xs : List A) {x : A} → find p xs ≡ some x → p x ≡ true
  find-passes p [] e = cc
  find-passes p (y ∷ xs) {x} e = ground (arith, find-passes p xs {x = x})

  -- Where something passes a test, something passes a weaker one.
  pub find-weaker :
      (q p : A → Bool) (xs : List A) {x : A}
      → ((y : A) → q y ≡ true → p y ≡ true)
      → find q xs ≡ some x
      → (y : A) × (find p xs ≡ some y)
  find-weaker q p [] weaker e = cc
  find-weaker q p (y ∷ xs) {x} weaker e = elim (Bool-cases (p y)) [
    | inl passes ↦ (y, rw passes)
    | inr fails ↦
        let fails' : q y ≡ false = ground (arith, weaker y, fails) in
        let (z, found) = find-weaker q p xs {x = x} weaker (rw fails' at e) in (z, rw fails found)
  ]

  pub keep-append : (p : A → Bool) (xs ys : List A) → keep p (xs ++ ys) ≡ keep p xs ++ keep p ys
  keep-append p [] ys = refl
  keep-append p (x ∷ xs) ys = ground (arith, keep-append p xs ys)

  pub keep-keep_none :
      (q p : A → Bool) (xs : List A)
      → ((x : A) → q x ≡ true → p x ≡ false)
      → keep q (keep p xs) ≡ []
  keep-keep_none q p [] gone = refl
  keep-keep_none q p (x ∷ xs) gone = ground (arith, gone x, keep-keep_none q p xs gone)

  pub keep-keep_other :
      (q p : A → Bool) (xs : List A)
      → ((x : A) → q x ≡ true → p x ≡ true)
      → keep q (keep p xs) ≡ keep q xs
  keep-keep_other q p [] spare = refl
  keep-keep_other q p (x ∷ xs) spare = ground (arith, spare x, keep-keep_other q p xs spare)

module _ {ℓ} {A : Type ℓ} where
  abbrev pub take : ℕ → List A → List A
  take zero xs = []
  take (suc n) [] = []
  take (suc n) (x ∷ xs) = x ∷ take n xs

  abbrev pub drop : ℕ → List A → List A
  drop zero xs = xs
  drop (suc n) [] = []
  drop (suc n) (x ∷ xs) = drop n xs

  -- The parts of two lists that follow one another.
  pub take-append : (xs ys : List A) → take (length xs) (xs ++ ys) ≡ xs
  take-append [] ys = refl
  take-append (x ∷ xs) ys = ap (◌∷◌ x) (take-append xs ys)

  pub drop-append : (xs ys : List A) → drop (length xs) (xs ++ ys) ≡ ys
  drop-append [] ys = refl
  drop-append (x ∷ xs) ys = drop-append xs ys

  pub drop-drop : (m n : ℕ) (xs : List A) → drop n (drop m xs) ≡ drop (m + n) xs
  drop-drop zero n xs = rw zero-add
  drop-drop (suc m) zero [] = simp towards_suc refl
  drop-drop (suc m) (suc n) [] = rw suc-add
  drop-drop (suc m) n (x ∷ xs) = rw suc-add (drop-drop m n xs)

  -- Two windows that meet.
  pub take-take-drop : (m n : ℕ) (xs : List A) → take m xs ++ take n (drop m xs) ≡ take (m + n) xs
  take-take-drop zero n xs = rw zero-add
  take-take-drop (suc m) zero [] = simp towards_suc refl
  take-take-drop (suc m) (suc n) [] = rw suc-add
  take-take-drop (suc m) n (x ∷ xs) = rw suc-add (ap (◌∷◌ x) (take-take-drop m n xs))

  pub take-all : (n : ℕ) (xs : List A) → length xs ≤ length (take n xs) → take n xs ≡ xs
  take-all zero [] h = refl
  take-all zero (x ∷ xs) h = absurd (omega arith)
  take-all (suc n) [] h = refl
  take-all (suc n) (x ∷ xs) h = ap (◌∷◌ x) (take-all n xs (omega arith))

  pub length-take_short : (n : ℕ) (xs : List A) → length (take n xs) < length xs → n < length xs
  length-take_short zero [] h = absurd (omega arith)
  length-take_short zero (x ∷ xs) h = omega arith
  length-take_short (suc n) [] h = absurd (omega arith)
  length-take_short (suc n) (x ∷ xs) h = omega (arith, length-take_short n xs (omega arith))
