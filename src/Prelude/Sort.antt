-- ===== src/Prelude/Sort.antt =====
-- Python's `sorted`: a stable sort, here by insertion; and the order of texts.
use Prim.Native.Nat.{ℕ, ◌+◌, ◌≤◌}
use mathlib.Core.Path.{◌≡◌, refl}
use mathlib.Core.Logic.{inl, inr}
use native.Mathlib.Omega.{arith}
use mathlib.Core.Bool.{Bool, true, false}
use mathlib.Core.List.{List, [], ◌∷◌}
use canopen_studio.Prelude.Lists.{All}
use canopen_studio.Prelude.Tests.{ltb, leb, leb→le, Bool-cases, ◌==◌, if◌then◌else◌}

abbrev pub text_leb : List ℕ → List ℕ → Bool
text_leb [] t = true
text_leb (c ∷ s) [] = false
text_leb (c ∷ s) (d ∷ t) =
    let rest = text_leb s t in if ltb c d then true else if c == d then rest else false

module _ {ℓ} {A : Type ℓ} (leb : A → A → Bool) where
  -- In front of the first that is not less.
  unfoldable pub insert_sorted : A → List A → List A
  insert_sorted a [] = a ∷ []
  insert_sorted a (b ∷ rest) =
      let later = insert_sorted a rest in if leb a b then a ∷ b ∷ rest else b ∷ later

  unfoldable pub sort : List A → List A
  unfolding insert_sorted
  sort [] = []
  sort (a ∷ rest) = insert_sorted a (sort rest)

-- What comes out of a sort by a number: the same items, in ascending order.
module _ {ℓ} {A : Type ℓ} (key : A → ℕ) where
  abbrev pub by_key : A → A → Bool
  by_key a b = leb (key a) (key b)

  abbrev pub Ascending : List A → Type 0
  Ascending [] = Unit
  Ascending (a ∷ rest) = All (λ b. key a ≤ key b) rest × Ascending rest

  insert-All :
      (P : A → Type 0) (a : A) (rest : List A)
      → P a
      → All P rest
      → All P (insert_sorted by_key a rest)
  unfolding insert_sorted
  insert-All P a [] p h = (p, tt)
  insert-All P a (b ∷ rest) p (q, h) = elim (Bool-cases (leb (key a) (key b))) [
    | inl t ↦ rw t (p, (q, h))
    | inr t ↦ rw t (q, insert-All P a rest p h)
  ]

  All-weaken :
      (n m : ℕ) (rest : List A) → n ≤ m → All (λ b. m ≤ key b) rest → All (λ b. n ≤ key b) rest
  All-weaken n m [] h k = tt
  All-weaken n m (b ∷ rest) h (p, k) = (omega (arith, h, p), All-weaken n m rest h k)

  insert-Ascending :
      (a : A) (rest : List A) → Ascending rest → Ascending (insert_sorted by_key a rest)
  unfolding insert_sorted
  insert-Ascending a [] h = (tt, tt)
  insert-Ascending a (b ∷ rest) (p, h) = elim (Bool-cases (leb (key a) (key b))) [
    | inl t ↦
        let small = leb→le (key a) (key b) t in
        rw t ((small, All-weaken (key a) (key b) rest small p), (p, h))
    | inr t ↦
        rw t
          (insert-All (λ c. key b ≤ key c) a rest (ground (arith, t)) p, insert-Ascending a rest h)
  ]

  pub sort-Ascending : (items : List A) → Ascending (sort by_key items)
  unfolding sort
  sort-Ascending [] = tt
  sort-Ascending (a ∷ rest) = insert-Ascending a (sort by_key rest) (sort-Ascending rest)

  pub sort-All : (P : A → Type 0) (items : List A) → All P items → All P (sort by_key items)
  unfolding sort
  sort-All P [] h = tt
  sort-All P (a ∷ rest) (p, h) = insert-All P a (sort by_key rest) p (sort-All P rest h)

  -- How many items pass a test.
  abbrev pub count_if : (A → Bool) → List A → ℕ
  count_if test [] = 0
  count_if test (a ∷ rest) = (if test a then 1 else 0) + count_if test rest

  insert-count :
      (test : A → Bool) (a : A) (rest : List A)
      → count_if test (insert_sorted by_key a rest) ≡ (if test a then 1 else 0) + count_if test rest
  unfolding insert_sorted
  insert-count test a [] = refl
  insert-count test a (b ∷ rest) = elim (Bool-cases (leb (key a) (key b))) [
    | inl t ↦ rw t refl
    | inr t ↦ rw t (omega (arith, insert-count test a rest))
  ]

  pub sort-count :
      (test : A → Bool) (items : List A) → count_if test (sort by_key items) ≡ count_if test items
  unfolding sort
  sort-count test [] = refl
  sort-count test (a ∷ rest) =
      omega (arith, insert-count test a (sort by_key rest), sort-count test rest)
