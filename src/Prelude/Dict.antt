-- ===== src/Prelude/Dict.antt =====
-- Python's dictionaries as lists of keys and values, in the order in which the keys came.
use mathlib.Core.Path.{◌≡◌, refl, ◌∙◌}
use mathlib.Core.Logic.{◌↔◌, inl, inr}
use mathlib.Core.Bool.{Bool, true, false, ◌&&◌, ◌||◌}
use mathlib.Core.Option.{Option, none, some}
use mathlib.Core.List.{List, [], ◌∷◌}
use native.Mathlib.Omega.{arith}
use canopen_studio.Prelude.Int.{ℤ, pos, negsuc}
use canopen_studio.Prelude.Text.{text_eq}
use Prim.Native.Nat.{ℕ}
use canopen_studio.Prelude.Tests.{◌==◌, if◌then◌else◌, Bool-cases}

-- A test of equality.
pub record Same (K : Type 0) : Type 0 where
  pub same : K → K → Bool
  pub same_iff : (a b : K) → (same a b ≡ true) ↔ (a ≡ b)

abbrev pub or_else {ℓ} : {A : Type ℓ} → Option A → Option A → Option A
or_else (some a) b = some a
or_else none b = b

module _ {K : Type 0} ⦃e : Same K⦄ where
  pub same_refl : (k : K) → e.same k k ≡ true
  same_refl k = (e.same_iff k k).1 refl

  -- `k in keys`
  abbrev pub member : K → List K → Bool
  member k [] = false
  member k (j ∷ keys) = e.same j k || member k keys

module _ {ℓ} {K : Type 0} {V : Type ℓ} ⦃e : Same K⦄ where
  unfoldable pub find : K → List (K × V) → Option V
  find k [] = none
  find k ((j, v) ∷ d) = if e.same j k then some v else find k d

  -- `d[k] = v`
  unfoldable pub put : K → V → List (K × V) → List (K × V)
  put k v [] = (k, v) ∷ []
  put k v ((j, w) ∷ d) = let rest = put k v d in if e.same j k then (j, v) ∷ d else (j, w) ∷ rest

  -- `d.pop(k, None)`
  unfoldable pub erase : K → List (K × V) → List (K × V)
  erase k [] = []
  erase k ((j, w) ∷ d) = let rest = erase k d in if e.same j k then rest else (j, w) ∷ rest

  -- `d.update(other)`
  unfoldable pub update : List (K × V) → List (K × V) → List (K × V)
  update d [] = d
  update d ((k, v) ∷ other) = update (put k v d) other

  -- No key stands twice.
  abbrev pub IsDict : List (K × V) → Type ℓ
  IsDict [] = Unit
  IsDict ((k, v) ∷ d) = (find k d ≡ none) × IsDict d

  pub find-put :
      (j k : K) (v : V) (d : List (K × V))
      → find j (put k v d) ≡ (if e.same k j then some v else find j d)
  unfolding find put
  find-put j k v [] = refl
  find-put j k v ((i, w) ∷ d) =
      ground (arith, find-put j k v d, e.same_iff i k, e.same_iff i j, e.same_iff k j)

  pub find-erase :
      (j k : K) (d : List (K × V)) → find j (erase k d) ≡ (if e.same k j then none else find j d)
  unfolding find erase
  find-erase j k [] = ground arith
  find-erase j k ((i, w) ∷ d) =
      ground (arith, find-erase j k d, e.same_iff i k, e.same_iff i j, e.same_iff k j)

  pub put-IsDict : (k : K) (v : V) (d : List (K × V)) → IsDict d → IsDict (put k v d)
  unfolding find put
  put-IsDict k v [] h = (refl, tt)
  put-IsDict k v ((j, w) ∷ d) (p, h) = elim (Bool-cases (e.same j k)) [
    | inl t ↦ rw t (p, h)
    | inr t ↦
        let q : find j (put k v d) ≡ none =
          ground (arith, find-put j k v d, p, t, e.same_iff k j, e.same_iff j k) in
        rw t (q, put-IsDict k v d h)
  ]

  pub find-update :
      (j : K) (other d : List (K × V))
      → IsDict other
      → find j (update d other) ≡ or_else (find j other) (find j d)
  unfolding update find
  find-update j [] d h = refl
  find-update j ((k, v) ∷ other) d (p, h) =
      find-update j other (put k v d) h ∙ (elim (Bool-cases (e.same k j)) [
        | inl t ↦
            let q : k ≡ j = (e.same_iff k j).0 t in
            let n : find j other ≡ none = rw q at p in rw (n, t, find-put j k v d, t) refl
        | inr t ↦ rw (t, find-put j k v d, t) refl
      ])

  pub update-IsDict : (other d : List (K × V)) → IsDict d → IsDict (update d other)
  unfolding update
  update-IsDict [] d h = h
  update-IsDict ((k, v) ∷ other) d h = update-IsDict other (put k v d) (put-IsDict k v d h)

pub text_eq_iff : (s t : List ℕ) → (text_eq s t ≡ true) ↔ (s ≡ t)
text_eq_iff [] [] = ground arith
text_eq_iff [] (d ∷ t) = ground arith
text_eq_iff (c ∷ s) [] = ground arith
text_eq_iff (c ∷ s) (d ∷ t) = ground (arith, text_eq_iff s t)

instance abbrev pub text_same : Same (List ℕ)
text_same = record { same = text_eq; same_iff = text_eq_iff }

abbrev pub integer_eq : ℤ → ℤ → Bool
integer_eq (pos a) (pos b) = a == b
integer_eq (negsuc a) (negsuc b) = a == b
integer_eq (pos a) (negsuc b) = false
integer_eq (negsuc a) (pos b) = false

pub integer_eq_iff : (a b : ℤ) → (integer_eq a b ≡ true) ↔ (a ≡ b)
integer_eq_iff a b = ground arith

-- A mode and a parameter.
abbrev pub Key : Type 0
Key = ℤ × ℤ

abbrev pub key_eq : Key → Key → Bool
key_eq (a, b) (c, d) = integer_eq a c && integer_eq b d

pub key_eq_iff : (a b : Key) → (key_eq a b ≡ true) ↔ (a ≡ b)
key_eq_iff (a, b) (c, d) = ground (arith, integer_eq_iff a c, integer_eq_iff b d)

instance abbrev pub key_same : Same Key
key_same = record { same = key_eq; same_iff = key_eq_iff }

instance abbrev pub integer_same : Same ℤ
integer_same = record { same = integer_eq; same_iff = integer_eq_iff }

pub nat_eq_iff : (a b : ℕ) → ((a == b) ≡ true) ↔ (a ≡ b)
nat_eq_iff a b = ground arith

instance abbrev pub nat_same : Same ℕ
nat_same = record { same = ◌==◌; same_iff = nat_eq_iff }
