-- ===== src/Profiles/Chains.antt =====
-- What `ProfileLibrary.chain` returns, against the relation of inheritance.
use canopen_studio.Prelude.{
  ℕ, zero, suc, ◌≤◌, ◌<◌, ◌≡◌, refl, sym, ap, ◌∙◌, false, Bool-cases, Option-cases, inl, inr, none,
  some, List, [], ◌∷◌, ◌++◌, append_assoc, append-nil, arith, length, length-append, ◌⊎◌, ◌≢◌, ◌↔◌,
  Result, ok, err, ok_injective,
}
use canopen_studio.Prelude.Dict.{find, member, text_same, text_eq_iff}
use canopen_studio.Prelude.Text.{text_eq}
use canopen_studio.Profiles.{Profile, ProfileError, inheritance_loops, too_deep}
use canopen_studio.Profiles.Library.{unknown, climb, chain_of, max_depth}

-- The parents of a profile from the base down to it: each one extends the one before it, and the
-- first extends none.
pub data Inherits {V W : Type 0} (profiles : List (List ℕ × Profile V W))
    : List ℕ → List (Profile V W) → Type 0 where
  root :
      (id : List ℕ) (p : Profile V W)
      → find id profiles ≡ some p
      → p.extends ≡ none
      → Inherits profiles id (p ∷ [])
  child :
      (id parent : List ℕ) (p : Profile V W) (up : List (Profile V W))
      → find id profiles ≡ some p
      → p.extends ≡ some parent
      → Inherits profiles parent up
      → Inherits profiles id (up ++ (p ∷ []))

module _ {V W : Type 0} (profiles : List (List ℕ × Profile V W)) where
  -- A loop that ends well has found the profile, and stops there or goes on with its parent.
  Stepped :
      ℕ → List (List ℕ) → List (Profile V W) → List ℕ → List (Profile V W) → Profile V W → Type 0
  Stepped room seen below id chain p =
      ((p.extends ≡ none) × (chain ≡ p ∷ below))
      ⊎ ((parent : List ℕ) × (p.extends ≡ some parent)
          × (climb room profiles (id ∷ seen) (p ∷ below) parent ≡ ok chain))

  climb-found :
      (room : ℕ) (seen : List (List ℕ)) (below : List (Profile V W)) (id : List ℕ)
      (chain : List (Profile V W)) (p : Profile V W)
      → climb (suc room) profiles seen below id ≡ ok chain
      → member id seen ≡ false
      → find id profiles ≡ some p
      → Stepped room seen below id chain p
  unfolding climb Stepped
  climb-found room seen below id chain p h fresh found = elim (Option-cases p.extends) [
    | inl e ↦
        let k : ok (p ∷ below) ≡ ok chain = rw (fresh, found, e, climb) at h in
        inl (e, sym (ok_injective (p ∷ below) chain k))
    | inr (parent, e) ↦ inr (parent, e, rw (fresh, found, e, climb) at h)
  ]

  climb_inv :
      (room : ℕ) (seen : List (List ℕ)) (below : List (Profile V W)) (id : List ℕ)
      (chain : List (Profile V W))
      → climb (suc room) profiles seen below id ≡ ok chain
      → (p : Profile V W) × (find id profiles ≡ some p) × Stepped room seen below id chain p
  unfolding climb
  climb_inv room seen below id chain h = elim (Bool-cases (member id seen)) [
    | inl again ↦
        let k : err inheritance_loops ≡ ok chain = rw (again, climb) at h in ground (arith, k)
    | inr fresh ↦ elim (Option-cases (find id profiles)) [
      | inl e ↦
          let k : err (unknown seen) ≡ ok chain = rw (fresh, e, climb) at h in ground (arith, k)
      | inr (p, e) ↦ (p, e, climb-found room seen below id chain p h fresh e)
    ]
  ]

  climb-full :
      (seen : List (List ℕ)) (below : List (Profile V W)) (id : List ℕ) (chain : List (Profile V W))
      → climb zero profiles seen below id ≢ ok chain
  unfolding climb
  climb-full seen below id chain h = elim (Bool-cases (member id seen)) [
    | inl again ↦
        let k : err inheritance_loops ≡ ok chain = rw (again, climb) at h in ground (arith, k)
    | inr fresh ↦ elim (Option-cases (find id profiles)) [
      | inl e ↦
          let k : err (unknown seen) ≡ ok chain = rw (fresh, e, climb) at h in ground (arith, k)
      | inr (p, e) ↦
          let k : err too_deep ≡ ok chain = rw (fresh, e, climb) at h in ground (arith, k)
    ]
  ]

  climb-Inherits :
      (room : ℕ) (seen : List (List ℕ)) (below : List (Profile V W)) (id : List ℕ)
      (chain : List (Profile V W))
      → climb room profiles seen below id ≡ ok chain
      → (up : List (Profile V W)) × (chain ≡ up ++ below)
        × Inherits profiles id up
        × (length up ≤ room)
  unfolding Stepped
  climb-Inherits zero seen below id chain h = absurd (climb-full seen below id chain h)
  climb-Inherits (suc room) seen below id chain h =
      let (p, found, step) = climb_inv room seen below id chain h in
      elim step [
        | inl (e, c) ↦ (p ∷ [], c, root id p found e, omega arith)
        | inr (parent, e, k) ↦
            let (up, c, above, small) =
              climb-Inherits room (id ∷ seen) (p ∷ below) parent chain k in
            (
              up ++ (p ∷ []),
              c ∙ sym (append_assoc up (p ∷ []) below),
              child id parent p up found e above,
              omega (arith, small, length-append up (p ∷ [])),
            )
      ]

  same_found :
      (id : List ℕ) (p q : Profile V W)
      → find id profiles ≡ some p
      → find id profiles ≡ some q
      → p ≡ q
  same_found id p q f g = ground (arith, f, g)

  same_parent :
      (id : List ℕ) (p q : Profile V W)
      → find id profiles ≡ some p
      → find id profiles ≡ some q
      → p.extends ≡ q.extends
  same_parent id p q f g = ap (λ r. r.extends) (same_found id p q f g)

  -- A profile has one chain of parents at most, so two of them have one length.
  Inherits-length :
      (id : List ℕ) (u v : List (Profile V W))
      → Inherits profiles id u
      → Inherits profiles id v
      → length u ≡ length v
  Inherits-length id u v (root _ p f e) (root _ q g k) = refl
  Inherits-length id u v (root _ p f e) (child _ parent q w g k above) =
      let s : none ≡ some parent = sym e ∙ same_parent id p q f g ∙ k in ground (arith, s)
  Inherits-length id u v (child _ parent p w f e above) (root _ q g k) =
      let s : some parent ≡ none = sym e ∙ same_parent id p q f g ∙ k in ground (arith, s)
  Inherits-length id u v (child _ parent p w f e above) (child _ other q x g k beyond) =
      let s : some parent ≡ some other = sym e ∙ same_parent id p q f g ∙ k in
      let t : other ≡ parent = ground (arith, s) in
      let same = Inherits-length parent w x above (rw t at beyond) in
      omega (arith, same, length-append w (p ∷ []), length-append x (q ∷ []))

  -- Each of the profiles seen has a chain that is longer than the number.
  abbrev Longer : ℕ → List (List ℕ) → Type 0
  Longer n [] = Unit
  Longer n (id ∷ seen) =
      ((u : List (Profile V W)) × Inherits profiles id u × (n < length u)) × Longer n seen

  Longer-weaken : (n m : ℕ) (seen : List (List ℕ)) → m ≤ n → Longer n seen → Longer m seen
  Longer-weaken n m [] h k = tt
  Longer-weaken n m (id ∷ seen) h ((u, a, l), k) =
      ((u, a, omega (arith, l, h)), Longer-weaken n m seen h k)

  -- So none of them is a profile whose chain has that length.
  fresh_of_Longer :
      (id : List ℕ) (u : List (Profile V W)) (seen : List (List ℕ))
      → Inherits profiles id u
      → Longer (length u) seen
      → member id seen ≡ false
  fresh_of_Longer id u [] a h = refl
  fresh_of_Longer id u (s ∷ seen) a ((v, b, l), h) = elim (Bool-cases (text_eq s id)) [
    | inl t ↦
        let same = Inherits-length id u v a (rw ((text_eq_iff s id).0 t) at b) in
        let bad : length u < length u = omega (arith, l, same) in absurd (omega (arith, bad))
    | inr t ↦ rw t (fresh_of_Longer id u seen a h)
  ]

  climb_child :
      (room : ℕ) (seen : List (List ℕ)) (below : List (Profile V W)) (id parent : List ℕ)
      (p : Profile V W) (r : Result ProfileError (List (Profile V W)))
      → member id seen ≡ false
      → find id profiles ≡ some p
      → p.extends ≡ some parent
      → climb room profiles (id ∷ seen) (p ∷ below) parent ≡ r
      → climb (suc room) profiles seen below id ≡ r
  unfolding climb
  climb_child room seen below id parent p r fresh f e h = rw (fresh, f, e, climb) h

  Inherits-climb :
      (id : List ℕ) (chain : List (Profile V W)) (room : ℕ) (seen : List (List ℕ))
      (below : List (Profile V W))
      → Inherits profiles id chain
      → length chain ≤ room
      → Longer (length chain) seen
      → climb room profiles seen below id ≡ ok (chain ++ below)
  unfolding climb
  Inherits-climb id chain zero seen below (root _ p f e) h k = absurd (omega arith)
  Inherits-climb id chain (suc room) seen below (root _ p f e) h k =
      let fresh = fresh_of_Longer id (p ∷ []) seen (root id p f e) k in simp (fresh, f, e, climb)
  Inherits-climb id chain zero seen below (child _ parent p up f e above) h k =
      absurd (omega (arith, h, length-append up (p ∷ [])))
  Inherits-climb id chain (suc room) seen below (child _ parent p up f e above) h k =
      let size = length-append up (p ∷ []) in
      let here = child id parent p up f e above in
      climb_child room seen below id parent p _ (fresh_of_Longer id (up ++ (p ∷ [])) seen here k) f
        e
        (Inherits-climb parent up room (id ∷ seen) (p ∷ below) above (omega (arith, h, size)) (
          (up ++ (p ∷ []), here, omega (arith, size)),
          Longer-weaken (length (up ++ (p ∷ []))) (length up) seen (omega (arith, size)) k,
        )
          ∙ ap ok (sym (append_assoc up (p ∷ []) below)))

-- The chain of a profile is what inheritance says, base first, and has sixteen profiles at most; and
-- where inheritance gives a chain of sixteen or fewer, that is what comes out.
pub chain_of-Inherits :
    {V W : Type 0} (profiles : List (List ℕ × Profile V W)) (id : List ℕ)
    (chain : List (Profile V W))
    → (chain_of profiles id ≡ ok chain) ↔ (Inherits profiles id chain × (length chain ≤ max_depth))
unfolding chain_of
chain_of-Inherits profiles id chain = (
  (λ h.
      let (up, c, a, small) = climb-Inherits profiles max_depth [] [] id chain h in
      let same : chain ≡ up = c ∙ append-nil up in rw same (a, small)),
  (λ (a, small).
      Inherits-climb profiles id chain max_depth [] [] a small tt ∙ ap ok (append-nil chain)),
)
