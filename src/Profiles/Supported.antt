-- ===== src/Profiles/Supported.antt =====
-- Which PIDs a vehicle supports, as the rules of a profile ask.
use canopen_studio.Prelude.{
  ℕ, ◌≡◌, ◌≢◌, ◌↔◌, ◌⊎◌, refl, sym, ap, ◌∙◌, ◌==◌, ==_iff, true, false, ◌||◌, Bool-cases, inl, inr,
  List, [], ◌∷◌, arith,
}
use mathlib.Core.List.{Memᴰ}
use mathlib.Core.List.Memᴰ
use canopen_studio.Prelude.Dict.{Key}
use canopen_studio.Prelude.Int.{ℤ, pos, negsuc, pos_part}
use canopen_studio.Profiles.{any}
use canopen_studio.Profiles.Scores.{in_supported, all_supported, any_supported}

-- A PID is among those of a vehicle.
abbrev pub Supports : List ℕ → ℤ → Type 0
Supports supported pid = (n : ℕ) × (pid ≡ pos n) × Memᴰ n supported

in_supported_iff :
    (supported : List ℕ) (pid : ℤ) → (in_supported supported pid ≡ true) ↔ Supports supported pid
in_supported_iff [] pid = (λ h. ground (arith, h), λ (n, e, m). absurd (Memᴰ.not-nil m))
in_supported_iff (n ∷ supported) (pos pid) =
    let (there, back) = in_supported_iff supported (pos pid) in
    (
      λ h. elim (Bool-cases (n == pid)) [
        | inl t ↦ (n, ap pos (sym ((==_iff n pid).0 t)), Memᴰ.head refl)
        | inr t ↦
            let (m, e, member_of) = there (ground (arith, h, t)) in (m, e, Memᴰ.tail member_of)
      ],
      λ (m, e, member_of). elim (Memᴰ.cases_cons member_of) [
        | inl same ↦
            let equal : n ≡ pid = sym same ∙ ap pos_part (sym e) in
            let t = (==_iff n pid).1 equal in ground (arith, t)
        | inr later ↦ let t = back (m, e, later) in ground (arith, t)
      ],
    )
in_supported_iff (n ∷ supported) (negsuc pid) =
    (λ h. ground (arith, h), λ (m, e, member_of). ground (arith, e))

pub all_supported_iff :
    (supported : List ℕ) (keys : List Key)
    → (all_supported supported keys ≡ true)
      ↔ ((key : Key) → Memᴰ key keys → Supports supported key.1)
all_supported_iff supported [] = (λ h key m. absurd (Memᴰ.not-nil m), λ h. refl)
all_supported_iff supported ((mode, pid) ∷ keys) =
    let (there, back) = all_supported_iff supported keys in
    let (one, one_back) = in_supported_iff supported pid in
    (
      λ h key m. elim (Memᴰ.cases_cons m) [
        | inl same ↦ let k : key.1 ≡ pid = ap (λ x. x.1) same in rw k (one (ground (arith, h)))
        | inr later ↦ there (ground (arith, h)) key later
      ],
      λ h.
          let p = one_back (h (mode, pid) (Memᴰ.head refl)) in
          let q = back (λ key m. h key (Memᴰ.tail m)) in ground (arith, p, q),
    )

pub any_supported_iff :
    (supported : List ℕ) (keys : List Key)
    → (any_supported supported keys ≡ false)
      ↔ ((key : Key) → Memᴰ key keys → ¬ Supports supported key.1)
any_supported_iff supported [] = (λ h key m. absurd (Memᴰ.not-nil m), λ h. refl)
any_supported_iff supported ((mode, pid) ∷ keys) =
    let (there, back) = any_supported_iff supported keys in
    let (one, one_back) = in_supported_iff supported pid in
    (
      λ h key m supports. elim (Memᴰ.cases_cons m) [
        | inl same ↦
            let k : key.1 ≡ pid = ap (λ x. x.1) same in
            let t = one_back (rw k at supports) in ground (arith, h, t)
        | inr later ↦ there (ground (arith, h)) key later supports
      ],
      λ h.
          let q = back (λ key m. h key (Memᴰ.tail m)) in
          elim (Bool-cases (in_supported supported pid)) [
            | inl t ↦ absurd (h (mode, pid) (Memᴰ.head refl) (one t))
            | inr t ↦ ground (arith, t, q)
          ],
    )

any_iff : (keys : List Key) → (any keys ≡ true) ↔ (keys ≢ [])
any_iff [] = (λ h. ground (arith, h), λ h. absurd (h refl))
any_iff (key ∷ keys) = (λ h e. ground (arith, e), λ h. refl)

pub ruled_iff :
    (required forbidden : List Key)
    → ((any required || any forbidden) ≡ true) ↔ ((required ≢ []) ⊎ (forbidden ≢ []))
ruled_iff [] forbidden = (
  λ h. inr ((any_iff forbidden).0 h),
  λ h. elim h [ inl bad ↦ absurd (bad refl) | inr other ↦ (any_iff forbidden).1 other ],
)
ruled_iff (key ∷ keys) forbidden = (λ h. inl ((any_iff (key ∷ keys)).0 refl), λ h. refl)
