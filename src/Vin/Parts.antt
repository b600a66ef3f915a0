-- ===== src/Vin/Parts.antt =====
-- The parts of a number, and its extraction from a reply.
use canopen_studio.Prelude.{
  ℕ, ◌-◌, ◌≡◌, refl, ap, sym, ◌∙◌, Bool, true, false, Option, some, Bool-cases, inl, inr, List, [],
  ◌∷◌, ◌++◌, arith, if◌then◌else◌, length, get_or, take, drop, length-drop, ok, err,
}
use canopen_studio.Prelude.Text.{is_space, strip, upper}
use canopen_studio.Vin.{
  VinInfo, not_valid, info_of, parse_vin, extract_vin, printable, is_valid_vin, clean_vin,
}

upper_solid :
    (c : ℕ) → is_space c ≡ false → (is_space (upper c) ≡ false) × (upper (upper c) ≡ upper c)
unfolding is_space upper
upper_solid c h = ground arith

clean-clean : (text : List ℕ) → clean_vin (clean_vin text) ≡ clean_vin text
unfolding clean_vin
clean-clean [] = refl
clean-clean (c ∷ text) = elim (Bool-cases (is_space c)) [
  | inl e ↦ rw e (clean-clean text)
  | inr e ↦
      let (space, same) = upper_solid c e in
      rw (e, space, same) (ap (λ l. upper c ∷ l) (clean-clean text))
]

valid-clean :
    (text : List ℕ) (strict : Bool)
    → is_valid_vin (clean_vin text) strict ≡ is_valid_vin text strict
unfolding is_valid_vin
valid-clean text strict = rw (clean-clean text) refl

valid-length :
    (text : List ℕ) (strict : Bool) → is_valid_vin text strict ≡ true → length (clean_vin text) ≡ 17
unfolding is_valid_vin
valid-length text strict h = ground arith

guarded :
    {A E : Type 0} (b : Bool) (x y : A) (e : E)
    → (if b then ok x else err e) ≡ ok y
    → (b ≡ true) × (y ≡ x)
guarded true x y e h = ground (arith, h)
guarded false x y e h = ground (arith, h)

pub parse_vin_ok :
    (text : List ℕ) (told : Option ℕ) (info : VinInfo)
    → parse_vin text told ≡ ok info
    → (is_valid_vin text false ≡ true) × (info ≡ info_of (clean_vin text) told)
unfolding parse_vin
parse_vin_ok text told info h =
    let (valid, e) =
      guarded (is_valid_vin (clean_vin text) false) (info_of (clean_vin text) told) info not_valid
        h in
    (sym (valid-clean text false) ∙ valid, e)

-- The three sections of a text of seventeen characters.
sections :
    (vin : List ℕ)
    → length vin ≡ 17
    → (take 3 vin ++ (take 6 (drop 3 vin) ++ take 8 (drop 9 vin)) ≡ vin)
      × (get_or vin 9 0 ∷ get_or vin 10 0 ∷ take 6 (drop 11 vin) ≡ take 8 (drop 9 vin))
sections (a ∷ b ∷ c ∷ d ∷ e ∷ f ∷ g ∷ h ∷ i ∷ j ∷ k ∷ l ∷ m ∷ n ∷ o ∷ p ∷ q ∷ []) size =
    (refl, refl)
sections vin size = absurd (ground arith)

-- The three sections of a number that was read make up its seventeen characters, and the last
-- section is the year's code, the plant and the serial number.
pub parse_vin_sections :
    (text : List ℕ) (told : Option ℕ) (info : VinInfo)
    → parse_vin text told ≡ ok info
    → (length info.vin ≡ 17)
      × (info.wmi ++ (info.vds ++ info.vis) ≡ info.vin)
      × (info.model_year_code ∷ info.plant_code ∷ info.serial ≡ info.vis)
parse_vin_sections text told info h =
    let (valid, e) = parse_vin_ok text told info h in
    let size = valid-length text false valid in
    rw e (size, (sections (clean_vin text) size).0, (sections (clean_vin text) size).1)

-- What is found in a reply is seventeen characters long and valid.
pub extract_vin_sound :
    (payload vin : List ℕ)
    → extract_vin payload ≡ some vin
    → (length vin ≡ 17) × (is_valid_vin vin false ≡ true)
unfolding extract_vin
extract_vin_sound payload vin h =
    ground
      (arith, length-drop (length (strip (printable payload)) - 17) (strip (printable payload)))
