-- ===== src/Vin/Year.antt =====
-- The model year: its code and its cycle.
use canopen_studio.Prelude.{
  ℕ, ◌+◌, ◌-◌, ◌%◌, ◌≤◌, ◌<◌, ◌≡◌, refl, ap, ◌∙◌, Bool, true, false, not, Option, none, some,
  Option-cases, inl, inr, List, [], ◌∷◌, arith, leb, ◌==◌, if◌then◌else◌, length, get_or, ok,
}
use canopen_studio.Prelude.Bits.{every_under, every_under_at}
use canopen_studio.Prelude.Text.{is_space, lstrip, strip, upper}
use canopen_studio.Vin.Parts.{parse_vin_ok}
use canopen_studio.Vin.{
  VinInfo, parse_vin, decode_model_year, alternate_model_year, other_year, year_at, year_codes,
  year_cycle, first_year, index_in, one_more, uppers, is_alpha, is_known,
}

-- The code of a year of either cycle.
pub year_code : ℕ → ℕ
year_code year = get_or year_codes ((year - first_year) % year_cycle) 0

abbrev is_year : Option ℕ → ℕ → Bool
is_year (some year) expected = year == expected
is_year none expected = false

is_year_sound : (o : Option ℕ) (expected : ℕ) → is_year o expected ≡ true → o ≡ some expected
is_year_sound (some year) expected h = ground (arith, h)
is_year_sound none expected h = ground (arith, h)

years_table :
    every_under 60 (λ k.
      is_year (decode_model_year (year_code (first_year + k) ∷ []) (leb 30 k)) (first_year + k))
    ≡ true
unfolding every_under decode_model_year index_in strip lstrip is_space upper year_code
years_table = refl

-- Each year from 1980 to 2039 is decoded from its own code, the cycle being told.
decode-year_code :
    (year : ℕ)
    → first_year ≤ year
    → year < first_year + 60
    → decode_model_year (year_code year ∷ []) (leb 2010 year) ≡ some year
decode-year_code year h1 h2 =
    let k = year - first_year in
    let same : first_year + k ≡ year = omega (arith, h1) in
    let later : leb 30 k ≡ leb 2010 year = ground (arith, h1) in
    let coded : decode_model_year (year_code (first_year + k) ∷ []) (leb 30 k)
        ≡ some (first_year + k) =
      is_year_sound _ _ (every_under_at 60 _ k years_table (omega (arith, h1, h2))) in
    rw (later, same) at coded

index_in-length :
    (c : ℕ) (word text : List ℕ) (n : ℕ) → index_in (c ∷ word) text ≡ some n → n < length text
unfolding index_in
index_in-length c word [] n h = ground (arith, h)
index_in-length c word (d ∷ text) n h = elim (Option-cases (index_in (c ∷ word) text)) [
  | inl e ↦ ground (arith, h, ap one_more e)
  | inr (m, e) ↦ ground (arith, h, ap one_more e, index_in-length c word text m e)
]

index_in-nil : (text : List ℕ) → index_in [] text ≡ some 0
unfolding index_in
index_in-nil [] = refl
index_in-nil (c ∷ text) = refl

year_codes_bound : (word : List ℕ) (n : ℕ) → index_in word year_codes ≡ some n → n < 30
year_codes_bound [] n h = ground (arith, h, index_in-nil year_codes)
year_codes_bound (c ∷ word) n h = index_in-length c word year_codes n h

other_year_at :
    (o : Option ℕ) (later : Bool)
    → ((n : ℕ) → o ≡ some n → n < 30)
    → other_year (year_at later o) ≡ year_at (not later) o
other_year_at none later h = refl
other_year_at (some n) true h = ground (arith, h n refl)
other_year_at (some n) false h = ground (arith, h n refl)

other_year-decode :
    (code : List ℕ) (later : Bool)
    → other_year (decode_model_year code later) ≡ decode_model_year code (not later)
unfolding decode_model_year
other_year-decode code later =
    other_year_at (index_in (uppers (strip code)) year_codes) later
      (year_codes_bound (uppers (strip code)))

alternate-known : (o : Option ℕ) → (if is_known o then other_year o else none) ≡ other_year o
alternate-known none = refl
alternate-known (some year) = refl

-- Where the year was inferred from the number, the alternative is what the same code stands for in
-- the other cycle.
pub parse_vin-alternate :
    (text : List ℕ) (info : VinInfo)
    → parse_vin text none ≡ ok info
    → alternate_model_year info
      ≡ decode_model_year (info.model_year_code ∷ []) (not (is_alpha (get_or info.vin 6 0)))
unfolding alternate_model_year
parse_vin-alternate text info h =
    let (_, e) = parse_vin_ok text none info h in rw e (alternate-known _ ∙ other_year-decode _ _)
