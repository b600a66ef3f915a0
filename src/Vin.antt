-- ===== src/Vin.antt =====
-- src/canopen_studio/diag/j1979/vin.py: reading a vehicle identification number, and what it says.
-- A text is the list of its code points and is taken to be ASCII. The display forms of `VinInfo`
-- are not modelled.
pub mod CheckDigit
pub mod Year
pub mod Parts
mod Examples
use canopen_studio.Prelude.{
  ℕ, ◌+◌, ◌*◌, ◌-◌, ◌%◌, Bool, true, false, not, ◌&&◌, ◌||◌, Option, none, some, List, [], ◌∷◌, ltb,
  leb, ◌==◌, if◌then◌else◌, length, get_or, take, drop, Result, ok, err,
}
use canopen_studio.Prelude.Text.{codes, is_space, strip, upper, text_eq}

abbrev pub vin_length : ℕ
vin_length = 17

-- The code points of I, O and Q.
abbrev pub is_forbidden : ℕ → Bool
is_forbidden c = c == b'I' || c == b'O' || c == b'Q'

abbrev pub is_digit : ℕ → Bool
is_digit c = leb b'0' c && leb c b'9'

-- `str.isalpha` and `str.isalnum` of one ASCII character
abbrev pub is_alpha : ℕ → Bool
is_alpha c = leb b'A' c && leb c b'Z' || leb b'a' c && leb c b'z'

abbrev pub is_alnum : ℕ → Bool
is_alnum c = is_digit c || is_alpha c

abbrev pub year_codes : List ℕ
year_codes = codes "ABCDEFGHJKLMNPRSTVWXY123456789"

abbrev pub year_cycle : ℕ
year_cycle = 30

abbrev pub first_year : ℕ
first_year = 1980

pub data Region : Type 0 where
  africa asia europe north_america oceania south_america unknown : Region

-- The value of a character in the check digit's sum; `none` for a key that the table has not.
unfoldable pub transliteration : ℕ → Option ℕ
transliteration c =
    if is_digit c
    then some (c - b'0')
    else if leb b'A' c && leb c b'H'
    then some (c - b'A' + 1)
    else if leb b'J' c && leb c b'N'
    then some (c - b'J' + 1)
    else if c == b'P'
    then some 7
    else if c == b'R'
    then some 9
    else if leb b'S' c && leb c b'Z'
    then some (c - b'S' + 2)
    else none

abbrev pub check_weights : List ℕ
check_weights = 8 ∷ 7 ∷ 6 ∷ 5 ∷ 4 ∷ 3 ∷ 2 ∷ 10 ∷ 0 ∷ 9 ∷ 8 ∷ 7 ∷ 6 ∷ 5 ∷ 4 ∷ 3 ∷ 2 ∷ []

abbrev pub check_position : ℕ
check_position = 8

-- A text of another length; a character that cannot appear; a text that is no number.
pub data VinError : Type 0 where
  wrong_length cannot_appear not_valid : VinError

unfoldable pub clean_vin : List ℕ → List ℕ
unfolding is_space upper
clean_vin [] = []
clean_vin (c ∷ text) = let rest = clean_vin text in if is_space c then rest else upper c ∷ rest

abbrev pub all_alnum : List ℕ → Bool
all_alnum [] = true
all_alnum (c ∷ vin) = is_alnum c && all_alnum vin

abbrev pub any_forbidden : List ℕ → Bool
any_forbidden [] = false
any_forbidden (c ∷ vin) = is_forbidden c || any_forbidden vin

abbrev pub add_product : Option ℕ → ℕ → Option ℕ → Option ℕ
add_product (some value) weight (some total) = some (value * weight + total)
add_product (some value) weight none = none
add_product none weight total = none

-- The loop over `zip(vin, _CHECK_WEIGHTS)`; `none` where it raises.
unfoldable pub weighted : List ℕ → List ℕ → Option ℕ
weighted (c ∷ vin) (weight ∷ weights) =
    add_product (transliteration c) weight (weighted vin weights)
weighted (c ∷ vin) [] = some 0
weighted [] weights = some 0

abbrev pub remainder_text : ℕ → ℕ
remainder_text remainder = if remainder == 10 then b'X' else b'0' + remainder

abbrev pub summed : Option ℕ → Result VinError ℕ
summed none = err cannot_appear
summed (some total) = ok (remainder_text (total % 11))

unfoldable pub check_digit : List ℕ → Result VinError ℕ
check_digit text =
    let vin = clean_vin text in
    if length vin == vin_length then summed (weighted vin check_weights) else err wrong_length

-- The comparison of the ninth character with the check digit, where there is one.
abbrev pub carries : List ℕ → Result VinError ℕ → Option Bool
carries vin (ok digit) = some (get_or vin check_position 0 == digit)
carries vin (err e) = none

abbrev pub or_false : Option Bool → Bool
or_false (some b) = b
or_false none = false

unfoldable pub is_valid_vin : List ℕ → Bool → Bool
is_valid_vin text strict =
    let vin = clean_vin text in
    if not (length vin == vin_length)
    then false
    else if not (all_alnum vin)
    then false
    else if any_forbidden vin
    then false
    else if strict
    then or_false (carries vin (check_digit vin))
    else true

abbrev pub starts_with : List ℕ → List ℕ → Bool
starts_with [] text = true
starts_with (c ∷ word) [] = false
starts_with (c ∷ word) (d ∷ text) = c == d && starts_with word text

abbrev pub one_more : Option ℕ → Option ℕ
one_more (some n) = some (1 + n)
one_more none = none

-- `text.index(word)`, where `word in text`
unfoldable pub index_in : List ℕ → List ℕ → Option ℕ
index_in word [] = if starts_with word [] then some 0 else none
index_in word (c ∷ text) =
    let later = index_in word text in if starts_with word (c ∷ text) then some 0 else one_more later

abbrev pub uppers : List ℕ → List ℕ
uppers [] = []
uppers (c ∷ text) = upper c ∷ uppers text

abbrev pub year_at : Bool → Option ℕ → Option ℕ
year_at later_cycle none = none
year_at later_cycle (some offset) =
    some (first_year + offset + (if later_cycle then year_cycle else 0))

unfoldable pub decode_model_year : List ℕ → Bool → Option ℕ
decode_model_year code later_cycle = year_at later_cycle (index_in (uppers (strip code)) year_codes)

unfoldable pub region_of : List ℕ → Region
region_of [] = unknown
region_of (c ∷ wmi) =
    let first = upper c in
    if leb b'A' first && leb first b'H'
    then africa
    else if leb b'J' first && leb first b'N' || first == b'P' || first == b'R'
    then asia
    else if leb b'S' first && leb first b'Z'
    then europe
    else if leb b'1' first && leb first b'5'
    then north_america
    else if leb b'6' first && leb first b'7'
    then oceania
    else if leb b'8' first && leb first b'9'
    then south_america
    else unknown

pub record VinInfo : Type 0 where
  pub vin : List ℕ
  pub wmi : List ℕ
  pub vds : List ℕ
  pub vis : List ℕ
  pub region : Region
  pub model_year : Option ℕ
  pub model_year_code : ℕ
  pub model_year_is_ambiguous : Bool
  pub plant_code : ℕ
  pub serial : List ℕ
  pub check_digit_valid : Option Bool

abbrev pub other_year : Option ℕ → Option ℕ
other_year none = none
other_year (some year) =
    some (if ltb year (first_year + year_cycle) then year + year_cycle else year - year_cycle)

unfoldable pub alternate_model_year : VinInfo → Option ℕ
alternate_model_year info =
    if info.model_year_is_ambiguous then other_year info.model_year else none

abbrev pub is_known : Option ℕ → Bool
is_known (some year) = true
is_known none = false

-- The year, and whether it was inferred.
abbrev pub inferred : List ℕ → Option ℕ → Option ℕ × Bool
inferred vin (some year) = (some year, false)
inferred vin none =
    let decoded = decode_model_year (get_or vin 9 0 ∷ []) (is_alpha (get_or vin 6 0)) in
    (decoded, is_known decoded)

abbrev pub info_of : List ℕ → Option ℕ → VinInfo
info_of vin model_year = record {
  vin = vin;
  wmi = take 3 vin;
  vds = take 6 (drop 3 vin);
  vis = take 8 (drop 9 vin);
  region = region_of (take 3 vin);
  model_year = (inferred vin model_year).0;
  model_year_code = get_or vin 9 0;
  model_year_is_ambiguous = (inferred vin model_year).1;
  plant_code = get_or vin 10 0;
  serial = take 6 (drop 11 vin);
  check_digit_valid = carries vin (check_digit vin);
}

unfoldable pub parse_vin : List ℕ → Option ℕ → Result VinError VinInfo
parse_vin text model_year =
    let vin = clean_vin text in
    if is_valid_vin vin false then ok (info_of vin model_year) else err not_valid

unfoldable pub printable : List ℕ → List ℕ
printable [] = []
printable (byte ∷ payload) =
    let rest = printable payload in if leb 0x20 byte && ltb byte 0x7F then byte ∷ rest else rest

unfoldable pub extract_vin : List ℕ → Option (List ℕ)
extract_vin payload =
    let text = strip (printable payload) in
    let candidate = drop (length text - vin_length) text in
    if ltb (length text) vin_length
    then none
    else if is_valid_vin candidate false
    then some candidate
    else none
