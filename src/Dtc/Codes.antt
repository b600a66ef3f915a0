-- ===== src/Dtc/Codes.antt =====
-- `TroubleCode`, the codes of a reply, their order and their counts.
use canopen_studio.Prelude.{
  ℕ, ◌+◌, ◌*◌, ◌^◌, Bool, Option, none, some, List, [], ◌∷◌, leb, ◌==◌, if◌then◌else◌, length,
  get_or, Result, ok, ◌>>=◌,
}
use canopen_studio.Prelude.Bits.{low_bits}
use canopen_studio.Prelude.Dict.{find, put, text_same}
use canopen_studio.Prelude.Sort.{sort}
use canopen_studio.Prelude.Text.{codes}
use canopen_studio.Dtc.{DtcError, decode_dtc, parse_dtc_payload, system_index}

pub data CodeKind : Type 0 where
  stored pending permanent : CodeKind

-- `DTC_MODES`
abbrev pub dtc_mode : CodeKind → ℕ
dtc_mode stored = 0x03
dtc_mode pending = 0x07
dtc_mode permanent = 0x0A

pub record TroubleCode : Type 0 where
  pub code : List ℕ
  pub raw : ℕ
  pub kind : CodeKind
  pub source : ℕ
  pub description : List ℕ

abbrev pub text_or_empty : Option (List ℕ) → List ℕ
text_or_empty none = []
text_or_empty (some text) = text

unfoldable pub codes_of_words :
    CodeKind → ℕ → List (List ℕ × List ℕ) → List ℕ → Result DtcError (List TroubleCode)
unfolding decode_dtc find
codes_of_words kind source lookup [] = ok []
codes_of_words kind source lookup (word ∷ words) = decode_dtc word >>= λ code.
    codes_of_words kind source lookup words >>= λ rest. ok (
      record {
        code = code;
        raw = word;
        kind = kind;
        source = source;
        description = text_or_empty (find code lookup);
      }
      ∷ rest)

unfoldable pub decode_dtc_response :
    List ℕ → CodeKind → ℕ → List (List ℕ × List ℕ) → Result DtcError (List TroubleCode)
unfolding parse_dtc_payload codes_of_words
decode_dtc_response payload kind source lookup =
    codes_of_words kind source lookup (parse_dtc_payload payload)

abbrev pub index_or_zero : Option ℕ → ℕ
index_or_zero none = 0
index_or_zero (some index) = index

-- The pair that codes are sorted by, as one number: its second part is below 2 ^ 14.
unfoldable pub sort_key : TroubleCode → ℕ
unfolding system_index
sort_key c = index_or_zero (system_index (get_or c.code 0 0)) * 2 ^ 14 + low_bits c.raw 14

unfoldable pub sort_codes : List TroubleCode → List TroubleCode
unfolding sort sort_key
sort_codes codes = sort (λ a b. leb (sort_key a) (sort_key b)) codes

abbrev pub kind_name : CodeKind → List ℕ
kind_name stored = codes "stored"
kind_name pending = codes "pending"
kind_name permanent = codes "permanent"

-- `SYSTEM_NAMES`
unfoldable pub system_name : TroubleCode → List ℕ
system_name c =
    let letter = get_or c.code 0 0 in
    if letter == b'P'
    then codes "Powertrain"
    else if letter == b'C'
    then codes "Chassis"
    else if letter == b'B'
    then codes "Body"
    else if letter == b'U'
    then codes "Network"
    else codes "Unknown"

unfoldable pub is_manufacturer_specific : TroubleCode → Bool
is_manufacturer_specific c = get_or c.code 1 0 == b'1'

pub record Summary : Type 0 where
  pub total : ℕ
  pub by_kind : List (List ℕ × ℕ)
  pub by_system : List (List ℕ × ℕ)
  pub code_list : List (List ℕ)

abbrev pub count_or_zero : Option ℕ → ℕ
count_or_zero none = 0
count_or_zero (some n) = n

-- `counts[key] = counts.get(key, 0) + 1`
unfoldable pub count_one : List ℕ → List (List ℕ × ℕ) → List (List ℕ × ℕ)
unfolding find put
count_one key counts = put key (count_or_zero (find key counts) + 1) counts

-- The loop of `summarise`.
unfoldable pub tally :
    (TroubleCode → List ℕ) → List (List ℕ × ℕ) → List TroubleCode → List (List ℕ × ℕ)
unfolding count_one
tally key counts [] = counts
tally key counts (c ∷ rest) = tally key (count_one (key c) counts) rest

abbrev pub code_texts : List TroubleCode → List (List ℕ)
code_texts [] = []
code_texts (c ∷ rest) = c.code ∷ code_texts rest

unfoldable pub summarise : List TroubleCode → Summary
unfolding tally system_name
summarise cs = record {
  total = length cs;
  by_kind = tally (λ c. kind_name c.kind) [] cs;
  by_system = tally system_name [] cs;
  code_list = code_texts cs;
}
