-- ===== src/Vin/Examples.antt =====
-- A number with its check digit, one character of it replaced, and the reply that carries it.
use canopen_studio.Prelude.{ℕ, ◌≡◌, refl, true, false, none, some, List, ◌∷◌, arith, ok}
use canopen_studio.Prelude.Text.{codes, is_space, lstrip, strip, upper}
use canopen_studio.Vin.{
  info_of, parse_vin, extract_vin, printable, is_valid_vin, clean_vin, check_digit, weighted,
  transliteration,
}
use canopen_studio.Vin.CheckDigit.{put, strict-put}

abbrev honda : List ℕ
honda = codes "1M8GDM9AXKP042788"

honda_valid : is_valid_vin honda true ≡ true
unfolding is_valid_vin check_digit weighted transliteration clean_vin is_space upper
honda_valid = refl

honda_clean : clean_vin honda ≡ honda
unfolding clean_vin is_space upper
honda_clean = refl

strict-put_example : is_valid_vin (put 0 b'2' honda) true ≡ false
strict-put_example =
    strict-put honda 0 b'2' 1 2 honda_clean honda_valid (omega arith) (ground arith)
      (unfold transliteration in refl) (unfold transliteration in refl) (ground arith)

honda_parsed : parse_vin honda none ≡ ok (info_of honda none)
unfolding parse_vin is_valid_vin clean_vin is_space upper
honda_parsed = refl

-- The echo of the PID, the count of items and three bytes of padding stand before it.
honda_extracted : extract_vin (2 ∷ 1 ∷ 0 ∷ 0 ∷ 0 ∷ honda) ≡ some honda
unfolding extract_vin printable strip lstrip is_valid_vin clean_vin is_space upper
honda_extracted = refl
