-- ===== src/Dtc/Examples.antt =====
-- Trouble codes that can be checked by hand.
use canopen_studio.Prelude.{
  ℕ, ◌+◌, ◌*◌, ◌≡◌, refl, ◌==◌, List, [], ◌∷◌, ◌++◌, ok, arith, length, replicate,
}
use canopen_studio.Prelude.Text.{codes, strip, upper, int_base16, signed, hex_prefixed}
use canopen_studio.Dtc.{
  decode_dtc, encode_dtc, encode_text, system_index, join_code, hex_digit, parse_dtc_payload,
  drop_padding, words,
}
use canopen_studio.Prelude.Dict.{find}
use canopen_studio.Prelude.Sort.{Ascending, count_if}
use canopen_studio.Dtc.Codes.{
  TroubleCode, stored, codes_of_words, decode_dtc_response, sort_key, sort_codes,
}
use canopen_studio.Dtc.Order.{sort_codes-Ascending}
use canopen_studio.Dtc.Printed.{encode-decode}
use canopen_studio.Dtc.Payload.{code_bytes, parse-counted, parse-misread}

decode_oxygen_sensor : decode_dtc 0x0143 ≡ ok (codes "P0143")
unfolding decode_dtc hex_digit
decode_oxygen_sensor = refl

encode_oxygen_sensor : encode_dtc (codes " p0143 ") ≡ ok 0x0143
unfolding encode_dtc encode_text strip upper system_index join_code int_base16 signed hex_prefixed
encode_oxygen_sensor = refl

parse_padded : parse_dtc_payload (2 ∷ 0x01 ∷ 0x43 ∷ 0x01 ∷ 0x96 ∷ 0 ∷ []) ≡ 0x0143 ∷ 0x0196 ∷ []
unfolding parse_dtc_payload
parse_padded = refl

encode-decode_example :
    (text : List ℕ) × (decode_dtc 0xC143 ≡ ok text) × (encode_dtc text ≡ ok 0xC143)
encode-decode_example = encode-decode 0xC143 (omega arith)

parse-misread_example :
    parse_dtc_payload (code_bytes ((256 + 0x43) ∷ []) ++ replicate 3 0) ≡ (0x43 * 256) ∷ []
parse-misread_example = parse-misread 0x43 1 (omega arith) (omega arith)

parse-counted_example :
    parse_dtc_payload (length {A = ℕ} (0x0143 ∷ []) ∷ (code_bytes (0x0143 ∷ []) ++ replicate 2 0))
    ≡ drop_padding (0x0143 ∷ [])
parse-counted_example = parse-counted (0x0143 ∷ []) 2

-- A code of the network and one of the powertrain, in that order.
abbrev two_codes : List TroubleCode
two_codes =
    record { code = codes "U0100"; raw = 0xC100; kind = stored; source = 0x7E8; description = [] }
    ∷ record { code = codes "P0143"; raw = 0x0143; kind = stored; source = 0x7E8; description = [] }
    ∷ []

two_codes_read :
    decode_dtc_response (2 ∷ 0xC1 ∷ 0x00 ∷ 0x01 ∷ 0x43 ∷ []) stored 0x7E8 [] ≡ ok two_codes
unfolding decode_dtc_response codes_of_words parse_dtc_payload words drop_padding decode_dtc
    hex_digit find
two_codes_read = refl

sort_codes-Ascending_example :
    Ascending (λ c. c.raw) (sort_codes two_codes)
    × (count_if sort_key (λ c. c.raw == 0x0143) (sort_codes two_codes)
        ≡ count_if sort_key (λ c. c.raw == 0x0143) two_codes)
sort_codes-Ascending_example =
    sort_codes-Ascending (2 ∷ 0xC1 ∷ 0x00 ∷ 0x01 ∷ 0x43 ∷ []) stored 0x7E8 [] two_codes
      (λ c. c.raw == 0x0143) two_codes_read
