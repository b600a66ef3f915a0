-- ===== src/Dtc/Order.antt =====
-- The order of the codes of a reply, and what their counts add up to.
use canopen_studio.Prelude.{
  ℕ, ◌+◌, ◌*◌, ◌^◌, ◌%◌, ◌≤◌, ◌<◌, ◌≡◌, sym, Bool, some, List, [], ◌∷◌, arith, ltb, get_or, ok, err,
  bind_inv, ok_injective, All, Bool-cases, inl, inr,
}
use canopen_studio.Prelude.Bits.{low_bits, shr}
use canopen_studio.Prelude.Dict.{text_same}
use canopen_studio.Prelude.Sort.{Ascending, count_if, sort-All, sort-Ascending, sort-count}
use canopen_studio.Dtc.{
  does_not_fit, hex_digit, decode_dtc, parse_dtc_payload, system_index, system_letters,
}
use canopen_studio.Dtc.Codes.{
  TroubleCode, CodeKind, codes_of_words, decode_dtc_response, sort_key, sort_codes, index_or_zero,
}

system_letter : (i : ℕ) → i < 4 → system_index (get_or system_letters i 0) ≡ some i
unfolding system_index
system_letter i h = ground arith

abbrev letter_code : ℕ → List ℕ
letter_code word =
    get_or system_letters (low_bits (shr word 14) 2) 0
    ∷ (b'0' + low_bits (shr word 12) 2)
    ∷ hex_digit (low_bits (shr word 8) 4)
    ∷ hex_digit (shr (low_bits word 8) 4)
    ∷ hex_digit (low_bits (low_bits word 8) 4)
    ∷ []

-- The first letter of a code is that of the two top bits of its word.
decode_dtc-key :
    (word : ℕ) (code : List ℕ)
    → decode_dtc word ≡ ok code
    → index_or_zero (system_index (get_or code 0 0)) * 2 ^ 14 + low_bits word 14 ≡ word
unfolding decode_dtc system_index
decode_dtc-key word code h = elim (Bool-cases (ltb 0xFFFF word)) [
  | inl t ↦ let bad : err does_not_fit ≡ ok code = rw (t, decode_dtc) at h in ground (arith, bad)
  | inr t ↦
      let e : ok (letter_code word) ≡ ok code = rw (t, decode_dtc) at h in
      rw
        (
          sym (ok_injective (letter_code word) code e),
          system_letter (shr word 14 % 4) (omega arith),
        )
        (ground (arith, t))
]

codes_of_words-key :
    (kind : CodeKind) (source : ℕ) (lookup : List (List ℕ × List ℕ)) (words : List ℕ)
    (cs : List TroubleCode)
    → codes_of_words kind source lookup words ≡ ok cs
    → All (λ c. sort_key c ≡ c.raw) cs
unfolding codes_of_words sort_key
codes_of_words-key kind source lookup [] cs h =
    let e : [] ≡ cs = ok_injective [] cs h in rw (sym e) tt
codes_of_words-key kind source lookup (word ∷ words) cs h =
    let (code, e, h1) = bind_inv (decode_dtc word) _ _ h in
    let (rest, e2, h2) = bind_inv (codes_of_words kind source lookup words) _ _ h1 in
    rw (sym (ok_injective _ cs h2))
      (decode_dtc-key word code e, codes_of_words-key kind source lookup words rest e2)

Ascending-raw :
    (cs : List TroubleCode)
    → All (λ c. sort_key c ≡ c.raw) cs
    → Ascending sort_key cs
    → Ascending (λ c. c.raw) cs
Ascending-raw [] h k = tt
Ascending-raw (c ∷ rest) (e, h) (p, k) = (All_raw c rest e h p, Ascending-raw rest h k)
  where
    All_raw :
        (c : TroubleCode) (rest : List TroubleCode)
        → sort_key c ≡ c.raw
        → All (λ d. sort_key d ≡ d.raw) rest
        → All (λ d. sort_key c ≤ sort_key d) rest
        → All (λ d. c.raw ≤ d.raw) rest
    All_raw c [] e h k = tt
    All_raw c (d ∷ rest) e (f, h) (p, k) = (omega (arith, e, f, p), All_raw c rest e h k)

-- The codes of a reply are sorted by their words, since the letter of a code says what the two top
-- bits of its word are, and sorting neither drops nor adds any: each test passes as many as before.
pub sort_codes-Ascending :
    (payload : List ℕ) (kind : CodeKind) (source : ℕ) (lookup : List (List ℕ × List ℕ))
    (cs : List TroubleCode) (test : TroubleCode → Bool)
    → decode_dtc_response payload kind source lookup ≡ ok cs
    → Ascending (λ c. c.raw) (sort_codes cs)
      × (count_if sort_key test (sort_codes cs) ≡ count_if sort_key test cs)
unfolding decode_dtc_response sort_codes
sort_codes-Ascending payload kind source lookup cs test h =
    let keys = codes_of_words-key kind source lookup (parse_dtc_payload payload) cs h in
    (
      Ascending-raw (sort_codes cs) (sort-All sort_key (λ c. sort_key c ≡ c.raw) cs keys)
          (sort-Ascending sort_key cs),
      sort-count sort_key test cs,
    )
