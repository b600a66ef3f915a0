-- ===== src/Dtc/Printed.antt =====
-- The printed form of a trouble code and its word.
use canopen_studio.Prelude.{
  ℕ, ◌+◌, ◌*◌, ◌/◌, ◌%◌, ◌≤◌, ◌<◌, ◌≡◌, refl, ◌∙◌, Bool, false, Option, none, some, ◌≢◌, List, [],
  ◌∷◌, map, not, length, if◌then◌else◌, ok, err, arith, ◌==◌, get_or,
}
use canopen_studio.Prelude.Bits.{sixteen_bits-or, sixteen_bits-join}
use canopen_studio.Prelude.Text.{
  is_space, upper, strip, hex_value, hex_digits, hex_prefixed, int_base16, is_x,
}
use native.Mathlib.Decide.{dec_lt}
use canopen_studio.Dtc.{
  hex_digit, system_letters, not_a_code, system_index, decode_dtc, encode_dtc, encode_text,
  join_code,
}

abbrev pub letter : ℕ → ℕ
letter i = get_or system_letters i 0

letter_facts :
    (i : ℕ)
    → i < 4
    → (is_space (letter i) ≡ false)
      × (upper (letter i) ≡ letter i)
      × (system_index (letter i) ≡ some i)
unfolding is_space upper system_index
letter_facts i h = ground arith

hex_digit_facts :
    (n : ℕ)
    → n < 16
    → (is_space (hex_digit n) ≡ false)
      × (upper (hex_digit n) ≡ hex_digit n)
      × (hex_value (hex_digit n) ≡ some n)
      × ((hex_digit n == b'-') ≡ false)
      × ((hex_digit n == b'+') ≡ false)
      × (is_x (hex_digit n) ≡ false)
      × ((hex_digit n == b'_') ≡ false)
unfolding hex_digit is_space upper hex_value
hex_digit_facts n h = ground arith

strip_four :
    (a b c d : ℕ)
    → is_space a ≡ false
    → is_space d ≡ false
    → strip (a ∷ b ∷ c ∷ d ∷ []) ≡ a ∷ b ∷ c ∷ d ∷ []
unfolding strip
strip_four a b c d p q = ground arith

strip_five :
    (a b c d e : ℕ)
    → is_space a ≡ false
    → is_space e ≡ false
    → strip (a ∷ b ∷ c ∷ d ∷ e ∷ []) ≡ a ∷ b ∷ c ∷ d ∷ e ∷ []
unfolding strip
strip_five a b c d e p q = ground arith

four_digits :
    (a b c d va vb vc vd : ℕ)
    → hex_value a ≡ some va
    → hex_value b ≡ some vb
    → hex_value c ≡ some vc
    → hex_value d ≡ some vd
    → is_x b ≡ false
    → hex_prefixed (a ∷ b ∷ c ∷ d ∷ []) ≡ some (((va * 16 + vb) * 16 + vc) * 16 + vd)
unfolding hex_prefixed
four_digits a b c d va vb vc vd ha hb hc hd hx = ground arith

-- `int(text, 16)` of four digits
int_base16-hex_digit :
    (a b c d : ℕ)
    → a < 16
    → b < 16
    → c < 16
    → d < 16
    → int_base16 (hex_digit a ∷ hex_digit b ∷ hex_digit c ∷ hex_digit d ∷ [])
      ≡ some (false, ((a * 16 + b) * 16 + c) * 16 + d)
unfolding int_base16
int_base16-hex_digit a b c d ha hb hc hd =
    let (sa, ua, va, ma, pa, xa, _) = hex_digit_facts a ha in
    let (sb, ub, vb, mb, pb, xb, _) = hex_digit_facts b hb in
    let (sc, uc, vc, mc, pc, xc, _) = hex_digit_facts c hc in
    let (sd, ud, vd, md, pd, xd, _) = hex_digit_facts d hd in
    rw (strip_four _ _ _ _ sa sd, ma, pa, four_digits _ _ _ _ a b c d va vb vc vd xb)

printed : ℕ → ℕ → ℕ → ℕ → ℕ → List ℕ
printed i a b c d = letter i ∷ hex_digit a ∷ hex_digit b ∷ hex_digit c ∷ hex_digit d ∷ []

hex_digit_decimal : (n : ℕ) → n < 4 → hex_digit n ≡ b'0' + n
unfolding hex_digit
hex_digit_decimal n h = ground arith

decode_dtc-printed :
    (w : ℕ)
    → w < 65536
    → decode_dtc w ≡ ok (printed (w / 16384) (w / 4096 % 4) (w / 256 % 16) (w / 16 % 16) (w % 16))
unfolding decode_dtc printed
decode_dtc-printed w h = ground (arith, hex_digit_decimal (w / 4096 % 4) (omega arith))

encode_dtc-five :
    (l a b c d i : ℕ)
    → is_space l ≡ false
    → is_space d ≡ false
    → upper l ≡ l
    → upper a ≡ a
    → upper b ≡ b
    → upper c ≡ c
    → upper d ≡ d
    → system_index l ≡ some i
    → encode_dtc (l ∷ a ∷ b ∷ c ∷ d ∷ []) ≡ join_code i (int_base16 (a ∷ b ∷ c ∷ d ∷ []))
unfolding encode_dtc
encode_dtc-five l a b c d i sl sd ul ua ub uc ud h =
    rw (strip_five l a b c d sl sd, ul, ua, ub, uc, ud) (unfold encode_text in rw h)

join_code-digits : (w : ℕ) → w < 65536 → join_code (w / 16384) (some (false, w % 16384)) ≡ ok w
unfolding join_code
join_code-digits w h = ground (arith, sixteen_bits-or w h)

encode_dtc-printed :
    (w : ℕ)
    → w < 65536
    → encode_dtc (printed (w / 16384) (w / 4096 % 4) (w / 256 % 16) (w / 16 % 16) (w % 16)) ≡ ok w
unfolding printed
encode_dtc-printed w h =
    let (si, ui, xi) = letter_facts (w / 16384) (omega arith) in
    let (sa, ua, _, _, _, _, _) = hex_digit_facts (w / 4096 % 4) (omega arith) in
    let (sb, ub, _, _, _, _, _) = hex_digit_facts (w / 256 % 16) (omega arith) in
    let (sc, uc, _, _, _, _, _) = hex_digit_facts (w / 16 % 16) (omega arith) in
    let (sd, ud, _, _, _, _, _) = hex_digit_facts (w % 16) (omega arith) in
    let n = ((w / 4096 % 4 * 16 + w / 256 % 16) * 16 + w / 16 % 16) * 16 + w % 16 in
    let total : n ≡ w % 16384 = omega arith in
    rw
      (
        encode_dtc-five _ _ _ _ _ (w / 16384) si sd ui ua ub uc ud xi,
        int_base16-hex_digit (w / 4096 % 4) (w / 256 % 16) (w / 16 % 16) (w % 16) (omega arith)
            (omega arith) (omega arith) (omega arith),
        total,
      )
      (join_code-digits w h)

-- A sixteen-bit word is printed, and its printed form is read back as the word.
pub encode-decode :
    (w : ℕ) → w ≤ 0xFFFF → (text : List ℕ) × (decode_dtc w ≡ ok text) × (encode_dtc text ≡ ok w)
encode-decode w h = (
  printed (w / 16384) (w / 4096 % 4) (w / 256 % 16) (w / 16 % 16) (w % 16),
  decode_dtc-printed w (omega arith),
  encode_dtc-printed w (omega arith),
)

system_index-lt : (l i : ℕ) → system_index l ≡ some i → i < 4
unfolding system_index
system_index-lt l i h = ground arith

join_code-le :
    (i : ℕ) (parsed : Option (Bool × ℕ)) (w : ℕ) → i < 4 → join_code i parsed ≡ ok w → w ≤ 0xFFFF
unfolding join_code
join_code-le i none w h e = cc
join_code-le i (some (minus, digits)) w h e = elim (dec_lt digits 16384) [
  | yes fits ↦ ground (arith, sixteen_bits-join i digits fits (omega arith))
  | no over ↦ ground arith
]

encode_text-le : (text : List ℕ) (w : ℕ) → encode_text text ≡ ok w → w ≤ 0xFFFF
unfolding encode_text
encode_text-le [] w e = cc
encode_text-le (l ∷ digits) w e = go (system_index l) refl e
  where
    go :
        (o : Option ℕ)
        → system_index l ≡ o
        → (if not (length (l ∷ digits) == 5) then err not_a_code else elim o [
          | none ↦ err not_a_code
          | some index ↦ join_code index (int_base16 digits)
        ])
          ≡ ok w
        → w ≤ 0xFFFF
    go none p q = ground arith
    go (some i) p q = ground (arith, join_code-le i (int_base16 digits) w (system_index-lt l i p))

-- Every text that is accepted stands for a sixteen-bit word, whose printed form stands for the
-- same word.
pub decode-encode :
    (text : List ℕ) (w : ℕ)
    → encode_dtc text ≡ ok w
    → (w ≤ 0xFFFF) × ((text' : List ℕ) × (decode_dtc w ≡ ok text') × (encode_dtc text' ≡ ok w))
unfolding encode_dtc
decode-encode text w h =
    let fits = encode_text-le (map upper (strip text)) w h in (fits, encode-decode w fits)

prefixed_digits :
    (c d : ℕ)
    → c < 16
    → d < 16
    → int_base16 (b'0' ∷ b'X' ∷ hex_digit c ∷ hex_digit d ∷ []) ≡ some (false, c * 16 + d)
unfolding int_base16
prefixed_digits c d hc hd =
    let (sc, uc, vc, _, _, _, nc) = hex_digit_facts c hc in
    let (sd, ud, vd, _, _, _, _) = hex_digit_facts d hd in
    rw (strip_four b'0' b'X' (hex_digit c) (hex_digit d) (unfold is_space in refl) sd)
      (unfold hex_prefixed hex_digits in ground (arith, vc, vd, nc))

-- The hexadecimal prefix `0X` is accepted where a code has its first two digits, so that a text
-- which no word is printed as is read as a code.
pub encode-prefixed :
    (i c d : ℕ)
    → i < 4
    → c < 16
    → d < 16
    → (encode_dtc (letter i ∷ b'0' ∷ b'X' ∷ hex_digit c ∷ hex_digit d ∷ [])
        ≡ ok (i * 16384 + (c * 16 + d)))
      × ((w : ℕ) → decode_dtc w ≢ ok (letter i ∷ b'0' ∷ b'X' ∷ hex_digit c ∷ hex_digit d ∷ []))
unfolding decode_dtc upper
encode-prefixed i c d hi hc hd =
    let (si, ui, xi) = letter_facts i hi in
    let (sc, uc, _, _, _, _, _) = hex_digit_facts c hc in
    let (sd, ud, _, _, _, _, _) = hex_digit_facts d hd in
    let upper_digits =
      encode_dtc-five (letter i) b'0' b'X' (hex_digit c) (hex_digit d) i si sd ui refl refl uc ud
        xi in
    (
      upper_digits
          ∙ rw (prefixed_digits c d hc hd)
              (unfold join_code in ground (arith, sixteen_bits-join i (c * 16 + d))),
      λ w e. ground (arith, hex_digit_facts (w / 256 % 16)),
    )
