-- ===== src/Dtc/Payload.antt =====
-- Which codes `parse_dtc_payload` reads out of a reply that does, or does not, open with a count.
use canopen_studio.Prelude.{
  ℕ, zero, suc, ◌+◌, ◌*◌, ◌/◌, ◌%◌, ◌≤◌, ◌<◌, ◌≡◌, ◌≢◌, refl, ap, ◌∙◌, true, false, List, [], ◌∷◌,
  ◌++◌, arith, leb, length, take, drop, replicate, length-append, take-append, take_all, le→leb,
  lt→leb, &&-false,
}
use native.Mathlib.Decide.{dec_le}
use canopen_studio.Dtc.{words, any_nonzero, drop_padding, parse_dtc_payload}

-- The two bytes of each code, as an ECU sends them.
abbrev pub code_bytes : List ℕ → List ℕ
code_bytes [] = []
code_bytes (w ∷ ws) = w / 256 ∷ w % 256 ∷ code_bytes ws

length-code_bytes : (ws : List ℕ) → length (code_bytes ws) ≡ length ws * 2
length-code_bytes [] = refl
length-code_bytes (w ∷ ws) = omega (arith, length-code_bytes ws)

words-code_bytes : (ws : List ℕ) → words (code_bytes ws) ≡ ws
unfolding words
words-code_bytes [] = refl
words-code_bytes (w ∷ ws) =
    let e : w / 256 * 256 + w % 256 ≡ w = omega arith in rw (e, words-code_bytes ws)

-- Padding adds words that are zero, and an odd byte adds none.
padded_words :
    (ws : List ℕ) (n : ℕ) → drop_padding (words (code_bytes ws ++ replicate n 0)) ≡ drop_padding ws
unfolding words drop_padding
padded_words [] zero = refl
padded_words [] (suc zero) = refl
padded_words [] (suc (suc n)) = padded_words [] n
padded_words (w ∷ ws) n =
    let e : w / 256 * 256 + w % 256 ≡ w = omega arith in rw (e, padded_words ws n)

drop_append : (xs ys : List ℕ) → drop (length xs) (xs ++ ys) ≡ ys
drop_append [] ys = refl
drop_append (x ∷ xs) ys = drop_append xs ys

any_nonzero-replicate : (n : ℕ) → any_nonzero (replicate n 0) ≡ false
any_nonzero-replicate zero = refl
any_nonzero-replicate (suc n) = any_nonzero-replicate n

-- A reply that opens with the number of its codes, padded or not, is read as those codes less the
-- zero words.
pub parse-counted :
    (ws : List ℕ) (n : ℕ)
    → parse_dtc_payload (length ws ∷ (code_bytes ws ++ replicate n 0)) ≡ drop_padding ws
unfolding parse_dtc_payload
parse-counted ws n =
    let body = code_bytes ws ++ replicate n 0 in
    let size : length (code_bytes ws) ≡ length ws * 2 = length-code_bytes ws in
    let rest : drop (length ws * 2) body ≡ replicate n 0 =
      rw (← size) (drop_append (code_bytes ws) (replicate n 0)) in
    let front : take (length ws * 2) body ≡ code_bytes ws =
      take-append (length ws * 2) (code_bytes ws) (replicate n 0) (omega (arith, size))
      ∙ take_all (length ws * 2) (code_bytes ws) (omega (arith, size)) in
    let fits : leb (length ws * 2) (length body) ≡ true =
      le→leb _ _ (omega (arith, size, length-append (code_bytes ws) (replicate n 0))) in
    rw (fits, rest, any_nonzero-replicate n, front, words-code_bytes ws)

any_nonzero_last :
    (k : ℕ) (xs : List ℕ) (b : ℕ)
    → k ≤ length xs
    → b ≢ 0
    → any_nonzero (drop k (xs ++ b ∷ [])) ≡ true
any_nonzero_last zero [] b h ne = ground arith
any_nonzero_last zero (x ∷ xs) b h ne = ground (arith, any_nonzero_last zero xs b (omega arith) ne)
any_nonzero_last (suc k) [] b h ne = absurd (omega arith)
any_nonzero_last (suc k) (x ∷ xs) b h ne = any_nonzero_last k xs b (omega arith) ne

not_counted :
    (count : ℕ) (xs : List ℕ) (b m : ℕ)
    → length xs ≡ m * 2
    → b ≢ 0
    → parse_dtc_payload (count ∷ (xs ++ b ∷ [])) ≡ drop_padding (words (count ∷ (xs ++ b ∷ [])))
unfolding parse_dtc_payload
not_counted count xs b m size ne = elim (dec_le (count * 2) (length xs)) [
  | yes fits ↦ rw (any_nonzero_last (count * 2) xs b fits ne) (rw (&&-false _))
  | no over ↦
      let wide : leb (count * 2) (length (xs ++ b ∷ [])) ≡ false =
        lt→leb _ _ (omega (arith, size, length-append xs (b ∷ []))) in
      rw wide
]

code_bytes_last :
    (ws : List ℕ) (w : ℕ)
    → code_bytes (ws ++ w ∷ []) ≡ (code_bytes ws ++ w / 256 ∷ []) ++ w % 256 ∷ []
code_bytes_last [] w = refl
code_bytes_last (v ∷ ws) w = ap (λ l. v / 256 ∷ v % 256 ∷ l) (code_bytes_last ws w)

-- A reply with no count and no padding is read as its codes too, if the low byte of the last code
-- is not zero.
pub parse-uncounted :
    (ws : List ℕ) (w : ℕ)
    → w % 256 ≢ 0
    → parse_dtc_payload (code_bytes (ws ++ w ∷ [])) ≡ drop_padding (ws ++ w ∷ [])
parse-uncounted [] w ne =
    not_counted (w / 256) [] (w % 256) 0 refl ne ∙ ap drop_padding (words-code_bytes (w ∷ []))
parse-uncounted (v ∷ ws) w ne =
    let xs = v % 256 ∷ (code_bytes ws ++ w / 256 ∷ []) in
    let size : length xs ≡ (length ws + 1) * 2 =
      omega (arith, length-code_bytes ws, length-append (code_bytes ws) (w / 256 ∷ [])) in
    (rw (← code_bytes_last ws w) at (not_counted (v / 256) xs (w % 256) (length ws + 1) size ne))
    ∙ ap drop_padding (words-code_bytes (v ∷ (ws ++ w ∷ [])))

-- One code whose first byte is 1 and whose second is not zero, sent with no count and with two
-- bytes of padding or more, is read as another code.
pub parse-misread :
    (b n : ℕ)
    → 0 < b
    → b < 256
    → parse_dtc_payload (code_bytes ((256 + b) ∷ []) ++ replicate (suc (suc n)) 0) ≡ (b * 256) ∷ []
unfolding parse_dtc_payload
parse-misread b n h1 h2 =
    let hi : (256 + b) / 256 ≡ 1 = omega arith in
    let lo : (256 + b) % 256 ≡ b = omega arith in
    rw (hi, lo, any_nonzero-replicate n) (unfold words drop_padding in ground arith)
