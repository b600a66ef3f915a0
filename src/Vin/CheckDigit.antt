-- ===== src/Vin/CheckDigit.antt =====
-- What the check digit catches: its weights, but for the digit's own position, are units modulo 11.
use canopen_studio.Prelude.{
  ℕ, zero, suc, ◌+◌, ◌*◌, ◌%◌, ◌≤◌, ◌<◌, ◌≡◌, ◌≢◌, refl, ap, ap₂, sym, ◌∙◌, true, false, not, ◌&&◌,
  ◌||◌, Option, none, some, Option-cases, Bool-cases, inl, inr, List, [], ◌∷◌, arith, ltb, ◌==◌,
  length, get_or, Result, ok, err,
}
use canopen_studio.Prelude.Bits.{every_under, every_under_at}
use canopen_studio.Prelude.Text.{is_space, upper}
use canopen_studio.Vin.{
  transliteration, check_weights, check_position, clean_vin, weighted, add_product, check_digit,
  summed, remainder_text, carries, or_false, is_valid_vin, VinError,
}

-- The text with the character at one position replaced.
unfoldable pub put : ℕ → ℕ → List ℕ → List ℕ
put i c [] = []
put zero c (d ∷ vin) = c ∷ vin
put (suc i) c (d ∷ vin) = d ∷ put i c vin

length-put : (i c : ℕ) (vin : List ℕ) → length (put i c vin) ≡ length vin
unfolding put
length-put i c [] = refl
length-put zero c (d ∷ vin) = refl
length-put (suc i) c (d ∷ vin) = ap suc (length-put i c vin)

get_or-put_ne : (i j c : ℕ) (vin : List ℕ) → j ≢ i → get_or (put i c vin) j 0 ≡ get_or vin j 0
unfolding put
get_or-put_ne i j c [] h = refl
get_or-put_ne zero zero c (d ∷ vin) h = absurd (h refl)
get_or-put_ne zero (suc j) c (d ∷ vin) h = refl
get_or-put_ne (suc i) zero c (d ∷ vin) h = refl
get_or-put_ne (suc i) (suc j) c (d ∷ vin) h = get_or-put_ne i j c vin (λ e. h (ap suc e))

transliteration-clean :
    (c value : ℕ)
    → transliteration c ≡ some value
    → (is_space c ≡ false) × (upper c ≡ c) × (value ≤ 9)
unfolding transliteration is_space upper
transliteration-clean c value h = ground arith

length-clean : (vin : List ℕ) → length (clean_vin vin) ≤ length vin
unfolding clean_vin
length-clean [] = omega arith
length-clean (c ∷ vin) = ground (arith, length-clean vin)

-- A text that is as long when it is cleaned has nothing to clean but the case.
clean_head :
    (c : ℕ) (vin : List ℕ)
    → clean_vin (c ∷ vin) ≡ c ∷ vin
    → (is_space c ≡ false) × (upper c ≡ c) × (clean_vin vin ≡ vin)
unfolding clean_vin
clean_head c vin h = ground (arith, length-clean vin, ap length h)

clean-put :
    (i c value : ℕ) (vin : List ℕ)
    → transliteration c ≡ some value
    → clean_vin vin ≡ vin
    → clean_vin (put i c vin) ≡ put i c vin
unfolding put clean_vin
clean-put i c value [] t h = refl
clean-put zero c value (d ∷ vin) t h =
    let (space, same, small) = transliteration-clean c value t in
    let (space', same', rest) = clean_head d vin h in rw (space, same, rest) refl
clean-put (suc i) c value (d ∷ vin) t h =
    let (space, same, rest) = clean_head d vin h in
    rw (space, same) (ap (λ l. d ∷ l) (clean-put i c value vin t rest))

add_product_inv :
    (x : Option ℕ) (w : ℕ) (y : Option ℕ) (total : ℕ)
    → add_product x w y ≡ some total
    → (v u : ℕ) × (x ≡ some v) × (y ≡ some u) × (total ≡ v * w + u)
add_product_inv (some v) w (some u) total h = (v, u, refl, refl, ground (arith, h))
add_product_inv (some v) w none total h = ground arith
add_product_inv none w y total h = ground arith

-- What a replacement does to the sum.
weighted-put :
    (i c a b total : ℕ) (vin weights : List ℕ)
    → i < length vin
    → i < length weights
    → transliteration (get_or vin i 0) ≡ some a
    → transliteration c ≡ some b
    → weighted vin weights ≡ some total
    → (total' : ℕ) × (weighted (put i c vin) weights ≡ some total')
      × (total' + a * get_or weights i 0 ≡ total + b * get_or weights i 0)
unfolding put weighted
weighted-put i c a b total [] weights h1 h2 ha hb hw = absurd (omega arith)
weighted-put i c a b total (d ∷ vin) [] h1 h2 ha hb hw = absurd (omega arith)
weighted-put zero c a b total (d ∷ vin) (w ∷ weights) h1 h2 ha hb hw =
    let (v, u, hv, hu, e) = add_product_inv (transliteration d) w (weighted vin weights) total hw in
    let same : v ≡ a = ground (arith, hv, ha) in
    (b * w + u, ap₂ (λ x y. add_product x w y) hb hu, omega (arith, e, ap (λ x. x * w) same))
weighted-put (suc i) c a b total (d ∷ vin) (w ∷ weights) h1 h2 ha hb hw =
    let (v, u, hv, hu, e) = add_product_inv (transliteration d) w (weighted vin weights) total hw in
    let (u', hu', e') = weighted-put i c a b u vin weights (omega arith) (omega arith) ha hb hu in
    (v * w + u', ap₂ (λ x y. add_product x w y) hv hu', omega (arith, e, e'))

-- The multiples of a weight by two values of a character differ modulo 11.
multiples_table :
    every_under 11 (λ w.
      every_under 10
        (λ a. every_under 10 (λ b. w == 0 || a == b || not (a * w % 11 == b * w % 11))))
    ≡ true
unfolding every_under
multiples_table = refl

multiples_ne : (w a b : ℕ) → w < 11 → 0 < w → a ≤ 9 → b ≤ 9 → a ≢ b → a * w % 11 ≢ b * w % 11
multiples_ne w a b h1 h2 h3 h4 h =
    let p = every_under_at 11 _ w multiples_table h1 in
    let q = every_under_at 10 _ a p (omega arith) in
    let r = every_under_at 10 _ b q (omega arith) in ground (arith, r)

remainders_ne :
    (t t' x y : ℕ)
    → t' + x ≡ t + y
    → x % 11 ≢ y % 11
    → remainder_text (t % 11) ≢ remainder_text (t' % 11)
remainders_ne t t' x y h ne = ground arith

weights_table :
    every_under 17 (λ i.
      i == check_position || ltb (get_or check_weights i 0) 11 && ltb 0 (get_or check_weights i 0))
    ≡ true
unfolding every_under
weights_table = refl

check_weights_range :
    (i : ℕ)
    → i < 17
    → i ≢ check_position
    → (get_or check_weights i 0 < 11) × (0 < get_or check_weights i 0)
check_weights_range i h ne = let p = every_under_at 17 _ i weights_table h in ground (arith, p)

summed-some :
    (o : Option ℕ) (total digit : ℕ)
    → o ≡ some total
    → summed o ≡ ok digit
    → remainder_text (total % 11) ≡ digit
summed-some (some t) total digit e h = ground (arith, e, h)
summed-some none total digit e h = ground (arith, e)

-- The sums of a text and of a replacement in it leave different check digits.
summed-put :
    (i c a b digit : ℕ) (vin : List ℕ)
    → length vin ≡ 17
    → i < 17
    → i ≢ check_position
    → transliteration (get_or vin i 0) ≡ some a
    → transliteration c ≡ some b
    → a ≢ b
    → summed (weighted vin check_weights) ≡ ok digit
    → summed (weighted (put i c vin) check_weights) ≢ ok digit
summed-put i c a b digit vin h1 h2 h3 ha hb ne h =
    elim (Option-cases (weighted vin check_weights)) [
      | inl e ↦ ground (arith, e, ap summed e)
      | inr (total, e) ↦
          let (total', e', sums) =
            weighted-put i c a b total vin check_weights (omega arith) (omega arith) ha hb e in
          let (_, _, small) = transliteration-clean _ a ha in
          let (_, _, small') = transliteration-clean c b hb in
          let (below, above) = check_weights_range i h2 h3 in
          let differ =
            remainders_ne total total' (a * get_or check_weights i 0) (b * get_or check_weights i 0)
              sums (multiples_ne _ a b below above small small' ne) in
          λ k. differ (summed-some _ total digit e h ∙ sym (summed-some _ total' digit e' k))
    ]

carries-true :
    (vin : List ℕ) (r : Result VinError ℕ)
    → or_false (carries vin r) ≡ true
    → r ≡ ok (get_or vin check_position 0)
carries-true vin (ok digit) h = ground (arith, h)
carries-true vin (err e) h = ground (arith, h)

strict_valid :
    (vin : List ℕ)
    → clean_vin vin ≡ vin
    → is_valid_vin vin true ≡ true
    → (length vin ≡ 17) × (summed (weighted vin check_weights) ≡ ok (get_or vin check_position 0))
unfolding is_valid_vin check_digit
strict_valid vin clean h =
    let h' = rw (clean, clean) at h in
    ground (arith, h', carries-true vin (summed (weighted vin check_weights)))

-- If a cleaned text is valid with its check digit required, then replacing a character other
-- than the ninth by one that stands for another value leaves a text that is not valid with its
-- check digit required.
pub strict-put :
    (vin : List ℕ) (i c a b : ℕ)
    → clean_vin vin ≡ vin
    → is_valid_vin vin true ≡ true
    → i < 17
    → i ≢ check_position
    → transliteration (get_or vin i 0) ≡ some a
    → transliteration c ≡ some b
    → a ≢ b
    → is_valid_vin (put i c vin) true ≡ false
strict-put vin i c a b clean h h2 h3 ha hb ne =
    elim (Bool-cases (is_valid_vin (put i c vin) true)) [
      | inr e ↦ e
      | inl e ↦
          let (long, digit) = strict_valid vin clean h in
          let (_, digit') = strict_valid (put i c vin) (clean-put i c b vin hb clean) e in
          let digit'' = rw (get_or-put_ne i check_position c vin (λ p. h3 (sym p))) at digit' in
          absurd (summed-put i c a b _ vin long h2 h3 ha hb ne digit digit'')
    ]
