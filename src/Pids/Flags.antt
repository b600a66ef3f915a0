-- ===== src/Pids/Flags.antt =====
-- What a definition of named bits that was read from a file does with a response.
use canopen_studio.Prelude.{
  ℕ, suc, ◌≡◌, refl, ◌∙◌, Bool, true, Bool-cases, inl, inr, Option, some, List, [], ◌∷◌, arith, ltb,
  leb, if◌then◌else◌, length, get_or, Result, ok, err, is_ok, ok-is_ok, bind_inv, ◌>>=◌,
}
use canopen_studio.Prelude.Bits.{test_bit}
use canopen_studio.Prelude.Dict.{put, text_same}
use canopen_studio.Prelude.Text.{strip}
use canopen_studio.Formula.Evaluate.{Arithmetic}
use canopen_studio.Pids.{
  PidError, Definition, kind, bits_kind, parse_bit_reference, parse_key, flags, Value,
}
use canopen_studio.Pids.Decode.{
  Entry, definition_of, checked_bits, named, checked_formula, check_references, decode, decode_bits,
  flag_at,
}

abbrev place_needs : Result PidError (ℕ × ℕ) → ℕ
place_needs (ok (byte_place, bit_place)) = suc byte_place
place_needs (err e) = 0

-- The bytes that the references of a table reach into.
unfoldable pub flags_need : List (List ℕ × List ℕ) → ℕ
unfolding parse_bit_reference
flags_need [] = 0
flags_need ((reference, label) ∷ bits) =
    let rest = flags_need bits in
    let here = place_needs (parse_bit_reference reference) in if ltb rest here then here else rest

decode_bits_step :
    (place : Result PidError (ℕ × ℕ)) (rest : ℕ) (bytes : List ℕ)
    (next : Bool → Result PidError (List (List ℕ × Bool)))
    → is_ok place ≡ true
    → ((flag : Bool) → is_ok (next flag) ≡ leb rest (length bytes))
    → is_ok (place >>= flag_at bytes >>= next)
      ≡ leb (if ltb rest (place_needs place) then place_needs place else rest) (length bytes)
decode_bits_step (err e) rest bytes next h k = ground (arith, h)
decode_bits_step (ok (i, b)) rest bytes next h k = elim (Bool-cases (leb (length bytes) i)) [
  | inl short ↦ rw short (ground (arith, short))
  | inr long ↦ rw (long, k (test_bit (get_or bytes i 0) b)) (ground (arith, long))
]

references_parts :
    (place : Result PidError (ℕ × ℕ)) (rest : Result {0} PidError Unit)
    → is_ok (place >>= λ p. rest) ≡ true
    → (is_ok place ≡ true) × (is_ok rest ≡ true)
references_parts (ok p) rest h = (refl, h)
references_parts (err e) rest h = ground (arith, h)

decode_bits-fits :
    (bits : List (List ℕ × List ℕ)) (bytes : List ℕ) (found : List (List ℕ × Bool))
    → is_ok (check_references bits) ≡ true
    → is_ok (decode_bits bits bytes found) ≡ leb (flags_need bits) (length bytes)
unfolding check_references decode_bits flags_need
decode_bits-fits [] bytes found h = ground arith
decode_bits-fits ((reference, label) ∷ bits) bytes found h =
    let (here, later) =
      references_parts (parse_bit_reference reference) (check_references bits) h in
    decode_bits_step (parse_bit_reference reference) (flags_need bits) bytes
      (λ flag. decode_bits bits bytes (put label flag found)) here
      (λ flag. decode_bits-fits bits bytes (put label flag found) later)

checked_bits_inv :
    (o : Option (List (List ℕ × List ℕ))) (bits : List (List ℕ × List ℕ)) (done : Unit)
    → checked_bits o ≡ ok done
    → o ≡ some bits
    → is_ok (check_references bits) ≡ true
checked_bits_inv o bits done h e =
    let k : check_references bits ≡ ok done = rw (e, checked_bits) at h in
    ok-is_ok (check_references bits) done k

definition_of-bits :
    {V : Type 0} (key : List ℕ) (entry : Entry V) (d : Definition V) (bits : List (List ℕ × List ℕ))
    → definition_of key entry ≡ ok d
    → d.bits ≡ some bits
    → is_ok (check_references bits) ≡ true
unfolding definition_of
definition_of-bits key entry d bits h e =
    let (place, e1, h1) = bind_inv (parse_key key) _ _ h in
    let (name, e2, h2) = bind_inv (named (strip entry.name)) _ _ h1 in
    let (formula, e3, h3) = bind_inv (checked_formula entry.formula) _ _ h2 in
    let (done, e4, h4) = bind_inv (checked_bits entry.bits) _ _ h3 in
    let same_bits : entry.bits ≡ d.bits = ground (arith, h4) in
    checked_bits_inv entry.bits bits done e4 (same_bits ∙ e)

flags-is_ok :
    (V : Type 0) (m : Result PidError (List (List ℕ × Bool)))
    → is_ok {A = Value V} (m >>= λ found. ok (flags found)) ≡ is_ok m
flags-is_ok V (ok found) = refl
flags-is_ok V (err e) = refl

-- A definition of named bits that was read from a file decodes a response exactly if the response
-- reaches as far as the furthest of the bytes that its references name: no reference fails.
pub definition_of-decode :
    {V : Type 0} (ops : Arithmetic V) (key : List ℕ) (entry : Entry V) (d : Definition V)
    (bits : List (List ℕ × List ℕ)) (bytes : List ℕ)
    → definition_of key entry ≡ ok d
    → kind d ≡ bits_kind
    → d.bits ≡ some bits
    → is_ok (decode ops d bytes) ≡ leb (flags_need bits) (length bytes)
unfolding decode
definition_of-decode ops key entry d bits bytes h k e =
    rw (k, e, decode)
      (flags-is_ok _ (decode_bits bits bytes [])
        ∙ decode_bits-fits bits bytes [] (definition_of-bits key entry d bits h e))
