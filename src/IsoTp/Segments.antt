-- ===== src/IsoTp/Segments.antt =====
-- The shape of the frames that `segment` makes, with the protocol byte as a plain sum.
use canopen_studio.Prelude.{
  ℕ, zero, suc, ◌+◌, ◌-◌, ◌/◌, ◌%◌, ◌≤◌, ◌<◌, ◌≡◌, refl, ap, ok, is_ok, true, All, leb,
  if◌then◌else◌, ◌⊎◌, ◌↔◌, inl, inr, List, [], ◌∷◌, lt→ltb, ◌++◌, arith, length, take, drop,
  replicate, length-append, length-take, length-replicate,
}
use canopen_studio.Prelude.Bits.{nibble-or_zero, nibble-or_one, nibble-or_two}
use native.Mathlib.Decide.{dec_lt}
use native.Mathlib.Nat.{mod-eq_of_lt}
use canopen_studio.IsoTp.{segment, single_frame, first_frame, consecutive_frames}

pub single_frame_shape :
    (payload : List ℕ) (filler : ℕ)
    → length payload ≤ 7
    → single_frame payload filler
      ≡ length payload ∷ (payload ++ replicate (7 - length payload) filler)
unfolding single_frame
single_frame_shape payload filler h =
    rw (nibble-or_zero (length payload) (omega arith))
      (ap (λ k. length payload ∷ (payload ++ replicate k filler)) (omega arith))

pub first_frame_shape :
    (payload : List ℕ)
    → length payload ≤ 4095
    → first_frame payload ≡ (16 + length payload / 256) ∷ (length payload % 256) ∷ take 6 payload
unfolding first_frame
first_frame_shape payload h =
    rw (nibble-or_one (length payload / 256 % 16) (omega arith))
      (ap (λ n. (16 + n) ∷ length payload % 256 ∷ take 6 payload) (omega arith))

-- The frame that the loop makes at `index`.
abbrev pub consecutive_frame : List ℕ → ℕ → ℕ → ℕ → List ℕ
consecutive_frame payload index sequence filler =
    let chunk = take 7 (drop index payload) in
    (32 + sequence) ∷ (chunk ++ replicate (7 - length chunk) filler)

pub consecutive_frames_step :
    (fuel : ℕ) (payload : List ℕ) (index sequence filler : ℕ)
    → index < length payload
    → sequence < 16
    → consecutive_frames (suc fuel) payload index sequence filler
      ≡ consecutive_frame payload index sequence filler
        ∷ consecutive_frames fuel payload (index + 7) ((sequence + 1) % 16) filler
unfolding consecutive_frames
consecutive_frames_step fuel payload index sequence filler h1 h2 =
    rw (lt→ltb _ _ h1, mod-eq_of_lt h2, nibble-or_two sequence h2)
      (ap
        (λ k.
          ((32 + sequence) ∷ (take 7 (drop index payload) ++ replicate k filler))
          ∷ consecutive_frames fuel payload (index + 7) ((sequence + 1) % 16) filler)
        (omega arith))

pub consecutive_frames_done :
    (fuel : ℕ) (payload : List ℕ) (index sequence filler : ℕ)
    → length payload ≤ index
    → consecutive_frames fuel payload index sequence filler ≡ []
unfolding consecutive_frames
consecutive_frames_done zero payload index sequence filler h = refl
consecutive_frames_done (suc fuel) payload index sequence filler h = ground arith

pub consecutive_frame-length :
    (payload : List ℕ) (index sequence filler : ℕ)
    → length (consecutive_frame payload index sequence filler) ≡ 8
consecutive_frame-length payload index sequence filler = omega (
  arith,
  length-append (take 7 (drop index payload))
      (replicate (7 - length (take 7 (drop index payload))) filler),
  length-replicate (7 - length (take 7 (drop index payload))) filler,
  length-take 7 (drop index payload),
)

-- The two shapes of an accepted payload.
pub segment_cases :
    (payload : List ℕ) (padding : ℕ) (frames : List (List ℕ))
    → segment payload padding ≡ ok frames
    → (0 < length payload)
      × (length payload ≤ 4095)
      × (((length payload ≤ 7) × (frames ≡ single_frame payload (padding % 256) ∷ []))
          ⊎ ((8 ≤ length payload)
              × (frames
                  ≡ first_frame payload
                    ∷ consecutive_frames (length payload) payload 6 1 (padding % 256))))
unfolding segment
segment_cases [] padding frames h = cc
segment_cases (b ∷ bs) padding frames h = ground arith

-- `segment` refuses the empty payload and those of more than 4095 bytes, and no other.
pub segment_accepts :
    (payload : List ℕ) (padding : ℕ)
    → (is_ok (segment payload padding) ≡ true) ↔ ((0 < length payload) × (length payload ≤ 4095))
unfolding segment
segment_accepts [] padding = ground arith
segment_accepts (b ∷ bs) padding = ground arith

single_frame-length :
    (payload : List ℕ) (filler : ℕ) → length payload ≤ 7 → length (single_frame payload filler) ≡ 8
single_frame-length payload filler h = rw (single_frame_shape payload filler h) (
    omega (
      arith,
      length-append payload (replicate (7 - length payload) filler),
      length-replicate (7 - length payload) filler,
    ))

first_frame-length :
    (payload : List ℕ)
    → length payload ≤ 4095
    → 8 ≤ length payload
    → length (first_frame payload) ≡ 8
first_frame-length payload h1 h2 =
    rw (first_frame_shape payload h1) (omega (arith, length-take 6 payload))

consecutive_frames-length :
    (fuel : ℕ) (payload : List ℕ) (index sequence filler : ℕ)
    → sequence < 16
    → length payload ≤ index + fuel
    → All (λ f. length f ≡ 8) (consecutive_frames fuel payload index sequence filler)
      × (length (consecutive_frames fuel payload index sequence filler)
          ≡ (length payload - index + 6) / 7)
consecutive_frames-length zero payload index sequence filler h1 h2 =
    rw (consecutive_frames_done zero payload index sequence filler (omega arith)) (tt, omega arith)
consecutive_frames-length (suc fuel) payload index sequence filler h1 h2 =
    elim (dec_lt index (length payload)) [
      | yes more ↦
          let ih =
            consecutive_frames-length fuel payload (index + 7) ((sequence + 1) % 16) filler
              (omega arith) (omega arith) in
          rw (consecutive_frames_step fuel payload index sequence filler more h1)
            ((consecutive_frame-length payload index sequence filler, ih.0), omega (arith, ih.1))
      | no done ↦
          rw (consecutive_frames_done (suc fuel) payload index sequence filler (omega arith))
            (tt, omega arith)
    ]

-- Every frame of an accepted payload fills eight bytes, and there are one for a
-- payload of up to seven bytes, and 1 + n / 7 for a longer one of n bytes.
pub segment_frames :
    (payload : List ℕ) (padding : ℕ) (frames : List (List ℕ))
    → segment payload padding ≡ ok frames
    → All (λ f. length f ≡ 8) frames
      × (length frames ≡ (if leb (length payload) 7 then 1 else 1 + length payload / 7))
segment_frames payload padding frames h =
    let (some_bytes, fits, shape) = segment_cases payload padding frames h in
    elim shape [
      | inl (short, e) ↦
          rw e ((single_frame-length payload (padding % 256) short, tt), ground arith)
      | inr (long, e) ↦
          let (eights, count) =
            consecutive_frames-length (length payload) payload 6 1 (padding % 256) (omega arith)
              (omega arith) in
          rw e ((first_frame-length payload fits long, eights), ground (arith, count))
    ]
