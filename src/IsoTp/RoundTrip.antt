-- ===== src/IsoTp/RoundTrip.antt =====
-- The receiver of crates/canopen-core/src/isotp.rs undoes `segment` of
-- src/canopen_studio/diag/isotp.py.
use canopen_studio.Prelude.{
  ℕ, zero, suc, ◌+◌, ◌-◌, ◌%◌, ◌≤◌, ◌<◌, min, ◌≡◌, refl, ap, ◌∙◌, none, some, List, [], ◌∷◌, ◌++◌,
  Result, ok, err, arith, leb, length, take, drop, length-take, length-drop, take-append,
  length-append, length-replicate, replicate, Bool-cases, inl, inr, leb→le, take-add, take_all,
}
use canopen_studio.IsoTp.{segment, single_frame, first_frame, consecutive_frames}
use canopen_studio.IsoTp.Segments.{
  consecutive_frame, consecutive_frames_step, consecutive_frames_done, segment_cases,
  single_frame_shape, first_frame_shape,
}
use canopen_studio.IsoTp.Frames.{receiver, received, feed_single, feed_first, feed_consecutive}
use canopen_studio.IsoTp.Reassembly.{Manager, FeedResult, FeedError, lookup, feed}
use canopen_studio.IsoTp.Isolation.{
  answers, answers_to, answers_to-nil, answers_to-cons, of_source, lookup-insert_self,
  answers-interleaved,
}

-- The complete messages among some answers.
pub messages : List (Result FeedError FeedResult) → List (List ℕ)
messages [] = []
messages (ok r ∷ rs) = elim r.completed [
  | none ↦ messages rs
  | some message ↦ message ∷ messages rs
]
messages (err e ∷ rs) = messages rs

pub errors : List (Result FeedError FeedResult) → List FeedError
errors [] = []
errors (ok r ∷ rs) = errors rs
errors (err e ∷ rs) = e ∷ errors rs

-- The bytes of a chunk join the buffer, and the padding behind them does not.
chunk_joins :
    (payload pad : List ℕ) (index : ℕ)
    → index ≤ length payload
    → take index payload
        ++ take (min (length payload - index) 7) (take 7 (drop index payload) ++ pad)
      ≡ take (index + 7) payload
chunk_joins payload pad index h =
    let rest = drop index payload in
    let n = min (length payload - index) 7 in
    let len : length (take 7 rest) ≡ n =
      omega (arith, length-take 7 rest, length-drop index payload) in
    ap (λ l. take index payload ++ l)
      (take-append n (take 7 rest) pad (omega (arith, len))
        ∙ take_all n (take 7 rest) (omega (arith, len)))
    ∙ take-add index 7 payload

feed_chunk :
    (m : Manager) (s tx : ℕ) (payload : List ℕ) (index sequence filler : ℕ)
    → lookup s m.transfers ≡ some (receiver s tx (length payload) (take index payload) sequence)
    → sequence < 16
    → index < length payload
    → feed m s (consecutive_frame payload index sequence filler)
      ≡ received m s tx (length payload) sequence (take (index + 7) payload)
feed_chunk m s tx payload index sequence filler h1 h2 h3 =
    let chunk = take 7 (drop index payload) in
    let pad = replicate (7 - length chunk) filler in
    let front : length (take index payload) ≡ index = omega (arith, length-take index payload) in
    let size : length (chunk ++ pad) ≡ 7 = omega (
      arith,
      length-append chunk pad,
      length-replicate (7 - length chunk) filler,
      length-take 7 (drop index payload),
    ) in
    feed_consecutive m s tx (length payload) sequence (take index payload) (chunk ++ pad) h1 h2 size
    ∙ rw front (
        ap (received m s tx (length payload) sequence)
          (chunk_joins payload pad index (omega arith)))

-- One message and no error.
abbrev pub Delivers : List (Result FeedError FeedResult) → List ℕ → Type 0
Delivers rs payload = (messages rs ≡ payload ∷ []) × (errors rs ≡ [])

-- The last frames of a message, from the one at `index` on.
consecutive_answers :
    (fuel : ℕ) (m : Manager) (s tx : ℕ) (payload : List ℕ) (index sequence filler : ℕ)
    → lookup s m.transfers ≡ some (receiver s tx (length payload) (take index payload) sequence)
    → sequence < 16
    → index < length payload
    → length payload ≤ index + fuel
    → Delivers (answers_to m s (consecutive_frames fuel payload index sequence filler)) payload
unfolding messages errors
consecutive_answers zero m s tx payload index sequence filler h1 h2 h3 h4 = absurd (omega arith)
consecutive_answers (suc fuel) m s tx payload index sequence filler h1 h2 h3 h4 =
    let fed = feed_chunk m s tx payload index sequence filler h1 h2 h3 in
    let size = length-take (index + 7) payload in
    elim (Bool-cases (leb (length payload) (length (take (index + 7) payload)))) [
      | inl e ↦
          let last : length payload ≤ index + 7 = omega (arith, leb→le _ _ e, size) in
          rw
            (
              consecutive_frames_step fuel payload index sequence filler h3 h2,
              answers_to-cons m s _
                  (consecutive_frames fuel payload (index + 7) ((sequence + 1) % 16) filler)
                  (rw e at fed),
              consecutive_frames_done fuel payload (index + 7) ((sequence + 1) % 16) filler last,
              answers_to-nil,
              take_all (index + 7) payload last,
            )
            (refl, refl)
      | inr e ↦
          rw
            (
              consecutive_frames_step fuel payload index sequence filler h3 h2,
              answers_to-cons m s _
                  (consecutive_frames fuel payload (index + 7) ((sequence + 1) % 16) filler)
                  (rw e at fed),
            )
            (consecutive_answers fuel _ s tx payload (index + 7) ((sequence + 1) % 16) filler
              (lookup-insert_self s _ m.transfers) (omega arith) (ground (arith, e, size))
              (omega arith))
    ]

single_answers :
    (m : Manager) (s : ℕ) (payload : List ℕ) (filler : ℕ)
    → 0 < length payload
    → length payload ≤ 7
    → Delivers (answers_to m s (single_frame payload filler ∷ [])) payload
unfolding messages errors
single_answers m s payload filler h1 h2 =
    let tail = payload ++ replicate (7 - length payload) filler in
    let size : length tail ≡ 7 = omega (
      arith,
      length-append payload (replicate (7 - length payload) filler),
      length-replicate (7 - length payload) filler,
    ) in
    rw
      (
        single_frame_shape payload filler h2,
        answers_to-cons m s _ [] (feed_single m s (length payload) tail h1 h2 size),
        answers_to-nil,
        take-append (length payload) payload (replicate (7 - length payload) filler) (omega arith),
        take_all (length payload) payload (omega arith),
      )
      (refl, refl)

multi_answers :
    (m : Manager) (s : ℕ) (payload : List ℕ) (filler : ℕ)
    → 8 ≤ length payload
    → length payload ≤ 4095
    → Delivers
        (answers_to m s
          (first_frame payload ∷ consecutive_frames (length payload) payload 6 1 filler))
        payload
unfolding messages errors
multi_answers m s payload filler h1 h2 =
    let size : length (take 6 payload) ≡ 6 = omega (arith, length-take 6 payload) in
    rw
      (
        first_frame_shape payload h2,
        answers_to-cons m s _ (consecutive_frames (length payload) payload 6 1 filler)
            (feed_first m s (length payload) (take 6 payload) h1 h2 size),
      )
      (consecutive_answers (length payload) _ s _ payload 6 1 filler
        (lookup-insert_self s _ m.transfers) (omega arith) (omega arith) (omega arith))

segment_answers :
    (m : Manager) (s : ℕ) (payload : List ℕ) (padding : ℕ) (frames : List (List ℕ))
    → segment payload padding ≡ ok frames
    → Delivers (answers_to m s frames) payload
segment_answers m s payload padding frames h =
    let (some_bytes, fits, shape) = segment_cases payload padding frames h in
    elim shape [
      | inl (short, e) ↦ rw e (single_answers m s payload (padding % 256) some_bytes short)
      | inr (long, e) ↦ rw e (multi_answers m s payload (padding % 256) long fits)
    ]

-- A payload that `segment` accepts is delivered whole, once and with no error, from its frames,
-- whatever the state of the reassembler was and whatever frames of other sources arrive between.
pub answers-segment :
    (m : Manager) (s : ℕ) (payload : List ℕ) (padding : ℕ) (frames : List (List ℕ))
    (events : List (ℕ × List ℕ))
    → segment payload padding ≡ ok frames
    → of_source s events ≡ frames
    → Delivers (of_source s (answers m events)) payload
answers-segment m s payload padding frames events h1 h2 =
    rw (answers-interleaved m s events, h2) (segment_answers m s payload padding frames h1)
