-- ===== src/IsoTp/Examples.antt =====
-- Runs of the ISO-TP model on frames that can be followed by hand.
use canopen_studio.Prelude.{ℕ, ◌≡◌, refl, true, List, [], ◌∷◌, ok, All, length}
use canopen_studio.IsoTp.{
  segment, single_frame, first_frame, consecutive_frames, flow_control_frame, physical_request_id,
  is_response_id,
}
use canopen_studio.IsoTp.Segments.{segment_frames}
use canopen_studio.IsoTp.Reassembly.{empty, feed}
use canopen_studio.IsoTp.Isolation.{answers, answers_to, answers-interleaved, of_source}
use canopen_studio.IsoTp.RoundTrip.{Delivers, answers-segment}
use canopen_studio.IsoTp.Bounds.{IsValid, IsValid-empty, feed-IsValid}

abbrev request : List ℕ
request = 0x01 ∷ 0x0C ∷ []

abbrev long : List ℕ
long = 1 ∷ 2 ∷ 3 ∷ 4 ∷ 5 ∷ 6 ∷ 7 ∷ 8 ∷ 9 ∷ []

abbrev long_frames : List (List ℕ)
long_frames =
    (0x10 ∷ 0x09 ∷ 1 ∷ 2 ∷ 3 ∷ 4 ∷ 5 ∷ 6 ∷ [])
    ∷ (0x21 ∷ 7 ∷ 8 ∷ 9 ∷ 0xAA ∷ 0xAA ∷ 0xAA ∷ 0xAA ∷ [])
    ∷ []

request_framed :
    segment request 0xAA ≡ ok ((0x02 ∷ 0x01 ∷ 0x0C ∷ 0xAA ∷ 0xAA ∷ 0xAA ∷ 0xAA ∷ 0xAA ∷ []) ∷ [])
unfolding segment single_frame
request_framed = refl

long_framed : segment long 0xAA ≡ ok long_frames
unfolding segment single_frame first_frame consecutive_frames
long_framed = refl

clear_to_send : flow_control_frame 0 0 0 0 ≡ 0x30 ∷ 0 ∷ 0 ∷ 0 ∷ 0 ∷ 0 ∷ 0 ∷ 0 ∷ []
unfolding flow_control_frame
clear_to_send = refl

first_ecu : physical_request_id 0x10 true ≡ ok 0x18DA10F1
unfolding physical_request_id
first_ecu = refl

engine_answers : is_response_id 0x18DAF110 true ≡ true
unfolding is_response_id
engine_answers = refl

-- Two sources in turn; the frames of 0x7E9 do not disturb those of 0x7E8.
abbrev interleaved : List (ℕ × List ℕ)
interleaved =
    (0x7E8, 0x10 ∷ 0x09 ∷ 1 ∷ 2 ∷ 3 ∷ 4 ∷ 5 ∷ 6 ∷ [])
    ∷ (0x7E9, 0x10 ∷ 0x0A ∷ 1 ∷ 2 ∷ 3 ∷ 4 ∷ 5 ∷ 6 ∷ [])
    ∷ (0x7E9, 0x25 ∷ 0 ∷ [])
    ∷ (0x7E8, 0x21 ∷ 7 ∷ 8 ∷ 9 ∷ 0xAA ∷ 0xAA ∷ 0xAA ∷ 0xAA ∷ [])
    ∷ []

answers-segment_example : Delivers (of_source 0x7E8 (answers empty interleaved)) long
answers-segment_example =
    answers-segment empty 0x7E8 long 0xAA long_frames interleaved long_framed
      (unfold of_source in refl)

segment_frames_example : All (λ f. length f ≡ 8) long_frames × (length long_frames ≡ 2)
segment_frames_example = segment_frames long 0xAA long_frames long_framed

feed-IsValid_example : IsValid (feed empty 0x7E8 (0x10 ∷ 0x09 ∷ 1 ∷ 2 ∷ 3 ∷ 4 ∷ 5 ∷ 6 ∷ [])).0
feed-IsValid_example =
    feed-IsValid empty 0x7E8 (0x10 ∷ 0x09 ∷ 1 ∷ 2 ∷ 3 ∷ 4 ∷ 5 ∷ 6 ∷ []) IsValid-empty

answers-interleaved_example :
    of_source 0x7E8 (answers empty interleaved)
    ≡ answers_to empty 0x7E8 (of_source 0x7E8 interleaved)
answers-interleaved_example = answers-interleaved empty 0x7E8 interleaved
