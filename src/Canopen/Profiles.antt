-- ===== src/Canopen/Profiles.antt =====
-- What the choice of a profile does to the decoding.
use canopen_studio.Prelude.{ℕ, ◌≡◌, refl, false, List, [], ◌∷◌, arith, if◌then◌else◌}
use canopen_studio.Prelude.Text.{text_eq}
use canopen_studio.Canopen.Registry.{
  Message, Decoder, decode_through, dispatch_and_decode, extracted_to, all_auto, raw_can_profile,
}

module _ {V : Type 0} where
  -- The decoders of one device.
  pub of_device : List ℕ → List (Decoder V) → List (Decoder V)
  of_device name [] = []
  of_device name (d ∷ decoders) =
      let rest = of_device name decoders in if text_eq d.device_name name then d ∷ rest else rest

  decode_through-of_device :
      (profile : List ℕ) (decoders : List (Decoder V)) (message : Message V)
      → text_eq profile all_auto ≡ false
      → decode_through profile decoders message
        ≡ decode_through all_auto (of_device profile decoders) message
  unfolding decode_through of_device
  decode_through-of_device profile [] message h = refl
  decode_through-of_device profile (d ∷ decoders) message h = ground (
    arith,
    h,
    decode_through-of_device profile decoders message h,
    decode_through-of_device profile decoders (extracted_to message (d.decode message)) h,
  )

  -- Under a profile other than the one of all decoders and the one of none, a message is decoded
  -- as if the decoders of that device alone were registered.
  pub dispatch_and_decode-profile :
      (profile : List ℕ) (decoders : List (Decoder V)) (message : Message V)
      → text_eq profile all_auto ≡ false
      → text_eq profile raw_can_profile ≡ false
      → dispatch_and_decode profile decoders message
        ≡ dispatch_and_decode all_auto (of_device profile decoders) message
  unfolding dispatch_and_decode
  dispatch_and_decode-profile profile decoders message h1 h2 =
      rw h2 (decode_through-of_device profile decoders message h1)
