-- ===== src/Canopen/Registry.antt =====
-- src/canopen_studio/stack/registry.py and base_decoder.py: the decoders of devices and how a
-- message passes through them. A decoder is known by its position in memory, a number here. The
-- texts that a decoder writes for the display are not modelled.
use canopen_studio.Prelude.{
  ℕ, Bool, true, false, not, ◌&&◌, ◌||◌, Option, none, some, List, [], ◌∷◌, ◌++◌, ◌==◌,
  if◌then◌else◌,
}
use canopen_studio.Prelude.Text.{codes, text_eq}
use canopen_studio.Canopen.{CanopenService}

pub record Message (V : Type 0) : Type 0 where
  pub arbitration_id : ℕ
  pub is_extended : Bool
  pub bytes : List ℕ
  pub service : CanopenService
  pub node_id : Option ℕ
  pub pdo_number : Option ℕ
  pub signals : List (List ℕ × V)

abbrev pub has : ℕ → List ℕ → Bool
has k [] = false
has k (j ∷ js) = j == k || has k js

pub record Decoder (V : Type 0) : Type 0 where
  pub address : ℕ
  pub device_name : List ℕ
  pub supported_node_ids : List ℕ
  pub custom_cob_ids : List ℕ
  pub can_decode : Message V → Bool
  pub decode : Message V → Option (List (List ℕ × V))

abbrev node_among : Option ℕ → List ℕ → Bool
node_among none ids = false
node_among (some n) ids = has n ids

abbrev pub all_auto : List ℕ
all_auto = codes "All / Auto"

abbrev pub raw_can_profile : List ℕ
raw_can_profile = codes "Raw CAN (No Decoders)"

module _ {V : Type 0} where
  -- `BaseDeviceDecoder.can_decode`
  unfoldable pub can_decode_default : List ℕ → List ℕ → Message V → Bool
  can_decode_default node_ids cob_ids message =
      if has message.arbitration_id cob_ids then true else node_among message.node_id node_ids

  abbrev pub holds : Decoder V → List (Decoder V) → Bool
  holds decoder [] = false
  holds decoder (d ∷ decoders) = d.address == decoder.address || holds decoder decoders

  unfoldable pub register : Decoder V → List (Decoder V) → List (Decoder V)
  register decoder decoders =
      if holds decoder decoders then decoders else decoders ++ (decoder ∷ [])

  unfoldable pub unregister : Decoder V → List (Decoder V) → List (Decoder V)
  unregister decoder [] = []
  unregister decoder (d ∷ decoders) =
      let rest = unregister decoder decoders in
      if d.address == decoder.address then decoders else d ∷ rest

  unfoldable pub lookup_decoder : ℕ → List (Decoder V) → Option (Decoder V)
  lookup_decoder cob_id [] = none
  lookup_decoder cob_id (d ∷ decoders) =
      if has cob_id d.custom_cob_ids then some d else lookup_decoder cob_id decoders

  -- `dict.update`
  abbrev pub put_signal : List ℕ × V → List (List ℕ × V) → List (List ℕ × V)
  put_signal (name, v) [] = (name, v) ∷ []
  put_signal (name, v) ((n, w) ∷ signals) =
      let rest = put_signal (name, v) signals in
      if text_eq n name then (n, v) ∷ signals else (n, w) ∷ rest

  abbrev pub update_signals : List (List ℕ × V) → List (List ℕ × V) → List (List ℕ × V)
  update_signals [] signals = signals
  update_signals (s ∷ extracted) signals = update_signals extracted (put_signal s signals)

  abbrev pub extracted_to : Message V → Option (List (List ℕ × V)) → Message V
  extracted_to message none = message
  extracted_to message (some extracted) = record message {
    signals = update_signals extracted message.signals;
  }

  abbrev pub skips : List ℕ → Decoder V → Bool
  skips profile decoder =
      not (text_eq profile all_auto) && not (text_eq decoder.device_name profile)

  -- The loop over the decoders.
  unfoldable pub decode_through : List ℕ → List (Decoder V) → Message V → Message V
  decode_through profile [] message = message
  decode_through profile (decoder ∷ decoders) message =
      let decoded = extracted_to message (decoder.decode message) in
      if skips profile decoder
      then decode_through profile decoders message
      else if decoder.can_decode message
      then decode_through profile decoders decoded
      else decode_through profile decoders message

  unfoldable pub dispatch_and_decode : List ℕ → List (Decoder V) → Message V → Message V
  dispatch_and_decode profile decoders message =
      if text_eq profile raw_can_profile then message else decode_through profile decoders message
