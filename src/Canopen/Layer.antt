-- ===== src/Canopen/Layer.antt =====
-- `CANopenLayer.process_can_message`: classification, the states of the nodes, and the decoders.
-- The native decoder is a parameter, absent where its module cannot be imported. Subscribers and
-- the decoders' own reaction to a change of state are not modelled.
use canopen_studio.Prelude.{
  ℕ, Bool, true, false, Option, none, some, List, [], ◌∷◌, ◌==◌, if◌then◌else◌,
}
use canopen_studio.Canopen.{
  CanMessage, Classified, CanopenService, NmtState, from_byte, classify, heartbeat, tpdo, raw_can,
}
use canopen_studio.Canopen.Registry.{Message, Decoder, has, dispatch_and_decode}

-- What the native decoder returns; `service` is absent for a name that the enumeration has not.
pub record Decoded : Type 0 where
  pub service : Option CanopenService
  pub node_id : Option ℕ
  pub pdo_number : Option ℕ
  pub nmt_state : Option ℕ

pub record CanopenLayer : Type 0 where
  pub node_states : List (ℕ × NmtState)
  pub last_seen : List (ℕ × ℕ)

abbrev pub first_byte : List ℕ → Option ℕ
first_byte [] = none
first_byte (b ∷ bytes) = some b

abbrev pub classified_as : Classified → List ℕ → Decoded
classified_as c bytes = record {
  service = some c.service;
  node_id = c.node_id;
  pdo_number = c.pdo_number;
  nmt_state = first_byte bytes;
}

unfoldable pub decode_canopen_message : Option (CanMessage → Decoded) → CanMessage → Decoded
decode_canopen_message none msg = classified_as (classify msg) msg.bytes
decode_canopen_message (some native) msg = native msg

abbrev pub service_or_raw : Option CanopenService → CanopenService
service_or_raw none = raw_can
service_or_raw (some service) = service

module _ {A : Type 0} where
  unfoldable pub set_at : ℕ → A → List (ℕ × A) → List (ℕ × A)
  set_at k a [] = (k, a) ∷ []
  set_at k a ((j, b) ∷ entries) =
      let rest = set_at k a entries in if j == k then (j, a) ∷ entries else (j, b) ∷ rest

  unfoldable pub entry_at : ℕ → List (ℕ × A) → Option A
  entry_at k [] = none
  entry_at k ((j, b) ∷ entries) = if j == k then some b else entry_at k entries

abbrev pub track_at : Option ℕ → Option ℕ → ℕ → CanopenLayer → CanopenLayer
track_at (some node) (some value) now layer = record {
  node_states = set_at node (from_byte value) layer.node_states;
  last_seen = set_at node now layer.last_seen;
}
track_at (some node) none now layer = layer
track_at none value now layer = layer

abbrev pub is_heartbeat : CanopenService → Bool
is_heartbeat heartbeat = true
is_heartbeat service = false

unfoldable pub track : Decoded → ℕ → CanopenLayer → CanopenLayer
track decoded now layer =
    if is_heartbeat (service_or_raw decoded.service)
    then track_at decoded.node_id decoded.nmt_state now layer
    else layer

module _ {V : Type 0} where
  -- The keys of `_custom_cob_map`.
  abbrev pub in_custom_map : ℕ → List (Decoder V) → Bool
  in_custom_map cid [] = false
  in_custom_map cid (d ∷ decoders) =
      if has cid d.custom_cob_ids then true else in_custom_map cid decoders

  -- The layer after a frame, and the message that is returned; `registered` are the decoders at the
  -- time the layer was made, `decoders` those of the registry now.
  unfoldable pub process_can_message :
      Option (CanMessage → Decoded)
      → List ℕ
      → List (Decoder V)
      → List (Decoder V)
      → ℕ
      → CanMessage
      → CanopenLayer
      → Message V × CanopenLayer
  process_can_message native profile registered decoders now msg layer =
      let decoded = decode_canopen_message native msg in
      (
        dispatch_and_decode profile decoders (record {
          arbitration_id = msg.arbitration_id;
          is_extended = msg.is_extended_id;
          bytes = msg.bytes;
          service =
              if in_custom_map msg.arbitration_id registered
              then tpdo
              else service_or_raw decoded.service;
          node_id = decoded.node_id;
          pdo_number = decoded.pdo_number;
          signals = [];
        }),
        track decoded now layer,
      )
