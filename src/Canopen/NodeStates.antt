-- ===== src/Canopen/NodeStates.antt =====
-- The states of the nodes that the layer keeps.
use canopen_studio.Prelude.{
  ℕ, ◌+◌, ◌-◌, ◌<◌, ◌≤◌, ◌≡◌, refl, ap, ◌∙◌, inl, inr, true, false, not, ◌&&◌, Bool-cases, Option,
  none, some, List, [], ◌∷◌, arith, leb, ◌==◌, if◌then◌else◌,
}
use canopen_studio.Canopen.{CanMessage, NmtState, from_byte, classify, classify_pdo, classify_sdo}
use canopen_studio.Canopen.Registry.{Decoder}
use canopen_studio.Canopen.Layer.{
  CanopenLayer, decode_canopen_message, track, track_at, set_at, entry_at, first_byte, is_heartbeat,
  process_can_message,
}

abbrev state_of : List ℕ → Option NmtState
state_of [] = none
state_of (b ∷ bytes) = some (from_byte b)

-- The state that a frame reports of a node: the first byte of a standard frame whose identifier is
-- 0x700 above the node.
pub reported : ℕ → CanMessage → Option NmtState
reported node msg =
    if not msg.is_extended_id && msg.arbitration_id == 0x700 + node
    then state_of msg.bytes
    else none

entry_at-set_at :
    {A : Type 0} (k j : ℕ) (a : A) (entries : List (ℕ × A))
    → entry_at k (set_at j a entries) ≡ (if j == k then some a else entry_at k entries)
unfolding entry_at set_at
entry_at-set_at k j a [] = refl
entry_at-set_at k j a ((i, b) ∷ entries) = ground (arith, entry_at-set_at k j a entries)

abbrev latest_of : Option NmtState → Option NmtState → Option NmtState
latest_of (some state) before = some state
latest_of none before = before

-- The last state that a sequence of frames reports of a node, or the one before them.
pub last_reported : ℕ → Option NmtState → List CanMessage → Option NmtState
last_reported node before [] = before
last_reported node before (msg ∷ msgs) =
    last_reported node (latest_of (reported node msg) before) msgs

sdo_quiet : (cid : ℕ) → is_heartbeat (classify_sdo cid).service ≡ false
unfolding classify_sdo
sdo_quiet cid = ground arith

pdo_quiet : (cid : ℕ) → is_heartbeat (classify_pdo cid).service ≡ false
unfolding classify_pdo
pdo_quiet cid = ground (arith, sdo_quiet cid)

classify-heartbeat :
    (msg : CanMessage)
    → is_heartbeat (classify msg).service
      ≡ (not msg.is_extended_id && leb 0x700 msg.arbitration_id && leb msg.arbitration_id 0x77F)
unfolding classify
classify-heartbeat msg = ground (arith, pdo_quiet msg.arbitration_id)

classify-heartbeat_node :
    (msg : CanMessage)
    → is_heartbeat (classify msg).service ≡ true
    → (classify msg).node_id ≡ some (msg.arbitration_id - 0x700)
unfolding classify
classify-heartbeat_node msg h = ground (arith, h, pdo_quiet msg.arbitration_id)

track_at-reported :
    (node now cid : ℕ) (bytes : List ℕ) (layer : CanopenLayer)
    → 0x700 ≤ cid
    → entry_at node (track_at (some (cid - 0x700)) (first_byte bytes) now layer).node_states
      ≡ latest_of
          (if cid == 0x700 + node then state_of bytes else none)
          (entry_at node layer.node_states)
track_at-reported node now cid [] layer h = ground arith
track_at-reported node now cid (b ∷ bytes) layer h =
    ground (arith, entry_at-set_at node (cid - 0x700) (from_byte b) layer.node_states)

track-reported :
    (node now : ℕ) (msg : CanMessage) (layer : CanopenLayer)
    → node < 128
    → entry_at node (track (decode_canopen_message none msg) now layer).node_states
      ≡ latest_of (reported node msg) (entry_at node layer.node_states)
unfolding track decode_canopen_message reported
track-reported node now msg layer h = elim (Bool-cases (is_heartbeat (classify msg).service)) [
  | inl e ↦
      let short : msg.is_extended_id ≡ false = ground (arith, e, classify-heartbeat msg) in
      let above : 0x700 ≤ msg.arbitration_id = ground (arith, e, classify-heartbeat msg) in
      rw (e, classify-heartbeat_node msg e, short)
        (track_at-reported node now msg.arbitration_id msg.bytes layer above)
  | inr e ↦ rw e (ground (arith, e, classify-heartbeat msg, h))
]

abbrev pub frames : List (ℕ × CanMessage) → List CanMessage
frames [] = []
frames ((now, msg) ∷ msgs) = msg ∷ frames msgs

module _ {V : Type 0} (profile : List ℕ) (registered decoders : List (Decoder V)) where
  -- The layer after frames, each with its time.
  pub process_all : List (ℕ × CanMessage) → CanopenLayer → CanopenLayer
  process_all [] layer = layer
  process_all ((now, msg) ∷ msgs) layer =
      process_all msgs (process_can_message none profile registered decoders now msg layer).1

  -- Where the native decoder is absent, the state that the layer keeps of a node below 128 after a
  -- sequence of frames is the one in its last heartbeat, or the one kept before if there was none.
  pub process_all-node_states :
      (node : ℕ) (msgs : List (ℕ × CanMessage)) (layer : CanopenLayer)
      → node < 128
      → entry_at node (process_all msgs layer).node_states
        ≡ last_reported node (entry_at node layer.node_states) (frames msgs)
  unfolding process_all process_can_message last_reported
  process_all-node_states node [] layer h = refl
  process_all-node_states node ((now, msg) ∷ msgs) layer h =
      process_all-node_states node msgs (track (decode_canopen_message none msg) now layer) h
      ∙ ap (λ s. last_reported node s (frames msgs)) (track-reported node now msg layer h)
