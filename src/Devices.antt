-- ===== src/Devices.antt =====
-- src/canopen_studio/stack/decoders: what the decoders of single devices read from the frames of a
-- device, as the signals by name. The texts for the display are not modelled, nor is the registering.
pub mod Drives
pub mod Vehicles
pub mod States
pub mod Frames
mod Examples
use canopen_studio.Prelude.{ℕ, ◌+◌, ◌*◌, List, [], ◌∷◌, take, drop, length}
use canopen_studio.Prelude.Int.{ℤ}
use canopen_studio.Formula.Functions.{signed}

-- A number, or a name.
pub data Signal : Type 0 where
  number : ℤ → Signal
  label : List ℕ → Signal

abbrev pub Signals : Type 0
Signals = List (List ℕ × Signal)

-- `int.from_bytes(bytes, "little")`
unfoldable pub little_endian : List ℕ → ℕ
little_endian [] = 0
little_endian (b ∷ bytes) = b + 256 * little_endian bytes

-- `data[first:last]`, of a count of bytes
abbrev pub slice : ℕ → ℕ → List ℕ → List ℕ
slice first count bytes = take count (drop first bytes)

-- `int.from_bytes(bytes, "little", signed=True)`, the bytes being there
unfoldable pub little_signed : List ℕ → ℤ
unfolding little_endian signed
little_signed bytes = signed (little_endian bytes) (8 * length bytes)
