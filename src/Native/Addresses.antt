-- ===== src/Native/Addresses.antt =====
-- Where flow control is sent.
use canopen_studio.Prelude.{ℕ, ◌-◌, ◌≡◌, Bool, true, false, arith, if◌then◌else◌, ok}
use canopen_studio.Prelude.Bits.{low_bits}
use canopen_studio.IsoTp.{physical_request_id, is_response_id}
use canopen_studio.Native.{response_to_request_id}

-- The controller that answers on an identifier.
pub responder : ℕ → Bool → ℕ
responder response_id extended = if extended then low_bits response_id 8 else response_id - 0x7E8

-- Flow control for a response goes to the physical request identifier of the controller that sent
-- the response, with either width of identifiers.
pub response_to_request_id-physical :
    (response_id : ℕ) (extended : Bool)
    → is_response_id response_id extended ≡ true
    → physical_request_id (responder response_id extended) extended
      ≡ ok (response_to_request_id response_id extended)
unfolding physical_request_id is_response_id response_to_request_id responder
response_to_request_id-physical response_id true h = ground (arith, h)
response_to_request_id-physical response_id false h = ground (arith, h)
