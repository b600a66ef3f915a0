-- ===== src/Canopen/Identifiers.antt =====
-- The classification against the predefined connection set: an 11-bit identifier is a function
-- code of four bits above a node number of seven.
use canopen_studio.Prelude.{
  ℕ, ◌+◌, ◌*◌, ◌/◌, ◌%◌, ◌-◌, ◌<◌, ◌≡◌, ◌≢◌, ◌⊎◌, inl, inr, suc, ◌∙◌, ◌&&◌, refl, false, List,
  arith, leb, ◌==◌, if◌then◌else◌, get_or,
}
use canopen_studio.Canopen.{
  Classified, emergency, tpdo, rpdo, sdo_tx, sdo_rx, heartbeat, raw_can, plain, of_node, pdo,
  classify, classify_pdo, classify_sdo, sdo_read_frame,
}

-- The service of a function code, for a node other than the broadcast.
pub connection_set : ℕ → ℕ → Classified
connection_set code node =
    if code == 1
    then of_node emergency node
    else if code == 14
    then of_node heartbeat node
    else if code == 11
    then of_node sdo_tx node
    else if code == 12
    then of_node sdo_rx node
    else if leb 3 code && leb code 10
    then (if code % 2 == 1 then pdo tpdo (code / 2) node else pdo rpdo (code / 2 - 1) node)
    else plain raw_can

-- The identifiers past the process data objects.
classify_sdo-connection_set :
    (code node : ℕ)
    → 10 < code
    → code < 16
    → code ≢ 14
    → node < 128
    → classify_sdo (code * 128 + node) ≡ connection_set code node
unfolding classify_sdo connection_set
classify_sdo-connection_set code node h1 h2 h3 h4 = ground arith

-- The lower process data objects.
classify_pdo-lower :
    (code node : ℕ)
    → 2 < code
    → code < 7
    → node < 128
    → classify_pdo (code * 128 + node) ≡ connection_set code node
unfolding classify_pdo connection_set
classify_pdo-lower code node h1 h2 h3 = ground arith

-- The upper ones.
classify_pdo-upper :
    (code node : ℕ)
    → 6 < code
    → code < 11
    → node < 128
    → classify_pdo (code * 128 + node) ≡ connection_set code node
unfolding classify_pdo connection_set
classify_pdo-upper code node h1 h2 h3 = ground arith

classify_pdo-past : (cid : ℕ) → 0x57F < cid → classify_pdo cid ≡ classify_sdo cid
unfolding classify_pdo
classify_pdo-past cid h = ground arith

split : (n k : ℕ) → (n < suc k) ⊎ (k < n)
split n k = ground arith

-- The identifiers that the process data objects start at.
classify_pdo-connection_set :
    (code node : ℕ)
    → 2 < code
    → code < 16
    → code ≢ 14
    → node < 128
    → classify_pdo (code * 128 + node) ≡ connection_set code node
classify_pdo-connection_set code node h1 h2 h3 h4 = elim (split code 6) [
  | inl low ↦ classify_pdo-lower code node h1 low h4
  | inr up ↦ elim (split code 10) [
    | inl low ↦ classify_pdo-upper code node up low h4
    | inr past ↦
        classify_pdo-past (code * 128 + node) (omega arith)
        ∙ classify_sdo-connection_set code node past h2 h3 h4
  ]
]

-- The standard identifier made of a function code from 1 to 15, other than 2, and a node from 1
-- to 127 is classified by its function code, as the predefined connection set has it.
pub classify-connection_set :
    (code node : ℕ) (bytes : List ℕ)
    → 0 < code
    → code < 16
    → 0 < node
    → node < 128
    → code ≢ 2
    → classify
        (record { arbitration_id = code * 128 + node; is_extended_id = false; bytes = bytes })
      ≡ connection_set code node
unfolding classify connection_set
classify-connection_set code node bytes h1 h2 h3 h4 h5 =
    ground (arith, classify_pdo-connection_set code node)

-- The frame that reads an object of a node below 128, at an index of sixteen bits, is classified
-- as an SDO request to that node, and its bytes carry the index, the low byte first, and the
-- subindex.
pub sdo_read-classified :
    (node index subindex : ℕ)
    → node < 128
    → index < 65536
    → (classify (sdo_read_frame node index subindex) ≡ of_node sdo_rx node)
      × (get_or (sdo_read_frame node index subindex).bytes 1 0
            + get_or (sdo_read_frame node index subindex).bytes 2 0 * 256
          ≡ index)
      × (get_or (sdo_read_frame node index subindex).bytes 3 0 ≡ subindex)
unfolding classify classify_pdo classify_sdo sdo_read_frame
sdo_read-classified node index subindex h1 h2 = (ground arith, omega arith, refl)
