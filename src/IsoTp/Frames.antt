-- ===== src/IsoTp/Frames.antt =====
-- One call of `feed` on each kind of well-formed frame.
use canopen_studio.Prelude.{
  ℕ, ◌+◌, ◌-◌, ◌/◌, ◌%◌, ◌≤◌, ◌<◌, min, ◌≡◌, true, false, none, some, List, ◌∷◌, ◌++◌, ok, arith,
  ltb, leb, if◌then◌else◌, length, take,
}
use canopen_studio.Prelude.Bits.{twelve_bits-or}
use canopen_studio.IsoTp.Reassembly.{
  Reassembler, Manager, FeedResult, Fed, process_frame, single, first, consecutive, extend, manage,
  lookup, insert, remove, feed,
}

-- A receiver in the middle of a message of `n` bytes.
abbrev pub receiver : ℕ → ℕ → ℕ → List ℕ → ℕ → Reassembler
receiver s tx n buffer sn = record {
  expected_rx_id = s;
  tx_fc_id = tx;
  expected_total_len = n;
  buffer = buffer;
  expected_sn = sn;
  in_progress = true;
}

abbrev pub fc_id : ℕ → ℕ
fc_id s = if ltb 0x08 s then s - 0x08 else s

abbrev pub silent : FeedResult
silent = record { completed = none; flow_control_required = false }

abbrev pub delivers : List ℕ → FeedResult
delivers message = record { completed = some message; flow_control_required = false }

-- What a manager does once a receiver's buffer has grown.
abbrev pub received : Manager → ℕ → ℕ → ℕ → ℕ → List ℕ → Fed
received m s tx n sn buffer =
    if leb n (length buffer)
    then (record m { transfers = remove s m.transfers }, ok (delivers buffer))
    else (
      record m { transfers = insert s (receiver s tx n buffer ((sn + 1) % 16)) m.transfers },
      ok silent,
    )

pub feed_single :
    (m : Manager) (s n : ℕ) (tail : List ℕ)
    → 0 < n
    → n ≤ 7
    → length tail ≡ 7
    → feed m s (n ∷ tail) ≡ (m, ok (delivers (take n tail)))
unfolding feed manage process_frame single
feed_single m s n tail h1 h2 h3 = ground arith

pub feed_first :
    (m : Manager) (s n : ℕ) (tail : List ℕ)
    → 8 ≤ n
    → n ≤ 4095
    → length tail ≡ 6
    → feed m s ((16 + n / 256) ∷ (n % 256) ∷ tail) ≡ (
      record m { transfers = insert s (receiver s (fc_id s) n tail 1) m.transfers },
      ok (record { completed = none; flow_control_required = true }),
    )
unfolding feed manage process_frame first
feed_first m s n tail h1 h2 h3 = ground (arith, twelve_bits-or n)

pub feed_consecutive :
    (m : Manager) (s tx n sn : ℕ) (buffer tail : List ℕ)
    → lookup s m.transfers ≡ some (receiver s tx n buffer sn)
    → sn < 16
    → length tail ≡ 7
    → feed m s ((32 + sn) ∷ tail)
      ≡ received m s tx n sn (buffer ++ take (min (n - length buffer) 7) tail)
unfolding feed manage process_frame consecutive extend
feed_consecutive m s tx n sn buffer tail h1 h2 h3 = ground (arith, h1)
