-- ===== src/IsoTp/Bounds.antt =====
-- What holds of every transfer that a manager keeps, whatever was fed to it.
use canopen_studio.Prelude.{
  ℕ, ◌-◌, ◌≤◌, ◌<◌, ◌≡◌, refl, true, false, Option, none, some, List, arith, ltb, ◌==◌,
  if◌then◌else◌, length, drop, length-drop, inl, inr, Bool-cases, is_ok, ==-refl,
}
use mathlib.Core.Bool.{◌&&◌}
use mathlib.Core.Path.{subst}
use canopen_studio.IsoTp.Isolation.{lookup-insert, lookup-remove}
use canopen_studio.IsoTp.Reassembly.{
  CanFrame, Reassembler, Manager, empty, ended, new, pci_type_of, process_frame, first, consecutive,
  extend, manage, start, continue, lookup, insert, remove, feed,
}

-- A receiver in the middle of a message: it has fewer bytes than it waits for, so that
-- `expected_total_len - buffer.len()` does not wrap around, and it waits for at most 4095.
pub record IsReceiving (r : Reassembler) : Type 0 where
  pub active : r.in_progress ≡ true
  pub unfinished : length r.buffer < r.expected_total_len
  pub bounded : r.expected_total_len ≤ 4095
  pub nibble : r.expected_sn < 16

pub record IsValid (m : Manager) : Type 0 where
  pub at_source : (s : ℕ) (r : Reassembler) → lookup s m.transfers ≡ some r → IsReceiving r

-- A consecutive frame that completes nothing leaves a receiver in the middle of a message.
process_frame-IsReceiving :
    (r : Reassembler) (frame : CanFrame)
    → IsReceiving r
    → ended (process_frame r frame).1 ≡ false
    → pci_type_of frame.payload ≡ 2
    → IsReceiving (process_frame r frame).0
unfolding process_frame consecutive extend
process_frame-IsReceiving r frame h e k = ground arith

start-IsReceiving :
    (tx : ℕ) (frame : CanFrame)
    → pci_type_of frame.payload ≡ 1
    → is_ok (process_frame (new frame.id tx) frame).1 ≡ true
    → length frame.payload ≤ 8
    → IsReceiving (process_frame (new frame.id tx) frame).0
unfolding process_frame first
start-IsReceiving tx frame k e fits =
    ground (arith, length-drop 1 (drop 1 frame.payload), ==-refl frame.id)

insert-IsValid :
    (m : Manager) (k : ℕ) (r : Reassembler)
    → IsValid m
    → IsReceiving r
    → IsValid (record m { transfers = insert k r m.transfers })
insert-IsValid m k r v h = record {
  at_source = λ j q e. elim (Bool-cases (k == j)) [
    | inl same ↦
        let e' : some r ≡ some q = rw (lookup-insert, same) at e in
        let p : r ≡ q = cc in subst IsReceiving p h
    | inr other ↦ v.at_source j q (rw (lookup-insert, other) at e)
  ];
}

remove-IsValid :
    (m : Manager) (k : ℕ) → IsValid m → IsValid (record m { transfers = remove k m.transfers })
remove-IsValid m k v = record {
  at_source = λ j q e. elim (Bool-cases (k == j)) [
    | inl same ↦ cc (rw (lookup-remove, same) at e)
    | inr other ↦ v.at_source j q (rw (lookup-remove, other) at e)
  ];
}

start-IsValid :
    (m : Manager) (frame : CanFrame)
    → length frame.payload ≤ 8
    → IsValid m
    → IsValid (start m frame).0
unfolding start
start-IsValid m frame fits v =
    let tx = if ltb 0x08 frame.id then frame.id - 0x08 else frame.id in
    let (r, res) = process_frame (new frame.id tx) frame in
    elim (Bool-cases (pci_type_of frame.payload == 1 && is_ok res)) [
      | inl e ↦ rw e (
          insert-IsValid m frame.id r v
            (start-IsReceiving tx frame (ground (arith, e)) (ground (arith, e)) fits))
      | inr e ↦ rw e v
    ]

continue-IsValid :
    (m : Manager) (frame : CanFrame) (o : Option Reassembler)
    → pci_type_of frame.payload ≡ 2
    → lookup frame.id m.transfers ≡ o
    → IsValid m
    → IsValid (continue m frame o).0
unfolding continue
continue-IsValid m frame none k e v = v
continue-IsValid m frame (some r) k e v = elim (Bool-cases (ended (process_frame r frame).1)) [
  | inl over ↦ rw over (remove-IsValid m frame.id v)
  | inr more ↦ rw more (
      insert-IsValid m frame.id (process_frame r frame).0 v
        (process_frame-IsReceiving r frame (v.at_source frame.id r e) more k))
]

manage-IsValid :
    (m : Manager) (frame : CanFrame)
    → length frame.payload ≤ 8
    → IsValid m
    → IsValid (manage m frame).0
unfolding manage
manage-IsValid m frame fits v = record {
  at_source = λ j r e. ground (
    arith,
    v.at_source j r,
    (start-IsValid m frame fits v).at_source j r,
    λ (k : pci_type_of frame.payload ≡ 2).
        (continue-IsValid m frame (lookup frame.id m.transfers) k refl v).at_source j r,
  );
}

-- No frame, well formed or not, makes a manager keep anything but receivers in the middle of a
-- message.
pub feed-IsValid : (m : Manager) (s : ℕ) (bytes : List ℕ) → IsValid m → IsValid (feed m s bytes).0
unfolding feed
feed-IsValid m s bytes v = record {
  at_source = λ j r e. ground (
    arith,
    v.at_source j r,
    λ (fits : length bytes ≤ 8).
        (manage-IsValid m (record { id = s; payload = bytes }) fits v).at_source j r,
  );
}

pub IsValid-empty : IsValid empty
unfolding lookup
IsValid-empty = record { at_source = λ s r e. cc e }
