-- ===== src/Client/Ordered.antt =====
-- `J1979Client.read_freeze_frames` as a whole.
use canopen_studio.Prelude.{
  ℕ, ◌≡◌, refl, sym, Option, List, [], ◌∷◌, arith, All, Result, ok, err, ok_injective,
}
use canopen_studio.Prelude.Int.{pos}
use canopen_studio.Diagnostic.{Backend}
use canopen_studio.Discovery.Views.{all_pids}
use canopen_studio.Formula.Evaluate.{Arithmetic}
use canopen_studio.Pids.Table.{Table, get_definition}
use canopen_studio.Client.{
  Client, ClientError, then_do, ask, discover, mode_freeze_frame, mode_current_data, pid_freeze_dtc,
}
use canopen_studio.Client.Frames.{
  FreezeFrame, Frames, hold_frames, wanted, add_values, first_definition, base_definition, fill,
  fill_held, read_freeze_frames,
}
use canopen_studio.Client.Answers.{ask-Answers}
use canopen_studio.Client.Held.{Held, InOrder, hold_frames-Held, add_values-Held, in_order-InOrder}

-- A step that ends well was well before it.
then_do_inv {ℓ κ} :
    {A : Type ℓ} {B : Type κ} {C : Type 0} (r : Result ClientError A × C)
    (next : A → C → Result ClientError B × C) (b : B)
    → (then_do r next).0 ≡ ok b
    → (a : A) × (r.0 ≡ ok a) × ((next a r.1).0 ≡ ok b)
then_do_inv (ok a, c) next b h = (a, refl, h)
then_do_inv (err e, c) next b h = ground (arith, h)

-- The name that the readings of a PID are given.
abbrev pub names : {V S : Type 0} → Option (Table V) → Client V S → ℕ → List ℕ
names bundled c pid =
    (first_definition pid (get_definition (pos mode_current_data) (pos pid) c.table)
      (base_definition bundled pid)).name

module _ {V S : Type 0} (hooks : Backend S) (ops : Arithmetic V) (bundled : Option (Table V))
    (frame : ℕ) (timeout : Option ℕ) where
  fill-Held :
      (pids : List ℕ) (frames after : Frames V) (c : Client V S)
      → (fill hooks ops bundled frame timeout pids frames c).0 ≡ ok after
      → All (Held hooks (names bundled c) frame) frames
      → All (Held hooks (names bundled c) frame) after
  unfolding fill ask
  fill-Held [] frames after c k h = rw (sym (ok_injective frames after k)) h
  fill-Held (pid ∷ pids) frames after c k h =
      let (replies, e, k1) =
        then_do_inv (ask hooks mode_freeze_frame (pid ∷ frame ∷ []) timeout c) _ after k in
      let c1 = (ask hooks mode_freeze_frame (pid ∷ frame ∷ []) timeout c).1 in
      let (next, e2, k2) =
        then_do_inv
          (
            add_values ops
                (first_definition pid (get_definition (pos mode_current_data) (pos pid) c.table)
                  (base_definition bundled pid))
                pid frame replies frames,
            c1,
          )
          _ after k1 in
      fill-Held pids next after c1 k2 (
        add_values-Held hooks (names bundled c) frame ops
          (first_definition pid (get_definition (pos mode_current_data) (pos pid) c.table)
            (base_definition bundled pid))
          pid refl replies frames next (ask-Answers hooks frame pid timeout c replies e) e2 h)

  fill_held-InOrder :
      (frames : Frames V) (fs : List (FreezeFrame V)) (c : Client V S)
      → (fill_held hooks ops bundled frame timeout frames c).0 ≡ ok fs
      → All (Held hooks (names bundled c) frame) frames
      → InOrder hooks (names bundled c) frame fs
  unfolding fill_held discover
  fill_held-InOrder [] fs c k h = rw (sym (ok_injective [] fs k)) (tt, tt)
  fill_held-InOrder (held ∷ frames) fs c k h =
      let (found, e, k1) =
        then_do_inv (discover hooks mode_freeze_frame (frame ∷ []) timeout c) _ fs k in
      let c1 = (discover hooks mode_freeze_frame (frame ∷ []) timeout c).1 in
      let (filled, e2, k2) =
        then_do_inv
          (fill hooks ops bundled frame timeout (wanted found (held ∷ frames) (all_pids found))
            (held ∷ frames) c1)
          _ fs k1 in
      rw (sym (ok_injective _ fs k2)) (
        in_order-InOrder hooks (names bundled c) frame filled (
          fill-Held (wanted found (held ∷ frames) (all_pids found)) (held ∷ frames) filled c1 e2 h))

  -- The freeze frames that are returned are in the order of the addresses of their controllers. Each
  -- has the number that was asked for, and its code is that of an answer of its controller to the
  -- request for the code of that frame. Each of its readings holds the bytes that the same
  -- controller answered to the request for a PID of that frame, behind the echo of both, under the
  -- name of that PID.
  pub read_freeze_frames-InOrder :
      (c : Client V S) (fs : List (FreezeFrame V))
      → (read_freeze_frames hooks ops bundled frame timeout c).0 ≡ ok fs
      → InOrder hooks (names bundled c) frame fs
  unfolding read_freeze_frames ask
  read_freeze_frames-InOrder c fs k =
      let (replies, e, k1) =
        then_do_inv (ask hooks mode_freeze_frame (pid_freeze_dtc ∷ frame ∷ []) timeout c) _ fs k in
      let c1 = (ask hooks mode_freeze_frame (pid_freeze_dtc ∷ frame ∷ []) timeout c).1 in
      fill_held-InOrder (hold_frames frame replies []) fs c1 k1 (
        hold_frames-Held hooks (names bundled c) frame replies []
          (ask-Answers hooks frame pid_freeze_dtc timeout c replies e) tt)
