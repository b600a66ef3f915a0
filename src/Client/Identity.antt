-- ===== src/Client/Identity.antt =====
-- `J1979Client.read_vin`, `read_text_info` and `identify`.
use canopen_studio.Prelude.{
  ℕ, false, Option, none, some, List, [], ◌∷◌, if◌then◌else◌, Result, ok, err,
}
use canopen_studio.Prelude.Dict.{put, nat_same}
use canopen_studio.Prelude.Int.{pos}
use canopen_studio.Diagnostic.{
  Backend, DiagnosticResponse, transport, not_connected, empty_request, not_a_byte, negative,
  timed_out, protocol, payload,
}
use canopen_studio.Discovery.{Found, contains}
use canopen_studio.Discovery.Views.{all_pids, ecus}
use canopen_studio.Formula.Evaluate.{Arithmetic}
use canopen_studio.Pids.{Definition}
use canopen_studio.Pids.Decode.{decode_ascii}
use canopen_studio.Pids.Table.{Table, get_definition}
use canopen_studio.Vin.{VinInfo, parse_vin, extract_vin}
use canopen_studio.Profiles.Resolver.{Identity, info_or_none}
use canopen_studio.Client.{
  Client, ClientError, diagnostic, formula_escaped, bad_code, bad_status, then_do, ask,
  supported_pids, payload_after_echo, mode_current_data, mode_vehicle_info, pid_vin,
  pid_calibration_id, pid_ecu_name,
}
use canopen_studio.Client.Reading.{Reading, read_with, first_reading}
use canopen_studio.Client.Frames.{base_definition}

unfoldable pub first_vin : List DiagnosticResponse → Option (List ℕ)
unfolding extract_vin
first_vin [] = none
first_vin (reply ∷ replies) = elim (extract_vin (payload reply)) [
  | some vin ↦ some vin
  | none ↦ first_vin replies
]

abbrev pub keep_text : ℕ → List ℕ → List (ℕ × List ℕ) → List (ℕ × List ℕ)
keep_text source [] texts = texts
keep_text source (c ∷ text) texts = put source (c ∷ text) texts

unfoldable pub reply_texts : ℕ → List DiagnosticResponse → List (ℕ × List ℕ) → List (ℕ × List ℕ)
unfolding payload_after_echo decode_ascii put
reply_texts pid [] texts = texts
reply_texts pid (reply ∷ replies) texts = elim (payload_after_echo reply pid none) [
  | none ↦ reply_texts pid replies texts
  | some bytes ↦ reply_texts pid replies (keep_text reply.source (decode_ascii bytes) texts)
]

-- A lost link is raised, and so is a request that is malformed, which is no error of the session; any
-- other error costs the texts.
abbrev pub texts_or_none :
    Result ClientError (List (ℕ × List ℕ)) → Result ClientError (List (ℕ × List ℕ))
texts_or_none (ok texts) = ok texts
texts_or_none (err (diagnostic transport)) = err (diagnostic transport)
texts_or_none (err (diagnostic not_connected)) = ok []
texts_or_none (err (diagnostic empty_request)) = err (diagnostic empty_request)
texts_or_none (err (diagnostic (not_a_byte b))) = err (diagnostic (not_a_byte b))
texts_or_none (err (diagnostic (negative source service code))) = ok []
texts_or_none (err (diagnostic timed_out)) = ok []
texts_or_none (err (diagnostic protocol)) = ok []
texts_or_none (err (formula_escaped e)) = err (formula_escaped e)
texts_or_none (err (bad_code e)) = err (bad_code e)
texts_or_none (err (bad_status e)) = err (bad_status e)

abbrev pub info_of_vin : Option (List ℕ) → Option VinInfo
info_of_vin none = none
info_of_vin (some vin) = info_or_none (parse_vin vin none)

pub record VehicleIdentity (V : Type 0) : Type 0 where
  pub vin : Option (List ℕ)
  pub vin_info : Option VinInfo
  pub ecu_addresses : List ℕ
  pub ecu_names : List (ℕ × List ℕ)
  pub calibration_ids : List (ℕ × List ℕ)
  pub supported_pids : Found
  pub obd_standard : Option (Reading V)

abbrev pub table_or_base :
    {V : Type 0} → Option (Definition V) → Option (Definition V) → Option (Definition V)
table_or_base (some d) base = some d
table_or_base none base = base

abbrev pub texts_of : List (ℕ × List ℕ) → List (List ℕ)
texts_of [] = []
texts_of ((ecu, text) ∷ texts) = text ∷ texts_of texts

abbrev pub vin_text : Option (List ℕ) → List ℕ
vin_text none = []
vin_text (some vin) = vin

-- What the choice of a profile reads of it.
unfoldable pub resolver_identity : {V : Type 0} → VehicleIdentity V → Identity
unfolding all_pids
resolver_identity said = record {
  vin = vin_text said.vin;
  vin_info = said.vin_info;
  ecu_names = texts_of said.ecu_names;
  fingerprint = all_pids said.supported_pids;
}

module _ {V S : Type 0} (hooks : Backend S) (ops : Arithmetic V) (bundled : Option (Table V))
    (timeout : Option ℕ) where
  unfoldable pub read_vin : Client V S → Result ClientError (Option (List ℕ)) × Client V S
  unfolding ask first_vin
  read_vin c =
      then_do (ask hooks mode_vehicle_info (pid_vin ∷ []) timeout c)
        (λ replies c'. (ok (first_vin replies), c'))

  unfoldable pub read_text_info :
      ℕ → Client V S → Result ClientError (List (ℕ × List ℕ)) × Client V S
  unfolding ask reply_texts
  read_text_info pid c =
      then_do (ask hooks mode_vehicle_info (pid ∷ []) timeout c)
        (λ replies c'. (ok (reply_texts pid replies []), c'))

  unfoldable pub optional_text_info :
      ℕ → Client V S → Result ClientError (List (ℕ × List ℕ)) × Client V S
  unfolding read_text_info
  optional_text_info pid c = let (result, c') = read_text_info pid c in (texts_or_none result, c')

  abbrev pub read_standard_with :
      Option (Definition V) → Client V S → Result ClientError (Option (Reading V)) × Client V S
  read_standard_with none c = (ok none, c)
  read_standard_with (some d) c =
      then_do (read_with hooks ops d mode_current_data 0x1C timeout c)
        (λ readings c'. (ok (first_reading hooks ops readings), c'))

  unfoldable pub read_standard :
      Found → Client V S → Result ClientError (Option (Reading V)) × Client V S
  unfolding all_pids get_definition read_with
  read_standard found c =
      if contains 0x1C (all_pids found)
      then read_standard_with
          (table_or_base (get_definition (pos mode_current_data) (pos 0x1C) c.table)
            (base_definition bundled 0x1C))
          c
      else (ok none, c)

  unfoldable pub identify : Client V S → Result ClientError (VehicleIdentity V) × Client V S
  unfolding supported_pids read_vin parse_vin read_standard optional_text_info ecus
  identify c = then_do (supported_pids hooks mode_current_data false c) (λ found c1.
      then_do (read_vin c1) (λ vin c2. then_do (read_standard found c2) (λ standard c3.
        then_do (optional_text_info pid_ecu_name c3) (λ names c4.
          then_do (optional_text_info pid_calibration_id c4) (λ calibrations c5. (
            ok (record {
              vin = vin;
              vin_info = info_of_vin vin;
              ecu_addresses = ecus found;
              ecu_names = names;
              calibration_ids = calibrations;
              supported_pids = found;
              obd_standard = standard;
            }),
            c5,
          ))))))
