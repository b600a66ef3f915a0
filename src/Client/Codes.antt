-- ===== src/Client/Codes.antt =====
-- `J1979Client.read_dtcs`, `read_all_dtcs` and `dtc_summary`.
use canopen_studio.Prelude.{ℕ, Option, List, [], ◌∷◌, ◌++◌, Result, ok, err, ◌>>=◌}
use canopen_studio.Diagnostic.{Backend, DiagnosticResponse, payload}
use canopen_studio.Dtc.{DtcError}
use canopen_studio.Dtc.Codes.{
  CodeKind, stored, pending, permanent, dtc_mode, TroubleCode, decode_dtc_response, sort_codes,
  Summary, summarise,
}
use canopen_studio.Client.{Client, ClientError, bad_code, then_do, ask}

abbrev pub codes_or_raise :
    Result DtcError (List TroubleCode) → Result ClientError (List TroubleCode)
codes_or_raise (ok codes) = ok codes
codes_or_raise (err e) = err (bad_code e)

unfoldable pub reply_codes :
    CodeKind
    → List (List ℕ × List ℕ)
    → List DiagnosticResponse
    → Result ClientError (List TroubleCode)
unfolding decode_dtc_response
reply_codes kind descriptions [] = ok []
reply_codes kind descriptions (reply ∷ replies) =
    codes_or_raise (decode_dtc_response (payload reply) kind reply.source descriptions) >>= λ codes.
    reply_codes kind descriptions replies >>= λ rest. ok (codes ++ rest)

abbrev pub sorted_codes :
    Result ClientError (List TroubleCode) → Result ClientError (List TroubleCode)
sorted_codes (ok codes) = ok (sort_codes codes)
sorted_codes (err e) = err e

module _ {V S : Type 0} (hooks : Backend S) (timeout : Option ℕ) where
  unfoldable pub read_dtcs :
      CodeKind → Client V S → Result ClientError (List TroubleCode) × Client V S
  unfolding ask reply_codes sort_codes
  read_dtcs kind c =
      then_do (ask hooks (dtc_mode kind) [] timeout c)
        (λ replies c'. (sorted_codes (reply_codes kind c.dtc_descriptions replies), c'))

  unfoldable pub read_kinds :
      List CodeKind → Client V S → Result ClientError (List TroubleCode) × Client V S
  unfolding read_dtcs
  read_kinds [] c = (ok [], c)
  read_kinds (kind ∷ kinds) c =
      then_do (read_dtcs kind c)
        (λ codes c'. then_do (read_kinds kinds c') (λ rest c''. (ok (codes ++ rest), c'')))

  unfoldable pub read_all_dtcs : Client V S → Result ClientError (List TroubleCode) × Client V S
  unfolding read_kinds
  read_all_dtcs c = read_kinds (stored ∷ pending ∷ permanent ∷ []) c

  unfoldable pub dtc_summary : Client V S → Result ClientError Summary × Client V S
  unfolding read_all_dtcs summarise
  dtc_summary c = then_do (read_all_dtcs c) (λ codes c'. (ok (summarise codes), c'))
