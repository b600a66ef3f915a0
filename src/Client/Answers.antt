-- ===== src/Client/Answers.antt =====
-- What a reply that a session keeps in mode 02 says, and to which request.
use canopen_studio.Prelude.{
  ℕ, ◌+◌, ◌≡◌, refl, sym, ap, ◌∙◌, false, Bool-cases, Option-cases, Option, some, inl, inr, List,
  [], ◌∷◌, arith, ◌==◌, ==_iff, get_or, All, Result, Result-cases, ok, err, ok_injective,
}
use mathlib.Core.List.{Memᴰ}
use mathlib.Core.List.Memᴰ
use canopen_studio.Diagnostic.{
  Backend, Interface, DiagnosticResponse, DiagnosticError, service_id, is_negative, keep_positive,
  prepend, timeout_or, positive_responses, service, request, bad_byte,
}
use canopen_studio.Client.{Client, ask, as_client, payload_after_echo, mode_freeze_frame}

prepend_inv :
    (r : DiagnosticResponse) (m : Result DiagnosticError (List DiagnosticResponse))
    (kept : List DiagnosticResponse)
    → prepend r m ≡ ok kept
    → (rest : List DiagnosticResponse) × (m ≡ ok rest) × (kept ≡ r ∷ rest)
prepend_inv r (ok rest) kept h = (rest, refl, sym (ok_injective _ kept h))
prepend_inv r (err e) kept h = ground (arith, h)

-- A reply that is kept is one of those that came, and is positive.
keep_positive-Memᴰ :
    (mode : ℕ) (r : DiagnosticResponse) (replies kept : List DiagnosticResponse)
    → keep_positive mode false replies ≡ ok kept
    → Memᴰ r kept
    → Memᴰ r replies × (service_id r ≡ mode + 0x40)
unfolding keep_positive
keep_positive-Memᴰ mode r [] kept h m =
    absurd (Memᴰ.not-nil (rw (sym (ok_injective [] kept h)) at m))
keep_positive-Memᴰ mode r (reply ∷ replies) kept h m = elim (Bool-cases (is_negative reply)) [
  | inl t ↦
      let k : keep_positive mode false replies ≡ ok kept = rw (t, keep_positive) at h in
      let (p, q) = keep_positive-Memᴰ mode r replies kept k m in (Memᴰ.tail p, q)
  | inr t ↦ elim (Bool-cases (service_id reply == mode + 0x40)) [
    | inr s ↦
        let k : keep_positive mode false replies ≡ ok kept = rw (t, s, keep_positive) at h in
        let (p, q) = keep_positive-Memᴰ mode r replies kept k m in (Memᴰ.tail p, q)
    | inl s ↦
        let k : prepend reply (keep_positive mode false replies) ≡ ok kept =
          rw (t, s, keep_positive) at h in
        let (rest, e, same) = prepend_inv reply (keep_positive mode false replies) kept k in
        elim (Memᴰ.cases_cons (rw same at m)) [
          | inl here ↦ (Memᴰ.head here, ap service_id here ∙ (==_iff _ _).0 s)
          | inr later ↦
              let (p, q) = keep_positive-Memᴰ mode r replies rest e later in (Memᴰ.tail p, q)
        ]
  ]
]

All-of {ℓ} : {A : Type 0} {P : A → Type ℓ} (l : List A) → ((a : A) → Memᴰ a l → P a) → All P l
All-of [] f = tt
All-of (x ∷ xs) f = (f x (Memᴰ.head refl), All-of xs (λ a m. f a (Memᴰ.tail m)))

as_client_inv {ℓ} :
    {A : Type ℓ} (r : Result DiagnosticError A) (a : A) → as_client r ≡ ok a → r ≡ ok a
as_client_inv (ok b) a h = ap ok (ok_injective b a h)
as_client_inv (err e) a h = ground (arith, h)

module _ {S : Type 0} (hooks : Backend S) where
  -- Replies that were kept came from one exchange of the request.
  positive_responses_inv :
      (mode : ℕ) (args : List ℕ) (timeout : Option ℕ) (i : Interface S)
      (kept : List DiagnosticResponse)
      → (positive_responses hooks mode args timeout false i).0 ≡ ok kept
      → (t : ℕ) × (replies : List DiagnosticResponse) × ((hooks.exchange
            (mode ∷ args)
            t
            i.backend).0
          ≡ ok replies)
        × (keep_positive mode false replies ≡ ok kept)
  unfolding positive_responses service request
  positive_responses_inv mode args timeout i kept h = elim (Option-cases (bad_byte (mode ∷ args))) [
    | inr (b, e) ↦ let k = rw (e, positive_responses, service) at h in ground (arith, k)
    | inl e ↦ elim (Bool-cases i.open_flag) [
      | inr t ↦ let k = rw (e, t, positive_responses, service) at h in ground (arith, k)
      | inl t ↦
          let time = timeout_or timeout i.default_timeout in
          elim (Result-cases (hooks.exchange (mode ∷ args) time i.backend).0) [
            | inl (replies, x) ↦ (time, replies, x, rw (e, t, x, positive_responses, service) at h)
            | inr (x, y) ↦
                let k = rw (e, t, y, positive_responses, service) at h in ground (arith, k)
          ]
    ]
  ]

module _ {S : Type 0} (hooks : Backend S) (frame : ℕ) where
  -- The vehicle answered the request for a PID of the frame by these bytes, from this controller.
  abbrev pub Answered : ℕ → ℕ → List ℕ → Type 0
  Answered source pid bytes =
      (t : ℕ) × (state : S) × (replies : List DiagnosticResponse) × (reply : DiagnosticResponse)
      × ((hooks.exchange (0x02 ∷ pid ∷ frame ∷ []) t state).0 ≡ ok replies)
      × Memᴰ reply replies
      × (reply.source ≡ source)
      × (reply.bytes ≡ 0x42 ∷ pid ∷ frame ∷ bytes)

  -- What stands in a reply behind the echo is an answer.
  abbrev pub Answers : ℕ → DiagnosticResponse → Type 0
  Answers pid reply =
      (bytes : List ℕ)
      → payload_after_echo reply pid (some frame) ≡ some bytes
      → Answered reply.source pid bytes

  echoed_bytes :
      (source : ℕ) (said : List ℕ) (pid : ℕ) (bytes : List ℕ)
      → get_or said 0 0 ≡ 0x42
      → payload_after_echo (record { source = source; bytes = said }) pid (some frame) ≡ some bytes
      → said ≡ 0x42 ∷ pid ∷ frame ∷ bytes
  unfolding payload_after_echo
  echoed_bytes source [] pid bytes e h = ground (arith, h)
  echoed_bytes source (a ∷ []) pid bytes e h = ground (arith, h)
  echoed_bytes source (a ∷ b ∷ []) pid bytes e h = ground (arith, h)
  echoed_bytes source (a ∷ b ∷ c ∷ rest) pid bytes e h = ground (arith, e, h)

  pub ask-Answers :
      {V : Type 0} (pid : ℕ) (timeout : Option ℕ) (c : Client V S) (kept : List DiagnosticResponse)
      → (ask hooks mode_freeze_frame (pid ∷ frame ∷ []) timeout c).0 ≡ ok kept
      → All (Answers pid) kept
  unfolding ask
  ask-Answers pid timeout c kept h =
      let (t, replies, e, k) =
        positive_responses_inv hooks mode_freeze_frame (pid ∷ frame ∷ []) timeout c.interface kept
          (as_client_inv _ kept h) in
      All-of kept (λ reply m bytes echo.
        let (came, positive) = keep_positive-Memᴰ mode_freeze_frame reply replies kept k m in
        (
          t,
          c.interface.backend,
          replies,
          reply,
          e,
          came,
          refl,
          echoed_bytes reply.source reply.bytes pid bytes positive echo,
        ))
