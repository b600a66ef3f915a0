-- ===== src/Client/Again.antt =====
-- The cache of `J1979Client.supported_pids`.
use canopen_studio.Prelude.{
  ℕ, ◌≡◌, refl, sym, ap, ◌∙◌, Bool, true, false, none, some, Option-cases, inl, inr, [], ◌==◌,
  arith, Result, ok, err, ok_injective,
}
use canopen_studio.Prelude.Dict.{find, put, find-put, nat_same, same_refl}
use canopen_studio.Diagnostic.{Backend}
use canopen_studio.Discovery.{Found}
use canopen_studio.Client.{Client, ClientError, supported_pids, discover, remember}

module _ {V S : Type 0} (hooks : Backend S) where
  remember-cached :
      (mode : ℕ) (r : Result ClientError Found × Client V S) (found : Found) (c : Client V S)
      → remember hooks mode r ≡ (ok found, c)
      → find mode c.supported ≡ some found
  remember-cached mode (ok other, c') found c h =
      let e : other ≡ found = ok_injective other found (ap (λ p. p.0) h) in
      let same : put mode other c'.supported ≡ c.supported = ap (λ p. p.1.supported) h in
      let t : (mode == mode) ≡ true = same_refl mode in
      rw (sym same) (find-put mode mode other c'.supported ∙ (rw t (ap some e)))
  remember-cached mode (err e, c') found c h =
      let bad : err e ≡ ok found = ap (λ p. p.0) h in ground (arith, bad)

  supported_pids-cached :
      (mode : ℕ) (refresh : Bool) (c c' : Client V S) (found : Found)
      → supported_pids hooks mode refresh c ≡ (ok found, c')
      → find mode c'.supported ≡ some found
  unfolding supported_pids
  supported_pids-cached mode true c c' found h =
      remember-cached mode (discover hooks mode [] none c) found c' h
  supported_pids-cached mode false c c' found h = elim (Option-cases (find mode c.supported)) [
    | inl e ↦
        remember-cached mode (discover hooks mode [] none c) found c' (rw (e, supported_pids) at h)
    | inr (known, e) ↦
        let k : (ok known, c) ≡ (ok found, c') = rw (e, supported_pids) at h in
        let same : known ≡ found = ok_injective known found (ap (λ p. p.0) k) in
        let kept : c ≡ c' = ap (λ p. p.1) k in
        ap (λ d. find mode d.supported) (sym kept) ∙ e ∙ ap some same
  ]

  -- Once the PIDs of a mode were discovered, asking for them again without a refresh gives the same
  -- ones and changes nothing: no request is sent.
  pub supported_pids_again :
      (mode : ℕ) (refresh : Bool) (c c' : Client V S) (found : Found)
      → supported_pids hooks mode refresh c ≡ (ok found, c')
      → supported_pids hooks mode false c' ≡ (ok found, c')
  unfolding supported_pids
  supported_pids_again mode refresh c c' found h =
      rw (supported_pids-cached mode refresh c c' found h, supported_pids) refl
