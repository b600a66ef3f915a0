-- ===== src/Profiles/Answers.antt =====
-- A library that was loaded with its base profile answers for every vehicle.
use canopen_studio.Prelude.{
  ℕ, ◌≡◌, refl, sym, ap, ◌∙◌, true, Bool-cases, Option-cases, inl, inr, Option, none, some, List,
  [], ◌∷◌, ◌++◌, arith, Result, ok, err, ok-is_ok, is_ok, ok_injective, Result-cases,
}
use canopen_studio.Prelude.Dict.{find, put, text_same}
use canopen_studio.Profiles.{Profile, ProfileError, base_missing, base_profile_id, any}
use canopen_studio.Profiles.Merge.{ResolvedProfile}
use canopen_studio.Profiles.Library.{
  Library, base, resolve_profile, resolve_each, resolved_profiles, ids, load, load_files, reload,
}
use canopen_studio.Profiles.Cache.{Coherent, merged_profile, resolve_profile-Coherent}
use canopen_studio.Profiles.Resolver.{
  Identity, best, score_vin_stage, score_fingerprint_stage, fallback, fallback_match,
  by_fingerprint, by_vin, resolve_vehicle,
}

module _ {V W : Type 0} where
  -- The library is as it was, but for the cache and the errors, and the cache is coherent.
  abbrev pub Kept : Library V W → Library V W → Type 0
  Kept library after = (after.profiles ≡ library.profiles) × Coherent after

  resolve_each-Kept :
      (library : Library V W) (profile_ids : List (List ℕ))
      → Coherent library
      → Kept library (resolve_each library profile_ids).1
  unfolding resolve_each
  resolve_each-Kept library [] h = (refl, h)
  resolve_each-Kept library (id ∷ rest) h =
      let (e, same, k) = resolve_profile-Coherent library id h in
      let after = (resolve_profile library id).1 in
      elim (Result-cases (resolve_profile library id).0) [
        | inl (r, m) ↦
            let (s, l) = resolve_each-Kept after rest k in rw (m, resolve_each) (s ∙ same, l)
        | inr (x, m) ↦
            let (s, l) =
              resolve_each-Kept (record after { errors = after.errors ++ (x ∷ []) }) rest k in
            rw (m, resolve_each) (s ∙ same, l)
      ]

  resolved_profiles-Kept :
      (library : Library V W) → Coherent library → Kept library (resolved_profiles library).1
  unfolding resolved_profiles
  resolved_profiles-Kept library h = resolve_each-Kept library (ids library) h

  score_vin_stage-Kept :
      (library : Library V W) (identity : Identity)
      → Coherent library
      → Kept library (score_vin_stage library identity).1
  unfolding score_vin_stage
  score_vin_stage-Kept library identity h = elim (Bool-cases (any identity.vin)) [
    | inl t ↦ rw t (resolved_profiles-Kept library h)
    | inr t ↦ rw t (refl, h)
  ]

  score_fingerprint_stage-Kept :
      (library : Library V W) (identity : Identity)
      → Coherent library
      → Kept library (score_fingerprint_stage library identity).1
  unfolding score_fingerprint_stage
  score_fingerprint_stage-Kept library identity h = elim (Bool-cases (any identity.fingerprint)) [
    | inl t ↦ rw t (resolved_profiles-Kept library h)
    | inr t ↦ rw t (refl, h)
  ]

  -- The base profile, without the cache.
  abbrev merged_base : List (List ℕ × Profile V W) → Result ProfileError (ResolvedProfile V W)
  merged_base profiles = elim (find base_profile_id profiles) [
    | none ↦ err base_missing
    | some p ↦ merged_profile profiles base_profile_id
  ]

  base-merged :
      (library : Library V W)
      → Coherent library
      → ((base library).0 ≡ merged_base library.profiles) × Kept library (base library).1
  unfolding base
  base-merged library h = elim (Option-cases (find base_profile_id library.profiles)) [
    | inl e ↦ rw (e, base, merged_base) (refl, (refl, h))
    | inr (p, e) ↦
        let (a, b, c) = resolve_profile-Coherent library base_profile_id h in
        rw (e, base, merged_base) (a, (b, c))
  ]

  fallback_match-is_ok :
      (r : Result ProfileError (ResolvedProfile V W)) → is_ok (fallback_match r) ≡ is_ok r
  fallback_match-is_ok (ok profile) = refl
  fallback_match-is_ok (err e) = refl

  fallback-answers :
      (library : Library V W)
      → Coherent library
      → is_ok (merged_base library.profiles) ≡ true
      → is_ok (fallback library).0 ≡ true
  unfolding fallback
  fallback-answers library h b =
      fallback_match-is_ok (base library).0 ∙ ap is_ok (base-merged library h).0 ∙ b

  -- The cache is coherent and the base profile resolves.
  abbrev pub Ready : Library V W → Type 0
  Ready library = Coherent library × (is_ok (merged_base library.profiles) ≡ true)

  Kept-Ready : (library after : Library V W) → Kept library after → Ready library → Ready after
  Kept-Ready library after (same, k) (h, b) = (k, ap (λ ps. is_ok (merged_base ps)) same ∙ b)

  by_fingerprint-answers :
      (library : Library V W) (identity : Identity)
      → Ready library
      → is_ok (by_fingerprint library identity).0 ≡ true
  unfolding by_fingerprint
  by_fingerprint-answers library identity ready =
      let after = (score_fingerprint_stage library identity).1 in
      let (h, b) =
        Kept-Ready library after (score_fingerprint_stage-Kept library identity ready.0) ready in
      elim (Option-cases (best (score_fingerprint_stage library identity).0)) [
        | inl e ↦ rw (e, by_fingerprint) (fallback-answers after h b)
        | inr (c, e) ↦ rw (e, by_fingerprint) refl
      ]

  by_vin-answers :
      (library : Library V W) (identity : Identity)
      → Ready library
      → is_ok (by_vin library identity).0 ≡ true
  unfolding by_vin
  by_vin-answers library identity ready =
      let after = (score_vin_stage library identity).1 in
      elim (Option-cases (best (score_vin_stage library identity).0)) [
        | inl e ↦
            rw (e, by_vin)
              (by_fingerprint-answers after identity
                (Kept-Ready library after (score_vin_stage-Kept library identity ready.0) ready))
        | inr (c, e) ↦ rw (e, by_vin) refl
      ]

  Ready-answers :
      (library : Library V W) (identity : Option Identity)
      → Ready library
      → is_ok (resolve_vehicle library identity []).0 ≡ true
  unfolding resolve_vehicle
  Ready-answers library none (h, b) = fallback-answers library h b
  Ready-answers library (some identity) ready = by_vin-answers library identity ready

  load_files-resolved :
      (library : Library V W) (files : List (Result ProfileError (Profile V W)))
      → (load_files library files).resolved ≡ library.resolved
  unfolding load_files
  load_files-resolved library [] = refl
  load_files-resolved library (ok p ∷ files) =
      load_files-resolved (record library { profiles = put p.id p library.profiles }) files
  load_files-resolved library (err e ∷ files) =
      load_files-resolved (record library { errors = library.errors ++ (e ∷ []) }) files

  load-Coherent :
      (library : Library V W) (files : List (Result ProfileError (Profile V W)))
      → Coherent (load library files)
  unfolding load find
  load-Coherent library files id r h =
      let bad : none ≡ some r =
        rw
          (load_files-resolved (record library { profiles = []; errors = []; resolved = [] }) files)
          at h in
      ground (arith, bad)

-- After a reload that succeeds, every vehicle is given a profile where none is named, whatever it
-- says about itself and whatever is wrong with other profiles.
pub reload-answers :
    {V W : Type 0} (fresh library : Library V W) (files : List (Result ProfileError (Profile V W)))
    (identity : Option Identity)
    → reload fresh files ≡ ok library
    → is_ok (resolve_vehicle library identity []).0 ≡ true
unfolding reload
reload-answers fresh library files identity h =
    let loaded = load fresh files in
    let (merged, kept) = base-merged loaded (load-Coherent fresh files) in
    elim (Result-cases (base loaded).0) [
      | inl (r, e) ↦
          let k : ok (base loaded).1 ≡ ok library = rw (e, reload) at h in
          let same = ok_injective (base loaded).1 library k in
          let ready = Kept-Ready loaded (base loaded).1 kept (
            load-Coherent fresh files,
            ok-is_ok (merged_base loaded.profiles) r (sym merged ∙ e),
          ) in
          rw (sym same) (Ready-answers (base loaded).1 identity ready)
      | inr (x, e) ↦ let k : err x ≡ ok library = rw (e, reload) at h in ground (arith, k)
    ]
