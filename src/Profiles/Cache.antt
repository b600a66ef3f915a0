-- ===== src/Profiles/Cache.antt =====
-- The cache of merged profiles in `ProfileLibrary`.
use canopen_studio.Prelude.{
  ℕ, ◌≡◌, refl, sym, ap, ◌∙◌, false, Bool-cases, Option-cases, inl, inr, none, some, List, arith,
  Result, ok, err, ◌>>=◌, Result-cases,
}
use canopen_studio.Prelude.Dict.{find, put, text_same, text_eq_iff, find-put, find-erase}
use canopen_studio.Prelude.Text.{text_eq}
use canopen_studio.Profiles.{Profile, ProfileError}
use canopen_studio.Profiles.Merge.{ResolvedProfile, merge_chain}
use canopen_studio.Profiles.Library.{Library, resolve_profile, add_profile, chain_of}

-- What a profile merges to, without the cache.
abbrev pub merged_profile :
    {V W : Type 0}
    → List (List ℕ × Profile V W)
    → List ℕ
    → Result ProfileError (ResolvedProfile V W)
merged_profile profiles id = chain_of profiles id >>= merge_chain

-- Each entry of the cache is what its profile merges to.
abbrev pub Coherent : {V W : Type 0} → Library V W → Type 0
Coherent {V} {W} library =
    (id : List ℕ) (r : ResolvedProfile V W)
    → find id library.resolved ≡ some r
    → merged_profile library.profiles id ≡ ok r

-- The three ways of `resolve`: an entry of the cache, a fresh merge that is kept, an error.
resolve_cached :
    {V W : Type 0} (library : Library V W) (id : List ℕ) (r : ResolvedProfile V W)
    → find id library.resolved ≡ some r
    → resolve_profile library id ≡ (ok r, library)
unfolding resolve_profile
resolve_cached library id r h = rw (h, resolve_profile) refl

resolve_fresh :
    {V W : Type 0} (library : Library V W) (id : List ℕ) (r : ResolvedProfile V W)
    → find id library.resolved ≡ none
    → merged_profile library.profiles id ≡ ok r
    → resolve_profile library id ≡ (ok r, record library { resolved = put id r library.resolved })
unfolding resolve_profile
resolve_fresh library id r h m = simp (h, m, resolve_profile)

resolve_failed :
    {V W : Type 0} (library : Library V W) (id : List ℕ) (e : ProfileError)
    → find id library.resolved ≡ none
    → merged_profile library.profiles id ≡ err e
    → resolve_profile library id ≡ (err e, library)
unfolding resolve_profile
resolve_failed library id e h m = simp (h, m, resolve_profile)

put-Coherent :
    {V W : Type 0} (library : Library V W) (id : List ℕ) (r : ResolvedProfile V W)
    → Coherent library
    → merged_profile library.profiles id ≡ ok r
    → Coherent (record library { resolved = put id r library.resolved })
put-Coherent library id r h m j s k = elim (Bool-cases (text_eq id j)) [
  | inl t ↦
      let e : some r ≡ some s = sym (find-put j id r library.resolved ∙ rw t refl) ∙ k in
      let same : r ≡ s = ground (arith, e) in
      let q : id ≡ j = (text_eq_iff id j).0 t in
      let m' : merged_profile library.profiles j ≡ ok r = rw q at m in m' ∙ ap ok same
  | inr t ↦ h j s (sym (find-put j id r library.resolved ∙ rw t refl) ∙ k)
]

-- With a cache that is coherent, a profile resolves to what it merges to, and the cache stays
-- coherent with the same profiles.
pub resolve_profile-Coherent :
    {V W : Type 0} (library : Library V W) (id : List ℕ)
    → Coherent library
    → ((resolve_profile library id).0 ≡ merged_profile library.profiles id)
      × ((resolve_profile library id).1.profiles ≡ library.profiles)
      × Coherent (resolve_profile library id).1
resolve_profile-Coherent library id h = elim (Option-cases (find id library.resolved)) [
  | inr (r, c) ↦ rw (resolve_cached library id r c) (sym (h id r c), refl, h)
  | inl c ↦ elim (Result-cases (merged_profile library.profiles id)) [
    | inl (r, m) ↦ rw (resolve_fresh library id r c m) (sym m, refl, put-Coherent library id r h m)
    | inr (e, m) ↦ rw (resolve_failed library id e c m) (sym m, refl, h)
  ]
]

-- A profile that was resolved before comes out as it was then, although another profile is added,
-- be it one that it extends.
pub add_profile-stale :
    {V W : Type 0} (library : Library V W) (p : Profile V W) (id : List ℕ) (r : ResolvedProfile V W)
    → find id library.resolved ≡ some r
    → text_eq p.id id ≡ false
    → (resolve_profile (add_profile library p) id).0 ≡ ok r
unfolding add_profile
add_profile-stale library p id r h other =
    ap (λ q. q.0)
      (resolve_cached (add_profile library p) id r
        (find-erase id p.id library.resolved ∙ rw other h))
