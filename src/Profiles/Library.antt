-- ===== src/Profiles/Library.antt =====
-- src/canopen_studio/diag/profiles/library.py: the profiles of a session and their inheritance. What
-- a file holds is an input: a profile, or the error that reading it raised.
use canopen_studio.Prelude.{
  ℕ, zero, suc, true, false, none, some, List, [], ◌∷◌, ◌++◌, Result, ok, err, ◌>>=◌,
}
use canopen_studio.Prelude.Dict.{find, put, erase, member, text_same}
use canopen_studio.Prelude.Sort.{sort, text_leb}
use canopen_studio.Profiles.{
  Profile, ProfileError, unknown_profile, unknown_parent, inheritance_loops, too_deep, base_missing,
  base_profile_id,
}
use canopen_studio.Profiles.Merge.{ResolvedProfile, merge_chain}

abbrev pub max_depth : ℕ
max_depth = 16

pub record Library (V W : Type 0) : Type 0 where
  pub profiles : List (List ℕ × Profile V W)
  pub errors : List ProfileError
  pub resolved : List (List ℕ × ResolvedProfile V W)

abbrev pub unknown : List (List ℕ) → ProfileError
unknown [] = unknown_profile
unknown (id ∷ seen) = unknown_parent

-- The loop of `chain`, the identifiers seen and the chain the last one first. The number is how many
-- more profiles the chain may take before it is too deep.
unfoldable pub climb :
    {V W : Type 0}
    → ℕ
    → List (List ℕ × Profile V W)
    → List (List ℕ)
    → List (Profile V W)
    → List ℕ
    → Result ProfileError (List (Profile V W))
unfolding find
climb zero profiles seen chain current = elim (member current seen) [
  | true ↦ err inheritance_loops
  | false ↦ elim (find current profiles) [ none ↦ err (unknown seen) | some p ↦ err too_deep ]
]
climb (suc room) profiles seen chain current = elim (member current seen) [
  | true ↦ err inheritance_loops
  | false ↦ elim (find current profiles) [
    | none ↦ err (unknown seen)
    | some p ↦ elim p.extends [
      | none ↦ ok (p ∷ chain)
      | some parent ↦ climb room profiles (current ∷ seen) (p ∷ chain) parent
    ]
  ]
]

-- The chain, base first.
unfoldable pub chain_of :
    {V W : Type 0} → List (List ℕ × Profile V W) → List ℕ → Result ProfileError (List (Profile V W))
unfolding climb
chain_of profiles profile_id = climb max_depth profiles [] [] profile_id

-- `resolve`, with the library as it is left behind.
unfoldable pub resolve_profile :
    {V W : Type 0} → Library V W → List ℕ → Result ProfileError (ResolvedProfile V W) × Library V W
unfolding find put chain_of merge_chain
resolve_profile library profile_id = elim (find profile_id library.resolved) [
  | some r ↦ (ok r, library)
  | none ↦ elim (chain_of library.profiles profile_id >>= merge_chain) [
    | ok r ↦ (ok r, record library { resolved = put profile_id r library.resolved })
    | err e ↦ (err e, library)
  ]
]

unfoldable pub add_profile : {V W : Type 0} → Library V W → Profile V W → Library V W
unfolding put erase
add_profile library p = record library {
  profiles = put p.id p library.profiles;
  resolved = erase p.id library.resolved;
}

unfoldable pub base :
    {V W : Type 0} → Library V W → Result ProfileError (ResolvedProfile V W) × Library V W
unfolding find resolve_profile
base library = elim (find base_profile_id library.profiles) [
  | none ↦ (err base_missing, library)
  | some p ↦ resolve_profile library base_profile_id
]

-- The files of the directories, in order.
unfoldable pub load_files :
    {V W : Type 0} → Library V W → List (Result ProfileError (Profile V W)) → Library V W
unfolding put
load_files library [] = library
load_files library (ok p ∷ files) =
    load_files (record library { profiles = put p.id p library.profiles }) files
load_files library (err e ∷ files) =
    load_files (record library { errors = library.errors ++ (e ∷ []) }) files

unfoldable pub load :
    {V W : Type 0} → Library V W → List (Result ProfileError (Profile V W)) → Library V W
unfolding load_files
load library files = load_files (record library { profiles = []; errors = []; resolved = [] }) files

abbrev pub keys_of {ℓ} : {V : Type ℓ} → List (List ℕ × V) → List (List ℕ)
keys_of [] = []
keys_of ((k, v) ∷ d) = k ∷ keys_of d

unfoldable pub ids : {V W : Type 0} → Library V W → List (List ℕ)
unfolding sort
ids library = sort text_leb (keys_of library.profiles)

-- The loop of `resolved`: what resolves is kept, the errors of the rest are noted.
unfoldable pub resolve_each :
    {V W : Type 0} → Library V W → List (List ℕ) → List (ResolvedProfile V W) × Library V W
unfolding resolve_profile
resolve_each library [] = ([], library)
resolve_each library (id ∷ rest) =
    let (result, after) = resolve_profile library id in
    elim result [
      | ok r ↦ let (results, final) = resolve_each after rest in (r ∷ results, final)
      | err e ↦ resolve_each (record after { errors = after.errors ++ (e ∷ []) }) rest
    ]

unfoldable pub resolved_profiles :
    {V W : Type 0} → Library V W → List (ResolvedProfile V W) × Library V W
unfolding resolve_each ids
resolved_profiles library = resolve_each library (ids library)

-- The shared library is replaced only if the base of the fresh one resolves.
unfoldable pub reload :
    {V W : Type 0}
    → Library V W
    → List (Result ProfileError (Profile V W))
    → Result ProfileError (Library V W)
unfolding load base
reload fresh files =
    let (result, library) = base (load fresh files) in
    elim result [ ok r ↦ ok library | err e ↦ err e ]
