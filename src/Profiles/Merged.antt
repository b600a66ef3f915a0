-- ===== src/Profiles/Merged.antt =====
-- What a merged chain of profiles holds.
use canopen_studio.Prelude.{
  ℕ, ◌≡◌, refl, sym, ap, ◌∙◌, Option, none, some, List, [], ◌∷◌, ◌++◌, append_assoc, append-nil,
  ok_injective, ok, All, map,
}
use canopen_studio.Prelude.Dict.{IsDict, find, update, or_else, text_same, key_same, find-update}
use canopen_studio.Prelude.Int.{ℤ}
use canopen_studio.Pids.{Definition}
use canopen_studio.Pids.Table.{Table, get_definition, merged_with, merged_with-get}
use canopen_studio.Profiles.{Profile}
use canopen_studio.Profiles.Merge.{
  ResolvedProfile, merge_chain, merge_tables, merge_descriptions, merge_whitelist, last_of,
  profile_ids,
}

-- The definition of the last profile of a chain that has one.
abbrev pub most_specific : {V W : Type 0} → ℤ → ℤ → List (Profile V W) → Option (Definition V)
most_specific mode pid [] = none
most_specific mode pid (p ∷ chain) =
    or_else (most_specific mode pid chain) (get_definition mode pid p.table)

abbrev pub last_wording : {V W : Type 0} → List ℕ → List (Profile V W) → Option (List ℕ)
last_wording code [] = none
last_wording code (p ∷ chain) = or_else (last_wording code chain) (find code p.dtc_descriptions)

abbrev pub whitelists : {V W : Type 0} → List (Profile V W) → List W
whitelists [] = []
whitelists (p ∷ chain) = p.write_whitelist ++ whitelists chain

or_else_assoc {ℓ} :
    {A : Type ℓ} (a b c : Option A) → or_else a (or_else b c) ≡ or_else (or_else a b) c
or_else_assoc (some x) b c = refl
or_else_assoc none b c = refl

or_else-none {ℓ} : {A : Type ℓ} (a : Option A) → or_else a none ≡ a
or_else-none (some x) = refl
or_else-none none = refl

-- The tables of a profile are dictionaries.
abbrev pub WellKeyed : {V W : Type 0} → Profile V W → Type 0
WellKeyed p = IsDict p.table × IsDict p.dtc_descriptions

merge_tables-get :
    {V W : Type 0} (mode pid : ℤ) (table : Table V) (chain : List (Profile V W))
    → All WellKeyed chain
    → get_definition mode pid (merge_tables table chain)
      ≡ or_else (most_specific mode pid chain) (get_definition mode pid table)
unfolding merge_tables
merge_tables-get mode pid table [] h = refl
merge_tables-get mode pid table (p ∷ chain) ((k, w), h) =
    merge_tables-get mode pid (merged_with table p.table) chain h
    ∙ ap (or_else (most_specific mode pid chain)) (merged_with-get mode pid table p.table k)
    ∙ or_else_assoc (most_specific mode pid chain) (get_definition mode pid p.table)
        (get_definition mode pid table)

merge_descriptions-find :
    {V W : Type 0} (code : List ℕ) (found : List (List ℕ × List ℕ)) (chain : List (Profile V W))
    → All WellKeyed chain
    → find code (merge_descriptions found chain)
      ≡ or_else (last_wording code chain) (find code found)
unfolding merge_descriptions
merge_descriptions-find code found [] h = refl
merge_descriptions-find code found (p ∷ chain) ((w, k), h) =
    merge_descriptions-find code (update found p.dtc_descriptions) chain h
    ∙ ap (or_else (last_wording code chain)) (find-update code p.dtc_descriptions found k)
    ∙ or_else_assoc (last_wording code chain) (find code p.dtc_descriptions) (find code found)

merge_whitelist-append :
    {V W : Type 0} (found : List W) (chain : List (Profile V W))
    → merge_whitelist found chain ≡ found ++ whitelists chain
unfolding merge_whitelist
merge_whitelist-append found [] = sym (append-nil found)
merge_whitelist-append found (p ∷ chain) =
    merge_whitelist-append (found ++ p.write_whitelist) chain
    ∙ append_assoc found p.write_whitelist (whitelists chain)

profile_ids-map :
    {V W : Type 0} (chain : List (Profile V W)) → profile_ids chain ≡ map (λ q. q.id) chain
profile_ids-map [] = refl
profile_ids-map (p ∷ chain) = ap (λ ids. p.id ∷ ids) (profile_ids-map chain)

-- Where the tables of its profiles are dictionaries, a merged chain has, for each PID, the definition
-- of the most specific profile that has one, and so for the wording of each trouble code; its
-- whitelist is all of theirs, base first, and its lineage their identifiers; it has the identifier,
-- the name and the rules of the last one.
pub merge_chain-layers :
    {V W : Type 0} (p : Profile V W) (chain : List (Profile V W)) (merged : ResolvedProfile V W)
    (mode pid : ℤ) (code : List ℕ)
    → All WellKeyed (p ∷ chain)
    → merge_chain (p ∷ chain) ≡ ok merged
    → (get_definition mode pid merged.table ≡ most_specific mode pid (p ∷ chain))
      × (find code merged.dtc_descriptions ≡ last_wording code (p ∷ chain))
      × (merged.write_whitelist ≡ whitelists (p ∷ chain))
      × (merged.id ≡ (last_of p chain).id)
      × (merged.name ≡ (last_of p chain).name)
      × (merged.rules ≡ (last_of p chain).rules)
      × (merged.lineage ≡ map (λ q. q.id) (p ∷ chain))
unfolding merge_chain get_definition find
merge_chain-layers p chain merged mode pid code keyed h = rw (sym (ok_injective _ _ h)) (
  merge_tables-get mode pid [] (p ∷ chain) keyed
      ∙ or_else-none (most_specific mode pid (p ∷ chain)),
  merge_descriptions-find code [] (p ∷ chain) keyed ∙ or_else-none (last_wording code (p ∷ chain)),
  merge_whitelist-append [] (p ∷ chain),
  refl,
  refl,
  refl,
  profile_ids-map (p ∷ chain),
)
