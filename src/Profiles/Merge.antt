-- ===== src/Profiles/Merge.antt =====
-- `ResolvedProfile` and `merge_chain`.
use canopen_studio.Prelude.{ℕ, List, [], ◌∷◌, ◌++◌, Result, ok, err}
use canopen_studio.Prelude.Dict.{update, text_same}
use canopen_studio.Pids.Table.{Table, merged_with}
use canopen_studio.Profiles.{Profile, ProfileError, empty_chain, MatchRules}

pub record ResolvedProfile (V W : Type 0) : Type 0 where
  pub id : List ℕ
  pub name : List ℕ
  pub table : Table V
  pub dtc_descriptions : List (List ℕ × List ℕ)
  pub rules : MatchRules
  pub write_whitelist : List W
  pub lineage : List (List ℕ)

abbrev pub last_of {ℓ} : {A : Type ℓ} → A → List A → A
last_of a [] = a
last_of a (b ∷ rest) = last_of b rest

-- The loop of `merge_chain` over the profiles, with the table, the wordings and the whitelist.
unfoldable pub merge_tables : {V W : Type 0} → Table V → List (Profile V W) → Table V
unfolding merged_with
merge_tables table [] = table
merge_tables table (p ∷ chain) = merge_tables (merged_with table p.table) chain

unfoldable pub merge_descriptions :
    {V W : Type 0} → List (List ℕ × List ℕ) → List (Profile V W) → List (List ℕ × List ℕ)
unfolding update
merge_descriptions found [] = found
merge_descriptions found (p ∷ chain) = merge_descriptions (update found p.dtc_descriptions) chain

unfoldable pub merge_whitelist : {V W : Type 0} → List W → List (Profile V W) → List W
merge_whitelist found [] = found
merge_whitelist found (p ∷ chain) = merge_whitelist (found ++ p.write_whitelist) chain

abbrev pub profile_ids : {V W : Type 0} → List (Profile V W) → List (List ℕ)
profile_ids [] = []
profile_ids (p ∷ chain) = p.id ∷ profile_ids chain

unfoldable pub merge_chain :
    {V W : Type 0} → List (Profile V W) → Result ProfileError (ResolvedProfile V W)
unfolding merge_tables merge_descriptions merge_whitelist
merge_chain [] = err empty_chain
merge_chain (p ∷ chain) =
    let leaf = last_of p chain in
    ok (record {
      id = leaf.id;
      name = leaf.name;
      table = merge_tables [] (p ∷ chain);
      dtc_descriptions = merge_descriptions [] (p ∷ chain);
      rules = leaf.rules;
      write_whitelist = merge_whitelist [] (p ∷ chain);
      lineage = profile_ids (p ∷ chain);
    })
