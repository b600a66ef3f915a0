-- ===== src/Profiles.antt =====
-- src/canopen_studio/diag/profiles/model.py: profiles as they are written, and the merge of a chain
-- of them. library.py and resolver.py are in the modules below. A document is taken after YAML has
-- read it; texts are code points, taken to be ASCII. Paths and display forms are left out.
pub mod Merge
pub mod Library
pub mod Chains
pub mod Merged
pub mod Cache
pub mod Scores
pub mod Resolver
pub mod Supported
pub mod Evidence
pub mod Matches
pub mod Answers
mod Examples
use canopen_studio.Prelude.{
  ℕ, Bool, true, false, not, ◌&&◌, ◌||◌, Option, none, some, List, [], ◌∷◌, ◌++◌, map,
  if◌then◌else◌, Result, ok, err, ◌>>=◌,
}
use canopen_studio.Prelude.Dict.{Key, put, update, text_same}
use canopen_studio.Prelude.Text.{codes, strip, upper, text_eq}
use canopen_studio.Pids.{PidError, parse_key}
use canopen_studio.Pids.Decode.{Entry}
use canopen_studio.Pids.Table.{Table, add_entries, merged_with}

abbrev pub base_profile_id : List ℕ
base_profile_id = codes "j1979_base"

-- An identifier that is missing; a malformed rule; a malformed entry; an unknown profile; an unknown
-- parent; a loop; a chain that is too long; the base profile missing; an empty chain.
pub data ProfileError : Type 0 where
  needs_an_id malformed_rule bad_pid_entry unknown_profile unknown_parent inheritance_loops too_deep
        base_missing empty_chain :
      ProfileError

pub record MatchRules : Type 0 where
  pub wmi : List (List ℕ)
  pub vin_prefixes : List (List ℕ)
  pub year_from : Option ℕ
  pub year_to : Option ℕ
  pub required_pids : List Key
  pub forbidden_pids : List Key
  pub ecu_name_contains : List (List ℕ)

abbrev pub any {ℓ} : {A : Type ℓ} → List A → Bool
any [] = false
any (a ∷ rest) = true

abbrev pub given {ℓ} : {A : Type ℓ} → Option A → Bool
given (some a) = true
given none = false

unfoldable pub is_empty : MatchRules → Bool
is_empty rules = not (
    any rules.wmi
    || any rules.vin_prefixes
    || given rules.year_from
    || given rules.year_to
    || any rules.required_pids
    || any rules.forbidden_pids
    || any rules.ecu_name_contains)

-- The rules as a document has them; what is missing is an empty list.
pub record MatchEntry : Type 0 where
  pub wmi : List (List ℕ)
  pub vin_prefixes : List (List ℕ)
  pub year_from : Option ℕ
  pub year_to : Option ℕ
  pub required_pids : List (List ℕ)
  pub forbidden_pids : List (List ℕ)
  pub ecu_name_contains : List (List ℕ)

unfoldable pub as_tuple : List (List ℕ) → List (List ℕ)
unfolding strip upper
as_tuple [] = []
as_tuple (item ∷ items) =
    let rest = as_tuple items in if any (strip item) then map upper (strip item) ∷ rest else rest

abbrev pub rule_key : Result PidError Key → Result ProfileError Key
rule_key (ok key) = ok key
rule_key (err e) = err malformed_rule

unfoldable pub as_pids : List (List ℕ) → Result ProfileError (List Key)
unfolding parse_key
as_pids [] = ok []
as_pids (item ∷ items) =
    rule_key (parse_key item) >>= λ key. as_pids items >>= λ keys. ok (key ∷ keys)

unfoldable pub rules_of : MatchEntry → Result ProfileError MatchRules
unfolding as_tuple as_pids
rules_of entry = as_pids entry.required_pids >>= λ required.
    as_pids entry.forbidden_pids >>= λ forbidden. ok (record {
      wmi = as_tuple entry.wmi;
      vin_prefixes = as_tuple entry.vin_prefixes;
      year_from = entry.year_from;
      year_to = entry.year_to;
      required_pids = required;
      forbidden_pids = forbidden;
      ecu_name_contains = as_tuple entry.ecu_name_contains;
    })

-- The type of whitelist entries is left open.
pub record Document (V W : Type 0) : Type 0 where
  pub id : List ℕ
  pub name : List ℕ
  pub extends : Option (List ℕ)
  pub pids : List (List ℕ × Entry V)
  pub dtcs : List (List ℕ × List ℕ)
  pub match_section : MatchEntry
  pub write_whitelist : List W

pub record Profile (V W : Type 0) : Type 0 where
  pub id : List ℕ
  pub name : List ℕ
  pub extends : Option (List ℕ)
  pub table : Table V
  pub dtc_descriptions : List (List ℕ × List ℕ)
  pub rules : MatchRules
  pub write_whitelist : List W

abbrev pub non_empty : List ℕ → Option (List ℕ)
non_empty [] = none
non_empty (c ∷ text) = some (c ∷ text)

-- `extends` as the profile keeps it.
abbrev pub parent_of : List ℕ → Option (List ℕ) → Option (List ℕ)
parent_of id none = if text_eq id base_profile_id then none else non_empty base_profile_id
parent_of id (some extends) = non_empty extends

abbrev pub entries_table : {V : Type 0} → Result PidError (Table V) → Result ProfileError (Table V)
entries_table (ok table) = ok table
entries_table (err e) = err bad_pid_entry

abbrev pub upper_keys : List (List ℕ × List ℕ) → List (List ℕ × List ℕ) → List (List ℕ × List ℕ)
upper_keys found [] = found
upper_keys found ((k, v) ∷ dtcs) = upper_keys (put (map upper k) v found) dtcs

unfoldable pub profile_of : {V W : Type 0} → Document V W → Result ProfileError (Profile V W)
unfolding strip upper put add_entries rules_of
profile_of document =
    let profile_id = strip document.id in
    if not (any profile_id)
    then err needs_an_id
    else (entries_table (add_entries [] document.pids) >>= λ table.
        rules_of document.match_section >>= λ rules. ok (record {
          id = profile_id;
          name = if any document.name then document.name else profile_id;
          extends = parent_of profile_id document.extends;
          table = table;
          dtc_descriptions = upper_keys [] document.dtcs;
          rules = rules;
          write_whitelist = document.write_whitelist;
        }))
