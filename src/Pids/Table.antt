-- ===== src/Pids/Table.antt =====
-- `PidTable`.
use canopen_studio.Prelude.{
  ℕ, ◌≡◌, refl, sym, Bool-cases, inl, inr, Option, none, some, List, [], ◌∷◌, if◌then◌else◌, Result,
  ok, ◌>>=◌, arith, bind_inv,
}
use canopen_studio.Prelude.Dict.{
  Key, key_eq, key_eq_iff, key_same, find, put, update, IsDict, or_else, find-update, put-IsDict,
}
use canopen_studio.Prelude.Int.{ℤ}
use canopen_studio.Prelude.Text.{text_eq}
use canopen_studio.Pids.{Definition, PidError}
use canopen_studio.Pids.Decode.{Entry, definition_of}

abbrev pub Table : Type 0 → Type 0
Table V = List (Key × Definition V)

unfoldable pub add_definition : {V : Type 0} → Definition V → Table V → Table V
add_definition d table = put (d.mode, d.pid) d table

unfoldable pub get_definition : {V : Type 0} → ℤ → ℤ → Table V → Option (Definition V)
get_definition mode pid table = find (mode, pid) table

unfoldable pub by_name : {V : Type 0} → List ℕ → Table V → Option (Definition V)
by_name name [] = none
by_name name ((key, d) ∷ table) = if text_eq d.name name then some d else by_name name table

unfoldable pub merged_with : {V : Type 0} → Table V → Table V → Table V
merged_with table other = update table other

-- The loop of `PidTable.from_mapping` over the entries of a file.
unfoldable pub add_entries :
    {V : Type 0} → Table V → List (List ℕ × Entry V) → Result PidError (Table V)
unfolding add_definition definition_of
add_entries table [] = ok table
add_entries table ((key, entry) ∷ entries) =
    definition_of key entry >>= λ d. add_entries (add_definition d table) entries

-- A definition is filed under its own key.
abbrev pub Filed : {V : Type 0} → Table V → Type 0
Filed [] = Unit
Filed ((key, d) ∷ table) = (key ≡ (d.mode, d.pid)) × Filed table

pub put-Filed :
    {V : Type 0} (d : Definition V) (table : Table V) → Filed table → Filed (add_definition d table)
unfolding add_definition put
put-Filed d [] h = (refl, tt)
put-Filed d ((key, c) ∷ table) (p, h) = elim (Bool-cases (key_eq key (d.mode, d.pid))) [
  | inl t ↦ rw t ((key_eq_iff key (d.mode, d.pid)).0 t, h)
  | inr t ↦ rw t (p, put-Filed d table h)
]

-- A table read from a file has no key twice and every definition under its own key.
pub add_entries-Filed :
    {V : Type 0} (table result : Table V) (entries : List (List ℕ × Entry V))
    → add_entries table entries ≡ ok result
    → IsDict table × Filed table
    → IsDict result × Filed result
unfolding add_entries
add_entries-Filed table result [] h k = let e : table ≡ result = ground (arith, h) in rw (sym e) k
add_entries-Filed table result ((key, entry) ∷ entries) h (k, l) =
    let (d, e, h') = bind_inv (definition_of key entry) _ _ h in
    add_entries-Filed (add_definition d table) result entries h'
      (unfold add_definition in put-IsDict (d.mode, d.pid) d table k, put-Filed d table l)

-- Merged tables: the entries of the second are looked up first.
pub merged_with-get :
    {V : Type 0} (mode pid : ℤ) (table other : Table V)
    → IsDict other
    → get_definition mode pid (merged_with table other)
      ≡ or_else (get_definition mode pid other) (get_definition mode pid table)
unfolding get_definition merged_with
merged_with-get mode pid table other h = find-update (mode, pid) other table h
