-- ===== src/KeyNode/Modified.antt =====
-- src/cell_key_node.rs, `update_modified_lists`: what recovery found of a key and its values is taken
-- from the maps of the state. Of src/state.rs, the fields of `State` that the reading of keys uses.
use notatin.Base.{
  ℕ, zero, suc, Bool, true, false, Option, none, some, List, [], ◌∷◌, ◌++◌, map, leb, ltb, ◌==◌,
  if◌then◌else◌,
}
use notatin.Outcome.{Outcome, ok, no_fuel, ◌>>=◌}
use notatin.State.{Map, PairMap, get, get_modified}
use notatin.Value.Cell.{
  CellState, deleted_primary_file, deleted_primary_file_slack, CellKeyValue, cell_key_value,
  Versions, no_versions, version,
}
use notatin.KeyNode.{
  KeyFields, CellKeyNode, cell_key_node, KeyNodes, fields, to_list, of_list, is_key_root,
}

pub record State : Type 0 where
  pub deleted_keys : Map CellKeyNode
  pub deleted_values : Map CellKeyValue
  pub modified_keys : Map CellKeyNode
  pub modified_values : PairMap CellKeyValue
  pub key_path_root_offset : ℕ

unfoldable pub is_deleted_primary_file : CellState → Bool
is_deleted_primary_file deleted_primary_file = true
is_deleted_primary_file deleted_primary_file_slack = true
is_deleted_primary_file _ = false

-- `sort_by`, which is stable: `first a b` is whether `a`, which stood before `b`, stays before it.
module _ {A : Type 0} (first : A → A → Bool) where
  unfoldable pub insert_by : A → List A → List A
  insert_by a [] = a ∷ []
  insert_by a (b ∷ bs) = let rest = insert_by a bs in if first a b then a ∷ (b ∷ bs) else b ∷ rest

  unfoldable pub sort_by : List A → List A
  unfolding insert_by
  sort_by [] = []
  sort_by (a ∷ as_left) = insert_by a (sort_by as_left)

-- The order of `Option<u32>`.
abbrev pub number_leb : Option ℕ → Option ℕ → Bool
number_leb none b = true
number_leb (some a) none = false
number_leb (some a) (some b) = leb a b

-- The order of strings.
abbrev pub text_leb : List ℕ → List ℕ → Bool
text_leb [] ys = true
text_leb (x ∷ xs) [] = false
text_leb (x ∷ xs) (y ∷ ys) =
    let rest = text_leb xs ys in if ltb x y then true else if x == y then rest else false

abbrev pub newer_key : CellKeyNode → CellKeyNode → Bool
newer_key a b = number_leb (fields b).sequence_num (fields a).sequence_num

abbrev pub newer_value : CellKeyValue → CellKeyValue → Bool
newer_value (cell_key_value a _) (cell_key_value b _) = number_leb b.sequence_num a.sequence_num

abbrev pub name_before : CellKeyValue → CellKeyValue → Bool
name_before (cell_key_value a _) (cell_key_value b _) =
    text_leb a.detail.value_name b.detail.value_name

abbrev pub versions_of : List CellKeyValue → Versions
versions_of [] = no_versions
versions_of (v ∷ vs) = version v (versions_of vs)

-- The older versions of a value of the key at `path`.
unfoldable pub with_versions : State → List ℕ → CellKeyValue → CellKeyValue
unfolding sort_by
with_versions st path (cell_key_value v older) =
    elim (get_modified st.modified_values path v.detail.value_name) [
      | none ↦ cell_key_value v older
      | some modified_values ↦ cell_key_value v (versions_of (sort_by newer_value modified_values))
    ]

-- The values that were deleted, by name.
unfoldable pub deleted_at : State → List ℕ → List CellKeyValue
unfolding sort_by
deleted_at st path = elim (get st.deleted_values path) [
  | none ↦ []
  | some deleted_values ↦ sort_by name_before deleted_values
]

unfoldable pub versions_at : State → List ℕ → KeyNodes → KeyNodes
unfolding sort_by
versions_at st path older = elim (get st.modified_keys path) [
  | none ↦ older
  | some modified_keys ↦ of_list (sort_by newer_key modified_keys)
]

-- The loop over the deleted keys, given the update of one: a key at the same offset is left as it is.
unfoldable pub update_each :
    (CellKeyNode → Outcome CellKeyNode) → ℕ → List CellKeyNode → Outcome (List CellKeyNode)
update_each update offset [] = ok []
update_each update offset (dk ∷ dks) = do
  key ← elim ((fields dk).file_offset_absolute == offset) [ true ↦ ok dk | false ↦ update dk ]
  rest ← update_each update offset dks
  ok (key ∷ rest)

abbrev pub lookup_path : KeyFields → List ℕ
lookup_path k = if is_key_root k then [] else k.path

-- The deleted keys of a key, given the update of one.
unfoldable pub deleted_keys_at :
    (CellKeyNode → Outcome CellKeyNode) → State → KeyFields → KeyNodes → Outcome (List CellKeyNode)
unfolding update_each
deleted_keys_at update st k deleted = elim (get st.deleted_keys (lookup_path k)) [
  | none ↦ ok (to_list deleted)
  | some dks ↦ update_each update k.file_offset_absolute dks
]

-- The descent into deleted keys is on fuel: a deleted key can stand in the map under its own path.
unfoldable pub update_modified_lists : ℕ → State → CellKeyNode → Outcome CellKeyNode
unfolding deleted_keys_at is_deleted_primary_file with_versions deleted_at versions_at
update_modified_lists zero st n = no_fuel
update_modified_lists (suc fuel) st (cell_key_node k older deleted) =
    elim (is_deleted_primary_file k.cell_state) [
      | true ↦ ok (cell_key_node k older deleted)
      | false ↦ do
        deleted_keys ← deleted_keys_at (update_modified_lists fuel st) st k deleted
        ok (
            cell_key_node
              (record k {
                sub_values =
                    map (with_versions st (lookup_path k)) k.sub_values
                    ++ deleted_at st (lookup_path k);
              })
              (versions_at st (lookup_path k) older) (of_list deleted_keys))
    ]
