-- ===== src/Deleted/Marks.antt =====
-- The marks of the cells that the search for deleted cells adds, and what an addition leaves as it was.
use notatin.Base.{◌≡◌, refl, ◌∙◌, Bool-cases, inl, inr, List, [], ◌∷◌, ◌++◌, Bytes}
use notatin.State.{Map, same_text, add}
use notatin.Value.Cell.{
  CellState, deleted_primary_file, deleted_primary_file_slack, CellKeyValue, cell_key_value,
}
use notatin.KeyNode.{CellKeyNode, cell_key_node}
use notatin.KeyNode.Modified.{State}
use notatin.Deleted.{Recovered, add_value, add_key}

-- The states that the search gives to what it finds.
abbrev pub IsMarked : CellState → Type 0
IsMarked deleted_primary_file = Unit
IsMarked deleted_primary_file_slack = Unit
IsMarked _ = ⊥

abbrev pub All : {V : Type 0} → (V → Type 0) → List V → Type 0
All P [] = Unit
All P (v ∷ vs) = P v × All P vs

abbrev pub AllIn : {V : Type 0} → (V → Type 0) → Map V → Type 0
AllIn P [] = Unit
AllIn P ((k, vs) ∷ m) = All P vs × AllIn P m

abbrev pub MarkedValue : CellKeyValue → Type 0
MarkedValue (cell_key_value v older) = IsMarked v.cell_state

abbrev pub MarkedKey : CellKeyNode → Type 0
MarkedKey (cell_key_node k older deleted) = IsMarked k.cell_state

-- Every key and every value in the maps of deleted cells is marked as deleted in the primary file.
abbrev pub Marked : State → Type 0
Marked st = AllIn MarkedValue st.deleted_values × AllIn MarkedKey st.deleted_keys

-- From one state to another: the maps of modified cells and the kept offset are the same, and the marks
-- are kept.
abbrev pub Kept : Recovered → Recovered → Type 0
Kept st st' =
    (st'.state.modified_keys ≡ st.state.modified_keys)
    × (st'.state.modified_values ≡ st.state.modified_values)
    × (st'.state.key_path_root_offset ≡ st.state.key_path_root_offset)
    × (Marked st.state → Marked st'.state)

pub Kept-refl : (st : Recovered) → Kept st st
Kept-refl st = (refl, refl, refl, λ m. m)

pub Kept-trans : (a b c : Recovered) → Kept a b → Kept b c → Kept a c
Kept-trans a b c (k, v, o, m) (k', v', o', m') = (k' ∙ k, v' ∙ v, o' ∙ o, λ h. m' (m h))

All-append :
    {V : Type 0} (P : V → Type 0) (vs : List V) (v : V) → All P vs → P v → All P (vs ++ v ∷ [])
All-append P [] v h p = (p, tt)
All-append P (w ∷ ws) v (h, hs) p = (h, All-append P ws v hs p)

add-AllIn :
    {V : Type 0} (P : V → Type 0) (m : Map V) (key : Bytes) (v : V)
    → AllIn P m
    → P v
    → AllIn P (add m key v)
unfolding add
add-AllIn P [] key v h p = ((p, tt), tt)
add-AllIn P ((k, vs) ∷ m) key v (h, hs) p = elim (Bool-cases (same_text k key)) [
  | inl same ↦ rw (same, add) (All-append P vs v h p, hs)
  | inr other ↦ rw (other, add) (h, add-AllIn P m key v hs p)
]

pub add_value-Kept :
    (s : CellState) (v : CellKeyValue) (st : Recovered) → IsMarked s → Kept st (add_value s v st)
add_value-Kept s (cell_key_value v older) st marked =
    (refl, refl, refl, λ m. (add-AllIn MarkedValue st.state.deleted_values [] _ (m.0) marked, m.1))

pub add_key-Kept :
    (s : CellState) (n : CellKeyNode) (st : Recovered) → IsMarked s → Kept st (add_key s n st)
add_key-Kept s (cell_key_node k older deleted) st marked =
    (refl, refl, refl, λ m. (m.0, add-AllIn MarkedKey st.state.deleted_keys [] _ (m.1) marked))
