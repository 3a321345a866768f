-- ===== src/SubKeyList/Tree.antt =====
-- `parse_sub_key_list` of src/cell_key_node.rs on lists of lists: the file holds a tree whose leaves are
-- lf, lh and li lists and whose inner nodes are ri lists.
use notatin.Base.{
  ℕ, suc, ◌+◌, ◌^◌, ◌≤◌, ◌<◌, max, ◌≡◌, some, List, [], ◌∷◌, ◌++◌, map, Bytes, IsBytes, length,
  to_le, get_from,
}
use notatin.Log.{empty}
use notatin.Parser.{FileInfo}
use notatin.SubKeyList.{LfItem, LhItem, LiItem, RiItem}
use notatin.SubKeyList.Roundtrip.{AllGood, encode_list, encode_lh, FitsLh}

-- A tree of lists with the sizes of their cells. A branch has the offset of its list.
mutual
  pub data Tree : Type 0 where
    lf_leaf : ℕ → List LfItem → Tree
    lh_leaf : ℕ → List LhItem → Tree
    li_leaf : ℕ → List LiItem → Tree
    inner : ℕ → Branches → Tree

  pub data Branches : Type 0 where
    no_branches : Branches
    branch : ℕ → Tree → Branches → Branches

-- The offsets of the keys of all leaves, from left to right.
abbrev mutual
  pub key_offsets : ℕ → Tree → List ℕ
  key_offsets hbin (lf_leaf size xs) = map (λ (x : LfItem). x.named_key_offset_relative + hbin) xs
  key_offsets hbin (lh_leaf size xs) = map (λ (x : LhItem). x.named_key_offset_relative + hbin) xs
  key_offsets hbin (li_leaf size xs) = map (λ (x : LiItem). x.named_key_offset_relative + hbin) xs
  key_offsets hbin (inner size bs) = branch_offsets hbin bs

  pub branch_offsets : ℕ → Branches → List ℕ
  branch_offsets hbin no_branches = []
  branch_offsets hbin (branch offset t bs) = key_offsets hbin t ++ branch_offsets hbin bs

abbrev mutual
  pub height : Tree → ℕ
  height (lf_leaf size xs) = 1
  height (lh_leaf size xs) = 1
  height (li_leaf size xs) = 1
  height (inner size bs) = suc (heights bs)

  pub heights : Branches → ℕ
  heights no_branches = 0
  heights (branch offset t bs) = max (height t) (heights bs)

abbrev pub ri_items : Branches → List RiItem
ri_items no_branches = []
ri_items (branch offset t bs) = record { sub_key_list_offset_relative = offset } ∷ ri_items bs

abbrev pub encode_lf : LfItem → Bytes
encode_lf x = to_le 4 x.named_key_offset_relative ++ x.name_hint

abbrev pub encode_li : LiItem → Bytes
encode_li x = to_le 4 x.named_key_offset_relative

abbrev pub encode_ri : RiItem → Bytes
encode_ri x = to_le 4 x.sub_key_list_offset_relative

-- The items that the lists can hold; where the bins begin, the offsets stay below 2 ^ 32.
abbrev pub FitsLf : ℕ → LfItem → Type 0
FitsLf hbin x =
    (x.named_key_offset_relative + hbin < 2 ^ 32)
    × IsBytes x.name_hint
    × (length x.name_hint ≡ 4)
    × (x.logs ≡ empty)

abbrev pub FitsLhAt : ℕ → LhItem → Type 0
FitsLhAt hbin x = (x.named_key_offset_relative + hbin < 2 ^ 32) × FitsLh x

abbrev pub FitsLi : ℕ → LiItem → Type 0
FitsLi hbin x = x.named_key_offset_relative + hbin < 2 ^ 32

abbrev pub FitsRi : RiItem → Type 0
FitsRi x = x.sub_key_list_offset_relative < 2 ^ 32

-- The file holds the cell of a list at an offset.
abbrev pub StoredList :
    {Item : Type 0} → FileInfo → ℕ → (Item → Bytes) → ℕ → ℕ → ℕ → List Item → Type 0
StoredList f offset encode c d size xs =
    ((rest : Bytes) × (get_from f.buffer (offset + f.hbin_offset_absolute)
        ≡ some (encode_list encode c d size xs rest)))
    × (0 < size)
    × (size ≤ 2 ^ 31)
    × (length xs < 2 ^ 16)

-- The file holds the tree, whose first list stands at the offset.
abbrev mutual
  pub Holds : FileInfo → ℕ → Tree → Type 0
  Holds f offset (lf_leaf size xs) =
      StoredList f offset encode_lf 0x6c 0x66 size xs × AllGood (FitsLf f.hbin_offset_absolute) xs
  Holds f offset (lh_leaf size xs) =
      StoredList f offset encode_lh 0x6c 0x68 size xs × AllGood (FitsLhAt f.hbin_offset_absolute) xs
  Holds f offset (li_leaf size xs) =
      StoredList f offset encode_li 0x6c 0x69 size xs × AllGood (FitsLi f.hbin_offset_absolute) xs
  Holds f offset (inner size bs) =
      StoredList f offset encode_ri 0x72 0x69 size (ri_items bs)
      × AllGood FitsRi (ri_items bs)
      × HoldsAll f bs

  pub HoldsAll : FileInfo → Branches → Type 0
  HoldsAll f no_branches = Unit
  HoldsAll f (branch offset t bs) = Holds f offset t × HoldsAll f bs
