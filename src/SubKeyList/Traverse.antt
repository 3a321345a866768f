-- ===== src/SubKeyList/Traverse.antt =====
-- The reading of a tree of lists: every list is recognised by its signature, and the lists of an ri
-- list are read from left to right.
use notatin.Base.{
  ℕ, zero, suc, ◌+◌, ◌%◌, ◌^◌, ◌≤◌, ◌<◌, ◌≡◌, refl, ap, ◌∙◌, some, List, [], ◌∷◌, ◌++◌, Bytes,
  length, get_from, arith,
}
use notatin.Outcome.{Outcome, ok, ◌>>=◌ as bind}
use notatin.Nom.{Nom, done, finish}
use notatin.Parser.{FileInfo}
use notatin.SubKeyList.{
  RiItem, ri_item_from_bytes, ri_from_bytes, leaf_from_bytes, parse_offsets, parse_sub_key_list,
}
use notatin.SubKeyList.Roundtrip.{AllGood, encode_list, list_from_bytes-encode_list}
use notatin.SubKeyList.Tree.{
  Tree, lf_leaf, lh_leaf, li_leaf, inner, Branches, no_branches, branch, key_offsets,
  branch_offsets, height, heights, ri_items, encode_ri, FitsRi, Holds, HoldsAll,
}
use notatin.SubKeyList.Leaves.{
  IsLeaf, lf_leaf-IsLeaf, lh_leaf-IsLeaf, li_leaf-IsLeaf, ri_item-encode_ri,
}

module _ (read : ℕ → Outcome (List ℕ)) where
  parse_offsets-nil : parse_offsets read [] ≡ ok []
  unfolding parse_offsets
  parse_offsets-nil = refl

  parse_offsets-cons :
      (offset : ℕ) (items : List RiItem) (first more : List ℕ)
      → read offset ≡ ok first
      → parse_offsets read items ≡ ok more
      → parse_offsets read (record { sub_key_list_offset_relative = offset } ∷ items)
        ≡ ok (first ++ more)
  unfolding parse_offsets
  parse_offsets-cons offset items first more h k = rw (h, k, bind)

module _ (nom : Nom) (f : FileInfo) (small : f.hbin_offset_absolute < 2 ^ 32) where
  leaf_step :
      (fuel offset : ℕ) (slice : Bytes) (offsets : List ℕ)
      → get_from f.buffer (offset + f.hbin_offset_absolute) ≡ some slice
      → IsLeaf nom f slice offsets
      → parse_sub_key_list nom (suc fuel) f offset ≡ ok offsets
  unfolding parse_sub_key_list
  leaf_step fuel offset slice offsets here (other, rest, read) =
      let hbin : f.hbin_offset_absolute % 2 ^ 32 ≡ f.hbin_offset_absolute = omega arith in
      rw (here, other, bind, parse_sub_key_list)
        (ap (λ t. bind (finish (leaf_from_bytes nom t slice)) λ r. ok r.1) hbin
          ∙ ap (λ t. bind (finish t) λ r. ok r.1) read)

  inner_step :
      (fuel offset size : ℕ) (items : List RiItem) (rest : Bytes)
      → 0 < size
      → size ≤ 2 ^ 31
      → length items < 2 ^ 16
      → AllGood FitsRi items
      → get_from f.buffer (offset + f.hbin_offset_absolute)
        ≡ some (encode_list encode_ri 0x72 0x69 size items rest)
      → parse_sub_key_list nom (suc fuel) f offset
        ≡ parse_offsets (parse_sub_key_list nom fuel f) items
  unfolding parse_sub_key_list ri_from_bytes
  inner_step fuel offset size items rest pos fits short good here =
      let read : ri_from_bytes nom (encode_list encode_ri 0x72 0x69 size items rest)
          ≡ done rest (record { size = size; count = length items; items = items }) =
        list_from_bytes-encode_list nom encode_ri (ri_item_from_bytes nom) FitsRi
          (ri_item-encode_ri nom) 0x72 0x69 size items rest pos fits short good in
      rw (here, read, bind, parse_sub_key_list) refl

  mutual
    parse_tree :
        (fuel offset : ℕ) (t : Tree)
        → Holds f offset t
        → height t ≤ fuel
        → parse_sub_key_list nom fuel f offset ≡ ok (key_offsets f.hbin_offset_absolute t)
    parse_tree zero offset (lf_leaf size xs) held high = absurd (omega arith)
    parse_tree zero offset (lh_leaf size xs) held high = absurd (omega arith)
    parse_tree zero offset (li_leaf size xs) held high = absurd (omega arith)
    parse_tree zero offset (inner size bs) held high = absurd (omega arith)
    parse_tree (suc fuel) offset (lf_leaf size xs) (((rest, here), pos, fits, short), good) high =
        leaf_step fuel offset _ _ here (lf_leaf-IsLeaf nom f size xs rest pos fits short good)
    parse_tree (suc fuel) offset (lh_leaf size xs) (((rest, here), pos, fits, short), good) high =
        leaf_step fuel offset _ _ here (lh_leaf-IsLeaf nom f size xs rest pos fits short good)
    parse_tree (suc fuel) offset (li_leaf size xs) (((rest, here), pos, fits, short), good) high =
        leaf_step fuel offset _ _ here (li_leaf-IsLeaf nom f size xs rest pos fits short good)
    parse_tree (suc fuel) offset (inner size bs) (((rest, here), pos, fits, short), good, all)
          high =
        inner_step fuel offset size (ri_items bs) rest pos fits short good here
        ∙ parse_branches fuel bs all (omega arith)

    parse_branches :
        (fuel : ℕ) (bs : Branches)
        → HoldsAll f bs
        → heights bs ≤ fuel
        → parse_offsets (parse_sub_key_list nom fuel f) (ri_items bs)
          ≡ ok (branch_offsets f.hbin_offset_absolute bs)
    parse_branches fuel no_branches held high = parse_offsets-nil (parse_sub_key_list nom fuel f)
    parse_branches fuel (branch offset t bs) (held, all) high =
        parse_offsets-cons (parse_sub_key_list nom fuel f) offset (ri_items bs) _ _
          (parse_tree fuel offset t held (omega arith)) (parse_branches fuel bs all (omega arith))

  -- The file holds a tree of lists whose leaves are lf, lh and li lists and whose inner nodes are ri
  -- lists: with as much fuel as the tree is high, its reading succeeds and gives the absolute offsets of
  -- the keys of all leaves, from left to right. The hive bins begin below 2 ^ 32, every cell is in use,
  -- of at most 2 ^ 31 bytes and of fewer than 2 ^ 16 items whose fields have their widths, and no
  -- absolute key offset leaves 32 bits.
  pub parse_sub_key_list-Holds :
      (fuel offset : ℕ) (t : Tree)
      → Holds f offset t
      → height t ≤ fuel
      → parse_sub_key_list nom fuel f offset ≡ ok (key_offsets f.hbin_offset_absolute t)
  parse_sub_key_list-Holds fuel offset t held high = parse_tree fuel offset t held high
