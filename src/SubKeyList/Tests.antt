-- ===== src/SubKeyList/Tests.antt =====
-- Runs on an lh list of two items, and on a list of lists that holds itself.
use notatin.Base.{◌≡◌, refl, [], ◌∷◌, List, drop, arith}
use notatin.Outcome.{ok, no_fuel}
use notatin.Nom.{done}
use notatin.Nom.Reader.{reader}
use notatin.Parser.{FileInfo}
use notatin.SubKeyList.{
  SubKeyList, LhItem, RiItem, lh_from_bytes, ri_from_bytes, parse_sub_key_list,
}
use notatin.SubKeyList.Roundtrip.{encode_items, encode_list, encode_lh, lh_from_bytes-encode_list}
use notatin.SubKeyList.Tree.{Branches, no_branches, branch, li_leaf, lh_leaf, inner, key_offsets}
use notatin.SubKeyList.Traverse.{parse_sub_key_list-Holds}
use notatin.SubKeyList.Offsets.{parse_sub_key_list_cyclic}

abbrev two_keys : List LhItem
two_keys =
    record { named_key_offset_relative = 4600; name_hash = 0x11223344 }
    ∷ record { named_key_offset_relative = 9000; name_hash = 7 }
    ∷ []

lh_from_bytes-encode_list_example :
    lh_from_bytes reader (encode_list encode_lh 0x6c 0x68 24 two_keys (9 ∷ []))
    ≡ done (9 ∷ []) (record { size = 24; count = 2; items = two_keys })
lh_from_bytes-encode_list_example =
    lh_from_bytes-encode_list reader 24 two_keys (9 ∷ []) (omega arith) (omega arith) (omega arith)
      ((omega arith, omega arith), ((omega arith, omega arith), tt))

-- An ri list of an li and an lh list, in a file whose bins begin at 4; the second stands first.
abbrev two_branches : Branches
two_branches = branch 32 (li_leaf 12 (record { named_key_offset_relative = 88 } ∷ [])) (
    branch 16 (lh_leaf 16 (record { named_key_offset_relative = 500; name_hash = 7 } ∷ []))
      no_branches)

abbrev tree_file : FileInfo
tree_file = record {
  hbin_offset_absolute = 4;
  buffer =
      9
      ∷ 9
      ∷ 9
      ∷ 9
      ∷ (0xf0 ∷ 0xff ∷ 0xff ∷ 0xff ∷ 0x72 ∷ 0x69 ∷ 2 ∷ 0 ∷ 32 ∷ 0 ∷ 0 ∷ 0 ∷ 16 ∷ 0 ∷ 0 ∷ 0 ∷ 0xf0
          ∷ 0xff ∷ 0xff ∷ 0xff ∷ 0x6c ∷ 0x68 ∷ 1 ∷ 0 ∷ 0xf4 ∷ 1 ∷ 0 ∷ 0 ∷ 7 ∷ 0 ∷ 0 ∷ 0 ∷ 0xf4
          ∷ 0xff ∷ 0xff ∷ 0xff ∷ 0x6c ∷ 0x69 ∷ 1 ∷ 0 ∷ 88 ∷ 0 ∷ 0 ∷ 0 ∷ []);
}

parse_sub_key_list-Holds_example :
    parse_sub_key_list reader 2 tree_file 0 ≡ ok (key_offsets 4 (inner 16 two_branches))
unfolding encode_items
parse_sub_key_list-Holds_example =
    parse_sub_key_list-Holds reader tree_file (omega arith) 2 0 (inner 16 two_branches)
      (
        ((drop 20 tree_file.buffer, refl), omega arith, omega arith, omega arith),
        (omega arith, (omega arith, tt)),
        (
          ((([], refl), omega arith, omega arith, omega arith), (omega arith, tt)),
          (
            (
              ((drop 36 tree_file.buffer, refl), omega arith, omega arith, omega arith),
              ((omega arith, (omega arith, omega arith)), tt),
            ),
            tt,
          ),
        ),
      )
      (omega arith)

-- "ri", one item, the offset 0.
abbrev looping : FileInfo
looping = record {
  hbin_offset_absolute = 0;
  buffer = 0xf0 ∷ 0xff ∷ 0xff ∷ 0xff ∷ 0x72 ∷ 0x69 ∷ 1 ∷ 0 ∷ 0 ∷ 0 ∷ 0 ∷ 0 ∷ [];
}

abbrev looping_list : SubKeyList RiItem
looping_list = record {
  size = 16;
  count = 1;
  items = record { sub_key_list_offset_relative = 0 } ∷ [];
}

looping_read : ri_from_bytes reader looping.buffer ≡ done [] looping_list
unfolding ri_from_bytes
looping_read = refl

parse_sub_key_list_cyclic_example : parse_sub_key_list reader 100 looping 0 ≡ no_fuel
parse_sub_key_list_cyclic_example =
    parse_sub_key_list_cyclic reader looping 0 looping.buffer [] looping_list [] refl looping_read
      refl 100
