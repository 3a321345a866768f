-- ===== src/Iterator/Tests.antt =====
-- The iteration over a file whose only key lists itself as its sub key.
use notatin.Base.{
  ℕ, zero, suc, ◌≡◌, refl, Option, none, some, true, false, List, [], ◌∷◌, ◌++◌, replicate,
}
use notatin.Outcome.{Outcome, ok, err, panic, no_fuel}
use notatin.Nom.Reader.{reader}
use notatin.Parser.{FileInfo}
use notatin.State.{get}
use notatin.SubKeyList.{ri_from_bytes}
use notatin.Filter.{Regexes, Filter}
use notatin.KeyNode.{
  CellKeyNode, cell_key_node, fields, is_filter_match_or_descendent, no_nodes, more_nodes,
}
use notatin.KeyNode.Modified.{State}
use notatin.KeyNode.Read.{Env, read}
use notatin.KeyNode.SubKeys.{SubKeys, read_sub_keys_internal}
use notatin.KeyNode.Within.{Good, read_sub_keys_internal-Good}
use notatin.Iterator.{ParserIteratorContext, from_parser, default_node, offset_of}
use notatin.Iterator.Next.{next_key_postorder, count_all_keys_and_values}
use notatin.Iterator.Drains.{GivesOrStuck, count_all_keys_and_values_ends}

abbrev no_regexes : Regexes
no_regexes = record { Regex = ℕ; new = λ _. none; is_match = λ _ _. false }

abbrev env : Env
env = record { nom = reader; regexes = no_regexes; blake3 = λ bs. []; fuel = 3 }

-- The key "R" in 84 bytes, and its list of sub keys, whose only item is offset 0.
abbrev loop_file : FileInfo
loop_file = record {
  hbin_offset_absolute = 0;
  buffer =
      (0xac ∷ 0xff ∷ 0xff ∷ 0xff ∷ 0x6e ∷ 0x6b ∷ 0x24 ∷ 0 ∷ replicate 12 0)
      ++ (0 ∷ 0 ∷ 0 ∷ 0 ∷ 1 ∷ 0 ∷ 0 ∷ 0 ∷ 0 ∷ 0 ∷ 0 ∷ 0 ∷ 84 ∷ 0 ∷ 0 ∷ 0 ∷ replicate 40 0)
      ++ (1 ∷ 0 ∷ 0 ∷ 0 ∷ 0x52 ∷ 0 ∷ 0 ∷ 0 ∷ [])
      ++ (0xf4 ∷ 0xff ∷ 0xff ∷ 0xff ∷ 0x6c ∷ 0x69 ∷ 1 ∷ 0 ∷ 0 ∷ 0 ∷ 0 ∷ 0 ∷ []);
}

abbrev no_maps : State
no_maps = record {
  deleted_keys = [];
  deleted_values = [];
  modified_keys = [];
  modified_values = [];
  key_path_root_offset = 0;
}

abbrev no_filter : Filter no_regexes
no_filter = record { reg_query = none }

abbrev key_of : Outcome (Option CellKeyNode × State) → CellKeyNode
key_of (ok (some n, st)) = n
key_of (ok (none, st)) = default_node
key_of (err _) = default_node
key_of panic = default_node
key_of no_fuel = default_node

abbrev root : CellKeyNode
root = key_of (
    read env loop_file no_maps (record {
      offset = 0;
      cur_path = [];
      filter = none;
      self_is_filter_match_or_descendent = true;
      sequence_num = none;
      get_deleted_and_modified = true;
    }))

root_name : (fields root).path ≡ 0x5c ∷ 0x52 ∷ []
unfolding read get
root_name = refl

loop_count : count_all_keys_and_values env 5 loop_file no_maps (some root) no_filter ≡ ok (1, 0)
unfolding count_all_keys_and_values read get ri_from_bytes
loop_count = refl

count_all_keys_and_values_ends_example :
    (fuel : ℕ) × GivesOrStuck {e = env} loop_file
      (from_parser no_maps (some root) true no_filter false)
      (count_all_keys_and_values env fuel loop_file no_maps (some root) no_filter)
count_all_keys_and_values_ends_example =
    count_all_keys_and_values_ends env loop_file no_maps (some root) no_filter

abbrev children_of : Outcome SubKeys → SubKeys
children_of (ok r) = r
children_of (err _) = record { children = []; found_key = false; node = root; state = no_maps }
children_of panic = record { children = []; found_key = false; node = root; state = no_maps }
children_of no_fuel = record { children = []; found_key = false; node = root; state = no_maps }

abbrev sub_keys : SubKeys
sub_keys = children_of (read_sub_keys_internal env loop_file no_filter none true root no_maps)

read_sub_keys_internal-Good_example : Good loop_file root sub_keys
unfolding read_sub_keys_internal read get ri_from_bytes is_filter_match_or_descendent
read_sub_keys_internal-Good_example =
    read_sub_keys_internal-Good env loop_file no_filter none true root no_maps sub_keys refl

-- A root with one sub key, at offset 96, and one deleted key, at offset 500.
abbrev family_file : FileInfo
family_file = record {
  hbin_offset_absolute = 0;
  buffer =
      replicate 84 0
      ++ (0xf4 ∷ 0xff ∷ 0xff ∷ 0xff ∷ 0x6c ∷ 0x69 ∷ 1 ∷ 0 ∷ 96 ∷ 0 ∷ 0 ∷ 0 ∷ [])
      ++ (0xac ∷ 0xff ∷ 0xff ∷ 0xff ∷ 0x6e ∷ 0x6b ∷ 0x20 ∷ 0 ∷ replicate 68 0)
      ++ (1 ∷ 0 ∷ 0 ∷ 0 ∷ 0x53 ∷ 0 ∷ 0 ∷ 0 ∷ []);
}

abbrev deleted_key : CellKeyNode
deleted_key =
    cell_key_node (record (fields default_node) { file_offset_absolute = 500 }) no_nodes no_nodes

abbrev family_root : CellKeyNode
family_root =
    cell_key_node
      (record (fields default_node) {
        detail = record (fields default_node).detail {
          number_of_sub_keys = 1;
          sub_keys_list_offset_relative = 84;
        };
      })
      no_nodes (more_nodes deleted_key no_nodes)

-- The offsets of the keys that are returned, in their order.
abbrev postorder : ℕ → ParserIteratorContext env → List ℕ
postorder zero c = []
postorder (suc n) c = elim (next_key_postorder 9 family_file c) [
  | ok (none, d) ↦ []
  | ok (some key, d) ↦ offset_of key ∷ postorder n d
  | err _ ↦ []
  | panic ↦ []
  | no_fuel ↦ []
]

-- The root is returned before its sub key.
root_too_early :
    postorder 5 (from_parser no_maps (some family_root) true no_filter false) ≡ 500 ∷ 0 ∷ 96 ∷ []
unfolding next_key_postorder get ri_from_bytes from_parser is_filter_match_or_descendent
root_too_early = refl
