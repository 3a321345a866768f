-- ===== src/SubKeyList.antt =====
-- src/sub_key_list_lf.rs, src/sub_key_list_lh.rs, src/sub_key_list_li.rs and src/sub_key_list_ri.rs: the
-- lists of the sub keys of a key. The four structures have the same three fields, and differ in their
-- items and their signatures.
pub mod Roundtrip
pub mod Offsets
pub mod Tree
pub mod Leaves
pub mod Traverse
pub mod Tests
use notatin.Base.{
  ℕ, zero, suc, ◌++◌, none, some, get_from, ℤ, ◌-◌, ◌+◌, ◌%◌, ◌^◌, String, Bool, true, false, List,
  [], ◌∷◌, map, Bytes, ltb, if◌then◌else◌, unsigned_abs,
}
use notatin.Log.{Logs, lit, empty}
use notatin.Outcome.{Outcome, ok, panic, no_fuel, ok_or, buffer, ◌>>=◌ as bind}
use notatin.BaseBlock.{lift}
use notatin.Parser.{FileInfo}
use notatin.Ascii.{from_ascii}
use notatin.Nom.{Nom, Parser, IResult, done, failed, crash, error, ◌>>=◌, ◌>>◌, pure, finish}

pub record SubKeyList (Item : Type 0) : Type 0 where
  pub size : ℕ
  pub count : ℕ
  pub items : List Item

pub record LfItem : Type 0 where
  pub named_key_offset_relative : ℕ
  pub name_hint : List ℕ
  pub logs : Logs

pub record LhItem : Type 0 where
  pub named_key_offset_relative : ℕ
  pub name_hash : ℕ

pub record LiItem : Type 0 where
  pub named_key_offset_relative : ℕ

pub record RiItem : Type 0 where
  pub sub_key_list_offset_relative : ℕ

module _ (nom : Nom) where
  -- The `from_bytes` of the four kinds of items.
  unfoldable pub lf_item_from_bytes : Parser LfItem
  lf_item_from_bytes = do
    named_key_offset_relative ← nom.le_u32
    name_hint ← nom.take_complete 4
    hint ← lift (from_ascii name_hint (lit "SubKeyListLfItem::key_name" ∷ []) empty)
    pure (record {
      named_key_offset_relative = named_key_offset_relative;
      name_hint = hint.0;
      logs = hint.1;
    })

  unfoldable pub lh_item_from_bytes : Parser LhItem
  lh_item_from_bytes = do
    named_key_offset_relative ← nom.le_u32
    name_hash ← nom.le_u32
    pure (record { named_key_offset_relative = named_key_offset_relative; name_hash = name_hash })

  unfoldable pub li_item_from_bytes : Parser LiItem
  li_item_from_bytes = do
    named_key_offset_relative ← nom.le_u32
    pure (record { named_key_offset_relative = named_key_offset_relative })

  unfoldable pub ri_item_from_bytes : Parser RiItem
  ri_item_from_bytes = do
    sub_key_list_offset_relative ← nom.le_u32
    pure (record { sub_key_list_offset_relative = sub_key_list_offset_relative })

  -- The part that the four `from_bytes` of the lists share.
  unfoldable pub list_from_bytes : {Item : Type 0} → Bytes → Parser Item → Parser (SubKeyList Item)
  list_from_bytes signature item = do
    size ← nom.le_i32
    nom.tag signature
    count ← nom.le_u16
    items ← nom.count item count
    pure (record { size = unsigned_abs size; count = count; items = items })

  unfoldable pub lf_from_bytes : Parser (SubKeyList LfItem)
  unfolding list_from_bytes lf_item_from_bytes
  lf_from_bytes = list_from_bytes (0x6c ∷ 0x66 ∷ []) lf_item_from_bytes

  unfoldable pub lh_from_bytes : Parser (SubKeyList LhItem)
  unfolding list_from_bytes lh_item_from_bytes
  lh_from_bytes = list_from_bytes (0x6c ∷ 0x68 ∷ []) lh_item_from_bytes

  unfoldable pub li_from_bytes : Parser (SubKeyList LiItem)
  unfolding list_from_bytes li_item_from_bytes
  li_from_bytes = list_from_bytes (0x6c ∷ 0x69 ∷ []) li_item_from_bytes

  unfoldable pub ri_from_bytes : Parser (SubKeyList RiItem)
  unfolding list_from_bytes ri_item_from_bytes
  ri_from_bytes = list_from_bytes (0x72 ∷ 0x69 ∷ []) ri_item_from_bytes

-- `+` on `u32`, as a release build adds.
abbrev pub absolute : ℕ → ℕ → ℕ
absolute hbin_offset_absolute offset = (offset + hbin_offset_absolute) % 2 ^ 32

-- The four `get_offset_list`. The one of lh lists leaves out what `checked_add` refuses.
unfoldable pub lf_offset_list : ℕ → SubKeyList LfItem → List ℕ
lf_offset_list hbin l = map (λ (x : LfItem). absolute hbin x.named_key_offset_relative) l.items

unfoldable pub li_offset_list : ℕ → SubKeyList LiItem → List ℕ
li_offset_list hbin l = map (λ (x : LiItem). absolute hbin x.named_key_offset_relative) l.items

unfoldable pub ri_offset_list : ℕ → SubKeyList RiItem → List ℕ
ri_offset_list hbin l = map (λ (x : RiItem). absolute hbin x.sub_key_list_offset_relative) l.items

unfoldable pub lh_offsets : ℕ → List LhItem → List ℕ
lh_offsets hbin [] = []
lh_offsets hbin (x ∷ xs) =
    let rest = lh_offsets hbin xs in
    if ltb (x.named_key_offset_relative + hbin) (2 ^ 32)
    then (x.named_key_offset_relative + hbin) ∷ rest
    else rest

unfoldable pub lh_offset_list : ℕ → SubKeyList LhItem → List ℕ
unfolding lh_offsets
lh_offset_list hbin l = lh_offsets hbin l.items

module _ (nom : Nom) where
  -- A list of one of the three kinds that hold key offsets, as its offsets: `Box<dyn CellSubKeyList>`
  -- is used for its `get_offset_list` alone.
  unfoldable pub leaf_from_bytes : ℕ → Parser (List ℕ)
  unfolding lf_from_bytes lh_from_bytes li_from_bytes lf_offset_list lh_offset_list li_offset_list
  leaf_from_bytes hbin =
      nom.alt (do l ← lf_from_bytes nom; pure (lf_offset_list hbin l))
        (nom.alt (do l ← lh_from_bytes nom; pure (lh_offset_list hbin l))
          (do l ← li_from_bytes nom; pure (li_offset_list hbin l)))

-- `SubKeyListRi::parse_offsets`, given the reading of one sub list.
unfoldable pub parse_offsets : (ℕ → Outcome (List ℕ)) → List RiItem → Outcome (List ℕ)
parse_offsets read [] = ok []
parse_offsets read (item ∷ items) =
    bind (read item.sub_key_list_offset_relative)
      λ sub_list. bind (parse_offsets read items) λ list. ok (sub_list ++ list)

module _ (nom : Nom) where
  -- `CellKeyNode::parse_sub_key_list` of src/cell_key_node.rs, on fuel: a list of lists can contain
  -- itself.
  unfoldable pub parse_sub_key_list : ℕ → FileInfo → ℕ → Outcome (List ℕ)
  unfolding parse_offsets leaf_from_bytes
  parse_sub_key_list zero f list_offset_relative = no_fuel
  parse_sub_key_list (suc fuel) f list_offset_relative =
      bind
        (ok_or (get_from f.buffer (list_offset_relative + f.hbin_offset_absolute))
          (buffer "parse_sub_key_list"))
        λ slice. elim (ri_from_bytes nom slice) [
          | done rest ri ↦ parse_offsets (parse_sub_key_list fuel f) ri.items
          | failed e ↦
              bind (finish (leaf_from_bytes nom (f.hbin_offset_absolute % 2 ^ 32) slice))
                λ r. ok r.1
          | crash ↦ panic
        ]

-- `list_offset_relative as usize + hbin_offset_absolute`, as a release build adds: an `i32` below 0
-- is extended to 64 bits.
abbrev pub list_offset : ℤ → ℕ → ℕ
list_offset (ℤ.pos n) hbin = n + hbin
list_offset (ℤ.negsuc n) hbin = (2 ^ 64 - (n + 1) + hbin) % 2 ^ 64

-- `CellKeyNode::parse_key_values` of src/cell_key_node.rs: the offsets of the values of a key.
unfoldable pub parse_key_values : Nom → FileInfo → ℕ → ℤ → IResult (List ℕ)
parse_key_values nom f key_values_count list_offset_relative =
    elim (get_from f.buffer (list_offset list_offset_relative f.hbin_offset_absolute)) [
      | none ↦ failed error
      | some slice ↦
          (nom.le_u32 >>= λ size input. elim (nom.count nom.le_u32 key_values_count input) [
            | done rest list ↦ done input list
            | failed e ↦ failed e
            | crash ↦ crash
          ])
            slice
    ]
