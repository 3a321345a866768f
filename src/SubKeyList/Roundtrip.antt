-- ===== src/SubKeyList/Roundtrip.antt =====
-- Lists of sub keys that are written and read back.
use notatin.Base.{
  ℕ, ◌-◌, ◌^◌, ◌≤◌, ◌<◌, ◌≡◌, ap, ◌∙◌, List, [], ◌∷◌, ◌++◌, Bytes, length, to_le, le→leb, arith,
  append_assoc, true,
}
use notatin.Nom.{Nom, Parser, done, starts_with, ◌>>=◌, ◌>>◌}
use notatin.Nom.Encode.{le_u32-to_le, le_u16-to_le, le_i32-to_le, cell_size, cell_size_abs}
use notatin.SubKeyList.{LhItem, lh_item_from_bytes, list_from_bytes, lh_from_bytes}

module _ {Item : Type 0} (encode : Item → Bytes) where
  unfoldable pub encode_items : List Item → Bytes
  encode_items [] = []
  encode_items (x ∷ xs) = encode x ++ encode_items xs

  -- A list with the two bytes of its signature.
  abbrev pub encode_list : ℕ → ℕ → ℕ → List Item → Bytes → Bytes
  encode_list c d size items rest =
      cell_size size ++ (c ∷ d ∷ (to_le 2 (length items) ++ (encode_items items ++ rest)))

abbrev pub AllGood : {Item : Type 0} → (Item → Type 0) → List Item → Type 0
AllGood Good [] = Unit
AllGood Good (x ∷ xs) = Good x × AllGood Good xs

module _ (nom : Nom) {Item : Type 0} (encode : Item → Bytes) (item : Parser Item)
    (Good : Item → Type 0)
    (reads : (x : Item) (rest : Bytes) → Good x → item (encode x ++ rest) ≡ done rest x) where
  pub count-encode_items :
      (xs : List Item) (rest : Bytes)
      → AllGood Good xs
      → nom.count item (length xs) (encode_items encode xs ++ rest) ≡ done rest xs
  unfolding encode_items
  count-encode_items [] rest h = nom.count-zero item rest
  count-encode_items (x ∷ xs) rest h =
      nom.count-suc item (length xs) ((encode x ++ encode_items encode xs) ++ rest)
      ∙ rw (
        append_assoc (encode x) (encode_items encode xs) rest,
        reads x (encode_items encode xs ++ rest) h.0,
        count-encode_items xs rest h.1,
        ◌>>=◌,
      )

  pub list_from_bytes-encode_list :
      (c d size : ℕ) (xs : List Item) (rest : Bytes)
      → 0 < size
      → size ≤ 2 ^ 31
      → length xs < 2 ^ 16
      → AllGood Good xs
      → list_from_bytes nom (c ∷ d ∷ []) item (encode_list encode c d size xs rest)
        ≡ done rest (record { size = size; count = length xs; items = xs })
  unfolding list_from_bytes
  list_from_bytes-encode_list c d size xs rest pos fits short good =
      let sized =
        le_i32-to_le nom (2 ^ 32 - size)
          (c ∷ d ∷ (to_le 2 (length xs) ++ (encode_items encode xs ++ rest))) (omega arith) in
      let tagged =
        nom.tag_lem (c ∷ d ∷ [])
          (c ∷ d ∷ (to_le 2 (length xs) ++ (encode_items encode xs ++ rest))) in
      let signed : starts_with (c ∷ d ∷ [])
            (c ∷ d ∷ (to_le 2 (length xs) ++ (encode_items encode xs ++ rest)))
          ≡ true =
        rw (le→leb c c (omega arith), le→leb d d (omega arith)) in
      let counted = le_u16-to_le nom (length xs) (encode_items encode xs ++ rest) short in
      rw
        (
          sized,
          tagged,
          signed,
          counted,
          count-encode_items xs rest good,
          list_from_bytes,
          ◌>>=◌,
          ◌>>◌,
        )
        (ap (λ t. done rest (record { size = t; count = length xs; items = xs }))
          (cell_size_abs size pos fits))

abbrev pub encode_lh : LhItem → Bytes
encode_lh x = to_le 4 x.named_key_offset_relative ++ to_le 4 x.name_hash

abbrev pub FitsLh : LhItem → Type 0
FitsLh x = (x.named_key_offset_relative < 2 ^ 32) × (x.name_hash < 2 ^ 32)

pub lh_item-encode_lh :
    (nom : Nom) (x : LhItem) (rest : Bytes)
    → FitsLh x
    → lh_item_from_bytes nom (encode_lh x ++ rest) ≡ done rest x
unfolding lh_item_from_bytes
lh_item-encode_lh nom x rest h = rw (
  le_u32-to_le nom x.named_key_offset_relative (to_le 4 x.name_hash ++ rest) h.0,
  le_u32-to_le nom x.name_hash rest h.1,
  ◌>>=◌,
)

-- An lh list of fewer than 2 ^ 16 items whose fields are words of 32 bits, in a cell of at most 2 ^ 31
-- bytes that is in use, is read back from its encoding, and what stands behind it is left.
pub lh_from_bytes-encode_list :
    (nom : Nom) (size : ℕ) (xs : List LhItem) (rest : Bytes)
    → 0 < size
    → size ≤ 2 ^ 31
    → length xs < 2 ^ 16
    → AllGood FitsLh xs
    → lh_from_bytes nom (encode_list encode_lh 0x6c 0x68 size xs rest)
      ≡ done rest (record { size = size; count = length xs; items = xs })
unfolding lh_from_bytes
lh_from_bytes-encode_list nom size xs rest pos fits short good =
    list_from_bytes-encode_list nom encode_lh (lh_item_from_bytes nom) FitsLh
      (lh_item-encode_lh nom) 0x6c 0x68 size xs rest pos fits short good
