-- ===== src/SubKeyList/Leaves.antt =====
-- The lists of a tree one by one: an lf, lh or li list that is stored is refused as a list of another
-- kind and read as what it is.
use notatin.Base.{
  ℕ, ◌-◌, ◌+◌, ◌^◌, ◌≤◌, ◌<◌, ◌≡◌, refl, ap, ap₂, sym, ◌∙◌, false, List, [], ◌∷◌, ◌++◌, map, Bytes,
  length, take, drop, to_le, length-append, lt→ltb, le→leb, arith,
}
use notatin.Log.{lit, empty}
use notatin.Ascii.Latin.{from_ascii-eq}
use notatin.Nom.{Nom, Parser, NomErr, error, done, failed, starts_with, ◌>>=◌, ◌>>◌, pure}
use notatin.Nom.Encode.{le_u32-to_le, le_i32-to_le}
use notatin.Parser.{FileInfo}
use notatin.SubKeyList.{
  LfItem, LhItem, LiItem, RiItem, lf_item_from_bytes, lh_item_from_bytes, li_item_from_bytes,
  ri_item_from_bytes, list_from_bytes, lf_from_bytes, lh_from_bytes, li_from_bytes, ri_from_bytes,
  absolute, lf_offset_list, lh_offsets, lh_offset_list, li_offset_list, leaf_from_bytes,
}
use notatin.SubKeyList.Roundtrip.{
  AllGood, encode_items, encode_list, list_from_bytes-encode_list, encode_lh, lh_item-encode_lh,
}
use notatin.SubKeyList.Tree.{
  lf_leaf, lh_leaf, li_leaf, key_offsets, encode_lf, encode_li, encode_ri, FitsLf, FitsLhAt, FitsLi,
  FitsRi,
}

-- Chains of readers, one step at a time.
module _ {A B : Type 0} (p : Parser A) (f : A → B) (input : Bytes) where
  then-done :
      (rest : Bytes) (a : A)
      → p input ≡ done rest a
      → (do x ← p; pure (f x)) input ≡ done rest (f a)
  then-done rest a h = rw (h, ◌>>=◌)

  then-failed : (e : NomErr) → p input ≡ failed e → (do x ← p; pure (f x)) input ≡ failed e
  then-failed e h = rw (h, ◌>>=◌)

module _ (nom : Nom) {A : Type 0} (p q : Parser A) (input rest : Bytes) (a : A) where
  alt-first : p input ≡ done rest a → nom.alt p q input ≡ done rest a
  alt-first h = nom.alt_lem p q input ∙ rw h

  alt-second : p input ≡ failed error → q input ≡ done rest a → nom.alt p q input ≡ done rest a
  alt-second h k = nom.alt_lem p q input ∙ rw (h, k)

split_four :
    (hint rest : Bytes)
    → length hint ≡ 4
    → (take 4 (hint ++ rest) ≡ hint) × (drop 4 (hint ++ rest) ≡ rest)
split_four [] rest h = absurd (omega arith)
split_four (a ∷ []) rest h = absurd (omega arith)
split_four (a ∷ b ∷ []) rest h = absurd (omega arith)
split_four (a ∷ b ∷ c ∷ []) rest h = absurd (omega arith)
split_four (a ∷ b ∷ c ∷ d ∷ []) rest h = (refl, refl)
split_four (a ∷ b ∷ c ∷ d ∷ e ∷ more) rest h = absurd (omega arith)

module _ (nom : Nom) where
  take_complete-four :
      (hint rest : Bytes) → length hint ≡ 4 → nom.take_complete 4 (hint ++ rest) ≡ done rest hint
  take_complete-four hint rest four =
      let (front, back) = split_four hint rest four in
      let long : 4 ≤ length (hint ++ rest) = omega (arith, length-append hint rest, four) in
      nom.take_complete_lem 4 (hint ++ rest)
      ∙ rw (le→leb 4 (length (hint ++ rest)) long) (ap₂ done back front)

  -- A list with another signature is refused, so that the next kind is tried.
  list_from_bytes-other :
      {Item Other : Type 0} (encode : Item → Bytes) (item : Parser Other) (c d c' d' size : ℕ)
      (xs : List Item) (rest : Bytes)
      → 0 < size
      → starts_with (c' ∷ d' ∷ []) (c ∷ d ∷ []) ≡ false
      → list_from_bytes nom (c' ∷ d' ∷ []) item (encode_list encode c d size xs rest) ≡ failed error
  unfolding list_from_bytes
  list_from_bytes-other encode item c d c' d' size xs rest pos other =
      let tail = to_le 2 (length xs) ++ (encode_items encode xs ++ rest) in
      rw
        (
          le_i32-to_le nom (2 ^ 32 - size) (c ∷ d ∷ tail) (omega arith),
          nom.tag_lem (c' ∷ d' ∷ []) (c ∷ d ∷ tail),
          other,
          list_from_bytes,
          ◌>>=◌,
          ◌>>◌,
        )
        refl

  lf_item-encode_lf :
      (hbin : ℕ) (x : LfItem) (rest : Bytes)
      → FitsLf hbin x
      → lf_item_from_bytes nom (encode_lf x ++ rest) ≡ done rest x
  unfolding lf_item_from_bytes
  lf_item-encode_lf hbin x rest (small, bytes, four, quiet) =
      rw
        (
          le_u32-to_le nom x.named_key_offset_relative (x.name_hint ++ rest) (omega arith),
          take_complete-four x.name_hint rest four,
          from_ascii-eq x.name_hint (lit "SubKeyListLfItem::key_name" ∷ []) empty bytes,
          lf_item_from_bytes,
          ◌>>=◌,
        )
        (ap
          (λ t. done rest (record {
            named_key_offset_relative = x.named_key_offset_relative;
            name_hint = x.name_hint;
            logs = t;
          }))
          (sym quiet))

  li_item-encode_li :
      (hbin : ℕ) (x : LiItem) (rest : Bytes)
      → FitsLi hbin x
      → li_item_from_bytes nom (encode_li x ++ rest) ≡ done rest x
  unfolding li_item_from_bytes
  li_item-encode_li hbin x rest h =
      rw (le_u32-to_le nom x.named_key_offset_relative rest (omega arith), ◌>>=◌)

  pub ri_item-encode_ri :
      (x : RiItem) (rest : Bytes)
      → FitsRi x
      → ri_item_from_bytes nom (encode_ri x ++ rest) ≡ done rest x
  unfolding ri_item_from_bytes
  ri_item-encode_ri x rest h = rw (le_u32-to_le nom x.sub_key_list_offset_relative rest h, ◌>>=◌)

-- Offsets that stay below 2 ^ 32.
module _ {Item : Type 0} (hbin : ℕ) (offset : Item → ℕ) (Fits : Item → Type 0)
    (small : (x : Item) → Fits x → offset x + hbin < 2 ^ 32) where
  map-absolute :
      (xs : List Item)
      → AllGood Fits xs
      → map (λ x. absolute hbin (offset x)) xs ≡ map (λ x. offset x + hbin) xs
  map-absolute [] h = refl
  map-absolute (x ∷ xs) h =
      let below = small x h.0 in ap₂ (λ y ys. y ∷ ys) (omega arith) (map-absolute xs h.1)

lh_offsets-eq :
    (hbin : ℕ) (xs : List LhItem)
    → AllGood (FitsLhAt hbin) xs
    → lh_offsets hbin xs ≡ map (λ (x : LhItem). x.named_key_offset_relative + hbin) xs
unfolding lh_offsets
lh_offsets-eq hbin [] h = refl
lh_offsets-eq hbin (x ∷ xs) h =
    rw (lt→ltb (x.named_key_offset_relative + hbin) (2 ^ 32) h.0.0, lh_offsets-eq hbin xs h.1)

-- A list that is no ri list, as its offsets.
module _ (nom : Nom) (f : FileInfo) where
  abbrev pub IsLeaf : Bytes → List ℕ → Type 0
  IsLeaf slice offsets =
      (ri_from_bytes nom slice ≡ failed error)
      × (rest : Bytes) × (leaf_from_bytes nom f.hbin_offset_absolute slice ≡ done rest offsets)

  pub lf_leaf-IsLeaf :
      (size : ℕ) (xs : List LfItem) (rest : Bytes)
      → 0 < size
      → size ≤ 2 ^ 31
      → length xs < 2 ^ 16
      → AllGood (FitsLf f.hbin_offset_absolute) xs
      → IsLeaf
          (encode_list encode_lf 0x6c 0x66 size xs rest)
          (key_offsets f.hbin_offset_absolute (lf_leaf size xs))
  unfolding leaf_from_bytes ri_from_bytes
  lf_leaf-IsLeaf size xs rest pos fits short good =
      let hbin = f.hbin_offset_absolute in
      let slice = encode_list encode_lf 0x6c 0x66 size xs rest in
      (
        list_from_bytes-other nom encode_lf (ri_item_from_bytes nom) 0x6c 0x66 0x72 0x69 size xs
            rest pos refl,
        rest,
        alt-first nom _ _ slice rest _ (
              then-done (lf_from_bytes nom) (lf_offset_list hbin) slice rest _ (
                list_from_bytes-encode_list nom encode_lf (lf_item_from_bytes nom) (FitsLf hbin)
                  (lf_item-encode_lf nom hbin) 0x6c 0x66 size xs rest pos fits short good))
            ∙ ap (done rest) (
                map-absolute hbin (λ (x : LfItem). x.named_key_offset_relative) (FitsLf hbin)
                  (λ x h. h.0) xs good),
      )

  pub lh_leaf-IsLeaf :
      (size : ℕ) (xs : List LhItem) (rest : Bytes)
      → 0 < size
      → size ≤ 2 ^ 31
      → length xs < 2 ^ 16
      → AllGood (FitsLhAt f.hbin_offset_absolute) xs
      → IsLeaf
          (encode_list encode_lh 0x6c 0x68 size xs rest)
          (key_offsets f.hbin_offset_absolute (lh_leaf size xs))
  unfolding leaf_from_bytes ri_from_bytes
  lh_leaf-IsLeaf size xs rest pos fits short good =
      let hbin = f.hbin_offset_absolute in
      let slice = encode_list encode_lh 0x6c 0x68 size xs rest in
      (
        list_from_bytes-other nom encode_lh (ri_item_from_bytes nom) 0x6c 0x68 0x72 0x69 size xs
            rest pos refl,
        rest,
        alt-second nom _ _ slice rest _
              (then-failed (lf_from_bytes nom) (lf_offset_list hbin) slice error (
                list_from_bytes-other nom encode_lh (lf_item_from_bytes nom) 0x6c 0x68 0x6c 0x66
                  size xs rest pos refl))
              (alt-first nom _ _ slice rest _ (
                then-done (lh_from_bytes nom) (lh_offset_list hbin) slice rest _ (
                  list_from_bytes-encode_list nom encode_lh (lh_item_from_bytes nom) (FitsLhAt hbin)
                    (λ x rest h. lh_item-encode_lh nom x rest h.1) 0x6c 0x68 size xs rest pos fits
                    short good)))
            ∙ ap (done rest) (lh_offsets-eq hbin xs good),
      )

  pub li_leaf-IsLeaf :
      (size : ℕ) (xs : List LiItem) (rest : Bytes)
      → 0 < size
      → size ≤ 2 ^ 31
      → length xs < 2 ^ 16
      → AllGood (FitsLi f.hbin_offset_absolute) xs
      → IsLeaf
          (encode_list encode_li 0x6c 0x69 size xs rest)
          (key_offsets f.hbin_offset_absolute (li_leaf size xs))
  unfolding leaf_from_bytes ri_from_bytes
  li_leaf-IsLeaf size xs rest pos fits short good =
      let hbin = f.hbin_offset_absolute in
      let slice = encode_list encode_li 0x6c 0x69 size xs rest in
      (
        list_from_bytes-other nom encode_li (ri_item_from_bytes nom) 0x6c 0x69 0x72 0x69 size xs
            rest pos refl,
        rest,
        alt-second nom _ _ slice rest _
              (then-failed (lf_from_bytes nom) (lf_offset_list hbin) slice error (
                list_from_bytes-other nom encode_li (lf_item_from_bytes nom) 0x6c 0x69 0x6c 0x66
                  size xs rest pos refl))
              (alt-second nom _ _ slice rest _
                (then-failed (lh_from_bytes nom) (lh_offset_list hbin) slice error (
                  list_from_bytes-other nom encode_li (lh_item_from_bytes nom) 0x6c 0x69 0x6c 0x68
                    size xs rest pos refl))
                (then-done (li_from_bytes nom) (li_offset_list hbin) slice rest _ (
                  list_from_bytes-encode_list nom encode_li (li_item_from_bytes nom) (FitsLi hbin)
                    (li_item-encode_li nom hbin) 0x6c 0x69 size xs rest pos fits short good)))
            ∙ ap (done rest) (
                map-absolute hbin (λ (x : LiItem). x.named_key_offset_relative) (FitsLi hbin)
                  (λ x h. h) xs good),
      )
