-- ===== src/KeyNode/Offsets.antt =====
-- The keys that are read stand where they were asked for, and their cells lie inside the file.
use notatin.Base.{
  ℕ, zero, suc, ◌≤◌, ◌≡◌, refl, sym, ap, ◌∙◌, Bool, true, false, Option, none, some, Bytes, length,
  get_from, leb, leb→le, arith, Bool-cases, inl, inr, if_both, ltb, ◌&&◌, ◌+◌, ℤ, drop,
  unsigned_abs, length-drop,
}
use notatin.Outcome.{Outcome, ok, ok_or, buffer, ◌>>=◌, >>=-eq-ok, ok_injective}
use notatin.Nom.{finish}
use notatin.Parser.{FileInfo}
use notatin.Filter.{filter_key_match, filter_no_match}
use notatin.KeyNode.{
  KeyFields, CellKeyNode, cell_key_node, fields, with_fields, from_bytes, min_cell_key_size,
}
use notatin.KeyNode.Values.{read_values}
use notatin.KeyNode.Modified.{
  State, deleted_keys_at, is_deleted_primary_file, update_modified_lists,
}
use notatin.KeyNode.Read.{
  Env, CellKeyNodeReadOptions, accept, with_values, with_match, contains, wanted_values,
  should_read_values, filter_flags, read_from_slice, read,
}
use notatin.KeyNode.Sized.{from_bytes-Sized, finish-Has}

-- Where a key stands: the offset that it was read at and the size of its cell.
abbrev pub place : KeyFields → ℕ × ℤ
place k = (k.file_offset_absolute, k.detail.size)

abbrev At : ℕ × ℤ → CellKeyNode → Type 0
At p n = place (fields n) ≡ p

-- The whole cell, of 72 bytes or more, lies in the first `bound` bytes.
abbrev pub CellWithin : ℕ → KeyFields → Type 0
CellWithin bound k =
    (min_cell_key_size ≤ unsigned_abs k.detail.size)
    × (k.file_offset_absolute + unsigned_abs k.detail.size ≤ bound)

with_fields-At :
    (p : ℕ × ℤ) (n : CellKeyNode) (k : KeyFields) → place k ≡ p → At p (with_fields n k)
with_fields-At p (cell_key_node k' older deleted) k h = h

same_place : (p : ℕ × ℤ) (n m : CellKeyNode) → At p n → ok n ≡ ok m → At p m
same_place p n m h e = ap (λ t. place (fields t)) (sym (ok_injective e)) ∙ h

update_modified_lists-At :
    (fuel : ℕ) (p : ℕ × ℤ) (st : State) (n m : CellKeyNode)
    → At p n
    → update_modified_lists fuel st n ≡ ok m
    → At p m
unfolding update_modified_lists
update_modified_lists-At zero p st n m h e = absurd cc
update_modified_lists-At (suc fuel) p st (cell_key_node k older deleted) m h e =
    elim (Bool-cases (is_deleted_primary_file k.cell_state)) [
      | inl primary ↦
          same_place p (cell_key_node k older deleted) m h
            (rw (primary, update_modified_lists) at e)
      | inr other ↦
          let (dks, _, last) =
            >>=-eq-ok (deleted_keys_at (update_modified_lists fuel st) st k deleted) _
              (rw (other, update_modified_lists) at e) in
          same_place p _ m h last
    ]

-- A key that is given was accepted.
accepted :
    (refused : Bool) (o : Outcome CellKeyNode) (st st' : State) (n : CellKeyNode)
    → (elim refused as (λ _. Outcome (Option CellKeyNode × State)) [
      | true ↦ ok (none, st)
      | false ↦ o >>= λ n. ok (some n, st)
    ])
      ≡ ok (some n, st')
    → o ≡ ok n
accepted true o st st' n h = absurd cc
accepted false o st st' n h =
    let (m, e, last) = >>=-eq-ok o _ h in let same : m ≡ n = cc in e ∙ ap ok same

get_from-length :
    (bytes slice : Bytes) (offset : ℕ)
    → ok_or (get_from bytes offset) (buffer "cell_key_node::read") ≡ ok slice
    → offset + length slice ≡ length bytes
get_from-length bytes slice offset h = elim (Bool-cases (leb offset (length bytes))) [
  | inl inside ↦
      let same : drop offset bytes ≡ slice = ok_injective (rw (inside) at h) in
      omega (arith, ap length same, length-drop offset bytes, leb→le offset (length bytes) inside)
  | inr past ↦ absurd (ground (arith, past, h))
]

module _ (e : Env) (f : FileInfo) where
  with_values-place :
      (k k' : KeyFields) (seq : Option ℕ) → with_values e f k seq ≡ ok k' → place k' ≡ place k
  unfolding with_values
  with_values-place k k' seq h =
      let (r, _, last) = >>=-eq-ok (read_values e.nom e.blake3 f k seq) _ h in
      ap place (sym (ok_injective last))

  wanted_values-place :
      (options : CellKeyNodeReadOptions e) (flags : ℕ) (k k' : KeyFields)
      → wanted_values e f options flags k ≡ ok k'
      → place k' ≡ place k
  unfolding wanted_values
  wanted_values-place options flags k k' =
      if_both (λ o. o ≡ ok k' → place k' ≡ place k)
        (ltb 0 k.detail.number_of_key_values
          && should_read_values e options.filter flags options.self_is_filter_match_or_descendent)
        (with_values-place k k' options.sequence_num) (λ h. ap place (sym (ok_injective h)))

  with_match-place : (flags : ℕ) (k : KeyFields) → place (with_match e flags k) ≡ place k
  with_match-place flags k =
      if_both (λ (k' : KeyFields). place k' ≡ place k) (contains flags filter_key_match) refl refl

  accept-At :
      (p : ℕ × ℤ) (flags : ℕ) (st : State) (options : CellKeyNodeReadOptions e) (n m : CellKeyNode)
      → At p n
      → accept e f st options flags n ≡ ok m
      → At p m
  unfolding accept
  accept-At p flags st options n m h a =
      let (k, wanted, last) = >>=-eq-ok (wanted_values e f options flags (fields n)) _ a in
      let here : At p (with_fields n (with_match e flags k)) =
        with_fields-At p n (with_match e flags k)
          (with_match-place flags k ∙ wanted_values-place options flags (fields n) k wanted ∙ h) in
      elim (Bool-cases options.get_deleted_and_modified) [
        | inl modified ↦
            update_modified_lists-At e.fuel p st (with_fields n (with_match e flags k)) m here
              (rw (modified) at last)
        | inr plain ↦
            same_place p (with_fields n (with_match e flags k)) m here (rw (plain) at last)
      ]

  -- The whole cell of a key that is read, where there is one, lies in the file.
  pub read-CellWithin :
      (st st' : State) (options : CellKeyNodeReadOptions e) (n : CellKeyNode)
      → read e f st options ≡ ok (some n, st')
      → CellWithin (length f.buffer) (fields n)
  unfolding read read_from_slice
  read-CellWithin st st' options n h =
      let (slice, found, run) =
        >>=-eq-ok (ok_or (get_from f.buffer options.offset) (buffer "cell_key_node::read")) _ h in
      let (cell, parsed, checked) =
        >>=-eq-ok
          (finish
            (from_bytes e.nom e.blake3 options.offset options.cur_path options.sequence_num slice))
          _ run in
      let (flags, _, last) =
        >>=-eq-ok (filter_flags e st options.filter (fields cell.1)) _ checked in
      let (at, sized) =
        finish-Has _ _
          (from_bytes-Sized e.nom e.blake3 options.offset options.cur_path options.sequence_num
            slice)
          cell parsed in
      let kept : place (fields n) ≡ place (fields cell.1) =
        accept-At (place (fields cell.1)) flags.0 (record st { key_path_root_offset = flags.1 })
          options cell.1 n refl
          (accepted (contains flags.0 filter_no_match) _
            (record st { key_path_root_offset = flags.1 }) st' n last) in
      let inside = get_from-length f.buffer slice options.offset found in
      let size : (fields n).detail.size ≡ (fields cell.1).detail.size = ap (λ t. t.1) kept in
      let offset : (fields n).file_offset_absolute ≡ options.offset = ap (λ t. t.0) kept ∙ at in
      (rw size sized.0, rw (size, offset) (omega (arith, sized.1, inside)))
