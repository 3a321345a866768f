-- ===== src/KeyNode/Within.antt =====
-- What the reading of sub keys gives: keys that stand in the file, and the key itself with its deleted
-- keys as they were.
use notatin.Base.{
  ℕ, ◌*◌, ◌≡◌, refl, ap, sym, ◌∙◌, Bool, Option, none, some, List, [], ◌∷◌, length, Option-cases,
  inl, inr, if_both, ltb, ◌==◌, not,
}
use notatin.Outcome.{
  Outcome, ok, >>=-eq-ok, ok_injective, Outcome-cases, panic_is_no_value, no_fuel_is_no_value,
}
use notatin.Parser.{FileInfo}
use notatin.Filter.{Filter, is_valid}
use notatin.SubKeyList.{parse_sub_key_list}
use notatin.KeyNode.{
  KeyFields, CellKeyNode, cell_key_node, fields, with_fields, deleted_keys,
  is_filter_match_or_descendent,
}
use notatin.KeyNode.Modified.{State}
use notatin.KeyNode.Read.{Env, read}
use notatin.KeyNode.Offsets.{place, CellWithin, read-CellWithin}
use notatin.KeyNode.SubKeys.{
  SubKeys, inherit, is_allocated, sub_options, unparsed_sub_key, no_sub_keys, unparsed_list, listed,
  sub_keys_loop, read_sub_keys_internal,
}

-- The whole cells of all keys lie in the first `bound` bytes.
abbrev pub AllWithin : ℕ → List CellKeyNode → Type 0
AllWithin bound [] = Unit
AllWithin bound (n ∷ ns) = CellWithin bound (fields n) × AllWithin bound ns

pub with_fields-deleted_keys :
    (n : CellKeyNode) (k : KeyFields) → deleted_keys (with_fields n k) ≡ deleted_keys n
with_fields-deleted_keys (cell_key_node k' older deleted) k = refl

with_fields-fields : (n : CellKeyNode) (k : KeyFields) → fields (with_fields n k) ≡ k
with_fields-fields (cell_key_node k' older deleted) k = refl

inherit-place : (p v : Bool) (n : CellKeyNode) → place (fields (inherit p v n)) ≡ place (fields n)
unfolding inherit
inherit-place p v (cell_key_node k older deleted) =
    elim (Option-cases k.iteration_state.filter_state) [
      | inl unset ↦ rw unset (
          if_both (λ n. place (fields n) ≡ place k) p refl
            (if_both (λ n. place (fields n) ≡ place k) v refl refl))
      | inr (s, set) ↦ rw set refl
    ]

CellWithin-place :
    (bound : ℕ) (n m : CellKeyNode)
    → place (fields m) ≡ place (fields n)
    → CellWithin bound (fields n)
    → CellWithin bound (fields m)
CellWithin-place bound n m same h =
    let offset : (fields m).file_offset_absolute ≡ (fields n).file_offset_absolute =
      ap (λ t. t.0) same in
    let size : (fields m).detail.size ≡ (fields n).detail.size = ap (λ t. t.1) same in
    (rw size h.0, rw (size, offset) h.1)

-- What is kept of the key `n` whose sub keys are read, and where they stand.
abbrev pub Good : FileInfo → CellKeyNode → SubKeys → Type 0
Good f n r = AllWithin (length f.buffer) r.children × (deleted_keys r.node ≡ deleted_keys n)

module _ (e : Env) (f : FileInfo) (filter : Filter e.regexes) (seq : Option ℕ)
    (modified : Bool) where
  sub_keys_loop-Good :
      (vals : List ℕ) (n : CellKeyNode) (st : State) (r : SubKeys)
      → sub_keys_loop e f filter seq modified vals n st ≡ ok r
      → Good f n r
  unfolding sub_keys_loop
  sub_keys_loop-Good [] n st r h = rw (sym (ok_injective h)) (tt, refl)
  sub_keys_loop-Good (val ∷ vals) n st r h =
      elim (Outcome-cases (read e f st (sub_options e filter seq modified n val))) [
        | inl ((none, st'), o) ↦ sub_keys_loop-Good vals n st' r (rw (o, sub_keys_loop) at h)
        | inl ((some kn, st'), o) ↦
            let (rest, loop, last) =
              >>=-eq-ok (sub_keys_loop e f filter seq modified vals n st') _
                (rw (o, sub_keys_loop) at h) in
            let (within, kept) = sub_keys_loop-Good vals n st' rest loop in
            rw (sym (ok_injective last)) (
              (
                CellWithin-place (length f.buffer) kn
                    (inherit (is_filter_match_or_descendent (fields n)) (is_valid filter) kn)
                    (inherit-place (is_filter_match_or_descendent (fields n)) (is_valid filter) kn)
                    (read-CellWithin e f st st' (sub_options e filter seq modified n val) kn o),
                within,
              ),
              kept,
            )
        | inr (inl (detail, o)) ↦
            let (within, kept) =
              sub_keys_loop-Good vals (unparsed_sub_key val n) st r (rw (o, sub_keys_loop) at h) in
            (within, kept ∙ with_fields-deleted_keys n _)
        | inr (inr (inl o)) ↦ absurd (panic_is_no_value (rw (o, sub_keys_loop) at h))
        | inr (inr (inr o)) ↦ absurd (no_fuel_is_no_value (rw (o, sub_keys_loop) at h))
      ]

  listed-Good :
      (n : CellKeyNode) (st : State) (r : SubKeys)
      → listed e f filter seq modified n st ≡ ok r
      → Good f n r
  unfolding listed
  listed-Good n st r h =
      elim (Outcome-cases
        (parse_sub_key_list e.nom e.fuel f (fields n).detail.sub_keys_list_offset_relative)) [
          | inl (offsets, o) ↦
              let (rest, loop, last) =
                >>=-eq-ok (sub_keys_loop e f filter seq modified offsets n st) _
                  (rw (o, listed) at h) in
              let (within, kept) = sub_keys_loop-Good offsets n st rest loop in
              rw (sym (ok_injective last)) (within, with_fields-deleted_keys rest.node _ ∙ kept)
          | inr (inl (detail, o)) ↦
              let done : ok (no_sub_keys e (unparsed_list f n) st) ≡ ok r = rw (o, listed) at h in
              rw (sym (ok_injective done)) (tt, with_fields-deleted_keys n _)
          | inr (inr (inl o)) ↦ absurd (panic_is_no_value (rw (o, listed) at h))
          | inr (inr (inr o)) ↦ absurd (no_fuel_is_no_value (rw (o, listed) at h))
        ]

  -- Whatever reading the sub keys of a key gives, errors that were logged included: the whole cell of
  -- every sub key, of 72 bytes or more by its own size, lies inside the file, and the deleted keys of
  -- the key are the ones it had.
  pub read_sub_keys_internal-Good :
      (n : CellKeyNode) (st : State) (r : SubKeys)
      → read_sub_keys_internal e f filter seq modified n st ≡ ok r
      → Good f n r
  unfolding read_sub_keys_internal
  read_sub_keys_internal-Good n st r =
      if_both WhenOk (not (is_allocated (fields n).cell_state)) (from_value _ (tt, refl)) (
        if_both WhenOk (ltb (1024 * 1024) (fields n).detail.number_of_sub_keys)
          (from_value _ (tt, with_fields-deleted_keys n _))
          (if_both WhenOk ((fields n).detail.number_of_sub_keys == 0) (from_value _ (tt, refl))
            (listed-Good n st r)))
    where
      WhenOk : Outcome SubKeys → Type 0
      WhenOk o = o ≡ ok r → Good f n r

      from_value : (r' : SubKeys) → Good f n r' → ok r' ≡ ok r → Good f n r
      from_value r' g e = rw (sym (ok_injective e)) g
