-- ===== src/State.antt =====
-- src/state.rs: the maps of deleted and of modified keys and values. A `HashMap` is an association
-- list with one entry for each key; the order of the entries, which the source does not use, is that of
-- insertion. Of a cell the maps read its hash, and its name or path.
pub mod Laws
pub mod Tests
use notatin.Base.{
  ℕ, Bool, true, false, ◌&&◌, Option, none, some, List, [], ◌∷◌, ◌++◌, Bytes, ◌==◌, if◌then◌else◌,
}

-- A string is the list of its bytes.
abbrev pub same_text : Bytes → Bytes → Bool
same_text [] [] = true
same_text [] (y ∷ ys) = false
same_text (x ∷ xs) [] = false
same_text (x ∷ xs) (y ∷ ys) = x == y && same_text xs ys

abbrev pub Map : Type 0 → Type 0
Map V = List (Bytes × List V)

module _ {V : Type 0} where
  -- `get` of the maps.
  unfoldable pub get : Map V → Bytes → Option (List V)
  get [] key = none
  get ((k, vs) ∷ m) key = elim (same_text k key) [ true ↦ some vs | false ↦ get m key ]

  -- `add`: the value is pushed on the vector of the key, or starts one.
  unfoldable pub add : Map V → Bytes → V → Map V
  add [] key value = (key, value ∷ []) ∷ []
  add ((k, vs) ∷ m) key value = elim (same_text k key) [
    | true ↦ (k, vs ++ value ∷ []) ∷ m
    | false ↦ (k, vs) ∷ add m key value
  ]

  -- `HashMap::remove`.
  unfoldable pub remove_key : Map V → Bytes → Map V
  remove_key [] key = []
  remove_key ((k, vs) ∷ m) key = elim (same_text k key) [
    | true ↦ m
    | false ↦ (k, vs) ∷ remove_key m key
  ]

  -- The vector of a key that is in the map, replaced.
  unfoldable pub put : Map V → Bytes → List V → Map V
  put [] key values = []
  put ((k, vs) ∷ m) key values = elim (same_text k key) [
    | true ↦ (k, values) ∷ m
    | false ↦ (k, vs) ∷ put m key values
  ]

  -- The first value that the loop of `remove` finds, taken out: `none` if it finds none.
  unfoldable pub take_out : (V → Bool) → List V → Option (List V)
  take_out found [] = none
  take_out found (v ∷ vs) =
      let rest = take_out found vs in
      if found v then some vs else elim rest [ none ↦ none | some ws ↦ some (v ∷ ws) ]

  -- `DeletedValueMap::remove` with the test of its loop, and `ModifiedDeletedKeyMap::remove`: the
  -- vector of `key` loses the value that is found; if it is empty then, the entry `emptied` is removed.
  unfoldable pub remove_found : (V → Bool) → Map V → Bytes → Bytes → Map V
  unfolding get put remove_key take_out
  remove_found found m key emptied = elim (get m key) [
    | none ↦ m
    | some values ↦ elim (take_out found values) [
      | none ↦ m
      | some [] ↦ remove_key (put m key []) emptied
      | some (w ∷ ws) ↦ put m key (w ∷ ws)
    ]
  ]

-- What the maps read of a value and of a key: `Hash` is the hash of the crate blake3, as bytes.
pub record ValueCell : Type 0 where
  pub name : Bytes
  pub hash : Option Bytes

pub record KeyCell : Type 0 where
  pub path : Bytes
  pub hash : Option Bytes

abbrev pub same_hash : Bytes → Option Bytes → Bool
same_hash hash none = false
same_hash hash (some h) = same_text hash h

-- `DeletedValueMap::remove`.
unfoldable pub remove_value : Map ValueCell → Bytes → Bytes → Bytes → Map ValueCell
unfolding remove_found
remove_value m key_path value_name hash =
    remove_found (λ (v : ValueCell). same_text v.name value_name && same_hash hash v.hash) m
      key_path key_path

-- `&path[0..path.rfind('\\').unwrap_or_default()]`: what stands before the last backslash.
unfoldable pub before_last : Bytes → Option Bytes
before_last [] = none
before_last (c ∷ cs) = elim (before_last cs) [
  | some front ↦ some (c ∷ front)
  | none ↦ if c == 0x5c then some [] else none
]

abbrev pub or_empty : Option Bytes → Bytes
or_empty none = []
or_empty (some bs) = bs

-- `ModifiedDeletedKeyMap::remove`. The entry that is removed at the end is that of `path`, and not that
-- of the parent, whose vector was emptied.
unfoldable pub remove_key_cell : Map KeyCell → Bytes → Bytes → Map KeyCell
unfolding remove_found before_last
remove_key_cell m path hash =
    remove_found (λ (k : KeyCell). same_hash hash k.hash && same_text path k.path) m
      (or_empty (before_last path)) path

-- `ModifiedValueMap`: a key is a path with the name of a value.
abbrev pub PairMap : Type 0 → Type 0
PairMap V = List ((Bytes × Bytes) × List V)

module _ {V : Type 0} where
  unfoldable pub get_modified : PairMap V → Bytes → Bytes → Option (List V)
  get_modified [] path name = none
  get_modified (((p, n), vs) ∷ m) path name = elim (same_text p path && same_text n name) [
    | true ↦ some vs
    | false ↦ get_modified m path name
  ]

  unfoldable pub add_modified : PairMap V → Bytes → Bytes → V → PairMap V
  add_modified [] path name value = ((path, name), value ∷ []) ∷ []
  add_modified (((p, n), vs) ∷ m) path name value = elim (same_text p path && same_text n name) [
    | true ↦ ((p, n), vs ++ value ∷ []) ∷ m
    | false ↦ ((p, n), vs) ∷ add_modified m path name value
  ]
