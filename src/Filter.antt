-- ===== src/Filter.antt =====
-- src/filter.rs: the query for key paths, its builder, and the matching of a path. A string is the list
-- of its bytes; `Regex` of the crate regex is the parameter `Regexes`. Of a key node the filter reads
-- whether it is the root, and its path.
pub mod Matching
pub mod Tests
use notatin.Base.{
  ℕ, ◌+◌, zero, suc, Bool, true, false, not, ◌&&◌, Option, none, some, List, [], ◌∷◌, ◌++◌, map,
  Bytes, get_from, leb, ◌==◌, if◌then◌else◌, bit_or,
}
use notatin.Outcome.{Outcome, ok, err, any, expect, ◌>>=◌}
use notatin.State.{same_text}

pub record Regexes : Type 1 where
  pub Regex : Type 0
  pub new : Bytes → Option Regex
  pub is_match : Regex → Bytes → Bool

abbrev pub backslash : ℕ
backslash = 0x5c

-- `to_ascii_lowercase`.
abbrev pub lower : ℕ → ℕ
lower c = if leb 0x41 c && leb c 0x5a then c + 32 else c

abbrev pub to_ascii_lowercase : Bytes → Bytes
to_ascii_lowercase bs = map lower bs

abbrev pub push_front : ℕ → List Bytes → List Bytes
push_front c [] = (c ∷ []) ∷ []
push_front c (s ∷ ss) = (c ∷ s) ∷ ss

-- `split('\\')`.
unfoldable pub split : Bytes → List Bytes
split [] = [] ∷ []
split (c ∷ cs) = let rest = split cs in if c == backslash then [] ∷ rest else push_front c rest

-- `trim_end_matches('\\')` and `trim_matches('\\')`.
unfoldable pub trim_end : Bytes → Bytes
trim_end [] = []
trim_end (c ∷ cs) = elim (trim_end cs) [
  | [] ↦ if c == backslash then [] else c ∷ []
  | x ∷ xs ↦ c ∷ (x ∷ xs)
]

unfoldable pub trim_start : Bytes → Bytes
trim_start [] = []
trim_start (c ∷ cs) = let rest = trim_start cs in if c == backslash then rest else c ∷ cs

-- `find('\\')`.
unfoldable pub find_backslash : Bytes → Option ℕ
find_backslash [] = none
find_backslash (c ∷ cs) =
    let rest = find_backslash cs in
    if c == backslash then some 0 else elim rest [ none ↦ none | some i ↦ some (i + 1) ]

-- `get_root_path_offset` of src/util.rs, and that of the state in src/state.rs, which keeps the first
-- offset that is not 0.
unfoldable pub get_root_path_offset : Bytes → ℕ
unfolding find_backslash
get_root_path_offset [] = 0
get_root_path_offset (c ∷ path) =
    if c == backslash then (elim (find_backslash path) [ some i ↦ i + 2 | none ↦ 0 ]) else 0

unfoldable pub kept_root_path_offset : ℕ → Bytes → ℕ
unfolding get_root_path_offset
kept_root_path_offset kept path = if kept == 0 then get_root_path_offset path else kept

-- `FilterFlags`.
abbrev pub filter_no_match : ℕ
filter_no_match = 1

abbrev pub filter_iterate_keys : ℕ
filter_iterate_keys = 2

abbrev pub filter_key_match : ℕ
filter_key_match = 4

module _ (x : Regexes) where
  pub data RegQueryComponent : Type 0 where
    component_string : Bytes → RegQueryComponent
    component_regex : x.Regex → RegQueryComponent

  pub record RegQuery : Type 0 where
    pub key_path : List RegQueryComponent
    pub key_path_has_root : Bool
    pub children : Bool

  pub record Filter : Type 0 where
    pub reg_query : Option RegQuery

  pub record FilterBuilder : Type 0 where
    pub key_path : List RegQueryComponent
    pub key_path_has_root : Bool
    pub children : Bool
    pub regex_errors : List Bytes

module _ {x : Regexes} where
  -- The tests of the two arms.
  abbrev pub segment_matches : RegQueryComponent x → Bytes → Bool
  segment_matches (component_string s) segment = same_text s (to_ascii_lowercase segment)
  segment_matches (component_regex r) segment = x.is_match r (to_ascii_lowercase segment)

  -- The loop of `check_key_match` over the segments of the path.
  unfoldable pub match_segments : List Bytes → List (RegQueryComponent x) → ℕ
  match_segments [] [] = bit_or filter_iterate_keys filter_key_match
  match_segments [] (c ∷ query) = filter_iterate_keys
  match_segments (s ∷ segments) [] = filter_no_match
  match_segments (s ∷ segments) (c ∷ query) =
      let rest = match_segments segments query in
      if segment_matches c s then rest else filter_no_match

  -- `RegQuery::check_key_match`. A slice past the end panics.
  unfoldable pub check_key_match : RegQuery x → Bytes → ℕ → Outcome ℕ
  unfolding match_segments split
  check_key_match q key_path root_key_name_offset =
      expect (get_from key_path (if q.key_path_has_root then 0 else root_key_name_offset))
      >>= λ path. ok (match_segments (split path) q.key_path)

  -- `Filter::is_valid`, `match_key`, `match_cell`, `check_cell` and `return_sub_keys`. The first number
  -- and the second result are the offset that the state keeps.
  unfoldable pub is_valid : Filter x → Bool
  is_valid f = elim f.reg_query [ some q ↦ true | none ↦ false ]

  unfoldable pub match_key : ℕ → Filter x → Bytes → Outcome (ℕ × ℕ)
  unfolding check_key_match kept_root_path_offset
  match_key kept f key_path = elim f.reg_query [
    | some q ↦ check_key_match q key_path (kept_root_path_offset kept key_path) >>= λ flags.
        ok (flags, kept_root_path_offset kept key_path)
    | none ↦ ok (filter_iterate_keys, kept)
  ]

  unfoldable pub match_cell : ℕ → Filter x → Bool → Bytes → Outcome (ℕ × ℕ)
  unfolding match_key
  match_cell kept f is_key_root path = elim f.reg_query [
    | some q ↦ elim (is_key_root && not q.key_path_has_root) [
      | true ↦ ok (filter_iterate_keys, kept)
      | false ↦ match_key kept f (to_ascii_lowercase path)
    ]
    | none ↦ match_key kept f (to_ascii_lowercase path)
  ]

  unfoldable pub check_cell : ℕ → Filter x → Bool → Bytes → Outcome (ℕ × ℕ)
  unfolding is_valid match_cell
  check_cell kept f is_key_root path = elim (is_valid f) [
    | true ↦ match_cell kept f is_key_root path
    | false ↦ ok (filter_iterate_keys, kept)
  ]

  unfoldable pub return_sub_keys : Filter x → Bool
  return_sub_keys f = elim f.reg_query [ some q ↦ q.children | none ↦ false ]

  -- `FilterBuilder`.
  abbrev pub new_builder : FilterBuilder x
  new_builder = record {
    key_path = [];
    key_path_has_root = false;
    children = false;
    regex_errors = [];
  }

  abbrev pub literal : Bytes → RegQueryComponent x
  literal segment = component_string (to_ascii_lowercase segment)

  unfoldable pub add_key_path : FilterBuilder x → Bytes → FilterBuilder x
  unfolding split trim_end
  add_key_path b path = record b { key_path = b.key_path ++ map literal (split (trim_end path)) }

  unfoldable pub add_literal_segment : FilterBuilder x → Bytes → FilterBuilder x
  unfolding trim_end trim_start
  add_literal_segment b segment = record b {
    key_path = b.key_path ++ literal (trim_start (trim_end segment)) ∷ [];
  }

  unfoldable pub add_regex_segment : FilterBuilder x → Bytes → FilterBuilder x
  add_regex_segment b regex = elim (x.new (to_ascii_lowercase regex)) [
    | some r ↦ record b { key_path = b.key_path ++ component_regex r ∷ [] }
    | none ↦ record b { regex_errors = b.regex_errors ++ regex ∷ [] }
  ]

  abbrev pub with_root : FilterBuilder x → Bool → FilterBuilder x
  with_root b value = record b { key_path_has_root = value }

  abbrev pub with_children : FilterBuilder x → Bool → FilterBuilder x
  with_children b value = record b { children = value }

  unfoldable pub build : FilterBuilder x → Outcome (Filter x)
  build b = elim b.regex_errors [
    | [] ↦ ok (record {
      reg_query = some (record {
        key_path = b.key_path;
        key_path_has_root = b.key_path_has_root;
        children = b.children;
      });
    })
    | e ∷ es ↦ err (any "Regex errors encountered")
  ]
