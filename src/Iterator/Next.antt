-- ===== src/Iterator/Next.antt =====
-- src/parser.rs, `next_key_preorder`, `next_key_postorder`, `ParserIterator::next` and the counting of
-- keys and values. `while` loops are on fuel.
use notatin.Base.{
  ℕ, zero, suc, ◌+◌, Bool, true, false, not, ◌||◌, Option, none, some, List, [], ◌∷◌, length, ◌==◌,
  if◌then◌else◌,
}
use notatin.Outcome.{Outcome, ok, no_fuel, ◌>>=◌}
use notatin.Parser.{FileInfo}
use notatin.Filter.{Filter, is_valid}
use notatin.Value.Cell.{CellKeyValue, cell_key_value, is_deleted, Versions, no_versions, version}
use notatin.KeyNode.{
  CellKeyNode, fields, versions, to_list, FilterMatchState, no_match, is_filter_match_or_descendent,
}
use notatin.KeyNode.Modified.{State}
use notatin.KeyNode.Read.{Env}
use notatin.Iterator.{ParserIteratorContext, from_parser, count_returned, visit}

-- Whether the children of the key on top have all been returned.
abbrev pub is_finished : CellKeyNode → Bool
is_finished n = (fields n).iteration_state.track_returned == (fields n).iteration_state.to_return

abbrev pub count_top : List CellKeyNode → List CellKeyNode
count_top [] = []
count_top (n ∷ ns) = count_returned n ∷ ns

abbrev pub is_no_match : CellKeyNode → Bool
is_no_match n = elim (fields n).iteration_state.filter_state [
  | some no_match ↦ true
  | some FilterMatchState.descendent ↦ false
  | some FilterMatchState.exact ↦ false
  | none ↦ false
]

-- The head of the loop: the key on top, if its children have been returned.
unfoldable pub finished_top : List CellKeyNode → Option (CellKeyNode × List CellKeyNode)
finished_top [] = none
finished_top (n ∷ ns) = if is_finished n then some (n, ns) else none

module _ {e : Env} where
  -- Whether `next_key_preorder` returns the key.
  unfoldable pub is_returned : CellKeyNode → ParserIteratorContext e → Bool
  unfolding is_valid is_filter_match_or_descendent
  is_returned node c =
      c.filter_include_ancestors
      || not (is_valid c.filter)
      || is_filter_match_or_descendent (fields node)

  unfoldable pub next_key_preorder :
      ℕ
      → FileInfo
      → ParserIteratorContext e
      → Outcome (Option CellKeyNode × ParserIteratorContext e)
  unfolding visit is_returned
  next_key_preorder zero f c = no_fuel
  next_key_preorder (suc fuel) f c = elim c.stack_to_traverse [
    | [] ↦ ok (none, c)
    | node ∷ rest ↦ do
      r ← visit f node (record c { stack_to_traverse = rest })
      elim (is_returned r.0 r.1) [
        | true ↦ ok (some r.0, r.1)
        | false ↦ next_key_preorder fuel f r.1
      ]
  ]

  -- The part of `next_key_postorder` behind the loop: a key that the filter only passes through ends
  -- the iteration.
  unfoldable pub return_remaining :
      ParserIteratorContext e → Option CellKeyNode × ParserIteratorContext e
  return_remaining c = elim c.stack_to_return [
    | [] ↦ (none, c)
    | node ∷ rest ↦
        if c.filter_include_ancestors || not (is_no_match node)
        then (some node, record c { stack_to_return = rest })
        else (none, record c { stack_to_return = rest })
  ]

  unfoldable pub next_key_postorder :
      ℕ
      → FileInfo
      → ParserIteratorContext e
      → Outcome (Option CellKeyNode × ParserIteratorContext e)
  unfolding visit return_remaining finished_top
  next_key_postorder zero f c = no_fuel
  next_key_postorder (suc fuel) f c = elim c.stack_to_traverse [
    | [] ↦ ok (return_remaining c)
    | node ∷ rest ↦ elim (finished_top c.stack_to_return) [
      | some (n, ns) ↦ ok (some n, record c { stack_to_return = ns })
      | none ↦ do
        r ← visit f node (record c { stack_to_traverse = rest })
        next_key_postorder fuel f
            (record r.1 { stack_to_return = r.0 ∷ count_top r.1.stack_to_return })
    ]
  ]

  -- `ParserIterator::next`.
  unfoldable pub next :
      Bool
      → ℕ
      → FileInfo
      → ParserIteratorContext e
      → Outcome (Option CellKeyNode × ParserIteratorContext e)
  unfolding next_key_preorder next_key_postorder
  next postorder_iteration fuel f c = elim postorder_iteration [
    | true ↦ next_key_postorder fuel f c
    | false ↦ next_key_preorder fuel f c
  ]

  -- The loop of `count_all_keys_and_values`, from the counts so far.
  unfoldable pub count_loop : ℕ → FileInfo → ParserIteratorContext e → ℕ → ℕ → Outcome (ℕ × ℕ)
  unfolding next_key_preorder
  count_loop zero f c keys values = no_fuel
  count_loop (suc fuel) f c keys values = do
    r ← next_key_preorder (suc fuel) f c
    elim r.0 [
      | none ↦ ok (keys, values)
      | some key ↦ count_loop fuel f r.1 (suc keys) (values + length (fields key).sub_values)
    ]

unfoldable pub count_all_keys_and_values :
    (e : Env) → ℕ → FileInfo → State → Option CellKeyNode → Filter e.regexes → Outcome (ℕ × ℕ)
unfolding count_loop from_parser
count_all_keys_and_values e fuel f state root filter =
    count_loop fuel f (from_parser {e = e} state root true filter false) 0 0

-- The six counts of `_count_all_keys_and_values_with_modified`.
pub record ModifiedCounts : Type 0 where
  pub keys : ℕ
  pub keys_versions : ℕ
  pub keys_deleted : ℕ
  pub values : ℕ
  pub values_versions : ℕ
  pub values_deleted : ℕ

abbrev length_versions : Versions → ℕ
length_versions no_versions = 0
length_versions (version v vs) = suc (length_versions vs)

unfoldable pub count_value : CellKeyValue → ModifiedCounts → ModifiedCounts
unfolding is_deleted
count_value (cell_key_value v older) c = record c {
  values = if is_deleted v.cell_state then c.values else suc c.values;
  values_deleted = if is_deleted v.cell_state then suc c.values_deleted else c.values_deleted;
  values_versions = c.values_versions + length_versions older;
}

unfoldable pub count_values : List CellKeyValue → ModifiedCounts → ModifiedCounts
unfolding count_value
count_values [] c = c
count_values (v ∷ vs) c = count_values vs (count_value v c)

unfoldable pub count_key : CellKeyNode → ModifiedCounts → ModifiedCounts
unfolding count_values is_deleted
count_key key c = count_values (fields key).sub_values (record c {
  keys = if is_deleted (fields key).cell_state then c.keys else suc c.keys;
  keys_deleted = if is_deleted (fields key).cell_state then suc c.keys_deleted else c.keys_deleted;
  keys_versions = c.keys_versions + length (to_list (versions key));
})

unfoldable pub count_modified_loop :
    {e : Env} → ℕ → FileInfo → ParserIteratorContext e → ModifiedCounts → Outcome ModifiedCounts
unfolding next_key_preorder count_key
count_modified_loop zero f c counts = no_fuel
count_modified_loop (suc fuel) f c counts = do
  r ← next_key_preorder (suc fuel) f c
  elim r.0 [ none ↦ ok counts | some key ↦ count_modified_loop fuel f r.1 (count_key key counts) ]

unfoldable pub count_all_keys_and_values_with_modified :
    (e : Env)
    → ℕ
    → FileInfo
    → State
    → Option CellKeyNode
    → Filter e.regexes
    → Outcome ModifiedCounts
unfolding count_modified_loop from_parser
count_all_keys_and_values_with_modified e fuel f state root filter =
    count_modified_loop fuel f (from_parser {e = e} state root true filter false) (record {
      keys = 0;
      keys_versions = 0;
      keys_deleted = 0;
      values = 0;
      values_versions = 0;
      values_deleted = 0;
    })
