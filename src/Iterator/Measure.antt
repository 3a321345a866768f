-- ===== src/Iterator/Measure.antt =====
-- What falls with every key that the iteration visits: the offsets in the file that were not pushed yet
-- and, while no new one is pushed, the number of keys on the stack with all their deleted keys.
use notatin.Base.{
  subst, ℕ, zero, suc, ◌+◌, ◌≤◌, ◌<◌, ◌≡◌, refl, sym, ap, ◌∙◌, ◌⊎◌, inl, inr, false, Option, none,
  List, [], ◌∷◌, length, ltb, ◌==◌, if◌then◌else◌, arith, Bool-cases,
}
use notatin.Outcome.{ok, >>=-eq-ok, ok_injective}
use notatin.Parser.{FileInfo}
use notatin.KeyNode.{
  CellKeyNode, cell_key_node, KeyNodes, no_nodes, more_nodes, fields, deleted_keys,
  FilterMatchState,
}
use notatin.KeyNode.Read.{Env}
use notatin.KeyNode.SubKeys.{read_sub_keys_internal}
use notatin.KeyNode.Within.{AllWithin, read_sub_keys_internal-Good, with_fields-deleted_keys}
use notatin.Iterator.{
  ParserIteratorContext, contains, offset_of, inherit_filter_state, push_check_stack_to_traverse,
  push_children, push_deleted, with_deleted, with_to_return, visit,
}

-- How many offsets below `n` are not in the set.
unfoldable pub unseen : ℕ → List ℕ → ℕ
unseen zero set = 0
unseen (suc n) set = (if contains n set then 0 else 1) + unseen n set

-- A key counts for itself and for its deleted keys.
unfoldable mutual
  pub weight : CellKeyNode → ℕ
  weight (cell_key_node k older deleted) = suc (weights deleted)

  pub weights : KeyNodes → ℕ
  weights no_nodes = 0
  weights (more_nodes n ns) = weight n + weights ns

unfoldable pub stack_weight : List CellKeyNode → ℕ
unfolding weight
stack_weight [] = 0
stack_weight (n ∷ ns) = weight n + stack_weight ns

unseen_more : (n k : ℕ) (set : List ℕ) → unseen n (k ∷ set) ≤ unseen n set
unfolding unseen
unseen_more zero k set = omega arith
unseen_more (suc n) k set = ground (arith, unseen_more n k set)

-- A new offset that counts is one less that is not in the set.
pub unseen-insert :
    (n k : ℕ) (set : List ℕ) → contains k set ≡ false → k < n → unseen n (k ∷ set) < unseen n set
unfolding unseen
unseen-insert zero k set new h = absurd (omega arith)
unseen-insert (suc n) k set new h = elim (Bool-cases (n == k)) [
  | inl same ↦
      let eq : n ≡ k = ground (arith, same) in
      let old : contains n set ≡ false = ap (λ t. contains t set) eq ∙ new in
      rw (same, old) (omega (arith, unseen_more n k set))
  | inr other ↦ rw other (ground (arith, other, unseen-insert n k set new))
]

weight-deleted_keys : (n : CellKeyNode) → weight n ≡ suc (weights (deleted_keys n))
unfolding weight
weight-deleted_keys (cell_key_node k older deleted) = refl

weights-inherit :
    (s : Option FilterMatchState) (ns : KeyNodes) → weights (inherit_filter_state s ns) ≡ weights ns
unfolding weight inherit_filter_state
weights-inherit s no_nodes = refl
weights-inherit s (more_nodes (cell_key_node k older deleted) ns) =
    ap (λ t. suc (weights deleted) + t) (weights-inherit s ns)

module _ {e : Env} where
  push_deleted-weight :
      (ds : KeyNodes) (c : ParserIteratorContext e)
      → ((push_deleted ds c).stack_file_offsets ≡ c.stack_file_offsets)
        × (stack_weight (push_deleted ds c).stack_to_traverse
            ≡ weights ds + stack_weight c.stack_to_traverse)
  unfolding push_deleted weight stack_weight
  push_deleted-weight no_nodes c = (refl, omega arith)
  push_deleted-weight (more_nodes d ds) c =
      let (offsets, total) =
        push_deleted-weight ds (record c { stack_to_traverse = d ∷ c.stack_to_traverse }) in
      (offsets, omega (arith, total))

  -- Nothing was pushed, or an offset that was not in the set before.
  abbrev Grows : ℕ → ParserIteratorContext e → ParserIteratorContext e → Type 0
  Grows bound c c' =
      (unseen bound c'.stack_file_offsets < unseen bound c.stack_file_offsets)
      ⊎ ((c'.stack_file_offsets ≡ c.stack_file_offsets)
          × (c'.stack_to_traverse ≡ c.stack_to_traverse))

  push_check-Grows :
      (bound : ℕ) (n : CellKeyNode) (c : ParserIteratorContext e)
      → offset_of n ≤ bound
      → Grows (suc bound) c (push_check_stack_to_traverse n c)
  unfolding push_check_stack_to_traverse
  push_check-Grows bound n c h = elim (Bool-cases (contains (offset_of n) c.stack_file_offsets)) [
    | inl old ↦ rw old (inr (refl, refl))
    | inr new ↦
        rw new
          (inl (unseen-insert (suc bound) (offset_of n) c.stack_file_offsets new (omega arith)))
  ]

  Grows-Grows :
      (bound : ℕ) (a b c : ParserIteratorContext e)
      → Grows bound a b
      → Grows bound b c
      → Grows bound a c
  Grows-Grows bound a b c (inl less) (inl lesser) = inl (omega arith)
  Grows-Grows bound a b c (inl less) (inr (offsets, stack)) = inl (rw (sym offsets) at less)
  Grows-Grows bound a b c (inr (offsets, stack)) (inl less) = inl (rw offsets at less)
  Grows-Grows bound a b c (inr (offsets, stack)) (inr (offsets', stack')) =
      inr (offsets' ∙ offsets, stack' ∙ stack)

  push_children-Grows :
      (bound : ℕ) (ns : List CellKeyNode) (c : ParserIteratorContext e)
      → AllWithin bound ns
      → Grows (suc bound) c (push_children ns c)
  unfolding push_children
  push_children-Grows bound [] c h = inr (refl, refl)
  push_children-Grows bound (n ∷ ns) c h =
      Grows-Grows (suc bound) c (push_children ns c)
        (push_check_stack_to_traverse n (push_children ns c)) (push_children-Grows bound ns c h.1)
        (push_check-Grows bound n (push_children ns c) (omega (arith, h.0.1)))

  -- The two parts of the measure, in their order.
  abbrev pub Falls : ℕ → ℕ → ParserIteratorContext e → ParserIteratorContext e → Type 0
  Falls bound total c c' =
      (unseen bound c'.stack_file_offsets < unseen bound c.stack_file_offsets)
      ⊎ ((unseen bound c'.stack_file_offsets ≡ unseen bound c.stack_file_offsets)
          × (suc (stack_weight c'.stack_to_traverse) ≤ total))

  with_deleted-Falls :
      (bound : ℕ) (n m : CellKeyNode) (c d : ParserIteratorContext e)
      → Grows bound c d
      → deleted_keys m ≡ deleted_keys n
      → Falls bound (weight n + stack_weight c.stack_to_traverse) c (with_deleted m d).1
  with_deleted-Falls bound n (cell_key_node k older deleted) c d g same =
      let ds = inherit_filter_state k.iteration_state.filter_state deleted in
      let (offsets, total) = push_deleted-weight ds d in
      elim g [
        | inl less ↦ inl (rw offsets less)
        | inr (old, stack) ↦ inr (
          ap (unseen bound) (offsets ∙ old),
          omega (
            arith,
            total,
            weights-inherit k.iteration_state.filter_state deleted,
            ap weights same,
            ap stack_weight stack,
            weight-deleted_keys n,
          ),
        )
      ]

  Falls-same :
      (bound total : ℕ) (c d d' : ParserIteratorContext e)
      → d ≡ d'
      → Falls bound total c d
      → Falls bound total c d'
  Falls-same bound total c d d' same h = subst (λ x. Falls bound total c x) same h

  -- A visit lowers the measure of the stack with the key that is visited on it.
  pub visit-Falls :
      (f : FileInfo) (node node' : CellKeyNode) (c c' : ParserIteratorContext e)
      → visit f node c ≡ ok (node', c')
      → Falls (suc (length f.buffer)) (weight node + stack_weight c.stack_to_traverse) c c'
  unfolding visit
  visit-Falls f node node' c c' h =
      elim (Bool-cases (ltb 0 (fields node).detail.number_of_sub_keys)) [
        | inr leaf ↦
            Falls-same (suc (length f.buffer)) (weight node + stack_weight c.stack_to_traverse) c
              (with_deleted node c).1 c' (ap (λ t. t.1) (ok_injective (rw (leaf, visit) at h)))
              (with_deleted-Falls (suc (length f.buffer)) node node c c (inr (refl, refl)) refl)
        | inl parent ↦
            let (r, keys, last) =
              >>=-eq-ok (read_sub_keys_internal e f c.filter none c.get_modified_items node c.state)
                _ (rw (parent, visit) at h) in
            let (within, kept) =
              read_sub_keys_internal-Good e f c.filter none c.get_modified_items node c.state r
                keys in
            let read = with_to_return (length r.children) r.node in
            let pushed = push_children r.children (record c { state = r.state }) in
            Falls-same (suc (length f.buffer)) (weight node + stack_weight c.stack_to_traverse) c
              (with_deleted read pushed).1 c' (ap (λ t. t.1) (ok_injective last))
              (with_deleted-Falls (suc (length f.buffer)) node read c pushed
                (push_children-Grows (length f.buffer) r.children (record c { state = r.state })
                  within)
                (with_fields-deleted_keys r.node _ ∙ kept))
      ]
