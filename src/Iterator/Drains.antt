-- ===== src/Iterator/Drains.antt =====
-- The preorder iteration ends on every file: each key that is visited lowers the measure.
use notatin.Base.{
  ℕ, zero, suc, ◌+◌, ◌≤◌, ◌<◌, ◌≡◌, refl, ap, ◌∙◌, ◌⊎◌, inl, inr, Bool, true, false, Option, none,
  some, List, [], ◌∷◌, length, arith, Bool-cases,
}
use notatin.Outcome.{Outcome, ok, err, panic, no_fuel, ◌>>=◌}
use notatin.Parser.{FileInfo}
use notatin.Filter.{Filter}
use notatin.KeyNode.{CellKeyNode, cell_key_node, fields}
use notatin.KeyNode.Modified.{State}
use notatin.KeyNode.Read.{Env}
use notatin.Iterator.{ParserIteratorContext, from_parser, visit}
use notatin.Iterator.Next.{is_returned, next_key_preorder, count_loop, count_all_keys_and_values}
use notatin.Iterator.Measure.{unseen, stack_weight, weight, visit-Falls}

List-cases :
    (ns : List CellKeyNode)
    → (ns ≡ []) ⊎ ((n : CellKeyNode) × (rest : List CellKeyNode) × (ns ≡ n ∷ rest))
List-cases [] = inl refl
List-cases (n ∷ ns) = inr (n, ns, refl)

-- Whether an outcome has a value.
abbrev pub is_ok : {A : Type 0} → Outcome A → Bool
is_ok (ok a) = true
is_ok (err d) = false
is_ok panic = false
is_ok no_fuel = false

is_ok-cases : {A : Type 0} (o : Outcome A) → ((a : A) × (o ≡ ok a)) ⊎ (is_ok o ≡ false)
is_ok-cases (ok a) = inl (a, refl)
is_ok-cases (err d) = inr refl
is_ok-cases panic = inr refl
is_ok-cases no_fuel = inr refl

weight-positive : (n : CellKeyNode) → 0 < weight n
unfolding weight
weight-positive (cell_key_node k older deleted) = omega arith

module _ {e : Env} (f : FileInfo) where
  -- One step of the iteration: the key on top is visited.
  pub data Visits : ParserIteratorContext e → CellKeyNode → ParserIteratorContext e → Type 0 where
    visits :
        {c c' : ParserIteratorContext e} {node node' : CellKeyNode} {rest : List CellKeyNode}
        → c.stack_to_traverse ≡ node ∷ rest
        → visit f node (record c { stack_to_traverse = rest }) ≡ ok (node', c')
        → Visits c node' c'

  -- Some steps.
  pub data Reaches : ParserIteratorContext e → ParserIteratorContext e → Type 0 where
    here : {c : ParserIteratorContext e} → Reaches c c
    step :
        {c c' d : ParserIteratorContext e} {node : CellKeyNode}
        → Visits c node c'
        → Reaches c' d
        → Reaches c d

  -- The visit of the key on top gives no result: it panics, or does not end.
  abbrev pub Stuck : ParserIteratorContext e → Type 0
  Stuck c =
      (node : CellKeyNode) × (rest : List CellKeyNode) × (c.stack_to_traverse ≡ node ∷ rest)
      × (is_ok (visit f node (record c { stack_to_traverse = rest })) ≡ false)

  -- At most `n` visits empty the stack, or lead to one that gives no result.
  pub data Drains : ℕ → ParserIteratorContext e → Type 0 where
    drained : {n : ℕ} {c : ParserIteratorContext e} → c.stack_to_traverse ≡ [] → Drains n c
    stuck : {n : ℕ} {c : ParserIteratorContext e} → Stuck c → Drains (suc n) c
    onward :
        {n : ℕ} {c c' : ParserIteratorContext e} {node : CellKeyNode}
        → Visits c node c'
        → Drains n c'
        → Drains (suc n) c

  abbrev pub left : ParserIteratorContext e → ℕ
  left c = unseen (suc (length f.buffer)) c.stack_file_offsets

  abbrev pub CanDrain : ParserIteratorContext e → Type 0
  CanDrain c = (n : ℕ) × Drains n c

  -- With the measure of the offsets at most `new`, given the contexts where it is lower.
  drain_stack :
      (new : ℕ)
      → ((c : ParserIteratorContext e) → left c < new → CanDrain c)
      → (total : ℕ) (c : ParserIteratorContext e) → left c ≤ new
      → stack_weight c.stack_to_traverse ≤ total
      → CanDrain c
  unfolding stack_weight
  drain_stack new lower zero c h k = elim (List-cases c.stack_to_traverse) [
    | inl empty ↦ (0, drained empty)
    | inr (node, rest, top) ↦ absurd (omega (arith, k, ap stack_weight top, weight-positive node))
  ]
  drain_stack new lower (suc total) c h k = elim (List-cases c.stack_to_traverse) [
    | inl empty ↦ (0, drained empty)
    | inr (node, rest, top) ↦
        let under : ParserIteratorContext e = record c { stack_to_traverse = rest } in
        elim (is_ok-cases (visit f node under)) [
          | inr nothing ↦ (1, stuck (node, rest, top, nothing))
          | inl ((node', c'), v) ↦
              let (n, d) = elim (visit-Falls f node node' under c' v) as (λ _. CanDrain c') [
                | inl less ↦ lower c' (omega arith)
                | inr (same, lighter) ↦
                    drain_stack new lower total c' (omega arith)
                      (omega (arith, k, ap stack_weight top, lighter))
              ] in
              (suc n, onward (visits top v) d)
        ]
  ]

  pub can_drain : (new : ℕ) (c : ParserIteratorContext e) → left c ≤ new → CanDrain c
  can_drain zero c h =
      drain_stack zero (λ d k. absurd (omega arith)) (stack_weight c.stack_to_traverse) c h
        (omega arith)
  can_drain (suc new) c h =
      drain_stack (suc new) (λ d k. can_drain new d (omega arith))
        (stack_weight c.stack_to_traverse) c h (omega arith)

  -- What is reached by one step and then some.
  module _ {A : Type 0} where
    -- The run gave a value, or it reached a visit that gives none.
    abbrev pub GivesOrStuck : ParserIteratorContext e → Outcome A → Type 0
    GivesOrStuck c o =
        ((a : A) × (o ≡ ok a)) ⊎ ((d : ParserIteratorContext e) × Reaches c d × Stuck d)

  -- `next_key_preorder` gives no key, or gives one after which fewer visits are left, or is stuck.
  abbrev NextOf :
      ℕ → ParserIteratorContext e → Outcome (Option CellKeyNode × ParserIteratorContext e) → Type 0
  NextOf n c o =
      ((d : ParserIteratorContext e) × (o ≡ ok (none, d)))
      ⊎ ((key : CellKeyNode) × (d : ParserIteratorContext e) × (m : ℕ) × (o ≡ ok (some key, d))
          × (m < n)
          × Drains m d
          × Reaches c d)
      ⊎ ((d : ParserIteratorContext e) × Reaches c d × Stuck d)

  -- The iteration with a key on top whose visit gives a result.
  abbrev after_visit :
      ℕ
      → CellKeyNode
      → ParserIteratorContext e
      → Outcome (Option CellKeyNode × ParserIteratorContext e)
  after_visit fuel node c = elim (is_returned node c) [
    | true ↦ ok (some node, c)
    | false ↦ next_key_preorder fuel f c
  ]

  next_key_preorder-visited :
      {node node' : CellKeyNode} {rest : List CellKeyNode}
      → (fuel : ℕ) (c c' : ParserIteratorContext e) → c.stack_to_traverse ≡ node ∷ rest
      → visit f node (record c { stack_to_traverse = rest }) ≡ ok (node', c')
      → next_key_preorder (suc fuel) f c ≡ after_visit fuel node' c'
  unfolding next_key_preorder
  next_key_preorder-visited fuel c c' top v = simp (top, v, next_key_preorder, ◌>>=◌)

  passes :
      {node node' : CellKeyNode} {rest : List CellKeyNode}
      → (fuel : ℕ) (c c' : ParserIteratorContext e) → c.stack_to_traverse ≡ node ∷ rest
      → visit f node (record c { stack_to_traverse = rest }) ≡ ok (node', c')
      → is_returned node' c' ≡ false
      → next_key_preorder (suc (suc fuel)) f c ≡ next_key_preorder (suc fuel) f c'
  passes fuel c c' top v passed =
      next_key_preorder-visited (suc fuel) c c' top v ∙ rw (passed, after_visit) refl

  next_key-NextOf :
      (n fuel : ℕ) (c : ParserIteratorContext e)
      → n ≤ fuel
      → Drains n c
      → NextOf n c (next_key_preorder (suc fuel) f c)
  unfolding next_key_preorder
  next_key-NextOf n fuel c h (drained empty) = inl (c, simp (empty, next_key_preorder))
  next_key-NextOf (suc n) fuel c h (stuck s) = inr (inr (c, here, s))
  next_key-NextOf (suc n) zero c h (onward v d) = absurd (omega arith)
  next_key-NextOf (suc n) (suc fuel) c h (onward (visits {c' = c'} {node' = node'} top v) d) =
      elim (Bool-cases (is_returned node' c')) [
        | inl returned ↦ inr (
            inl (
              node',
              c',
              n,
              rw (top, v, returned, next_key_preorder, ◌>>=◌) refl,
              omega arith,
              d,
              step (visits top v) here,
            ))
        | inr passed ↦
            let on : next_key_preorder (suc (suc fuel)) f c ≡ next_key_preorder (suc fuel) f c' =
              passes fuel c c' top v passed in
            elim (next_key-NextOf n fuel c' (omega arith) d) [
              | inl (last, o) ↦ inl (last, on ∙ o)
              | inr (inl (key, d', m, o, less, more, reached)) ↦
                  inr (inl (key, d', m, on ∙ o, omega arith, more, step (visits top v) reached))
              | inr (inr (d', reached, s)) ↦ inr (inr (d', step (visits top v) reached, s))
            ]
      ]

  Reaches-Reaches : {a b c : ParserIteratorContext e} → Reaches a b → Reaches b c → Reaches a c
  Reaches-Reaches here r = r
  Reaches-Reaches (step v q) r = step v (Reaches-Reaches q r)

  counted :
      (fuel : ℕ) (c c' : ParserIteratorContext e) (key : CellKeyNode) (keys values : ℕ)
      → next_key_preorder (suc fuel) f c ≡ ok (some key, c')
      → count_loop (suc fuel) f c keys values
        ≡ count_loop fuel f c' (suc keys) (values + length (fields key).sub_values)
  unfolding count_loop
  counted fuel c c' key keys values o = simp (o, count_loop, ◌>>=◌)

  count_loop-GivesOrStuck :
      (fuel n : ℕ) (c : ParserIteratorContext e) (keys values : ℕ)
      → n ≤ fuel
      → Drains n c
      → GivesOrStuck c (count_loop (suc fuel) f c keys values)
  unfolding count_loop
  count_loop-GivesOrStuck zero n c keys values h d = elim (next_key-NextOf n zero c h d) [
    | inl (last, o) ↦ inl ((keys, values), rw (o, count_loop, ◌>>=◌) refl)
    | inr (inl (key, c', m, o, less, more, reached)) ↦ absurd (omega arith)
    | inr (inr s) ↦ inr s
  ]
  count_loop-GivesOrStuck (suc fuel) n c keys values h d =
      elim (next_key-NextOf n (suc fuel) c h d) [
        | inl (last, o) ↦ inl ((keys, values), rw (o, count_loop, ◌>>=◌) refl)
        | inr (inl (key, c', m, o, less, more, reached)) ↦
            let on = counted (suc fuel) c c' key keys values o in
            elim (count_loop-GivesOrStuck fuel m c' (suc keys)
              (values + length (fields key).sub_values) (omega arith) more) [
                | inl (counts, last) ↦ inl (counts, on ∙ last)
                | inr (c'', further, s) ↦ inr (c'', Reaches-Reaches reached further, s)
              ]
        | inr (inr s) ↦ inr s
      ]

-- Counting the keys and the values ends on every file, also where sub-key lists refer back to keys above
-- them: with some fuel the counts are given, or the iteration reaches a key whose visit gives no result,
-- because reading its sub keys panics or does not end.
pub count_all_keys_and_values_ends :
    (e : Env) (f : FileInfo) (state : State) (root : Option CellKeyNode) (filter : Filter e.regexes)
    → (fuel : ℕ) × GivesOrStuck {e = e} f
        (from_parser state root true filter false)
        (count_all_keys_and_values e fuel f state root filter)
unfolding count_all_keys_and_values
count_all_keys_and_values_ends e f state root filter =
    let start : ParserIteratorContext e = from_parser state root true filter false in
    let (needed, d) = can_drain f (left f start) start (omega arith) in
    (suc needed, count_loop-GivesOrStuck f needed needed start 0 0 (omega arith) d)
