-- ===== src/Security/Ring.antt =====
-- The walk along the links: a ring is read whole, and a chain that never returns is walked for ever.
use notatin.Base.{
  ℕ, zero, suc, ◌≡◌, refl, ap, ◌∙◌, true, false, some, List, [], ◌∷◌, map, Bytes, length, ◌==◌,
}
use notatin.Outcome.{ok, no_fuel, ok_or, ◌>>=◌}
use notatin.Nom.{Nom}
use notatin.Security.{Descriptors, CellKeySecurity, cell_at, security_loop, read_cell_key_security}

module _ (nom : Nom) (d : Descriptors) (buf : Bytes) (hbin : ℕ) where
  -- A cell with its descriptor.
  abbrev pub Link : Type 0
  Link = CellKeySecurity × d.SecurityDescriptor

  abbrev pub Holds : ℕ → Link → Type 0
  Holds offset (c, s) =
      (cell_at nom d buf hbin offset ≡ ok c) × (d.from_stream c.security_descriptor ≡ some s)

  -- The cells from `offset` on, each linked to the next, and the last to `start`.
  abbrev pub Ring : ℕ → ℕ → List Link → Type 0
  Ring start offset [] = ⊥
  Ring start offset ((c, s) ∷ []) = Holds offset (c, s) × ((c.detail.flink == start) ≡ true)
  Ring start offset ((c, s) ∷ (l ∷ ls)) =
      Holds offset (c, s) × ((c.detail.flink == start) ≡ false) × Ring start c.detail.flink (l ∷ ls)

  abbrev pub descriptors : List Link → List d.SecurityDescriptor
  descriptors ls = map (λ (l : Link). l.1) ls

  loop-Ring :
      (start offset : ℕ) (ls : List Link)
      → Ring start offset ls
      → security_loop nom d buf hbin (length ls) start offset ≡ ok (descriptors ls)
  unfolding security_loop
  loop-Ring start offset [] h = absurd h
  loop-Ring start offset ((c, s) ∷ []) ((cell, stream), last) =
      rw (cell, stream, last, security_loop, ok_or, ◌>>=◌) refl
  loop-Ring start offset ((c, s) ∷ (l ∷ ls)) ((cell, stream), more, rest) =
      rw (cell, stream, more, security_loop, ok_or, ◌>>=◌)
        (rw (loop-Ring start c.detail.flink (l ∷ ls) rest, ◌>>=◌) refl)

  -- The cells of a ring that begins at the offset, and whose links lead back to the first cell only
  -- from the last one, are read with as much fuel as there are cells, and their descriptors are
  -- returned in the order of the links.
  pub read_cell_key_security-Ring :
      (start : ℕ) (ls : List Link)
      → Ring start start ls
      → read_cell_key_security nom d buf hbin (length ls) start ≡ ok (descriptors ls)
  unfolding read_cell_key_security
  read_cell_key_security-Ring start ls h = loop-Ring start start ls h

  loop_endless :
      (start offset : ℕ) (c : CellKeySecurity) (s : d.SecurityDescriptor)
      → Holds offset (c, s)
      → (offset == start) ≡ false
      → c.detail.flink ≡ offset
      → (fuel : ℕ) → security_loop nom d buf hbin fuel start offset ≡ no_fuel
  unfolding security_loop
  loop_endless start offset c s h other self zero = refl
  loop_endless start offset c s (cell, stream) other self (suc fuel) =
      let again : (c.detail.flink == start) ≡ false = ap (λ t. t == start) self ∙ other in
      rw (cell, stream, again, self, security_loop, ok_or, ◌>>=◌)
        (rw (loop_endless start offset c s (cell, stream) other self fuel, ◌>>=◌) refl)

  -- If the first cell links to another one that links to itself, the walk never ends: no fuel is
  -- enough.
  pub read_cell_key_security_endless :
      (start : ℕ) (first second : Link) (fuel : ℕ)
      → Holds start first
      → Holds first.0.detail.flink second
      → (first.0.detail.flink == start) ≡ false
      → second.0.detail.flink ≡ first.0.detail.flink
      → read_cell_key_security nom d buf hbin fuel start ≡ no_fuel
  unfolding read_cell_key_security security_loop
  read_cell_key_security_endless start (c, s) (c', s') zero h h' other self = refl
  read_cell_key_security_endless start (c, s) (c', s') (suc fuel) (cell, stream) h' other self =
      rw (cell, stream, other, read_cell_key_security, security_loop, ok_or, ◌>>=◌)
        (rw (loop_endless start c.detail.flink c' s' h' other self fuel, ◌>>=◌) refl)
