-- ===== src/State/Laws.antt =====
-- What `add` and `remove` do to the vectors that `get` gives.
use notatin.Base.{
  ℕ, ◌≡◌, refl, ap, ap₂, sym, ◌∙◌, inl, inr, Bool, true, false, ◌&&◌, Option, none, some, List, [],
  ◌∷◌, ◌++◌, Bytes, ◌==◌, ==_iff, Bool-cases, if◌then◌else◌, arith,
}
use notatin.State.{
  same_text, Map, get, add, remove_key, put, take_out, remove_found, KeyCell, same_hash,
  before_last, or_empty, remove_key_cell,
}

==_refl : (a : ℕ) → (a == a) ≡ true
==_refl a = ground arith

pub same_text_refl : (a : Bytes) → same_text a a ≡ true
same_text_refl [] = refl
same_text_refl (x ∷ xs) = rw (==_refl x) (same_text_refl xs)

both : (p q : Bool) → (p && q) ≡ true → (p ≡ true) × (q ≡ true)
both true q h = (refl, h)
both false q h = cc

same_text-eq : (a b : Bytes) → same_text a b ≡ true → a ≡ b
same_text-eq [] [] h = refl
same_text-eq [] (y ∷ ys) h = cc
same_text-eq (x ∷ xs) [] h = cc
same_text-eq (x ∷ xs) (y ∷ ys) h =
    let (first, rest) = both (x == y) (same_text xs ys) h in
    ap₂ (λ s t. s ∷ t) ((==_iff x y).0 first) (same_text-eq xs ys rest)

-- The vector of a key, or the empty one.
abbrev pub values_of : {V : Type 0} → Option (List V) → List V
values_of none = []
values_of (some vs) = vs

same_or_other :
    (k key key' : Bytes) → same_text k key ≡ true → same_text k key' ≡ same_text key key'
same_or_other k key key' h = ap (λ t. same_text t key') (same_text-eq k key h)

module _ {V : Type 0} where
  add_below :
      (k : Bytes) (vs : List V) (m : Map V) (key : Bytes) (value : V)
      → same_text k key ≡ false
      → add ((k, vs) ∷ m) key value ≡ (k, vs) ∷ add m key value
  unfolding add
  add_below k vs m key value h = rw (h, add)

  -- An entry in front of two maps that agree on a key.
  past :
      (k : Bytes) (vs : List V) (m m' : Map V) (key : Bytes)
      → get m key ≡ get m' key
      → get ((k, vs) ∷ m) key ≡ get ((k, vs) ∷ m') key
  unfolding get
  past k vs m m' key h = elim (Bool-cases (same_text k key)) [
    | inl here ↦ rw (here, get)
    | inr below ↦ rw (below, get) h
  ]

  -- A value that is added stands at the end of the vector of its key, and no other key is touched.
  pub get-add :
      (m : Map V) (key key' : Bytes) (value : V)
      → get (add m key value) key'
        ≡ (if same_text key key' then some (values_of (get m key) ++ value ∷ []) else get m key')
  unfolding get add
  get-add [] key key' value = elim (Bool-cases (same_text key key')) [
    | inl same ↦ rw (same, add, get)
    | inr other ↦ rw (other, add, get)
  ]
  get-add ((k, vs) ∷ m) key key' value = elim (Bool-cases (same_text k key)) [
    | inl here ↦ elim (Bool-cases (same_text key key')) [
      | inl same ↦ rw (here, same_or_other k key key' here, same, add, get)
      | inr other ↦ rw (here, same_or_other k key key' here, other, add, get)
    ]
    | inr below ↦ elim (Bool-cases (same_text key key')) [
      | inl same ↦
          let not_here : same_text k key' ≡ false =
            ap (same_text k) (sym (same_text-eq key key' same)) ∙ below in
          rw (below, not_here, same, get-add m key key' value, add, get) (rw same)
      | inr other ↦
          ap (λ t. get t key') (add_below k vs m key value below)
          ∙ past k vs (add m key value) m key' (get-add m key key' value ∙ rw other)
          ∙ rw other
    ]
  ]

  get-put :
      (m : Map V) (key : Bytes) (vs ws : List V)
      → get m key ≡ some vs
      → get (put m key ws) key ≡ some ws
  unfolding get put
  get-put [] key vs ws h = cc
  get-put ((k, us) ∷ m) key vs ws h = elim (Bool-cases (same_text k key)) [
    | inl here ↦ rw (here, put, get) (rw here)
    | inr below ↦ rw (below, put, get) (rw below (get-put m key vs ws (rw (below, get) at h)))
  ]

  get-remove_key_other :
      (m : Map V) (key key' : Bytes)
      → same_text key key' ≡ false
      → get (remove_key m key) key' ≡ get m key'
  unfolding get remove_key
  get-remove_key_other [] key key' h = refl
  get-remove_key_other ((k, us) ∷ m) key key' h = elim (Bool-cases (same_text k key)) [
    | inl here ↦ rw (here, same_or_other k key key' here, h, remove_key, get)
    | inr below ↦ elim (Bool-cases (same_text k key')) [
      | inl found ↦ rw (below, found, remove_key, get)
      | inr later ↦ rw (below, later, remove_key, get) (get-remove_key_other m key key' h)
    ]
  ]

-- Where the vector of the parent holds one key alone, and it is removed by its path and its hash, the
-- parent keeps an entry with an empty vector: the entry that is removed is that of the path.
pub remove_key_cell_leftover :
    (m : Map KeyCell) (path hash : Bytes) (cell : KeyCell)
    → get m (or_empty (before_last path)) ≡ some (cell ∷ [])
    → same_hash hash cell.hash ≡ true
    → same_text path cell.path ≡ true
    → same_text path (or_empty (before_last path)) ≡ false
    → get (remove_key_cell m path hash) (or_empty (before_last path)) ≡ some []
unfolding remove_key_cell remove_found take_out
remove_key_cell_leftover m path hash cell h same_h same_p apart =
    rw (h, same_h, same_p, remove_found, remove_key_cell, take_out)
      (get-remove_key_other (put m (or_empty (before_last path)) []) path
          (or_empty (before_last path)) apart
        ∙ get-put m (or_empty (before_last path)) (cell ∷ []) [] h)
