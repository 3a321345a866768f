-- ===== src/KeyNode/Sized.antt =====
-- What the reading of a key's cell checks of its size: the whole cell is in the input.
use notatin.Base.{
  ℕ, ◌≤◌, ◌≡◌, refl, subst, sym, ap, Bool, true, false, Option, List, Bytes, length, leb, leb→le,
  arith, Bool-cases, inl, inr, ◌+◌, ◌-◌, [], ◌∷◌, ℤ, take, drop, from_le, signed32, unsigned_abs,
  length-drop,
}
use notatin.Outcome.{ok, ok_injective}
use notatin.Nom.{Nom, error, IResult, done, failed, crash, finish}
use notatin.KeyNode.{
  CellKeyNode, fields, parts_from_bytes, from_bytes, from_bits_checked, key_node_flags_known,
  key_comp_name, CellKeyNodeDetail, detail_from_bytes, check_size, min_cell_key_size, nk,
}
use notatin.Log.{Logs, lit, empty}
use notatin.BaseBlock.{lift}
use notatin.Ascii.{string_from_bytes}
use notatin.TransactionLog.{parser_eat_remaining}
use notatin.Value.Cell.{ensure}

-- The result of a parser satisfies `P`, where there is one.
abbrev pub Has : {A : Type 0} → (A → Type 0) → IResult A → Type 0
Has {A} P r = (rest : Bytes) (a : A) → r ≡ done rest a → P a

Has-done : {A : Type 0} (P : A → Type 0) (rest : Bytes) (a : A) → P a → Has P (done rest a)
Has-done P rest a h left b e = let same : a ≡ b = cc in rw (sym same) h

Has-next :
    {A B : Type 0} (P : B → Type 0) (r : IResult A) (next : Bytes → A → IResult B)
    → ((rest : Bytes) (a : A) → Has P (next rest a))
    → Has P (elim r as (λ _. IResult B) [
      | done rest a ↦ next rest a
      | failed e ↦ failed e
      | crash ↦ crash
    ])
Has-next P (done rest a) next h = h rest a
Has-next P (failed e) next h = λ left b e. absurd cc
Has-next P crash next h = λ left b e. absurd cc

abbrev pub Sized : ℕ → ℤ → Type 0
Sized len size = (min_cell_key_size ≤ unsigned_abs size) × (unsigned_abs size ≤ len)

check_size-Sized : (size : ℤ) (len : ℕ) → check_size size len ≡ true → Sized len size
unfolding check_size
check_size-Sized size len h = ground arith

Has-ensure :
    {B : Type 0} (P : B → Type 0) (test : Bool) (input : Bytes) (next : Bytes → IResult B)
    → (test ≡ true → Has P (next input))
    → Has P (elim (ensure test input) as (λ _. IResult B) [
      | done rest a ↦ next rest
      | failed e ↦ failed e
      | crash ↦ crash
    ])
Has-ensure P true input next h = h refl
Has-ensure P false input next h = λ left b e. absurd cc

-- The same with the equation of the first result.
Has-next-eq :
    {A B : Type 0} (P : B → Type 0) (r : IResult A) (next : Bytes → A → IResult B)
    → ((rest : Bytes) (a : A) → r ≡ done rest a → Has P (next rest a))
    → Has P (elim r as (λ _. IResult B) [
      | done rest a ↦ next rest a
      | failed e ↦ failed e
      | crash ↦ crash
    ])
Has-next-eq P (done rest a) next h = h rest a refl
Has-next-eq P (failed e) next h = λ left b e. absurd cc
Has-next-eq P crash next h = λ left b e. absurd cc

le_i32-length :
    (nom : Nom) (input rest : Bytes) (a : ℤ)
    → nom.le_i32 input ≡ done rest a
    → length rest + 4 ≡ length input
le_i32-length nom input rest a h = elim (Bool-cases (leb 4 (length input))) [
  | inl long ↦
      let read : done (drop 4 input) (signed32 (from_le (take 4 input))) ≡ done rest a =
        rw (nom.le_i32_lem input, long) at h in
      let same : drop 4 input ≡ rest = cc in
      omega (arith, ap length same, length-drop 4 input, leb→le 4 (length input) long)
  | inr short ↦
      let none_read : failed error ≡ done rest a = rw (nom.le_i32_lem input, short) at h in
      absurd cc
]

module _ (nom : Nom) where
  detail-size :
      (size : ℤ) (input : Bytes) → Has (λ d. d.size ≡ size) (detail_from_bytes nom size input)
  unfolding detail_from_bytes
  detail-size size input =
      let P : CellKeyNodeDetail → Type 0 = λ d. d.size ≡ size in
      Has-next P (nom.le_u16 input) _ λ r _. Has-next P (nom.le_u64 r) _ λ r _.
        Has-next P (nom.le_u32 r) _ λ r _. Has-next P (nom.le_i32 r) _ λ r _.
          Has-next P (nom.le_u32 r) _ λ r _. Has-next P (nom.le_u32 r) _ λ r _.
            Has-next P (nom.le_u32 r) _ λ r _. Has-next P (nom.le_i32 r) _ λ r _.
              Has-next P (nom.le_u32 r) _ λ r _. Has-next P (nom.le_i32 r) _ λ r _.
                Has-next P (nom.le_u32 r) _ λ r _. Has-next P (nom.le_i32 r) _ λ r _.
                  Has-next P (nom.le_u32 r) _ λ r _. Has-next P (nom.le_u32 r) _ λ r _.
                    Has-next P (nom.le_u32 r) _ λ r _. Has-next P (nom.le_u32 r) _ λ r _.
                      Has-next P (nom.le_u32 r) _ λ r _.
                        Has-next P (nom.le_u16 r) _
                          λ r _. Has-next P (nom.le_u16 r) _ λ r _. Has-done P r _ refl

  -- What is read of a cell says that the whole of it is there.
  parts-Sized :
      (input : Bytes)
      → Has
          (λ (r : CellKeyNodeDetail × List ℕ × Logs). Sized (length input) r.0.size)
          (parts_from_bytes nom input)
  unfolding parts_from_bytes
  parts-Sized input =
      let P : CellKeyNodeDetail × List ℕ × Logs → Type 0 = λ r. Sized (length input) r.0.size in
      Has-next-eq P (nom.le_i32 input) _ λ sized size read.
        Has-ensure P (check_size size (length sized + 4)) sized _ λ fits.
          let (large, small) = check_size-Sized size (length sized + 4) fits in
          let whole : Sized (length input) size =
            (large, omega (arith, small, le_i32-length nom input sized size read)) in
          Has-next P (nom.tag nk sized) _ λ r _.
            Has-next-eq P (detail_from_bytes nom size r) _ λ named detail described.
              let same : detail.size ≡ size = detail-size size r named detail described in
              Has-next P (nom.take_complete detail.key_name_size named) _ λ r name_bytes.
                let (flags, logs) =
                  from_bits_checked key_node_flags_known detail.key_node_flag_bits empty in
                Has-next P
                  (lift
                    (string_from_bytes (key_comp_name flags) name_bytes detail.key_name_size
                      (lit "key_name_bytes" ∷ []) logs)
                    r)
                  _
                  λ r name.
                    Has-next P
                      (parser_eat_remaining nom (unsigned_abs size) (length input - length r) r) _
                      λ r slack. Has-done P r _ (subst (Sized (length input)) (sym same) whole)

module _ (nom : Nom) (blake3 : Bytes → Bytes) (offset : ℕ) (path : List ℕ) (seq : Option ℕ) where
  pub from_bytes-Sized :
      (input : Bytes)
      → Has
          (λ n.
            ((fields n).file_offset_absolute ≡ offset)
            × Sized (length input) (fields n).detail.size)
          (from_bytes nom blake3 offset path seq input)
  unfolding from_bytes
  from_bytes-Sized input =
      let P : CellKeyNode → Type 0 = λ n.
        ((fields n).file_offset_absolute ≡ offset) × Sized (length input) (fields n).detail.size in
      Has-next-eq P (parts_from_bytes nom input) _
        λ rest parts read. Has-done P rest _ (refl, parts-Sized nom input rest parts read)

pub finish-Has :
    {A : Type 0} (P : A → Type 0) (r : IResult A)
    → Has P r
    → (x : Bytes × A) → finish r ≡ ok x
    → P x.1
finish-Has P (done rest a) h x e = rw (sym (ok_injective e)) (h rest a refl)
finish-Has P (failed f) h x e = absurd cc
finish-Has P crash h x e = absurd cc
