-- ===== src/Security.antt =====
-- src/cell_key_security.rs: the security cells of a key, along their forward links. `SecurityDescriptor`
-- of the crate winstructs is the parameter `Descriptors`.
pub mod Ring
pub mod Tests
use notatin.Base.{
  ℕ, zero, suc, ◌+◌, Option, List, [], ◌∷◌, Bytes, get_from, ◌==◌, unsigned_abs, Bool, true, false,
}
use notatin.Outcome.{Outcome, ok, no_fuel, ok_or, Error, winstructs, buffer, ◌>>=◌ as bind}
use notatin.Log.{Logs, empty}
use notatin.Nom.{Nom, Parser, ◌>>=◌, ◌>>◌, pure, finish}

pub record Descriptors : Type 1 where
  pub SecurityDescriptor : Type 0
  pub from_stream : Bytes → Option SecurityDescriptor

pub record CellKeySecurityDetail : Type 0 where
  pub size : ℕ
  pub unknown1 : ℕ
  pub flink : ℕ
  pub blink : ℕ
  pub reference_count : ℕ
  pub security_descriptor_size : ℕ

pub record CellKeySecurity : Type 0 where
  pub detail : CellKeySecurityDetail
  pub security_descriptor : Bytes
  pub logs : Logs

-- "sk".
abbrev pub sk : Bytes
sk = 0x73 ∷ 0x6b ∷ []

unfoldable pub from_bytes : Nom → Parser CellKeySecurity
from_bytes nom = do
  size ← nom.le_i32
  nom.tag sk
  unknown1 ← nom.le_u16
  flink ← nom.le_u32
  blink ← nom.le_u32
  reference_count ← nom.le_u32
  security_descriptor_size ← nom.le_u32
  security_descriptor ← nom.take_complete security_descriptor_size
  pure (record {
    detail = record {
      size = unsigned_abs size;
      unknown1 = unknown1;
      flink = flink;
      blink = blink;
      reference_count = reference_count;
      security_descriptor_size = security_descriptor_size;
    };
    security_descriptor = security_descriptor;
    logs = empty;
  })

module _ (nom : Nom) (d : Descriptors) (buf : Bytes) (hbin_offset_absolute : ℕ) where
  -- The cell at an offset.
  unfoldable pub cell_at : ℕ → Outcome CellKeySecurity
  unfolding from_bytes
  cell_at offset =
      bind (ok_or (get_from buf (offset + hbin_offset_absolute)) (buffer "read_cell_key_security"))
        λ slice. bind (finish (from_bytes nom slice)) λ r. ok r.1

  -- `SecurityDescriptor::from_stream`, whose error is converted.
  abbrev pub descriptor : CellKeySecurity → Outcome d.SecurityDescriptor
  descriptor cell = ok_or (d.from_stream cell.security_descriptor) winstructs

  -- The `loop`, from one cell on, until the link returns to the first cell.
  unfoldable pub security_loop : ℕ → ℕ → ℕ → Outcome (List d.SecurityDescriptor)
  unfolding cell_at
  security_loop zero security_key_offset offset = no_fuel
  security_loop (suc fuel) security_key_offset offset = bind (cell_at offset) λ cell.
      bind (descriptor cell) λ s. elim (cell.detail.flink == security_key_offset) [
        | true ↦ ok (s ∷ [])
        | false ↦
            bind (security_loop fuel security_key_offset cell.detail.flink) λ rest. ok (s ∷ rest)
      ]

  unfoldable pub read_cell_key_security : ℕ → ℕ → Outcome (List d.SecurityDescriptor)
  unfolding security_loop
  read_cell_key_security fuel security_key_offset =
      security_loop fuel security_key_offset security_key_offset
