-- ===== src/Security/Tests.antt =====
-- Two security cells, and a chain that does not return.
use notatin.Base.{ℕ, ◌≡◌, refl, some, List, [], ◌∷◌, ◌++◌, Bytes}
use notatin.Outcome.{ok, no_fuel}
use notatin.Log.{empty}
use notatin.Nom.Reader.{reader}
use notatin.Security.{Descriptors, CellKeySecurity, cell_at, read_cell_key_security}
use notatin.Security.Ring.{descriptors, read_cell_key_security-Ring, read_cell_key_security_endless}

-- A descriptor is taken to be its bytes.
abbrev as_bytes : Descriptors
as_bytes = record { SecurityDescriptor = Bytes; from_stream = λ bs. some bs }

-- A cell with the links `flink` and 0 and a descriptor of one byte.
abbrev cell_bytes : ℕ → ℕ → Bytes
cell_bytes flink d =
    0xe8 ∷ 0xff ∷ 0xff ∷ 0xff ∷ 0x73 ∷ 0x6b ∷ 0 ∷ 0 ∷ flink ∷ 0 ∷ 0 ∷ 0 ∷ 0 ∷ 0 ∷ 0 ∷ 0 ∷ 1 ∷ 0 ∷ 0
    ∷ 0 ∷ 1 ∷ 0 ∷ 0 ∷ 0 ∷ d ∷ []

abbrev cell : ℕ → ℕ → CellKeySecurity
cell flink d = record {
  detail = record {
    size = 24;
    unknown1 = 0;
    flink = flink;
    blink = 0;
    reference_count = 1;
    security_descriptor_size = 1;
  };
  security_descriptor = d ∷ [];
  logs = empty;
}

abbrev ring_bytes : Bytes
ring_bytes = cell_bytes 25 7 ++ cell_bytes 0 8

abbrev ring : List (CellKeySecurity × Bytes)
ring = (cell 25 7, 7 ∷ []) ∷ (cell 0 8, 8 ∷ []) ∷ []

read_cell_key_security-Ring_example :
    read_cell_key_security reader as_bytes ring_bytes 0 2 0
    ≡ ok (descriptors reader as_bytes ring_bytes 0 ring)
unfolding cell_at
read_cell_key_security-Ring_example =
    read_cell_key_security-Ring reader as_bytes ring_bytes 0 0 ring
      ((refl, refl), refl, ((refl, refl), refl))

abbrev chain_bytes : Bytes
chain_bytes = cell_bytes 25 7 ++ cell_bytes 25 8

read_cell_key_security_endless_example :
    read_cell_key_security reader as_bytes chain_bytes 0 1000 0 ≡ no_fuel
unfolding cell_at
read_cell_key_security_endless_example =
    read_cell_key_security_endless reader as_bytes chain_bytes 0 0 (cell 25 7, 7 ∷ [])
      (cell 25 8, 8 ∷ []) 1000 (refl, refl) (refl, refl) refl refl
