-- ===== src/KeyNode/Tests.antt =====
-- A run of the reading of a key's cell, with five bytes of slack and a byte behind the cell.
use notatin.Base.{◌≡◌, refl, none, [], ◌∷◌, ◌++◌, Bytes, replicate, drop, arith}
use notatin.Nom.{done}
use notatin.Nom.Reader.{reader}
use notatin.KeyNode.{from_bytes, from_bits_checked}
use notatin.KeyNode.Header.{WholeKey, key_at, from_bytes-done}

abbrev key_cell : Bytes
key_cell =
    0xa8
    ∷ 0xff
    ∷ 0xff
    ∷ 0xff
    ∷ 0x6e
    ∷ 0x6b
    ∷ 0x20
    ∷ 0
    ∷ (replicate 68 3 ++ (3 ∷ 0 ∷ 0 ∷ 0 ∷ 0x52 ∷ 0x75 ∷ 0x6e ∷ 1 ∷ 2 ∷ 3 ∷ 4 ∷ 5 ∷ 9 ∷ []))

key_cell-WholeKey : WholeKey key_cell
unfolding from_bits_checked
key_cell-WholeKey = record {
  signed = refl;
  holds_name = omega arith;
  fits = omega arith;
  compressed = refl;
  bytes = (omega arith, (omega arith, (omega arith, tt)));
}

from_bytes-done_example :
    from_bytes reader (λ bs. bs) 4128 [] none key_cell
    ≡ done (drop 88 key_cell) (key_at (λ bs. bs) 4128 [] none key_cell)
from_bytes-done_example = from_bytes-done reader key_cell (λ bs. bs) 4128 [] none key_cell-WholeKey
