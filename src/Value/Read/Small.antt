-- ===== src/Value/Read/Small.antt =====
-- Values of up to 16344 bytes that are written and read back: in the cell of the value, and in a cell
-- of their own.
use notatin.Base.{
  ℕ, zero, suc, ◌+◌, ◌*◌, ◌/◌, ◌%◌, ◌^◌, ◌≤◌, ◌<◌, ◌≡◌, refl, ap, ◌∙◌, true, false, [], ◌∷◌, ◌++◌,
  some, Bytes, IsBytes, length, take, drop, take-append-drop, sym, to_le, from_le, get_range,
  get_from, arith, ◌==◌, ltb, bit_and, bit_xor, ◌&&◌,
}
use notatin.Base.Slices.{get_range_stored, get_range_front}
use notatin.Base.Bits.{bit_and-below}
use notatin.Outcome.{ok}
use notatin.Log.{Logs}
use notatin.Nom.{Nom}
use notatin.Parser.{FileInfo}
use notatin.Value.{CellKeyValueDataTypes, get_value_bytes}
use notatin.Value.BigData.{big_data_size_threshold, is_big_data_block}
use notatin.Value.Read.{
  read_resident, read_cell, read_value_bytes_direct, bytes_or_warning, data_is_resident_mask,
}

take-to_le :
    (n : ℕ) (bs : Bytes) → IsBytes bs → length bs ≤ n → take (length bs) (to_le n (from_le bs)) ≡ bs
take-to_le n [] h k = refl
take-to_le zero (b ∷ bs) h k = absurd (omega arith)
take-to_le (suc n) (b ∷ bs) h k =
    let low : (b + 256 * from_le bs) % 256 ≡ b = omega (arith, h.0) in
    let high : (b + 256 * from_le bs) / 256 ≡ from_le bs = omega (arith, h.0) in
    rw (low, high, take-to_le n bs h.1 (omega arith)) refl

-- The size of the bytes with the resident bit.
abbrev pub resident_size : Bytes → ℕ
resident_size bs = data_is_resident_mask + length bs

resident_bits :
    (n : ℕ)
    → n ≤ 4
    → ((bit_and (data_is_resident_mask + n) data_is_resident_mask == 0) ≡ false)
      × (bit_xor (data_is_resident_mask + n) data_is_resident_mask ≡ n)
resident_bits zero h = (refl, refl)
resident_bits (suc zero) h = (refl, refl)
resident_bits (suc (suc zero)) h = (refl, refl)
resident_bits (suc (suc (suc zero))) h = (refl, refl)
resident_bits (suc (suc (suc (suc zero)))) h = (refl, refl)
resident_bits (suc (suc (suc (suc (suc n))))) h = absurd (omega arith)

-- A value of at most four bytes that stands in its cell is read back: its offset field holds the bytes,
-- its size has the resident bit. What is read is cut to the length of its data type, its offset is that
-- of the field, and nothing is logged.
pub read_value_bytes_direct-resident :
    (nom : Nom) (file_offset : ℕ) (bs : Bytes) (t : CellKeyValueDataTypes) (f : FileInfo)
    (logs : Logs)
    → IsBytes bs
    → length bs ≤ 4
    → read_value_bytes_direct nom file_offset (resident_size bs) (from_le bs) t f logs
      ≡ ok (record {
        value_bytes = get_value_bytes t bs;
        data_offsets_absolute = (file_offset + 12) ∷ [];
        logs = logs;
      })
unfolding read_value_bytes_direct read_resident bytes_or_warning
read_value_bytes_direct-resident nom file_offset bs t f logs bytes short =
    let (resident, size) = resident_bits (length bs) short in
    let stored : to_le 4 (from_le bs) ≡ bs ++ drop (length bs) (to_le 4 (from_le bs)) =
      sym (take-append-drop (length bs) (to_le 4 (from_le bs)))
      ∙ ap (λ t. t ++ drop (length bs) (to_le 4 (from_le bs))) (take-to_le 4 bs bytes short) in
    let found : get_range (to_le 4 (from_le bs)) 0 (length bs) ≡ some bs =
      ap (λ t. get_range t 0 (length bs)) stored
      ∙ get_range_front bs (drop (length bs) (to_le 4 (from_le bs))) in
    rw (resident, read_value_bytes_direct, read_resident)
      (rw (size) (rw (found, bytes_or_warning) refl))

module _ (nom : Nom) (file_offset : ℕ) (t : CellKeyValueDataTypes) (f : FileInfo)
    (logs : Logs) where
  -- A value of fewer than 2 ^ 31 bytes that the file holds in a cell of its own, whatever stands
  -- behind it, is read and cut to the length of its data type, unless it is larger than 16344 bytes and
  -- its cell looks like one of big data. Its offset in the file is given, and nothing is logged.
  pub read_value_bytes_direct-cell :
      (offset : ℕ) (size data_bytes rest : Bytes)
      → length size ≡ 4
      → length data_bytes < 2 ^ 31
      → (ltb big_data_size_threshold (length data_bytes)
          && is_big_data_block (size ++ (data_bytes ++ rest)))
        ≡ false
      → get_from f.buffer (offset + f.hbin_offset_absolute) ≡ some (size ++ (data_bytes ++ rest))
      → read_value_bytes_direct nom file_offset (length data_bytes) offset t f logs
        ≡ ok (record {
          value_bytes = get_value_bytes t data_bytes;
          data_offsets_absolute = (offset + f.hbin_offset_absolute + 4) ∷ [];
          logs = logs;
        })
  unfolding read_value_bytes_direct read_cell bytes_or_warning
  read_value_bytes_direct-cell offset size data_bytes rest sized fits small stored =
      let free : (bit_and (length data_bytes) data_is_resident_mask == 0) ≡ true =
        ap (λ t. t == 0) (bit_and-below 31 (length data_bytes) fits) in
      let found : get_range f.buffer (offset + f.hbin_offset_absolute + 4)
            (offset + f.hbin_offset_absolute + 4 + length data_bytes)
          ≡ some data_bytes =
        get_range_stored f.buffer (offset + f.hbin_offset_absolute) 4 size data_bytes rest sized
          stored in
      rw (free, stored, small, read_value_bytes_direct)
        (rw (found, read_cell, bytes_or_warning) refl)
