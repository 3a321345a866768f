-- ===== src/TransactionLog/Entry.antt =====
-- The two hashes of a log entry.
use notatin.Base.{
  ℕ, ◌+◌, ◌-◌, ◌≤◌, ◌≡◌, ap, ◌∙◌, ◌==◌, ◌&&◌, some, Bytes, IsBytes, length, take, drop, get_range,
  get_range_within, le→leb, arith, length-take, length-drop, take-IsBytes, drop-IsBytes, Bool-cases,
  inl, inr,
}
use notatin.Outcome.{ok, ◌>>=◌}
use notatin.Marvin32.{marvin32}
use notatin.Marvin32.Padding.{padded_hash, marvin32-eq-padded_hash}
use notatin.TransactionLog.{default_seed, calc_hash1, calc_hash2, valid_hashes}

hash_of :
    (bytes : Bytes) (n : ℕ)
    → IsBytes bytes
    → length bytes ≡ n
    → marvin32 default_seed bytes n ≡ ok (padded_hash default_seed bytes)
hash_of bytes n h e =
    ap (marvin32 default_seed bytes) (omega arith) ∙ marvin32-eq-padded_hash default_seed bytes h

module _ (raw : Bytes) (bytes : IsBytes raw) (size : ℕ) (header : 40 ≤ size)
    (within : size ≤ length raw) where
  calc_hash1-eq :
      calc_hash1 raw size ≡ ok (padded_hash default_seed (take (size - 40) (drop 40 raw)))
  unfolding calc_hash1
  calc_hash1-eq =
      let whole : 40 + (size - 40) ≡ size = omega arith in
      let range : get_range raw 40 size ≡ some (take (size - 40) (drop 40 raw)) =
        ap (get_range raw 40) (omega arith) ∙ get_range_within raw 40 (size - 40) (omega arith) in
      rw (le→leb 40 size header, range, ◌>>=◌, calc_hash1)
        (hash_of (take (size - 40) (drop 40 raw)) (size - 40)
          (take-IsBytes (size - 40) (drop 40 raw) (drop-IsBytes 40 raw bytes))
          (omega (arith, length-take (size - 40) (drop 40 raw), length-drop 40 raw)))

  calc_hash2-eq : calc_hash2 raw ≡ ok (padded_hash default_seed (take 32 raw))
  unfolding calc_hash2
  calc_hash2-eq =
      rw (get_range_within raw 0 32 (omega arith), ◌>>=◌)
        (hash_of (take 32 raw) 32 (take-IsBytes 32 raw bytes) (omega (arith, length-take 32 raw)))

  -- Of an entry whose size takes in its header and lies in the file, both hashes are computed without
  -- a panic, and they are valid exactly if the first stored hash is that of the bytes behind the 40 of
  -- the header and the second that of the first 32.
  pub valid_hashes-eq :
      (hash1 hash2 : ℕ)
      → valid_hashes raw size hash1 hash2
        ≡ ok (
            hash1 == padded_hash default_seed (take (size - 40) (drop 40 raw))
            && hash2 == padded_hash default_seed (take 32 raw))
  unfolding valid_hashes
  valid_hashes-eq hash1 hash2 =
      elim (Bool-cases (hash1 == padded_hash default_seed (take (size - 40) (drop 40 raw)))) [
        | inl same ↦ rw (calc_hash1-eq, ◌>>=◌) (rw (same, calc_hash2-eq, ◌>>=◌))
        | inr other ↦ rw (calc_hash1-eq, ◌>>=◌) (rw other)
      ]
