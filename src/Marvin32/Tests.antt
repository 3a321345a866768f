-- ===== src/Marvin32/Tests.antt =====
-- Runs of the hash on vectors of the unit tests in src/marvin32.rs.
use notatin.Marvin32.Padding.{padded_hash, marvin32-eq-padded_hash}
use notatin.Base.{◌≡◌, arith, refl, [], ◌∷◌}
use notatin.Outcome.{ok}
use notatin.Marvin32.{marvin32}

no_data : marvin32 0x4FB61A001BDBCC [] 0 ≡ ok 0x30ED35C100CD3C7D
unfolding marvin32
no_data = refl

three_bytes : marvin32 0x4FB61A001BDBCC (0x37 ∷ 0xF4 ∷ 0x95 ∷ []) 3 ≡ ok 0xF0B07C789B8CF7E8
unfolding marvin32
three_bytes = refl

seven_bytes :
    marvin32 0x804FB61A001BDBCC (0xAB ∷ 0x42 ∷ 0x7E ∷ 0xA8 ∷ 0xD1 ∷ 0x0F ∷ 0xC7 ∷ []) 7
    ≡ ok 0xE203987DBA252FB3
unfolding marvin32
seven_bytes = refl

marvin32-eq-padded_hash_example :
    marvin32 0x804FB61A801BDBCC (0 ∷ 0xFF ∷ 0 ∷ 0xFF ∷ 0 ∷ []) 5
    ≡ ok (padded_hash 0x804FB61A801BDBCC (0 ∷ 0xFF ∷ 0 ∷ 0xFF ∷ 0 ∷ []))
marvin32-eq-padded_hash_example =
    marvin32-eq-padded_hash 0x804FB61A801BDBCC (0 ∷ 0xFF ∷ 0 ∷ 0xFF ∷ 0 ∷ []) (omega arith)
