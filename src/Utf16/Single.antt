-- ===== src/Utf16/Single.antt =====
-- Reading back an encoded text.
use notatin.Base.{
  ℕ, zero, suc, ◌+◌, ◌-◌, ◌*◌, ◌/◌, ◌%◌, ◌^◌, ◌<◌, ◌≤◌, ◌≡◌, ◌⊎◌, inl, inr, refl, ap, Bool, true,
  false, List, [], ◌∷◌, ◌++◌, Bytes, length, take, ltb, arith, map, append_assoc, ◌∙◌, Bool-cases,
  length-append, le→leb, lt→ltb,
}
use notatin.Outcome.{ok}
use notatin.Log.{Logs, Part}
use notatin.Utf16.{
  Item, char, decode_utf16, units, collect, from_utf16_le_string_single, from_utf16_le_string, join,
  is_surrogate, is_low_surrogate,
}
use notatin.Utf16.Encode.{IsText, AllText, encode_utf16, unit_bytes, encode_char}

-- Every unit fits sixteen bits.
abbrev pub AllUnits : List ℕ → Type 0
AllUnits [] = Unit
AllUnits (u ∷ us) = (u < 2 ^ 16) × AllUnits us

pub units-unit_bytes :
    (us : List ℕ) → AllUnits us → (rest : Bytes) → units (unit_bytes us ++ rest) ≡ us ++ units rest
unfolding units unit_bytes
units-unit_bytes [] h rest = refl
units-unit_bytes (u ∷ us) h rest =
    let e : u % 256 + 256 * (u / 256) ≡ u = omega arith in rw (e, units-unit_bytes us h.1 rest)

pub length-unit_bytes : (us : List ℕ) → length (unit_bytes us) ≡ 2 * length us
unfolding unit_bytes
length-unit_bytes [] = refl
length-unit_bytes (u ∷ us) = omega (arith, length-unit_bytes us)

not_surrogate : (u : ℕ) → (u < 0xd800) ⊎ (0xe000 ≤ u) → is_surrogate u ≡ false
not_surrogate u h = ground arith

-- A unit outside the surrogate range is a character by itself, whatever follows.
decode-basic :
    (missing : Bool) (u : ℕ) (rest : List ℕ)
    → (u < 0xd800) ⊎ (0xe000 ≤ u)
    → decode_utf16 missing (u ∷ rest) ≡ char u ∷ decode_utf16 missing rest
unfolding decode_utf16
decode-basic missing u [] h = ground arith
decode-basic missing u (v ∷ rest) h = rw (not_surrogate u h)

high_of_pair :
    (q : ℕ)
    → q < 1024
    → (is_surrogate (0xd800 + q) ≡ true) × (is_low_surrogate (0xd800 + q) ≡ false)
high_of_pair q h = (ground arith, ground arith)

low_of_pair : (r : ℕ) → r < 1024 → is_low_surrogate (0xdc00 + r) ≡ true
low_of_pair r h = ground arith

join_pair :
    (c : ℕ) → 0x10000 ≤ c → join (0xd800 + (c - 0x10000) / 1024) (0xdc00 + (c - 0x10000) % 1024) ≡ c
join_pair c h = omega arith

decode-pair :
    (missing : Bool) (c : ℕ) (rest : List ℕ)
    → 0x10000 ≤ c
    → c < 0x110000
    → decode_utf16 missing
        ((0xd800 + (c - 0x10000) / 1024) ∷ (0xdc00 + (c - 0x10000) % 1024) ∷ rest)
      ≡ char c ∷ decode_utf16 missing rest
unfolding decode_utf16
decode-pair missing c rest lo hi =
    let high = high_of_pair ((c - 0x10000) / 1024) (omega arith) in
    rw (high.0, high.1, low_of_pair ((c - 0x10000) % 1024) (omega arith), join_pair c lo)

decode-encode_char :
    (missing : Bool) (c : ℕ) (rest : List ℕ)
    → IsText c
    → decode_utf16 missing (encode_char c ++ rest) ≡ char c ∷ decode_utf16 missing rest
decode-encode_char missing c rest h = elim (Bool-cases (ltb c 0x10000)) [
  | inl small ↦ rw small (decode-basic missing c rest h.is_scalar)
  | inr large ↦ rw large (decode-pair missing c rest (ground arith) h.in_range)
]

pub decode-encode_utf16 :
    (missing : Bool) (cs rest : List ℕ)
    → AllText cs
    → decode_utf16 missing (encode_utf16 cs ++ rest) ≡ map char cs ++ decode_utf16 missing rest
unfolding encode_utf16
decode-encode_utf16 missing [] rest h = refl
decode-encode_utf16 missing (c ∷ cs) rest h =
    ap (decode_utf16 missing) (append_assoc (encode_char c) (encode_utf16 cs) rest)
    ∙ decode-encode_char missing c (encode_utf16 cs ++ rest) h.0
    ∙ ap (λ t. char c ∷ t) (decode-encode_utf16 missing cs rest h.1)

-- A text is collected up to its NUL, which is counted and not kept, and adds no warning.
pub collect-nul :
    (detail : List Part) (cs : List ℕ) (rest : List Item) (logs : Logs)
    → AllText cs
    → collect detail (map char cs ++ char 0 ∷ rest) logs
      ≡ ok (record { text = cs; char_count = length cs + 1; logs = logs })
unfolding collect
collect-nul detail [] rest logs h = refl
collect-nul detail (c ∷ cs) rest logs h =
    ground (arith, collect-nul detail cs rest logs h.1, h.0.not_nul)

pub collect-end :
    (detail : List Part) (cs : List ℕ) (logs : Logs)
    → AllText cs
    → collect detail (map char cs ++ []) logs
      ≡ ok (record { text = cs; char_count = length cs; logs = logs })
unfolding collect
collect-end detail [] logs h = refl
collect-end detail (c ∷ cs) logs h = ground (arith, collect-end detail cs logs h.1, h.0.not_nul)

take-append_past :
    (n : ℕ) (xs ys : List ℕ)
    → length xs < n
    → take n (xs ++ 0 ∷ ys) ≡ xs ++ 0 ∷ take (n - length xs - 1) ys
take-append_past zero xs ys h = absurd (omega arith)
take-append_past (suc n) [] ys h = let e : n ≡ suc n - 0 - 1 = omega arith in rw (← e)
take-append_past (suc n) (x ∷ xs) ys h =
    let e : n - length xs - 1 ≡ suc n - suc (length xs) - 1 = omega arith in
    rw (take-append_past n xs ys (omega arith), e)

-- The bytes of a text with its terminating NUL.
abbrev pub terminated : List ℕ → Bytes
terminated cs = unit_bytes (encode_utf16 cs ++ 0 ∷ [])

encode_char-AllUnits :
    (c : ℕ) (us : List ℕ) → IsText c → AllUnits us → AllUnits (encode_char c ++ us)
encode_char-AllUnits c us h k = elim (Bool-cases (ltb c 0x10000)) [
  | inl small ↦ rw small (ground arith, k)
  | inr large ↦ rw large (omega (arith, h.in_range), (omega arith, k))
]

pub encode_utf16-AllUnits :
    (cs us : List ℕ) → AllText cs → AllUnits us → AllUnits (encode_utf16 cs ++ us)
unfolding encode_utf16
encode_utf16-AllUnits [] us h k = k
encode_utf16-AllUnits (c ∷ cs) us h k =
    rw (append_assoc (encode_char c) (encode_utf16 cs) us)
      (encode_char-AllUnits c (encode_utf16 cs ++ us) h.0 (encode_utf16-AllUnits cs us h.1 k))

units-terminated :
    (cs : List ℕ) (tail : Bytes)
    → AllText cs
    → units (terminated cs ++ tail) ≡ encode_utf16 cs ++ 0 ∷ units tail
units-terminated cs tail h =
    units-unit_bytes (encode_utf16 cs ++ 0 ∷ []) (encode_utf16-AllUnits cs (0 ∷ []) h (omega arith))
      tail
    ∙ append_assoc (encode_utf16 cs) (0 ∷ []) (units tail)

pub length-terminated : (cs : List ℕ) → length (terminated cs) ≡ 2 * length (encode_utf16 cs) + 2
length-terminated cs =
    omega (
      arith,
      length-unit_bytes (encode_utf16 cs ++ 0 ∷ []),
      length-append (encode_utf16 cs) (0 ∷ []),
    )

decode-terminated :
    (missing : Bool) (cs : List ℕ) (tail : Bytes) (n : ℕ) (detail : List Part) (logs : Logs)
    → AllText cs
    → length (encode_utf16 cs) < n
    → collect detail (decode_utf16 missing (take n (units (terminated cs ++ tail)))) logs
      ≡ ok (record { text = cs; char_count = length cs + 1; logs = logs })
decode-terminated missing cs tail n detail logs h fits =
    let after = take (n - length (encode_utf16 cs) - 1) (units tail) in
    ap (λ t. collect detail (decode_utf16 missing (take n t)) logs) (units-terminated cs tail h)
    ∙ ap (λ t. collect detail (decode_utf16 missing t) logs)
        (take-append_past n (encode_utf16 cs) (units tail) fits)
    ∙ ap (λ t. collect detail t logs)
        (decode-encode_utf16 missing cs (0 ∷ after) h
          ∙ ap (λ t. map char cs ++ t) (decode-basic missing 0 after (inl (omega arith))))
    ∙ collect-nul detail cs (decode_utf16 missing after) logs h

-- A terminated text at the start of the slice is read back, whatever stands behind it.
pub single-terminated :
    (cs : List ℕ) (tail : Bytes) (count : ℕ) (detail : List Part) (logs : Logs)
    → AllText cs
    → length (terminated cs) ≤ count
    → from_utf16_le_string_single (terminated cs ++ tail) count detail logs
      ≡ ok (record { text = cs; char_count = length cs; logs = logs })
unfolding from_utf16_le_string_single
single-terminated cs tail count detail logs h fits =
    let missing = ltb (length (terminated cs ++ tail) / 2) (count / 2) in
    let e =
      decode-terminated missing cs tail (count / 2) detail logs h
        (omega (arith, length-terminated cs)) in
    let counted = lt→ltb 0 (length cs + 1) (omega arith) in
    let uncounted : length cs + 1 - 1 ≡ length cs = omega arith in rw (e, counted, uncounted)

-- `from_utf16_le_string` reads every text back from its encoding: a text of scalar values without NUL,
-- surrogate pairs included, terminated, within `count` bytes of a slice that has them. Bytes behind
-- the terminator change nothing, and no warning is added.
pub from_utf16_le_string-terminated :
    (cs : List ℕ) (tail : Bytes) (count : ℕ) (detail : List Part) (logs : Logs)
    → AllText cs
    → length (terminated cs) ≤ count
    → count ≤ length (terminated cs ++ tail)
    → from_utf16_le_string (terminated cs ++ tail) count detail logs ≡ ok (cs, logs)
unfolding from_utf16_le_string
from_utf16_le_string-terminated cs tail count detail logs h fits within = rw (
  le→leb count (length (terminated cs ++ tail)) within,
  single-terminated cs tail count detail logs h fits,
)
