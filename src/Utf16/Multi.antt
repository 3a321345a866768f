-- ===== src/Utf16/Multi.antt =====
-- Reading back a list of texts (REG_MULTI_SZ).
use notatin.Base.{
  ℕ, zero, suc, ◌+◌, ◌-◌, ◌*◌, ◌/◌, ◌<◌, ◌≤◌, ◌≡◌, refl, ap, true, false, List, [], ◌∷◌, ◌++◌,
  Bytes, length, drop, arith, append_assoc, ◌∙◌, length-append, drop-append_right, lt→ltb, le→leb,
  drop-drop, sym,
}
use notatin.Outcome.{ok, ◌>>=◌}
use notatin.Log.{Logs, Part}
use notatin.Utf16.{is_blank, strings_loop, from_utf16_le_strings}
use notatin.Utf16.Encode.{AllText, AllBasic, encode_utf16, unit_bytes}
use notatin.Utf16.Single.{terminated, length-terminated, single-terminated, length-unit_bytes}

-- Texts that the reader does not take for the end of the list.
abbrev pub AllShown : List (List ℕ) → Type 0
AllShown [] = Unit
AllShown (s ∷ ss) = AllText s × AllBasic s × (is_blank s ≡ false) × AllShown ss

-- The texts, each terminated, and an empty text at the end.
unfoldable pub encode_multi : List (List ℕ) → Bytes
encode_multi [] = 0 ∷ 0 ∷ []
encode_multi (s ∷ ss) = terminated s ++ encode_multi ss

-- A text of the basic plane takes one unit for each character.
length-encode_basic : (s : List ℕ) → AllBasic s → length (encode_utf16 s) ≡ length s
unfolding encode_utf16
length-encode_basic [] h = refl
length-encode_basic (c ∷ cs) h = rw (lt→ltb c 0x10000 h.0) (ap suc (length-encode_basic cs h.1))

length-terminated_basic : (s : List ℕ) → AllBasic s → length (terminated s) ≡ length s * 2 + 2
length-terminated_basic s h = omega (arith, length-terminated s, length-encode_basic s h)

-- One round of the loop at a terminated text that is not blank, and at one that is.
module _ (fuel : ℕ) (slice : Bytes) (count offset : ℕ) (detail : List Part) (logs : Logs)
    (s : List ℕ) (tail : Bytes) (text : AllText s) (below : offset < count)
    (within : offset ≤ length slice) (here : drop offset slice ≡ terminated s ++ tail)
    (fits : length (terminated s) ≤ count - offset) where
  loop_shown :
      is_blank s ≡ false
      → strings_loop (suc fuel) slice count offset detail logs ≡ (do
        more ← strings_loop fuel slice count (offset + (length s * 2 + 2)) detail logs
        ok (s ∷ more.0, more.1))
  unfolding strings_loop
  loop_shown shown =
      rw
        (
          lt→ltb offset count below,
          le→leb offset (length slice) within,
          here,
          single-terminated s tail (count - offset) detail logs text fits,
          strings_loop,
        )
        (rw (shown, ◌>>=◌))

  loop_blank :
      is_blank s ≡ true → strings_loop (suc fuel) slice count offset detail logs ≡ ok ([], logs)
  unfolding strings_loop
  loop_blank blank =
      rw
        (
          lt→ltb offset count below,
          le→leb offset (length slice) within,
          here,
          single-terminated s tail (count - offset) detail logs text fits,
          strings_loop,
        )
        (rw (blank, ◌>>=◌))

-- The offset that the loop goes on from after a text of `n` bytes.
drop-terminated :
    (slice : Bytes) (offset n j : ℕ) (front rest : Bytes)
    → drop offset slice ≡ front ++ rest
    → length front ≡ n
    → offset + n ≡ j
    → drop j slice ≡ rest
drop-terminated slice offset n j front rest here size e =
    sym (drop-drop n offset j slice e)
    ∙ ap (drop n) here
    ∙ drop-append_right n front rest (omega arith)
    ∙ let none_left : n - length front ≡ 0 = omega arith in ap (λ t. drop t rest) none_left

loop-encode_multi :
    (fuel : ℕ) (slice : Bytes) (count offset : ℕ) (detail : List Part) (logs : Logs)
    (ss : List (List ℕ)) (tail : Bytes)
    → AllShown ss
    → drop offset slice ≡ encode_multi ss ++ tail
    → offset + length (encode_multi ss) ≤ count
    → count ≤ length slice
    → length ss < fuel
    → strings_loop fuel slice count offset detail logs ≡ ok (ss, logs)
unfolding encode_multi
loop-encode_multi zero slice count offset detail logs ss tail h here fits within enough =
    absurd (omega arith)
loop-encode_multi (suc fuel) slice count offset detail logs [] tail h here fits within enough =
    loop_blank fuel slice count offset detail logs [] tail tt (omega arith) (omega arith)
      (unfold unit_bytes encode_utf16 in here) (unfold unit_bytes encode_utf16 in omega arith)
      (unfold is_blank in refl)
loop-encode_multi (suc fuel) slice count offset detail logs (s ∷ ss) tail h here fits within
      enough =
    let size = length-terminated_basic s h.1 in
    let total = length-append (terminated s) (encode_multi ss) in
    let here' = here ∙ append_assoc (terminated s) (encode_multi ss) tail in
    let rest =
      loop-encode_multi fuel slice count (offset + (length s * 2 + 2)) detail logs ss tail h.3
        (drop-terminated slice offset (length s * 2 + 2) (offset + (length s * 2 + 2))
          (terminated s) (encode_multi ss ++ tail) here' size refl)
        (omega arith) within (omega arith) in
    loop_shown fuel slice count offset detail logs s (encode_multi ss ++ tail) h.0 (omega arith)
      (omega arith) here' (omega arith) h.2
    ∙ rw rest

length-le-encode_multi : (ss : List (List ℕ)) → length ss * 2 + 2 ≤ length (encode_multi ss)
unfolding encode_multi
length-le-encode_multi [] = omega arith
length-le-encode_multi (s ∷ ss) = omega (
  arith,
  length-append (terminated s) (encode_multi ss),
  length-terminated s,
  length-le-encode_multi ss,
)

-- `from_utf16_le_strings` reads back every list of texts of the basic multilingual plane, none of them
-- blank, from its encoding with the empty text at its end; what stands behind the encoding, within
-- `count` or not, changes nothing, no warning is added, and the loop ends.
pub from_utf16_le_strings-encode_multi :
    (ss : List (List ℕ)) (tail : Bytes) (count : ℕ) (detail : List Part) (logs : Logs)
    → AllShown ss
    → length (encode_multi ss) ≤ count
    → count ≤ length (encode_multi ss ++ tail)
    → from_utf16_le_strings (encode_multi ss ++ tail) count detail logs ≡ ok (ss, logs)
unfolding from_utf16_le_strings
from_utf16_le_strings-encode_multi ss tail count detail logs h fits within =
    loop-encode_multi (suc (suc (count / 2))) (encode_multi ss ++ tail) count 0 detail logs ss tail
      h refl (omega arith) within (omega (arith, length-le-encode_multi ss))

unit_bytes-append : (us vs : List ℕ) → unit_bytes (us ++ vs) ≡ unit_bytes us ++ unit_bytes vs
unfolding unit_bytes
unit_bytes-append [] vs = refl
unit_bytes-append (u ∷ us) vs = rw (unit_bytes-append us vs)

-- Where the first text of the list holds one character outside the basic plane, the offset of the
-- next text is counted in characters and not in units: it lands on the terminator of the first text,
-- and every later text is dropped, whatever the list goes on with.
pub from_utf16_le_strings_supplementary :
    (s : List ℕ) (rest : Bytes) (detail : List Part) (logs : Logs)
    → AllText s
    → is_blank s ≡ false
    → length (encode_utf16 s) ≡ length s + 1
    → from_utf16_le_strings (terminated s ++ rest) (length (terminated s ++ rest)) detail logs
      ≡ ok (s ∷ [], logs)
unfolding from_utf16_le_strings encode_utf16
from_utf16_le_strings_supplementary s rest detail logs text shown one_pair =
    loop_shown (suc (count / 2)) slice count 0 detail logs s rest text (omega (arith, size, total))
      (omega arith) refl (omega (arith, total)) shown
    ∙ rw second
  where
    slice : Bytes
    slice = terminated s ++ rest

    count : ℕ
    count = length slice

    total : count ≡ length (terminated s) + length rest
    total = length-append (terminated s) rest

    size : length (terminated s) ≡ length s * 2 + 4
    size = omega (arith, length-terminated s)

    front : Bytes
    front = unit_bytes (encode_utf16 s)

    split : slice ≡ front ++ (terminated [] ++ rest)
    split =
        ap (λ t. t ++ rest) (unit_bytes-append (encode_utf16 s) (0 ∷ []))
        ∙ append_assoc front (unit_bytes (0 ∷ [])) rest

    at_terminator : drop (0 + (length s * 2 + 2)) slice ≡ terminated [] ++ rest
    at_terminator =
        drop-terminated slice 0 (length s * 2 + 2) (0 + (length s * 2 + 2)) front
          (terminated [] ++ rest) split (omega (arith, length-unit_bytes (encode_utf16 s))) refl

    second :
        strings_loop (suc (count / 2)) slice count (0 + (length s * 2 + 2)) detail logs
        ≡ ok ([], logs)
    second =
        loop_blank (count / 2) slice count (0 + (length s * 2 + 2)) detail logs [] rest tt
          (omega (arith, size, total)) (omega (arith, size, total)) at_terminator
          (omega (arith, length-terminated [], size, total)) refl
