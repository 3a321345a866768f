-- ===== src/Utf16/Total.antt =====
-- The UTF-16 readers end with a value on every slice that is as long as the caller's count says.
use notatin.Base.{
  ℕ, zero, suc, ◌+◌, ◌*◌, drop, length-drop, ◌-◌, ◌/◌, ◌≤◌, ◌≡◌, refl, true, false, leb, List, [],
  ◌∷◌, ◌++◌, Bytes, length, take, ltb, le→leb, ◌==◌, if◌then◌else◌, arith, Bool-cases, inl, inr,
  if_both, not,
}
use notatin.Outcome.{ok, ◌>>=◌}
use notatin.Log.{Logs, Part, lit, num, add, warning_conversion}
use notatin.Utf16.{
  Item, char, unpaired, out_of_range, decode_utf16, Decoded, collect, units, push_char,
  from_utf16_le_string_single, from_utf16_le_string, is_blank, strings_loop, from_utf16_le_strings,
  is_surrogate, is_low_surrogate, replacement_character,
}

-- No item stands for an index past the end.
abbrev InRange : List Item → Type 0
InRange [] = Unit
InRange (out_of_range ∷ rest) = ⊥
InRange (_ ∷ rest) = InRange rest

decode-InRange : (us : List ℕ) → InRange (decode_utf16 false us)
unfolding decode_utf16
decode-InRange [] = tt
decode-InRange (u ∷ []) =
    if_both InRange (not (is_surrogate u)) tt (if_both InRange (is_low_surrogate u) tt tt)
decode-InRange (u ∷ v ∷ rest) =
    let next = decode-InRange (v ∷ rest) in
    if_both InRange (not (is_surrogate u)) next (
      if_both InRange (is_low_surrogate u) next
        (if_both InRange (is_low_surrogate v) (decode-InRange rest) next))

collect_total :
    (detail : List Part) (items : List Item) (logs : Logs)
    → InRange items
    → (d : Decoded) × (collect detail items logs ≡ ok d)
unfolding collect
collect_total detail [] logs h = (record { text = []; char_count = 0; logs = logs }, refl)
collect_total detail (char c ∷ rest) logs h =
    let (d, e) = collect_total detail rest logs h in
    elim (Bool-cases (c == 0)) [
      | inl nul ↦ (record { text = []; char_count = 1; logs = logs }, rw nul)
      | inr other ↦ (push_char c d, rw (other, e))
    ]
collect_total detail (unpaired u ∷ rest) logs h =
    let warned =
      add warning_conversion (detail ++ lit ": unpaired surrogate found: " ∷ num u ∷ []) logs in
    let (d, e) = collect_total detail rest warned h in (push_char replacement_character d, rw e)
collect_total detail (out_of_range ∷ rest) logs h = elim h [ ]

single_total :
    (slice : Bytes) (count : ℕ) (detail : List Part) (logs : Logs)
    → count ≤ length slice
    → (d : Decoded) × (from_utf16_le_string_single slice count detail logs ≡ ok d)
unfolding from_utf16_le_string_single
single_total slice count detail logs h =
    let has_all : ltb (length slice / 2) (count / 2) ≡ false = ground arith in
    let us = take (count / 2) (units slice) in
    let (d, e) = collect_total detail (decode_utf16 false us) logs (decode-InRange us) in
    (if ltb 0 d.char_count then record d { char_count = d.char_count - 1 } else d, rw (has_all, e))

-- `from_utf16_le_string` ends with a text on every slice of `count` bytes or more, whatever the bytes:
-- it neither panics nor reads past the slice.
pub from_utf16_le_string_total :
    (slice : Bytes) (count : ℕ) (detail : List Part) (logs : Logs)
    → count ≤ length slice
    → (r : List ℕ × Logs) × (from_utf16_le_string slice count detail logs ≡ ok r)
unfolding from_utf16_le_string
from_utf16_le_string_total slice count detail logs h =
    let (d, e) = single_total slice count detail logs h in
    ((d.text, d.logs), rw (le→leb count (length slice) h, e))

abbrev Ends : ℕ → Bytes → ℕ → ℕ → List Part → Logs → Type 0
Ends fuel slice count offset detail logs =
    (r : List (List ℕ) × Logs) × (strings_loop fuel slice count offset detail logs ≡ ok r)

-- A round that reads a string ends if the rest of the loop does.
loop_round :
    (fuel : ℕ) (slice : Bytes) (count offset : ℕ) (detail : List Part) (logs : Logs) (d : Decoded)
    → ltb offset count ≡ true
    → leb offset (length slice) ≡ true
    → from_utf16_le_string_single (drop offset slice) (count - offset) detail logs ≡ ok d
    → Ends fuel slice count (offset + (d.char_count * 2 + 2)) detail d.logs
    → Ends (suc fuel) slice count offset detail logs
unfolding strings_loop
loop_round fuel slice count offset detail logs d more inside read (r, e) =
    elim (Bool-cases (is_blank d.text)) [
      | inl blank ↦ (([], d.logs), rw (more, inside, read, blank, strings_loop, ◌>>=◌) refl)
      | inr shown ↦
          ((d.text ∷ r.0, r.1), rw (more, inside, read, shown, e, strings_loop, ◌>>=◌) refl)
    ]

-- Each round moves the offset by two bytes or more.
strings_loop_total :
    (fuel : ℕ) (slice : Bytes) (count offset : ℕ) (detail : List Part) (logs : Logs)
    → count ≤ length slice
    → count ≤ offset + 2 * fuel
    → Ends (suc fuel) slice count offset detail logs
unfolding strings_loop
strings_loop_total zero slice count offset detail logs h enough =
    let past : ltb offset count ≡ false = ground arith in (([], logs), rw (past, strings_loop) refl)
strings_loop_total (suc fuel) slice count offset detail logs h enough =
    elim (Bool-cases (ltb offset count)) [
      | inr past ↦ (([], logs), rw (past, strings_loop) refl)
      | inl more ↦
          let inside : offset ≤ length slice = ground arith in
          let (d, e) =
            single_total (drop offset slice) (count - offset) detail logs
              (omega (arith, length-drop offset slice)) in
          loop_round (suc fuel) slice count offset detail logs d more
            (le→leb offset (length slice) inside) e
            (strings_loop_total fuel slice count (offset + (d.char_count * 2 + 2)) detail d.logs h
              (omega arith))
    ]

-- `from_utf16_le_strings` ends with a list of texts where the slice has `count` bytes or more.
pub from_utf16_le_strings_total :
    (slice : Bytes) (count : ℕ) (detail : List Part) (logs : Logs)
    → count ≤ length slice
    → (r : List (List ℕ) × Logs) × (from_utf16_le_strings slice count detail logs ≡ ok r)
unfolding from_utf16_le_strings
from_utf16_le_strings_total slice count detail logs h =
    strings_loop_total (suc (count / 2)) slice count 0 detail logs h (omega arith)
