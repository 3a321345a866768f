-- ===== src/Text/Roundtrip.antt =====
-- Text that is escaped or rotated, and read back.
use notatin.Base.{
  ℕ, ◌≡◌, refl, ap, ap₂, ◌∙◌, sym, inl, inr, Bool, true, false, ◌||◌, Option, none, some, List, [],
  ◌∷◌, ◌++◌, append_assoc, ◌==◌, ==_iff, Bool-cases, if◌then◌else◌, arith,
}
use notatin.Text.{quote, is_special, has_special, double_quotes, escape_string, rot13, decode_rot13}

rot13-rot13 : (c : ℕ) → rot13 (rot13 c) ≡ c
unfolding rot13
rot13-rot13 c = ground arith

-- Rotating a text twice gives the text.
decode_rot13-decode_rot13 : (text : List ℕ) → decode_rot13 (decode_rot13 text) ≡ text
unfolding decode_rot13
decode_rot13-decode_rot13 [] = refl
decode_rot13-decode_rot13 (c ∷ cs) =
    ap₂ (λ x xs. x ∷ xs) (rot13-rot13 c) (decode_rot13-decode_rot13 cs)

-- The characters that end a field of a table: tab, carriage return, line feed and comma.
abbrev pub is_separator : ℕ → Bool
is_separator c = c == 9 || c == 0xd || c == 0xa || c == 0x2c

abbrev pub Field : Type 0
Field = Option (List ℕ × List ℕ)

abbrev pub prepend : ℕ → Field → Field
prepend c none = none
prepend c (some (cs, rest)) = some (c ∷ cs, rest)

-- A strict reader of one field, written without `escape_string`: the text of the field, and the input
-- from the character that ended it. A field with no quotes ends at the first separator, and holds no
-- quote.
unfoldable pub read_plain : List ℕ → Field
read_plain [] = some ([], [])
read_plain (c ∷ cs) =
    let rest = prepend c (read_plain cs) in
    if is_separator c then some ([], c ∷ cs) else if c == quote then none else rest

-- The inside of quotes: two quotes stand for one, and any other quote ends the field.
unfoldable pub read_quoted : List ℕ → Field
read_quoted [] = none
read_quoted (c ∷ []) = if c == quote then some ([], []) else none
read_quoted (c ∷ d ∷ cs) =
    let doubled = prepend quote (read_quoted cs) in
    let next = prepend c (read_quoted (d ∷ cs)) in
    if c == quote then (if d == quote then doubled else some ([], d ∷ cs)) else next

unfoldable pub read_field : List ℕ → Field
unfolding read_plain read_quoted
read_field [] = some ([], [])
read_field (c ∷ cs) = if c == quote then read_quoted cs else read_plain (c ∷ cs)

-- The end of the table, or a separator.
abbrev pub EndsField : List ℕ → Type 0
EndsField [] = Unit
EndsField (c ∷ cs) = is_separator c ≡ true

separator_is_no_quote : (c : ℕ) → is_separator c ≡ true → (c == quote) ≡ false
separator_is_no_quote c h = ground arith

read_quoted-end : (rest : List ℕ) → EndsField rest → read_quoted (quote ∷ rest) ≡ some ([], rest)
unfolding read_quoted
read_quoted-end [] h = refl
read_quoted-end (c ∷ cs) h = rw (separator_is_no_quote c h)

read_quoted-other :
    (c : ℕ) (cs : List ℕ) → (c == quote) ≡ false → read_quoted (c ∷ cs) ≡ prepend c (read_quoted cs)
unfolding read_quoted
read_quoted-other c [] h = rw h
read_quoted-other c (d ∷ cs) h = rw h

read_quoted-double_quotes :
    (cs rest : List ℕ)
    → EndsField rest
    → read_quoted (double_quotes cs ++ (quote ∷ rest)) ≡ some (cs, rest)
unfolding read_quoted double_quotes
read_quoted-double_quotes [] rest h = read_quoted-end rest h
read_quoted-double_quotes (c ∷ cs) rest h = elim (Bool-cases (c == quote)) [
  | inl same ↦
      rw (same, double_quotes)
        (ap (prepend quote) (read_quoted-double_quotes cs rest h)
          ∙ ap (λ (t : ℕ). some (t ∷ cs, rest)) (sym ((==_iff c quote).0 same)))
  | inr other ↦
      rw (other, double_quotes)
        (read_quoted-other c (double_quotes cs ++ (quote ∷ rest)) other
          ∙ ap (prepend c) (read_quoted-double_quotes cs rest h))
]

-- A character that makes no field be quoted is an ordinary one of a plain field.
ordinary :
    (c : ℕ) (more : Bool)
    → (is_special c || more) ≡ false
    → (is_separator c ≡ false) × ((c == quote) ≡ false) × (more ≡ false)
ordinary c more h = (ground arith, ground arith, ground arith)

read_plain-end : (rest : List ℕ) → EndsField rest → read_plain rest ≡ some ([], rest)
unfolding read_plain
read_plain-end [] h = refl
read_plain-end (c ∷ cs) h = rw h

read_plain-ordinary :
    (text rest : List ℕ)
    → has_special text ≡ false
    → EndsField rest
    → read_plain (text ++ rest) ≡ some (text, rest)
unfolding read_plain has_special
read_plain-ordinary [] rest h e = read_plain-end rest e
read_plain-ordinary (c ∷ cs) rest h e =
    let (plain, single, more) = ordinary c (has_special cs) h in
    rw (plain, single, read_plain) (ap (prepend c) (read_plain-ordinary cs rest more e))

read_field-ordinary :
    (text rest : List ℕ)
    → has_special text ≡ false
    → EndsField rest
    → read_field (text ++ rest) ≡ some (text, rest)
unfolding read_field has_special
read_field-ordinary [] [] h e = refl
read_field-ordinary [] (c ∷ cs) h e = rw (separator_is_no_quote c e, read_field) (rw e refl)
read_field-ordinary (c ∷ cs) rest h e =
    let (plain, single, more) = ordinary c (has_special cs) h in
    rw (single, plain, read_field) (ap (prepend c) (read_plain-ordinary cs rest more e))

-- A text that is escaped and stands in a table, with a separator or the end of the table behind it, is
-- read back by the strict reader of fields, whatever separators and quotes it holds, and the reader
-- stops where the field ends.
pub read_field-escape_string :
    (text rest : List ℕ)
    → EndsField rest
    → read_field (escape_string text ++ rest) ≡ some (text, rest)
unfolding read_field escape_string
read_field-escape_string text rest e = elim (Bool-cases (has_special text)) [
  | inl special ↦
      rw (special, append_assoc (double_quotes text) (quote ∷ []) rest)
        (read_quoted-double_quotes text rest e)
  | inr plain ↦ rw plain (read_field-ordinary text rest plain e)
]
