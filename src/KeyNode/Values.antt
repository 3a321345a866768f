-- ===== src/KeyNode/Values.antt =====
-- src/cell_key_node.rs, the values of a key: `read_values`, `get_value` and `next_value`.
use notatin.Base.{
  ℕ, suc, ◌+◌, ◌*◌, Bool, true, false, ◌&&◌, not, Option, none, some, List, [], ◌∷◌, Bytes, length,
  get_elem?, get_from, ℤ, ltb, ◌==◌, if◌then◌else◌,
}
use notatin.Outcome.{Outcome, ok, panic, ◌>>=◌}
use notatin.Log.{Logs, lit, num, add, warning_parse}
use notatin.Nom.{Nom, done, failed, crash}
use notatin.Parser.{FileInfo}
use notatin.SubKeyList.{parse_key_values}
use notatin.State.{same_text}
use notatin.Filter.{to_ascii_lowercase}
use notatin.Value.Cell.{CellKeyValue, cell_key_value, from_bytes}
use notatin.Value.Read.{read_value_bytes}
use notatin.KeyNode.{KeyFields}

-- What `read_values` leaves: the values that were read, the logs, and whether it returns an error.
pub record ValuesRead : Type 0 where
  pub sub_values : List CellKeyValue
  pub logs : Logs
  pub is_err : Bool

abbrev with_value : CellKeyValue → ValuesRead → ValuesRead
with_value v r = record r { sub_values = v ∷ r.sub_values }

module _ (nom : Nom) (blake3 : Bytes → Bytes) (f : FileInfo) where
  -- The loop over the offsets of the values, before which `logs` were written.
  unfoldable pub values_loop : List ℕ → Option ℕ → Logs → Outcome ValuesRead
  unfolding from_bytes read_value_bytes
  values_loop [] sequence_num logs = ok (record { sub_values = []; logs = logs; is_err = false })
  values_loop (val ∷ vals) sequence_num logs =
      elim (get_elem? f.buffer (val + f.hbin_offset_absolute)) [
        | none ↦ ok (record {
          sub_values = [];
          logs =
              add warning_parse
                (lit "read_values error: offset "
                  ∷ num (val + f.hbin_offset_absolute)
                  ∷ lit " out of range"
                  ∷ [])
                logs;
          is_err = false;
        })
        | some _ ↦ elim (get_from f.buffer (val + f.hbin_offset_absolute)) [
          | none ↦ ok (record { sub_values = []; logs = logs; is_err = true })
          | some slice ↦ elim (from_bytes nom (val + f.hbin_offset_absolute) sequence_num slice) [
            | done rest v ↦ do
              value ← read_value_bytes nom blake3 f v
              more ← values_loop vals sequence_num logs
              ok (with_value value more)
            | failed e ↦ ok (record { sub_values = []; logs = logs; is_err = true })
            | crash ↦ panic
          ]
        ]
      ]

  -- `read_values`: a list that starts past the file is ignored, and so is one that is too long.
  unfoldable pub read_values : KeyFields → Option ℕ → Outcome ValuesRead
  unfolding values_loop parse_key_values
  read_values k sequence_num =
      if starts_in_file k.detail.key_values_list_offset_relative
      then (if ltb (1024 * 1024) k.detail.number_of_key_values
          then ok (record {
            sub_values = k.sub_values;
            logs =
                add warning_parse
                  (lit "read_values error: too many values: "
                    ∷ num k.detail.number_of_key_values
                    ∷ [])
                  k.logs;
            is_err = false;
          })
          else elim (parse_key_values nom f k.detail.number_of_key_values
              k.detail.key_values_list_offset_relative) [
                | done rest key_values ↦ values_loop key_values sequence_num k.logs
                | failed e ↦ ok (record { sub_values = []; logs = k.logs; is_err = true })
                | crash ↦ panic
              ])
      else ok (record { sub_values = k.sub_values; logs = k.logs; is_err = false })
    where
      starts_in_file : ℤ → Bool
      starts_in_file (ℤ.pos n) = not (n == 0) && ltb n (length f.buffer)
      starts_in_file (ℤ.negsuc n) = false

abbrev name_of : CellKeyValue → List ℕ
name_of (cell_key_value v older) = v.detail.value_name

-- The `find` of `get_value`, by a name in lower case.
unfoldable pub find_value : List ℕ → List CellKeyValue → Option CellKeyValue
find_value name [] = none
find_value name (v ∷ vs) =
    let rest = find_value name vs in
    if same_text (to_ascii_lowercase (name_of v)) name then some v else rest

unfoldable pub get_value : KeyFields → List ℕ → Option CellKeyValue
unfolding find_value
get_value k find_value_name = find_value (to_ascii_lowercase find_value_name) k.sub_values

unfoldable pub next_value : KeyFields → ℕ → Option (CellKeyValue × ℕ)
next_value k sub_values_iter_index = elim (get_elem? k.sub_values sub_values_iter_index) [
  | some value ↦ some (value, suc sub_values_iter_index)
  | none ↦ none
]
