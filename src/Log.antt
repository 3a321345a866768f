-- ===== src/Log.antt =====
-- src/log.rs: the warnings that parsing collects. `logs` is `None` until the first entry. The text of
-- an entry is the list of its parts, as `format!` joins them: literal pieces and printed values.
pub mod Laws
use notatin.Base.{ℕ, String, Bool, true, false, not, Option, none, some, List, [], ◌∷◌, ◌++◌, map}

pub data LogCode : Type 0 where
  warning_other warning_nom warning_conversion warning_content warning_big_data_content : LogCode
  warning_unrecognized_bitflag warning_transaction_log warning_iterator : LogCode
  warning_base_block warning_parse warning_recovery info : LogCode

-- A piece of a formatted text.
pub data Part : Type 0 where
  lit : String → Part
  num : ℕ → Part
  bytes : List ℕ → Part

pub record Log : Type 0 where
  pub code : LogCode
  pub text : List Part

pub record Logs : Type 0 where
  pub logs : Option (List Log)

abbrev pub empty : Logs
empty = record { logs = none }

-- `Logs::add` with `add_internal`.
unfoldable pub add : LogCode → List Part → Logs → Logs
add code text l = record {
  logs = elim l.logs [
    | none ↦ some (record { code = code; text = text } ∷ [])
    | some entries ↦ some (entries ++ record { code = code; text = text } ∷ [])
  ];
}

unfoldable pub has_logs : Logs → Bool
has_logs l = elim l.logs [ none ↦ false | some [] ↦ false | some (x ∷ xs) ↦ true ]

unfoldable pub get_option : Logs → Option Logs
get_option l = elim l.logs [ none ↦ none | some entries ↦ some l ]

unfoldable pub prepend_all : List Part → Logs → Logs
prepend_all prefix l = record {
  logs = elim l.logs [
    | none ↦ none
    | some entries ↦ some (map (λ (e : Log). record e { text = prefix ++ e.text }) entries)
  ];
}

-- `unwrap_or_default` on the entries.
abbrev pub entries : Logs → List Log
entries l = elim l.logs [ none ↦ [] | some es ↦ es ]

unfoldable pub extend : Logs → Logs → Logs
extend l additional = record {
  logs = elim l.logs [
    | none ↦ some (entries additional)
    | some es ↦ some (es ++ entries additional)
  ];
}
