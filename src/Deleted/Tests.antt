-- ===== src/Deleted/Tests.antt =====
-- The search of a bin that holds one value that is no longer in use.
use notatin.Base.{◌≡◌, refl, none, List, [], ◌∷◌, ◌++◌, map, false, Bytes, replicate, ℕ}
use notatin.Outcome.{Outcome, ok, err, panic, no_fuel}
use notatin.Log.{empty}
use notatin.Nom.Reader.{reader}
use notatin.Parser.{FileInfo}
use notatin.HiveBin.{hbin}
use notatin.Value.Cell.{CellKeyValue, fields, CellState, deleted_primary_file}
use notatin.KeyNode.Read.{Env}
use notatin.State.{add}
use notatin.Deleted.{Recovered}
use notatin.Deleted.Bins.{find_free_keys_and_values}
use notatin.Deleted.Marks.{Kept}
use notatin.Deleted.Kept.{find_free_keys_and_values-Kept}

abbrev env : Env
env = record {
  nom = reader;
  regexes = record { Regex = ℕ; new = λ _. none; is_match = λ _ _. false };
  blake3 = λ bs. [];
  fuel = 3;
}

-- A bin of 64 bytes with a free cell of 32 bytes: a resident value without data or a name.
abbrev file : FileInfo
file = record {
  hbin_offset_absolute = 0;
  buffer =
      (hbin ++ (0 ∷ 0 ∷ 0 ∷ 0 ∷ 64 ∷ 0 ∷ 0 ∷ 0 ∷ replicate 20 0))
      ++ (32 ∷ 0 ∷ 0 ∷ 0 ∷ 0x76 ∷ 0x6b ∷ 0 ∷ 0 ∷ 0 ∷ 0 ∷ 0 ∷ 0x80 ∷ 0 ∷ 0 ∷ 0 ∷ 0 ∷ 3 ∷ 0 ∷ 0 ∷ 0
          ∷ [])
      ++ replicate 12 0;
}

abbrev nothing : Recovered
nothing = record {
  state = record {
    deleted_keys = [];
    deleted_values = [];
    modified_keys = [];
    modified_values = [];
    key_path_root_offset = 0;
  };
  info = empty;
}

abbrev found_of : Outcome Recovered → Recovered
found_of (ok st) = st
found_of (err _) = nothing
found_of panic = nothing
found_of no_fuel = nothing

abbrev found : Recovered
found = found_of (find_free_keys_and_values env file 64 nothing)

abbrev state_of : CellKeyValue → ℕ × CellState
state_of v = ((fields v).file_offset_absolute, (fields v).cell_state)

one_value :
    map (λ (p : Bytes × List CellKeyValue). map state_of p.1) found.state.deleted_values
    ≡ ((32, deleted_primary_file) ∷ []) ∷ []
unfolding find_free_keys_and_values add
one_value = refl

find_free_keys_and_values-Kept_example : Kept nothing found
unfolding find_free_keys_and_values add
find_free_keys_and_values-Kept_example =
    find_free_keys_and_values-Kept env file 64 nothing found refl
