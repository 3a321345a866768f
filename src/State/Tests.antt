-- ===== src/State/Tests.antt =====
-- Runs on a map of one deleted key.
use notatin.Base.{◌≡◌, refl, some, [], ◌∷◌, ◌++◌, Bytes, if◌then◌else◌}
use notatin.State.{Map, KeyCell, same_text, get, add, before_last, or_empty, remove_key_cell}
use notatin.State.Laws.{values_of, get-add, remove_key_cell_leftover}

-- "a" and "a\b".
abbrev parent : Bytes
parent = 0x61 ∷ []

abbrev path : Bytes
path = 0x61 ∷ 0x5c ∷ 0x62 ∷ []

abbrev key : KeyCell
key = record { path = path; hash = some (7 ∷ []) }

abbrev one_key : Map KeyCell
one_key = (parent, key ∷ []) ∷ []

get-add_example : get (add one_key parent key) path ≡ (
    if same_text parent path
    then some (values_of (get one_key parent) ++ key ∷ [])
    else get one_key path)
get-add_example = get-add one_key parent path key

remove_key_cell_leftover_example :
    get (remove_key_cell one_key path (7 ∷ [])) (or_empty (before_last path)) ≡ some []
unfolding get before_last
remove_key_cell_leftover_example =
    remove_key_cell_leftover one_key path (7 ∷ []) key refl refl refl refl
