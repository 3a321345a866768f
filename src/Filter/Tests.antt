-- ===== src/Filter/Tests.antt =====
-- A filter for "Ab\\c", with no regular expression.
use notatin.Base.{ℕ, ◌≡◌, ◌<◌, ◌⊎◌, refl, true, false, some, List, [], ◌∷◌, Bytes, length, take}
use notatin.Outcome.{ok}
use notatin.Filter.{
  Regexes, RegQueryComponent, Filter, component_string, match_segments, trim_end, with_root,
  add_key_path, new_builder, build, match_key,
}
use notatin.Filter.Matching.{agree, match_segments_cases, build-add_key_path}

-- Regular expressions that are texts, each of which matches everything.
abbrev lax : Regexes
lax = record { Regex = Bytes; new = some; is_match = λ r s. true }

abbrev path : Bytes
path = 0x41 ∷ 0x62 ∷ 0x5c ∷ 0x63 ∷ []

abbrev query : List (RegQueryComponent lax)
query = component_string (0x61 ∷ 0x62 ∷ []) ∷ component_string (0x63 ∷ []) ∷ []

match_segments_cases_example :
    ((match_segments ((0x41 ∷ 0x62 ∷ []) ∷ []) query ≡ 6)
      × (agree ((0x41 ∷ 0x62 ∷ []) ∷ []) query ≡ true))
    ⊎ ((match_segments ((0x41 ∷ 0x62 ∷ []) ∷ []) query ≡ 2)
        × (agree ((0x41 ∷ 0x62 ∷ []) ∷ []) (take 1 query) ≡ true)
        × (1 < length query))
    ⊎ ((match_segments ((0x41 ∷ 0x62 ∷ []) ∷ []) query ≡ 1)
        × (agree ((0x41 ∷ 0x62 ∷ []) ∷ []) (take 1 query) ≡ false))
match_segments_cases_example = match_segments_cases ((0x41 ∷ 0x62 ∷ []) ∷ []) query

build-add_key_path_example :
    (f : Filter lax) × (offset : ℕ) × (build
        (with_root (add_key_path (new_builder {x = lax}) path) true)
      ≡ ok f)
    × (match_key 0 f path ≡ ok (6, offset))
unfolding trim_end
build-add_key_path_example = build-add_key_path {x = lax} path 0 refl
