-- ===== src/Filter/Matching.antt =====
-- Which paths a query matches.
use notatin.Base.{
  ℕ, ◌≡◌, ◌<◌, ◌⊎◌, inl, inr, refl, Bool, true, false, ◌&&◌, some, List, [], ◌∷◌, map, Bytes,
  length, take, le→leb, Bool-cases, arith,
}
use notatin.Outcome.{ok, ◌>>=◌}
use notatin.State.Laws.{same_text_refl}
use notatin.Filter.{
  Regexes, RegQueryComponent, Filter, segment_matches, match_segments, check_key_match, split,
  trim_end, to_ascii_lowercase, literal, new_builder, add_key_path, with_root, build, match_key,
  kept_root_path_offset,
}

match_segments-literal :
    (x : Regexes) (segments : List Bytes)
    → match_segments {x = x} segments (map literal segments) ≡ 6
unfolding match_segments
match_segments-literal x [] = refl
match_segments-literal x (s ∷ segments) =
    rw (same_text_refl (to_ascii_lowercase s), match_segments) (match_segments-literal x segments)

module _ {x : Regexes} where
  -- A path and a query of one length that agree segment by segment.
  abbrev pub agree : List Bytes → List (RegQueryComponent x) → Bool
  agree [] [] = true
  agree [] (c ∷ query) = false
  agree (s ∷ segments) [] = false
  agree (s ∷ segments) (c ∷ query) = segment_matches c s && agree segments query

  -- A path is a match if it agrees with the whole query; it is only passed through if it agrees with a
  -- beginning of the query and is shorter; else it is no match.
  pub match_segments_cases :
      (segments : List Bytes) (query : List (RegQueryComponent x))
      → ((match_segments segments query ≡ 6) × (agree segments query ≡ true))
        ⊎ ((match_segments segments query ≡ 2)
            × (agree segments (take (length segments) query) ≡ true)
            × (length segments < length query))
        ⊎ ((match_segments segments query ≡ 1)
            × (agree segments (take (length segments) query) ≡ false))
  unfolding match_segments
  match_segments_cases [] [] = inl (refl, refl)
  match_segments_cases [] (c ∷ query) = inr (inl (refl, refl, omega arith))
  match_segments_cases (s ∷ segments) [] = inr (inr (refl, refl))
  match_segments_cases (s ∷ segments) (c ∷ query) = elim (Bool-cases (segment_matches c s)) [
    | inr differs ↦ inr (inr (rw (differs, match_segments), rw differs))
    | inl same ↦ elim (match_segments_cases segments query) [
      | inl (r, a) ↦ inl (rw (same, match_segments) r, rw same a)
      | inr (inl (r, a, shorter)) ↦ inr (inl (rw (same, match_segments) r, rw same a, omega arith))
      | inr (inr (r, a)) ↦ inr (inr (rw (same, match_segments) r, rw same a))
    ]
  ]

  -- A filter that is built from a path with its root, and that does not end in a backslash, is built
  -- without an error and matches that path.
  pub build-add_key_path :
      (path : Bytes) (kept : ℕ)
      → trim_end path ≡ path
      → (f : Filter x) × (offset : ℕ) × (build
            (with_root (add_key_path (new_builder {x = x}) path) true)
          ≡ ok f)
        × (match_key kept f path ≡ ok (6, offset))
  unfolding build add_key_path match_key check_key_match
  build-add_key_path path kept trimmed = (
    record {
      reg_query = some (record {
        key_path = map literal (split (trim_end path));
        key_path_has_root = true;
        children = false;
      });
    },
    kept_root_path_offset kept path,
    refl,
    rw (
      le→leb 0 (length path) (omega arith),
      trimmed,
      match_segments-literal x (split path),
      check_key_match,
      match_key,
      ◌>>=◌,
    ),
  )
