-- ===== src/SubKeyList/Offsets.antt =====
-- A list of lists that holds itself.
use notatin.Base.{ℕ, zero, suc, ◌+◌, ◌≡◌, refl, ap, ◌∙◌, some, List, ◌∷◌, Bytes, get_from}
use notatin.Outcome.{no_fuel, ◌>>=◌ as bind}
use notatin.Nom.{Nom, done}
use notatin.Parser.{FileInfo}
use notatin.SubKeyList.{SubKeyList, RiItem, ri_from_bytes, parse_offsets, parse_sub_key_list}

-- A list of lists whose first item is its own offset is read for ever: no fuel is enough.
pub parse_sub_key_list_cyclic :
    (nom : Nom) (f : FileInfo) (offset : ℕ) (slice rest : Bytes) (ri : SubKeyList RiItem)
    (items : List RiItem)
    → get_from f.buffer (offset + f.hbin_offset_absolute) ≡ some slice
    → ri_from_bytes nom slice ≡ done rest ri
    → ri.items ≡ record { sub_key_list_offset_relative = offset } ∷ items
    → (fuel : ℕ) → parse_sub_key_list nom fuel f offset ≡ no_fuel
unfolding parse_sub_key_list parse_offsets
parse_sub_key_list_cyclic nom f offset slice rest ri items here reads itself zero = refl
parse_sub_key_list_cyclic nom f offset slice rest ri items here reads itself (suc fuel) =
    let again = parse_sub_key_list_cyclic nom f offset slice rest ri items here reads itself fuel in
    let once : parse_offsets (parse_sub_key_list nom fuel f)
          (record { sub_key_list_offset_relative = offset } ∷ items)
        ≡ no_fuel =
      rw (again, bind) in
    rw (here, reads, bind, parse_sub_key_list)
      (ap (parse_offsets (parse_sub_key_list nom fuel f)) itself ∙ once)
