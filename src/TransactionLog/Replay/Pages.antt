-- ===== src/TransactionLog/Replay/Pages.antt =====
-- The bytes that a replay changes: the length of the buffer and the windows beside the pages.
use mathlib.Core.Path.{subst}
use notatin.Base.{
  ℕ, ◌+◌, ◌-◌, ◌≤◌, ◌≡◌, ◌⊎◌, inl, inr, refl, ap, sym, ◌∙◌, false, List, [], ◌∷◌, Bytes, length,
  replicate, take, drop, write_at, arith, leb, ltb, leb→le, le→leb, Bool-cases, length-append,
  length-replicate, take-append_left, drop-append_left, length-drop,
}
use notatin.Base.Writes.{length-write_at, window-write_at}
use notatin.Outcome.{ok, ok_injective, ◌>>=◌, >>=-eq-ok}
use notatin.TransactionLog.{DirtyPage, LogEntry}
use notatin.TransactionLog.Replay.{grow, apply_page, apply_pages, patch}
use notatin.TransactionLog.Replay.Selected.{patch_all}

abbrev pub start_of : ℕ → DirtyPage → ℕ
start_of hbin page = page.dirty_page_ref_offset + hbin

abbrev pub end_of : ℕ → DirtyPage → ℕ
end_of hbin page = start_of hbin page + length page.page_bytes

-- The window of `n` bytes at `m` meets none of the pages.
abbrev pub Beside : ℕ → ℕ → ℕ → List DirtyPage → Type 0
Beside hbin m n [] = Unit
Beside hbin m n (page ∷ pages) =
    ((m + n ≤ start_of hbin page) ⊎ (end_of hbin page ≤ m)) × Beside hbin m n pages

abbrev pub BesideAll : ℕ → ℕ → ℕ → List LogEntry → Type 0
BesideAll hbin m n [] = Unit
BesideAll hbin m n (e ∷ entries) = Beside hbin m n e.dirty_pages × BesideAll hbin m n entries

-- The bytes that are appended for a list of entries.
abbrev pub growth : ℕ → List LogEntry → ℕ
growth size [] = 0
growth size (e ∷ entries) = (e.hive_bins_data_size - size) + growth size entries

length-grow :
    (size : ℕ) (e : LogEntry) (bytes : Bytes)
    → length (grow size e bytes) ≡ length bytes + (e.hive_bins_data_size - size)
length-grow size e bytes = elim (Bool-cases (ltb size e.hive_bins_data_size)) [
  | inl h ↦ rw h (
      omega (
        arith,
        length-append bytes (replicate (e.hive_bins_data_size - size) 0),
        length-replicate {A = ℕ} (e.hive_bins_data_size - size) 0,
      ))
  | inr h ↦ let h' = not_ltb size e.hive_bins_data_size h in rw h (omega arith)
]
  where
    not_ltb : (a b : ℕ) → ltb a b ≡ false → b ≤ a
    not_ltb a b h = ground arith

window-grow :
    (size : ℕ) (e : LogEntry) (m n : ℕ) (bytes : Bytes)
    → m + n ≤ length bytes
    → take n (drop m (grow size e bytes)) ≡ take n (drop m bytes)
window-grow size e m n bytes h = elim (Bool-cases (ltb size e.hive_bins_data_size)) [
  | inl g ↦ rw g (
      ap (take n)
        (drop-append_left m bytes (replicate (e.hive_bins_data_size - size) 0) (omega arith))
      ∙ take-append_left n (drop m bytes) (replicate (e.hive_bins_data_size - size) 0)
          (omega (arith, length-drop m bytes)))
  | inr g ↦ rw g
]

apply_page_inversion :
    (hbin : ℕ) (page : DirtyPage) (bytes bytes' : Bytes)
    → apply_page hbin page bytes ≡ ok bytes'
    → (end_of hbin page ≤ length bytes)
      × (write_at bytes (start_of hbin page) page.page_bytes ≡ bytes')
unfolding apply_page
apply_page_inversion hbin page bytes bytes' h =
    elim (Bool-cases (leb (end_of hbin page) (length bytes))) [
      | inl fits ↦
          (leb→le (end_of hbin page) (length bytes) fits, ok_injective (rw (fits, apply_page) at h))
      | inr beyond ↦ let h' = rw (beyond, apply_page) at h in cc
    ]

-- What a successful writing of pages keeps.
apply_pages_keeps :
    (hbin m n : ℕ) (pages : List DirtyPage) (bytes bytes' : Bytes)
    → apply_pages hbin pages bytes ≡ ok bytes'
    → (length bytes' ≡ length bytes)
      × (Beside hbin m n pages → take n (drop m bytes') ≡ take n (drop m bytes))
unfolding apply_pages
apply_pages_keeps hbin m n [] bytes bytes' h =
    (ap length (sym (ok_injective h)), λ _. ap (λ t. take n (drop m t)) (sym (ok_injective h)))
apply_pages_keeps hbin m n (page ∷ pages) bytes bytes' h =
    let (b, one, rest) = >>=-eq-ok (apply_page hbin page bytes) _ h in
    let (fits, e) = apply_page_inversion hbin page bytes b one in
    let (len, window) = apply_pages_keeps hbin m n pages b bytes' rest in
    (
      len ∙ ap length (sym e) ∙ length-write_at bytes (start_of hbin page) page.page_bytes fits,
      λ apart.
          window apart.1
          ∙ ap (λ t. take n (drop m t)) (sym e)
          ∙ window-write_at bytes (start_of hbin page) page.page_bytes fits n m apart.0,
    )

-- The same of one entry, whose growth comes first.
patch_keeps :
    (hbin size m n : ℕ) (e : LogEntry) (bytes b : Bytes)
    → patch hbin size e bytes ≡ ok b
    → (length b ≡ length bytes + (e.hive_bins_data_size - size))
      × (Beside hbin m n e.dirty_pages
          → m + n ≤ length bytes
          → take n (drop m b) ≡ take n (drop m bytes))
unfolding patch
patch_keeps hbin size m n e bytes b one =
    let (len, window) = apply_pages_keeps hbin m n e.dirty_pages (grow size e bytes) b one in
    (
      len ∙ length-grow size e bytes,
      λ apart within. window apart ∙ window-grow size e m n bytes within,
    )

-- A replay of entries makes the buffer longer by the sum, over all of them, of what the size of the
-- entry exceeds the size in the primary header by; it leaves every window of the old buffer that no
-- page meets as it was.
pub patch_all_keeps :
    (hbin size m n : ℕ) (entries : List LogEntry) (bytes bytes' : Bytes)
    → patch_all hbin size entries bytes ≡ ok bytes'
    → (length bytes' ≡ length bytes + growth size entries)
      × (BesideAll hbin m n entries
          → m + n ≤ length bytes
          → take n (drop m bytes') ≡ take n (drop m bytes))
unfolding patch_all
patch_all_keeps hbin size m n [] bytes bytes' h = (
  ap length (sym (ok_injective h)) ∙ omega arith,
  λ _ _. ap (λ t. take n (drop m t)) (sym (ok_injective h)),
)
patch_all_keeps hbin size m n (e ∷ entries) bytes bytes' h =
    let (b, one, rest) = >>=-eq-ok (patch hbin size e bytes) _ h in
    let (len, window) = patch_keeps hbin size m n e bytes b one in
    let (len', window') = patch_all_keeps hbin size m n entries b bytes' rest in
    (
      len' ∙ omega (arith, len),
      λ apart within. window' apart.1 (omega (arith, len)) ∙ window apart.0 within,
    )

-- Pages that lie in a buffer of the given length.
abbrev pub Within : ℕ → ℕ → List DirtyPage → Type 0
Within hbin len [] = Unit
Within hbin len (page ∷ pages) = (end_of hbin page ≤ len) × Within hbin len pages

pub apply_pages_total :
    (hbin : ℕ) (pages : List DirtyPage) (bytes : Bytes)
    → Within hbin (length bytes) pages
    → (bytes' : Bytes) × (apply_pages hbin pages bytes ≡ ok bytes')
unfolding apply_pages apply_page
apply_pages_total hbin [] bytes h = (bytes, refl)
apply_pages_total hbin (page ∷ pages) bytes h =
    let written = write_at bytes (start_of hbin page) page.page_bytes in
    let (bytes', e) = apply_pages_total hbin pages written (
      subst (λ len. Within hbin len pages)
        (sym (length-write_at bytes (start_of hbin page) page.page_bytes h.0)) h.1) in
    (bytes', rw (le→leb (end_of hbin page) (length bytes) h.0, apply_pages, ◌>>=◌) e)

pub patch_total :
    (hbin size : ℕ) (e : LogEntry) (bytes : Bytes)
    → Within hbin (length bytes + (e.hive_bins_data_size - size)) e.dirty_pages
    → (bytes' : Bytes) × (patch hbin size e bytes ≡ ok bytes')
      × (length bytes' ≡ length bytes + (e.hive_bins_data_size - size))
unfolding patch
patch_total hbin size e bytes h =
    let (bytes', one) =
      apply_pages_total hbin e.dirty_pages (grow size e bytes)
        (subst (λ len. Within hbin len e.dirty_pages) (sym (length-grow size e bytes)) h) in
    (bytes', one, (patch_keeps hbin size 0 0 e bytes bytes' one).0)
