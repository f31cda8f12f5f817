-- ===== src/Validation/Layout.antt =====
-- validate_hil_pwm.py: the checks keep every access inside the file.
use hardware_in_the_loop.Base.{
  ℕ, ◌+◌, ◌*◌, ◌≤◌, ◌<◌, not, ◌||◌, Option, none, some, List, ltb, ◌==◌, length, take, drop, ◌≡◌,
  arith, refl, inl, inr, Bool-cases, le→leb,
}
use hardware_in_the_loop.Hilbin.Parse.{magic, same_bytes, word_of}
use hardware_in_the_loop.Validation.{
  Tables, Read, bad_hilbin, truncated_telem_count, truncated_telem, truncated_pwm, empty, tables,
  rd_u32, table_offset, tables_with, tables_at, tables_from, read_tables,
}

-- The two tables lie in the file one after the other, behind their counts, and neither is empty.
abbrev pub IsInFile : List ℕ → Tables → Type 0
IsInFile buf x =
    (4 ≤ x.telem)
    × (x.telem + x.tn * 28 + 4 ≤ x.pwm)
    × (x.pwm + x.pn * 8 ≤ length buf)
    × (0 < x.tn)
    × (0 < x.pn)

-- No count was read beyond the end, and tables that have been found are in the file.
abbrev pub IsSafe : List ℕ → Option Read → Type 0
IsSafe buf none = ⊥
IsSafe buf (some (tables x)) = IsInFile buf x
IsSafe buf (some bad_hilbin) = Unit
IsSafe buf (some truncated_telem_count) = Unit
IsSafe buf (some truncated_telem) = Unit
IsSafe buf (some truncated_pwm) = Unit
IsSafe buf (some empty) = Unit

rd_u32-within :
    (buf : List ℕ) (off : ℕ) → off + 4 ≤ length buf → rd_u32 buf off ≡ some (word_of (drop off buf))
unfolding rd_u32
rd_u32-within buf off h = rw (le→leb (off + 4) (length buf) h) refl

tables_with-IsSafe : (buf : List ℕ) (off tn pn : ℕ) → IsSafe buf (some (tables_with buf off tn pn))
tables_with-IsSafe buf off tn pn =
    elim (Bool-cases (ltb (length buf) (off + 4 + tn * 28 + 4 + pn * 8))) [
      | inl k ↦ rw k tt
      | inr k ↦ elim (Bool-cases (tn == 0 || pn == 0)) [
        | inl l ↦ rw (k, l) tt
        | inr l ↦ rw (k, l) (omega arith, omega arith, ground arith, ground arith, ground arith)
      ]
    ]

tables_at-IsSafe : (buf : List ℕ) (off tn : ℕ) → IsSafe buf (tables_at buf off tn)
tables_at-IsSafe buf off tn =
    let end = off + 4 + tn * 28 in
    elim (Bool-cases (ltb (length buf) (end + 4))) [
      | inl h ↦ rw h tt
      | inr h ↦
          rw (h, rd_u32-within buf end (ground arith))
            (tables_with-IsSafe buf off tn (word_of (drop end buf)))
    ]

tables_from-IsSafe : (buf : List ℕ) (off : ℕ) → IsSafe buf (tables_from buf off)
tables_from-IsSafe buf off = elim (Bool-cases (ltb (length buf) (off + 4))) [
  | inl h ↦ rw h tt
  | inr h ↦
      rw (h, rd_u32-within buf off (ground arith))
        (tables_at-IsSafe buf off (word_of (drop off buf)))
]

-- Whatever bytes a file holds, the runner reads the length of the metadata and the two counts inside the
-- file, and either stops with an error or has found two tables that lie inside the file, behind their
-- counts, and that are not empty, even where the length of the metadata overflows 32 bits.
pub read_tables-IsSafe : (buf : List ℕ) → IsSafe buf (read_tables buf)
unfolding read_tables
read_tables-IsSafe buf =
    elim (Bool-cases (ltb (length buf) 16 || not (same_bytes (take 7 buf) magic))) [
      | inl h ↦ rw h tt
      | inr h ↦
          rw (h, rd_u32-within buf 8 (ground arith))
            (tables_from-IsSafe buf (table_offset (word_of (drop 8 buf))))
    ]
