-- ===== src/Explorer/Pairs.antt =====
-- The pairs that are found have both columns.
use hardware_in_the_loop.Base.{
  Bool, true, ◌&&◌, ◌||◌, List, [], ◌∷◌, All, ◌≡◌, refl, ap, arith, Bool-cases, inl, inr, All-imply,
}
use Prim.Native.String.{String}
use text.Mathlib.Text.{◌==◌ as str_eq, starts_with}
use package.text.Mathlib.TextEquality.{eq_iff}
use hardware_in_the_loop.Explorer.{ChannelPair, pairs_in, detect_channel_pairs, member, pair_of}

-- Both columns of a pair are in the header, and the first is one of the hardware.
abbrev pub IsPresent : List String → ChannelPair → Type 0
IsPresent header p =
    (starts_with p.vhdl_col "vhdl_" ≡ true)
    × (member p.vhdl_col header ≡ true)
    × (member p.ref_col header ≡ true)

or_true : (a b : Bool) → b ≡ true → (a || b) ≡ true
or_true a b h = ground (arith, h)

pairs_in-IsPresent :
    (header cols : List String)
    → All (λ col. member col header ≡ true) cols
    → All (IsPresent header) (pairs_in header cols)
unfolding pairs_in
pairs_in-IsPresent header [] h = tt
pairs_in-IsPresent header (col ∷ cols) h =
    elim (Bool-cases (starts_with col "vhdl_" && member (pair_of header col).ref_col header)) [
      | inl e ↦
          rw e ((ground (arith, e), h.0, ground (arith, e)), pairs_in-IsPresent header cols h.1)
      | inr e ↦ rw e (pairs_in-IsPresent header cols h.1)
    ]

every_member : (header : List String) → All (λ col. member col header ≡ true) header
every_member [] = tt
every_member (col ∷ cols) = (
  ap (λ b. b || member col cols) {x = str_eq col col} {y = true} ((eq_iff col col).1 refl),
  All-imply cols (λ c h. or_true (str_eq c col) (member c cols) h) (every_member cols),
)

-- Every pair that is found for a CSV file has both columns in the header: the one whose name starts
-- with vhdl_, and the reference that it is compared with.
pub detect_channel_pairs-IsPresent :
    (header : List String) → All (IsPresent header) (detect_channel_pairs header)
unfolding detect_channel_pairs
detect_channel_pairs-IsPresent header = pairs_in-IsPresent header header (every_member header)
