-- ===== src/Explorer.antt =====
-- verification/cocotb/scripts/results_explorer_data.py: which columns of a result belong together.
-- A header is the list of its column names; `strip` takes so many characters off the front.
pub mod Pairs
mod Tests
use hardware_in_the_loop.Base.{
  ℕ, Bool, true, false, not, ◌&&◌, ◌||◌, Option, none, some, List, [], ◌∷◌, if◌then◌else◌, any,
}
use Prim.Native.String.{String, ◌++◌ as append, len, slice}
use text.Mathlib.Text.{◌==◌ as str_eq, starts_with}

pub record ChannelPair : Type 0 where
  pub suffix : String
  pub vhdl_col : String
  pub ref_col : String

pub record NpzChannelPair : Type 0 where
  pub suffix : String
  pub fpga_key : String
  pub cmod_key : String

-- `col[len(prefix):]`
abbrev pub suffix_of : String → String → String
suffix_of prefix col = slice col (len prefix) (len col)

abbrev pub member : String → List String → Bool
member col header = any (str_eq col) header

-- The reference of a suffix: `ref_…`, and `c_…` where the header has no such column.
abbrev pub ref_col_of : List String → String → String
ref_col_of header suffix =
    if member (append "ref_" suffix) header then append "ref_" suffix else append "c_" suffix

abbrev pub pair_of : List String → String → ChannelPair
pair_of header col = record {
  suffix = suffix_of "vhdl_" col;
  vhdl_col = col;
  ref_col = ref_col_of header (suffix_of "vhdl_" col);
}

-- The columns in their order; `header` is the whole header.
unfoldable pub pairs_in : List String → List String → List ChannelPair
pairs_in header [] = []
pairs_in header (col ∷ cols) =
    let rest = pairs_in header cols in
    if starts_with col "vhdl_" && member (pair_of header col).ref_col header
    then pair_of header col ∷ rest
    else rest

unfoldable pub detect_channel_pairs : List String → List ChannelPair
unfolding pairs_in
detect_channel_pairs header = pairs_in header header

-- The time column, and its unit as a power of ten seconds: `10 ^ -n`.
unfoldable pub detect_time_column : List String → String × ℕ
detect_time_column header = if member "t_s" header then ("t_s", 0) else ("t_us", 6)

abbrev pub npz_pair_of : String → NpzChannelPair
npz_pair_of key = record {
  suffix = suffix_of "fpga_" key;
  fpga_key = key;
  cmod_key = append "cmod_" (suffix_of "fpga_" key);
}

unfoldable pub npz_pairs_in : List String → List String → List NpzChannelPair
npz_pairs_in keys [] = []
npz_pairs_in keys (key ∷ rest) =
    let others = npz_pairs_in keys rest in
    if starts_with key "fpga_"
      && (not (str_eq key "fpga_t") && member (npz_pair_of key).cmod_key keys)
    then npz_pair_of key ∷ others
    else others

unfoldable pub detect_npz_channel_pairs : List String → List NpzChannelPair
unfolding npz_pairs_in
detect_npz_channel_pairs keys = npz_pairs_in keys keys

-- The first candidate that is a file.
unfoldable pub find_timeseries_csv : (String → Bool) → List String → Option String
find_timeseries_csv is_file [] = none
find_timeseries_csv is_file (name ∷ names) =
    if is_file name then some name else find_timeseries_csv is_file names
