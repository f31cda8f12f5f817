-- ===== src/Explorer/Tests.antt =====
-- Tests of the results explorer, and its theorem at a concrete input.
use hardware_in_the_loop.Base.{List, [], ◌∷◌, map, some, ◌≡◌, refl}
use Prim.Native.String.{String}
use text.Mathlib.Text.{◌==◌ as str_eq}
use hardware_in_the_loop.Explorer.{
  detect_channel_pairs, detect_npz_channel_pairs, find_timeseries_csv,
}

abbrev header : List String
header = "t_s" ∷ "vhdl_speed" ∷ "vhdl_flux" ∷ "vhdl_alone" ∷ "ref_speed" ∷ "c_speed" ∷ "c_flux" ∷ []

references : map (λ p. p.ref_col) (detect_channel_pairs header) ≡ "ref_speed" ∷ "c_flux" ∷ []
unfolding detect_channel_pairs
references = refl

npz_keys :
    map
      (λ p. p.cmod_key)
      (detect_npz_channel_pairs ("fpga_t" ∷ "cmod_t" ∷ "fpga_ia" ∷ "cmod_ia" ∷ []))
    ≡ "cmod_ia" ∷ []
unfolding detect_npz_channel_pairs
npz_keys = refl

first_file : find_timeseries_csv (λ n. str_eq n "b.csv") ("a.csv" ∷ "b.csv" ∷ []) ≡ some "b.csv"
unfolding find_timeseries_csv
first_file = refl
