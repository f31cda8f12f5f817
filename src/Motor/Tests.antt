-- ===== src/Motor/Tests.antt =====
-- Tests of the motor model, and the theorems at concrete inputs.
use hardware_in_the_loop.Base.{
  ℕ, zero, suc, true, false, ◌∷◌, [], List, Option, none, some, ◌≡◌, refl, arith,
}
use hardware_in_the_loop.Base.Int.{ℤ, pos, negsuc, ◌+ℤ◌, ◌-ℤ◌}
use Prim.Native.String.{String, ◌++◌ as append}
use hardware_in_the_loop.Number.{Number}
use hardware_in_the_loop.Number.Integers.{integers}
use hardware_in_the_loop.Motor.{ImPhysicalParams, Motor, step, defaults}
use hardware_in_the_loop.Motor.Symmetry.{Inputs, run}
use hardware_in_the_loop.Motor.Backend.{
  Files, ensure_c_model_built, workers, reference_model, c_reference_backend,
  ensure_c_model_built-workers,
}
use hardware_in_the_loop.Motor.Experiments.{defaults-build_l3_env}
use hardware_in_the_loop.Campaign.{Floats, Value, number, string, Dict, Defaults, lookup, update}
use hardware_in_the_loop.Campaign.Environment.{build_l3_env}

abbrev machine : ImPhysicalParams ℤ
machine = record {
  rs = pos 1;
  rr = pos 3;
  lm = pos 2;
  ls = pos 1;
  lr = pos 0;
  j = pos 2;
  npp = pos 2;
  ts = pos 1;
}

abbrev turning : Motor ℤ
turning = record {
  is_alpha = pos 7;
  is_beta = negsuc 2;
  flux_alpha = pos 4;
  flux_beta = pos 1;
  wm = pos 10;
}

abbrev supply : List (Inputs ℤ)
supply = (pos 30, pos 5, negsuc 8, pos 1) ∷ (negsuc 11, pos 8, pos 2, pos 0) ∷ []

speed_after_two_steps : (run (pos 2) machine supply turning).wm ≡ negsuc 495
unfolding run step ◌+ℤ◌ ◌-ℤ◌ integers
speed_after_two_steps = refl

-- A compiler that takes one unit of time.
abbrev gcc : Files → ℕ × Files
gcc files = (0, record { c_src = some 40; lib = some 50; compilations = suc files.compilations })

abbrev unbuilt : Files
unbuilt = record { c_src = some 40; lib = none; compilations = 0 }

abbrev built : Files
built = record { c_src = some 40; lib = some 50; compilations = 1 }

ensure_c_model_built-workers_example : workers gcc (λ files. true) 16 built ≡ built
unfolding ensure_c_model_built reference_model c_reference_backend
ensure_c_model_built-workers_example =
    ensure_c_model_built-workers gcc (λ files. true) unbuilt built 50 16
      (λ files h. (40, 50, refl, refl, omega arith)) refl

-- Numbers as the terms that denote them.
abbrev numeral : ℕ → String
numeral zero = "0"
numeral (suc n) = append "s" (numeral n)

abbrev terms : Floats
terms = record {
  Number = String;
  decimal = λ m e. append "e" (numeral e);
  str = λ n. n;
  int = λ n. append "int " n;
  round = λ n. append "round " n;
  divide = λ a b. some (append a (append "/" b));
  parse_int = λ s. some s;
  parse_float = λ s. some s;
}

instance abbrev term_numbers : Number String
term_numbers = record {
  decimal = λ m e. append "e" (numeral e);
  add = λ a b. append a (append "+" b);
  sub = λ a b. append a (append "-" b);
  mul = λ a b. append a (append "*" b);
  div = λ a b. append a (append "/" b);
  neg = append "-";
  less = λ a b. false;
}

abbrev motor : Defaults terms
motor = record { common = []; motor = ("rs", string "0.5") ∷ [] }

abbrev ramp : Dict (Value String)
ramp = ("duration_s", number "0.05") ∷ []

abbrev shell : Dict String
shell = ("PATH", "/usr/bin") ∷ ("IM_RS", "9") ∷ []

abbrev l3_env : Dict String → Option (Dict String)
unfolding build_l3_env lookup update
l3_env environ = build_l3_env terms environ motor ramp "/out"

abbrev env_of : Option (Dict String) → Dict String
env_of none = []
env_of (some env) = env

defaults-build_l3_env_example :
    defaults terms.parse_float (env_of (l3_env shell))
    ≡ defaults terms.parse_float (env_of (l3_env []))
unfolding build_l3_env lookup update
defaults-build_l3_env_example =
    defaults-build_l3_env terms shell [] motor ramp "/out" (env_of (l3_env shell))
      (env_of (l3_env [])) refl refl refl
