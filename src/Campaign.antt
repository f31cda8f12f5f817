-- ===== src/Campaign.antt =====
-- verification/cocotb/scripts/run_campaign.py and run_campaign_matrix.py: what an experiment's
-- dictionary gives to the simulator's environment. Paths are texts; floats are a parameter.
pub mod Environment
pub mod Dictionary
pub mod Settings
pub mod Sequence
pub mod Order
pub mod Log
pub mod Verdict
pub mod Manifest
pub mod Matrix
pub mod Resume
pub mod Complete
mod Tests
use hardware_in_the_loop.Base.{
  ℕ, zero, suc, Bool, true, false, ◌&&◌, ◌||◌, Option, none, some, List, [], ◌∷◌, ◌++◌,
  if◌then◌else◌,
}
use Prim.Native.String.{String}
use text.Mathlib.Text.{◌==◌ as str_eq}

-- Python's numbers and what the scripts do with them: `decimal m e` is the literal m / 10 ^ e.
pub record Floats : Type 1 where
  pub Number : Type 0
  pub decimal : ℕ → ℕ → Number
  pub str : Number → String
  pub int : Number → Number
  pub round : Number → Number
  pub divide : Number → Number → Option Number
  pub parse_int : String → Option Number
  pub parse_float : String → Option Number

-- A value of a JSON object that the scripts read.
pub data Value (N : Type 0) : Type 0 where
  number : N → Value N
  string : String → Value N
  flag : Bool → Value N

abbrev pub Dict : Type 0 → Type 0
Dict V = List (String × V)

infixl 20 ◌>>=◌
abbrev pub ◌>>=◌ : {A B : Type 0} → Option A → (A → Option B) → Option B
none >>= f = none
some a >>= f = f a

module _ {V : Type 0} where
  unfoldable pub lookup : String → Dict V → Option V
  lookup name [] = none
  lookup name ((key, value) ∷ entries) = if str_eq key name then some value else lookup name entries

  -- `entries[name] = value`
  unfoldable pub insert : String → V → Dict V → Dict V
  insert name value [] = (name, value) ∷ []
  insert name value ((key, old) ∷ entries) =
      if str_eq key name then (key, value) ∷ entries else (key, old) ∷ insert name value entries

  -- `m.update(settings)`
  unfoldable pub update : Dict V → Dict V → Dict V
  unfolding insert
  update m [] = m
  update m ((k, v) ∷ settings) = update (insert k v m) settings

  -- `m.get(k, d)`
  abbrev pub get : String → Dict V → V → V
  get k m d = elim (lookup k m) [ none ↦ d | some v ↦ v ]

  abbrev pub has : String → Dict V → Bool
  has k m = elim (lookup k m) [ none ↦ false | some v ↦ true ]

module _ (F : Floats) where
  abbrev pub env_number : Value F.Number → String
  env_number (number n) = F.str n
  env_number (string s) = s
  env_number (flag true) = "1"
  env_number (flag false) = "0"

  abbrev pub of_flag : Bool → F.Number
  of_flag true = F.decimal 1 0
  of_flag false = F.decimal 0 0

  -- `int(v)` and `float(v)`; a text that is no number raises.
  abbrev pub int_of : Value F.Number → Option F.Number
  int_of (number n) = some (F.int n)
  int_of (string s) = F.parse_int s
  int_of (flag b) = some (of_flag b)

  abbrev pub float_of : Value F.Number → Option F.Number
  float_of (number n) = some n
  float_of (string s) = F.parse_float s
  float_of (flag b) = some (of_flag b)

  -- `config["defaults"]` and its `"motor"`, each empty where it is missing.
  pub record Defaults : Type 0 where
    pub common : Dict (Value F.Number)
    pub motor : Dict (Value F.Number)
