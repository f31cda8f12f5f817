-- ===== src/Motor/Backend.antt =====
-- im_reference_model.py: the library that is built from the C model, the choice of the backend; and
-- prime_c_model.py. The compiler and the loader are parameters.
use hardware_in_the_loop.Base.{
  ℕ, zero, suc, ◌≤◌, Bool, true, false, ◌||◌, Option, none, some, if◌then◌else◌, ltb, ◌≡◌, ◌⊎◌,
  ◌==◌, refl, ap, ◌∙◌, arith, le→ltb, inl, inr, Bool-cases, Option-cases,
}
use Prim.Native.String.{String}
use text.Mathlib.Text.{◌==◌ as str_eq}

-- The times of change of IM_Model.c and of the library, where they exist, and how often the compiler
-- has run.
pub record Files : Type 0 where
  pub c_src : Option ℕ
  pub lib : Option ℕ
  pub compilations : ℕ

pub data BackendError : Type 0 where
  not_found : BackendError
  failed_to_compile : ℕ → BackendError
  not_loaded : BackendError

-- `backend_name`, and the error that the fallback hides.
pub record Selected : Type 0 where
  pub backend_name : String
  pub fallback_reason : Option BackendError

pub data PrimeError : Type 0 where
  raised : BackendError → PrimeError
  wrong_backend : String → PrimeError
  no_library : PrimeError

-- A constructor that has returned, or what it has raised, with the files afterwards.
abbrev pub Outcome : Type 0 → Type 0
Outcome A = (A ⊎ BackendError) × Files

-- `(not lib_path.exists()) or c_src.stat().st_mtime > lib_path.stat().st_mtime`
abbrev pub is_outdated : ℕ → Option ℕ → Bool
is_outdated changed none = true
is_outdated changed (some built) = ltb built changed

abbrev pub primed_from : Option ℕ → Files → (ℕ ⊎ PrimeError) × Files
primed_from none files = (inr no_library, files)
primed_from (some built) files = (inl built, files)

abbrev pub primed_of : Selected → Files → (ℕ ⊎ PrimeError) × Files
primed_of model files =
    if str_eq model.backend_name "c"
    then primed_from files.lib files
    else (inr (wrong_backend model.backend_name), files)

abbrev pub prime_of : Outcome Selected → (ℕ ⊎ PrimeError) × Files
prime_of (inl model, files) = primed_of model files
prime_of (inr error, files) = (inr (raised error), files)

-- `gcc`: the return code and the files it leaves; `loads`: whether CDLL and the calls after it
-- succeed.
module _ (gcc : Files → ℕ × Files) (loads : Files → Bool) where
  abbrev pub loaded : Files → Outcome Unit
  loaded files = if loads files then (inl tt, files) else (inr not_loaded, files)

  abbrev pub compiled : ℕ × Files → Outcome Unit
  compiled (code, files) = if code == 0 then loaded files else (inr (failed_to_compile code), files)

  abbrev pub built_from : Option ℕ → Option ℕ → Files → Outcome Unit
  built_from none lib files = (inr not_found, files)
  built_from (some changed) lib files =
      if is_outdated changed lib then compiled (gcc files) else loaded files

  -- `_CReferenceBackend.__init__`
  unfoldable pub c_reference_backend : Files → Outcome Unit
  c_reference_backend files = built_from files.c_src files.lib files

  abbrev pub python_b2 : Option BackendError → Selected
  python_b2 reason = record { backend_name = "python-b2"; fallback_reason = reason }

  abbrev pub fall_back : String → Outcome Unit → Outcome Selected
  fall_back backend (inl _, files) =
      (inl (record { backend_name = "c"; fallback_reason = none }), files)
  fall_back backend (inr error, files) =
      if str_eq backend "c" then (inr error, files) else (inl (python_b2 (some error)), files)

  -- `InductionMotorReferenceModel.__init__`
  unfoldable pub reference_model : String → Files → Outcome Selected
  unfolding c_reference_backend
  reference_model backend files =
      if str_eq backend "auto" || str_eq backend "c"
      then fall_back backend (c_reference_backend files)
      else (inl (python_b2 none), files)

  -- `ensure_c_model_built` of prime_c_model.py; the path is given by the time of the library.
  unfoldable pub ensure_c_model_built : Files → (ℕ ⊎ PrimeError) × Files
  unfolding reference_model
  ensure_c_model_built files = prime_of (reference_model "c" files)

  -- The workers of a pool, one after the other.
  unfoldable pub workers : ℕ → Files → Files
  unfolding reference_model
  workers zero files = files
  workers (suc k) files = workers k (reference_model "auto" files).1

-- The library is there, and it is not older than the source.
abbrev pub IsFresh : Files → Type 0
IsFresh files =
    (changed : ℕ) × (built : ℕ) × (files.c_src ≡ some changed)
    × (files.lib ≡ some built)
    × (changed ≤ built)

-- What the script relies on: a compiler that returns 0 has left the source and written a library
-- that is not older.
abbrev pub WritesLibrary : (Files → ℕ × Files) → Type 0
WritesLibrary gcc = (files : Files) → (gcc files).0 ≡ 0 → IsFresh (gcc files).1

-- What a constructor that returns leaves.
abbrev pub LeavesFresh : {A : Type 0} → (A ⊎ BackendError) × Files → Type 0
LeavesFresh (inl _, files) = IsFresh files
LeavesFresh (inr _, files) = Unit

up_to_date :
    (files : Files) (changed : ℕ)
    → files.c_src ≡ some changed
    → is_outdated changed files.lib ≡ false
    → IsFresh files
up_to_date files changed e h = elim (Option-cases files.lib) [
  | inl n ↦ absurd (ground (arith, ap (is_outdated changed) n))
  | inr (built, e') ↦ (changed, built, e, e', ground (arith, ap (is_outdated changed) e'))
]

module _ (gcc : Files → ℕ × Files) (loads : Files → Bool) where
  loaded-LeavesFresh : (files : Files) → IsFresh files → LeavesFresh (loaded gcc loads files)
  loaded-LeavesFresh files h = elim (Bool-cases (loads files)) [ inl e ↦ rw e h | inr e ↦ rw e tt ]

  loaded_files : (files : Files) → (loaded gcc loads files).1 ≡ files
  loaded_files files = elim (Bool-cases (loads files)) [ inl e ↦ rw e refl | inr e ↦ rw e refl ]

  compiled-LeavesFresh :
      (r : ℕ × Files) → (r.0 ≡ 0 → IsFresh r.1) → LeavesFresh (compiled gcc loads r)
  compiled-LeavesFresh (code, files) h = elim (Bool-cases (code == 0)) [
    | inl e ↦ rw e (loaded-LeavesFresh files (h (ground arith)))
    | inr e ↦ rw e tt
  ]

  built_from-LeavesFresh :
      (c_src lib : Option ℕ) (files : Files)
      → files.c_src ≡ c_src
      → files.lib ≡ lib
      → WritesLibrary gcc
      → LeavesFresh (built_from gcc loads c_src lib files)
  built_from-LeavesFresh none lib files e e' law = tt
  built_from-LeavesFresh (some changed) lib files e e' law =
      elim (Bool-cases (is_outdated changed lib)) [
        | inl o ↦ rw o (compiled-LeavesFresh (gcc files) (law files))
        | inr o ↦ rw o (
            loaded-LeavesFresh files (up_to_date files changed e (ap (is_outdated changed) e' ∙ o)))
      ]

  c_reference_backend-LeavesFresh :
      (files : Files) → WritesLibrary gcc → LeavesFresh (c_reference_backend gcc loads files)
  unfolding c_reference_backend
  c_reference_backend-LeavesFresh files law =
      built_from-LeavesFresh files.c_src files.lib files refl refl law

  built_from_files :
      (c_src lib : Option ℕ) (changed built : ℕ) (files : Files)
      → c_src ≡ some changed
      → lib ≡ some built
      → changed ≤ built
      → (built_from gcc loads c_src lib files).1 ≡ files
  built_from_files c_src lib changed built files e e' le =
      rw (e, e', le→ltb built changed le) (loaded_files files)

  -- With a fresh library, no constructor changes the files.
  c_reference_backend_files :
      (files : Files) → IsFresh files → (c_reference_backend gcc loads files).1 ≡ files
  unfolding c_reference_backend
  c_reference_backend_files files (changed, built, e, e', le) =
      built_from_files files.c_src files.lib changed built files e e' le

  fall_back_files : (backend : String) (r : Outcome Unit) → (fall_back gcc loads backend r).1 ≡ r.1
  fall_back_files backend (inl _, files) = refl
  fall_back_files backend (inr error, files) = elim (Bool-cases (str_eq backend "c")) [
    | inl e ↦ rw e refl
    | inr e ↦ rw e refl
  ]

  pub reference_model_files :
      (backend : String) (files : Files)
      → IsFresh files
      → (reference_model gcc loads backend files).1 ≡ files
  unfolding reference_model
  reference_model_files backend files h =
      elim (Bool-cases (str_eq backend "auto" || str_eq backend "c")) [
        | inl e ↦ rw e (
            fall_back_files backend (c_reference_backend gcc loads files)
            ∙ c_reference_backend_files files h)
        | inr e ↦ rw e refl
      ]

  -- Where the library is fresh, no worker of the pool compiles.
  workers-fresh : (k : ℕ) (files : Files) → IsFresh files → workers gcc loads k files ≡ files
  unfolding workers
  workers-fresh zero files h = refl
  workers-fresh (suc k) files h =
      ap (workers gcc loads k) (reference_model_files "auto" files h) ∙ workers-fresh k files h

  primed_of-IsFresh :
      (lib : Option ℕ) (files after : Files) (built : ℕ)
      → IsFresh files
      → primed_from lib files ≡ (inl built, after)
      → IsFresh after
  primed_of-IsFresh none files after built h e = absurd (ground (arith, ap (λ r. r.0) e))
  primed_of-IsFresh (some t) files after built h e = rw⁻¹ (ap (λ r. r.1) e) h

  prime_of-IsFresh :
      (r : Outcome Unit) (built : ℕ) (after : Files)
      → LeavesFresh r
      → prime_of (fall_back gcc loads "c" r) ≡ (inl built, after)
      → IsFresh after
  prime_of-IsFresh (inl _, files) built after h e =
      primed_of-IsFresh files.lib files after built h e
  prime_of-IsFresh (inr error, files) built after h e = absurd (ground (arith, ap (λ r. r.0) e))

  -- Once ensure_c_model_built has returned, no worker that builds a model afterwards compiles or
  -- changes the library, however many there are; where a compiler that returns 0 leaves the source
  -- and a library that is not older.
  pub ensure_c_model_built-workers :
      (files after : Files) (built k : ℕ)
      → WritesLibrary gcc
      → ensure_c_model_built gcc loads files ≡ (inl built, after)
      → workers gcc loads k after ≡ after
  unfolding ensure_c_model_built reference_model
  ensure_c_model_built-workers files after built k law e = workers-fresh k after (
      prime_of-IsFresh (c_reference_backend gcc loads files) built after
        (c_reference_backend-LeavesFresh files law) e)

  fall_back-total :
      (backend : String) (r : Outcome Unit)
      → str_eq backend "c" ≡ false
      → (model : Selected) × ((fall_back gcc loads backend r).0 ≡ inl model)
  fall_back-total backend (inl _, files) h = (_, refl)
  fall_back-total backend (inr error, files) h = (python_b2 gcc loads (some error), rw h refl)

  -- Unless the C backend is demanded, a model is built whatever the compiler and the loader do.
  pub reference_model-total :
      (backend : String) (files : Files)
      → str_eq backend "c" ≡ false
      → (model : Selected) × ((reference_model gcc loads backend files).0 ≡ inl model)
  unfolding reference_model
  reference_model-total backend files h =
      elim (Bool-cases (str_eq backend "auto" || str_eq backend "c")) [
        | inl e ↦ rw e (fall_back-total backend (c_reference_backend gcc loads files) h)
        | inr e ↦ rw e (_, refl)
      ]
