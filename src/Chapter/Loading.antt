-- ===== src/Chapter/Loading.antt =====
-- chapter_common.py: the phase currents of the model, the files of a case, and the gaps that are
-- reported.
use hardware_in_the_loop.Base.{
  true, Option, none, some, List, [], ◌∷◌, ◌++◌, map, All, ◌≡◌, ◌≢◌, ◌↔◌, refl, ap, arith, inl, inr,
  Bool-cases,
}
use Prim.Native.String.{String}
use hardware_in_the_loop.Number.{Number, ◌+F◌, ◌-F◌, ◌*F◌, ◌/F◌, neg, whole, decimal}
use hardware_in_the_loop.Campaign.{Dict}
use hardware_in_the_loop.Motor.{ImPhysicalParams, Motor, ImState, im_state}
use hardware_in_the_loop.Chapter.{
  zip_with, inverse_clarke, Disk, CaseEntry, CaseMetrics, Group, file_in, load_case_metrics,
  ResultLevel, l2_level, l3_level, gap_of, missing, slash,
}

module _ {A : Type 0} ⦃n : Number A⦄ (root_3 : A) where
  module _ (p : ImPhysicalParams A) where
    -- What the model has returned, from its states before and after each step.
    abbrev pub states : List (Motor A × Motor A) → List (ImState A)
    states run = map (λ m. im_state root_3 p m.0 m.1) run

    phase_b :
        (run : List (Motor A × Motor A))
        → zip_with root_3
            (λ a b. neg (decimal 5 1) *F a +F root_3 /F whole 2 *F b)
            (map (λ s. s.i_alpha) (states run))
            (map (λ s. s.i_beta) (states run))
          ≡ map (λ s. s.i_b) (states run)
    unfolding zip_with
    phase_b [] = refl
    phase_b (m ∷ run) = ap (λ xs. (im_state root_3 p m.0 m.1).i_b ∷ xs) (phase_b run)

    phase_c :
        (run : List (Motor A × Motor A))
        → zip_with root_3
            (λ a b. neg (decimal 5 1) *F a -F root_3 /F whole 2 *F b)
            (map (λ s. s.i_alpha) (states run))
            (map (λ s. s.i_beta) (states run))
          ≡ map (λ s. s.i_c) (states run)
    unfolding zip_with
    phase_c [] = refl
    phase_c (m ∷ run) = ap (λ xs. (im_state root_3 p m.0 m.1).i_c ∷ xs) (phase_c run)

    phase_a :
        (run : List (Motor A × Motor A))
        → map (λ s. s.i_alpha) (states run) ≡ map (λ s. s.i_a) (states run)
    phase_a [] = refl
    phase_a (m ∷ run) = ap (λ xs. (im_state root_3 p m.0 m.1).i_a ∷ xs) (phase_a run)

    -- The phase currents that the chapter reconstructs from the recorded α and β currents are the
    -- ones that the motor model in Python has given, for any sequence of its states.
    pub inverse_clarke-im_state :
        (run : List (Motor A × Motor A))
        → inverse_clarke root_3
            (map (λ s. s.i_alpha) (states run))
            (map (λ s. s.i_beta) (states run))
          ≡ (
            map (λ s. s.i_a) (states run),
            map (λ s. s.i_b) (states run),
            map (λ s. s.i_c) (states run),
          )
    unfolding inverse_clarke
    inverse_clarke-im_state run = λ i. (phase_a run i, phase_b run i, phase_c run i)

module _ {V : Type 0} (disk : Disk (Dict V)) where
  -- A path that is there is that of a file.
  abbrev pub IsThere : Option String → Type 0
  IsThere none = Unit
  IsThere (some path) = disk.is_file path ≡ true

  file_in-IsThere : (dir : Option String) (name : String) → IsThere (file_in disk dir name)
  unfolding file_in
  file_in-IsThere none name = tt
  file_in-IsThere (some dir) name = elim (Bool-cases (disk.is_file (slash dir name))) [
    | inl e ↦ rw e e
    | inr e ↦ rw e tt
  ]

  -- Every path that the metrics of a case name is that of a file that exists, whatever the manifest
  -- says of the case.
  pub load_case_metrics-IsThere :
      (campaign_dir : String) (entry : CaseEntry V) (group : Group)
      → IsThere (load_case_metrics disk campaign_dir entry group).l2_csv
        × IsThere (load_case_metrics disk campaign_dir entry group).l3_csv
        × IsThere (load_case_metrics disk campaign_dir entry group).l2_run_log
        × IsThere (load_case_metrics disk campaign_dir entry group).l3_run_log
  unfolding load_case_metrics
  load_case_metrics-IsThere campaign_dir entry group =
      (file_in-IsThere _ _, file_in-IsThere _ _, file_in-IsThere _ _, file_in-IsThere _ _)

module _ {V : Type 0} where
  -- A case has the metrics of both levels.
  abbrev pub IsComplete : CaseMetrics V → Type 0
  IsComplete c = (c.l2 ≢ none) × (c.l3 ≢ none)

  gap_of-none :
      (id : String) (level : ResultLevel) (v : Option V) (rest : List (String × ResultLevel))
      → ((gap_of id level v ++ rest) ≡ []) ↔ ((v ≢ none) × (rest ≡ []))
  gap_of-none id level none rest = (λ e. absurd (ground (arith, e)), λ h. absurd (h.0 refl))
  gap_of-none id level (some v) rest = (λ e. (λ k. ground (arith, k), e), λ h. h.1)

  -- The report of gaps is empty exactly if every case has the metrics of both levels.
  pub missing-IsComplete :
      (cases : List (CaseMetrics V)) → (missing cases ≡ []) ↔ All IsComplete cases
  unfolding missing
  missing-IsComplete [] = (λ e. tt, λ h. refl)
  missing-IsComplete (c ∷ cases) =
      let first =
        gap_of-none c.case_id l2_level c.l2 (gap_of c.case_id l3_level c.l3 ++ missing cases) in
      let second = gap_of-none c.case_id l3_level c.l3 (missing cases) in
      let rest = missing-IsComplete cases in
      (
        λ e. let (a, e') = first.0 e in let (b, e'') = second.0 e' in ((a, b), rest.0 e''),
        λ h. first.1 (h.0.0, second.1 (h.0.1, rest.1 h.1)),
      )
