-- ===== src/Campaign/Complete.antt =====
-- A matrix run with exit code 0 leaves nothing for the next run; other runs leave their failures.
use hardware_in_the_loop.Base.{
  ℕ, true, false, not, ◌||◌, Option, some, List, [], ◌∷◌, if◌then◌else◌, select, All, ◌≡◌, sym, ◌∙◌,
  ap, arith, Bool-cases, inl, inr, if_true, if_false, All-select, select-All, All-imply,
  select-IsSelected,
}
use Prim.Native.String.{String}
use mathlib.Core.Option.{some-injective}
use mathlib.Core.Path.{subst}
use hardware_in_the_loop.Campaign.{Dict, lookup}
use hardware_in_the_loop.Campaign.Dictionary.{bind-some}
use hardware_in_the_loop.Campaign.Manifest.{
  Case, Experiment, Result, update_manifest_case, summary_row,
}
use hardware_in_the_loop.Campaign.Matrix.{
  State, Args, selected, enabled_of, chosen_of, recorded, is_runner, finish_one, cocotb_phase,
  mock_one, mock_phase, main, exit_code, experiments_by_id, skip_one,
}
use hardware_in_the_loop.Campaign.Resume.{update-keeps, update-records}

abbrev pub IsRecorded : List Case → Experiment → Type 0
IsRecorded m e = recorded m e ≡ true

-- What a step may not undo: the results so far, and a failure.
abbrev Grows : State → State → Type 0
Grows st st' =
    ((e : Experiment) → IsRecorded st.manifest e → IsRecorded st'.manifest e)
    × (st'.any_failed ≡ false → st.any_failed ≡ false)

always :
    (m : List Case) (exps : List Experiment)
    → All (λ e. (not (recorded m e) || recorded m e) ≡ true) exps
always m [] = tt
always m (e ∷ exps) = (ground arith, always m exps)

-- Exit code 0 is no failure.
exit_parts :
    (end st : State)
    → (◌≡◌ {A = State × ℕ} (end, exit_code end) (st, 0))
    → (end ≡ st) × (st.any_failed ≡ false)
exit_parts end st e =
    let s : end ≡ st = ap (λ (p : State × ℕ). p.0) e in
    (s, ap (λ (s : State). s.any_failed) (sym s) ∙ ground (arith, ap (λ (p : State × ℕ). p.1) e))

module _ (upper overlay : String → String) (run : Experiment → Result) where
  finish_parts :
      (exp : Experiment) (st st' : State)
      → finish_one upper overlay run exp st ≡ some st'
      → (update_manifest_case st.manifest exp.case_id exp.level exp.result_key exp.output_dir
            (run exp).ok
          ≡ some st'.manifest)
        × (st'.any_failed ≡ (if (run exp).ok then st.any_failed else true))
  unfolding finish_one
  finish_parts exp st st' e =
      let (m, h, e1) =
        bind-some
          (update_manifest_case st.manifest exp.case_id exp.level exp.result_key exp.output_dir
            (run exp).ok)
          _ st' e in
      let (row, h', e2) = bind-some (summary_row upper overlay exp (run exp) m) _ st' e1 in
      (
        h ∙ ap (λ (s : State). some s.manifest) (some-injective _ _ e2),
        sym (ap (λ (s : State). s.any_failed) (some-injective _ _ e2)),
      )

  finish_one-Grows :
      (exp : Experiment) (st st' : State)
      → finish_one upper overlay run exp st ≡ some st'
      → Grows st st' × (st'.any_failed ≡ false → IsRecorded st'.manifest exp)
  finish_one-Grows exp st st' e =
      let (u, f) = finish_parts exp st st' e in
      (
        (
          λ o r.
              update-keeps st.manifest st'.manifest exp.case_id exp.level exp.result_key
                exp.output_dir (run exp).ok o.case_id o.level o.result_key u r,
          λ q. ground (arith, f, q),
        ),
        λ q.
            update-records st.manifest st'.manifest exp.case_id exp.level exp.result_key
              exp.output_dir
              (ap
                  (update_manifest_case st.manifest exp.case_id exp.level exp.result_key
                    exp.output_dir)
                  {x = true} {y = (run exp).ok} (ground (arith, f, q))
                ∙ u),
      )

  Grows-trans : (a b c : State) → Grows a b → Grows b c → Grows a c
  Grows-trans a b c g h = (λ e r. h.0 e (g.0 e r), λ q. g.1 (h.1 q))

  cocotb_phase-Grows :
      (exps : List Experiment) (st st' : State)
      → cocotb_phase upper overlay run exps st ≡ some st'
      → Grows st st' × (st'.any_failed ≡ false → All (IsRecorded st'.manifest) exps)
  unfolding cocotb_phase
  cocotb_phase-Grows [] st st' e = (
    (
      λ o r. ap (λ (s : State). recorded s.manifest o) (sym (some-injective _ _ e)) ∙ r,
      λ q. ap (λ (s : State). s.any_failed) (some-injective _ _ e) ∙ q,
    ),
    λ q. tt,
  )
  cocotb_phase-Grows (exp ∷ exps) st st' e =
      let (mid, h, e') = bind-some (finish_one upper overlay run exp st) _ st' e in
      let (g, r) = finish_one-Grows exp st mid h in
      let (g', r') = cocotb_phase-Grows exps mid st' e' in
      (Grows-trans st mid st' g g', λ q. (g'.0 exp (r (g'.1 q)), r' q))

  mock_one-Grows :
      (by_id : Dict Experiment) (exp : Experiment) (st st' : State)
      → mock_one upper overlay run by_id exp st ≡ some st'
      → Grows st st' × (st'.any_failed ≡ false → IsRecorded st'.manifest exp)
  unfolding mock_one
  mock_one-Grows by_id exp st st' e =
      let (dep_id, h, e1) = bind-some exp.depends_on _ st' e in
      let (dep, h', e2) = bind-some (lookup dep_id by_id) _ st' e1 in
      elim (Bool-cases (recorded st.manifest dep)) [
        | inl q ↦ finish_one-Grows exp st st' (sym (if_true _ q) ∙ e2)
        | inr q ↦
            let s : skip_one exp dep st ≡ st' = some-injective _ _ (sym (if_false _ q) ∙ e2) in
            (
              (
                λ o r. ap (λ (s : State). recorded s.manifest o) (sym s) ∙ r,
                λ f. ground (arith, ap (λ (s : State). s.any_failed) s, f),
              ),
              λ f. ground (arith, ap (λ (s : State). s.any_failed) s, f),
            )
      ]

  mock_phase-Grows :
      (by_id : Dict Experiment) (exps : List Experiment) (st st' : State)
      → mock_phase upper overlay run by_id exps st ≡ some st'
      → Grows st st' × (st'.any_failed ≡ false → All (IsRecorded st'.manifest) exps)
  unfolding mock_phase
  mock_phase-Grows by_id [] st st' e = (
    (
      λ o r. ap (λ (s : State). recorded s.manifest o) (sym (some-injective _ _ e)) ∙ r,
      λ q. ap (λ (s : State). s.any_failed) (some-injective _ _ e) ∙ q,
    ),
    λ q. tt,
  )
  mock_phase-Grows by_id (exp ∷ exps) st st' e =
      let (mid, h, e') = bind-some (mock_one upper overlay run by_id exp st) _ st' e in
      let (g, r) = mock_one-Grows by_id exp st mid h in
      let (g', r') = mock_phase-Grows by_id exps mid st' e' in
      (Grows-trans st mid st' g g', λ q. (g'.0 exp (r (g'.1 q)), r' q))

  All-recorded :
      (m m' : List Case) (exps : List Experiment)
      → ((e : Experiment) → IsRecorded m e → IsRecorded m' e)
      → All (IsRecorded m') (select (λ e. not (recorded m e)) exps)
      → All (IsRecorded m') exps
  All-recorded m m' exps keeps h =
      All-select (IsRecorded m') (λ e. not (recorded m e)) (recorded m) exps (always m exps) h
        (All-imply (select (recorded m) exps) keeps (select-IsSelected (recorded m) exps))

  main_records :
      (order : List Experiment → List Experiment)
      (order_complete : (P : Experiment → Type 0) (exps : List Experiment)
        → All P (order exps)
        → All P exps)
      (args : Args) (exps : List Experiment) (m : List Case) (summary : Option (List (List String)))
      (st : State)
      → args.dry_run ≡ false
      → All
          (λ e. (is_runner "cocotb" e || is_runner "fullstack_mock" e) ≡ true)
          (selected args m exps)
      → main upper overlay run order args exps m summary ≡ some (st, 0)
      → ((e : Experiment) → IsRecorded m e → IsRecorded st.manifest e)
        × All (IsRecorded st.manifest) (selected args m exps)
  unfolding main
  main_records order order_complete args exps m summary st d k e =
      let todo = selected args m exps in
      let start : State = record {
        manifest = m;
        summary = summary;
        printed = [];
        any_failed = false;
      } in
      let cocotb = select (is_runner "cocotb") todo in
      let mocks = select (is_runner "fullstack_mock") todo in
      let (mid, h1, e1) =
        bind-some (cocotb_phase upper overlay run (order cocotb) start) _ (st, 0)
          (sym (if_false _ d) ∙ e) in
      let (end, h2, e2) =
        bind-some (mock_phase upper overlay run (experiments_by_id (enabled_of exps)) mocks mid) _
          (st, 0) e1 in
      let (s, c) = exit_parts end st (some-injective _ _ e2) in
      let (g, r) = cocotb_phase-Grows (order cocotb) start mid h1 in
      let (g', r') =
        mock_phase-Grows (experiments_by_id (enabled_of exps)) mocks mid st (h2 ∙ ap some s) in
      (
        λ o q. g'.0 o (g.0 o q),
        All-select (IsRecorded st.manifest) (is_runner "cocotb") (is_runner "fullstack_mock") todo k
            (order_complete (IsRecorded st.manifest) cocotb
              (All-imply (order cocotb) g'.0 (r (g'.1 c))))
            (r' c),
      )

  -- A matrix run without --dry-run that ends with exit code 0 leaves nothing to do: a second run with
  -- the same selection, without --force, finds every experiment recorded, whatever the order in which
  -- the pool completes the runs, provided that it completes each one. Every experiment that the first
  -- run selects has one of the two runners that main knows.
  pub main_resumes :
      (order : List Experiment → List Experiment)
      (order_complete : (P : Experiment → Type 0) (exps : List Experiment)
        → All P (order exps)
        → All P exps)
      (args : Args) (exps : List Experiment) (m : List Case) (summary : Option (List (List String)))
      (st : State)
      → args.dry_run ≡ false
      → All
          (λ e. (is_runner "cocotb" e || is_runner "fullstack_mock" e) ≡ true)
          (selected args m exps)
      → main upper overlay run order args exps m summary ≡ some (st, 0)
      → selected (record { only = args.only; force = false; dry_run = false }) st.manifest exps ≡ []
  unfolding selected
  main_resumes order order_complete args exps m summary st d k e =
      let chosen = chosen_of args.only (enabled_of exps) in
      let (keeps, done) = main_records order order_complete args exps m summary st d k e in
      let all_done : All (IsRecorded st.manifest) chosen = elim (Bool-cases args.force) [
        | inl f ↦ subst (All (IsRecorded st.manifest)) (if_true _ f) done
        | inr f ↦
            All-recorded m st.manifest chosen keeps
              (subst (All (IsRecorded st.manifest)) (if_false _ f) done)
      ] in
      select-All (λ e. not (recorded st.manifest e)) chosen
        (All-imply chosen (λ e r. ap not r) all_done)
