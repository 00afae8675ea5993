-- ===== src/RfValidation/Executor/Outcome.antt =====
-- How a run of tools/vocera_rf_validation/run_executor.py can end.
use srhc_observability_claud.Prelude.{
  ◌≡◌, ◌⊎◌, refl, sym, ap, ◌∙◌, true, false, List, [], ◌∷◌, ◌++◌, Bool-cases, inl, inr,
}
use mathlib.Core.List.{append_assoc, append-nil}
use srhc_observability_claud.RfValidation.Window.{Config}
use srhc_observability_claud.RfValidation.Executor.{
  Command, RunError, command_failed, Checked, raised, returned, System, is_safe_run_id,
  build_effective_run_config,
}
use srhc_observability_claud.RfValidation.Executor.Sources.{Sources}
use srhc_observability_claud.RfValidation.Executor.Pipeline.{pipeline}
use srhc_observability_claud.RfValidation.Executor.Run.{
  Execution, is_zero, execute_commands, RunExecutionResult, result_of, Request, output_dir_of,
  check_request, execute_sources, execute_checked, execute_selected_run,
}
use srhc_observability_claud.RfValidation.Executor.Selection.{
  Fits, Fits-map, on_error, on_result, IsSelection, select_sources-Fits,
}

-- After the commands that ran before, each of these exits with 0.
abbrev pub Succeed : System → List Command → List Command → Type 0
Succeed s ran [] = Unit
Succeed s ran (command ∷ commands) =
    (is_zero (s.exit_code (ran ++ command ∷ [])) ≡ true) × Succeed s (ran ++ command ∷ []) commands

-- All commands exit with 0; or one fails, and it is the last that is run.
pub data Executed {A : Type 0} (s : System) (result : A) (ran commands : List Command)
    : Execution A → Type 0 where
  all_succeed :
      {all : List Command}
      → all ≡ ran ++ commands
      → Succeed s ran commands
      → Executed s result ran commands (record { commands = all; outcome = returned result })
  one_fails :
      {some_of : List Command} (before : List Command) (command : Command) (after : List Command)
      → commands ≡ before ++ command ∷ after
      → some_of ≡ ran ++ before ++ command ∷ []
      → Succeed s ran before
      → is_zero (s.exit_code some_of) ≡ false
      → Executed s result ran commands
          (record { commands = some_of; outcome = raised (command_failed command) })

Executed-next :
    {A : Type 0} (s : System) (result : A) (ran : List Command) (command : Command)
    (commands : List Command) (e : Execution A)
    → is_zero (s.exit_code (ran ++ command ∷ [])) ≡ true
    → Executed s result (ran ++ command ∷ []) commands e
    → Executed s result ran (command ∷ commands) e
Executed-next s result ran command commands _ z (all_succeed q h) =
    all_succeed (q ∙ append_assoc ran (command ∷ []) commands) (z, h)
Executed-next s result ran command commands _ z (one_fails before c after q k h f) =
    one_fails (command ∷ before) c after (ap (◌∷◌ command) q)
      (k ∙ ap (λ cs. cs ++ c ∷ []) (append_assoc ran (command ∷ []) before)) (z, h) f

execute_commands-Executed :
    {A : Type 0} (s : System) (result : A) (ran commands : List Command)
    → Executed s result ran commands (execute_commands s result ran commands)
unfolding execute_commands
execute_commands-Executed s result ran [] = all_succeed (sym (append-nil ran)) tt
execute_commands-Executed s result ran (command ∷ commands) =
    elim (Bool-cases (is_zero (s.exit_code (ran ++ command ∷ [])))) [
      | inl e ↦ simp e (
          Executed-next s result ran command commands _ e
            (execute_commands-Executed s result (ran ++ command ∷ []) commands))
      | inr e ↦ simp e (
          one_fails [] command commands refl (ap (λ cs. cs ++ command ∷ []) (sym (append-nil ran)))
            tt e)
    ]

-- How a run ends: an error of the checks, or of the window, before any command; or sources were selected, and the commands of the
-- pipeline, for the configuration with the window of the run, were executed.
pub data IsRun (s : System) (r : Request) : Execution RunExecutionResult → Type 0 where
  refused :
      (e : RunError)
      → (check_request s r ≡ raised e)
        ⊎ (build_effective_run_config s r.base_config r.run ≡ raised e)
      → IsRun s r (record { commands = []; outcome = raised e })
  executed :
      (sources : Sources) (config : Config) (e : Execution RunExecutionResult)
      → is_safe_run_id r.test_run_id ≡ true
      → s.is_file (s.repo_path r.config_path) ≡ true
      → IsSelection s r.files sources
      → build_effective_run_config s r.base_config r.run ≡ returned config
      → Executed s
          (result_of s r.test_run_id (output_dir_of s r) config sources)
          []
          (pipeline s r.test_run_id r.run sources (output_dir_of s r) r.psql_bin r.postgres_url)
          e
      → IsRun s r e

-- The conditions under which sources are taken.
IsAdmitted : System → Request → Sources → Type 0
IsAdmitted s r sources =
    (is_safe_run_id r.test_run_id ≡ true)
    × (s.is_file (s.repo_path r.config_path) ≡ true)
    × IsSelection s r.files sources

check_request-Fits : (s : System) (r : Request) → Fits (IsAdmitted s r) (check_request s r)
unfolding check_request IsAdmitted
check_request-Fits s r = elim (Bool-cases (is_safe_run_id r.test_run_id)) [
  | inr e ↦ simp e on_error
  | inl e ↦ elim (Bool-cases (s.is_file (s.repo_path r.config_path))) [
    | inr g ↦ simp (e, g) on_error
    | inl g ↦ simp (e, g) (Fits-map (λ sources h. (e, g, h)) (select_sources-Fits s r.files))
  ]
]

execute_sources-IsRun :
    (s : System) (r : Request) (sources : Sources) (c : Checked Config)
    → IsAdmitted s r sources
    → build_effective_run_config s r.base_config r.run ≡ c
    → IsRun s r (execute_sources s r sources c)
unfolding execute_sources IsAdmitted
execute_sources-IsRun s r sources (raised e) h q = refused e (inr q)
execute_sources-IsRun s r sources (returned config) h q =
    executed sources config _ h.0 h.1 h.2 q (execute_commands-Executed s _ [] _)

execute_checked-IsRun :
    (s : System) (r : Request) (c : Checked Sources)
    → check_request s r ≡ c
    → Fits (IsAdmitted s r) c
    → IsRun s r (execute_checked s r c)
unfolding execute_checked
execute_checked-IsRun s r _ q on_error = refused _ (inl q)
execute_checked-IsRun s r _ q (on_result h) = execute_sources-IsRun s r _ _ h refl

-- execute_selected_run raises before any command, the error of its checks or of the window; or the id of the run passes its test, the
-- configuration is a file, the sources are what the selected rows give (one badge log or the
-- client details of an iPad and not both, one Ekahau file, at most one manual file, all of them
-- files), and the commands of the pipeline are run in their order: all of them, each with exit
-- code 0, and then the result is returned; or up to the first whose exit code is not 0, and then
-- the error for that command is raised.
pub execute_selected_run-IsRun : (s : System) (r : Request) → IsRun s r (execute_selected_run s r)
unfolding execute_selected_run
execute_selected_run-IsRun s r =
    execute_checked-IsRun s r (check_request s r) refl (check_request-Fits s r)
