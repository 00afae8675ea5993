-- ===== src/RfValidation/Executor.antt =====
-- tools/vocera_rf_validation/run_executor.py: from the files that are selected for a run to the
-- commands of the pipeline. Paths are texts.
mod Tests
pub mod Sources
pub mod Pipeline
pub mod Run
pub mod Selection
pub mod Outcome
use srhc_observability_claud.Prelude.{
  ℕ, zero, suc, ◌*◌, Bool, true, false, ◌&&◌, ◌||◌, Option, none, some, List, [], ◌∷◌, ◌++◌, length,
  leb, ◌==◌, if◌then◌else◌,
}
use srhc_observability_claud.Prelude.Int.{ℤ, pos, negsuc}
use srhc_observability_claud.Prelude.Text.{Text, codes, strip, is_empty, text_eq}
use srhc_observability_claud.RfValidation.Window.{Config}

abbrev pub Command : Type 0
Command = List Text

-- The roles of source files.
abbrev pub badge_log : Text
badge_log = codes "badge_log"

abbrev pub ekahau_json : Text
ekahau_json = codes "ekahau_json"

abbrev pub manual_csv : Text
manual_csv = codes "manual_csv"

abbrev pub ipad_client_detail : Text
ipad_client_detail = codes "ipad_client_detail"

-- The exceptions: the RuntimeErrors, and the OverflowError of int(float("inf")).
pub data RunError : Type 0 where
  unsafe_test_run_id : RunError
  config_not_found : RunError
  file_not_available : Text → Text → RunError
  select_one : Text → RunError
  select_only_one : Text → ℕ → RunError
  both_sources : RunError
  no_source : RunError
  overflow_error : RunError
  command_failed : Command → RunError

pub data Checked {ℓ} (A : Type ℓ) : Type ℓ where
  raised : RunError → Checked A
  returned : A → Checked A

unfoldable pub and_then {ℓ κ} : {A : Type ℓ} {B : Type κ} → Checked A → (A → Checked B) → Checked B
and_then (raised e) f = raised e
and_then (returned a) f = f a

pub record FileRow : Type 0 where
  pub source_role : Option Text
  pub file_path : Option Text

pub record RunRow : Type 0 where
  pub default_match_window_seconds : Option Text
  pub badge_mac : Option Text
  pub badge_model : Option Text

-- `int(float(raw))`: a number, a ValueError, or an OverflowError.
pub data Truncated : Type 0 where
  whole : ℤ → Truncated
  not_a_number : Truncated
  infinite : Truncated

-- What the functions ask the system: the absolute path of a path, whether it is a file, the number
-- in a text, the name of a path below the root, the root of the outputs, the interpreter, and the
-- exit code of the last of the commands that were run.
pub record System : Type 0 where
  pub repo_path : Text → Text
  pub is_file : Text → Bool
  pub truncate : Text → Truncated
  pub stored_path : Text → Text
  pub output_root : Text → Text
  pub executable : Text
  pub exit_code : List Command → ℤ

-- `_value`
unfoldable pub value_of : Option Text → Text
unfolding strip
value_of none = []
value_of (some text) = strip text

unfoldable pub add_path : Text → Checked (List Text) → Checked (List Text)
add_path path (raised e) = raised e
add_path path (returned paths) = returned (path ∷ paths)

-- `_selected_files`
unfoldable pub selected_files : System → Text → List FileRow → Checked (List Text)
unfolding value_of add_path
selected_files s role [] = returned []
selected_files s role (row ∷ rows) =
    let rest = selected_files s role rows in
    let raw_path = value_of row.file_path in
    let path = s.repo_path raw_path in
    if text_eq (value_of row.source_role) role
    then if is_empty raw_path
      then rest
      else if s.is_file path
      then add_path path rest
      else raised (file_not_available role raw_path)
    else rest

-- `_one`
unfoldable pub one : Text → Bool → List Text → Checked (Option Text)
one role true [] = raised (select_one role)
one role false [] = returned none
one role required (path ∷ []) = returned (some path)
one role required (path ∷ other ∷ paths) = raised (select_only_one role (suc (suc (length paths))))

unfoldable pub window_from : Truncated → Checked (Option ℕ)
window_from not_a_number = returned none
window_from infinite = raised overflow_error
window_from (whole (negsuc n)) = returned none
window_from (whole (pos n)) = returned (if leb 1 n then some n else none)

-- `_run_match_window_seconds`
unfoldable pub run_match_window_seconds : System → RunRow → Checked (Option ℕ)
unfolding value_of window_from
run_match_window_seconds s run =
    let raw = value_of run.default_match_window_seconds in
    if is_empty raw then returned none else window_from (s.truncate raw)

unfoldable pub apply_window : Config → Option ℕ → Config
apply_window base none = base
apply_window base (some window) = record base {
  default_match_window = some (pos (1000000 * window));
}

unfoldable pub build_effective_run_config : System → Config → RunRow → Checked Config
unfolding run_match_window_seconds apply_window and_then
build_effective_run_config s base run =
    and_then (run_match_window_seconds s run) (λ window. returned (apply_window base window))

-- `[A-Za-z0-9_.-]`
unfoldable pub is_run_id_char : ℕ → Bool
is_run_id_char c =
    (leb 65 c && leb c 90)
    || (leb 97 c && leb c 122)
    || (leb 48 c && leb c 57)
    || c == 95
    || c == 46
    || c == 45

-- `$` also matches before a newline at the end.
unfoldable pub ends_run_id : Text → Bool
unfolding is_run_id_char
ends_run_id [] = true
ends_run_id (c ∷ []) = is_run_id_char c || c == 10
ends_run_id (c ∷ d ∷ text) = is_run_id_char c && ends_run_id (d ∷ text)

unfoldable pub is_safe_run_id : Text → Bool
unfolding is_run_id_char ends_run_id
is_safe_run_id [] = false
is_safe_run_id (c ∷ text) = is_run_id_char c && ends_run_id text
