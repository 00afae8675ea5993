-- ===== src/RfValidation/Executor/Selection.antt =====
-- What the sources of a run are, in the selected files, for
-- tools/vocera_rf_validation/run_executor.py.
use srhc_observability_claud.Prelude.{
  ◌≡◌, refl, sym, ap, Bool, true, false, not, ◌&&◌, Option, none, some, List, [], ◌∷◌, map,
  Bool-cases, inl, inr,
}
use srhc_observability_claud.Prelude.Text.{Text, is_empty, text_eq}
use srhc_observability_claud.Prelude.Select.{filter, All}
use srhc_observability_claud.RfValidation.Executor.{
  Checked, raised, returned, and_then, FileRow, System, value_of, add_path, selected_files, one,
  badge_log, ekahau_json, manual_csv, ipad_client_detail,
}
use srhc_observability_claud.RfValidation.Executor.Sources.{
  Readings, badge, ipad, Sources, readings_of, required_path, selected_one, select_sources,
}

-- What is returned has the property.
pub data Fits {ℓ κ} {A : Type ℓ} (P : A → Type κ) : Checked A → Type (ℓ ⊔ κ) where
  on_error : {e : _} → Fits P (raised e)
  on_result : {a : A} → P a → Fits P (returned a)

pub and_then-Fits {ℓ κ μ ν} :
    {A : Type ℓ} {B : Type κ} {P : A → Type μ} {Q : B → Type ν} {c : Checked A} {f : A → Checked B}
    → Fits P c
    → ((a : A) → P a → Fits Q (f a))
    → Fits Q (and_then c f)
unfolding and_then
and_then-Fits on_error h = on_error
and_then-Fits (on_result p) h = h _ p

pub Fits-map {ℓ κ μ} :
    {A : Type ℓ} {P : A → Type κ} {Q : A → Type μ} {c : Checked A}
    → ((a : A) → P a → Q a)
    → Fits P c
    → Fits Q c
Fits-map f on_error = on_error
Fits-map f (on_result p) = on_result (f _ p)

-- A row is of the role and has a path.
unfoldable pub is_chosen : Text → FileRow → Bool
unfolding value_of
is_chosen role row =
    text_eq (value_of row.source_role) role && not (is_empty (value_of row.file_path))

-- The paths of a role, in their order.
unfoldable pub chosen : System → Text → List FileRow → List Text
unfolding filter is_chosen value_of
chosen s role files =
    map (λ row. s.repo_path (value_of (FileRow.file_path row))) (filter (is_chosen role) files)

abbrev IsFiles : System → List Text → Type 0
IsFiles s paths = All (λ path. s.is_file path ≡ true) paths

add_path-Fits :
    (s : System) (path : Text) (paths : List Text) (c : Checked (List Text))
    → s.is_file path ≡ true
    → Fits (λ ps. (ps ≡ paths) × IsFiles s ps) c
    → Fits (λ ps. (ps ≡ path ∷ paths) × IsFiles s ps) (add_path path c)
unfolding add_path
add_path-Fits s path paths _ e on_error = on_error
add_path-Fits s path paths _ e (on_result h) = on_result (ap (◌∷◌ path) h.0, (e, h.1))

pub selected_files-Fits :
    (s : System) (role : Text) (files : List FileRow)
    → Fits (λ ps. (ps ≡ chosen s role files) × IsFiles s ps) (selected_files s role files)
unfolding selected_files chosen
selected_files-Fits s role [] = on_result (refl, tt)
selected_files-Fits s role (row ∷ files) =
    let rest = selected_files-Fits s role files in
    elim (Bool-cases (text_eq (value_of row.source_role) role)) [
      | inr e ↦ simp e rest
      | inl e ↦ elim (Bool-cases (is_empty (value_of row.file_path))) [
        | inl g ↦ simp (e, g) rest
        | inr g ↦ elim (Bool-cases (s.is_file (s.repo_path (value_of row.file_path)))) [
          | inl k ↦ simp (e, g, k) (add_path-Fits s _ _ _ k rest)
          | inr k ↦ simp (e, g, k) on_error
        ]
      ]
    ]

-- The path of a role of which there is one at most.
abbrev pub IsOne : List Text → Option Text → Type 0
IsOne paths none = paths ≡ []
IsOne paths (some path) = paths ≡ path ∷ []

one-Fits :
    (role : Text) (required : Bool) (paths : List Text)
    → Fits (IsOne paths) (one role required paths)
unfolding one
one-Fits role true [] = on_error
one-Fits role false [] = on_result refl
one-Fits role required (path ∷ []) = on_result refl
one-Fits role required (path ∷ other ∷ paths) = on_error

abbrev IsOneFile : System → List Text → Option Text → Type 0
IsOneFile s paths o = IsOne paths o × IsFiles s paths

selected_one-Fits :
    (s : System) (files : List FileRow) (role : Text) (required : Bool)
    → Fits (IsOneFile s (chosen s role files)) (selected_one s files role required)
unfolding selected_one
selected_one-Fits s files role required =
    and_then-Fits (selected_files-Fits s role files)
      (λ paths h. Fits-map (λ o k. rw (sym h.0) (k, h.1)) (one-Fits role required paths))

abbrev pub AreReadings : System → List FileRow → Readings → Type 0
AreReadings s files (badge log) =
    (chosen s badge_log files ≡ log ∷ []) × (chosen s ipad_client_detail files ≡ [])
AreReadings s files (ipad input inputs) =
    (chosen s badge_log files ≡ []) × (chosen s ipad_client_detail files ≡ input ∷ inputs)

-- The sources are what the rows of each role give, and all are files.
pub record IsSelection (s : System) (files : List FileRow) (sources : Sources) : Type 0 where
  pub readings_given : AreReadings s files sources.readings
  pub ekahau_given : chosen s ekahau_json files ≡ sources.ekahau ∷ []
  pub manual_given : IsOne (chosen s manual_csv files) sources.manual
  pub logs_are_files : IsFiles s (chosen s badge_log files)
  pub inputs_are_files : IsFiles s (chosen s ipad_client_detail files)
  pub surveys_are_files : IsFiles s (chosen s ekahau_json files)
  pub entries_are_files : IsFiles s (chosen s manual_csv files)

readings_of-Fits :
    (s : System) (files : List FileRow) (log : Option Text) (inputs : List Text)
    → IsOne (chosen s badge_log files) log
    → inputs ≡ chosen s ipad_client_detail files
    → Fits (AreReadings s files) (readings_of log inputs)
unfolding readings_of
readings_of-Fits s files (some path) [] h k = on_result (h, sym k)
readings_of-Fits s files (some path) (input ∷ inputs) h k = on_error
readings_of-Fits s files none [] h k = on_error
readings_of-Fits s files none (input ∷ inputs) h k = on_result (h, sym k)

required_path-Fits :
    (role : Text) (paths : List Text) (o : Option Text)
    → IsOne paths o
    → Fits (λ path. paths ≡ path ∷ []) (required_path role o)
unfolding required_path
required_path-Fits role paths none h = on_error
required_path-Fits role paths (some path) h = on_result h

pub select_sources-Fits :
    (s : System) (files : List FileRow) → Fits (IsSelection s files) (select_sources s files)
unfolding select_sources
select_sources-Fits s files = and_then-Fits (selected_one-Fits s files badge_log false) (λ log hl.
    and_then-Fits (selected_files-Fits s ipad_client_detail files) (λ inputs hi.
      and_then-Fits (selected_one-Fits s files ekahau_json true) (λ survey hs.
        and_then-Fits (required_path-Fits ekahau_json _ survey hs.0) (λ ekahau he.
          and_then-Fits (selected_one-Fits s files manual_csv false) (λ manual hm.
            and_then-Fits (readings_of-Fits s files log inputs hl.0 hi.0) (λ readings hr.
              on_result (record {
                readings_given = hr;
                ekahau_given = he;
                manual_given = hm.0;
                logs_are_files = hl.1;
                inputs_are_files = rw (sym hi.0) hi.1;
                surveys_are_files = hs.1;
                entries_are_files = hm.1;
              })))))))
