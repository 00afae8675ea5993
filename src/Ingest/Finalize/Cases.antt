-- ===== src/Ingest/Finalize/Cases.antt =====
-- The runs of `finalize_upload_to_pcaps` up to the rename.
use srhc_observability_claud.Prelude.{
  if◌then◌else◌, ◌≡◌, Option, none, some, Bool, true, false, refl, ◌⊎◌, inl, inr, ◌&&◌, Bool-cases,
  Option-cases,
}
use srhc_observability_claud.Prelude.Text.{Text}
use srhc_observability_claud.Ingest.Container.{Bytes}
use srhc_observability_claud.Ingest.Finalize.{
  fail, stop_or, check_source, check_opened, check_unchanged, run, claim, copy, commit, verify,
  final_of,
}
use srhc_observability_claud.Ingest.Finalize.Types.{
  source_changed_during_claim, promotion_copy_failed, Stat, Settings, Calls, Paths, Result,
  Category,
}

-- The source, the opened file and the bytes that were copied, with all checks passed.
abbrev pub Claimed : Settings → Calls → Stat → Stat → Bytes → Type 0
Claimed cfg calls source fd bytes =
    (calls.lstat_source ≡ some source)
    × (check_source cfg source calls.free_bytes ≡ none)
    × (calls.opened ≡ some fd)
    × (check_opened source fd calls.head ≡ none)
    × (calls.copied ≡ some bytes)
    × (check_unchanged fd calls.fstat_after calls.lstat_after calls.hook ≡ none)

abbrev pub placed : Settings → Bytes → Paths → Paths
placed cfg bytes p = record p { temp = false; destination = some (final_of cfg bytes) }

-- A run that raises before the rename, or the comparison of hashes after it.
abbrev pub RunCases : Settings → (Bytes → Text) → Calls → Paths → Result → Type 0
RunCases cfg sha256 calls p r =
    ((c : Category) × (temp : Bool) × (r ≡ fail c (record p { temp = temp })))
    ⊎ ((source : Stat) × (fd : Stat) × (bytes : Bytes) × Claimed cfg calls source fd bytes
        × (r ≡ verify sha256 calls fd bytes (placed cfg calls.stored p)))

copy-none :
    (cfg : Settings) (sha256 : Bytes → Text) (calls : Calls) (fd : Stat) (p : Paths)
    → calls.copied ≡ none
    → copy cfg sha256 calls fd p ≡ fail promotion_copy_failed p
unfolding copy
copy-none cfg sha256 calls fd p e = simp (copy, e)

copy-some :
    (cfg : Settings) (sha256 : Bytes → Text) (calls : Calls) (fd : Stat) (p : Paths) (bytes : Bytes)
    → calls.copied ≡ some bytes
    → copy cfg sha256 calls fd p
      ≡ stop_or
          (check_unchanged fd calls.fstat_after calls.lstat_after calls.hook)
          p
          (commit cfg sha256 calls fd bytes p)
unfolding copy
copy-some cfg sha256 calls fd p bytes e = simp (copy, e)

commit-true :
    (cfg : Settings) (sha256 : Bytes → Text) (calls : Calls) (fd : Stat) (bytes : Bytes) (p : Paths)
    → (calls.owned_and_synced && calls.replaced) ≡ true
    → commit cfg sha256 calls fd bytes p ≡ verify sha256 calls fd bytes (placed cfg calls.stored p)
unfolding commit
commit-true cfg sha256 calls fd bytes p e = simp (commit, e)

commit-false :
    (cfg : Settings) (sha256 : Bytes → Text) (calls : Calls) (fd : Stat) (bytes : Bytes) (p : Paths)
    → (calls.owned_and_synced && calls.replaced) ≡ false
    → commit cfg sha256 calls fd bytes p ≡ fail promotion_copy_failed p
unfolding commit
commit-false cfg sha256 calls fd bytes p e = simp (commit, e)

claim-none :
    (cfg : Settings) (sha256 : Bytes → Text) (calls : Calls) (source : Stat) (p : Paths)
    → calls.opened ≡ none
    → claim cfg sha256 calls source p ≡ fail source_changed_during_claim p
unfolding claim
claim-none cfg sha256 calls source p e = simp (claim, e)

claim-some :
    (cfg : Settings) (sha256 : Bytes → Text) (calls : Calls) (source fd : Stat) (p : Paths)
    → calls.opened ≡ some fd
    → claim cfg sha256 calls source p
      ≡ stop_or (check_opened source fd calls.head) p (
          if calls.temp_created
          then copy cfg sha256 calls fd (record p { temp = true })
          else fail promotion_copy_failed p)
unfolding claim
claim-some cfg sha256 calls source fd p e = simp (claim, e)

run-none :
    (cfg : Settings) (sha256 : Bytes → Text) (calls : Calls) (p : Paths)
    → calls.lstat_source ≡ none
    → run cfg sha256 calls p ≡ fail promotion_copy_failed p
unfolding run
run-none cfg sha256 calls p e = simp (run, e)

run-some :
    (cfg : Settings) (sha256 : Bytes → Text) (calls : Calls) (p : Paths) (source : Stat)
    → calls.lstat_source ≡ some source
    → run cfg sha256 calls p
      ≡ stop_or (check_source cfg source calls.free_bytes) p (claim cfg sha256 calls source p)
unfolding run
run-some cfg sha256 calls p source e = simp (run, e)

-- What holds of a failure and of the rest holds of the two behind a check.
stop_or-elim :
    (P : Result → Type 0) (c : Option Category) (p : Paths) (r : Result)
    → ((k : Category) → P (fail k p))
    → (c ≡ none → P r)
    → P (stop_or c p r)
unfolding stop_or
stop_or-elim P none p r failing going = going refl
stop_or-elim P (some k) p r failing going = failing k

copy-RunCases :
    (cfg : Settings) (sha256 : Bytes → Text) (calls : Calls) (source fd : Stat) (p : Paths)
    → calls.lstat_source ≡ some source
    → check_source cfg source calls.free_bytes ≡ none
    → calls.opened ≡ some fd
    → check_opened source fd calls.head ≡ none
    → RunCases cfg sha256 calls p (copy cfg sha256 calls fd (record p { temp = true }))
copy-RunCases cfg sha256 calls source fd p l s o h = elim (Option-cases calls.copied) [
  | inl e ↦
      rw (copy-none cfg sha256 calls fd (record p { temp = true }) e)
        (inl (promotion_copy_failed, true, refl))
  | inr (bytes, e) ↦ rw (copy-some cfg sha256 calls fd (record p { temp = true }) bytes e) (
      stop_or-elim (RunCases cfg sha256 calls p)
        (check_unchanged fd calls.fstat_after calls.lstat_after calls.hook)
        (record p { temp = true }) (commit cfg sha256 calls fd bytes (record p { temp = true }))
        (λ k. inl (k, true, refl))
        (λ u. elim (Bool-cases (calls.owned_and_synced && calls.replaced)) [
          | inl c ↦
              rw (commit-true cfg sha256 calls fd bytes (record p { temp = true }) c)
                (inr (source, fd, bytes, (l, s, o, h, e, u), refl))
          | inr c ↦
              rw (commit-false cfg sha256 calls fd bytes (record p { temp = true }) c)
                (inl (promotion_copy_failed, true, refl))
        ]))
]

claim-RunCases :
    (cfg : Settings) (sha256 : Bytes → Text) (calls : Calls) (source : Stat) (p : Paths)
    → calls.lstat_source ≡ some source
    → check_source cfg source calls.free_bytes ≡ none
    → RunCases cfg sha256 calls p (claim cfg sha256 calls source p)
claim-RunCases cfg sha256 calls source p l s = elim (Option-cases calls.opened) [
  | inl e ↦
      rw (claim-none cfg sha256 calls source p e) (inl (source_changed_during_claim, p.temp, refl))
  | inr (fd, e) ↦ rw (claim-some cfg sha256 calls source fd p e) (
      stop_or-elim (RunCases cfg sha256 calls p) (check_opened source fd calls.head) p _
        (λ k. inl (k, p.temp, refl))
        (λ h. elim (Bool-cases calls.temp_created) [
          | inl t ↦ simp t (copy-RunCases cfg sha256 calls source fd p l s e h)
          | inr t ↦ simp t (inl (promotion_copy_failed, p.temp, refl))
        ]))
]

pub run-RunCases :
    (cfg : Settings) (sha256 : Bytes → Text) (calls : Calls) (p : Paths)
    → RunCases cfg sha256 calls p (run cfg sha256 calls p)
run-RunCases cfg sha256 calls p = elim (Option-cases calls.lstat_source) [
  | inl e ↦ rw (run-none cfg sha256 calls p e) (inl (promotion_copy_failed, p.temp, refl))
  | inr (source, e) ↦ rw (run-some cfg sha256 calls p source e) (
      stop_or-elim (RunCases cfg sha256 calls p) (check_source cfg source calls.free_bytes) p
        (claim cfg sha256 calls source p) (λ k. inl (k, p.temp, refl))
        (λ h. claim-RunCases cfg sha256 calls source p e h))
]
