-- ===== src/Ingest/Artifact/Quarantine.antt =====
-- The failures of finalize_upload_to_pcaps that media_wlc_process_incoming quarantines.
use srhc_observability_claud.Prelude.{
  ◌≡◌, ◌⊎◌, inl, inr, ◌∙◌, sym, ap, true, Bool, Bool-cases, none, arith,
}
use srhc_observability_claud.Prelude.Text.{Text, text_eq}
use srhc_observability_claud.Ingest.Container.{Bytes}
use srhc_observability_claud.Ingest.Finalize.{
  fail, remove, finish, verify, verify_bytes, run, clean_up, finalize_upload_to_pcaps,
}
use srhc_observability_claud.Ingest.Finalize.Types.{
  Settings, Calls, Paths, Result, Stat, Category, Removal, failed, promotion_copy_failed,
  promotion_hash_mismatch,
}
use srhc_observability_claud.Ingest.Finalize.Cases.{run-RunCases, placed}
use srhc_observability_claud.Ingest.Finalize.Verify.{verify-unread, verify-read}
use srhc_observability_claud.Ingest.Artifact.Process.{is_quarantine_reason}

remove_not_quarantine :
    (ok : Bool) (fd : Stat) (sum : Text) (r : Removal) (p : Paths) (c : Category)
    → (remove ok fd sum r p).outcome ≡ failed c
    → is_quarantine_reason c ≡ true
    → ⊥
unfolding remove finish is_quarantine_reason
remove_not_quarantine ok fd sum r p c h q = ground arith

verify_bytes_quarantine :
    (sha256 : Bytes → Text) (calls : Calls) (fd : Stat) (bytes back : Bytes) (p : Paths)
    (c : Category)
    → (verify_bytes sha256 calls fd bytes back p).outcome ≡ failed c
    → is_quarantine_reason c ≡ true
    → ((verify_bytes sha256 calls fd bytes back p).paths.source_unlinked ≡ p.source_unlinked)
      × (c ≡ promotion_hash_mismatch)
      × ((verify_bytes sha256 calls fd bytes back p).paths.destination ≡ none)
unfolding verify_bytes is_quarantine_reason
verify_bytes_quarantine sha256 calls fd bytes back p c h q =
    elim (Bool-cases (text_eq (sha256 back) (sha256 bytes))) [
      | inl e ↦
          let same : verify_bytes sha256 calls fd bytes back p
              ≡ remove calls.final_stat fd (sha256 back) calls.removal p =
            simp (verify_bytes, e) in
          elim (remove_not_quarantine calls.final_stat fd (sha256 back) calls.removal p c
            (sym (ap (λ r. r.outcome) same) ∙ h) q) [ ]
      | inr e ↦ ground arith
    ]

fail_not_quarantine :
    (r : Result) (p : Paths) (c : Category)
    → r ≡ fail promotion_copy_failed p
    → r.outcome ≡ failed c
    → is_quarantine_reason c ≡ true
    → ⊥
unfolding is_quarantine_reason
fail_not_quarantine r p c e h q =
    let f : failed c ≡ failed promotion_copy_failed = sym h ∙ ap (λ x. x.outcome) e in ground arith

verify_quarantine :
    (sha256 : Bytes → Text) (calls : Calls) (fd : Stat) (bytes : Bytes) (p : Paths) (c : Category)
    → (verify sha256 calls fd bytes p).outcome ≡ failed c
    → is_quarantine_reason c ≡ true
    → ((verify sha256 calls fd bytes p).paths.source_unlinked ≡ p.source_unlinked)
      × (c ≡ promotion_hash_mismatch)
      × ((verify sha256 calls fd bytes p).paths.destination ≡ none)
verify_quarantine sha256 calls fd bytes p c h q = elim (Bool-cases calls.read_back) [
  | inr e ↦ elim (fail_not_quarantine _ p c (verify-unread sha256 calls fd bytes p e) h q) [ ]
  | inl e ↦
      let v = verify-read sha256 calls fd bytes p e in
      let (x, y, z) =
        verify_bytes_quarantine sha256 calls fd bytes calls.stored p c
          (sym (ap (λ r. r.outcome) v) ∙ h) q in
      (ap (λ r. r.paths.source_unlinked) v ∙ x, y, ap (λ r. r.paths.destination) v ∙ z)
]

clean_up_paths :
    (t : Bool) (r : Result)
    → ((clean_up t r).outcome ≡ r.outcome)
      × ((clean_up t r).paths.source_unlinked ≡ r.paths.source_unlinked)
      × ((clean_up t r).paths.destination ≡ r.paths.destination)
unfolding clean_up
clean_up_paths t r = ground arith

-- If a finalization fails with a category that media_wlc_process_incoming quarantines, then the
-- upload was not unlinked, and the destination is what it was, or, after a mismatch of the hashes,
-- it was removed.
pub quarantine_is_safe :
    (cfg : Settings) (sha256 : Bytes → Text) (calls : Calls) (p : Paths) (c : Category)
    → (finalize_upload_to_pcaps cfg sha256 calls p).outcome ≡ failed c
    → is_quarantine_reason c ≡ true
    → ((finalize_upload_to_pcaps cfg sha256 calls p).paths.source_unlinked ≡ p.source_unlinked)
      × (((finalize_upload_to_pcaps cfg sha256 calls p).paths.destination ≡ p.destination)
          ⊎ ((c ≡ promotion_hash_mismatch)
              × ((finalize_upload_to_pcaps cfg sha256 calls p).paths.destination ≡ none)))
unfolding finalize_upload_to_pcaps
quarantine_is_safe cfg sha256 calls p c h q =
    let r = run cfg sha256 calls p in
    let (o, u, d) = clean_up_paths calls.temp_unlinked r in
    elim (run-RunCases cfg sha256 calls p) [
      | inl (k, temp, e) ↦
          (u ∙ ap (λ r. r.paths.source_unlinked) e, inl (d ∙ ap (λ r. r.paths.destination) e))
      | inr (source, fd, bytes, k, e) ↦
          let (x, y, z) =
            verify_quarantine sha256 calls fd bytes (placed cfg calls.stored p) c
              (sym (ap (λ r. r.outcome) e) ∙ sym o ∙ h) q in
          (
            u ∙ ap (λ r. r.paths.source_unlinked) e ∙ x,
            inr (y, d ∙ ap (λ r. r.paths.destination) e ∙ z),
          )
    ]
