-- ===== src/Ingest/Finalize/Evidence.antt =====
-- The outcome of `finalize_upload_to_pcaps`, its destination and the upload.
use srhc_observability_claud.Ingest.Finalize.Checks.{
  SourceChecked, OpenedChecked, UnchangedAt, check_unchanged_passes, check_source_passes,
  check_opened_passes,
}
use srhc_observability_claud.Ingest.Finalize.Cases.{Claimed, run-RunCases, placed}
use srhc_observability_claud.Ingest.Finalize.Verify.{
  fail_not_finalized, fail_not_unlinked, verify_finalized, verify_destination, verify_unlinked,
}
use srhc_observability_claud.Prelude.{
  ◌∙◌, sym, ap, ◌≡◌, ◌≢◌, none, some, Bool, true, false, ◌⊎◌, inl, inr, arith,
}
use srhc_observability_claud.Prelude.Text.{Text, text_eq, text_eq_iff}
use srhc_observability_claud.Ingest.Container.{Bytes}
use srhc_observability_claud.Ingest.Finalize.{run, final_of, finalize_upload_to_pcaps, clean_up}
use srhc_observability_claud.Ingest.Finalize.Types.{
  found, unlinked, unlinked, promotion_hash_mismatch, found, finalized, failed, same_inode, Stat,
  Settings, Calls, Paths, Result,
}

text_eq_differs : (a b : Text) → text_eq a b ≡ false → a ≢ b
text_eq_differs a b n = λ q. absurd (ground (arith, n, (text_eq_iff a b).1 q))

same_inode_fields :
    (fd now : Stat) → same_inode fd now ≡ true → (now.st_dev ≡ fd.st_dev) × (now.st_ino ≡ fd.st_ino)
unfolding same_inode
same_inode_fields fd now h = ground arith

clean_up-outcome : (t : Bool) (r : Result) → (clean_up t r).outcome ≡ r.outcome
unfolding clean_up
clean_up-outcome t r = ground arith

clean_up-destination :
    (t : Bool) (r : Result) → (clean_up t r).paths.destination ≡ r.paths.destination
unfolding clean_up
clean_up-destination t r = ground arith

clean_up-unlinked :
    (t : Bool) (r : Result) → (clean_up t r).paths.source_unlinked ≡ r.paths.source_unlinked
unfolding clean_up
clean_up-unlinked t r = ground arith

-- The upload at its path when it was examined, the file that was opened for it, and the bytes that
-- were read from that file, with all checks passed.
abbrev pub ClaimedBy : Settings → Calls → Stat → Stat → Bytes → Type 0
ClaimedBy cfg calls source fd bytes =
    (calls.lstat_source ≡ some source)
    × SourceChecked cfg source calls.free_bytes
    × (calls.opened ≡ some fd)
    × OpenedChecked source fd calls.head
    × (calls.copied ≡ some bytes)
    × UnchangedAt fd calls.fstat_after calls.lstat_after

claimed :
    (cfg : Settings) (calls : Calls) (source fd : Stat) (bytes : Bytes)
    → Claimed cfg calls source fd bytes
    → ClaimedBy cfg calls source fd bytes
claimed cfg calls source fd bytes (l, s, o, h, c, u) = (
  l,
  check_source_passes cfg source calls.free_bytes s,
  o,
  check_opened_passes source fd calls.head h,
  c,
  check_unchanged_passes fd calls.fstat_after calls.lstat_after calls.hook u,
)

-- If finalize_upload_to_pcaps returns, then the first lstat of the upload showed a regular file
-- with one link, not empty, within the size limit and the free space; the file that was opened was
-- the same inode, regular, and began with the magic number of a capture; after its bytes were
-- copied it had the same size and times, and was still the inode at the path; and the destination
-- holds, with the configured owner, group and mode, a file whose hash is the hash of the bytes that
-- were copied, which is the hash returned.
pub finalize_finalized :
    (cfg : Settings) (sha256 : Bytes → Text) (calls : Calls) (p : Paths) (sum : Text)
    (removed : Bool)
    → (finalize_upload_to_pcaps cfg sha256 calls p).outcome ≡ finalized sum removed
    → (source : Stat) × (fd : Stat) × (bytes : Bytes) × ClaimedBy cfg calls source fd bytes
      × (sum ≡ sha256 bytes)
      × (sha256 calls.stored ≡ sha256 bytes)
      × ((finalize_upload_to_pcaps cfg sha256 calls p).paths.destination
          ≡ some (record {
            bytes = calls.stored;
            uid = cfg.final_uid;
            gid = cfg.final_gid;
            mode = cfg.final_mode;
          }))
unfolding finalize_upload_to_pcaps final_of
finalize_finalized cfg sha256 calls p sum removed h =
    let r = run cfg sha256 calls p in
    let o = sym (clean_up-outcome calls.temp_unlinked r) ∙ h in
    elim (run-RunCases cfg sha256 calls p) [
      | inl (c, temp, e) ↦
          elim (fail_not_finalized c (record p { temp = temp }) r sum removed e o) [ ]
      | inr (source, fd, bytes, k, e) ↦
          let v =
            verify_finalized sha256 calls fd bytes (placed cfg calls.stored p) sum removed
              (sym (ap (λ x. x.outcome) e) ∙ o) in
          (
            source,
            fd,
            bytes,
            claimed cfg calls source fd bytes k,
            v.0,
            v.1,
            clean_up-destination calls.temp_unlinked r ∙ ap (λ x. x.paths.destination) e ∙ v.2,
          )
    ]

clean_up-temp : (t : Bool) (r : Result) → ((clean_up t r).paths.temp ≡ false) ⊎ (t ≡ false)
unfolding clean_up
clean_up-temp t r = ground arith

-- What stands at the destination.
abbrev pub DestinationAfter : Settings → (Bytes → Text) → Calls → Paths → Result → Type 0
DestinationAfter cfg sha256 calls p r =
    (r.paths.destination ≡ p.destination)
    ⊎ ((bytes : Bytes) × (calls.copied ≡ some bytes)
        × (((r.paths.destination ≡ none)
              × (r.outcome ≡ failed promotion_hash_mismatch)
              × (sha256 calls.stored ≢ sha256 bytes))
            ⊎ ((r.paths.destination ≡ some (final_of cfg calls.stored))
                × ((sha256 calls.stored ≡ sha256 bytes)
                    ⊎ ((calls.read_back ≡ false) ⊎ (calls.final_unlinked ≡ false))))))

-- Whatever the outcome, the destination is what it was; or the hash of what was put there differs
-- from the hash of the bytes that were copied, it was removed, and the failure is
-- promotion_hash_mismatch; or it holds what was put there, with the configured owner and mode, and
-- then the two hashes are the same, or it could not be read back, or its removal failed. A
-- temporary file is left over only if its removal failed.
pub finalize_destination :
    (cfg : Settings) (sha256 : Bytes → Text) (calls : Calls) (p : Paths)
    → DestinationAfter cfg sha256 calls p (finalize_upload_to_pcaps cfg sha256 calls p)
      × (((finalize_upload_to_pcaps cfg sha256 calls p).paths.temp ≡ false)
          ⊎ (calls.temp_unlinked ≡ false))
unfolding finalize_upload_to_pcaps
finalize_destination cfg sha256 calls p =
    let r = run cfg sha256 calls p in
    let d = clean_up-destination calls.temp_unlinked r in
    (
      elim (run-RunCases cfg sha256 calls p) [
        | inl (c, temp, e) ↦ inl (d ∙ ap (λ x. x.paths.destination) e)
        | inr (source, fd, bytes, k, e) ↦
            let same = d ∙ ap (λ x. x.paths.destination) e in
            elim (verify_destination sha256 calls fd bytes (placed cfg calls.stored p)) [
              | inl (f, why) ↦ inr (bytes, k.4, inr (same ∙ f, why))
              | inr (f, g, n) ↦ inr (
                bytes,
                k.4,
                inl (
                  same ∙ f,
                  clean_up-outcome calls.temp_unlinked r ∙ ap (λ x. x.outcome) e ∙ g,
                  text_eq_differs (sha256 calls.stored) (sha256 bytes) n,
                ),
              )
            ]
      ],
      clean_up-temp calls.temp_unlinked r,
    )

-- If finalize_upload_to_pcaps unlinks the upload, then the upload and the opened file had passed
-- the checks, the destination holds, with the configured owner, group and mode, a file whose hash
-- is the hash of the bytes that were copied from the opened file, and the path showed the inode of
-- the opened file right before it was unlinked.
pub finalize_unlinks :
    (cfg : Settings) (sha256 : Bytes → Text) (calls : Calls) (p : Paths)
    → p.source_unlinked ≡ false
    → (finalize_upload_to_pcaps cfg sha256 calls p).paths.source_unlinked ≡ true
    → (source : Stat) × (fd : Stat) × (bytes : Bytes) × (now : Stat) × ClaimedBy cfg calls source fd
        bytes
      × (sha256 calls.stored ≡ sha256 bytes)
      × (calls.removal ≡ found now unlinked)
      × (now.st_dev ≡ fd.st_dev)
      × (now.st_ino ≡ fd.st_ino)
      × ((finalize_upload_to_pcaps cfg sha256 calls p).paths.destination
          ≡ some (final_of cfg calls.stored))
unfolding finalize_upload_to_pcaps
finalize_unlinks cfg sha256 calls p h u =
    let r = run cfg sha256 calls p in
    let o = sym (clean_up-unlinked calls.temp_unlinked r) ∙ u in
    elim (run-RunCases cfg sha256 calls p) [
      | inl (c, temp, e) ↦ elim (fail_not_unlinked c (record p { temp = temp }) r h e o) [ ]
      | inr (source, fd, bytes, k, e) ↦
          let (same, d, (now, f, inode)) =
            verify_unlinked sha256 calls fd bytes (placed cfg calls.stored p) h
              (sym (ap (λ x. x.paths.source_unlinked) e) ∙ o) in
          let i = same_inode_fields fd now inode in
          (
            source,
            fd,
            bytes,
            now,
            claimed cfg calls source fd bytes k,
            same,
            f,
            i.0,
            i.1,
            clean_up-destination calls.temp_unlinked r ∙ ap (λ x. x.paths.destination) e ∙ d,
          )
    ]
