-- ===== src/Ingest/Finalize.antt =====
-- `finalize_upload_to_pcaps`: the checks, the copy and the commit of one upload. What the system
-- calls return is the record `Calls`, so another process may change the source between any two of
-- them; what the function does to the three paths is the record `Paths`. The hash of a file is a
-- parameter. What the destination holds after the rename is `stored` of `Calls`, which need not be
-- the bytes that were read from the source: only the hashes relate the two. An fsync of a directory, best effort in the code, is taken not to raise.
pub mod Types
pub mod Checks
pub mod Cases
pub mod Verify
pub mod Evidence
use srhc_observability_claud.Ingest.Finalize.Types.{
  same_inode, same_claim_signature, Category, FileKind, Stat, Settings, Unlink, Removal, Calls,
  Final, Paths, Outcome, Result, invalid_magic, truncated_container, symlink_rejected,
  hardlink_rejected, not_regular_file, size_limit_exceeded, disk_space_insufficient,
  source_changed_during_claim, promotion_copy_failed, promotion_hash_mismatch,
  capture_registration_failed, parser_failed, retry_limit_reached, symlink, regular, other,
  unlinked, gone, refused, missing, denied, found, failed, finalized,
}
use srhc_observability_claud.Prelude.{
  ℕ, ◌+◌, Bool, true, false, not, ◌&&◌, Option, none, some, length, ltb, ◌==◌, if◌then◌else◌,
}
use srhc_observability_claud.Prelude.Text.{Text, text_eq}
use srhc_observability_claud.Ingest.Container.{Bytes, is_container}

-- `max_bytes > 0 and size > max_bytes`
abbrev pub exceeds : ℕ → ℕ → Bool
exceeds size max_bytes = ltb 0 max_bytes && ltb max_bytes size

unfoldable pub check_space : ℕ → Option ℕ → Option Category
check_space required none = some promotion_copy_failed
check_space required (some available) =
    if ltb available required then some disk_space_insufficient else none

unfoldable pub check_regular : Settings → Stat → Option ℕ → Option Category
unfolding check_space
check_regular cfg source free =
    if not (source.st_nlink == 1)
    then some hardlink_rejected
    else if source.st_size == 0
    then some truncated_container
    else if exceeds source.st_size cfg.max_bytes
    then some size_limit_exceeded
    else check_space (source.st_size + cfg.min_free_bytes) free

-- The checks on the first `lstat`, and on the free space.
unfoldable pub check_source : Settings → Stat → Option ℕ → Option Category
unfolding check_regular
check_source cfg source free = elim source.kind [
  | symlink ↦ some symlink_rejected
  | other ↦ some not_regular_file
  | regular ↦ check_regular cfg source free
]

abbrev pub is_regular : FileKind → Bool
is_regular regular = true
is_regular _ = false

unfoldable pub check_head : Option Bytes → Option Category
unfolding is_container
check_head none = some promotion_copy_failed
check_head (some head) =
    if ltb (length head) 4
    then some truncated_container
    else if is_container head
    then none
    else some invalid_magic

-- The checks on the opened file and its first four bytes.
unfoldable pub check_opened : Stat → Stat → Option Bytes → Option Category
unfolding same_inode check_head
check_opened source fd head =
    if not (same_inode source fd)
    then some source_changed_during_claim
    else if not (is_regular fd.kind)
    then some not_regular_file
    else check_head head

abbrev pub still_there : Stat → Option Stat → Bool
still_there fd none = false
still_there fd (some now) = same_inode fd now

abbrev pub check_hook : Stat → Option (Option Stat) → Option Category
check_hook fd none = none
check_hook fd (some seen) = if still_there fd seen then none else some source_changed_during_claim

-- The checks after the copy, and those after the hook if there is one.
unfoldable pub check_unchanged : Stat → Stat → Option Stat → Option (Option Stat) → Option Category
unfolding same_claim_signature
check_unchanged fd after path hook =
    if same_claim_signature fd after && still_there fd path
    then check_hook fd hook
    else some source_changed_during_claim

abbrev pub fail : Category → Paths → Result
fail category p = record { outcome = failed category; paths = p }

-- A check that found a failure raises, and else the function goes on.
unfoldable pub stop_or : Option Category → Paths → Result → Result
stop_or (some category) p rest = fail category p
stop_or none p rest = rest

unfoldable pub finish : Bool → Text → Bool → Paths → Result
finish false sum removed p = fail promotion_copy_failed p
finish true sum removed p = record { outcome = finalized sum removed; paths = p }

-- The removal of the source.
unfoldable pub remove : Bool → Stat → Text → Removal → Paths → Result
unfolding finish same_inode
remove stat_ok fd sum missing p = finish stat_ok sum false p
remove stat_ok fd sum denied p = fail promotion_copy_failed p
remove stat_ok fd sum (found now result) p =
    if same_inode fd now
    then elim result [
      | unlinked ↦ finish stat_ok sum true (record p { source_unlinked = true })
      | gone ↦ finish stat_ok sum false p
      | refused ↦ fail promotion_copy_failed p
    ]
    else finish stat_ok sum false p

-- The comparison of the hashes.
unfoldable pub verify_bytes : (Bytes → Text) → Calls → Stat → Bytes → Bytes → Paths → Result
unfolding remove
verify_bytes sha256 calls fd bytes back p =
    if text_eq (sha256 back) (sha256 bytes)
    then remove calls.final_stat fd (sha256 back) calls.removal p
    else if calls.final_unlinked
    then fail promotion_hash_mismatch (record p { destination = none })
    else fail promotion_copy_failed p

unfoldable pub verify : (Bytes → Text) → Calls → Stat → Bytes → Paths → Result
unfolding verify_bytes
verify sha256 calls fd bytes p =
    if calls.read_back
    then verify_bytes sha256 calls fd bytes calls.stored p
    else fail promotion_copy_failed p

unfoldable pub final_of : Settings → Bytes → Final
final_of cfg bytes = record {
  bytes = bytes;
  uid = cfg.final_uid;
  gid = cfg.final_gid;
  mode = cfg.final_mode;
}

-- Owner, mode and the atomic rename, which takes the temporary file away.
unfoldable pub commit : Settings → (Bytes → Text) → Calls → Stat → Bytes → Paths → Result
unfolding verify final_of
commit cfg sha256 calls fd bytes p =
    if not (calls.owned_and_synced && calls.replaced)
    then fail promotion_copy_failed p
    else verify sha256 calls fd bytes
        (record p { temp = false; destination = some (final_of cfg calls.stored) })

unfoldable pub copy : Settings → (Bytes → Text) → Calls → Stat → Paths → Result
unfolding commit check_unchanged stop_or
copy cfg sha256 calls fd p = elim calls.copied [
  | none ↦ fail promotion_copy_failed p
  | some bytes ↦
      stop_or (check_unchanged fd calls.fstat_after calls.lstat_after calls.hook) p
        (commit cfg sha256 calls fd bytes p)
]

unfoldable pub claim : Settings → (Bytes → Text) → Calls → Stat → Paths → Result
unfolding copy check_opened stop_or
claim cfg sha256 calls source p = elim calls.opened [
  | none ↦ fail source_changed_during_claim p
  | some fd ↦ stop_or (check_opened source fd calls.head) p (
      if calls.temp_created
      then copy cfg sha256 calls fd (record p { temp = true })
      else fail promotion_copy_failed p)
]

-- The `finally` block.
unfoldable pub clean_up : Bool → Result → Result
clean_up temp_unlinked r =
    if r.paths.temp && temp_unlinked
    then record r { paths = record r.paths { temp = false } }
    else r

unfoldable pub run : Settings → (Bytes → Text) → Calls → Paths → Result
unfolding claim check_source stop_or
run cfg sha256 calls p = elim calls.lstat_source [
  | none ↦ fail promotion_copy_failed p
  | some source ↦
      stop_or (check_source cfg source calls.free_bytes) p (claim cfg sha256 calls source p)
]

unfoldable pub finalize_upload_to_pcaps : Settings → (Bytes → Text) → Calls → Paths → Result
unfolding run clean_up
finalize_upload_to_pcaps cfg sha256 calls p = clean_up calls.temp_unlinked (run cfg sha256 calls p)
