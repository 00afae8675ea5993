-- ===== src/Ingest/Finalize/Types.antt =====
-- What `finalize_upload_to_pcaps` of tools/vocera_media_qoe/vocera_wlc_session_ingest.py works on, and
-- what its system calls return.
use srhc_observability_claud.Prelude.{ℕ, Bool, ◌&&◌, Option, ◌==◌}
use srhc_observability_claud.Prelude.Text.{Text}
use srhc_observability_claud.Ingest.Container.{Bytes}

-- The `FAIL_…` categories.
pub data Category : Type 0 where
  invalid_magic truncated_container symlink_rejected hardlink_rejected : Category
  not_regular_file size_limit_exceeded disk_space_insufficient : Category
  source_changed_during_claim promotion_copy_failed promotion_hash_mismatch : Category
  capture_registration_failed parser_failed retry_limit_reached : Category

pub data FileKind : Type 0 where
  symlink regular other : FileKind

-- The fields of `os.stat_result` that the code reads.
pub record Stat : Type 0 where
  pub kind : FileKind
  pub st_dev : ℕ
  pub st_ino : ℕ
  pub st_nlink : ℕ
  pub st_size : ℕ
  pub st_mtime_ns : ℕ
  pub st_ctime_ns : ℕ

unfoldable pub same_inode : Stat → Stat → Bool
same_inode left right = left.st_dev == right.st_dev && left.st_ino == right.st_ino

unfoldable pub same_claim_signature : Stat → Stat → Bool
unfolding same_inode
same_claim_signature left right =
    same_inode left right
    && left.st_size == right.st_size
    && left.st_mtime_ns == right.st_mtime_ns
    && left.st_ctime_ns == right.st_ctime_ns

pub record Settings : Type 0 where
  pub final_uid : ℕ
  pub final_gid : ℕ
  pub final_mode : ℕ
  pub max_bytes : ℕ
  pub min_free_bytes : ℕ

-- The last `lstat` and `unlink` of the source.
pub data Unlink : Type 0 where
  unlinked gone refused : Unlink

pub data Removal : Type 0 where
  missing denied : Removal
  found : (at_unlink : Stat) (unlink : Unlink) → Removal

-- Results of the calls, in their order; `none` and `false` stand for an `OSError`. The hook is
-- `none` if there is none, and else it holds what `lstat` returns after it. `stored` is what the
-- temporary file holds at the rename, and the destination from then on, whatever was written to it.
pub record Calls : Type 0 where
  pub lstat_source : Option Stat
  pub free_bytes : Option ℕ
  pub opened : Option Stat
  pub head : Option Bytes
  pub temp_created : Bool
  pub copied : Option Bytes
  pub fstat_after : Stat
  pub lstat_after : Option Stat
  pub hook : Option (Option Stat)
  pub owned_and_synced : Bool
  pub replaced : Bool
  pub stored : Bytes
  pub read_back : Bool
  pub final_unlinked : Bool
  pub removal : Removal
  pub final_stat : Bool
  pub temp_unlinked : Bool

pub record Final : Type 0 where
  pub bytes : Bytes
  pub uid : ℕ
  pub gid : ℕ
  pub mode : ℕ

-- Whether the function unlinked the source and has a temporary file, and the destination.
pub record Paths : Type 0 where
  pub source_unlinked : Bool
  pub temp : Bool
  pub destination : Option Final

pub data Outcome : Type 0 where
  failed : Category → Outcome
  finalized : (sha256 : Text) (source_removed : Bool) → Outcome

pub record Result : Type 0 where
  pub outcome : Outcome
  pub paths : Paths
