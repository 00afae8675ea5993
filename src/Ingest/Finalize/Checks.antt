-- ===== src/Ingest/Finalize/Checks.antt =====
-- What the checks of `finalize_upload_to_pcaps` on the upload mean when they pass.
use srhc_observability_claud.Prelude.{◌≡◌, ℕ, ◌≤◌, ◌+◌, Option, none, some, true, refl, ◌⊎◌, arith}
use srhc_observability_claud.Ingest.Container.{Bytes, is_container}
use srhc_observability_claud.Ingest.Finalize.{
  is_regular, check_head, check_space, check_regular, check_source, check_opened, check_unchanged,
  still_there,
}
use srhc_observability_claud.Ingest.Finalize.Types.{
  same_inode, same_claim_signature, FileKind, Stat, Settings, regular,
}

-- The checks that a claimed upload has passed.
abbrev pub SourceChecked : Settings → Stat → Option ℕ → Type 0
SourceChecked cfg source free =
    (source.kind ≡ regular)
    × (source.st_nlink ≡ 1)
    × (1 ≤ source.st_size)
    × ((cfg.max_bytes ≡ 0) ⊎ (source.st_size ≤ cfg.max_bytes))
    × ((available : ℕ) × (free ≡ some available)
        × (source.st_size + cfg.min_free_bytes ≤ available))

abbrev SpaceFor : ℕ → Option ℕ → Type 0
SpaceFor required free = (available : ℕ) × (free ≡ some available) × (required ≤ available)

check_space_passes :
    (required : ℕ) (free : Option ℕ) → check_space required free ≡ none → SpaceFor required free
unfolding check_space
check_space_passes required none h = cc
check_space_passes required (some available) h = (available, refl, ground arith)

check_regular_passes :
    (cfg : Settings) (source : Stat) (free : Option ℕ)
    → check_regular cfg source free ≡ none
    → (source.st_nlink ≡ 1)
      × (1 ≤ source.st_size)
      × ((cfg.max_bytes ≡ 0) ⊎ (source.st_size ≤ cfg.max_bytes))
      × (check_space (source.st_size + cfg.min_free_bytes) free ≡ none)
unfolding check_regular
check_regular_passes cfg source free h = ground arith

kind_passes :
    (cfg : Settings) (source : Stat) (free : Option ℕ)
    → check_source cfg source free ≡ none
    → (source.kind ≡ regular) × (check_regular cfg source free ≡ none)
unfolding check_source
kind_passes cfg source free h = ground arith

pub check_source_passes :
    (cfg : Settings) (source : Stat) (free : Option ℕ)
    → check_source cfg source free ≡ none
    → SourceChecked cfg source free
check_source_passes cfg source free h =
    let k = kind_passes cfg source free h in
    let c = check_regular_passes cfg source free (k.1) in
    (k.0, c.0, c.1, c.2, check_space_passes (source.st_size + cfg.min_free_bytes) free (c.3))

abbrev pub OpenedChecked : Stat → Stat → Option Bytes → Type 0
OpenedChecked source fd head =
    (fd.st_dev ≡ source.st_dev)
    × (fd.st_ino ≡ source.st_ino)
    × (fd.kind ≡ regular)
    × ((bytes : Bytes) × (head ≡ some bytes) × (is_container bytes ≡ true))

check_head_passes :
    (head : Option Bytes)
    → check_head head ≡ none
    → (bytes : Bytes) × (head ≡ some bytes) × (is_container bytes ≡ true)
unfolding check_head
check_head_passes none h = cc
check_head_passes (some bytes) h = (bytes, refl, ground arith)

is_regular_sound : (k : FileKind) → is_regular k ≡ true → k ≡ regular
is_regular_sound k h = ground arith

opened_passes :
    (source fd : Stat) (head : Option Bytes)
    → check_opened source fd head ≡ none
    → (fd.st_dev ≡ source.st_dev)
      × (fd.st_ino ≡ source.st_ino)
      × (is_regular fd.kind ≡ true)
      × (check_head head ≡ none)
unfolding check_opened same_inode
opened_passes source fd head h = ground arith

pub check_opened_passes :
    (source fd : Stat) (head : Option Bytes)
    → check_opened source fd head ≡ none
    → OpenedChecked source fd head
check_opened_passes source fd head h =
    let o = opened_passes source fd head h in
    (o.0, o.1, is_regular_sound fd.kind (o.2), check_head_passes head (o.3))

-- The opened file did not change while it was copied, and it was still at the path.
abbrev pub UnchangedAt : Stat → Stat → Option Stat → Type 0
UnchangedAt fd after path =
    (after.st_dev ≡ fd.st_dev)
    × (after.st_ino ≡ fd.st_ino)
    × (after.st_size ≡ fd.st_size)
    × (after.st_mtime_ns ≡ fd.st_mtime_ns)
    × (after.st_ctime_ns ≡ fd.st_ctime_ns)
    × ((now : Stat) × (path ≡ some now) × (now.st_dev ≡ fd.st_dev) × (now.st_ino ≡ fd.st_ino))

unchanged_passes :
    (fd after : Stat) (path : Option Stat) (hook : Option (Option Stat))
    → check_unchanged fd after path hook ≡ none
    → (same_claim_signature fd after ≡ true) × (still_there fd path ≡ true)
unfolding check_unchanged
unchanged_passes fd after path hook h = ground arith

same_claim_signature_fields :
    (fd after : Stat)
    → same_claim_signature fd after ≡ true
    → (after.st_dev ≡ fd.st_dev)
      × (after.st_ino ≡ fd.st_ino)
      × (after.st_size ≡ fd.st_size)
      × (after.st_mtime_ns ≡ fd.st_mtime_ns)
      × (after.st_ctime_ns ≡ fd.st_ctime_ns)
unfolding same_claim_signature same_inode
same_claim_signature_fields fd after h = ground arith

still_there_at :
    (fd : Stat) (path : Option Stat)
    → still_there fd path ≡ true
    → (now : Stat) × (path ≡ some now) × (now.st_dev ≡ fd.st_dev) × (now.st_ino ≡ fd.st_ino)
unfolding same_inode
still_there_at fd none h = absurd (ground (arith, h))
still_there_at fd (some now) h = (now, refl, ground (arith, h), ground (arith, h))

pub check_unchanged_passes :
    (fd after : Stat) (path : Option Stat) (hook : Option (Option Stat))
    → check_unchanged fd after path hook ≡ none
    → UnchangedAt fd after path
check_unchanged_passes fd after path hook h =
    let u = unchanged_passes fd after path hook h in
    let (d, i, z, m, c) = same_claim_signature_fields fd after (u.0) in
    (d, i, z, m, c, still_there_at fd path (u.1))
