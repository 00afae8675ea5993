-- ===== src/Ingest/Tests.antt =====
-- The theorems of the ingest at concrete uploads.
use srhc_observability_claud.Ingest.Artifact.Process.{is_quarantine_reason}
use srhc_observability_claud.Ingest.Artifact.Quarantine.{quarantine_is_safe}
use srhc_observability_claud.Ingest.Finalize.Types.{hardlink_rejected, Result}
use srhc_observability_claud.Ingest.Finalize.Evidence.{
  ClaimedBy, DestinationAfter, finalize_finalized, finalize_destination, finalize_unlinks,
}
use srhc_observability_claud.Prelude.{
  ◌⊎◌, ap, ◌≡◌, refl, ℕ, ◌≤◌, ◌+◌, true, false, none, some, [], ◌∷◌,
}
use srhc_observability_claud.Prelude.Text.{Text}
use srhc_observability_claud.Ingest.Container.{Bytes, is_container}
use srhc_observability_claud.Ingest.Stability.{
  Signature, Poll, SameSince, ready, plan_ingest_decision, decision_at, observed_after, store,
  decide_elapsed, ready_is_stable,
}
use srhc_observability_claud.Ingest.Finalize.{
  finalize_upload_to_pcaps, final_of, run, clean_up, claim, copy, commit, verify, verify_bytes,
  remove, finish, stop_or, check_source, check_regular, check_space, check_opened, check_head,
  check_unchanged,
}
use srhc_observability_claud.Ingest.Finalize.Types.{
  promotion_hash_mismatch, failed, Result, Stat, Calls, Settings, Paths, regular, found, unlinked,
  finalized, same_inode, same_claim_signature,
}

abbrev upload : Signature
upload = record { size_bytes = 100; mtime_ns = 7 }

abbrev first_poll : Poll
first_poll = record { current = upload; now = 10 }

abbrev last_poll : Poll
last_poll = record { current = upload; now = 40 }

became_ready : decision_at 20 (observed_after 20 (first_poll ∷ [])) last_poll ≡ ready
unfolding decision_at observed_after store plan_ingest_decision decide_elapsed
became_ready = refl

ready_is_stable_example : (start : ℕ) × (start + 20 ≤ 40) × SameSince start upload (first_poll ∷ [])
ready_is_stable_example = ready_is_stable 20 last_poll (first_poll ∷ []) became_ready

observed_first :
    observed_after 20 (first_poll ∷ [])
    ≡ some (record { signature = first_poll.current; observed_at = first_poll.now })
unfolding decision_at observed_after store plan_ingest_decision
observed_first = refl

-- A capture of six bytes whose finalization goes well.
abbrev stat : Stat
stat = record {
  kind = regular;
  st_dev = 1;
  st_ino = 42;
  st_nlink = 1;
  st_size = 6;
  st_mtime_ns = 7;
  st_ctime_ns = 7;
}

abbrev content : Bytes
content = 0x0a ∷ 0x0d ∷ 0x0d ∷ 0x0a ∷ 1 ∷ 2 ∷ []

abbrev calls : Calls
calls = record {
  lstat_source = some stat;
  free_bytes = some 1000;
  opened = some stat;
  head = some (0x0a ∷ 0x0d ∷ 0x0d ∷ 0x0a ∷ []);
  temp_created = true;
  copied = some content;
  fstat_after = stat;
  lstat_after = some stat;
  hook = none;
  owned_and_synced = true;
  replaced = true;
  stored = content;
  read_back = true;
  final_unlinked = true;
  removal = found stat unlinked;
  final_stat = true;
  temp_unlinked = true;
}

abbrev settings : Settings
settings = record {
  final_uid = 0;
  final_gid = 0;
  final_mode = 0x120;
  max_bytes = 1000;
  min_free_bytes = 500;
}

abbrev paths : Paths
paths = record { source_unlinked = false; temp = false; destination = none }

-- The mode 0o440 is 0x120.
-- A hash for the examples: the bytes themselves.
abbrev same_bytes : Bytes → Text
same_bytes bytes = bytes

goes_well : finalize_upload_to_pcaps settings same_bytes calls paths ≡ record {
  outcome = finalized content true;
  paths = record {
    source_unlinked = true;
    temp = false;
    destination = some (record { bytes = content; uid = 0; gid = 0; mode = 0x120 });
  };
}
unfolding finalize_upload_to_pcaps run clean_up claim copy commit verify verify_bytes remove finish
    final_of stop_or check_source check_regular check_space check_opened check_head check_unchanged
    same_inode same_claim_signature is_container
goes_well = refl

abbrev done : Result
done = finalize_upload_to_pcaps settings same_bytes calls paths

finalize_finalized_example :
    (source : Stat) × (fd : Stat) × (bytes : Bytes) × ClaimedBy settings calls source fd bytes
    × (content ≡ bytes)
    × (content ≡ bytes)
    × (done.paths.destination ≡ some (record { bytes = content; uid = 0; gid = 0; mode = 0x120 }))
finalize_finalized_example =
    finalize_finalized settings same_bytes calls paths content true (ap (λ r. r.outcome) goes_well)

-- The disk loses the last byte.
abbrev damaged : Calls
damaged = record calls { stored = 0x0a ∷ 0x0d ∷ 0x0d ∷ 0x0a ∷ 1 ∷ [] }

goes_badly : finalize_upload_to_pcaps settings same_bytes damaged paths ≡ record {
  outcome = failed promotion_hash_mismatch;
  paths = record { source_unlinked = false; temp = false; destination = none };
}
unfolding finalize_upload_to_pcaps run clean_up claim copy commit verify verify_bytes remove finish
    final_of stop_or check_source check_regular check_space check_opened check_head check_unchanged
    same_inode same_claim_signature is_container
goes_badly = refl

finalize_destination_example :
    DestinationAfter settings same_bytes damaged paths
      (finalize_upload_to_pcaps settings same_bytes damaged paths)
    × (((finalize_upload_to_pcaps settings same_bytes damaged paths).paths.temp ≡ false)
        ⊎ (true ≡ false))
finalize_destination_example = finalize_destination settings same_bytes damaged paths

finalize_unlinks_example :
    (source : Stat) × (fd : Stat) × (bytes : Bytes) × (now : Stat) × ClaimedBy settings calls source
      fd bytes
    × (content ≡ bytes)
    × (found stat unlinked ≡ found now unlinked)
    × (now.st_dev ≡ fd.st_dev)
    × (now.st_ino ≡ fd.st_ino)
    × (done.paths.destination ≡ some (final_of settings content))
finalize_unlinks_example =
    finalize_unlinks settings same_bytes calls paths refl
      (ap (λ r. r.paths.source_unlinked) goes_well)

-- An upload with a second hard link.
abbrev linked : Calls
linked = record calls { lstat_source = some (record stat { st_nlink = 2 }) }

is_rejected :
    (finalize_upload_to_pcaps settings same_bytes linked paths).outcome ≡ failed hardlink_rejected
unfolding finalize_upload_to_pcaps run clean_up stop_or check_source check_regular
is_rejected = refl

is_reason : is_quarantine_reason hardlink_rejected ≡ true
unfolding is_quarantine_reason
is_reason = refl

quarantine_is_safe_example :
    ((finalize_upload_to_pcaps settings same_bytes linked paths).paths.source_unlinked ≡ false)
    × (((finalize_upload_to_pcaps settings same_bytes linked paths).paths.destination ≡ none)
        ⊎ ((hardlink_rejected ≡ promotion_hash_mismatch)
            × ((finalize_upload_to_pcaps settings same_bytes linked paths).paths.destination
                ≡ none)))
quarantine_is_safe_example =
    quarantine_is_safe settings same_bytes linked paths hardlink_rejected is_rejected is_reason
