-- ===== src/Lib.antt =====
-- Verification of the core of the SRHC observability tooling: the media-quality analyser for
-- Vocera badges, the workflow around capture sessions on a wireless LAN controller (WLC), the
-- ingest of its captures and the verdict on them, the policy on multicast groups, and the
-- correlation of badge events with the points of a radio survey. Paths are from the repository's
-- root.
--
-- Parts and files
--
-- * Rtp (tools/vocera_media_qoe/vocera_media_qoe.py). Rtp/Sequence has extend_rtp_sequence and
--   rtp_sequence_stats: SequenceState holds the local variables of the loop, sequence_step is one
--   round, and on_first, on_forward, on_misorder and on_restart are its branches. Rtp/Keys has the
--   two Python sets of (segment, number) pairs, as lists without repetition. Rtp/Frame has the
--   headers over bytes: parse_ipv4_udp_packet, parse_ethernet_udp_frame, parse_radiotap_udp_frame
--   and parse_rtp_header; Rtp/Timestamp has rtp_timestamp_delta. Rtp/Capture has what the two file
--   formats share, Rtp/Pcapng the sections, interfaces and packets of pcapng files, and Rtp/Pcap
--   the classic format and iter_pcap_udp_packets, which chooses between them. A time is kept as
--   the numbers of the division that the code does in floating point.
-- * Media (the same file). Media/Config has AnalyzerConfig and Media/Config/Direction the names of
--   devices and directions; Media/Timing has percentile, the jitter and the other figures of a
--   stream's clock, Media/Plausibility has rtp_plausibility_check, Media/Streams has
--   analyze_rtp_stream and analyze_non_rtp_stream, Media/Flows has the grouping of the packets,
--   analyze_udp_packets and analyze_pcap after the file is read, which calls iter_pcap_udp_packets
--   of Rtp, and Media/Metrics the lines of the Prometheus output.
-- * Multicast (tools/vocera_media_qoe/vocera_multicast.py). Multicast/Vlan has
--   enforce_vlan_selection and reject_session_level_resolution; an exception is a constructor.
--   Multicast/Mac has normalize_mac, ipv4_multicast_to_mac, _mac_int and the tests on the pool, for
--   addresses that are numbers.
-- * Evidence (tools/vocera_media_qoe/vocera_wlc_evidence.py). Evidence/Verdict has compute_verdict
--   and _best_snapshot.
-- * TimeAlignment (tools/study_web/time_alignment.py): overlap_window, and TimeAlignment/Sweep with
--   normalize_windows and summarize_tolerance_sweep.
-- * Session (tools/vocera_media_qoe/vocera_wlc_session.py). Session/Package has the files of a
--   session package as a record, Session/Attempts the commands start-attempt, outcome and mark, and
--   its module Resolve the command resolve-group, as functions from the package to the exit code
--   and the package that is left, and Session/Summary the search for a row in a pasted group
--   summary. resolve-group calls enforce_vlan_selection of Multicast.
-- * Ingest (tools/vocera_media_qoe/vocera_wlc_session_ingest.py and tools/study_web/main.py).
--   Ingest/Stability has plan_ingest_decision with the observations that its caller keeps,
--   Ingest/Container the magic numbers, Ingest/Finalize the function finalize_upload_to_pcaps: the
--   record Calls of Ingest/Finalize/Types is what the system calls return, so any other process may
--   act between them, also what the destination holds after the rename, and the hash is a parameter. Ingest/Artifact has the row of an upload and
--   media_wlc_upsert_artifact, and its modules Process, Retry and Scan have
--   media_wlc_process_incoming, media_wlc_retry_one and the part of media_wlc_ingest_scan that is
--   about one artifact. A run is the list of its writes; an interrupted run is a prefix of it.
-- * RfValidation (tools/vocera_rf_validation/models.py, correlate.py and run_executor.py). RfValidation/Models has
--   the records, RfValidation/Window the local dates and the nearest event, RfValidation/Template
--   has build_manual_entry_template, RfValidation/Correlate the correlation with the manual
--   observations, and RfValidation/Alignment the vendor offsets and summarize_match_alignment.
--   RfValidation/Executor has the selected files of a run, its checks and its configuration, and its
--   modules Sources, Pipeline and Run have execute_selected_run: the record System is what is asked
--   of the file system and of the commands, whose exit codes may depend on all commands before.
--
-- Prelude has the names and helpers that the modules share; Prelude/Select and Prelude/Sort have
-- min with a key, filtering and sorted, Prelude/Ratio the fractions. Numbers of Python are native
-- natural numbers, and integers where a value can be negative. A float is an exact fraction, so
-- that rounding is left out. Texts that the code walks are lists of code points, other texts are
-- strings.
--
-- What is read from outside (the clock, $USER, uuid) is an argument, the record Ambient of
-- Session/Package. The local date of an instant (the zone database of the system) is the argument
-- local_date of RfValidation, and the capital letters of a text are the argument upper. JSON keys
-- that are null and keys that are missing are both none. A file that cannot be written raises in
-- the code and is not modelled.
--
-- Fuel. The loops over the records of a pcap file, over the blocks of a pcapng file and over the
-- options of a block have fuel, one more than the number of bytes, of which each round takes at
-- least 16, 12 and 4. The other loops recur on the list of bytes, packets, attempts, commands,
-- polls, scans, points or events.
--
-- Not modelled: the HTTP service and its other SQL (tools/study_web/main.py), the readers of
-- configuration files, JSON and CSV, command-line parsing, regular expressions over the output of
-- controllers, generated SQL, the shell, PowerShell and TypeScript code, dashboards and rules, and
-- the Python parts that PROJECT.json lists as not_modelled.
mod Prelude
pub mod Media
pub mod RfValidation
pub mod Rtp
pub mod Multicast
pub mod Session
pub mod Ingest
pub mod Evidence
pub mod TimeAlignment
