-- ===== src/Ingest/Stability.antt =====
-- When an upload in incoming/ counts as finished: `plan_ingest_decision`, and the polls of
-- `media_wlc_process_incoming` that call it. Times are counts of one unit (microseconds).
use srhc_observability_claud.Prelude.{
  inl, ℕ, ◌+◌, ◌≤◌, ◌≡◌, ◌↔◌, ◌⊎◌, inl, inr, Bool-cases, refl, Bool, true, ◌&&◌, Option, none, some,
  List, [], ◌∷◌, arith, ltb, ◌==◌, if◌then◌else◌,
}

-- `file_signature`
pub record Signature : Type 0 where
  pub size_bytes : ℕ
  pub mtime_ns : ℕ

abbrev pub signature_eq : Signature → Signature → Bool
signature_eq a b = a.size_bytes == b.size_bytes && a.mtime_ns == b.mtime_ns

pub data Decision : Type 0 where
  wait_new wait_changed wait_too_soon ready : Decision

-- The part that compares times.
unfoldable pub decide_elapsed : Option ℕ → ℕ → ℕ → Decision
decide_elapsed none now min_gap = wait_new
decide_elapsed (some start) now min_gap = if ltb now (start + min_gap) then wait_too_soon else ready

unfoldable pub plan_ingest_decision : Option Signature → Option ℕ → Signature → ℕ → ℕ → Decision
unfolding decide_elapsed
plan_ingest_decision none prev_observed_at current now min_gap = wait_new
plan_ingest_decision (some prev) prev_observed_at current now min_gap =
    if signature_eq current prev then decide_elapsed prev_observed_at now min_gap else wait_changed

-- What the caller keeps of its last observation, in the metadata of the artifact row.
pub record Observed : Type 0 where
  pub signature : Signature
  pub observed_at : ℕ

-- One poll of the file: its signature and the time.
pub record Poll : Type 0 where
  pub current : Signature
  pub now : ℕ

abbrev pub signature_of : Option Observed → Option Signature
signature_of none = none
signature_of (some o) = some o.signature

abbrev pub time_of : Option Observed → Option ℕ
time_of none = none
time_of (some o) = some o.observed_at

unfoldable pub decision_at : ℕ → Option Observed → Poll → Decision
unfolding plan_ingest_decision
decision_at min_gap observed poll =
    plan_ingest_decision (signature_of observed) (time_of observed) poll.current poll.now min_gap

-- `media_wlc_process_incoming` stores the observation on wait_new and wait_changed, and keeps the
-- stored one on wait_too_soon and ready.
unfoldable pub store : Decision → Option Observed → Poll → Option Observed
store wait_new observed poll = some (record { signature = poll.current; observed_at = poll.now })
store wait_changed observed poll =
    some (record { signature = poll.current; observed_at = poll.now })
store _ observed poll = observed

-- The observation that is stored after some polls, the latest poll first.
unfoldable pub observed_after : ℕ → List Poll → Option Observed
unfolding store decision_at
observed_after min_gap [] = none
observed_after min_gap (poll ∷ earlier) =
    let observed = observed_after min_gap earlier in
    store (decision_at min_gap observed poll) observed poll

-- plan_ingest_decision says ready exactly when the signature is the one of the previous
-- observation, that observation has a time, and at least the minimal gap has passed since then.
plan_ingest_decision_ready :
    (prev : Option Signature) (observed_at : Option ℕ) (current : Signature) (now min_gap : ℕ)
    → (plan_ingest_decision prev observed_at current now min_gap ≡ ready) ↔ (
        (prev ≡ some current)
        × ((start : ℕ) × (observed_at ≡ some start) × (start + min_gap ≤ now)))
unfolding plan_ingest_decision
plan_ingest_decision_ready none observed_at current now min_gap = (λ h. cc, λ h. cc (h.0))
plan_ingest_decision_ready (some prev) none current now min_gap = ground arith
plan_ingest_decision_ready (some prev) (some start) current now min_gap =
    (λ h. (ground arith, (start, refl, ground arith)), λ h. ground (arith, h.0, h.1.1))

-- The polls since (and with) the time `start` all saw the signature.
abbrev pub SameSince : ℕ → Signature → List Poll → Type 0
SameSince start s [] = ⊥
SameSince start s (poll ∷ earlier) =
    (poll.current ≡ s) × ((poll.now ≡ start) ⊎ SameSince start s earlier)

abbrev pub StoredSince : Option Observed → List Poll → Type 0
StoredSince none polls = polls ≡ []
StoredSince (some o) polls = SameSince o.observed_at o.signature polls

signature_eq_sound : (a b : Signature) → signature_eq a b ≡ true → a ≡ b
signature_eq_sound a b h = ground arith

store-StoredSince :
    (min_gap : ℕ) (o : Option Observed) (poll : Poll) (earlier : List Poll)
    → StoredSince o earlier
    → StoredSince (store (decision_at min_gap o poll) o poll) (poll ∷ earlier)
unfolding store decision_at
store-StoredSince min_gap none poll earlier h = (refl, inl refl)
store-StoredSince min_gap (some o) poll earlier h =
    elim (Bool-cases (signature_eq poll.current o.signature)) [
      | inr e ↦ rw (e, store) (refl, inl refl)
      | inl e ↦ elim (Bool-cases (ltb poll.now (o.observed_at + min_gap))) [
        | inl soon ↦ rw (e, soon, store) (signature_eq_sound poll.current o.signature e, inr h)
        | inr late ↦ rw (e, late, store) (signature_eq_sound poll.current o.signature e, inr h)
      ]
    ]

observed_after-StoredSince :
    (min_gap : ℕ) (polls : List Poll) → StoredSince (observed_after min_gap polls) polls
unfolding observed_after
observed_after-StoredSince min_gap [] = refl
observed_after-StoredSince min_gap (poll ∷ earlier) =
    store-StoredSince min_gap (observed_after min_gap earlier) poll earlier
      (observed_after-StoredSince min_gap earlier)

ready_of_stored :
    (min_gap : ℕ) (o : Option Observed) (poll : Poll) (earlier : List Poll)
    → StoredSince o earlier
    → decision_at min_gap o poll ≡ ready
    → (start : ℕ) × (start + min_gap ≤ poll.now) × SameSince start poll.current earlier
unfolding decision_at
ready_of_stored min_gap none poll earlier h r = cc
ready_of_stored min_gap (some o) poll earlier h r =
    let late : o.observed_at + min_gap ≤ poll.now = ground arith in
    let same : signature_eq poll.current o.signature ≡ true = ground arith in
    (o.observed_at, late, rw (signature_eq_sound poll.current o.signature same) h)

-- Whatever was polled before, if the decision at a poll is ready, then there is an earlier poll,
-- at a time at least the minimal gap before, such that it and all polls after it saw the same
-- size and modification time as this one.
pub ready_is_stable :
    (min_gap : ℕ) (poll : Poll) (earlier : List Poll)
    → decision_at min_gap (observed_after min_gap earlier) poll ≡ ready
    → (start : ℕ) × (start + min_gap ≤ poll.now) × SameSince start poll.current earlier
ready_is_stable min_gap poll earlier r =
    ready_of_stored min_gap (observed_after min_gap earlier) poll earlier
      (observed_after-StoredSince min_gap earlier) r

-- After a poll that started an observation (wait_new or wait_changed), a poll of the same
-- signature is too soon exactly while less than the minimal gap has passed, and else ready.
stable_becomes_ready :
    (min_gap : ℕ) (first later : Poll) (earlier : List Poll)
    → observed_after min_gap (first ∷ earlier)
      ≡ some (record { signature = first.current; observed_at = first.now })
    → later.current ≡ first.current
    → decision_at min_gap (observed_after min_gap (first ∷ earlier)) later
      ≡ (if ltb later.now (first.now + min_gap) then wait_too_soon else ready)
stable_becomes_ready min_gap first later earlier stored same =
    rw stored (unfold decision_at in ground arith)
