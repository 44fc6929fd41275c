-- ===== src/Replay/Polling.antt =====
-- The polls of a replay: the interval asks as long as the job is not finished. It does not wait for
-- an answer, so that several requests can be under way, and their answers come in any order.
use mathlib.Core.Path.{subst}
use threat_lens.Base.{
  ◌≡◌, refl, List, arith, Option, Text, [], ap, codes, false, length, length-append, none, not,
  some, true, ℕ, ◌+◌, ◌∷◌, All, ◌++◌, Bool,
}
use threat_lens.Replay.{
  Replay, PollResponse, ReplayJobStatus, Toast, is_terminal, poll, poll_answered, polled_job,
  status_read, status_requests, unread, JobState, completed, error_text, job_failed, processing,
  queued, replay_complete, toast_at,
}

abbrev pub is_polling : Option ReplayJobStatus → Bool
is_polling none = false
is_polling (some job) = not (is_terminal job.status)

-- A tick of the interval, or an answer to one of its requests. Without a job that runs there is no
-- interval, and a tick changes nothing.
pub data PollEvent : Type 0 where
  tick : PollEvent
  answer : PollResponse → PollEvent

abbrev pub poll_event : PollEvent → Replay → Replay
poll_event tick s = poll s
poll_event (answer r) s = poll_answered r s

unfoldable pub poll_all : List PollEvent → Replay → Replay
unfolding poll poll_answered
poll_all [] s = s
poll_all (e ∷ es) s = poll_all es (poll_event e s)

-- A tick, or an answer that leaves the job running.
abbrev pub IsRunning : PollEvent → Type 0
IsRunning tick = Unit
IsRunning (answer unread) = Unit
IsRunning (answer (status_read job)) = is_terminal job.status ≡ false

-- A tick, or an answer that says nothing else than `job`.
abbrev pub IsAgreeing : ReplayJobStatus → PollEvent → Type 0
IsAgreeing job tick = Unit
IsAgreeing job (answer unread) = Unit
IsAgreeing job (answer (status_read other)) = other ≡ job

abbrev pub ticks : List PollEvent → ℕ
ticks [] = 0
ticks (tick ∷ es) = ticks es + 1
ticks (answer r ∷ es) = ticks es

abbrev named_error : Option Text → Text
named_error none = codes "Unknown execution error"
named_error (some []) = codes "Unknown execution error"
named_error (some (c ∷ error)) = c ∷ error

-- What the toast has to say of a job that ended in a state.
abbrev Reports : JobState → ReplayJobStatus → Option Toast → Type 0
Reports completed job toast = toast ≡ some (replay_complete job.total_flows job.published_records)
Reports job_failed job toast =
    toast ≡ some (error_text (codes "Replay Failed: " ++ named_error job.error))
Reports _ job toast = ⊥

-- What the state shows of a finished job, with the number of requests that were sent.
pub record IsFinished (job : ReplayJobStatus) (requests : ℕ) (s : Replay) : Type 0 where
  active_job : s.active_job ≡ some job
  no_poll : polled_job s.active_job ≡ none
  toast : Reports job.status job s.toast
  polls : length s.requests ≡ requests

one_request :
    (o : Option ReplayJobStatus) → is_polling o ≡ true → length (status_requests (polled_job o)) ≡ 1
unfolding polled_job
one_request none h = cc
one_request (some job) h = ground arith

length-poll :
    (s : Replay) → is_polling s.active_job ≡ true → length (poll s).requests ≡ length s.requests + 1
unfolding poll
length-poll s h = omega (
  arith,
  length-append (status_requests (polled_job s.active_job)) s.requests,
  one_request s.active_job h,
)

no_poll_of_terminal :
    (job : ReplayJobStatus) → is_terminal job.status ≡ true → polled_job (some job) ≡ none
unfolding polled_job
no_poll_of_terminal job h = rw h refl

-- Without an interval a tick leaves the state.
poll_off : (s : Replay) → polled_job s.active_job ≡ none → poll s ≡ s
unfolding poll
poll_off s h = rw h refl

reported :
    (status : JobState) (job : ReplayJobStatus) (error : Option Text) (before : Option Toast)
    → is_terminal status ≡ true
    → job.error ≡ error
    → Reports status job (toast_at status job before)
reported completed job error before h e = refl
reported job_failed job none before h e = rw e refl
reported job_failed job (some []) before h e = rw e refl
reported job_failed job (some (c ∷ error)) before h e = rw e refl
reported queued job error before h e = cc
reported processing job error before h e = cc

finished :
    (job : ReplayJobStatus) (s : Replay)
    → is_terminal job.status ≡ true
    → IsFinished job (length s.requests) (poll_answered (status_read job) s)
unfolding poll_answered
finished job s t = record {
  active_job = refl;
  no_poll = no_poll_of_terminal job t;
  toast = reported job.status job job.error s.toast t refl;
  polls = refl;
}

-- Behind the end of the job nothing is asked for, and answers that agree leave what is shown.
after-IsFinished :
    (job : ReplayJobStatus) (n : ℕ) (after : List PollEvent) (s : Replay)
    → is_terminal job.status ≡ true
    → IsFinished job n s
    → All (IsAgreeing job) after
    → IsFinished job n (poll_all after s)
unfolding poll_all
after-IsFinished job n [] s t f h = f
after-IsFinished job n (tick ∷ after) s t f h =
    rw (poll_off s f.no_poll) (after-IsFinished job n after s t f h.1)
after-IsFinished job n (answer unread ∷ after) s t f h =
    unfold poll_answered in after-IsFinished job n after s t f h.1
after-IsFinished job n (answer (status_read other) ∷ after) s t f h =
    after-IsFinished job n after (poll_answered (status_read other) s) t
      (rw h.0 (
        subst (λ m. IsFinished job m (poll_answered (status_read job) s)) f.polls
          (finished job s t)))
      h.1

-- While a job runs, the interval sends one request at each tick up to the first answer that says the
-- job is finished, however ticks and answers follow each other and whatever answers are lost; then
-- the state shows that answer and a toast of its outcome, and no tick sends a request any more, as
-- long as no answer to an earlier request says otherwise.
pub poll_all-IsFinished :
    (before after : List PollEvent) (job : ReplayJobStatus) (s : Replay)
    → is_polling s.active_job ≡ true
    → All IsRunning before
    → is_terminal job.status ≡ true
    → All (IsAgreeing job) after
    → IsFinished job
        (length s.requests + ticks before)
        (poll_all (before ++ answer (status_read job) ∷ after) s)
unfolding poll_all
poll_all-IsFinished [] after job s h running t agreeing =
    after-IsFinished job (length s.requests + 0) after (poll_answered (status_read job) s) t
      (subst (λ m. IsFinished job m (poll_answered (status_read job) s)) (omega arith)
        (finished job s t))
      agreeing
poll_all-IsFinished (tick ∷ before) after job s h running t agreeing =
    subst (λ m. IsFinished job m (poll_all (before ++ answer (status_read job) ∷ after) (poll s)))
      (omega (arith, length-poll s h))
      (poll_all-IsFinished before after job (poll s) (unfold poll in h) running.1 t agreeing)
poll_all-IsFinished (answer unread ∷ before) after job s h running t agreeing =
    unfold poll_answered in poll_all-IsFinished before after job s h running.1 t agreeing
poll_all-IsFinished (answer (status_read other) ∷ before) after job s h running t agreeing =
    unfold poll_answered in
    poll_all-IsFinished before after job (poll_answered (status_read other) s) (ap not running.0)
      running.1 t agreeing
