-- ===== src/Replay/Screen.antt =====
-- frontend/src/components/ReplayModal.tsx: what the modal shows: the toast, the job, the place to
-- drop a capture, and the captures. `print` is how a number is shown, `locale` is
-- `new Date(s).toLocaleString()`, `tenths`
-- and `hundredths` how a number in that unit is.
use threat_lens.Base.{
  Bool, List, Option, Text, [], codes, false, if◌then◌else◌, length, map, none, some, take, true, ℕ,
  ◌++◌, ◌∷◌,
}
use threat_lens.Replay.{
  JobState, PcapMetadata, Replay, ReplayJobStatus, Toast, completed, error_text, job_failed,
  upload_started, processing, queued, replay_complete, success_text,
}
use threat_lens.Replay.Sizes.{Size, bytes_shown, format_bytes, hundredths_mb, tenths_kb}

pub data Tone : Type 0 where
  emerald amber rose : Tone

-- The icon beside a job, or in the place to drop a file.
pub data Icon : Type 0 where
  spinner_icon check_icon alert_icon upload_icon : Icon

abbrev pub job_icon : JobState → Icon
job_icon processing = spinner_icon
job_icon completed = check_icon
job_icon _ = alert_icon

abbrev pub job_tone : JobState → Tone
job_tone processing = amber
job_tone completed = emerald
job_tone _ = rose

-- The bar: its tone, and whether it is full.
abbrev pub job_bar : JobState → Tone × Bool
job_bar completed = (emerald, true)
job_bar job_failed = (rose, true)
job_bar _ = (amber, false)

abbrev pub state_text : JobState → Text
state_text queued = codes "queued"
state_text processing = codes "processing"
state_text completed = codes "completed"
state_text job_failed = codes "failed"

-- Is a button that runs a replay disabled?
unfoldable pub run_disabled : Option ReplayJobStatus → Bool
run_disabled none = false
run_disabled (some job) = elim job.status [ processing ↦ true | _ ↦ false ]

unfoldable pub drop_icon : Replay → Icon
drop_icon s = if s.uploading then spinner_icon else upload_icon

-- The press of the cross beside the toast.
abbrev pub toast_closed : Replay → Replay
toast_closed s = record s { toast = none }

-- The choice of files in the dialog of the browser: only the first is taken.
unfoldable pub files_chosen : (names : List Text) → Replay → Replay
unfolding upload_started
files_chosen [] s = s
files_chosen (name ∷ names) s = upload_started name s

module _ (print : ℕ → Text) (locale : Text → Text) (tenths hundredths : ℕ → Text) where
  -- `toastMessage`: its tone and its text.
  abbrev pub toast_shown : Toast → Tone × Text
  toast_shown (replay_complete total_flows published_records) = (
    emerald,
    codes "Replay Complete: Ingested "
        ++ (print total_flows
            ++ (codes " flows ("
                ++ (print published_records ++ codes " events) into Redpanda/Kafka."))),
  )
  toast_shown (success_text text) = (emerald, text)
  toast_shown (error_text text) = (rose, text)

  abbrev pub size_text : Size → Text
  size_text (bytes_shown n) = print n ++ codes " B"
  size_text (tenths_kb n) = tenths n ++ codes " KB"
  size_text (hundredths_mb n) = hundredths n ++ codes " MB"

  -- The lines about the job.
  unfoldable pub job_lines : ReplayJobStatus → List Text
  job_lines job =
      (codes "Replaying: " ++ job.filename)
      ∷ state_text job.status
      ∷ (codes "Parsed Flows: " ++ print job.total_flows)
      ∷ (codes "Published Events: " ++ print job.published_records)
      ∷ (codes "ID: " ++ take 8 job.job_id)
      ∷ []

  -- A capture: its name, its tag, its size and its time.
  unfoldable pub pcap_row : PcapMetadata → List Text
  unfolding format_bytes
  pcap_row pcap =
      pcap.filename
      ∷ pcap.attack_tag
      ∷ size_text (format_bytes pcap.size_bytes)
      ∷ locale pcap.created_at
      ∷ []

  -- The heading over the captures, whether it has a spinner, and the rows or the line for none.
  unfoldable pub repository : Replay → Text × Bool × List (List Text)
  unfolding pcap_row
  repository s = (
    codes "Available Capture Repository (" ++ (print (length s.pcaps) ++ codes ")"),
    s.loading_pcaps,
    elim s.pcaps [
      | [] ↦ (codes "No PCAP captures found in pcaps/ directory." ∷ []) ∷ []
      | (pcap ∷ pcaps) ↦ map pcap_row (pcap ∷ pcaps)
    ],
  )
