-- ===== src/Replay/Tests.antt =====
-- A replay at a concrete job and a concrete file.
use threat_lens.Base.{◌≡◌, refl, codes, [], false, length, none, some, ◌++◌, ◌⊎◌, ◌+◌, ◌∷◌, ◌≢◌}
use threat_lens.Replay.{
  Replay, JobState, polled_job, ReplayJobStatus, completed, processing, queued, status_read, unread,
  upload, upload_thrown,
}
use threat_lens.Replay.Polling.{poll_all, IsFinished, poll_all-IsFinished, answer, tick}
use threat_lens.Replay.Uploads.{IsCapture, upload_file, refreshes, upload_settled}
use threat_lens.Replay.Sizes.{format_bytes, IsNearest, format_bytes-IsNearest, tenths_kb}

abbrev idle_modal : Replay
idle_modal = record {
  pcaps = [];
  loading_pcaps = false;
  active_job = none;
  uploading = false;
  drag_active = false;
  toast = none;
  requests = [];
}

abbrev job_at : JobState → ReplayJobStatus
job_at status = record {
  job_id = codes "j1";
  filename = codes "scan.pcap";
  status = status;
  total_flows = 7;
  published_records = 9;
  started_at = none;
  completed_at = none;
  error = none;
}

abbrev busy : Replay
busy = record idle_modal { active_job = some (job_at queued) }

poll_all-IsFinished_example : IsFinished (job_at completed) (length busy.requests + 3) (
    poll_all
      ((tick ∷ tick ∷ answer (status_read (job_at processing)) ∷ tick ∷ [])
        ++ answer (status_read (job_at completed)) ∷ tick ∷ answer unread ∷ [])
      busy)
poll_all-IsFinished_example =
    poll_all-IsFinished (tick ∷ tick ∷ answer (status_read (job_at processing)) ∷ tick ∷ [])
      (tick ∷ answer unread ∷ []) (job_at completed) busy refl (tt, (tt, (refl, (tt, tt)))) refl
      (tt, (tt, tt))

-- An answer of before the end that comes after it starts the polls again.
late_answer :
    polled_job
      (poll_all
        (tick
          ∷ tick
          ∷ answer (status_read (job_at completed))
          ∷ answer (status_read (job_at processing))
          ∷ [])
        busy).active_job
    ≡ some (codes "j1")
unfolding poll_all polled_job
late_answer = refl

upload_settled_example :
    (((upload_file (codes "a.pcap") upload_thrown idle_modal).uploading ≡ false)
      × ((upload_file (codes "a.pcap") upload_thrown idle_modal).toast ≢ none))
    × ((IsCapture (codes "a.pcap")
          × ((upload_file (codes "a.pcap") upload_thrown idle_modal).requests
              ≡ refreshes upload_thrown ++ (upload (codes "a.pcap") ∷ [])))
        ⊎ ((¬ IsCapture (codes "a.pcap"))
            × ((upload_file (codes "a.pcap") upload_thrown idle_modal).requests ≡ [])))
upload_settled_example = upload_settled (codes "a.pcap") upload_thrown idle_modal refl

format_bytes-IsNearest_example : IsNearest 1536 (format_bytes 1536)
format_bytes-IsNearest_example = format_bytes-IsNearest 1536

-- One byte less than a megabyte is shown as 1024.0 KB.
below_a_megabyte : format_bytes 1048575 ≡ tenths_kb 10240
unfolding format_bytes
below_a_megabyte = refl
