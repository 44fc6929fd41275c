-- ===== src/Replay.antt =====
-- frontend/src/components/ReplayModal.tsx: starting a replay, polling its status, uploading a
-- capture. A handler is cut at its request: what runs before it, and what runs on the answer.
use threat_lens.Base.{
  List, arith, codes, Bool, Option, Text, [], ends_with, false, if◌then◌else◌, none, or_default,
  some, text_or, true, ℕ, ◌++◌, ◌||◌, ◌∷◌,
}
pub mod Polling
pub mod Uploads
pub mod Sizes
pub mod Screen
mod Tests

pub record PcapMetadata : Type 0 where
  pub filename : Text
  pub size_bytes : ℕ
  pub created_at : Text
  pub attack_tag : Text

pub data JobState : Type 0 where
  queued : JobState
  processing : JobState
  completed : JobState
  job_failed : JobState

pub record ReplayJobStatus : Type 0 where
  pub job_id : Text
  pub filename : Text
  pub status : JobState
  pub total_flows : ℕ
  pub published_records : ℕ
  pub started_at : Option Text
  pub completed_at : Option Text
  pub error : Option Text

-- `toastMessage`. The text of a finished replay is kept as the two numbers it shows.
pub data Toast : Type 0 where
  replay_complete : (total_flows published_records : ℕ) → Toast
  success_text : Text → Toast
  error_text : Text → Toast

pub data ReplayRequest : Type 0 where
  get_pcaps : ReplayRequest
  get_status : (job_id : Text) → ReplayRequest
  trigger : (filename : Text) → ReplayRequest
  upload : (name : Text) → ReplayRequest

pub record Replay : Type 0 where
  pub pcaps : List PcapMetadata
  pub loading_pcaps : Bool
  pub active_job : Option ReplayJobStatus
  pub uploading : Bool
  pub drag_active : Bool
  pub toast : Option Toast
  pub requests : List ReplayRequest

abbrev pub is_terminal : JobState → Bool
is_terminal completed = true
is_terminal job_failed = true
is_terminal _ = false

-- The effect on `activeJob`: the job whose status the interval asks for, `none` without one.
unfoldable pub polled_job : Option ReplayJobStatus → Option Text
polled_job none = none
polled_job (some job) = if is_terminal job.status then none else some job.job_id

abbrev pub send : ReplayRequest → Replay → Replay
send r s = record s { requests = r ∷ s.requests }

-- `fetchPcaps`
unfoldable pub fetch_pcaps : Replay → Replay
fetch_pcaps s = send get_pcaps (record s { loading_pcaps = true })

-- `fetchPcaps` behind its answer: `none` where it is not ok or throws.
unfoldable pub pcaps_answered : Option (List PcapMetadata) → Replay → Replay
pcaps_answered none s = record s { loading_pcaps = false }
pcaps_answered (some data_) s = record s { pcaps = data_; loading_pcaps = false }

abbrev pub status_requests : Option Text → List ReplayRequest
status_requests none = []
status_requests (some job_id) = get_status job_id ∷ []

-- The callback of the interval, up to its request.
unfoldable pub poll : Replay → Replay
unfolding polled_job
poll s = record s { requests = status_requests (polled_job s.active_job) ++ s.requests }

-- An answer to a poll: a status, or one that is not ok, or something throws.
pub data PollResponse : Type 0 where
  status_read : ReplayJobStatus → PollResponse
  unread : PollResponse

-- The toast behind a status, from the one before.
abbrev pub toast_at : JobState → ReplayJobStatus → Option Toast → Option Toast
toast_at completed job before = some (replay_complete job.total_flows job.published_records)
toast_at job_failed job before = some (
    error_text (
      codes "Replay Failed: "
      ++ text_or (or_default job.error []) (codes "Unknown execution error")))
toast_at _ job before = before

abbrev pub toast_of : ReplayJobStatus → Option Toast → Option Toast
toast_of job before = toast_at job.status job before

unfoldable pub poll_answered : PollResponse → Replay → Replay
poll_answered (status_read job) s = record s { active_job = some job; toast = toast_of job s.toast }
poll_answered unread s = s

-- `handleTriggerReplay`
unfoldable pub trigger_started : (filename : Text) → Replay → Replay
trigger_started filename s = send (trigger filename) (record s { toast = none })

pub data TriggerResponse : Type 0 where
  accepted : (job_id : Text) → TriggerResponse
  trigger_refused : (detail : Option Text) → TriggerResponse
  trigger_thrown : TriggerResponse

unfoldable pub trigger_answered : (filename : Text) → TriggerResponse → Replay → Replay
trigger_answered filename (accepted job_id) s = record s {
  active_job = some (record {
    job_id = job_id;
    filename = filename;
    status = processing;
    total_flows = 0;
    published_records = 0;
    started_at = none;
    completed_at = none;
    error = none;
  });
}
trigger_answered filename (trigger_refused detail) s = record s {
  toast = some (
      error_text (
        codes "Trigger Error: "
        ++ text_or (or_default detail []) (codes "Failed to launch replay")));
}
trigger_answered filename trigger_thrown s = record s {
  toast = some (error_text (codes "Failed to communicate with backend replay API."));
}

-- `handleFileUpload`
abbrev pub is_capture : Text → Bool
is_capture name = ends_with name (codes ".pcap") || ends_with name (codes ".pcapng")

abbrev pub start_upload : (capture : Bool) → (name : Text) → Replay → Replay
start_upload true name s = send (upload name) (record s { uploading = true; toast = none })
start_upload false name s = record s {
  toast =
      some (error_text (codes "Invalid file type. Only .pcap and .pcapng files are supported."));
}

unfoldable pub upload_started : (name : Text) → Replay → Replay
unfolding ends_with
upload_started name = start_upload (is_capture name) name

pub data UploadResponse : Type 0 where
  uploaded : (filename : Text) → UploadResponse
  upload_refused : (detail : Option Text) → UploadResponse
  upload_thrown : UploadResponse

unfoldable pub upload_answered : UploadResponse → Replay → Replay
unfolding fetch_pcaps
upload_answered (uploaded filename) s = fetch_pcaps (record s {
  toast = some (success_text (codes "Uploaded capture: " ++ filename));
  uploading = false;
})
upload_answered (upload_refused detail) s = record s {
  toast = some (error_text (text_or (or_default detail []) (codes "Upload validation failed.")));
  uploading = false;
}
upload_answered upload_thrown s = record s {
  toast = some (error_text (codes "Error uploading PCAP file."));
  uploading = false;
}

-- `handleDrag`
pub data DragType : Type 0 where
  dragenter : DragType
  dragover : DragType
  dragleave : DragType

unfoldable pub handle_drag : DragType → Replay → Replay
handle_drag dragleave s = record s { drag_active = false }
handle_drag _ s = record s { drag_active = true }

-- `handleDrop`, with the names of the files that are dropped.
unfoldable pub handle_drop : List Text → Replay → Replay
unfolding upload_started
handle_drop [] s = record s { drag_active = false }
handle_drop (name ∷ names) s = upload_started name (record s { drag_active = false })
