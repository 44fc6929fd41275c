-- ===== src/Replay/Uploads.antt =====
-- An upload from its start to its answer.
use threat_lens.Base.{
  Bool-cases, inl, inr, ◌⊎◌, ap, sym, ◌∙◌, codes, text_eq, ends_with, ◌||◌, ◌≡◌, refl, List, Text,
  [], false, if◌then◌else◌, none, ◌++◌, ◌∷◌, ◌≢◌, Bool, true,
}
use threat_lens.Base.Options.{true-ne-false}
use threat_lens.Base.StringLaws.{eq_of_text_eq, text_eq_refl}
use threat_lens.Replay.{
  Replay, ReplayRequest, UploadResponse, fetch_pcaps, get_pcaps, is_capture, upload,
  upload_answered, upload_started, uploaded, start_upload, upload_refused, upload_thrown,
}

-- Choosing a file and waiting for the answer, where there is one.
abbrev pub answer : (capture : Bool) → UploadResponse → Replay → Replay
answer true r s = upload_answered r s
answer false r s = s

abbrev pub upload_file : (name : Text) → UploadResponse → Replay → Replay
upload_file name r s = answer (is_capture name) r (upload_started name s)

-- What is asked for behind an answer.
abbrev pub refreshes : UploadResponse → List ReplayRequest
refreshes (uploaded filename) = get_pcaps ∷ []
refreshes _ = []

abbrev IsSettled : (capture : Bool) → Text → UploadResponse → Replay → Replay → Type 0
IsSettled capture name r before after =
    (after.uploading ≡ false)
    × (after.toast ≢ none)
    × (after.requests
        ≡ (if capture then refreshes r ++ (upload name ∷ before.requests) else before.requests))

settled :
    (capture : Bool) (name : Text) (r : UploadResponse) (s : Replay)
    → s.uploading ≡ false
    → IsSettled capture name r s (answer capture r (start_upload capture name s))
unfolding upload_answered fetch_pcaps
settled false name r s h = (h, λ e. cc, refl)
settled true name (uploaded filename) s h = (refl, λ e. cc, refl)
settled true name (upload_refused detail) s h = (refl, λ e. cc, refl)
settled true name upload_thrown s h = (refl, λ e. cc, refl)

or_true : (b : Bool) → (b || true) ≡ true
or_true true = refl
or_true false = refl

-- A text in front of the suffix.
abbrev pub EndsIn : (name suffix : Text) → Type 0
EndsIn name suffix = (stem : Text) × (name ≡ stem ++ suffix)

ends_with-EndsIn : (name suffix : Text) → ends_with name suffix ≡ true → EndsIn name suffix
unfolding ends_with
ends_with-EndsIn [] suffix h = ([], eq_of_text_eq [] suffix h)
ends_with-EndsIn (c ∷ name) suffix h = elim (Bool-cases (text_eq (c ∷ name) suffix)) [
  | inl e ↦ ([], eq_of_text_eq (c ∷ name) suffix e)
  | inr e ↦
      let rest = ends_with-EndsIn name suffix (sym (rw e refl) ∙ h) in
      (c ∷ rest.0, ap (◌∷◌ c) rest.1)
]

ends_with-append : (stem suffix : Text) → ends_with (stem ++ suffix) suffix ≡ true
unfolding ends_with
ends_with-append [] [] = refl
ends_with-append [] (c ∷ suffix) = rw (text_eq_refl (c ∷ suffix)) refl
ends_with-append (c ∷ stem) suffix = rw (ends_with-append stem suffix) (or_true _)

-- The name of a file that is a capture.
abbrev pub IsCapture : Text → Type 0
IsCapture name = EndsIn name (codes ".pcap") ⊎ EndsIn name (codes ".pcapng")

is_capture-IsCapture : (name : Text) → is_capture name ≡ true → IsCapture name
is_capture-IsCapture name h = elim (Bool-cases (ends_with name (codes ".pcap"))) [
  | inl e ↦ inl (ends_with-EndsIn name (codes ".pcap") e)
  | inr e ↦ inr (ends_with-EndsIn name (codes ".pcapng") (sym (rw e refl) ∙ h))
]

IsCapture-is_capture : (name : Text) → IsCapture name → is_capture name ≡ true
IsCapture-is_capture name (inl (stem, e)) = rw e (rw (ends_with-append stem (codes ".pcap")) refl)
IsCapture-is_capture name (inr (stem, e)) =
    rw e (rw (ends_with-append stem (codes ".pcapng")) (or_true _))

-- Whatever the server answers, the form takes the next file afterwards and shows a message; a file
-- is sent exactly when its name ends in .pcap or .pcapng, and the list of captures is asked for
-- again exactly when the server took it.
pub upload_settled :
    (name : Text) (r : UploadResponse) (s : Replay)
    → s.uploading ≡ false
    → (((upload_file name r s).uploading ≡ false) × ((upload_file name r s).toast ≢ none))
      × ((IsCapture name
            × ((upload_file name r s).requests ≡ refreshes r ++ (upload name ∷ s.requests)))
          ⊎ ((¬ IsCapture name) × ((upload_file name r s).requests ≡ s.requests)))
unfolding upload_started
upload_settled name r s h =
    let done = settled (is_capture name) name r s h in
    (
      (done.0, done.1),
      elim (Bool-cases (is_capture name)) [
        | inl e ↦ inl (
          is_capture-IsCapture name e,
          done.2 ∙ ap (λ b. if b then refreshes r ++ (upload name ∷ s.requests) else s.requests) e,
        )
        | inr e ↦ inr (
          λ c. true-ne-false (sym (IsCapture-is_capture name c) ∙ e),
          done.2 ∙ ap (λ b. if b then refreshes r ++ (upload name ∷ s.requests) else s.requests) e,
        )
      ],
    )
