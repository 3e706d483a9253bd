-- ===== src/JobRequests/JobCard/Parts.antt =====
-- The two small components of a job's card, `JobNotesModal` and `JobTaskRow` of
-- app/frontend/pages/JobRequests.jsx.
use roost_assured.Common.{
  String, Bool, true, false, not, Option, none, some, List, [], ◌∷◌, ◌++◌, if◌then◌else◌,
  number_key, string_key,
}
use roost_assured.Common.Text.{is_empty, text_or}
use roost_assured.Common.View.{Node, heading, words, shown, alert, field, checkbox, button, link}
use roost_assured.Api.{Settled, fulfilled, rejected}
use roost_assured.JobRequests.Records.{JobTask, Job}
use roost_assured.JobRequests.JobCard.{has_text, error_after, update_of}

pub record NotesModal : Type 0 where
  pub value : String
  pub saving : Bool
  pub error : Option String

abbrev notes_text : Option String → String
notes_text none = ""
notes_text (some s) = text_or s ""

unfoldable pub new_notes : Option String → NotesModal
new_notes notes = record { value = notes_text notes; saving = false; error = none }

-- `save` up to its request, and the notes that it sends.
unfoldable pub save_notes_start : NotesModal → NotesModal × String
save_notes_start m = (record m { saving = true; error = none }, m.value)

-- The rest of `save`: the modal, the job for `onUpdate`, and whether the modal is closed.
unfoldable pub save_notes_finish : Settled Job → NotesModal → NotesModal × Option Job × Bool
save_notes_finish (fulfilled job) m = (record m { saving = false }, some job, true)
save_notes_finish (rejected es) m =
    (record m { error = error_after (rejected es) m.error; saving = false }, none, false)

pub data NotesAction : Type 0 where
  close_notes save_notes : NotesAction

abbrev pub error_line : {A : Type 0} → Option String → List (Node A)
error_line none = []
error_line (some e) = if is_empty e then [] else alert e ∷ []

unfoldable pub render_notes : NotesModal → List (Node NotesAction)
render_notes m =
    heading "Notes for the owner"
    ∷ button "Close" false close_notes
    ∷ words
        "Anything the owner should know — a loose latch, low feed, a vet visit, etc. This is optional and visible to the owner."
    ∷ (error_line m.error
        ++ (field "notes" m.value false
            ∷ button "Cancel" false close_notes
            ∷ button (if m.saving then "Saving…" else "Save notes") m.saving save_notes
            ∷ []))

-- A row of the checklist.
pub record TaskRow : Type 0 where
  pub toggling : Bool
  pub uploading : Bool

-- `toggleCompleted`, and the value of `completed` that it sends.
unfoldable pub toggle_completed_start : JobTask → TaskRow → TaskRow × Bool
toggle_completed_start task r = (record r { toggling = true }, not task.completed)

unfoldable pub toggle_completed_finish : Settled Job → TaskRow → TaskRow × Option Job
toggle_completed_finish answer r = (record r { toggling = false }, update_of answer)

-- `uploadPhoto`: the file that the input holds, if any, and the one that is sent.
unfoldable pub upload_photo_start : {File : Type 0} → Option File → TaskRow → TaskRow × Option File
upload_photo_start none r = (r, none)
upload_photo_start (some file) r = (record r { uploading = true }, some file)

unfoldable pub upload_photo_finish : Settled Job → TaskRow → TaskRow × Option Job
upload_photo_finish answer r = (record r { uploading = false }, update_of answer)

pub data TaskAction : Type 0 where
  toggle_completed choose_file : TaskAction

abbrev photo_link : Option String → List (Node TaskAction)
photo_link none = []
photo_link (some url) = if is_empty url then [] else link url ∷ []

-- The checkbox is drawn as its state and the click on it.
unfoldable pub render_task : JobTask → TaskRow → List (Node TaskAction)
render_task task r =
    checkbox "completed" task.completed
    ∷ button "completed" r.toggling toggle_completed
    ∷ shown task.description
    ∷ (photo_link task.photo_url
        ++ (button
              (if r.uploading
                then "Uploading…"
                else if has_text task.photo_url
                then "Replace photo"
                else "Add photo")
              r.uploading choose_file
            ∷ []))
