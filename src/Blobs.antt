-- ===== src/Blobs.antt =====
-- gdiroh/src/blobs.rs: content-addressed transfers. A hash is a number; what the blob store of
-- iroh-blobs reports of an operation is a list of items, and what it answers is a parameter.
use gdiroh.Prelude.{
  ℕ, ◌+◌, Option, none, some, List, [], ◌∷◌, ◌++◌, Bool, true, false, ◌&&◌, ◌||◌, String,
  if◌then◌else◌, take, ◌==◌, nat_eq, Result, good, bad, Oneshot, unanswered, answered, abandoned,
}
use gdiroh.Wire.{Bytes}
pub mod Endings
mod Tests

-- The reply to a question that has one answer.
pub data Answer : Type 0 where
  done : Answer
  status : (present complete : Bool) → (size : ℕ) → Answer
  names : List String → Answer
  failed : String → Answer

pub data Event : Type 0 where
  size progress : ℕ → Event
  completed : ℕ → Bytes → Event
  gave_up : String → Event

-- What an add reports: AddProgressItem.
pub data AddItem : Type 0 where
  add_size add_progress add_done : ℕ → AddItem
  add_error : String → AddItem
  add_other : AddItem

-- The loop of `forward_add`, with the hash seen so far: what it reports, and the hash or an error.
unfoldable pub forward_add : Option ℕ → List AddItem → List Event × Result ℕ
forward_add none [] = ([], bad "the store never reported a hash")
forward_add (some hash) [] = ([], good hash)
forward_add hash (add_size n ∷ items) =
    let rest = forward_add hash items in (size n ∷ rest.0, rest.1)
forward_add hash (add_progress n ∷ items) =
    let rest = forward_add hash items in (progress n ∷ rest.0, rest.1)
forward_add hash (add_done h ∷ items) = forward_add (some h) items
forward_add hash (add_error reason ∷ items) = ([], bad reason)
forward_add hash (add_other ∷ items) = forward_add hash items

-- keep, for a hash and maybe a tag; `tagged` is what setting the tag gives, with the error's whole text.
unfoldable pub keep : Option String → Result {0} Unit → ℕ → Result ℕ
keep none tagged hash = good hash
keep (some tag) (good u) hash = good hash
keep (some tag) (bad reason) hash = bad reason

-- `keep` after an operation that came to a hash.
abbrev kept : Option String → Result {0} Unit → Result ℕ → Result ℕ
kept tag tagged (good hash) = keep tag tagged hash
kept tag tagged (bad reason) = bad reason

-- The work of add_bytes and add_file.
unfoldable pub add : List AddItem → Option String → Result {0} Unit → List Event × Result ℕ
add items tag tagged = let added = forward_add none items in (added.0, kept tag tagged added.1)

-- What a download reports: DownloadProgressItem.
pub data FetchItem : Type 0 where
  fetch_progress : ℕ → FetchItem
  fetch_error : String → FetchItem
  download_error fetch_other : FetchItem

unfoldable pub forward_fetch : ℕ → List FetchItem → List Event × Result ℕ
forward_fetch hash [] = ([], good hash)
forward_fetch hash (fetch_progress n ∷ items) =
    let rest = forward_fetch hash items in (progress n ∷ rest.0, rest.1)
forward_fetch hash (fetch_error reason ∷ items) = ([], bad reason)
forward_fetch hash (download_error ∷ items) = ([], bad "the download failed")
forward_fetch hash (fetch_other ∷ items) = forward_fetch hash items

-- fetch, where the download may not start.
unfoldable pub fetch :
    ℕ → Result (List FetchItem) → Option String → Result {0} Unit → List Event × Result ℕ
fetch hash (bad reason) tag tagged = ([], bad reason)
fetch hash (good items) tag tagged =
    let fetched = forward_fetch hash items in (fetched.0, kept tag tagged fetched.1)

-- What an export reports: ExportProgressItem.
pub data ExportItem : Type 0 where
  export_size export_progress : ℕ → ExportItem
  export_error : String → ExportItem
  export_other : ExportItem

unfoldable pub export : ℕ → List ExportItem → List Event × Result ℕ
export hash [] = ([], good hash)
export hash (export_size n ∷ items) = let rest = export hash items in (size n ∷ rest.0, rest.1)
export hash (export_progress n ∷ items) =
    let rest = export hash items in (progress n ∷ rest.0, rest.1)
export hash (export_error reason ∷ items) = ([], bad reason)
export hash (export_other ∷ items) = export hash items

abbrev ending : Result ℕ → Event
ending (good hash) = completed hash []
ending (bad reason) = gave_up reason

abbrev not_running : List Event
not_running = gave_up "the network runtime is not running" ∷ []

-- What a task sends of its events, if the runtime stops (gdiroh/src/runtime.rs) and drops the task when
-- it has sent so many.
unfoldable pub cut_off : Option ℕ → List Event → List Event
cut_off none events = events
cut_off (some n) events = take n events

abbrev completed_work : Result {0} Unit → List Event × Result ℕ → List Event
completed_work (bad reason) work = gave_up reason ∷ []
completed_work (good u) work = work.0 ++ ending work.1 ∷ []

-- Depot::run: everything the transfer is sent. `ready` is how opening the store ends.
unfoldable pub run : Bool → Option ℕ → Result {0} Unit → List Event × Result ℕ → List Event
run false stops ready work = not_running
run true stops ready work = cut_off stops (completed_work ready work)

abbrev contents : ℕ → Result Bytes → Event
contents hash (good bytes) = completed hash bytes
contents hash (bad reason) = gave_up reason

-- Depot::read, with what opening the store and then reading give.
unfoldable pub read : Bool → Option ℕ → ℕ → Result {0} Unit → Result Bytes → List Event
read false stops hash ready got = not_running
read true stops hash (bad reason) got = cut_off stops (gave_up reason ∷ [])
read true stops hash (good u) got = cut_off stops (contents hash got ∷ [])

-- BlobStatus, as the store has it.
pub data BlobStatus : Type 0 where
  not_found : BlobStatus
  partial : Option ℕ → BlobStatus
  complete : ℕ → BlobStatus

-- Depot::status
unfoldable pub status_answer : Result BlobStatus → Answer
status_answer (good not_found) = status false false 0
status_answer (good (partial none)) = status true false 0
status_answer (good (partial (some n))) = status true false n
status_answer (good (complete n)) = status true true n
status_answer (bad reason) = failed reason

-- Depot::list
unfoldable pub list_answer : Result (List String) → Answer
list_answer (good hashes) = names hashes
list_answer (bad reason) = failed reason

-- Depot::tag and Depot::untag
unfoldable pub mutation_answer : Result {0} Unit → Answer
mutation_answer (good u) = done
mutation_answer (bad reason) = failed reason

-- The loop of Depot::tags over what the listing gives.
unfoldable pub tag_names : List String → List (Result String) → Answer
tag_names listed [] = names listed
tag_names listed (good tag ∷ tags) = tag_names (listed ++ tag ∷ []) tags
tag_names listed (bad reason ∷ tags) = failed reason

-- Depot::tags
unfoldable pub tags_answer : Result (List (Result String)) → Answer
tags_answer (bad reason) = failed reason
tags_answer (good tags) = tag_names [] tags

-- Depot::query: the answer's channel once its task has run. A task that could not be detached drops
-- its end, and a failed store is answered as such.
unfoldable pub query : Bool → Result {0} Unit → Answer → Oneshot Answer
query false ready answer = abandoned
query true (bad reason) answer = answered (failed reason)
query true (good u) answer = answered answer

-- parse_hash: two lengths are hashes, and the rest is for the crate to parse.
unfoldable pub parse_hash : ℕ → Option ℕ → Option ℕ
parse_hash len parsed = if len == 52 || len == 64 then parsed else none
