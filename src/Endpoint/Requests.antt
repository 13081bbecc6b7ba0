-- ===== src/Endpoint/Requests.antt =====
-- gdiroh/src/endpoint.rs: questions to the stores, and their answers.
use gdiroh.Prelude.{
  ℕ, Option, none, some, List, [], ◌∷◌, ◌++◌, Bool, true, false, String, if◌then◌else◌, is_some,
  Oneshot, received_answer,
}
use gdiroh.Blobs.{Answer}
use gdiroh.Docs.Queries.{Reply, reply_names}
use gdiroh.Endpoint.{
  IrohEndpoint, Kind, of_status, of_blobs, of_tags, of_mutation, DocKind, of_documents, of_authors,
  of_new_author, of_doc_mutation, Question, DocQuestion, Signal, blob_status, blob_list, tag_list,
  document_list, author_list, author_created, emit_later, refresh_ticking,
}
use gdiroh.Endpoint.Services.{Alpns, depot, library}

-- asking
unfoldable pub asking : Kind → String → Oneshot Answer → IrohEndpoint → IrohEndpoint
asking kind about ask e =
    refresh_ticking (record e {
      questions = e.questions ++ record { kind = kind; about = about; ask = ask } ∷ [];
    })

unfoldable pub asking_documents : DocKind → String → Oneshot Reply → IrohEndpoint → IrohEndpoint
asking_documents kind about ask e = refresh_ticking (record e {
  document_questions =
      e.document_questions ++ record { kind = kind; about = about; ask = ask } ∷ [];
})

-- answer: the signal, if any; a failure, and an answer to another question, is only logged.
unfoldable pub answer_signal : Kind → String → Answer → Option Signal
answer_signal of_status about (Answer.status present complete size) =
    some (blob_status about present complete size)
answer_signal of_blobs about (Answer.names names) = some (blob_list names)
answer_signal of_tags about (Answer.names names) = some (tag_list names)
answer_signal _ about _ = none

abbrev pub emit_option : Option Signal → IrohEndpoint → IrohEndpoint
emit_option none e = e
emit_option (some s) e = emit_later s e

abbrev first : List String → String
first [] = ""
first (s ∷ ss) = s

unfoldable pub reply_signal : DocKind → Reply → Option Signal
reply_signal of_documents (reply_names ids) = some (document_list ids)
reply_signal of_authors (reply_names authors) = some (author_list authors)
reply_signal of_new_author (reply_names author) = some (author_created (first author))
reply_signal _ _ = none

-- What `retain_mut` keeps of the questions, and what it takes of them.
unfoldable pub still_asked : List Question → List Question
still_asked [] = []
still_asked (q ∷ qs) =
    let rest = still_asked qs in if is_some (received_answer q.ask) then rest else q ∷ rest

unfoldable pub answers : List Question → List (Kind × String × Answer)
answers [] = []
answers (q ∷ qs) =
    let rest = answers qs in
    elim (received_answer q.ask) [ none ↦ rest | some a ↦ (q.kind, q.about, a) ∷ rest ]

unfoldable pub answer_each : List (Kind × String × Answer) → IrohEndpoint → IrohEndpoint
answer_each [] e = e
answer_each ((kind, about, a) ∷ rest) e =
    answer_each rest (emit_option (answer_signal kind about a) e)

unfoldable pub drain_questions : IrohEndpoint → IrohEndpoint
drain_questions e =
    refresh_ticking
      (answer_each (answers e.questions) (record e { questions = still_asked e.questions }))

unfoldable pub doc_still_asked : List DocQuestion → List DocQuestion
doc_still_asked [] = []
doc_still_asked (q ∷ qs) =
    let rest = doc_still_asked qs in if is_some (received_answer q.ask) then rest else q ∷ rest

unfoldable pub doc_replies : List DocQuestion → List (DocKind × Reply)
doc_replies [] = []
doc_replies (q ∷ qs) =
    let rest = doc_replies qs in
    elim (received_answer q.ask) [ none ↦ rest | some r ↦ (q.kind, r) ∷ rest ]

unfoldable pub reply_each : List (DocKind × Reply) → IrohEndpoint → IrohEndpoint
reply_each [] e = e
reply_each ((kind, r) ∷ rest) e = reply_each rest (emit_option (reply_signal kind r) e)

unfoldable pub drain_document_questions : IrohEndpoint → IrohEndpoint
drain_document_questions e = refresh_ticking (
    reply_each (doc_replies e.document_questions)
      (record e { document_questions = doc_still_asked e.document_questions }))

module _ (a : Alpns) (task : ℕ) where
  -- A question to the blob store, if it can be started; `ask` is the channel it answers on.
  abbrev pub ask_depot : Kind → String → Oneshot Answer → IrohEndpoint → Bool × IrohEndpoint
  ask_depot kind about ask e =
      let there = depot a task e in
      if there.0 then (true, asking kind about ask there.1) else (false, there.1)

  -- `hash` is none when it cannot be parsed.
  unfoldable pub request_blob_status :
      Option ℕ → String → Oneshot Answer → IrohEndpoint → Bool × IrohEndpoint
  request_blob_status none about ask e = (false, e)
  request_blob_status (some hash) about ask e = ask_depot of_status about ask e

  abbrev pub request_blob_list : Oneshot Answer → IrohEndpoint → Bool × IrohEndpoint
  request_blob_list ask e = ask_depot of_blobs "blob list" ask e

  -- `tag` is none when it is blank.
  unfoldable pub tag_blob :
      Option ℕ → Option String → String → Oneshot Answer → IrohEndpoint → Bool × IrohEndpoint
  tag_blob none tag about ask e = (false, e)
  tag_blob (some hash) none about ask e = (false, e)
  tag_blob (some hash) (some tag) about ask e = ask_depot of_mutation about ask e

  unfoldable pub untag_blob :
      Option String → String → Oneshot Answer → IrohEndpoint → Bool × IrohEndpoint
  untag_blob none about ask e = (false, e)
  untag_blob (some tag) about ask e = ask_depot of_mutation about ask e

  abbrev pub request_tag_list : Oneshot Answer → IrohEndpoint → Bool × IrohEndpoint
  request_tag_list ask e = ask_depot of_tags "tag list" ask e

  abbrev pub ask_library : DocKind → String → Oneshot Reply → IrohEndpoint → Bool × IrohEndpoint
  ask_library kind about ask e =
      let there = library a task e in
      if there.0 then (true, asking_documents kind about ask there.1) else (false, there.1)

  abbrev pub request_document_list : Oneshot Reply → IrohEndpoint → Bool × IrohEndpoint
  request_document_list ask e = ask_library of_documents "document list" ask e

  abbrev pub request_author_list : Oneshot Reply → IrohEndpoint → Bool × IrohEndpoint
  request_author_list ask e = ask_library of_authors "author list" ask e

  abbrev pub create_author : Oneshot Reply → IrohEndpoint → Bool × IrohEndpoint
  create_author ask e = ask_library of_new_author "creating an author" ask e

  -- drop_document and set_default_author, whose argument is none when it cannot be parsed.
  unfoldable pub change_documents :
      Option ℕ → String → Oneshot Reply → IrohEndpoint → Bool × IrohEndpoint
  change_documents none about ask e = (false, e)
  change_documents (some id) about ask e = ask_library of_doc_mutation about ask e
