-- ===== src/Docs/Queries.antt =====
-- gdiroh/src/docs.rs: the questions of `Library` that have one reply, over what iroh-docs answers.
use gdiroh.Prelude.{
  List, [], ◌∷◌, ◌++◌, Bool, true, false, String, Result, good, bad, Oneshot, answered, abandoned,
}

pub data Reply : Type 0 where
  reply_names : List String → Reply
  reply_done : Reply
  reply_failed : String → Reply

-- The loop of `list` and of `authors` over what a listing gives.
unfoldable pub names_listed : List String → List (Result String) → Reply
names_listed names [] = reply_names names
names_listed names (good name ∷ rest) = names_listed (names ++ name ∷ []) rest
names_listed names (bad reason ∷ rest) = reply_failed reason

-- list
unfoldable pub list_reply : Result (List (Result String)) → Reply
list_reply (bad reason) = reply_failed reason
list_reply (good ids) = names_listed [] ids

-- authors
unfoldable pub authors_reply : Result (List (Result String)) → Reply
authors_reply (bad reason) = reply_failed reason
authors_reply (good authors) = names_listed [] authors

-- drop_doc and set_default_author
unfoldable pub change_reply : Result {0} Unit → Reply
change_reply (good u) = reply_done
change_reply (bad reason) = reply_failed reason

-- create_author
unfoldable pub author_reply : Result String → Reply
author_reply (good author) = reply_names (author ∷ [])
author_reply (bad reason) = reply_failed reason

-- query: the reply's channel once its task has run. A task that could not be detached drops its end.
unfoldable pub query : Bool → Result {0} Unit → Reply → Oneshot Reply
query false docs reply = abandoned
query true (bad reason) reply = answered (reply_failed reason)
query true (good u) reply = answered reply
