-- ===== src/Docs/Replies.antt =====
-- gdiroh/src/docs.rs: the answers to the commands of a document.
use gdiroh.Prelude.{
  Option, none, some, List, [], ◌∷◌, ◌++◌, Bool, true, false, if◌then◌else◌, Result, good, bad,
}
use gdiroh.Docs.{
  Event, keys, status, value, shared, apply, Input, commanded, dropping, unheld, reported, failing,
  ending, runtime_stopped,
}

abbrev pub is_reply : Event → Bool
is_reply (keys prefix entries) = true
is_reply (status syncing subscribers handles) = true
is_reply (value key bytes) = true
is_reply (shared ticket) = true
is_reply _ = false

-- The replies among events.
abbrev pub replies : List Event → List Event
replies [] = []
replies (e ∷ es) = let rest = replies es in if is_reply e then e ∷ rest else rest

-- What a command is answered by.
abbrev pub reply_of : Result (Option Event) → List Event
reply_of (good none) = []
reply_of (good (some e)) = e ∷ []
reply_of (bad reason) = []

abbrev pub asked : List Input → List Event
asked [] = []
asked (commanded c d ∷ is) = reply_of (apply c d) ++ asked is
asked (dropping ∷ is) = asked is
asked (unheld ∷ is) = asked is
asked (reported event ∷ is) = asked is
asked (failing reason ∷ is) = asked is
asked (ending ∷ is) = asked is
asked (runtime_stopped ∷ is) = asked is
