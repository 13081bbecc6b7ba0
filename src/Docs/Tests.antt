-- ===== src/Docs/Tests.antt =====
-- gdiroh/src/docs.rs: one document, at concrete answers.
use gdiroh.Prelude.{none, some, List, [], ◌∷◌, true, good, bad}
use gdiroh.Docs.{
  Doc, Input, commanded, reported, live_neighbor_up, pending_content_ready, Command, create,
  Opening, spawn,
}
use gdiroh.Docs.Endings.{Whole, spawn-opens_first}

-- Every key is set to the same three bytes, and sharing fails.
abbrev answering : Doc
answering = record {
  set_bytes = λ key contents. good tt;
  del = λ prefix. good tt;
  get_one = λ key. good (some 77);
  get_bytes = λ hash. some (1 ∷ 2 ∷ 3 ∷ []);
  get_many = λ prefix. good [];
  doc_status = good (true, 2, 1);
  share_ticket = λ writable. bad "no address";
  start_sync = λ peers. good tt;
  leave_sync = good tt;
}

abbrev opening : Opening
opening = record {
  docs = some (good tt);
  created = some (good 11);
  found = λ id. some (good none);
  imported = λ ticket. some (bad "unreachable");
  author = some (good 4);
  updates = some (good tt);
  store = some (good tt);
}

abbrev session : List Input
session =
    commanded (Command.set (1 ∷ []) (2 ∷ [])) answering
    ∷ reported (live_neighbor_up 6)
    ∷ commanded (Command.read (1 ∷ [])) answering
    ∷ reported pending_content_ready
    ∷ commanded Command.ask_status answering
    ∷ []

-- The same, until the failure.
abbrev failing_session : List Input
failing_session = commanded (Command.share true) answering ∷ session

spawn-opens_first_example : Whole (spawn true create opening failing_session)
spawn-opens_first_example = spawn-opens_first true create opening failing_session
