-- ===== src/Document.antt =====
-- gdiroh/src/document.rs: `IrohDocument`, an open document for the game, with gdiroh/src/docs.rs's
-- `Document`: its two queues, and whether its task still runs. What `String::from_utf8_lossy` makes of a
-- key is a parameter, `text`.
use gdiroh.Prelude.{
  ℕ, Option, none, some, List, [], ◌∷◌, ◌++◌, Bool, true, false, if◌then◌else◌, is_some, parse_each,
  map, String,
}
use gdiroh.Wire.{Bytes}
use gdiroh.Docs.{
  KeyInfo, Event, opened, entry, content_ready, keys, status, value, shared, sync_finished,
  neighbor_up, neighbor_down, closed, Command,
}
pub mod Frames
mod Tests

-- A row of a listing.
pub record Row : Type 0 where
  pub key : String
  pub author : ℕ
  pub hash : ℕ
  pub len : ℕ

-- A signal is called as its event; where that has a key the signal has the key's text, and a value comes
-- apart: whether there is one, and the bytes, which are empty if not.
pub data Signal : Type 0 where
  said : Event → Signal
  got_entry : Row → (sender : Option ℕ) → Signal
  got_keys : (prefix : String) → List Row → Signal
  got_value : (key : String) → (contents : Bytes) → (found : Bool) → Signal

pub record Document : Type 0 where
  pub events : List Event
  pub commands : List Command
  pub served : Bool

-- `id` is none while it is the empty string.
pub record IrohDocument : Type 0 where
  pub document : Option Document
  pub id : Option ℕ
  pub ticking : Bool
  pub signals : List Signal

abbrev start_ticking : Bool → IrohDocument → IrohDocument
start_ticking scene t = if t.ticking then t else record t { ticking = scene }

abbrev stop_ticking : IrohDocument → IrohDocument
stop_ticking t = record t { ticking = false }

unfoldable pub wrap : Bool → Document → IrohDocument
wrap scene document =
    start_ticking scene
      (record { document = some document; id = none; ticking = false; signals = [] })

abbrev emit_later : Signal → IrohDocument → IrohDocument
emit_later s t = record t { signals = t.signals ++ s ∷ [] }

abbrev unwrap_or_default : Option Bytes → Bytes
unwrap_or_default none = []
unwrap_or_default (some bytes) = bytes

module _ (text : Bytes → String) where
  abbrev pub row : KeyInfo → Row
  row info = record { key = text info.key; author = info.author; hash = info.hash; len = info.len }

  unfoldable pub handle : Event → IrohDocument → IrohDocument
  handle (opened id) t = emit_later (said (opened id)) (record t { id = some id })
  handle (entry info sender) t = emit_later (got_entry (row info) sender) t
  handle (content_ready hash) t = emit_later (said (content_ready hash)) t
  handle (value key found) t =
      emit_later (got_value (text key) (unwrap_or_default found) (is_some found)) t
  handle (keys prefix entries) t = emit_later (got_keys (text prefix) (map row entries)) t
  handle (status syncing subscribers handles) t =
      emit_later (said (status syncing subscribers handles)) t
  handle (shared ticket) t = emit_later (said (shared ticket)) t
  handle (sync_finished peer) t = emit_later (said (sync_finished peer)) t
  handle (neighbor_up peer) t = emit_later (said (neighbor_up peer)) t
  handle (neighbor_down peer) t = emit_later (said (neighbor_down peer)) t
  handle (closed reason) t =
      emit_later (said (closed reason)) (stop_ticking (record t { document = none }))

  unfoldable pub handle_each : List Event → IrohDocument → IrohDocument
  handle_each [] t = t
  handle_each (e ∷ es) t = handle_each es (handle e t)

  -- _drain: all that waits is taken before any of it is handled.
  unfoldable pub drain : IrohDocument → IrohDocument
  drain t = elim t.document [
    | none ↦ t
    | some document ↦
        handle_each document.events (record t { document = some (record document { events = [] }) })
  ]

-- A call of `Document`: commands.send(…).is_ok(), on a document that is held.
unfoldable pub order : Command → IrohDocument → Bool × IrohDocument
order c t = elim t.document [
  | none ↦ (false, t)
  | some document ↦ (
    document.served,
    if document.served
        then record t {
          document = some (record document { commands = document.commands ++ c ∷ [] });
        }
        else t,
  )
]

abbrev pub set : Bytes → Bytes → IrohDocument → Bool × IrohDocument
set key contents t = order (Command.set key contents) t

abbrev pub delete_prefix : Bytes → IrohDocument → Bool × IrohDocument
delete_prefix prefix t = order (Command.delete prefix) t

abbrev pub read : Bytes → IrohDocument → Bool × IrohDocument
read key t = order (Command.read key) t

abbrev pub list_keys : Bytes → IrohDocument → Bool × IrohDocument
list_keys prefix t = order (Command.list_keys prefix) t

abbrev pub request_status : IrohDocument → Bool × IrohDocument
request_status t = order Command.ask_status t

abbrev pub share : Bool → IrohDocument → Bool × IrohDocument
share writable t = order (Command.share writable) t

-- `peers` are parsed, with `none` for what is no endpoint id.
unfoldable pub join_peers : List (Option ℕ) → IrohDocument → Bool × IrohDocument
join_peers peers t = elim (parse_each peers) [
  | none ↦ (false, t)
  | some ids ↦ order (Command.join ids) t
]

abbrev pub leave : IrohDocument → Bool × IrohDocument
leave t = order Command.leave t

abbrev pub is_open : IrohDocument → Bool
is_open t = is_some t.document

unfoldable pub close : IrohDocument → IrohDocument
close t = stop_ticking (record t { document = none })

-- The task's end of the event queue: lost when the document was closed.
unfoldable pub arrive : List Event → IrohDocument → IrohDocument
arrive es t = elim t.document [
  | none ↦ t
  | some document ↦ record t {
    document = some (record document { events = document.events ++ es });
  }
]
