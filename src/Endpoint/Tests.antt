-- ===== src/Endpoint/Tests.antt =====
-- gdiroh/src/endpoint.rs: an endpoint, at concrete calls.
use gdiroh.Prelude.{
  ℕ, ◌+◌, ◌≡◌, refl, none, some, List, [], ◌∷◌, ◌++◌, ◌==◌, bytes_eq, nat_eq, true, false,
  if◌then◌else◌, is_some, has, insert, lookup, contains, length, good, answered, abandoned,
  unanswered,
}
use gdiroh.Runtime.{unstarted, acquire, spawn}
use gdiroh.Dispatch.{register, publish_alpns, start, Alpn, Dispatcher, Incoming}
use gdiroh.Dispatch
use gdiroh.Session.Handle
use gdiroh.Blobs.{Answer}
use gdiroh.Endpoint.{
  IrohEndpoint, init, of_status, of_tags, drain_bind, bind, listen, refresh_ticking, claim,
  claim_each,
}
use gdiroh.Endpoint.Services.{Alpns, depot, start_depot}
use gdiroh.Endpoint.Requests.{
  answers, answer_each, still_asked, drain_questions, drain_document_questions, doc_still_asked,
  doc_replies, reply_each, asking,
}
use gdiroh.Endpoint.Receiving.{drain_listeners, arrived, accept_all, receive_each}
use gdiroh.Endpoint.Life.{close, drain}
use gdiroh.Endpoint.Operations.{
  Operation, binding, bind_settled, listening, asking_store, session_hosting, incoming, frame,
  perform, performed,
}
use gdiroh.Endpoint.Binding.{registered, drain_bind-claims}
use gdiroh.Endpoint.Ticking.{performed-Sound}
use gdiroh.Endpoint.Sound.{Sound}
use gdiroh.Endpoint.Registered.{performed-registered}
use gdiroh.Endpoint.Accepting.{due, received, waiting_on, queues_of}
use gdiroh.Endpoint.Received.{dispatcher_of, performed-due}
use gdiroh.Endpoint.Leasing.{performed-Leased}
use gdiroh.Endpoint.Unanswered.{any_abandoned, frames, close-any_abandoned}

abbrev alpns : Alpns
alpns = record { gossip = 1 ∷ []; blobs = 2 ∷ []; docs = 3 ∷ [] }

-- `listen` on the line after `bind`, twice, and a bind that succeeds.
abbrev in_flight : List Operation
in_flight =
    binding true 1
    ∷ listening (9 ∷ [])
    ∷ listening (8 ∷ [])
    ∷ bind_settled (answered (good 42))
    ∷ []

-- Then the frame, a session, and a question whose task is dropped.
abbrev evening : List Operation
evening =
    in_flight ++ (frame ∷ session_hosting ∷ asking_store of_status "level" abandoned ∷ frame ∷ [])

performed-Sound_example : Sound (performed alpns (init true unstarted) evening)
performed-Sound_example = performed-Sound alpns unstarted evening

drain_bind-claims_example :
    let e = performed alpns (init true unstarted) in_flight in
    let f = drain_bind e in
    (has (9 ∷ []) f.listeners ≡ contains (9 ∷ []) e.pending_listens)
    × (registered (9 ∷ []) f ≡ lookup (9 ∷ []) f.listeners)
    × (is_some f.dispatcher ≡ true)
    × (f.pending_listens ≡ [])
drain_bind-claims_example = drain_bind-claims alpns unstarted in_flight 42 (9 ∷ []) (
    unfold performed perform bind acquire spawn refresh_ticking listen contains
      gdiroh.Prelude.bytes_beq in
    refl)

performed-registered_example :
    let e = performed alpns (init true unstarted) evening in
    if has (9 ∷ []) e.listeners
    then (registered (9 ∷ []) e ≡ lookup (9 ∷ []) e.listeners) × (((9 ∷ []) == Handle.alpn) ≡ false)
    else Unit
performed-registered_example = performed-registered (9 ∷ []) alpns unstarted evening

-- Three questions, of which the second is not answered yet.
abbrev asking_thrice : IrohEndpoint
asking_thrice = record (init true unstarted) {
  ticking = true;
  questions =
      record { kind = of_status; about = "level"; ask = answered (Answer.status true false 9) }
      ∷ record { kind = of_tags; about = "tag list"; ask = unanswered }
      ∷ record { kind = of_tags; about = "tag list"; ask = answered (Answer.names ("a" ∷ [])) }
      ∷ [];
}

close-any_abandoned_example :
    let f = frames 60 (close alpns 2 (performed alpns (init true unstarted) evening)) in
    (any_abandoned f.questions ≡ true) × (f.ticking ≡ true)
close-any_abandoned_example = close-any_abandoned alpns unstarted evening 2 60 (
    unfold performed perform bind acquire spawn refresh_ticking listen contains
      gdiroh.Prelude.bytes_beq drain drain_bind claim_each claim register Dispatch.claim
      publish_alpns lookup insert drain_listeners arrived accept_all receive_each drain_questions
      still_asked answers answer_each drain_document_questions doc_still_asked doc_replies
      reply_each asking depot start_depot in
    refl)

-- Two connections for one listener, and one that nobody listens for.
abbrev visitor : (connection : ℕ) → Alpn → Incoming
visitor connection alpn = record {
  offered = some (some alpn ∷ []);
  accepted = true;
  negotiated = some alpn;
  connection = some connection;
}

abbrev visits : List Operation
visits =
    in_flight
    ++ (frame
        ∷ incoming (visitor 100 (9 ∷ []))
        ∷ incoming (visitor 101 (7 ∷ []))
        ∷ incoming (visitor 102 (9 ∷ []))
        ∷ [])

performed-due_example :
    let e = performed alpns (init true unstarted) visits in
    let d = dispatcher_of e in
    let after = (arrived e.listeners d).1 in
    ((drain_listeners e).signals ≡ e.signals ++ received (due e.listeners d))
    × ((drain_listeners e).dispatcher ≡ some after)
    × (waiting_on 0 after ≡ (if contains 0 (queues_of e.listeners) then [] else waiting_on 0 d))
performed-due_example = performed-due alpns unstarted visits 0 (
    unfold performed perform bind acquire spawn refresh_ticking listen contains
      gdiroh.Prelude.bytes_beq drain drain_bind claim_each claim register Dispatch.claim
      publish_alpns lookup insert drain_listeners arrived accept_all receive_each drain_questions
      still_asked answers answer_each drain_document_questions doc_still_asked doc_replies
      reply_each Dispatch.dispatch Dispatch.route Dispatch.deliver in
    refl)

performed-Leased_example :
    let e = performed alpns (init true unstarted) evening in
    (e.shared.holders ≡ (if e.lease then 1 else 0))
    × (is_some e.shared.runtime ≡ e.lease)
    × (is_some (close alpns 2 e).shared.runtime ≡ false)
performed-Leased_example =
    performed-Leased alpns true evening 2 (tt, (tt, (tt, (tt, (tt, (tt, (tt, (tt, tt))))))))
