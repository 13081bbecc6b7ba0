-- ===== src/Endpoint/Receiving.antt =====
-- gdiroh/src/endpoint.rs: `drain_listeners`, over the queues of the dispatcher.
use gdiroh.Prelude.{ℕ, none, some, List, [], ◌∷◌, ◌++◌, Assoc}
use gdiroh.Dispatch.{Alpn, Protocol, Dispatcher, try_accept}
use gdiroh.Endpoint.{IrohEndpoint, connection_received, emit_later}

-- `while let Some(connection) = registration.try_accept()`: as many rounds as connections wait in
-- the queue, `rounds`, and the queue is empty then.
abbrev pub accepted : ℕ → List ℕ → Dispatcher → List ℕ × Dispatcher
accepted q [] d = ([], d)
accepted q (c ∷ rounds) d =
    let given = try_accept q d in
    let rest = accepted q rounds given.1 in
    elim given.0 [ none ↦ ([], given.1) | some connection ↦ (connection ∷ rest.0, rest.1) ]

unfoldable pub accept_all : ℕ → Dispatcher → List ℕ × Dispatcher
accept_all q d = accepted q (d.queues q).waiting d

abbrev pub under : Alpn → List ℕ → List (Alpn × ℕ)
under alpn [] = []
under alpn (c ∷ cs) = (alpn, c) ∷ under alpn cs

unfoldable pub arrived : Assoc Alpn Protocol → Dispatcher → List (Alpn × ℕ) × Dispatcher
arrived [] d = ([], d)
arrived ((alpn, p) ∷ listeners) d =
    let given = accept_all p.connections d in
    let rest = arrived listeners given.1 in (under alpn given.0 ++ rest.0, rest.1)

unfoldable pub receive_each : List (Alpn × ℕ) → IrohEndpoint → IrohEndpoint
receive_each [] e = e
receive_each ((alpn, c) ∷ rest) e = receive_each rest (emit_later (connection_received alpn c) e)

unfoldable pub drain_listeners : IrohEndpoint → IrohEndpoint
drain_listeners e = elim e.dispatcher [
  | none ↦ e
  | some d ↦
      let taken = arrived e.listeners d in
      receive_each taken.0 (record e { dispatcher = some taken.1 })
]
