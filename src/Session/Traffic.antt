-- ===== src/Session/Traffic.antt =====
-- gdiroh/src/session.rs: what the packets of a game put on a peer's channel over a stretch of a
-- session's life.
use gdiroh.Prelude.{
  ℕ, ◌≡◌, ◌≢◌, ◌⊎◌, List, [], ◌∷◌, Bool, true, false, not, ◌&&◌, ◌==◌, nat_eq, if◌then◌else◌, has,
  not_positive, neg,
}
use gdiroh.Wire.{Bytes, Buf}
use gdiroh.Session.{
  reliable, unreliable, unreliable_ordered, Command, send, disconnect, close, control, lost,
  host_id,
}
use gdiroh.Session.Run.{
  Loop, Flow, Input, command, message, connection, no_more_commands, no_more_messages,
  no_more_connections, running, finished,
}
use gdiroh.Session.Queues.{queued}
use gdiroh.Session.Distinct.{Distinct}
use gdiroh.Session.Ids.{BelowWhile}

-- The commands that the task takes among its inputs, in order.
abbrev pub taken : List Input → List Command
taken [] = []
taken (command c limits ∷ is) = c ∷ taken is
taken (message m ∷ is) = taken is
taken (connection conn ∷ is) = taken is
taken (no_more_commands ∷ is) = taken is
taken (no_more_messages ∷ is) = taken is
taken (no_more_connections ∷ is) = taken is

-- Godot's convention on a star: a host's positive target is one client, and all that a client has
-- goes to its host.
abbrev pub reaches : Bool → ℕ → ℕ → Bool
reaches is_host q target =
    if not_positive target then not (q == neg target) else if is_host then q == target else true

-- The payloads of the reliable packets on channel `ch` that are for `q`.
abbrev pub meant : Bool → ℕ → ℕ → List Command → List Bytes
meant is_host q ch [] = []
meant is_host q ch (send target channel reliable payload ∷ cs) =
    if reaches is_host q target && channel == ch
    then payload ∷ meant is_host q ch cs
    else meant is_host q ch cs
meant is_host q ch (send target channel unreliable payload ∷ cs) = meant is_host q ch cs
meant is_host q ch (send target channel unreliable_ordered payload ∷ cs) = meant is_host q ch cs
meant is_host q ch (disconnect peer ∷ cs) = meant is_host q ch cs
meant is_host q ch (close ∷ cs) = meant is_host q ch cs

module _ (q ch : ℕ) where
  -- Any input, except one that ends the loop or tells that the connection to `q` is lost, and an
  -- unreliable packet on this channel, which may have to travel as a reliable one.
  abbrev pub Steady : Input → Type 0
  Steady (command (send target channel reliable payload) limits) = Unit
  Steady (command (send target channel unreliable payload) limits) = channel ≢ ch
  Steady (command (send target channel unreliable_ordered payload) limits) = channel ≢ ch
  Steady (command (disconnect peer) limits) = Unit
  Steady (command close limits) = ⊥
  Steady (message (control c)) = Unit
  Steady (message (lost peer)) = peer ≢ q
  Steady (connection conn) = Unit
  Steady no_more_commands = ⊥
  Steady no_more_messages = ⊥
  Steady no_more_connections = Unit

  -- `q` is linked, to a host with ids left for `room` more clients, or to a client that it hosts
  -- and that has no other link and accepts nobody.
  abbrev pub Hosts : ⦃b : Buf⦄ → ℕ → Loop → Type 0
  Hosts room l = (l.state.is_host ≡ true) × BelowWhile q room (running l)

  abbrev pub Joined : Loop → Type 0
  Joined l =
      (l.state.is_host ≡ false)
      × (q ≡ host_id)
      × (l.inbound ≡ false)
      × ((r : ℕ) → (has r l.state.links && not (r == host_id)) ≡ false)

  pub record Placed ⦃b : Buf⦄ (is_host : Bool) (room : ℕ) (l : Loop) : Type 0 where
    pub role : l.state.is_host ≡ is_host
    pub distinct : Distinct l.state
    pub linked : has q l.state.links ≡ true
    pub place : Hosts room l ⊎ Joined l

  -- What the loop has queued for `q` on the channel, while it runs.
  abbrev pub Carrying : ⦃b : Buf⦄ → Bool → ℕ → List Bytes → Flow → Type 0
  Carrying is_host room frames (running l) = Placed is_host room l × (queued q ch l.state ≡ frames)
  Carrying is_host room frames (finished s) = ⊥
