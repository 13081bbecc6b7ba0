-- ===== src/Session/Role.antt =====
-- gdiroh/src/session.rs: whether a session hosts, which no input changes.
use gdiroh.Prelude.{
  ℕ, ◌≡◌, refl, ◌∙◌, [], ◌∷◌, Bool, true, false, Assoc, List, arith, both_branches, suc,
}
use gdiroh.Wire.{Buf}
use gdiroh.Session.{
  send, disconnect, close, control, lost, Link, State, drop_link, act, emit, closed, add_link,
}
use gdiroh.Session.Run.{
  Loop, Input, command, message, connection, no_more_commands, no_more_messages,
  no_more_connections, close_all, finish, step, Start, hosting, connected, refused, start, state_of,
  run, run_induction, Any, All-Any,
}
use gdiroh.Session.Undisturbed.{Undisturbed-send_to, is_host-apply, is_host-welcome, is_host-lost}

-- Which of the two starts it was.
abbrev pub hosts : Start → Bool
hosts hosting = true
hosts (connected conn) = false
hosts (refused reason) = false

is_host-close_all : (ls : Assoc ℕ Link) (s : State) → (close_all ls s).is_host ≡ s.is_host
unfolding close_all act
is_host-close_all [] s = refl
is_host-close_all ((p, link) ∷ ls) s = is_host-close_all ls _

pub links-drop_link :
    (p : ℕ) (s : State) → ((drop_link p s).links ≡ s.links) × ((drop_link p s).is_host ≡ s.is_host)
unfolding drop_link act
links-drop_link p s = ground arith

module _ ⦃b : Buf⦄ where
  pub is_host-step : (l : Loop) (i : Input) → (state_of (step l i)).is_host ≡ l.state.is_host
  unfolding step finish emit
  is_host-step l (command (send target channel mode payload) limits) =
      (Undisturbed-send_to 0 (suc channel) channel (λ e. omega arith) limits target mode payload
        l.state).1
  is_host-step l (command (disconnect p) limits) = (links-drop_link p l.state).1
  is_host-step l (command close limits) = is_host-close_all l.state.links _
  is_host-step l (message (control c)) = is_host-apply c l.state
  is_host-step l (message (lost p)) = is_host-lost p l.state
  is_host-step l (connection conn) =
      both_branches (λ flow. (state_of flow).is_host ≡ l.state.is_host) l.inbound _ _
        (is_host-welcome l.next_id conn l.state) refl
  is_host-step l no_more_commands = is_host-close_all l.state.links _
  is_host-step l no_more_messages = is_host-close_all l.state.links _
  is_host-step l no_more_connections = refl

  pub run-is_host : (how : Start) (is : List Input) → (state_of (run how is)).is_host ≡ hosts how
  run-is_host how is =
      run_induction (λ flow. (state_of flow).is_host ≡ hosts how) Any
        (λ l i _ h. is_host-step l i ∙ h) how is (All-Any is) (begins how)
    where
      begins : (how : Start) → (state_of (start how)).is_host ≡ hosts how
      begins hosting = unfold start emit in refl
      begins (connected conn) = unfold start add_link act gdiroh.Session.put_link in refl
      begins (refused reason) = unfold start emit in refl
