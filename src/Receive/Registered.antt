-- ===== src/Receive/Registered.antt =====
-- handler.c: the loop over the commands, on connections that have not logged in.
use opennap.Base.{
  ℕ, zero, suc, ◌<◌, ◌≡◌, sym, ap, ◌∙◌, false, ◌&&◌, not, arith, length, Option-cases, Bool-cases,
  inl, inr,
}
use opennap.Text.{Bytes}
use opennap.Wire.{Command, read_command}
use opennap.Protocol.Names.{RequestHandler}
use opennap.Protocol.{protocol, find_handler}
use opennap.Receive.{
  Peer, Config, Session, Handlers, is_unknown, one_of, registration_tags, row_handler,
  dispatch_command, run_command, command_loop, process_commands, emit, handled,
}
use opennap.Receive.Commands.{refused, loop_wait, loop_refuse, loop_run, read_command-length}
use opennap.Receive.Messages.{prepared-class}

-- Handlers that do the same on what a connection may send.
abbrev pub Agree : Handlers → Handlers → Type 0
Agree f g =
    (h : RequestHandler) (tag : ℕ) (body : Bytes) (p : Peer)
    → (is_unknown p.class && not (one_of tag registration_tags)) ≡ false
    → f h tag body p ≡ g h tag body p

module _ (cfg : Config) (f g : Handlers) (same : Agree f g) where
  dispatch_same :
      (tag : ℕ) (body : Bytes) (s : Session)
      → (is_unknown s.peer.class && not (one_of tag registration_tags)) ≡ false
      → dispatch_command cfg f tag body s ≡ dispatch_command cfg g tag body s
  unfolding dispatch_command
  dispatch_same tag body s ok =
      elim (Option-cases (row_handler (find_handler cfg.sig_caught protocol tag))) [
        | inl e ↦ rw (e, dispatch_command)
        | inr (h, e) ↦
            rw (e, dispatch_command)
              (ap (λ p. record (emit s (handled h tag body)) { peer = p })
                (same h tag body s.peer ok))
      ]

  run_command_same :
      (c : Command) (s : Session)
      → refused s c ≡ false
      → run_command cfg f c s ≡ run_command cfg g c s
  unfolding run_command
  run_command_same c s ok = dispatch_same c.tag c.body _ (rw (prepared-class cfg c.tag s) ok)

  loop_same :
      (fuel : ℕ) (s : Session) (bs : Bytes)
      → length bs < fuel
      → command_loop fuel cfg f s bs ≡ command_loop fuel cfg g s bs
  loop_same zero s bs h = absurd (omega arith)
  loop_same (suc fuel) s bs h = elim (Option-cases (read_command bs)) [
    | inl e ↦ loop_wait cfg f fuel s bs e ∙ sym (loop_wait cfg g fuel s bs e)
    | inr (c, e) ↦ elim (Bool-cases (refused s c)) [
      | inl r ↦ loop_refuse cfg f fuel s bs c e r ∙ sym (loop_refuse cfg g fuel s bs c e r)
      | inr r ↦
          loop_run cfg f fuel s bs c e r
          ∙ rw (run_command_same c s r) (
              loop_same fuel (run_command cfg g c s) c.rest
                (omega (arith, read_command-length bs c e)))
          ∙ sym (loop_run cfg g fuel s bs c e r)
    ]
  ]

  -- What `handle_connection` does depends on the handlers only through their calls on connections
  -- that have logged in, or on one of the commands of registration: two sets of handlers that agree
  -- on those calls cannot be told apart.
  pub process_commands_registered :
      (s : Session) (bs : Bytes) → process_commands cfg f s bs ≡ process_commands cfg g s bs
  unfolding process_commands
  process_commands_registered s bs = loop_same _ s bs (omega arith)
