-- ===== src/Receive/Messages.antt =====
-- handler.c: the loop over the commands, on whole messages.
use opennap.Base.{
  ℕ, zero, suc, ◌<◌, ◌≡◌, refl, sym, ap, ◌∙◌, false, ◌&&◌, not, List, [], ◌∷◌, ◌++◌, none, arith,
  length, All, append_assoc, Option-cases, inl, inr,
}
use opennap.Text.{Bytes}
use opennap.Wire.{Command, read_command}
use opennap.Wire.Frame.{frame, read_command-frame}
use opennap.Protocol.Names.{RequestHandler}
use opennap.Receive.{
  Peer, Config, Session, Handlers, waiting, is_unknown, protect_flood, report_sharing, row_handler,
  dispatch_command, run_command, command_loop, process_commands, one_of, registration_tags,
}
use opennap.Protocol.{protocol, find_handler}
use opennap.Receive.Commands.{loop_wait, loop_run, run_command_rest, read_command-length}

abbrev pub Message : Type 0
Message = ℕ × Bytes

-- A tag and a length that 16 bits can hold.
abbrev pub Fits : Message → Type 0
Fits m = (m.0 < 65536) × (length m.1 < 65536)

unfoldable pub frames : List Message → Bytes
frames [] = []
frames (m ∷ ms) = frame m.0 m.1 ++ frames ms

abbrev pub command : Message → Command
command m = record { tag = m.0; body = m.1; rest = [] }

-- The commands run one after the other.
unfoldable pub run_messages : Config → Handlers → List Message → Session → Session
run_messages cfg handlers [] s = s
run_messages cfg handlers (m ∷ ms) s =
    run_messages cfg handlers ms (run_command cfg handlers (command m) s)

protect_flood-class :
    (cfg : Config) (tag : ℕ) (s : Session) → (protect_flood cfg tag s).peer.class ≡ s.peer.class
unfolding protect_flood
protect_flood-class cfg tag s = ground arith

report_sharing-class :
    (cfg : Config) (tag : ℕ) (s : Session) → (report_sharing cfg tag s).peer.class ≡ s.peer.class
unfolding report_sharing
report_sharing-class cfg tag s = ground arith

-- The class that a handler sees is the one that the loop has checked.
pub prepared-class :
    (cfg : Config) (tag : ℕ) (s : Session)
    → (report_sharing cfg tag (protect_flood cfg tag s)).peer.class ≡ s.peer.class
prepared-class cfg tag s =
    report_sharing-class cfg tag (protect_flood cfg tag s) ∙ protect_flood-class cfg tag s

frames_cons :
    (m : Message) (ms : List Message) (tail : Bytes)
    → frames (m ∷ ms) ++ tail ≡ frame m.0 m.1 ++ (frames ms ++ tail)
unfolding frames
frames_cons m ms tail = append_assoc (frame m.0 m.1) (frames ms) tail

known_runs :
    (s : Session) (tag : ℕ)
    → is_unknown s.peer.class ≡ false
    → (is_unknown s.peer.class && not (one_of tag registration_tags)) ≡ false
known_runs s tag h = rw h

-- No handler logs the connection out.
abbrev pub KeepsLogin : Handlers → Type 0
KeepsLogin handlers =
    (h : RequestHandler) (tag : ℕ) (body : Bytes) (p : Peer)
    → is_unknown p.class ≡ false
    → is_unknown (handlers h tag body p).class ≡ false

module _ (cfg : Config) (handlers : Handlers) (keeps : KeepsLogin handlers) where
  dispatch_known :
      (tag : ℕ) (body : Bytes) (s : Session)
      → is_unknown s.peer.class ≡ false
      → is_unknown (dispatch_command cfg handlers tag body s).peer.class ≡ false
  unfolding dispatch_command
  dispatch_known tag body s h =
      elim (Option-cases (row_handler (find_handler cfg.sig_caught protocol tag))) [
        | inl e ↦ rw (e, dispatch_command) h
        | inr (r, e) ↦ rw (e, dispatch_command) (keeps r tag body s.peer h)
      ]

  run_command_known :
      (c : Command) (s : Session)
      → is_unknown s.peer.class ≡ false
      → is_unknown (run_command cfg handlers c s).peer.class ≡ false
  unfolding run_command
  run_command_known c s h = dispatch_known c.tag c.body _ (rw (prepared-class cfg c.tag s) h)

  frames_loop :
      (ms : List Message) (tail : Bytes) (s : Session) (fuel : ℕ)
      → length (frames ms ++ tail) < fuel
      → All Fits ms
      → read_command tail ≡ none
      → is_unknown s.peer.class ≡ false
      → command_loop fuel cfg handlers s (frames ms ++ tail)
        ≡ waiting (run_messages cfg handlers ms s) tail
  frames_loop ms tail s zero h fits part known = absurd (omega arith)
  frames_loop [] tail s (suc fuel) h fits part known =
      unfold frames run_messages in loop_wait cfg handlers fuel s tail part
  frames_loop (m ∷ ms) tail s (suc fuel) h fits part known =
      let bs = frames ms ++ tail in
      let read = read_command-frame m.0 m.1 bs fits.0.0 fits.0.1 in
      let shorter : length bs < fuel =
        omega (arith, read_command-length _ _ read, ap length (frames_cons m ms tail)) in
      ap (command_loop (suc fuel) cfg handlers s) (frames_cons m ms tail)
      ∙ loop_run cfg handlers fuel s _ _ read (known_runs s m.0 known)
      ∙ ap (λ t. command_loop fuel cfg handlers t bs)
          (run_command_rest cfg handlers (command m) bs s)
      ∙ frames_loop ms tail (run_command cfg handlers (command m) s) fuel shorter fits.1 part
          (run_command_known (command m) s known)
      ∙ ap (λ t. waiting t tail) (sym (run_messages_cons m ms s))
    where
      run_messages_cons :
          (m : Message) (ms : List Message) (s : Session)
          → run_messages cfg handlers (m ∷ ms) s
            ≡ run_messages cfg handlers ms (run_command cfg handlers (command m) s)
      run_messages_cons m ms s = unfold run_messages in refl

  -- A connection that has logged in, and whose handlers do not log it out, sends whole messages with
  -- 16-bit tags and lengths, and perhaps the beginning of one more: each message is run once, in the
  -- order in which it was sent, and the beginning of the next one waits.
  pub process_commands-frames :
      (ms : List Message) (tail : Bytes) (s : Session)
      → All Fits ms
      → read_command tail ≡ none
      → is_unknown s.peer.class ≡ false
      → process_commands cfg handlers s (frames ms ++ tail)
        ≡ waiting (run_messages cfg handlers ms s) tail
  unfolding process_commands
  process_commands-frames ms tail s fits part known =
      frames_loop ms tail s _ (omega arith) fits part known
