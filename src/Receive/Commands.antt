-- ===== src/Receive/Commands.antt =====
-- handler.c: the loop over the commands, on input that arrives in parts.
use opennap.Base.{
  ℕ, zero, suc, ◌+◌, ◌*◌, ◌≤◌, ◌<◌, ◌≡◌, ◌≢◌, refl, sym, ◌∙◌, inl, inr, Bool, true, false, ◌&&◌,
  not, [], ◌∷◌, ◌++◌, none, some, arith, ltb, length, take, drop, Option-cases, Bool-cases,
  length-append, length-drop, take-append_le, drop-append_le,
}
use opennap.Text.{Bytes}
use opennap.Wire.{Command, read_command}
use opennap.Receive.{
  Config, Session, Handlers, Outcome, waiting, given_up, out_of_fuel, give_up, run_command,
  command_loop, process_commands, is_unknown, one_of, registration_tags,
}

-- A command takes at least its header off the input.
pub read_command-length :
    (bs : Bytes) (c : Command) → read_command bs ≡ some c → length c.rest + 4 ≤ length bs
unfolding read_command
read_command-length [] c e = cc
read_command-length (l ∷ []) c e = cc
read_command-length (l ∷ m ∷ []) c e = cc
read_command-length (l ∷ m ∷ s ∷ []) c e = cc
read_command-length (l ∷ m ∷ s ∷ t ∷ d) c e = ground (arith, length-drop (l + 256 * m) d)

fits_in :
    (n : ℕ) (d more : Bytes)
    → ltb (length d) n ≡ false
    → (ltb (length (d ++ more)) n ≡ false)
      × (take n (d ++ more) ≡ take n d)
      × (drop n (d ++ more) ≡ drop n d ++ more)
fits_in n d more h = (
  ground (arith, length-append d more),
  take-append_le n d more (ground arith),
  drop-append_le n d more (ground arith),
)

-- A command that is there stays the same when more bytes follow.
read_command-append :
    (bs more : Bytes) (c : Command)
    → read_command bs ≡ some c
    → read_command (bs ++ more) ≡ some (record c { rest = c.rest ++ more })
unfolding read_command
read_command-append [] more c e = cc
read_command-append (l ∷ []) more c e = cc
read_command-append (l ∷ m ∷ []) more c e = cc
read_command-append (l ∷ m ∷ s ∷ []) more c e = cc
read_command-append (l ∷ m ∷ s ∷ t ∷ d) more c e =
    elim (Bool-cases (ltb (length d) (l + 256 * m))) [
      | inl short ↦ ground arith
      | inr fits ↦ let (a, b, f) = fits_in (l + 256 * m) d more fits in rw (a, b, f) (ground arith)
    ]

-- A connection that has not logged in may not send this command.
abbrev pub refused : Session → Command → Bool
refused s c = is_unknown s.peer.class && not (one_of c.tag registration_tags)

module _ (cfg : Config) (handlers : Handlers) where
  pub loop_wait :
      (fuel : ℕ) (s : Session) (bs : Bytes)
      → read_command bs ≡ none
      → command_loop (suc fuel) cfg handlers s bs ≡ waiting s bs
  unfolding command_loop
  loop_wait fuel s bs e = rw (e, command_loop)

  pub loop_refuse :
      (fuel : ℕ) (s : Session) (bs : Bytes) (c : Command)
      → read_command bs ≡ some c
      → refused s c ≡ true
      → command_loop (suc fuel) cfg handlers s bs ≡ given_up (give_up s) bs
  unfolding command_loop
  loop_refuse fuel s bs c e r = rw (e, command_loop) (rw r)

  pub loop_run :
      (fuel : ℕ) (s : Session) (bs : Bytes) (c : Command)
      → read_command bs ≡ some c
      → refused s c ≡ false
      → command_loop (suc fuel) cfg handlers s bs
        ≡ command_loop fuel cfg handlers (run_command cfg handlers c s) c.rest
  unfolding command_loop
  loop_run fuel s bs c e r = rw (e, command_loop) (rw r)

  -- Fuel beyond the number of bytes makes no difference.
  loop_fuel :
      (f g : ℕ) (s : Session) (bs : Bytes)
      → length bs < f
      → length bs < g
      → command_loop f cfg handlers s bs ≡ command_loop g cfg handlers s bs
  loop_fuel zero g s bs h k = absurd (omega arith)
  loop_fuel (suc f) zero s bs h k = absurd (omega arith)
  loop_fuel (suc f) (suc g) s bs h k = elim (Option-cases (read_command bs)) [
    | inl e ↦ loop_wait f s bs e ∙ sym (loop_wait g s bs e)
    | inr (c, e) ↦ elim (Bool-cases (refused s c)) [
      | inl r ↦ loop_refuse f s bs c e r ∙ sym (loop_refuse g s bs c e r)
      | inr r ↦
          loop_run f s bs c e r
          ∙ loop_fuel f g (run_command cfg handlers c s) c.rest
              (omega (arith, read_command-length bs c e))
              (omega (arith, read_command-length bs c e))
          ∙ sym (loop_run g s bs c e r)
    ]
  ]

  -- What comes of an outcome when more bytes arrive.
  abbrev pub resume : Outcome → Bytes → Outcome
  resume (waiting s rest) more = process_commands cfg handlers s (rest ++ more)
  resume (given_up s rest) more = given_up s (rest ++ more)
  resume out_of_fuel more = out_of_fuel

  pub run_command_rest :
      (c : Command) (rest : Bytes) (s : Session)
      → run_command cfg handlers (record c { rest = rest }) s ≡ run_command cfg handlers c s
  unfolding run_command
  run_command_rest c rest s = refl

  loop-append :
      (f g : ℕ) (s : Session) (bs more : Bytes)
      → length bs < f
      → length (bs ++ more) < g
      → command_loop g cfg handlers s (bs ++ more) ≡ resume (command_loop f cfg handlers s bs) more
  loop-append zero g s bs more h k = absurd (omega arith)
  loop-append (suc f) zero s bs more h k = absurd (omega arith)
  loop-append (suc f) (suc g) s bs more h k = elim (Option-cases (read_command bs)) [
    | inl e ↦ rw (loop_wait f s bs e) (unfold process_commands in loop_fuel _ _ s _ k (omega arith))
    | inr (c, e) ↦
        let e' = read_command-append bs more c e in
        elim (Bool-cases (refused s c)) [
          | inl r ↦ rw (loop_refuse f s bs c e r) (loop_refuse g s (bs ++ more) _ e' r)
          | inr r ↦ rw (loop_run f s bs c e r) (
              loop_run g s (bs ++ more) _ e' r
              ∙ rw (run_command_rest c (c.rest ++ more) s) (
                  loop-append f g (run_command cfg handlers c s) c.rest more
                    (omega (arith, read_command-length bs c e))
                    (omega (arith, read_command-length (bs ++ more) _ e'))))
        ]
  ]

  -- Bytes that arrive in two parts are processed as if they had arrived at once: the commands of the
  -- first part are run, what is left waits, and is read again with the second part behind it. Where
  -- the connection is given up in the first part, the second changes nothing.
  pub process_commands-append :
      (s : Session) (bs more : Bytes)
      → process_commands cfg handlers s (bs ++ more)
        ≡ resume (process_commands cfg handlers s bs) more
  unfolding process_commands
  process_commands-append s bs more = loop-append _ _ s bs more (omega arith) (omega arith)

  loop_total :
      (f : ℕ) (s : Session) (bs : Bytes)
      → length bs < f
      → command_loop f cfg handlers s bs ≢ out_of_fuel
  loop_total zero s bs h = absurd (omega arith)
  loop_total (suc f) s bs h = elim (Option-cases (read_command bs)) [
    | inl e ↦ rw (loop_wait f s bs e) (λ q. cc)
    | inr (c, e) ↦ elim (Bool-cases (refused s c)) [
      | inl r ↦ rw (loop_refuse f s bs c e r) (λ q. cc)
      | inr r ↦ rw (loop_run f s bs c e r) (
          loop_total f (run_command cfg handlers c s) c.rest
            (omega (arith, read_command-length bs c e)))
    ]
  ]

  -- The loop over the commands never runs out of its fuel: it ends for every input.
  pub process_commands_total :
      (s : Session) (bs : Bytes) → process_commands cfg handlers s bs ≢ out_of_fuel
  unfolding process_commands
  process_commands_total s bs = loop_total _ s bs (omega arith)
