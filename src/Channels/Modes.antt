-- ===== src/Channels/Modes.antt =====
-- channel.c: the message that shows or changes the modes of a channel. A mask of mode bits is a
-- record of four flags.
use opennap.Base.{
  ℕ, zero, suc, Bool, true, false, ◌||◌, not, List, [], ◌∷◌, ◌++◌, Option, none, some, ltb, ◌==◌,
  if◌then◌else◌, length,
}
use opennap.Text.{Bytes, codes, case_eq}
use opennap.Args.{next_arg}
use opennap.Server.{
  msg_nosuch, server_con, user_con, unknown_con, User, Connection, Value, text, number, Output,
  sent, passed, Globals, permission_denied, unparsable,
}
use opennap.Channels.{
  Channel, Chats, Told, tell, reply, lacks_rights, notify_ops, find, put, with_sender, on_channel,
}

pub data Mode : Type 0 where
  private : Mode
  moderated : Mode
  invite : Mode
  topic : Mode

-- The bits ON_CHANNEL_PRIVATE, _MODERATED, _INVITE and _TOPIC of a mask.
pub record Mask : Type 0 where
  pub private : Bool
  pub moderated : Bool
  pub invite : Bool
  pub topic : Bool

abbrev pub no_bits : Mask
no_bits = record { private = false; moderated = false; invite = false; topic = false }

-- `mask & bit`
unfoldable pub has_bit : Mask → Mode → Bool
has_bit m Mode.private = m.private
has_bit m Mode.moderated = m.moderated
has_bit m Mode.invite = m.invite
has_bit m Mode.topic = m.topic

-- `mask |= bit` and `mask &= ~bit`
unfoldable pub set_bit : Bool → Mask → Mode → Mask
set_bit on m Mode.private = record m { private = on }
set_bit on m Mode.moderated = record m { moderated = on }
set_bit on m Mode.invite = record m { invite = on }
set_bit on m Mode.topic = record m { topic = on }

abbrev pub modes_of : Channel → Mask
modes_of chan = record {
  private = chan.hidden;
  moderated = chan.moderated;
  invite = chan.invite_only;
  topic = chan.open_topic;
}

abbrev pub with_modes : Channel → Mask → Channel
with_modes chan m = record chan {
  hidden = m.private;
  moderated = m.moderated;
  invite_only = m.invite;
  open_topic = m.topic;
}

unfoldable pub mode_named : Bytes → Option Mode
unfolding case_eq
mode_named s =
    if case_eq (codes "PRIVATE") s
    then some Mode.private
    else if case_eq (codes "MODERATED") s
    then some Mode.moderated
    else if case_eq (codes "INVITE") s
    then some Mode.invite
    else if case_eq (codes "TOPIC") s
    then some Mode.topic
    else none

-- The flags of the channel, `onmask` and `offmask`, and what is sent.
pub record Changes : Type 0 where
  pub flags : Mask
  pub on : Mask
  pub off : Mask
  pub notes : List Output

-- An argument with `+`, and one with `-`.
unfoldable pub turn_on : Mode → Changes → Changes
unfolding has_bit set_bit
turn_on bit ch = record ch {
  flags = set_bit true (ch.flags) bit;
  on = set_bit (not (has_bit (ch.flags) bit)) (ch.on) bit;
  off = set_bit false (ch.off) bit;
}

unfoldable pub turn_off : Mode → Changes → Changes
unfolding has_bit set_bit
turn_off bit ch = record ch {
  flags = set_bit false (ch.flags) bit;
  on = set_bit false (ch.on) bit;
  off = set_bit (has_bit (ch.flags) bit) (ch.off) bit;
}

abbrev pub noted : Changes → List Output → Changes
noted ch outputs = record ch { notes = ch.notes ++ outputs }

abbrev pub by_prefix : Connection → ℕ → Bytes → Changes → Option Mode → Changes
by_prefix con prefix name ch none = noted ch (reply con "invalid channel mode: %s" (text name ∷ []))
by_prefix con prefix name ch (some bit) =
    if prefix == b'+'
    then turn_on bit ch
    else if prefix == b'-'
    then turn_off bit ch
    else noted ch
        (reply con "invalid prefix for channel mode %s: %c" (text name ∷ number prefix ∷ []))

-- One round of the loop, or a read behind the end of an empty argument.
unfoldable pub mode_round : Connection → Bytes → Changes → Option Changes
unfolding mode_named turn_on turn_off
mode_round con [] ch = none
mode_round con (prefix ∷ name) ch = some (by_prefix con prefix name ch (mode_named name))

-- `while (pkt)`, with fuel for the length of the packet.
unfoldable pub mode_loop : ℕ → Connection → Option Bytes → Changes → Option Changes
unfolding mode_round next_arg
mode_loop fuel con none ch = some ch
mode_loop zero con (some pkt) ch = none
mode_loop (suc fuel) con (some pkt) ch =
    let (word, rest) = next_arg (some pkt) in
    elim word [
      | none ↦ none
      | some arg ↦ elim (mode_round con arg ch) [
        | none ↦ none
        | some ch' ↦ mode_loop fuel con rest ch'
      ]
    ]

-- ` +NAME` or ` -NAME`, where the bit is in one of the masks.
unfoldable pub add_flag : Bytes → Mode → Mask → Mask → Bytes
unfolding has_bit
add_flag flag bit on off =
    if has_bit on bit || has_bit off bit
    then b' ' ∷ (if has_bit on bit then b'+' else b'-') ∷ flag
    else []

unfoldable pub mode_text : Mask → Mask → Bytes
unfolding add_flag
mode_text on off =
    add_flag (codes "PRIVATE") Mode.private on off
    ++ add_flag (codes "MODERATED") Mode.moderated on off
    ++ add_flag (codes "INVITE") Mode.invite on off
    ++ add_flag (codes "TOPIC") Mode.topic on off

abbrev pub any_bit : Mask → Bool
any_bit m = m.private || (m.moderated || (m.invite || m.topic))

-- The channel has its new flags in either case.
unfoldable pub mode_changed : Globals → Connection → ℕ → Chats → Bytes → ℕ → Changes → Told
unfolding mode_text notify_ops
mode_changed g con tag s sender c ch =
    let chan = with_modes (s.channel c) (ch.flags) in
    let message = mode_text (ch.on) (ch.off) in
    if any_bit (ch.on) || any_bit (ch.off)
    then tell (put s c (record chan { timestamp = g.current_time })) (
        ch.notes
        ++ notify_ops chan "%s changed mode on channel %s:%s"
            (text sender ∷ text (chan.name) ∷ text message ∷ [])
        ++ passed true tag ":%s %s %s" (text sender ∷ text (chan.name) ∷ text message ∷ []) ∷ [])
    else tell (put s c chan) (ch.notes)

abbrev pub shown : Bool → Bytes → Value
shown on name = text (if on then name else [])

-- The arguments that the four places of the format take; the fifth, of " +TOPIC", has none.
abbrev pub shown_modes : Channel → List Value
shown_modes chan =
    text (chan.name)
    ∷ shown (chan.hidden) (codes " +PRIVATE")
    ∷ shown (chan.moderated) (codes " +MODERATED")
    ∷ shown (chan.invite_only) (codes " +INVITE")
    ∷ []

-- `send_cmd_pre`: with the prefix, and as a MSG_SERVER_NOSUCH, to a client that does not read the
-- numerics.
abbrev pub show_modes : Connection → ℕ → Channel → List Output
show_modes unknown_con tag chan = []
show_modes server_con tag chan = []
show_modes (user_con user) tag chan =
    if user.numerics
    then sent tag "%s%s%s%s" (shown_modes chan) ∷ []
    else sent msg_nosuch "mode for channel %s%s%s%s" (shown_modes chan) ∷ []

abbrev pub start : Channel → Changes
start chan = record { flags = modes_of chan; on = no_bits; off = no_bits; notes = [] }

abbrev pub changed_to : Globals → Connection → ℕ → Chats → Bytes → ℕ → Option Changes → Option Told
changed_to g con tag s sender c none = none
changed_to g con tag s sender c (some ch) = some (mode_changed g con tag s sender c ch)

abbrev pub mode_args : Globals → Connection → ℕ → Chats → Bytes → Option Bytes → ℕ → Option Told
mode_args g con tag s sender none c = some (tell s (show_modes con tag (s.channel c)))
mode_args g con tag s sender (some pkt) c =
    changed_to g con tag s sender c
      (mode_loop (suc (length pkt)) con (some pkt) (start (s.channel c)))

-- A sender below the level of the channel, or without rights there, may not use the message.
unfoldable pub mode_refused : Channel → Option User → Bool
unfolding lacks_rights
mode_refused chan none = false
mode_refused chan (some user) = ltb (user.level) (chan.level) || lacks_rights chan (some user)

unfoldable pub mode_on :
    Globals → Connection → ℕ → Chats → Bytes → Option User → Option Bytes → Option ℕ → Option Told
unfolding mode_loop mode_changed mode_refused permission_denied
mode_on g con tag s sender user rest none = some (on_channel con s (λ c. tell s []) none)
mode_on g con tag s sender user rest (some c) =
    if mode_refused (s.channel c) user
    then some (tell s (permission_denied con))
    else mode_args g con tag s sender rest c

abbrev pub mode_channel :
    Globals
    → Connection
    → ℕ
    → Chats
    → Bytes
    → Option User
    → Option Bytes × Option Bytes
    → Option Told
mode_channel g con tag s sender user (none, rest) = some (tell s (unparsable con))
mode_channel g con tag s sender user (some name, rest) =
    mode_on g con tag s sender user rest (find s name)

-- The message 10209.
unfoldable pub channel_mode : Globals → Connection → ℕ → Bytes → Chats → Option Told
unfolding mode_on next_arg
channel_mode g con tag pkt s =
    with_sender g con pkt s
      (λ sender user rest. mode_channel g con tag s sender user (next_arg rest))
