-- ===== src/Channels/Reach.antt =====
-- handler.c: the messages on channels as steps of the server, and the states that they lead to.
use Prim.Native.String.{String}
use opennap.Base.{take, ℕ, ◌≡◌, subst, Bool, true, List, [], ◌∷◌, Option, none, some}
use opennap.Text.{Bytes}
use opennap.Args.{next_arg, next_arg_noskip, split_line}
use opennap.Server.{User, Connection, Globals}
use opennap.Channels.{Chats, Settings, Told, find, lacks_rights}
use opennap.Channels.Join.{Memory, join}
use opennap.Channels.Part.{part, kick, clear_channel}
use opennap.Channels.Bans.{channel_ban, channel_unban, channel_clear_bans}
use opennap.Channels.Modes.{channel_mode}
use opennap.Channels.Ops.{channel_op, channel_drop, channel_wallop, wallop_args, wallop_on}
use opennap.Channels.Voices.{channel_voice, channel_muzzle, channel_invite}
use opennap.Channels.Limits.{channel_level, channel_limit, topic}
use opennap.Channels.Talk.{
  Verdict, may, denied, check_permission, public, emote, speak, speak_checked, public_args,
  public_sent, emote_fields, emote_sent, crop_emote,
}
use opennap.Channels.Links.{
  IsLinked, Linked, Linked-if, LinkedResult, LinkedResult-if, with_user-Linked,
}
use opennap.Channels.Entering.{join-Linked}
use opennap.Channels.Partings.{part-Linked, kick-Linked, clear_channel-Linked}
use opennap.Channels.Changes.{
  channel_ban-Linked, channel_unban-Linked, channel_clear_bans-Linked, channel_mode-Linked,
  channel_level-Linked, channel_limit-Linked, topic-Linked,
}
use opennap.Channels.Quit.{World, client_quit, remove_nick}
use opennap.Channels.Forgetting.{client_quit-Linked, remove_nick-Linked}
use opennap.Channels.Ranks.{
  channel_op-Linked, channel_drop-Linked, channel_voice-Linked, channel_muzzle-Linked,
  channel_invite-Linked,
}

-- The handlers of the messages on channels that may write, and of those that speak.
pub data Handler : Type 0 where
  joining parting kicking clearing : Handler
  banning unbanning clearing_bans : Handler
  setting_mode setting_level setting_limit setting_topic : Handler
  opping dropping walloping voicing muzzling inviting : Handler
  speaking emoting : Handler

-- A message, with what the handlers take from around it.
pub record Received : Type 0 where
  pub con : Connection
  pub tag : ℕ
  pub pkt : Bytes
  pub fuel : ℕ
  pub memory : Memory
  pub ban_memory : Bool
  pub scratch : ℕ

unfoldable pub handle : Handler → Globals → Settings → Received → Chats → Option Told
handle joining g cfg r s = join r.fuel g cfg r.memory r.scratch r.con r.tag r.pkt s
handle parting g cfg r s = part g r.con r.tag r.pkt s
handle kicking g cfg r s = kick g r.con r.tag r.pkt s
handle clearing g cfg r s = clear_channel g r.con r.tag r.pkt s
handle banning g cfg r s = channel_ban g r.con r.tag r.ban_memory r.pkt s
handle unbanning g cfg r s = channel_unban g r.con r.tag r.pkt s
handle clearing_bans g cfg r s = channel_clear_bans g r.con r.tag r.pkt s
handle setting_mode g cfg r s = channel_mode g r.con r.tag r.pkt s
handle setting_level g cfg r s = channel_level r.con r.pkt s
handle setting_limit g cfg r s = channel_limit g r.con r.tag r.pkt s
handle setting_topic g cfg r s = topic cfg r.con r.tag r.pkt s
handle opping g cfg r s = channel_op g r.con r.tag r.pkt s
handle dropping g cfg r s = channel_drop g r.con r.tag r.pkt s
handle walloping g cfg r s = channel_wallop g r.con r.tag r.pkt s
handle voicing g cfg r s = channel_voice g r.con r.tag r.pkt s
handle muzzling g cfg r s = channel_muzzle g r.con r.tag r.pkt s
handle inviting g cfg r s = channel_invite g r.con r.tag r.pkt s
handle speaking g cfg r s = public g r.con r.tag r.pkt s
handle emoting g cfg r s = emote g r.con r.tag r.pkt s

speak-Linked :
    (con : Connection) (tag shown : ℕ) (fmt line : String) (s : Chats) (sender : User)
    (said : Bytes) (o : Option ℕ)
    → IsLinked s
    → Linked (speak con tag shown fmt line s sender said o)
unfolding speak
speak-Linked con tag shown fmt line s sender said none k = k
speak-Linked con tag shown fmt line s sender said (some c) k =
    by_verdict (check_permission (s.channel c) sender)
  where
    by_verdict :
        (v : Verdict) → Linked (speak_checked tag shown fmt line s sender (s.channel c) said v)
    by_verdict may = k
    by_verdict (denied outputs) = k

public-Linked :
    (g : Globals) (con : Connection) (tag : ℕ) (pkt : Bytes) (s : Chats)
    → IsLinked s
    → LinkedResult (public g con tag pkt s)
unfolding public
public-Linked g con tag pkt s k =
    with_user-Linked g con pkt s _ k
      (λ sender rest. LinkedResult-if (sender.muzzled) _ _ k (by_rest sender rest))
  where
    by_args : (sender : User) (a : Bytes × Option Bytes) → Linked (public_args con tag s sender a)
    by_args sender (name, none) = k
    by_args sender (name, some said) = speak-Linked con tag 403 _ _ s sender said _ k

    by_rest :
        (sender : User) (rest : Option Bytes) → LinkedResult (public_sent con tag s sender rest)
    by_rest sender none = tt
    by_rest sender (some rest) = by_args sender (next_arg_noskip (take 180 rest))

emote-Linked :
    (g : Globals) (con : Connection) (tag : ℕ) (pkt : Bytes) (s : Chats)
    → IsLinked s
    → LinkedResult (emote g con tag pkt s)
unfolding emote
emote-Linked g con tag pkt s k =
    with_user-Linked g con pkt s _ k
      (λ sender rest. LinkedResult-if (sender.muzzled) _ _ k (by_rest sender rest))
  where
    by_fields : (sender : User) (l : Option (List Bytes)) → Linked (emote_fields con tag s sender l)
    by_fields sender none = k
    by_fields sender (some []) = k
    by_fields sender (some (name ∷ [])) = k
    by_fields sender (some (name ∷ said ∷ l)) = speak-Linked con tag tag _ _ s sender said _ k

    by_rest :
        (sender : User) (rest : Option Bytes) → LinkedResult (emote_sent con tag s sender rest)
    by_rest sender none = tt
    by_rest sender (some rest) = by_fields sender (split_line 2 (crop_emote rest))

channel_wallop-Linked :
    (g : Globals) (con : Connection) (tag : ℕ) (pkt : Bytes) (s : Chats)
    → IsLinked s
    → LinkedResult (channel_wallop g con tag pkt s)
unfolding channel_wallop
channel_wallop-Linked g con tag pkt s k =
    with_user-Linked g con pkt s _ k
      (λ sender rest. Linked-if (sender.muzzled) _ _ (λ e. k) (λ e. by_args sender (next_arg rest)))
  where
    by_channel :
        (sender : User) (more : Bytes) (o : Option ℕ) → Linked (wallop_on con tag s sender more o)
    by_channel sender more none = k
    by_channel sender more (some c) =
        Linked-if (lacks_rights (s.channel c) (some sender)) _ _ (λ e. k) (λ e. k)

    by_args :
        (sender : User) (a : Option Bytes × Option Bytes) → Linked (wallop_args con tag s sender a)
    by_args sender (none, none) = k
    by_args sender (none, some more) = k
    by_args sender (some name, none) = k
    by_args sender (some name, some more) = by_channel sender more (find s name)

-- Every message on channels keeps the links of members and channels, where the entry of a channel
-- that a join makes can be allocated.
pub handle-Linked :
    (h : Handler) (g : Globals) (cfg : Settings) (r : Received) (s : Chats)
    → r.memory.entry ≡ true
    → IsLinked s
    → LinkedResult (handle h g cfg r s)
unfolding handle
handle-Linked joining g cfg r s e k =
    join-Linked r.fuel g cfg r.memory r.scratch r.con r.tag r.pkt s e k
handle-Linked parting g cfg r s e k = part-Linked g r.con r.tag r.pkt s k
handle-Linked kicking g cfg r s e k = kick-Linked g r.con r.tag r.pkt s k
handle-Linked clearing g cfg r s e k = clear_channel-Linked g r.con r.tag r.pkt s k
handle-Linked banning g cfg r s e k = channel_ban-Linked g r.con r.tag r.ban_memory r.pkt s k
handle-Linked unbanning g cfg r s e k = channel_unban-Linked g r.con r.tag r.pkt s k
handle-Linked clearing_bans g cfg r s e k = channel_clear_bans-Linked g r.con r.tag r.pkt s k
handle-Linked setting_mode g cfg r s e k = channel_mode-Linked g r.con r.tag r.pkt s k
handle-Linked setting_level g cfg r s e k = channel_level-Linked r.con r.pkt s k
handle-Linked setting_limit g cfg r s e k = channel_limit-Linked g r.con r.tag r.pkt s k
handle-Linked setting_topic g cfg r s e k = topic-Linked cfg r.con r.tag r.pkt s k
handle-Linked opping g cfg r s e k = channel_op-Linked g r.con r.tag r.pkt s k
handle-Linked dropping g cfg r s e k = channel_drop-Linked g r.con r.tag r.pkt s k
handle-Linked walloping g cfg r s e k = channel_wallop-Linked g r.con r.tag r.pkt s k
handle-Linked voicing g cfg r s e k = channel_voice-Linked g r.con r.tag r.pkt s k
handle-Linked muzzling g cfg r s e k = channel_muzzle-Linked g r.con r.tag r.pkt s k
handle-Linked inviting g cfg r s e k = channel_invite-Linked g r.con r.tag r.pkt s k
handle-Linked speaking g cfg r s e k = public-Linked g r.con r.tag r.pkt s k
handle-Linked emoting g cfg r s e k = emote-Linked g r.con r.tag r.pkt s k

abbrev pub Leaves : Option Told → Chats → Type 0
Leaves none s = ⊥
Leaves (some t) s = t.chats ≡ s

-- A message is handled, or an entry of the table of the users is destroyed with the user, which the
-- end of a connection, a kill and the end of a server do. Between messages the globals may change.
pub data Step : Chats → Chats → Type 0 where
  handled :
      {s s' : Chats} (h : Handler) (g : Globals) (cfg : Settings) (r : Received)
      → r.memory.entry ≡ true
      → Leaves (handle h g cfg r s) s'
      → Step s s'
  quitting :
      (g : Globals) (con : Connection) (tag : ℕ) (pkt : Bytes) (w : World)
      → Step (w.chats) (client_quit g con tag pkt w).1.world.chats
  departing :
      (g : Globals) (nick : Bytes) (w : World) → Step (w.chats) (remove_nick g nick w).1.world.chats

pub data Reach (s : Chats) : Chats → Type 0 where
  at_start : Reach s s
  by_step : {t u : Chats} → Reach s t → Step t u → Reach s u

leaves-IsLinked : (o : Option Told) (s : Chats) → Leaves o s → LinkedResult o → IsLinked s
leaves-IsLinked none s l k = absurd l
leaves-IsLinked (some t) s l k = subst IsLinked l k

Step-IsLinked : {s t : Chats} → Step s t → IsLinked s → IsLinked t
Step-IsLinked {t = t} (handled {s = m} h g cfg msg e l) k =
    leaves-IsLinked (handle h g cfg msg m) t l (handle-Linked h g cfg msg m e k)
Step-IsLinked (quitting g con tag pkt w) k = client_quit-Linked g con tag pkt w k
Step-IsLinked (departing g nick w) k = remove_nick-Linked g nick w k

-- Whatever messages are handled, and whichever users go, from a state in which members and channels
-- are linked: in every state that is reached a user is a member of a channel exactly as often as the
-- channel is in the list of the user, which is at most once, and a channel that a user has joined is
-- the one that the table has under its name. The entries of new channels can be allocated.
pub Reach-IsLinked : {s t : Chats} → IsLinked s → Reach s t → IsLinked t
Reach-IsLinked k at_start = k
Reach-IsLinked k (by_step r step) = Step-IsLinked step (Reach-IsLinked k r)
