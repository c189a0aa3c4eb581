-- ===== src/Channels/Hearing.antt =====
-- public.c: who is sent what is said on a channel.
use opennap.Base.{Bool, ◌||◌, not, List, [], ◌∷◌, leb, if◌then◌else◌}
use Prim.Native.String.{String}
use opennap.Text.{Bytes}
use opennap.Server.{User, Output, sent, passed, mods_notified, sent_to, level_moderator}
use opennap.Channels.{Member, Channel, to_user}

-- The nicks that outputs are sent to.
unfoldable pub recipients : List Output → List Bytes
recipients [] = []
recipients (sent tag fmt args ∷ l) = recipients l
recipients (passed skip tag fmt args ∷ l) = recipients l
recipients (mods_notified mode fmt args ∷ l) = recipients l
recipients (sent_to nick tag fmt args ∷ l) = nick ∷ recipients l

-- The nicks of the members of this server.
unfoldable pub local_nicks : List Member → List Bytes
local_nicks [] = []
local_nicks (m ∷ l) = let more = local_nicks l in if m.user.local then m.user.nick ∷ more else more

-- Whether a member may speak: from the level of a moderator on, or as an operator of the channel;
-- else with a voice where the channel is moderated, and where it is not, unless muzzled.
abbrev pub has_say : Channel → User → Member → Bool
has_say chan sender m =
    leb level_moderator (sender.level)
    || (m.operator || (if chan.moderated then m.voice else not (m.muzzled)))

abbrev refusal : Channel → User → List Output
refusal chan sender =
    to_user sender 404
      (if chan.moderated
        then "permission denied: channel is moderated"
        else "permission denied: muzzled on channel")
      []
