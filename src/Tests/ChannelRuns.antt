-- ===== src/Tests/ChannelRuns.antt =====
-- Users that make a channel, join it, speak on it and leave it.
use opennap.Base.{ℕ, ◌≡◌, refl, arith, true, false, none, some, pos, [], ◌∷◌, Option, inl}
use opennap.Text.{Bytes, codes}
use opennap.Hash.{HashTable, hash_init, hash_lookup}
use opennap.Hash.Laws.{hash_init_lem}
use opennap.LinkedList.Laws.{count}
use opennap.Server.{pop_user, User, user_con, Globals}
use opennap.Channels.{Channel, Chats, Settings, Told, addresses}
use opennap.Channels.Join.{Memory, join}
use opennap.Channels.Part.{part}
use opennap.Channels.Links.{IsLinked}
use opennap.Channels.Reach.{
  joining, parting, Received, handle, Reach, at_start, by_step, handled, Reach-IsLinked,
}

abbrev user_at : Bytes → ℕ → ℕ → User
user_at nick' level' address' = record {
  nick = nick';
  level = level';
  local = true;
  muzzled = false;
  cloaked = false;
  speed = 5;
  address = address';
  shared = 0;
  host = codes "10.0.0.1";
  numerics = false;
}

abbrev pub amy : User
amy = user_at (codes "amy") 1 1

abbrev pub bob : User
bob = user_at (codes "bob") 1 2

abbrev pub globals : Globals
globals = record {
  users = none;
  servers = [];
  server_links = [];
  server_name = codes "hub";
  current_time = 100;
  max_reason = pos 64;
  max_nick_length = pos 19;
}

abbrev settings : Settings
settings = record {
  max_channel_length = pos 24;
  max_user_channels = 5;
  default_limit = 0;
  max_topic = pos 64;
  strict_channels = false;
}

abbrev all_ok : Memory
all_ok = record {
  object = true;
  name = true;
  topic = true;
  entry = true;
  own_node = true;
  user_node = true;
}

abbrev no_channel : Channel
no_channel = record {
  name = [];
  topic = [];
  ops = [];
  users = [];
  limit = 0;
  level = 0;
  bans = [];
  timestamp = 0;
  invited = [];
  user_made = false;
  hidden = false;
  moderated = false;
  invite_only = false;
  open_topic = false;
}

abbrev pub table : HashTable ℕ
table = record { bucket = [] ∷ [] ∷ [] ∷ []; numbuckets = 3; dbsize = 0; destroy = true }

abbrev no_channels : Chats
no_channels = record {
  table = table;
  channel = λ c. no_channel;
  joined = λ u. [];
  invitations = λ u. [];
  next = 0;
}

no_channels-IsLinked : IsLinked no_channels
unfolding hash_init count
no_channels-IsLinked =
    let (valid, nothing) = hash_init_lem 3 true table (omega arith) refl in
    record {
      valid = valid;
      both = λ u c. refl;
      once = λ u c. omega arith;
      fresh = λ u c more. refl;
      entry = λ k. inl (nothing k);
      listed = λ u c joined. absurd (omega arith);
    }

abbrev message : User → ℕ → Bytes → Received
message user tag' pkt' = record {
  con = user_con user;
  tag = tag';
  pkt = pkt';
  fuel = 5;
  memory = all_ok;
  ban_memory = true;
  scratch = 20;
}

abbrev left_by : Option Told → Chats
left_by none = no_channels
left_by (some t) = t.chats

abbrev amy_joins : Chats
amy_joins = left_by (handle joining globals settings (message amy 400 (codes "tea")) no_channels)

abbrev pub bob_joins : Chats
bob_joins = left_by (handle joining globals settings (message bob 400 (codes "#TEA")) amy_joins)

amy_parts : Chats
amy_parts = left_by (handle parting globals settings (message amy 401 (codes "#tea")) bob_joins)

two_members : addresses ((bob_joins.channel 0).users) ≡ 2 ∷ 1 ∷ []
unfolding handle join pop_user hash_lookup
two_members = refl

amy_has_left :
    (addresses ((amy_parts.channel 0).users) ≡ 2 ∷ [])
    × (amy_parts.joined 1 ≡ [])
    × (amy_parts.joined 2 ≡ 0 ∷ [])
unfolding amy_parts handle join part pop_user hash_lookup
amy_has_left = (refl, refl, refl)

two_steps : Reach no_channels bob_joins
unfolding handle join pop_user hash_lookup
two_steps =
    by_step {t = amy_joins} {u = bob_joins}
      (by_step {t = no_channels} {u = amy_joins} at_start (
        handled {s = no_channels} {s' = amy_joins} joining globals settings
          (message amy 400 (codes "tea")) refl refl))
      (handled {s = amy_joins} {s' = bob_joins} joining globals settings
        (message bob 400 (codes "#TEA")) refl refl)

three_steps : Reach no_channels amy_parts
unfolding amy_parts handle join part pop_user hash_lookup
three_steps = by_step {t = bob_joins} {u = amy_parts} two_steps (
    handled {s = bob_joins} {s' = amy_parts} parting globals settings
      (message amy 401 (codes "#tea")) refl refl)

Reach-IsLinked_example : IsLinked amy_parts
Reach-IsLinked_example = Reach-IsLinked no_channels-IsLinked three_steps

pub bob_joins-IsLinked : IsLinked bob_joins
bob_joins-IsLinked = Reach-IsLinked no_channels-IsLinked two_steps
