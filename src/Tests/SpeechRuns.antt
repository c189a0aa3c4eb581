-- ===== src/Tests/SpeechRuns.antt =====
-- A channel with a limit, an operator and a ban: who gets in, who is heard, and what is passed on.
use opennap.Base.{
  replicate, ◌++◌, length, ◌≤◌, ℕ, ◌≡◌, refl, arith, Bool, true, false, none, some, pos, [], ◌∷◌,
  Option, ◌==◌, if◌then◌else◌,
}
use opennap.Text.{Bytes, codes, is_space, to_lower}
use opennap.Hash.{hash_lookup}
use opennap.Server.{User, user_con, server_con, Globals, pop_user_server}
use opennap.Channels.{Channel, Member, Chats, Settings, Told, is_chanop}
use opennap.Channels.Names.{rollover, split_number}
use opennap.Channels.Join.{Memory, join_round, join_loop}
use opennap.Channels.Rollover.{length-rollover}
use opennap.Channels.Rolling.{rolled, join_loop-rolled, join_loop-rollover_same}
use opennap.Channels.Modes.{
  Mode, no_bits, has_bit, Changes, mode_loop, start, channel_mode, mode_on,
}
use opennap.Channels.Ops.{nicks}
use opennap.Args.{next_arg, skip_spaces, split_at, is_delimiter}
use opennap.Channels.Replay.{
  replayed, signs, signs_for, mode_loop-replayed, mode_loop-replayed_twice,
}
use opennap.Channels.Reach.{setting_mode, handle, Received}
use opennap.Channels.Rights.{handle-NeedsRights}
use opennap.Channels.Admission.{Admitted, join_round-Admits}

abbrev user_at : Bytes → ℕ → ℕ → User
user_at nick' level' address' = record {
  nick = nick';
  level = level';
  local = true;
  muzzled = false;
  cloaked = false;
  speed = 5;
  address = address';
  shared = 0;
  host = codes "10.0.0.1";
  numerics = false;
}

abbrev amy : User
amy = user_at (codes "amy") 1 1

abbrev bob : User
bob = user_at (codes "bob") 1 2

abbrev globals : Globals
globals = record {
  users = none;
  servers = [];
  server_links = [];
  server_name = codes "hub";
  current_time = 100;
  max_reason = pos 64;
  max_nick_length = pos 19;
}

abbrev settings : Settings
settings = record {
  max_channel_length = pos 24;
  max_user_channels = 5;
  default_limit = 0;
  max_topic = pos 64;
  strict_channels = false;
}

abbrev all_ok : Memory
all_ok = record {
  object = true;
  name = true;
  topic = true;
  entry = true;
  own_node = true;
  user_node = true;
}

abbrev member : User → Bool → Member
member user' on = record { user = user'; operator = on; voice = false; muzzled = false }

-- A predefined channel for one user, with a member who is no operator.
abbrev tea : Channel
tea = record {
  name = codes "#tea";
  topic = [];
  ops = codes "ann" ∷ [];
  users = member bob false ∷ [];
  limit = 1;
  level = 1;
  bans = [];
  timestamp = 0;
  invited = [];
  user_made = false;
  hidden = false;
  moderated = true;
  invite_only = false;
  open_topic = false;
}

abbrev full_tea : Chats
full_tea = record {
  table = record {
    bucket = (record { key = codes "#tea"; datum = 0 } ∷ []) ∷ [];
    numbuckets = 1;
    dbsize = 1;
    destroy = true;
  };
  channel = λ c. tea;
  joined = λ u. if u == 2 then 0 ∷ [] else [];
  invitations = λ u. [];
  next = 1;
}

join_loop-rolled_example :
    (t : Told) × (join_loop 2 globals settings all_ok 20
        (user_con amy)
        400
        full_tea
        amy
        (codes "#tea")
      ≡ some t)
unfolding rolled rollover hash_lookup
join_loop-rolled_example =
    join_loop-rolled 1 2 globals settings all_ok 20 (user_con amy) 400 full_tea amy (codes "#tea")
      (codes "#tea1") refl refl (omega arith)

-- The rollover of a name of 254 letters and a digit is written behind the end where `Buf` is empty.
long_name : rollover 0 (replicate 254 b'a' ++ codes "9") ≡ none
unfolding rollover split_number is_space
long_name = refl

length-rollover_example :
    (next : Bytes) × (rollover 20 (codes "#tea41") ≡ some next) × (length next ≤ 18)
length-rollover_example = length-rollover 20 (codes "#tea41") (omega arith)

join_loop-rollover_same_example :
    (codes "#tea" ≡ codes "#tea")
    × (join_loop 1000 globals settings all_ok 256 (user_con amy) 400 full_tea amy (codes "#tea")
        ≡ none)
unfolding split_number join_round hash_lookup
join_loop-rollover_same_example =
    join_loop-rollover_same 1000 globals settings all_ok 256 (user_con amy) 400 full_tea amy
      (codes "#tea") (codes "#tea") (omega arith) refl refl refl

-- An operator of the list gets in although the channel is full.
abbrev ann : User
ann = user_at (codes "Ann") 1 3

join_round-Admits_example : (full_tea ≡ full_tea) × (◌≡◌ {A = ℕ} 0 0) × Admitted full_tea 0 ann true
unfolding join_round hash_lookup
join_round-Admits_example =
    join_round-Admits globals settings all_ok 20 (user_con ann) full_tea full_tea ann (codes "#Tea")
      0 0 true refl refl

-- `+INVITE -MODERATED` on a channel that is moderated and open.
abbrev changed : Changes
changed = record {
  flags = record { private = false; moderated = false; invite = true; topic = false };
  on = record { private = false; moderated = false; invite = true; topic = false };
  off = record { private = false; moderated = true; invite = false; topic = false };
  notes = [];
}

mode_loop-replayed_example :
    replayed true (has_bit (changed.on) Mode.moderated) (has_bit (changed.off) Mode.moderated)
    ≡ has_bit (changed.flags) Mode.moderated
unfolding mode_loop signs_for signs nicks has_bit skip_spaces is_space split_at is_delimiter
    to_lower
mode_loop-replayed_example =
    mode_loop-replayed 20 Mode.moderated (user_con amy) (some (codes "+INVITE -MODERATED"))
      (start tea) changed (refl, refl) (omega arith) refl

abbrev twice : Changes
twice = record {
  flags = record { private = false; moderated = true; invite = true; topic = false };
  on = no_bits;
  off = no_bits;
  notes = [];
}

mode_loop-replayed_twice_example :
    (has_bit (twice.flags) Mode.invite ≡ true)
    × (replayed false (has_bit (twice.on) Mode.invite) (has_bit (twice.off) Mode.invite) ≡ false)
unfolding mode_loop signs_for signs nicks has_bit skip_spaces is_space split_at is_delimiter
    to_lower
mode_loop-replayed_twice_example =
    mode_loop-replayed_twice 20 Mode.invite (user_con amy) (some (codes "+INVITE +INVITE"))
      (start tea) twice (refl, refl) refl refl refl

abbrev message : Bytes → Received
message pkt' = record {
  con = server_con;
  tag = 10209;
  pkt = pkt';
  fuel = 5;
  memory = all_ok;
  ban_memory = true;
  scratch = 20;
}

abbrev left_by : Option Told → Chats
left_by none = full_tea
left_by (some t) = t.chats

handle-NeedsRights_example :
    (left_by (
        handle setting_mode globals settings
          (record (message (codes "#tea +PRIVATE")) { con = user_con bob })
          full_tea)).channel
      0
    ≡ tea
unfolding is_chanop handle channel_mode pop_user_server next_arg hash_lookup mode_on skip_spaces
    is_space split_at is_delimiter
handle-NeedsRights_example =
    handle-NeedsRights globals bob full_tea 0 refl refl setting_mode settings
      (message (codes "#tea +PRIVATE")) tt
