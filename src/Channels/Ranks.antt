-- ===== src/Channels/Ranks.antt =====
-- channel.c: the messages that change what members may do, that drop a channel and that invite, and
-- the invariant of the links.
use opennap.Base.{
  ℕ, ◌≡◌, refl, ◌∙◌, inl, inr, Bool, true, false, ◌||◌, not, ltb, List, [], ◌∷◌, Option, none, some,
  arith, if◌then◌else◌, ◌==◌, Bool-cases,
}
use opennap.Text.{Bytes}
use opennap.Hash.{hash_lookup}
use opennap.Args.{next_arg}
use opennap.Server.{User, Connection, Globals, fields, level_moderator, invalid_nick}
use opennap.Channels.{
  Member, Channel, Chats, Told, addresses, null_list, has, find, is_there, find_chanuser, is_member,
  lacks_rights,
}
use opennap.Channels.Ops.{
  Named, with_operator, with_operators, is_op, take_rights, give_rights, op_nick, op_nicks, op_on,
  op_args, op_sent, channel_op, is_below_moderator, msg_op, msg_deop, words, drop_on, drop_fields,
  channel_drop, second,
}
use opennap.Channels.Voices.{
  voice_member, voice_found, voice_user, voice_nicks, voice_on, voice_args, channel_voice,
  muzzle_member, muzzle_found, muzzle_user, muzzle_on, nick_fields, channel_muzzle, is_under,
  list_invitation, invite_user, invite_on, channel_invite,
}
use opennap.Channels.Bans.{given}
use opennap.Channels.Links.{
  IsLinked, Linked, Linked-if, LinkedResult, with_user-Linked, with_sender-Linked,
  on_channel-Linked, put-IsLinked, find_lem, addresses-change_member,
}
use opennap.Channels.Leaving.{destroy_channel-IsLinked, null_list→[]}

-- The name of the channel and the users of its members are as they were.
abbrev Keeps : Channel → Channel → Type 0
Keeps chan chan' = (chan'.name ≡ chan.name) × (addresses (chan'.users) ≡ addresses (chan.users))

abbrev Kept : Channel → Named → Type 0
Kept chan n = Keeps chan (n.channel)

Kept-if :
    (chan : Channel) (b : Bool) (x y : Named)
    → Kept chan x
    → Kept chan y
    → Kept chan (if b then x else y)
Kept-if chan true x y h k = h
Kept-if chan false x y h k = k

with_operators-Keeps :
    (chan : Channel) (on : Bool) (user : User) → Keeps chan (with_operators chan on user)
with_operators-Keeps chan on user =
    (refl, addresses-change_member (with_operator on) (chan.users) user (λ m. refl))

take_rights-Kept :
    (sender : Bytes) (chan : Channel) (o : Option User) → Kept chan (take_rights sender chan o)
unfolding take_rights
take_rights-Kept sender chan none = (refl, refl)
take_rights-Kept sender chan (some user) =
    Kept-if chan (is_there (find_chanuser (chan.users) user)) _ _
      (with_operators-Keeps chan false user) (refl, refl)

give_rights-Kept :
    (sender : Bytes) (chan : Channel) (nick : Bytes) (o : Option User)
    → Kept chan (give_rights sender chan nick o)
unfolding give_rights
give_rights-Kept sender chan nick none = (refl, refl)
give_rights-Kept sender chan nick (some user) =
    Kept-if chan (is_there (find_chanuser (chan.users) user)) _ _
      (with_operators-Keeps chan true user) (refl, refl)

op_nick-Kept :
    (g : Globals) (con : Connection) (tag : ℕ) (sender : Bytes) (chan : Channel) (nick : Bytes)
    → Kept chan (op_nick g con tag sender chan nick)
unfolding op_nick
op_nick-Kept g con tag sender chan nick =
    Kept-if chan (invalid_nick g nick) _ _ (refl, refl)
      (Kept-if chan (is_op (chan.ops) nick) _ _
        (Kept-if chan (tag == msg_deop) _ _ (take_rights-Kept sender _ (hash_lookup (g.users) nick))
          (refl, refl))
        (Kept-if chan (tag == msg_op) _ _
          (give_rights-Kept sender _ nick (hash_lookup (g.users) nick)) (refl, refl)))

op_nicks-Kept :
    (g : Globals) (con : Connection) (tag : ℕ) (sender : Bytes) (chan : Channel) (l : List Bytes)
    → Kept chan (op_nicks g con tag sender chan l)
unfolding op_nicks
op_nicks-Kept g con tag sender chan [] = (refl, refl)
op_nicks-Kept g con tag sender chan (nick ∷ l) =
    let (n, u) = op_nick-Kept g con tag sender chan nick in
    let (m, v) = op_nicks-Kept g con tag sender ((op_nick g con tag sender chan nick).channel) l in
    (m ∙ n, v ∙ u)

op_sent-Linked :
    (g : Globals) (con : Connection) (tag : ℕ) (s : Chats) (nick : Bytes) (user : Option User)
    (rest : Option Bytes)
    → IsLinked s
    → Linked (op_sent g con tag s nick user rest)
unfolding op_sent op_on
op_sent-Linked g con tag s nick user rest k =
    Linked-if (is_below_moderator user) _ _ (λ e. k) (λ e. by_args (next_arg rest))
  where
    by_args : (a : Option Bytes × Option Bytes) → Linked (op_args g con tag s nick a)
    by_args (none, none) = k
    by_args (none, some more) = k
    by_args (some name, none) = k
    by_args (some name, some more) = on_channel-Linked con s _ (find s name) k (λ c e.
        let (n, u) = op_nicks-Kept g con tag nick (s.channel c) (words more) in
        put-IsLinked s c _ n u k)

pub channel_op-Linked :
    (g : Globals) (con : Connection) (tag : ℕ) (pkt : Bytes) (s : Chats)
    → IsLinked s
    → LinkedResult (channel_op g con tag pkt s)
unfolding channel_op
channel_op-Linked g con tag pkt s k =
    with_sender-Linked g con pkt s _ k
      (λ nick user rest. op_sent-Linked g con tag s nick user rest k)

drop_on-Linked :
    (con : Connection) (tag : ℕ) (s : Chats) (sender : User) (why name : Bytes) (c : ℕ)
    → find s name ≡ some c
    → IsLinked s
    → Linked (drop_on con tag s sender why c)
unfolding drop_on
drop_on-Linked con tag s sender why name c found k =
    Linked-if ((s.channel c).user_made) _ _ (λ e. k)
      (λ e.
        Linked-if (ltb (sender.level) level_moderator || ltb (sender.level) ((s.channel c).level)) _
          _ (λ f. k)
          (λ f. elim (Bool-cases (null_list ((s.channel c).users))) [
            | inl h ↦ rw h (
                destroy_channel-IsLinked s c (null_list→[] ((s.channel c).users) h) k
                  (find_lem s name c k found).0)
            | inr h ↦ rw h (put-IsLinked s c _ refl refl k)
          ]))

drop_fields-Linked :
    (con : Connection) (tag : ℕ) (s : Chats) (sender : User) (l : Option (List Bytes))
    → IsLinked s
    → Linked (drop_fields con tag s sender l)
drop_fields-Linked con tag s sender none k = k
drop_fields-Linked con tag s sender (some []) k = k
drop_fields-Linked con tag s sender (some (name ∷ l)) k =
    on_channel-Linked con s _ (find s name) k
      (λ c e. drop_on-Linked con tag s sender (second l) name c e k)

pub channel_drop-Linked :
    (g : Globals) (con : Connection) (tag : ℕ) (pkt : Bytes) (s : Chats)
    → IsLinked s
    → LinkedResult (channel_drop g con tag pkt s)
unfolding channel_drop
channel_drop-Linked g con tag pkt s k =
    with_user-Linked g con pkt s _ k
      (λ sender rest. drop_fields-Linked con tag s sender (fields 2 rest) k)

voice_member-user : (tag : ℕ) (m : Member) → (voice_member tag m).user ≡ m.user
unfolding voice_member
voice_member-user tag m = ground arith

muzzle_member-user : (tag : ℕ) (m : Member) → (muzzle_member tag m).user ≡ m.user
unfolding muzzle_member
muzzle_member-user tag m = ground arith

voice_nicks-Kept :
    (g : Globals) (con : Connection) (tag : ℕ) (name : Bytes) (sender : Option User)
    (chan : Channel) (l : List Bytes)
    → Kept chan (voice_nicks g con tag name sender chan l)
unfolding voice_nicks
voice_nicks-Kept g con tag name sender chan [] = (refl, refl)
voice_nicks-Kept g con tag name sender chan (nick ∷ l) =
    let (n, u) = by_user (hash_lookup (g.users) nick) in
    let next : Named = voice_user con tag name sender chan nick (hash_lookup (g.users) nick) in
    let (m, v) = voice_nicks-Kept g con tag name sender (next.channel) l in (m ∙ n, v ∙ u)
  where
    by_member :
        (user : User) (o : Option Member) → Kept chan (voice_found con tag name sender chan user o)
    by_member user none = (refl, refl)
    by_member user (some m) =
        (refl, addresses-change_member (voice_member tag) (chan.users) user (voice_member-user tag))

    by_user : (o : Option User) → Kept chan (voice_user con tag name sender chan nick o)
    by_user none = (refl, refl)
    by_user (some user) = by_member user (find_chanuser (chan.users) user)

pub channel_voice-Linked :
    (g : Globals) (con : Connection) (tag : ℕ) (pkt : Bytes) (s : Chats)
    → IsLinked s
    → LinkedResult (channel_voice g con tag pkt s)
unfolding channel_voice voice_on
channel_voice-Linked g con tag pkt s k =
    with_sender-Linked g con pkt s _ k (λ nick user rest. by_args nick user (next_arg rest))
  where
    by_rest :
        (nick : Bytes) (user : Option User) (rest : Option Bytes) (c : ℕ)
        → Linked (voice_on g con tag s nick user rest c)
    by_rest nick user none c = k
    by_rest nick user (some rest) c =
        Linked-if (lacks_rights (s.channel c) user) _ _ (λ e. k)
          (λ e.
            let (n, u) = voice_nicks-Kept g con tag nick user (s.channel c) (words rest) in
            put-IsLinked s c _ n u k)

    by_args :
        (nick : Bytes) (user : Option User) (a : Option Bytes × Option Bytes)
        → Linked (voice_args g con tag s nick user a)
    by_args nick user (none, rest) = k
    by_args nick user (some name, rest) =
        on_channel-Linked con s _ (find s name) k (λ c e. by_rest nick user rest c)

-- Messages with a channel, a nick and more.
nick_fields-Linked :
    (con : Connection) (s : Chats) (k : Bytes → Option Bytes → ℕ → Told) (l : Option (List Bytes))
    → IsLinked s
    → ((nick : Bytes) (more : Option Bytes) (c : ℕ) → Linked (k nick more c))
    → Linked (nick_fields con s k l)
nick_fields-Linked con s k none h keeps = h
nick_fields-Linked con s k (some []) h keeps = h
nick_fields-Linked con s k (some (name ∷ [])) h keeps = h
nick_fields-Linked con s k (some (name ∷ nick ∷ l)) h keeps =
    on_channel-Linked con s _ (find s name) h (λ c e. keeps nick (given l) c)

muzzle_user-Linked :
    (con : Connection) (tag : ℕ) (s : Chats) (name : Bytes) (sender : Option User) (why : Bytes)
    (c : ℕ) (o : Option User)
    → IsLinked s
    → Linked (muzzle_user con tag s name sender why c o)
unfolding muzzle_user
muzzle_user-Linked con tag s name sender why c none k = k
muzzle_user-Linked con tag s name sender why c (some user) k =
    Linked-if (is_under sender user) _ _ (λ e. k)
      (λ e.
        let (n, u) = by_member (find_chanuser ((s.channel c).users) user) in
        put-IsLinked s c _ n u k)
  where
    by_member :
        (o : Option Member)
        → Kept (s.channel c) (muzzle_found tag name sender (s.channel c) user why o)
    by_member none = (refl, refl)
    by_member (some m) = (
      refl,
      addresses-change_member (muzzle_member tag) ((s.channel c).users) user
          (muzzle_member-user tag),
    )

muzzle_on-Linked :
    (g : Globals) (con : Connection) (tag : ℕ) (s : Chats) (name : Bytes) (sender : Option User)
    (nick : Bytes) (more : Option Bytes) (c : ℕ)
    → IsLinked s
    → Linked (muzzle_on g con tag s name sender nick more c)
unfolding muzzle_on
muzzle_on-Linked g con tag s name sender nick more c k =
    Linked-if (lacks_rights (s.channel c) sender) _ _ (λ e. k)
      (λ e. muzzle_user-Linked con tag s name sender _ c (hash_lookup (g.users) nick) k)

pub channel_muzzle-Linked :
    (g : Globals) (con : Connection) (tag : ℕ) (pkt : Bytes) (s : Chats)
    → IsLinked s
    → LinkedResult (channel_muzzle g con tag pkt s)
unfolding channel_muzzle
channel_muzzle-Linked g con tag pkt s k = with_sender-Linked g con pkt s _ k (λ name sender rest.
    nick_fields-Linked con s (muzzle_on g con tag s name sender) (fields 3 rest) k
      (λ nick more c. muzzle_on-Linked g con tag s name sender nick more c k))

list_invitation-IsLinked :
    (s : Chats) (c : ℕ) (user : User) → IsLinked s → IsLinked (list_invitation s c user)
unfolding list_invitation
list_invitation-IsLinked s c user k =
    let p =
      put-IsLinked s c (record (s.channel c) { invited = user.address ∷ (s.channel c).invited })
        refl refl k in
    record {
      valid = p.valid;
      both = p.both;
      once = p.once;
      fresh = p.fresh;
      entry = p.entry;
      listed = p.listed;
    }

invite_user-Linked :
    (con : Connection) (tag : ℕ) (s : Chats) (sender : User) (c : ℕ) (o : Option User)
    → IsLinked s
    → Linked (invite_user con tag s sender c o)
unfolding invite_user
invite_user-Linked con tag s sender c none k = k
invite_user-Linked con tag s sender c (some user) k =
    Linked-if (is_member (s.channel c) user) _ _ (λ e. k)
      (λ e.
        Linked-if (has (s.invitations (user.address)) c) _ _ (λ f. k)
          (λ f. list_invitation-IsLinked s c user k))

invite_on-Linked :
    (g : Globals) (con : Connection) (tag : ℕ) (s : Chats) (sender : User) (nick : Bytes)
    (more : Option Bytes) (c : ℕ)
    → IsLinked s
    → Linked (invite_on g con tag s sender nick more c)
unfolding invite_on
invite_on-Linked g con tag s sender nick more c k =
    Linked-if (not ((s.channel c).invite_only)) _ _ (λ e. k)
      (λ e.
        Linked-if (ltb (sender.level) ((s.channel c).level) || not (is_member (s.channel c) sender))
          _ _ (λ f. k) (λ f. invite_user-Linked con tag s sender c (hash_lookup (g.users) nick) k))

pub channel_invite-Linked :
    (g : Globals) (con : Connection) (tag : ℕ) (pkt : Bytes) (s : Chats)
    → IsLinked s
    → LinkedResult (channel_invite g con tag pkt s)
unfolding channel_invite
channel_invite-Linked g con tag pkt s k = with_user-Linked g con pkt s _ k (λ sender rest.
    nick_fields-Linked con s (invite_on g con tag s sender) (fields 2 rest) k
      (λ nick more c. invite_on-Linked g con tag s sender nick more c k))
