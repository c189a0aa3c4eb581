-- ===== src/Channels/Changes.antt =====
-- channel.c, join.c and topic.c: the messages that change a channel and leave its members, and the
-- invariant of the links.
use opennap.Base.{
  ℕ, suc, refl, inl, inr, Bool, true, false, ◌||◌, not, ltb, List, [], ◌∷◌, Option, none, some,
  if◌then◌else◌, ◌==◌, Bool-cases, length, ℤ, pos, negsuc,
}
use opennap.Text.{Bytes}
use opennap.Args.{Split, next_arg, split_template}
use opennap.Ban.{Ban, normalize_ban, is_banned}
use opennap.Server.{User, Connection, Globals, Output, fields, atoi, get_level}
use opennap.Channels.{Chats, Settings, Told, null_list, has, find, tell, lacks_rights}
use opennap.Channels.Bans.{
  add_ban, ban_on, mask_fields, channel_ban, unlink_ban, unban_found, unban_on, channel_unban,
  clear_bans_on, clear_bans_sent, channel_clear_bans, given,
}
use opennap.Channels.Modes.{
  Changes, any_bit, mode_changed, changed_to, mode_args, mode_refused, mode_on, mode_channel,
  channel_mode, mode_loop, start,
}
use opennap.Channels.Limits.{
  Source, given_up, null_read, from, source_of, may_not_set, is_newer, set_level, level_arg,
  level_on, read_fields, set_level_fields, level_from, channel_level, limit_denied, set_limit,
  limit_value, limit_args, limit_from, channel_limit, topic_source, topic_refused, topic_change,
  topic_on, topic_args, topic_from, topic, new_topic, stamp_of,
}
use opennap.Channels.Links.{
  IsLinked, Linked, Linked-if, LinkedResult, with_user-Linked, with_sender-Linked,
  on_channel-Linked, put-IsLinked,
}

-- Messages with a channel, a mask and a reason.
mask_fields-Linked :
    (con : Connection) (s : Chats) (k : Bytes → Option Bytes → ℕ → Told) (l : Option (List Bytes))
    → IsLinked s
    → ((mask : Bytes) (why : Option Bytes) (c : ℕ) → Linked (k mask why c))
    → Linked (mask_fields con s k l)
mask_fields-Linked con s k none h keeps = h
mask_fields-Linked con s k (some []) h keeps = h
mask_fields-Linked con s k (some (name ∷ [])) h keeps = h
mask_fields-Linked con s k (some (name ∷ mask ∷ l)) h keeps =
    on_channel-Linked con s _ (find s name) h (λ c e. keeps mask (given l) c)

ban_on-Linked :
    (g : Globals) (con : Connection) (tag : ℕ) (s : Chats) (alloc_ok : Bool) (nick : Bytes)
    (user : Option User) (mask : Bytes) (why : Option Bytes) (c : ℕ)
    → IsLinked s
    → Linked (ban_on g con tag s alloc_ok nick user mask why c)
unfolding ban_on add_ban
ban_on-Linked g con tag s alloc_ok nick user mask why c k =
    Linked-if (lacks_rights (s.channel c) user) _ _ (λ e. k)
      (λ e.
        Linked-if (is_banned (normalize_ban g mask 256) ((s.channel c).bans)) _ _ (λ f. k)
          (λ f. Linked-if alloc_ok _ _ (λ a. put-IsLinked s c _ refl refl k) (λ a. k)))

pub channel_ban-Linked :
    (g : Globals) (con : Connection) (tag : ℕ) (alloc_ok : Bool) (pkt : Bytes) (s : Chats)
    → IsLinked s
    → LinkedResult (channel_ban g con tag alloc_ok pkt s)
unfolding channel_ban
channel_ban-Linked g con tag alloc_ok pkt s k =
    with_sender-Linked g con pkt s _ k (λ nick user rest.
      mask_fields-Linked con s (ban_on g con tag s alloc_ok nick user) (fields 3 rest) k
        (λ mask why c. ban_on-Linked g con tag s alloc_ok nick user mask why c k))

unban_on-Linked :
    (g : Globals) (con : Connection) (tag : ℕ) (s : Chats) (nick : Bytes) (user : Option User)
    (mask : Bytes) (why : Option Bytes) (c : ℕ)
    → IsLinked s
    → Linked (unban_on g con tag s nick user mask why c)
unfolding unban_on
unban_on-Linked g con tag s nick user mask why c k =
    Linked-if (lacks_rights (s.channel c) user) _ _ (λ e. k)
      (λ e. found (unlink_ban (normalize_ban g mask 256) ((s.channel c).bans)))
  where
    found : (o : Option (Ban × List Ban)) → Linked (unban_found con tag s nick why c o)
    found none = k
    found (some (b, rest)) = put-IsLinked s c _ refl refl k

pub channel_unban-Linked :
    (g : Globals) (con : Connection) (tag : ℕ) (pkt : Bytes) (s : Chats)
    → IsLinked s
    → LinkedResult (channel_unban g con tag pkt s)
unfolding channel_unban
channel_unban-Linked g con tag pkt s k = with_sender-Linked g con pkt s _ k (λ nick user rest.
    mask_fields-Linked con s (unban_on g con tag s nick user) (fields 3 rest) k
      (λ mask why c. unban_on-Linked g con tag s nick user mask why c k))

pub channel_clear_bans-Linked :
    (g : Globals) (con : Connection) (tag : ℕ) (pkt : Bytes) (s : Chats)
    → IsLinked s
    → LinkedResult (channel_clear_bans g con tag pkt s)
unfolding channel_clear_bans clear_bans_on
channel_clear_bans-Linked g con tag pkt s k = with_user-Linked g con pkt s _ k by_packet
  where
    by_packet : (user : User) (rest : Option Bytes) → Linked (clear_bans_sent con tag s user rest)
    by_packet user none = k
    by_packet user (some rest) = on_channel-Linked con s _ (find s rest) k (λ c e.
        Linked-if (not (has (s.joined (user.address)) c)) _ _ (λ a. k)
          (λ a.
            Linked-if (lacks_rights (s.channel c) (some user)) _ _ (λ b. k)
              (λ b.
                Linked-if (null_list ((s.channel c).bans)) _ _ (λ d. k)
                  (λ d. put-IsLinked s c _ refl refl k))))

pub channel_mode-Linked :
    (g : Globals) (con : Connection) (tag : ℕ) (pkt : Bytes) (s : Chats)
    → IsLinked s
    → LinkedResult (channel_mode g con tag pkt s)
unfolding channel_mode mode_on
channel_mode-Linked g con tag pkt s k =
    with_sender-Linked g con pkt s _ k (λ nick user rest. by_name nick user (next_arg rest))
  where
    by_changes :
        (nick : Bytes) (c : ℕ) (o : Option Changes) → LinkedResult (changed_to g con tag s nick c o)
    by_changes nick c none = tt
    by_changes nick c (some ch) =
        unfold mode_changed in
        Linked-if (any_bit (ch.on) || any_bit (ch.off)) _ _ (λ e. put-IsLinked s c _ refl refl k)
          (λ e. put-IsLinked s c _ refl refl k)

    by_args :
        (nick : Bytes) (c : ℕ) (rest : Option Bytes)
        → LinkedResult (mode_args g con tag s nick rest c)
    by_args nick c none = k
    by_args nick c (some rest) =
        by_changes nick c (mode_loop (suc (length rest)) con (some rest) (start (s.channel c)))

    by_refusal :
        (nick : Bytes) (c : ℕ) (rest : Option Bytes) (b : Bool) (outputs : List Output)
        → LinkedResult (if b then some (tell s outputs) else mode_args g con tag s nick rest c)
    by_refusal nick c rest true outputs = k
    by_refusal nick c rest false outputs = by_args nick c rest

    by_channel :
        (nick : Bytes) (user : Option User) (rest : Option Bytes) (o : Option ℕ)
        → LinkedResult (mode_on g con tag s nick user rest o)
    by_channel nick user rest none = k
    by_channel nick user rest (some c) = by_refusal nick c rest (mode_refused (s.channel c) user) _

    by_name :
        (nick : Bytes) (user : Option User) (a : Option Bytes × Option Bytes)
        → LinkedResult (mode_channel g con tag s nick user a)
    by_name nick user (none, rest) = k
    by_name nick user (some name, rest) = by_channel nick user rest (find s name)

pub channel_level-Linked :
    (con : Connection) (pkt : Bytes) (s : Chats)
    → IsLinked s
    → LinkedResult (channel_level con pkt s)
unfolding channel_level set_level
channel_level-Linked con pkt s k = by_source (source_of con pkt)
  where
    by_level :
        (sender : Bytes) (c : ℕ) (level : ℤ) (stamp : List Bytes)
        → Linked (level_arg con s c sender level stamp)
    by_level sender c (negsuc n) stamp = k
    by_level sender c (pos level) stamp =
        Linked-if ((s.channel c).level == level) _ _ (λ e. k)
          (λ e.
            Linked-if (may_not_set con (s.channel c) level) _ _ (λ f. k)
              (λ f.
                Linked-if (is_newer con (s.channel c) stamp) _ _ (λ h. k)
                  (λ h. put-IsLinked s c _ refl refl k)))

    by_rest : (sender : Bytes) (rest : List Bytes) (c : ℕ) → Linked (level_on con s sender rest c)
    by_rest sender [] c = k
    by_rest sender (level ∷ stamp) c = by_level sender c (get_level level) stamp

    by_fields : (sender : Bytes) (l : Split) → LinkedResult (set_level_fields con s sender l)
    by_fields sender (true, []) = tt
    by_fields sender (false, []) = k
    by_fields sender (bogus, name ∷ rest) = elim (Bool-cases (ltb 2 (length rest))) [
      | inl e ↦ rw e tt
      | inr e ↦ rw e (
          on_channel-Linked con s _ (find s name) k
            (λ c f. by_rest sender (read_fields bogus rest) c))
    ]

    by_source : (source : Source) → LinkedResult (level_from con s source)
    by_source given_up = k
    by_source null_read = tt
    by_source (from sender none) = tt
    by_source (from sender (some rest)) = by_fields sender (split_template 24 rest)

pub channel_limit-Linked :
    (g : Globals) (con : Connection) (tag : ℕ) (pkt : Bytes) (s : Chats)
    → IsLinked s
    → LinkedResult (channel_limit g con tag pkt s)
unfolding channel_limit set_limit
channel_limit-Linked g con tag pkt s k = by_source (source_of con pkt)
  where
    by_value :
        (sender name : Bytes) (stamp : Option Bytes) (limit : ℤ)
        → Linked (limit_value g con tag s sender name stamp limit)
    by_value sender name stamp (negsuc n) = k
    by_value sender name stamp (pos limit) =
        Linked-if (ltb 65535 limit) _ _ (λ e. k)
          (λ e. on_channel-Linked con s _ (find s name) k (λ c f.
            Linked-if ((s.channel c).limit == limit) _ _ (λ h. k)
              (λ h.
                Linked-if (limit_denied con (s.channel c)) _ _ (λ i. k)
                  (λ i.
                    Linked-if (is_newer con (s.channel c) (stamp_of stamp)) _ _ (λ j. k)
                      (λ j. put-IsLinked s c _ refl refl k)))))

    by_args :
        (sender : Bytes) (name : Option Bytes) (a : Option Bytes × Option Bytes)
        → Linked (limit_args g con tag s sender name a)
    by_args sender none a = k
    by_args sender (some name) (none, stamp) = k
    by_args sender (some name) (some limit, stamp) = by_value sender name stamp (atoi limit)

    by_source : (source : Source) → LinkedResult (limit_from g con tag s source)
    by_source given_up = k
    by_source null_read = tt
    by_source (from sender rest) =
        let (name, more) = next_arg rest in by_args sender name (next_arg more)

pub topic-Linked :
    (cfg : Settings) (con : Connection) (tag : ℕ) (pkt : Bytes) (s : Chats)
    → IsLinked s
    → LinkedResult (topic cfg con tag pkt s)
unfolding topic topic_on
topic-Linked cfg con tag pkt s k = by_source (topic_source con pkt)
  where
    by_refusal :
        (nick text : Bytes) (c : ℕ) (l : List Output)
        → Linked (topic_change con tag s nick text c l)
    by_refusal nick text c [] = put-IsLinked s c _ refl refl k
    by_refusal nick text c (o ∷ l) = k

    by_rest :
        (nick : Bytes) (rest : Option Bytes) (c : ℕ) → Linked (topic_on cfg con tag s nick rest c)
    by_rest nick none c = k
    by_rest nick (some rest) c = by_refusal nick (new_topic cfg rest) c (topic_refused con s c)

    by_args :
        (nick : Bytes) (a : Option Bytes × Option Bytes)
        → LinkedResult (topic_args cfg con tag s nick a)
    by_args nick (none, rest) = tt
    by_args nick (some name, rest) =
        on_channel-Linked con s _ (find s name) k (λ c e. by_rest nick rest c)

    by_source : (source : Source) → LinkedResult (topic_from cfg con tag s source)
    by_source given_up = k
    by_source null_read = tt
    by_source (from nick none) = k
    by_source (from nick (some rest)) = by_args nick (next_arg (some rest))
