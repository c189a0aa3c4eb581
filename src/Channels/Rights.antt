-- ===== src/Channels/Rights.antt =====
-- channel.c and join.c: what a user without rights on a channel can change there.
use opennap.Base.{
  ℕ, suc, ◌≡◌, refl, sym, ap, ◌∙◌, inl, inr, Bool, true, false, ◌||◌, not, ltb, List, [], ◌∷◌,
  Option, none, some, arith, if◌then◌else◌, ◌==◌, Bool-cases, ==_iff, length, ℤ, pos, negsuc,
}
use opennap.Text.{Bytes}
use opennap.Hash.{hash_lookup}
use opennap.Args.{Split, next_arg, split_template}
use opennap.Ban.{Ban, normalize_ban, is_banned}
use opennap.Server.{
  User, Connection, user_con, Globals, fields, atoi, get_level, level_moderator, pop_user,
  pop_user_server, permission_denied,
}
use opennap.Channels.{
  Channel, Chats, Settings, Told, null_list, put, has, find, tell, is_chanop, lacks_rights,
  on_channel, nonull,
}
use opennap.Channels.Bans.{
  add_ban, ban_on, mask_fields, channel_ban, unlink_ban, unban_found, unban_on, channel_unban,
  clear_bans_on, channel_clear_bans, given,
}
use opennap.Channels.Modes.{
  Changes, any_bit, mode_changed, changed_to, mode_args, mode_refused, mode_on, mode_channel,
  channel_mode, mode_loop, start,
}
use opennap.Channels.Limits.{
  source_of, may_not_set, is_newer, set_level, level_arg, level_on, read_fields, set_level_fields,
  channel_level, limit_denied, set_limit, limit_value, limit_args, channel_limit, stamp_of,
}
use opennap.Channels.Ops.{op_sent, channel_op, drop_on, drop_fields, channel_drop, second}
use opennap.Channels.Voices.{
  voice_on, voice_args, channel_voice, muzzle_user, muzzle_on, nick_fields, channel_muzzle,
  is_under,
}
use opennap.Channels.Reach.{
  Handler, banning, unbanning, clearing_bans, setting_mode, setting_level, setting_limit, opping,
  dropping, voicing, muzzling, Received, handle, joining, parting, kicking, clearing, setting_topic,
  walloping, inviting, speaking, emoting,
}

-- The handlers of the messages that need rights on the channel.
abbrev pub NeedsRights : Handler → Type 0
NeedsRights banning = Unit
NeedsRights unbanning = Unit
NeedsRights clearing_bans = Unit
NeedsRights setting_mode = Unit
NeedsRights setting_level = Unit
NeedsRights setting_limit = Unit
NeedsRights opping = Unit
NeedsRights dropping = Unit
NeedsRights voicing = Unit
NeedsRights muzzling = Unit
NeedsRights joining = ⊥
NeedsRights parting = ⊥
NeedsRights kicking = ⊥
NeedsRights clearing = ⊥
NeedsRights setting_topic = ⊥
NeedsRights walloping = ⊥
NeedsRights inviting = ⊥
NeedsRights speaking = ⊥
NeedsRights emoting = ⊥

module _ (g : Globals) (user : User) (s : Chats) (c : ℕ)
    (plain : ltb (user.level) level_moderator ≡ true)
    (no_op : is_chanop (s.channel c) user ≡ false) where
  abbrev Same : Told → Type 0
  Same t = t.chats.channel c ≡ s.channel c

  abbrev SameResult : Option Told → Type 0
  SameResult none = Unit
  SameResult (some t) = Same t

  Same-if :
      (b : Bool) (x y : Told)
      → (b ≡ true → Same x)
      → (b ≡ false → Same y)
      → Same (if b then x else y)
  Same-if true x y h k = h refl
  Same-if false x y h k = k refl

  lacks : lacks_rights (s.channel c) (some user) ≡ true
  unfolding lacks_rights
  lacks = rw (plain, no_op) refl

  -- A handler that tests the rights on its channel.
  guarded :
      (d : ℕ) (x y : Told)
      → Same x
      → ((c == d) ≡ false → Same y)
      → Same (if lacks_rights (s.channel d) (some user) then x else y)
  guarded d x y h k =
      Same-if (lacks_rights (s.channel d) (some user)) x y (λ e. h)
        (λ e. elim (Bool-cases (c == d)) [
          | inr ne ↦ k ne
          | inl eq ↦
              let q =
                sym lacks
                ∙ ap (λ x. lacks_rights (s.channel x) (some user)) ((==_iff c d).0 eq)
                ∙ e in
              cc
        ])

  other : (d : ℕ) (chan : Channel) → (c == d) ≡ false → (put s d chan).channel c ≡ s.channel c
  other d chan ne = rw ne

  on_channel-Same :
      (con : Connection) (k : ℕ → Told) (o : Option ℕ)
      → ((d : ℕ) → Same (k d))
      → Same (on_channel con s k o)
  on_channel-Same con k none h = refl
  on_channel-Same con k (some d) h = h d

  abbrev con : Connection
  con = user_con user

  ban_on-Same :
      (tag : ℕ) (alloc_ok : Bool) (nick mask : Bytes) (why : Option Bytes) (d : ℕ)
      → Same (ban_on g con tag s alloc_ok nick (some user) mask why d)
  unfolding ban_on add_ban
  ban_on-Same tag alloc_ok nick mask why d = guarded d _ _ refl (λ ne.
      Same-if (is_banned (normalize_ban g mask 256) ((s.channel d).bans)) _ _ (λ f. refl)
        (λ f. Same-if alloc_ok _ _ (λ a. other d _ ne) (λ a. refl)))

  unban_on-Same :
      (tag : ℕ) (nick mask : Bytes) (why : Option Bytes) (d : ℕ)
      → Same (unban_on g con tag s nick (some user) mask why d)
  unfolding unban_on
  unban_on-Same tag nick mask why d =
      guarded d _ _ refl
        (λ ne. found ne (unlink_ban (normalize_ban g mask 256) ((s.channel d).bans)))
    where
      found :
          (c == d) ≡ false
          → (o : Option (Ban × List Ban)) → Same (unban_found con tag s nick why d o)
      found ne none = refl
      found ne (some (b, rest)) = other d _ ne

  mask_fields-Same :
      (k : Bytes → Option Bytes → ℕ → Told) (l : Option (List Bytes))
      → ((mask : Bytes) (why : Option Bytes) (d : ℕ) → Same (k mask why d))
      → Same (mask_fields con s k l)
  mask_fields-Same k none h = refl
  mask_fields-Same k (some []) h = refl
  mask_fields-Same k (some (name ∷ [])) h = refl
  mask_fields-Same k (some (name ∷ mask ∷ l)) h =
      on_channel-Same con _ (find s name) (λ d. h mask (given l) d)

  nick_fields-Same :
      (k : Bytes → Option Bytes → ℕ → Told) (l : Option (List Bytes))
      → ((nick : Bytes) (why : Option Bytes) (d : ℕ) → Same (k nick why d))
      → Same (nick_fields con s k l)
  nick_fields-Same k none h = refl
  nick_fields-Same k (some []) h = refl
  nick_fields-Same k (some (name ∷ [])) h = refl
  nick_fields-Same k (some (name ∷ nick ∷ l)) h =
      on_channel-Same con _ (find s name) (λ d. h nick (given l) d)

  clear_bans_on-Same : (tag d : ℕ) → Same (clear_bans_on con tag s user d)
  unfolding clear_bans_on
  clear_bans_on-Same tag d =
      Same-if (not (has (s.joined (user.address)) d)) _ _ (λ a. refl)
        (λ a.
          guarded d _ _ refl
            (λ ne. Same-if (null_list ((s.channel d).bans)) _ _ (λ b. refl) (λ b. other d _ ne)))

  mode_on-SameResult :
      (tag : ℕ) (nick : Bytes) (rest : Option Bytes) (o : Option ℕ)
      → SameResult (mode_on g con tag s nick (some user) rest o)
  unfolding mode_on mode_refused mode_changed
  mode_on-SameResult tag nick rest none = refl
  mode_on-SameResult tag nick rest (some d) =
      by_refusal (mode_refused (s.channel d) (some user)) refl
    where
      by_changes :
          (c == d) ≡ false → (ch : Option Changes) → SameResult (changed_to g con tag s nick d ch)
      by_changes ne none = tt
      by_changes ne (some ch) =
          Same-if (any_bit (ch.on) || any_bit (ch.off)) _ _ (λ e. other d _ ne) (λ e. other d _ ne)

      by_args : (c == d) ≡ false → (r : Option Bytes) → SameResult (mode_args g con tag s nick r d)
      by_args ne none = refl
      by_args ne (some r) =
          by_changes ne (mode_loop (suc (length r)) con (some r) (start (s.channel d)))

      apart : mode_refused (s.channel d) (some user) ≡ false → (c == d) ≡ false
      apart e = elim (Bool-cases (c == d)) [
        | inr ne ↦ ne
        | inl eq ↦
            let q =
              sym (ap (λ x. lacks_rights (s.channel x) (some user)) ((==_iff c d).0 eq)) ∙ lacks in
            ground arith
      ]

      by_refusal :
          (b : Bool)
          → mode_refused (s.channel d) (some user) ≡ b
          → SameResult (
              if b
              then some (tell s (permission_denied con))
              else mode_args g con tag s nick rest d)
      by_refusal true e = refl
      by_refusal false e = by_args (apart e) rest

  -- A test that a sender without rights on the channel does not pass.
  apart_by :
      (d : ℕ) (b : Bool)
      → (lacks_rights (s.channel d) (some user) ≡ true → b ≡ true)
      → b ≡ false
      → (c == d) ≡ false
  apart_by d b stops e = elim (Bool-cases (c == d)) [
    | inr ne ↦ ne
    | inl eq ↦
        let q =
          stops
            (sym (ap (λ x. lacks_rights (s.channel x) (some user)) ((==_iff c d).0 eq)) ∙ lacks) in
        cc
  ]

  set_level-Same :
      (d : ℕ) (sender : Bytes) (level' : ℕ) (stamp : List Bytes)
      → Same (set_level con s d sender level' stamp)
  unfolding set_level may_not_set lacks_rights
  set_level-Same d sender level' stamp =
      Same-if ((s.channel d).level == level') _ _ (λ e. refl)
        (λ e.
          Same-if (may_not_set con (s.channel d) level') _ _ (λ f. refl)
            (λ f.
              Same-if (is_newer con (s.channel d) stamp) _ _ (λ h. refl)
                (λ h. other d _ (apart_by d _ (λ l. ground arith) f))))

  level_arg-Same :
      (d : ℕ) (sender : Bytes) (level' : ℤ) (stamp : List Bytes)
      → Same (level_arg con s d sender level' stamp)
  level_arg-Same d sender (negsuc n) stamp = refl
  level_arg-Same d sender (pos level') stamp = set_level-Same d sender level' stamp

  level_on-Same : (sender : Bytes) (rest : List Bytes) (d : ℕ) → Same (level_on con s sender rest d)
  level_on-Same sender [] d = refl
  level_on-Same sender (level' ∷ stamp) d = level_arg-Same d sender (get_level level') stamp

  level_fields-SameResult :
      (sender : Bytes) (l : Split) → SameResult (set_level_fields con s sender l)
  level_fields-SameResult sender (true, []) = tt
  level_fields-SameResult sender (false, []) = refl
  level_fields-SameResult sender (bogus, name ∷ rest) = elim (Bool-cases (ltb 2 (length rest))) [
    | inl e ↦ rw e tt
    | inr e ↦
        rw e (
          on_channel-Same con _ (find s name)
            (λ d. level_on-Same sender (read_fields bogus rest) d))
  ]

  set_limit-Same :
      (tag : ℕ) (sender : Bytes) (limit' : ℕ) (stamp : Option Bytes) (d : ℕ)
      → Same (set_limit g con tag s sender limit' stamp d)
  unfolding set_limit lacks_rights
  set_limit-Same tag sender limit' stamp d =
      Same-if ((s.channel d).limit == limit') _ _ (λ e. refl)
        (λ e.
          Same-if (limit_denied con (s.channel d)) _ _ (λ f. refl)
            (λ f.
              Same-if (is_newer con (s.channel d) (stamp_of stamp)) _ _ (λ h. refl)
                (λ h. other d _ (apart_by d _ (λ l. l) f))))

  limit_args-Same :
      (tag : ℕ) (sender : Bytes) (name : Option Bytes) (a : Option Bytes × Option Bytes)
      → Same (limit_args g con tag s sender name a)
  limit_args-Same tag sender none a = refl
  limit_args-Same tag sender (some name) (none, stamp) = refl
  limit_args-Same tag sender (some name) (some limit', stamp) = by_value (atoi limit')
    where
      by_value : (l : ℤ) → Same (limit_value g con tag s sender name stamp l)
      by_value (negsuc n) = refl
      by_value (pos l) =
          Same-if (ltb 65535 l) _ _ (λ e. refl)
            (λ e. on_channel-Same con _ (find s name) (λ d. set_limit-Same tag sender l stamp d))

  op_sent-Same :
      (tag : ℕ) (nick : Bytes) (rest : Option Bytes)
      → Same (op_sent g con tag s nick (some user) rest)
  unfolding op_sent
  op_sent-Same tag nick rest = rw plain refl

  drop_on-Same : (tag : ℕ) (why : Bytes) (d : ℕ) → Same (drop_on con tag s user why d)
  unfolding drop_on
  drop_on-Same tag why d =
      Same-if ((s.channel d).user_made) _ _ (λ e. refl)
        (λ e.
          Same-if (ltb (user.level) level_moderator || ltb (user.level) ((s.channel d).level)) _ _
            (λ f. refl)
            (λ f. let p = plain in absurd (never (ltb (user.level) ((s.channel d).level)) f)))
    where
      never : (b : Bool) → (ltb (user.level) level_moderator || b) ≡ false → ⊥
      never b f = let p = plain in ground arith

  drop_fields-Same : (tag : ℕ) (l : Option (List Bytes)) → Same (drop_fields con tag s user l)
  drop_fields-Same tag none = refl
  drop_fields-Same tag (some []) = refl
  drop_fields-Same tag (some (name ∷ l)) =
      on_channel-Same con _ (find s name) (λ d. drop_on-Same tag (second l) d)

  voice_on-Same :
      (tag : ℕ) (nick : Bytes) (rest : Option Bytes) (d : ℕ)
      → Same (voice_on g con tag s nick (some user) rest d)
  unfolding voice_on
  voice_on-Same tag nick none d = refl
  voice_on-Same tag nick (some rest) d = guarded d _ _ refl (λ ne. other d _ ne)

  voice_args-Same :
      (tag : ℕ) (nick : Bytes) (a : Option Bytes × Option Bytes)
      → Same (voice_args g con tag s nick (some user) a)
  voice_args-Same tag nick (none, rest) = refl
  voice_args-Same tag nick (some name, rest) =
      on_channel-Same con _ (find s name) (λ d. voice_on-Same tag nick rest d)

  muzzle_on-Same :
      (tag : ℕ) (name nick : Bytes) (more : Option Bytes) (d : ℕ)
      → Same (muzzle_on g con tag s name (some user) nick more d)
  unfolding muzzle_on muzzle_user
  muzzle_on-Same tag name nick more d =
      guarded d _ _ refl (λ ne. by_user ne (hash_lookup (g.users) nick))
    where
      by_user :
          (c == d) ≡ false
          → (o : Option User) → Same (muzzle_user con tag s name (some user) (nonull more) d o)
      by_user ne none = refl
      by_user ne (some target) =
          Same-if (is_under (some user) target) _ _ (λ e. refl) (λ e. other d _ ne)

  mode_channel-SameResult :
      (tag : ℕ) (nick : Bytes) (a : Option Bytes × Option Bytes)
      → SameResult (mode_channel g con tag s nick (some user) a)
  mode_channel-SameResult tag nick (none, rest) = refl
  mode_channel-SameResult tag nick (some name, rest) =
      mode_on-SameResult tag nick rest (find s name)

  -- A user below moderator who is not an operator of a channel changes nothing of it by a message
  -- that sets a ban, takes one away, clears the bans, sets modes, the level or the limit, makes or
  -- unmakes operators, drops a channel, gives or takes voices, or muzzles: where the handler
  -- returns, the record of the channel is as it was.
  pub handle-NeedsRights :
      (h : Handler) (cfg : Settings) (r : Received)
      → NeedsRights h
      → SameResult (handle h g cfg (record r { con = user_con user }) s)
  unfolding handle channel_ban channel_unban channel_clear_bans channel_mode channel_level
      channel_limit channel_op channel_drop channel_voice channel_muzzle pop_user pop_user_server
      source_of
  handle-NeedsRights banning cfg r needs =
      mask_fields-Same (ban_on g con r.tag s r.ban_memory (user.nick) (some user))
        (fields 3 (some r.pkt)) (ban_on-Same r.tag r.ban_memory (user.nick))
  handle-NeedsRights unbanning cfg r needs =
      mask_fields-Same (unban_on g con r.tag s (user.nick) (some user)) (fields 3 (some r.pkt))
        (unban_on-Same r.tag (user.nick))
  handle-NeedsRights clearing_bans cfg r needs =
      on_channel-Same con _ (find s r.pkt) (λ d. clear_bans_on-Same r.tag d)
  handle-NeedsRights setting_mode cfg r needs =
      mode_channel-SameResult r.tag (user.nick) (next_arg (some r.pkt))
  handle-NeedsRights setting_level cfg r needs =
      level_fields-SameResult (user.nick) (split_template 24 r.pkt)
  handle-NeedsRights setting_limit cfg r needs =
      let (name, rest) = next_arg (some r.pkt) in
      limit_args-Same r.tag (user.nick) name (next_arg rest)
  handle-NeedsRights opping cfg r needs = op_sent-Same r.tag (user.nick) (some r.pkt)
  handle-NeedsRights dropping cfg r needs = drop_fields-Same r.tag (fields 2 (some r.pkt))
  handle-NeedsRights voicing cfg r needs = voice_args-Same r.tag (user.nick) (next_arg (some r.pkt))
  handle-NeedsRights muzzling cfg r needs =
      nick_fields-Same (muzzle_on g con r.tag s (user.nick) (some user)) (fields 3 (some r.pkt))
        (muzzle_on-Same r.tag (user.nick))
  handle-NeedsRights joining cfg r needs = absurd needs
  handle-NeedsRights parting cfg r needs = absurd needs
  handle-NeedsRights kicking cfg r needs = absurd needs
  handle-NeedsRights clearing cfg r needs = absurd needs
  handle-NeedsRights setting_topic cfg r needs = absurd needs
  handle-NeedsRights walloping cfg r needs = absurd needs
  handle-NeedsRights inviting cfg r needs = absurd needs
  handle-NeedsRights speaking cfg r needs = absurd needs
  handle-NeedsRights emoting cfg r needs = absurd needs
