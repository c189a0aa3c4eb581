-- ===== src/Channels/Admission.antt =====
-- join.c: whom a channel that exists lets in.
use opennap.Base.{
  arith, sym, Bool-cases, All, length, take, ◌<◌, ◌++◌, List, ◌∷◌, [], subst, ℕ, ◌≡◌, ◌⊎◌, refl,
  ◌∙◌, inl, inr, Bool, true, false, ◌&&◌, not, Option, none, some, ltb, leb, if◌then◌else◌,
}
use opennap.Text.{Bytes}
use opennap.Ban.{Ban}
use opennap.Server.{User, Connection, Globals, level_moderator}
use opennap.Channels.{Channel, Chats, Settings, find, has}
use opennap.Glob.{glob_match}
use opennap.Channels.Names.{first_ban, is_banned, names_user, rollover}
use opennap.Channels.Join.{
  Memory, Round, left, try_again, overrun, entering, is_full, rolled_to, room_round, ban_round,
  old_round, join_round,
}

-- The text that the masks of bans are matched with.
abbrev pub mask_of : User → Bytes
mask_of user = take 255 (user.nick ++ b'!' ∷ user.host)

-- The user has not joined the channel, has its level, and is one of its operators or at least a
-- moderator, as whom the round says; or else matches no ban, has an invitation where one is needed,
-- and finds the channel with room.
abbrev pub Admitted : Chats → ℕ → User → Bool → Type 0
Admitted s c user op =
    let chan = s.channel c in
    (has (s.joined (user.address)) c ≡ false)
    × (ltb (user.level) (chan.level) ≡ false)
    × (names_user (chan.ops) (user.nick) ≡ op)
    × ((op ≡ true)
        ⊎ ((leb level_moderator (user.level) ≡ true)
            ⊎ ((All (λ b. glob_match (b.target) (mask_of user) ≡ false) (chan.bans))
                × ((chan.invite_only ≡ false) ⊎ (has (s.invitations (user.address)) c ≡ true))
                × ((chan.limit ≡ 0) ⊎ (length (chan.users) < chan.limit)))))

abbrev Admits : Chats → ℕ → User → Round → Type 0
Admits s c user (left outputs) = Unit
Admits s c user (try_again name) = Unit
Admits s c user overrun = Unit
Admits s c user (entering s' d op) = (s' ≡ s) × (d ≡ c) × Admitted s c user op

Admits-if :
    (s : Chats) (c : ℕ) (user : User) (b : Bool) (x y : Round)
    → (b ≡ true → Admits s c user x)
    → (b ≡ false → Admits s c user y)
    → Admits s c user (if b then x else y)
Admits-if s c user true x y h k = h refl
Admits-if s c user false x y h k = k refl

not_full :
    (chan : Channel) → is_full chan ≡ false → (chan.limit ≡ 0) ⊎ (length (chan.users) < chan.limit)
not_full chan e = elim (Bool-cases (ltb 0 (chan.limit))) [
  | inl some_limit ↦ inr (ground arith)
  | inr no_limit ↦ inl (ground arith)
]

first_ban-none :
    (l : List Ban) (mask : Bytes)
    → first_ban l mask ≡ none
    → All (λ b. glob_match (b.target) mask ≡ false) l
unfolding first_ban
first_ban-none [] mask e = tt
first_ban-none (b ∷ l) mask e = elim (Bool-cases (glob_match (b.target) mask)) [
  | inl hit ↦ absurd (found (glob_match (b.target) mask) hit e)
  | inr miss ↦ (miss, first_ban-none l mask (sym (rw miss refl) ∙ e))
]
  where
    found : (t : Bool) → t ≡ true → (if t then some b else first_ban l mask) ≡ none → ⊥
    found true hit none_found = cc
    found false hit none_found = cc

invited : (a b : Bool) → (a && not b) ≡ false → (a ≡ false) ⊎ (b ≡ true)
invited false b e = inl refl
invited true true e = inr refl
invited true false e = cc

old_round-Admits :
    (scratch : ℕ) (con : Connection) (s : Chats) (user : User) (name : Bytes) (c : ℕ)
    → Admits s c user (old_round scratch con s user name c)
unfolding old_round
old_round-Admits scratch con s user name c =
    let chan = s.channel c in
    Admits-if s c user (has (s.joined (user.address)) c) _ _ (λ e. tt)
      (λ joined.
        Admits-if s c user (ltb (user.level) (chan.level)) _ _ (λ e. tt)
          (λ high.
            Admits-if s c user (names_user (chan.ops) (user.nick)) _ _
              (λ op. (refl, refl, (joined, high, op, inl refl)))
              (λ op.
                Admits-if s c user (leb level_moderator (user.level)) _ _
                  (λ moderator. (refl, refl, (joined, high, op, inr (inl moderator))))
                  (λ plain.
                    by_ban joined high op (is_banned (chan.bans) (user.nick) (user.host)) refl))))
  where
    no_ban :
        is_banned ((s.channel c).bans) (user.nick) (user.host) ≡ none
        → All (λ b. glob_match (b.target) (mask_of user) ≡ false) ((s.channel c).bans)
    no_ban e = first_ban-none ((s.channel c).bans) (mask_of user) (unfold is_banned in e)

    rolls : (o : Option Bytes) → Admits s c user (rolled_to o)
    rolls none = tt
    rolls (some other) = tt

    by_ban :
        has (s.joined (user.address)) c ≡ false
        → ltb (user.level) ((s.channel c).level) ≡ false
        → names_user ((s.channel c).ops) (user.nick) ≡ false
        → (o : Option Ban) → is_banned ((s.channel c).bans) (user.nick) (user.host) ≡ o
        → Admits s c user (ban_round (room_round scratch con s user name c) user o)
    by_ban joined high op (some ban) e = tt
    by_ban joined high op none e =
        Admits-if s c user ((s.channel c).invite_only && not (has (s.invitations (user.address)) c))
          _ _ (λ closed. tt)
          (λ open_to.
            Admits-if s c user (is_full (s.channel c)) _ _
              (λ full.
                Admits-if s c user ((s.channel c).user_made) _ _ (λ u. tt)
                  (λ u. rolls (rollover scratch name)))
              (λ free.
                let may_enter = invited _ _ open_to in
                (
                  refl,
                  refl,
                  (joined, high, op, inr (inr (no_ban e, may_enter, not_full (s.channel c) free))),
                )))

-- A user who is let into a channel that exists has the level that it asks for and is no member yet,
-- and is listed as an operator there, as which the user then enters, or at least a moderator; every
-- other user matches none of its bans, is invited if it is for the invited, and finds it below its
-- limit. The channels are as they were.
pub join_round-Admits :
    (g : Globals) (cfg : Settings) (mem : Memory) (scratch : ℕ) (con : Connection) (s s' : Chats)
    (user : User) (name : Bytes) (c d : ℕ) (op : Bool)
    → find s name ≡ some c
    → join_round g cfg mem scratch con s user name ≡ entering s' d op
    → (s' ≡ s) × (d ≡ c) × Admitted s c user op
unfolding join_round
join_round-Admits g cfg mem scratch con s s' user name c d op found e =
    subst (Admits s c user) (old ∙ e) (old_round-Admits scratch con s user name c)
  where
    old : old_round scratch con s user name c ≡ join_round g cfg mem scratch con s user name
    old = rw found
