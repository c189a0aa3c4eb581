-- ===== src/Channels/Rolling.antt =====
-- join.c: the loop over the names of rollover channels, where it ends and where it does not.
use opennap.Base.{
  ℕ, zero, suc, ◌-◌, ◌≤◌, ◌<◌, ◌≡◌, refl, sym, ap, ◌∙◌, subst, Bool, true, false, ◌&&◌, not, ltb,
  leb, [], Option, none, some, arith, if◌then◌else◌, length,
}
use opennap.Text.{Bytes}
use opennap.Ban.{Ban}
use opennap.Server.{User, Connection, Globals, level_moderator}
use opennap.Channels.{Chats, Settings, Told, find, has, tell}
use opennap.Channels.Names.{
  invalid_channel, names_user, is_banned, split_number, rollover, digits_room,
}
use opennap.Channels.Rollover.{rollover_same}
use opennap.Channels.Join.{
  Memory, Round, left, try_again, overrun, entering, make_round, is_full, rolled_to, room_round,
  ban_round, old_round, round_at, join_round, enter_channel, join_loop,
}

some_injective : (a b : Bytes) → some a ≡ some b → a ≡ b
some_injective a b e = cc

-- The name after some rollovers, unless one of them is written behind the end of `chanbuf`.
unfoldable pub rolled : ℕ → ℕ → Bytes → Option Bytes
rolled scratch zero name = some name
rolled scratch (suc n) name = elim (rollover scratch name) [
  | none ↦ none
  | some next ↦ rolled scratch n next
]

-- A round that goes on goes on with the rollover of its name.
abbrev NextIs : Option Bytes → Round → Type 0
NextIs o (left outputs) = Unit
NextIs o (try_again other) = o ≡ some other
NextIs o overrun = o ≡ none
NextIs o (entering s c op) = Unit

NextIs-if :
    (o : Option Bytes) (b : Bool) (x y : Round)
    → NextIs o x
    → NextIs o y
    → NextIs o (if b then x else y)
NextIs-if o true x y h k = h
NextIs-if o false x y h k = k

NextIs-rolled_to : (o : Option Bytes) → NextIs o (rolled_to o)
NextIs-rolled_to none = refl
NextIs-rolled_to (some other) = refl

abbrev Ends : Round → Type 0
Ends (left outputs) = Unit
Ends (try_again other) = ⊥
Ends overrun = ⊥
Ends (entering s c op) = Unit

Ends-if : (b : Bool) (x y : Round) → Ends x → Ends y → Ends (if b then x else y)
Ends-if true x y h k = h
Ends-if false x y h k = k

Ends-NextIs : (o : Option Bytes) (r : Round) → Ends r → NextIs o r
Ends-NextIs o (left outputs) h = tt
Ends-NextIs o (try_again other) h = absurd h
Ends-NextIs o overrun h = absurd h
Ends-NextIs o (entering s c op) h = tt

make_round-Ends :
    (g : Globals) (cfg : Settings) (mem : Memory) (con : Connection) (s : Chats) (user : User)
    (name : Bytes)
    → Ends (make_round g cfg mem con s user name)
unfolding make_round
make_round-Ends g cfg mem con s user name =
    Ends-if (cfg.strict_channels && ltb (user.level) level_moderator) _ _ tt (
      Ends-if (invalid_channel cfg name) _ _ tt
        (Ends-if (mem.object && (mem.name && mem.topic)) _ _ tt tt))

old_round-NextIs :
    (scratch : ℕ) (con : Connection) (s : Chats) (user : User) (name : Bytes) (c : ℕ)
    → NextIs (rollover scratch name) (old_round scratch con s user name c)
unfolding old_round
old_round-NextIs scratch con s user name c = NextIs-if _ (has (s.joined (user.address)) c) _ _ tt (
    NextIs-if _ (ltb (user.level) ((s.channel c).level)) _ _ tt (
      NextIs-if _ (names_user ((s.channel c).ops) (user.nick)) _ _ tt (
        NextIs-if _ (leb level_moderator (user.level)) _ _ tt
          (by_ban (is_banned ((s.channel c).bans) (user.nick) (user.host))))))
  where
    by_ban :
        (o : Option Ban)
        → NextIs (rollover scratch name) (ban_round (room_round scratch con s user name c) user o)
    by_ban (some ban) = tt
    by_ban none =
        NextIs-if _ ((s.channel c).invite_only && not (has (s.invitations (user.address)) c)) _ _ tt
          (NextIs-if _ (is_full (s.channel c)) _ _
            (NextIs-if _ ((s.channel c).user_made) _ _ tt (NextIs-rolled_to _)) tt)

join_round-NextIs :
    (g : Globals) (cfg : Settings) (mem : Memory) (scratch : ℕ) (con : Connection) (s : Chats)
    (user : User) (name : Bytes)
    → NextIs (rollover scratch name) (join_round g cfg mem scratch con s user name)
unfolding join_round
join_round-NextIs g cfg mem scratch con s user name = by_find (find s name)
  where
    by_find :
        (o : Option ℕ)
        → NextIs
            (rollover scratch name)
            (round_at (make_round g cfg mem con s user name) (old_round scratch con s user name) o)
    by_find none = Ends-NextIs _ _ (make_round-Ends g cfg mem con s user name)
    by_find (some c) = old_round-NextIs scratch con s user name c

-- Where one of the names that a name rolls over to is not the name of a channel, and none up to that
-- one is written behind the end of `chanbuf`, the loop ends within as many rounds as there are names
-- up to that one.
pub join_loop-rolled :
    (n fuel : ℕ) (g : Globals) (cfg : Settings) (mem : Memory) (scratch : ℕ) (con : Connection)
    (tag : ℕ) (s : Chats) (user : User) (name free : Bytes)
    → rolled scratch n name ≡ some free
    → find s free ≡ none
    → n < fuel
    → (t : Told) × (join_loop fuel g cfg mem scratch con tag s user name ≡ some t)
unfolding join_loop rolled
join_loop-rolled n zero g cfg mem scratch con tag s user name free is_rolled none_there lt =
    absurd (omega arith)
join_loop-rolled zero (suc fuel) g cfg mem scratch con tag s user name free is_rolled none_there
      lt =
    by_round (join_round g cfg mem scratch con s user name) ends
  where
    same : find s name ≡ none
    same = ap (find s) (some_injective name free is_rolled) ∙ none_there

    ends : Ends (join_round g cfg mem scratch con s user name)
    ends = unfold join_round in rw same (make_round-Ends g cfg mem con s user name)

    by_round :
        (r : Round)
        → Ends r
        → (t : Told) × (elim r [
          | left outputs' ↦ some (tell s outputs')
          | try_again other ↦ join_loop fuel g cfg mem scratch con tag s user other
          | overrun ↦ none
          | entering s' c chanop ↦ some (enter_channel g mem con tag user s' c chanop)
        ]
            ≡ some t)
    by_round (left outputs) h = (tell s outputs, refl)
    by_round (try_again other) h = absurd h
    by_round overrun h = absurd h
    by_round (entering s' c op) h = (enter_channel g mem con tag user s' c op, refl)
join_loop-rolled (suc n) (suc fuel) g cfg mem scratch con tag s user name free is_rolled none_there
      lt =
    by_next (rollover scratch name) refl is_rolled (λ next h.
      join_loop-rolled n fuel g cfg mem scratch con tag s user next free h none_there (omega arith))
  where
    by_round :
        (next : Bytes) (r : Round)
        → NextIs (some next) r
        → ((t : Told) × (join_loop fuel g cfg mem scratch con tag s user next ≡ some t))
        → (t : Told) × (elim r [
          | left outputs' ↦ some (tell s outputs')
          | try_again other ↦ join_loop fuel g cfg mem scratch con tag s user other
          | overrun ↦ none
          | entering s' c chanop ↦ some (enter_channel g mem con tag user s' c chanop)
        ]
            ≡ some t)
    by_round next (left outputs) h more = (tell s outputs, refl)
    by_round next (try_again other) h more =
        (more.0, rw (some_injective other next (sym h)) (more.1))
    by_round next overrun h more = cc
    by_round next (entering s' c op) h more = (enter_channel g mem con tag user s' c op, refl)

    by_next :
        (o : Option Bytes)
        → rollover scratch name ≡ o
        → elim o [ none ↦ none | some next ↦ rolled scratch n next ] ≡ some free
        → ((next : Bytes)
            → rolled scratch n next ≡ some free
            → (t : Told) × (join_loop fuel g cfg mem scratch con tag s user next ≡ some t))
        → (t : Told) × (join_loop (suc fuel) g cfg mem scratch con tag s user name ≡ some t)
    by_next none e h more = cc
    by_next (some next) e h more =
        by_round next (join_round g cfg mem scratch con s user name)
          (subst (λ o. NextIs o (join_round g cfg mem scratch con s user name)) e
            (join_round-NextIs g cfg mem scratch con s user name))
          (more next h)

-- Where `Buf` leaves no room for a digit and a round goes on from a name with no number at its end,
-- it goes on with the same name, and the loop never ends: it tries that name for ever.
pub join_loop-rollover_same :
    (fuel : ℕ) (g : Globals) (cfg : Settings) (mem : Memory) (scratch : ℕ) (con : Connection)
    (tag : ℕ) (s : Chats) (user : User) (name other : Bytes)
    → length name ≤ 255
    → split_number name ≡ (name, [])
    → digits_room scratch - 1 ≡ 0
    → join_round g cfg mem scratch con s user name ≡ try_again other
    → (other ≡ name) × (join_loop fuel g cfg mem scratch con tag s user name ≡ none)
unfolding join_loop
join_loop-rollover_same fuel g cfg mem scratch con tag s user name other short plain no_room e =
    (other_is, for_ever fuel)
  where
    next_is : some name ≡ some other
    next_is =
        sym (rollover_same scratch name short plain no_room)
        ∙ subst (NextIs (rollover scratch name)) e
            (join_round-NextIs g cfg mem scratch con s user name)

    other_is : other ≡ name
    other_is = some_injective other name (sym next_is)

    for_ever : (n : ℕ) → join_loop n g cfg mem scratch con tag s user name ≡ none
    for_ever zero = refl
    for_ever (suc n) = rw (e, other_is, join_loop) (for_ever n)
