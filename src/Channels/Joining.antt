-- ===== src/Channels/Joining.antt =====
-- join.c: the message that joins a channel, and the invariant of the links.
use opennap.Base.{
  ℕ, ◌≡◌, refl, sym, subst, fun_ext, inl, inr, Bool, true, false, ◌&&◌, not, ltb, leb, List, [],
  ◌∷◌, Option, none, some, arith, if◌then◌else◌, ◌==◌, Bool-cases, ==_iff, ==_refl, update,
}
use opennap.Text.{Bytes}
use opennap.LinkedList.{list_delete}
use opennap.LinkedList.Laws.{count}
use opennap.Ban.{Ban}
use opennap.Server.{User, Connection, Globals, level_moderator}
use opennap.Channels.{Chats, Settings, null_list, has, find, destroy_channel}
use opennap.Channels.Names.{invalid_channel, names_user, is_banned, rollover}
use opennap.Channels.Join.{
  Memory, Round, left, try_again, overrun, entering, create, make_round, is_full, rolled_to,
  room_round, ban_round, old_round, round_at, join_round, use_invitation, list_joined, undo_join,
  enter_channel,
}
use opennap.Channels.Links.{
  IsLinked, Linked, Linked-if, find_lem, has-count, put-IsLinked, entered-IsLinked,
}
use opennap.Channels.Creating.{IsReady, created-IsReady}
use opennap.Channels.Leaving.{destroy_channel-IsLinked, null_list→[]}

abbrev pub RoundReady : User → Round → Type 0
RoundReady user (left outputs) = Unit
RoundReady user (try_again name) = Unit
RoundReady user overrun = Unit
RoundReady user (entering s c op) = IsReady s c user

RoundReady-if :
    (user : User) (b : Bool) (x y : Round)
    → (b ≡ true → RoundReady user x)
    → (b ≡ false → RoundReady user y)
    → RoundReady user (if b then x else y)
RoundReady-if user true x y h k = h refl
RoundReady-if user false x y h k = k refl

find-cases :
    (user : User) (new : Round) (old : ℕ → Round) (o : Option ℕ)
    → (o ≡ none → RoundReady user new)
    → ((c : ℕ) → o ≡ some c → RoundReady user (old c))
    → RoundReady user (round_at new old o)
find-cases user new old none h k = h refl
find-cases user new old (some c) h k = k c refl

make_round-RoundReady :
    (g : Globals) (cfg : Settings) (mem : Memory) (con : Connection) (s : Chats) (user : User)
    (name : Bytes)
    → mem.entry ≡ true
    → IsLinked s
    → find s name ≡ none
    → RoundReady user (make_round g cfg mem con s user name)
unfolding make_round
make_round-RoundReady g cfg mem con s user name entry k absent =
    RoundReady-if user (cfg.strict_channels && ltb (user.level) level_moderator) _ _ (λ e. tt)
      (λ e.
        RoundReady-if user (invalid_channel cfg name) _ _ (λ bad. tt)
          (λ good.
            RoundReady-if user (mem.object && (mem.name && mem.topic)) _ _
              (λ free.
                subst (λ b. IsReady (create g cfg b s name) (s.next) user) (sym entry)
                  (created-IsReady g cfg s name k absent user))
              (λ full. tt)))

room_round-RoundReady :
    (scratch : ℕ) (con : Connection) (s : Chats) (user : User) (name : Bytes) (c : ℕ)
    → IsReady s c user
    → RoundReady user (room_round scratch con s user name c)
room_round-RoundReady scratch con s user name c r =
    RoundReady-if user ((s.channel c).invite_only && not (has (s.invitations (user.address)) c)) _ _
      (λ e. tt)
      (λ e.
        RoundReady-if user (is_full (s.channel c)) _ _
          (λ full.
            RoundReady-if user ((s.channel c).user_made) _ _ (λ u. tt)
              (λ u. rolls (rollover scratch name)))
          (λ free. r))
  where
    rolls : (o : Option Bytes) → RoundReady user (rolled_to o)
    rolls none = tt
    rolls (some other) = tt

ban_round-RoundReady :
    (next : Round) (user : User) (o : Option Ban)
    → RoundReady user next
    → RoundReady user (ban_round next user o)
ban_round-RoundReady next user none r = r
ban_round-RoundReady next user (some ban) r = tt

old_round-RoundReady :
    (scratch : ℕ) (con : Connection) (s : Chats) (user : User) (name : Bytes) (c : ℕ)
    → IsLinked s
    → find s name ≡ some c
    → RoundReady user (old_round scratch con s user name c)
unfolding old_round
old_round-RoundReady scratch con s user name c k found =
    RoundReady-if user (has (s.joined (user.address)) c) _ _ (λ e. tt)
      (λ absent.
        let ready = ready_of absent in
        RoundReady-if user (ltb (user.level) ((s.channel c).level)) _ _ (λ e. tt)
          (λ e.
            RoundReady-if user (names_user ((s.channel c).ops) (user.nick)) _ _ (λ op. ready)
              (λ op.
                RoundReady-if user (leb level_moderator (user.level)) _ _ (λ high. ready)
                  (λ low.
                    ban_round-RoundReady _ user
                      (is_banned ((s.channel c).bans) (user.nick) (user.host))
                      (room_round-RoundReady scratch con s user name c ready)))))
  where
    ready_of : has (s.joined (user.address)) c ≡ false → IsReady s c user
    ready_of absent =
        let (here, lt) = find_lem s name c k found in
        record {
          linked = k;
          known = lt;
          new = let h = has-count (s.joined (user.address)) c in ground arith;
          here = here;
        }

pub join_round-RoundReady :
    (g : Globals) (cfg : Settings) (mem : Memory) (scratch : ℕ) (con : Connection) (s : Chats)
    (user : User) (name : Bytes)
    → mem.entry ≡ true
    → IsLinked s
    → RoundReady user (join_round g cfg mem scratch con s user name)
unfolding join_round
join_round-RoundReady g cfg mem scratch con s user name entry k =
    find-cases user _ _ (find s name)
      (λ absent. make_round-RoundReady g cfg mem con s user name entry k absent)
      (λ c found. old_round-RoundReady scratch con s user name c k found)

use_invitation-IsReady :
    (s : Chats) (c : ℕ) (user : User) → IsReady s c user → IsReady (use_invitation s c user) c user
unfolding use_invitation
use_invitation-IsReady s c user r = by_flag ((s.channel c).invite_only)
  where
    cleaned : Chats
    cleaned = record s {
      channel =
          update (s.channel) c
            (record (s.channel c) { invited = list_delete ((s.channel c).invited) (user.address) });
      invitations =
          update (s.invitations) (user.address) (list_delete (s.invitations (user.address)) c);
    }

    linked_of : IsLinked cleaned
    linked_of =
        let p =
          put-IsLinked s c
            (record (s.channel c) { invited = list_delete ((s.channel c).invited) (user.address) })
            refl refl (r.linked) in
        record {
          valid = p.valid;
          both = p.both;
          once = p.once;
          fresh = p.fresh;
          entry = p.entry;
          listed = p.listed;
        }

    by_flag : (b : Bool) → IsReady (if b then cleaned else s) c user
    by_flag false = r
    by_flag true = record {
      linked = linked_of;
      known = r.known;
      new = r.new;
      here = rw (==_refl c) (r.here);
    }

list_delete_absent : (l : List ℕ) (d : ℕ) → count d l ≡ 0 → list_delete l d ≡ l
unfolding list_delete count
list_delete_absent [] d e = refl
list_delete_absent (p ∷ l) d e = ground (arith, list_delete_absent l d)

-- The join is undone where the list of the user's channels is as it was.
undo-IsLinked :
    (s : Chats) (c : ℕ) (user : User) (joined' : ℕ → List ℕ)
    → joined' ≡ s.joined
    → IsReady s c user
    → IsLinked (
        let undone : Chats = record s { joined = joined' } in
        if null_list ((s.channel c).users)
        then destroy_channel undone ((s.channel c).name)
        else undone)
undo-IsLinked s c user joined' same r =
    subst
      (λ j. IsLinked (
        let undone : Chats = record s { joined = j } in
        if null_list ((s.channel c).users)
        then destroy_channel undone ((s.channel c).name)
        else undone))
      (sym same)
      (elim (Bool-cases (null_list ((s.channel c).users))) [
        | inl e ↦ rw e (
            destroy_channel-IsLinked s c (null_list→[] ((s.channel c).users) e) (r.linked) (r.here))
        | inr e ↦ rw e (r.linked)
      ])

-- What a join leaves when the channel is found.
pub enter-Linked :
    (g : Globals) (mem : Memory) (con : Connection) (tag : ℕ) (user : User) (s : Chats) (c : ℕ)
    (op : Bool)
    → IsReady s c user
    → Linked (enter_channel g mem con tag user s c op)
unfolding enter_channel undo_join
enter-Linked g mem con tag user s c op ready =
    Linked-if (mem.own_node) _ _
      (λ e.
        Linked-if (mem.user_node) _ _
          (λ f. entered-IsLinked s' c user op (r.known) (r.new) (r.here) (r.linked))
          (λ f. undo-IsLinked s' c user _ (fun_ext relisted) r))
      (λ e. undo-IsLinked s' c user _ (fun_ext unlisted) r)
  where
    s' : Chats
    s' = use_invitation s c user

    r : IsReady s' c user
    r = use_invitation-IsReady s c user ready

    relisted :
        (x : ℕ)
        → update
            ((list_joined s' c user).joined)
            (user.address)
            (list_delete ((list_joined s' c user).joined (user.address)) c)
            x
          ≡ s'.joined x
    relisted x =
        unfold list_joined list_delete in
        elim (Bool-cases (x == user.address)) [
          | inl e ↦ rw ((==_iff x (user.address)).0 e, ==_refl (user.address), ==_refl c) refl
          | inr e ↦ rw e
        ]

    unlisted :
        (x : ℕ)
        → update (s'.joined) (user.address) (list_delete (s'.joined (user.address)) c) x
          ≡ s'.joined x
    unlisted x = elim (Bool-cases (x == user.address)) [
      | inl e ↦
          rw ((==_iff x (user.address)).0 e, ==_refl (user.address))
            (list_delete_absent (s'.joined (user.address)) c (r.new))
      | inr e ↦ rw e
    ]
