-- ===== src/Ban/Unique.antt =====
-- ban.c: the messages 612 and 614, on the masks of the list.
use opennap.Base.{
  ℕ, ◌≡◌, ◌⊎◌, ap, refl, Bool, true, false, ◌||◌, List, [], ◌∷◌, Option, none, some, arith, ltb, ℤ,
  pos, negsuc, Bool-cases, inl, inr,
}
use opennap.Text.{Bytes, case_eq}
use opennap.Server.{
  fields, User, Connection, is_known, Globals, Popped, failed, null_user, popped, pop_user_server,
  pop_user, truncate_reason, atoi, level_moderator,
}
use opennap.Server.Senders.{IsRead, NamesNobody, pop_user_server-Pops, pop_user-IsRead}
use opennap.Ban.{
  Ban, Reply, is_banned, set_ban, with_timeout, ban_fields, ban_popped, ban, normalize_ban, too_low,
}
use opennap.Ban.Removal.{remove_ban, removed, unban_mask, unban_fields, unban_popped, unban}

-- No ban has the mask of another, up to the case of letters.
unfoldable pub IsUnique : List Ban → Type 0
IsUnique [] = Unit
IsUnique (b ∷ more) = (is_banned (b.target) more ≡ false) × IsUnique more

set_ban-IsUnique :
    (g : Globals) (con : Connection) (bans : List Ban) (ok : Bool) (nick mask banptr why : Bytes)
    (seconds : ℕ) (given : Bytes)
    → IsUnique bans
    → IsUnique ((set_ban g con bans ok nick mask banptr why seconds given).bans)
unfolding set_ban IsUnique
set_ban-IsUnique g con bans true nick mask banptr why seconds given h =
    elim (Bool-cases (is_banned banptr bans)) [ inl e ↦ rw e h | inr e ↦ rw (e, e) (refl, h) ]
set_ban-IsUnique g con bans false nick mask banptr why seconds given h =
    elim (Bool-cases (is_banned banptr bans)) [ inl e ↦ rw e h | inr e ↦ rw e h ]

-- The handler answers, and keeps the list so.
abbrev Keeps : Option Reply → Type 0
Keeps none = ⊥
Keeps (some r) = IsUnique (r.bans)

Keeps-some : (o : Option Reply) → Keeps o → (r : Reply) × (o ≡ some r) × IsUnique (r.bans)
Keeps-some none h = absurd h
Keeps-some (some r) h = (r, refl, h)

ban_fields-IsUnique :
    (g : Globals) (con : Connection) (bans : List Ban) (ok : Bool) (nick : Bytes)
    (fs : Option (List Bytes))
    → IsUnique bans
    → IsUnique ((ban_fields g con bans ok nick fs).bans)
ban_fields-IsUnique g con bans ok nick none h = h
ban_fields-IsUnique g con bans ok nick (some []) h = h
ban_fields-IsUnique g con bans ok nick (some (mask ∷ [])) h =
    set_ban-IsUnique g con bans ok nick mask _ _ 0 [] h
ban_fields-IsUnique g con bans ok nick (some (mask ∷ why ∷ [])) h =
    set_ban-IsUnique g con bans ok nick mask _ _ 0 [] h
ban_fields-IsUnique g con bans ok nick (some (mask ∷ why ∷ given ∷ more)) h = timed (atoi given)
  where
    timed : (z : ℤ) → IsUnique ((with_timeout g con bans ok nick mask why given z).bans)
    timed (pos seconds) = set_ban-IsUnique g con bans ok nick mask _ _ seconds given h
    timed (negsuc n) = h

ban_popped-IsUnique :
    (g : Globals) (con : Connection) (bans : List Ban) (ok : Bool) (p : Popped)
    → IsRead false p
    → IsUnique bans
    → Keeps (ban_popped g con bans ok p)
ban_popped-IsUnique g con bans ok failed r h = h
ban_popped-IsUnique g con bans ok null_user r h = absurd r
ban_popped-IsUnique g con bans ok (popped nick sender pkt) r h =
    elim (Bool-cases (too_low sender)) [
      | inl e ↦ rw e h
      | inr e ↦ rw e (ban_fields-IsUnique g con bans ok nick (fields 3 pkt) h)
    ]

-- On a connection of a known class, and where no two bans had one mask, the message 612 is handled and
-- leaves no two bans with one mask, with no null pointer read. The one exception is a message of a
-- server that names neither a server nor a user as its sender: a null pointer is handed to `log`.
pub ban-IsUnique :
    (g : Globals) (con : Connection) (bans : List Ban) (ok : Bool) (pkt : Bytes)
    → is_known con ≡ true
    → IsUnique bans
    → (NamesNobody g con pkt × (ban g con bans ok pkt ≡ none))
      ⊎ ((r : Reply) × (ban g con bans ok pkt ≡ some r) × IsUnique (r.bans))
unfolding ban
ban-IsUnique g con bans ok pkt known h = elim (pop_user_server-Pops g con pkt known) [
  | inl (nobody', null) ↦ inl (nobody', ap (ban_popped g con bans ok) null)
  | inr read ↦ inr (
      Keeps-some (ban_popped g con bans ok (pop_user_server g con pkt))
        (ban_popped-IsUnique g con bans ok (pop_user_server g con pkt) read h))
]

-- What removing a ban leaves.
abbrev Leaves : List Ban → Option (Ban × List Ban) → Type 0
Leaves bans none = Unit
Leaves bans (some (b, rest)) =
    ((x : Bytes) → is_banned x bans ≡ false → is_banned x rest ≡ false) × IsUnique rest

or_right : (a b : Bool) → (a || b) ≡ false → b ≡ false
or_right a b h = ground arith

or_left : (a b : Bool) → (a || b) ≡ false → a ≡ false
or_left a b h = ground arith

kept :
    (b : Ban) (more : List Ban) (o : Option (Ban × List Ban))
    → is_banned (b.target) more ≡ false
    → Leaves more o
    → Leaves (b ∷ more) (elim o [ none ↦ none | some (found, rest) ↦ some (found, b ∷ rest) ])
unfolding is_banned IsUnique
kept b more none new h = tt
kept b more (some (found, rest)) new h = (
  λ x e.
      rw (or_left (case_eq x (b.target)) (is_banned x more) e)
        (h.0 x (or_right (case_eq x (b.target)) (is_banned x more) e)),
  (h.0 (b.target) new, h.1),
)

remove_ban-Leaves : (m : Bytes) (bans : List Ban) → IsUnique bans → Leaves bans (remove_ban m bans)
unfolding remove_ban is_banned IsUnique
remove_ban-Leaves m [] h = tt
remove_ban-Leaves m (b ∷ more) h = elim (Bool-cases (case_eq m (b.target))) [
  | inl e ↦ rw e ((λ x. or_right (case_eq x (b.target)) (is_banned x more)), h.1)
  | inr e ↦ rw e (kept b more (remove_ban m more) (h.0) (remove_ban-Leaves m more (h.1)))
]

unban_mask-IsUnique :
    (g : Globals) (con : Connection) (bans : List Ban) (user : User) (mask why : Bytes)
    → IsUnique bans
    → IsUnique ((unban_mask g con bans user mask why).bans)
unban_mask-IsUnique g con bans user mask why h =
    elim (Bool-cases (ltb (user.level) level_moderator)) [
      | inl e ↦ rw e h
      | inr e ↦
          rw e (left (remove_ban (normalize_ban g mask 256) bans) (remove_ban-Leaves _ bans h))
    ]
  where
    left :
        (o : Option (Ban × List Ban))
        → Leaves bans o
        → IsUnique ((removed con bans (user.nick) (truncate_reason g why) o).bans)
    left none l = h
    left (some (b, rest)) l = l.1

unban_popped-IsUnique :
    (g : Globals) (con : Connection) (bans : List Ban) (p : Popped)
    → IsRead true p
    → IsUnique bans
    → Keeps (unban_popped g con bans p)
unban_popped-IsUnique g con bans failed r h = h
unban_popped-IsUnique g con bans null_user r h = absurd r
unban_popped-IsUnique g con bans (popped nick none pkt) r h = absurd r
unban_popped-IsUnique g con bans (popped nick (some user) pkt) r h = by_fields (fields 2 pkt)
  where
    by_fields : (fs : Option (List Bytes)) → IsUnique ((unban_fields g con bans user fs).bans)
    by_fields none = h
    by_fields (some []) = h
    by_fields (some (mask ∷ [])) = unban_mask-IsUnique g con bans user mask [] h
    by_fields (some (mask ∷ why ∷ more)) = unban_mask-IsUnique g con bans user mask why h

-- On a connection of a known class the message 614 is handled with no read through a null pointer,
-- and leaves no two bans with one mask where there were none.
pub unban-IsUnique :
    (g : Globals) (con : Connection) (bans : List Ban) (pkt : Bytes)
    → is_known con ≡ true
    → IsUnique bans
    → (r : Reply) × (unban g con bans pkt ≡ some r) × IsUnique (r.bans)
unfolding unban
unban-IsUnique g con bans pkt known h =
    Keeps-some (unban_popped g con bans (pop_user g con pkt))
      (unban_popped-IsUnique g con bans (pop_user g con pkt) (pop_user-IsRead g con pkt known) h)
