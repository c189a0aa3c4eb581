-- ===== src/Ban/Permission.antt =====
-- ban.c: the messages 612 and 614, by the level of their sender and by what one does to the other.
use opennap.Base.{
  ◌≡◌, ◌⊎◌, refl, Bool, true, false, List, [], ◌∷◌, Option, none, some, ltb, inl, inr,
}
use opennap.Text.{Bytes}
use opennap.Text.Fold.{case_eq_refl}
use opennap.Args.{split_line}
use opennap.Server.{
  fields, User, user_con, Globals, permission_denied, pop_user_server, pop_user, unparsable, sent,
  msg_nosuch, level_moderator, truncate_reason, unparsable,
}
use opennap.Ban.{Ban, Reply, is_banned, set_ban, ban, normalize_ban, too_low}
use opennap.Ban.Removal.{remove_ban, unban, unban_mask, unban_fields}

-- What a removal by such a user gives.
abbrev pub IsRefusal : List Ban → Option Reply → Type 0
IsRefusal bans o =
    (r : Reply) × (o ≡ some r)
    × (r.bans ≡ bans)
    × ((r.outputs ≡ sent msg_nosuch "permission denied" [] ∷ [])
        ⊎ (r.outputs ≡ sent msg_nosuch "parameters are unparsable" [] ∷ []))

refused_mask :
    (g : Globals) (u : User) (bans : List Ban) (mask why : Bytes)
    → ltb (u.level) level_moderator ≡ true
    → IsRefusal bans (some (unban_mask g (user_con u) bans u mask why))
unfolding permission_denied
refused_mask g u bans mask why low = rw low (_, refl, refl, inl refl)

refused_fields :
    (g : Globals) (u : User) (bans : List Ban) (fs : Option (List Bytes))
    → ltb (u.level) level_moderator ≡ true
    → IsRefusal bans (some (unban_fields g (user_con u) bans u fs))
unfolding unparsable
refused_fields g u bans none low = (_, refl, refl, inr refl)
refused_fields g u bans (some []) low = (_, refl, refl, inr refl)
refused_fields g u bans (some (mask ∷ [])) low = refused_mask g u bans mask [] low
refused_fields g u bans (some (mask ∷ why ∷ more)) low = refused_mask g u bans mask why low

-- A user of this server below the level of a moderator changes no ban and reaches no other
-- connection: a ban is answered with a refusal, and its removal with that or with a complaint
-- about the fields.
pub low_user-refused :
    (g : Globals) (u : User) (bans : List Ban) (ok : Bool) (pkt : Bytes)
    → ltb (u.level) level_moderator ≡ true
    → (ban g (user_con u) bans ok pkt
        ≡ some (record { bans = bans; outputs = sent msg_nosuch "permission denied" [] ∷ [] }))
      × IsRefusal bans (unban g (user_con u) bans pkt)
unfolding ban unban pop_user_server pop_user too_low permission_denied
low_user-refused g u bans ok pkt low =
    (rw low refl, refused_fields g u bans (fields 2 (some pkt)) low)

unfoldable pub bans_of : Option Reply → Option (List Ban)
bans_of none = none
bans_of (some r) = some (r.bans)

-- Where a packet is split into one field, and no ban is on its mask, a ban that a moderator of
-- this server sets goes to the front of the list, and the same packet as a removal takes it out
-- again.
pub unban-ban :
    (g : Globals) (u : User) (bans : List Ban) (pkt mask : Bytes)
    → ltb (u.level) level_moderator ≡ false
    → split_line 3 pkt ≡ some (mask ∷ [])
    → split_line 2 pkt ≡ some (mask ∷ [])
    → is_banned (normalize_ban g mask 256) bans ≡ false
    → (b : Ban) × (b.target ≡ normalize_ban g mask 256)
      × (bans_of (ban g (user_con u) bans true pkt) ≡ some (b ∷ bans))
      × (bans_of (unban g (user_con u) (b ∷ bans) pkt) ≡ some bans)
unfolding ban unban bans_of too_low set_ban remove_ban pop_user_server pop_user
unban-ban g u bans pkt mask high three two new =
    let m = normalize_ban g mask 256 in
    let b : Ban = record {
      target = m;
      setby = u.nick;
      reason = truncate_reason g [];
      when = g.current_time;
      timeout = 0;
    } in
    (b, refl, rw (high, three, new) refl, rw (two, high, case_eq_refl m) refl)
