-- ===== src/Ban/Active.antt =====
-- ban.c: `check_ban` and `expire_bans`, by the bans that are in force.
use opennap.Base.{
  ℕ, ◌≡◌, ◌≢◌, ◌⊎◌, ◌≤◌, ◌<◌, ◌+◌, refl, ap, Bool, true, false, ◌&&◌, ◌||◌, List, [], ◌∷◌, ◌++◌,
  Option, none, some, arith, if◌then◌else◌, Bool-cases, inl, inr,
}
use opennap.Text.{Bytes}
use opennap.Glob.{glob_match}
use opennap.Server.{Connection, Globals, Output, mods_notified, text}
use opennap.Ban.{Ban, banlog_mode}
use opennap.Ban.Signon.{
  is_active, is_expired, matching_ban, checked, check_ban, user_mask, expire_bans, expiry_outputs,
  is_unknown, Checked, banned_outputs,
}

-- The ban is on the list, with none before it that fits.
pub data First (fits : Ban → Bool) : List Ban → Ban → Type 0 where
  here : {b : Ban} {more : List Ban} → fits b ≡ true → First fits (b ∷ more) b
  there :
      {a b : Ban} {more : List Ban} → fits a ≡ false → First fits more b → First fits (a ∷ more) b

abbrev pub None : (Ban → Bool) → List Ban → Type 0
None fits [] = Unit
None fits (b ∷ more) = (fits b ≡ false) × None fits more

abbrev Answers : (Ban → Bool) → List Ban → Option Ban → Type 0
Answers fits bans none = None fits bans
Answers fits bans (some b) = First fits bans b

abbrev pub catches : ℕ → Bytes → Ban → Bool
catches now mask b = is_active now b && glob_match (b.target) mask

matching_ban-Answers :
    (now : ℕ) (mask : Bytes) (bans : List Ban)
    → Answers (catches now mask) bans (matching_ban now mask bans)
unfolding matching_ban
matching_ban-Answers now mask [] = tt
matching_ban-Answers now mask (b ∷ more) = elim (Bool-cases (catches now mask b)) [
  | inl e ↦ rw e (here e)
  | inr e ↦ rw e (later (matching_ban now mask more) e (matching_ban-Answers now mask more))
]
  where
    later :
        (o : Option Ban)
        → catches now mask b ≡ false
        → Answers (catches now mask) more o
        → Answers (catches now mask) (b ∷ more) o
    later none e h = (e, h)
    later (some a) e h = there e h

-- What a refusal by the ban comes to.
abbrev pub refused : Globals → Connection → Bool → Bytes → Bytes → Ban → Checked
refused g con marked nick host b = record {
  banned = true;
  destroy = is_unknown con || marked;
  outputs =
      mods_notified banlog_mode "Connection from %s: %s banned: %s"
        (text (user_mask nick host) ∷ text (b.target) ∷ text (b.reason) ∷ [])
      ∷ banned_outputs g con nick (user_mask nick host) b;
}

-- A user is refused by the first ban on the list that is in force and whose mask matches it: the
-- moderators are told the mask and the reason of that ban, the connection gets what a ban makes it
-- send, and is marked for destruction if it has not yet signed on. Where no such ban is on the list,
-- nothing is sent and the mark stays as it was.
pub check_ban-First :
    (g : Globals) (con : Connection) (marked : Bool) (bans : List Ban) (nick host : Bytes)
    → (None (catches (g.current_time) (user_mask nick host)) bans
        × (check_ban g con marked bans nick host
            ≡ record { banned = false; destroy = marked; outputs = [] }))
      ⊎ ((b : Ban) × First (catches (g.current_time) (user_mask nick host)) bans b
          × (check_ban g con marked bans nick host ≡ refused g con marked nick host b))
unfolding check_ban
check_ban-First g con marked bans nick host =
    by_answer (matching_ban (g.current_time) (user_mask nick host) bans)
      (matching_ban-Answers (g.current_time) (user_mask nick host) bans)
  where
    by_answer :
        (o : Option Ban)
        → Answers (catches (g.current_time) (user_mask nick host)) bans o
        → (None (catches (g.current_time) (user_mask nick host)) bans
            × (checked g con marked nick (user_mask nick host) o
                ≡ record { banned = false; destroy = marked; outputs = [] }))
          ⊎ ((b : Ban) × First (catches (g.current_time) (user_mask nick host)) bans b
              × (checked g con marked nick (user_mask nick host) o
                  ≡ refused g con marked nick host b))
    by_answer none h = inl (h, refl)
    by_answer (some b) h = inr (b, h, refl)

expired-inactive : (now : ℕ) (b : Ban) → is_expired now b ≡ true → is_active now b ≡ false
unfolding is_expired is_active
expired-inactive now b h = ground arith

matching_ban-expire_bans :
    (g : Globals) (mask : Bytes) (bans : List Ban)
    → matching_ban (g.current_time) mask ((expire_bans g bans).bans)
      ≡ matching_ban (g.current_time) mask bans
unfolding expire_bans matching_ban
matching_ban-expire_bans g mask [] = refl
matching_ban-expire_bans g mask (b ∷ more) = elim (Bool-cases (is_expired (g.current_time) b)) [
  | inl e ↦ rw (e, expired-inactive (g.current_time) b e) (matching_ban-expire_bans g mask more)
  | inr e ↦ rw e (
      ap
        (λ rest.
          if is_active (g.current_time) b && glob_match (b.target) mask then some b else rest)
        (matching_ban-expire_bans g mask more))
]

-- Taking the expired bans off the list changes the test of no user.
pub check_ban-expire_bans :
    (g : Globals) (con : Connection) (marked : Bool) (bans : List Ban) (nick host : Bytes)
    → check_ban g con marked ((expire_bans g bans).bans) nick host
      ≡ check_ban g con marked bans nick host
unfolding check_ban
check_ban-expire_bans g con marked bans nick host =
    ap (checked g con marked nick (user_mask nick host))
      (matching_ban-expire_bans g (user_mask nick host) bans)

-- Each ban is kept or has expired, in the order of the list, and its expiry is passed on.
pub data Reaped (g : Globals) : List Ban → List Ban → List Output → Type 0 where
  empty : Reaped g [] [] []
  keep :
      {b : Ban} {bans kept : List Ban} {outputs : List Output}
      → (b.timeout ≡ 0) ⊎ (g.current_time ≤ b.when + b.timeout)
      → Reaped g bans kept outputs
      → Reaped g (b ∷ bans) (b ∷ kept) outputs
  reap :
      {b : Ban} {bans kept : List Ban} {outputs : List Output}
      → b.timeout ≢ 0
      → b.when + b.timeout < g.current_time
      → Reaped g bans kept outputs
      → Reaped g (b ∷ bans) kept (expiry_outputs g b ++ outputs)

not_expired :
    (now : ℕ) (b : Ban) → is_expired now b ≡ false → (b.timeout ≡ 0) ⊎ (now ≤ b.when + b.timeout)
unfolding is_expired
not_expired now b h = ground arith

expired :
    (now : ℕ) (b : Ban) → is_expired now b ≡ true → (b.timeout ≢ 0) × (b.when + b.timeout < now)
unfolding is_expired
expired now b h = ground arith

-- Exactly the bans whose time is over before the present second are taken off the list, the others
-- stay in their order, and for each that goes the other servers and the moderators are told.
pub expire_bans-Reaped :
    (g : Globals) (bans : List Ban)
    → Reaped g bans ((expire_bans g bans).bans) ((expire_bans g bans).outputs)
unfolding expire_bans
expire_bans-Reaped g [] = empty
expire_bans-Reaped g (b ∷ more) = elim (Bool-cases (is_expired (g.current_time) b)) [
  | inl e ↦ rw e (
      reap ((expired (g.current_time) b e).0) ((expired (g.current_time) b e).1)
        (expire_bans-Reaped g more))
  | inr e ↦ rw e (keep (not_expired (g.current_time) b e) (expire_bans-Reaped g more))
]
