-- ===== src/Ban/Signon.antt =====
-- ban.c: the test of a user that signs on, and the end of bans.
use opennap.Base.{
  ℕ, ◌+◌, Bool, true, false, ◌&&◌, ◌||◌, List, [], ◌∷◌, ◌++◌, Option, none, some, ltb, ◌==◌,
  if◌then◌else◌, take,
}
use opennap.Text.{Bytes, codes}
use opennap.Glob.{glob_match}
use opennap.Server.{
  Connection, unknown_con, user_con, server_con, text, number, Output, sent, passed, mods_notified,
  Globals,
}
use opennap.Ban.{Ban, Reply, banlog_mode, killlog_mode, msg_unban}

-- `ban->timeout == 0 || ban->when + ban->timeout > Current_Time`
unfoldable pub is_active : ℕ → Ban → Bool
is_active now b = b.timeout == 0 || ltb now (b.when + b.timeout)

-- The first active ban that the text `nick!host` matches.
unfoldable pub matching_ban : ℕ → Bytes → List Ban → Option Ban
unfolding is_active
matching_ban now mask [] = none
matching_ban now mask (b ∷ more) =
    let rest = matching_ban now mask more in
    if is_active now b && glob_match (b.target) mask then some b else rest

-- The result of `check_ban`, the new value of `con->destroy`, and what is sent.
pub record Checked : Type 0 where
  pub banned : Bool
  pub destroy : Bool
  pub outputs : List Output

abbrev pub banned_outputs : Globals → Connection → Bytes → Bytes → Ban → List Output
banned_outputs g unknown_con nick mask b =
    sent 0 "%s banned: %s" (text (b.target) ∷ text (b.reason) ∷ [])
    ∷ passed false 10021 ":%s %d \"Connection from %s: %s banned: %s\"" (
        text (g.server_name)
        ∷ number banlog_mode
        ∷ text mask
        ∷ text (b.target)
        ∷ text (b.reason)
        ∷ [])
    ∷ []
banned_outputs g (user_con user) nick mask b = []
banned_outputs g server_con nick mask b =
    passed true 610 ":%s %s %s banned: %s"
      (text (g.server_name) ∷ text nick ∷ text (b.target) ∷ text (b.reason) ∷ [])
    ∷ mods_notified killlog_mode "%s killed %s: %s banned: %s"
        (text (g.server_name) ∷ text nick ∷ text (b.target) ∷ text (b.reason) ∷ [])
    ∷ []

abbrev pub is_unknown : Connection → Bool
is_unknown unknown_con = true
is_unknown (user_con user) = false
is_unknown server_con = false

abbrev pub checked : Globals → Connection → Bool → Bytes → Bytes → Option Ban → Checked
checked g con destroy' nick mask none = record { banned = false; destroy = destroy'; outputs = [] }
checked g con destroy' nick mask (some b) = record {
  banned = true;
  destroy = is_unknown con || destroy';
  outputs =
      mods_notified banlog_mode "Connection from %s: %s banned: %s"
        (text mask ∷ text (b.target) ∷ text (b.reason) ∷ [])
      ∷ banned_outputs g con nick mask b;
}

abbrev pub user_mask : Bytes → Bytes → Bytes
user_mask nick host = take 255 (nick ++ codes "!" ++ host)

unfoldable pub check_ban : Globals → Connection → Bool → List Ban → Bytes → Bytes → Checked
unfolding matching_ban
check_ban g con destroy' bans' nick host =
    checked g con destroy' nick (user_mask nick host)
      (matching_ban (g.current_time) (user_mask nick host) bans')

-- `b->timeout > 0 && b->when + b->timeout < Current_Time`
unfoldable pub is_expired : ℕ → Ban → Bool
is_expired now b = ltb 0 (b.timeout) && ltb (b.when + b.timeout) now

abbrev pub expiry_outputs : Globals → Ban → List Output
expiry_outputs g b =
    passed false msg_unban ":%s %s \"expired after %d seconds\""
      (text (g.server_name) ∷ text (b.target) ∷ number (b.timeout) ∷ [])
    ∷ mods_notified banlog_mode "%s removed ban on %s: expired after %d seconds"
        (text (g.server_name) ∷ text (b.target) ∷ number (b.timeout) ∷ [])
    ∷ []

unfoldable pub expire_bans : Globals → List Ban → Reply
unfolding is_expired
expire_bans g [] = record { bans = []; outputs = [] }
expire_bans g (b ∷ more) =
    let rest = expire_bans g more in
    if is_expired (g.current_time) b
    then record { bans = rest.bans; outputs = expiry_outputs g b ++ rest.outputs }
    else record { bans = b ∷ rest.bans; outputs = rest.outputs }
