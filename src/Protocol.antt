-- ===== src/Protocol.antt =====
-- handler.c: the table of commands, which must be sorted by their numbers, and its binary search.
pub mod Names
pub mod Find
use opennap.Base.{
  get_elem?, ℕ, zero, suc, ◌+◌, ◌-◌, ◌/◌, Bool, List, [], ◌∷◌, Option, none, some, ltb, ◌==◌,
  if◌then◌else◌, length,
}
use Names.{RequestHandler}

abbrev pub Row : Type 0
Row = ℕ × RequestHandler

unfoldable pub protocol : List Row
protocol =
    (2, RequestHandler.login)
    ∷ (6, RequestHandler.login)
    ∷ (7, RequestHandler.register_nick)
    ∷ (11, RequestHandler.check_password)
    ∷ (100, RequestHandler.add_file)
    ∷ (102, RequestHandler.remove_file)
    ∷ (200, RequestHandler.search)
    ∷ (203, RequestHandler.download)
    ∷ (205, RequestHandler.privmsg)
    ∷ (207, RequestHandler.add_hotlist)
    ∷ (208, RequestHandler.add_hotlist)
    ∷ (211, RequestHandler.browse)
    ∷ (214, RequestHandler.server_stats)
    ∷ (215, RequestHandler.resume)
    ∷ (218, RequestHandler.download_start)
    ∷ (219, RequestHandler.download_end)
    ∷ (220, RequestHandler.upload_start)
    ∷ (221, RequestHandler.upload_end)
    ∷ (300, RequestHandler.check_port)
    ∷ (303, RequestHandler.remove_hotlist)
    ∷ (320, RequestHandler.ignore_list)
    ∷ (322, RequestHandler.ignore)
    ∷ (323, RequestHandler.unignore)
    ∷ (326, RequestHandler.clear_ignore)
    ∷ (400, RequestHandler.join)
    ∷ (401, RequestHandler.part)
    ∷ (402, RequestHandler.public)
    ∷ (403, RequestHandler.public)
    ∷ (404, RequestHandler.server_error)
    ∷ (410, RequestHandler.topic)
    ∷ (420, RequestHandler.channel_banlist)
    ∷ (422, RequestHandler.channel_ban)
    ∷ (423, RequestHandler.channel_unban)
    ∷ (424, RequestHandler.channel_clear_bans)
    ∷ (500, RequestHandler.download)
    ∷ (600, RequestHandler.user_speed)
    ∷ (603, RequestHandler.whois)
    ∷ (606, RequestHandler.level)
    ∷ (607, RequestHandler.upload_request)
    ∷ (608, RequestHandler.upload_ok)
    ∷ (610, RequestHandler.kill_user)
    ∷ (611, RequestHandler.nuke)
    ∷ (612, RequestHandler.ban)
    ∷ (613, RequestHandler.alter_port)
    ∷ (614, RequestHandler.unban)
    ∷ (615, RequestHandler.banlist)
    ∷ (617, RequestHandler.list_channels)
    ∷ (619, RequestHandler.queue_limit)
    ∷ (621, RequestHandler.show_motd)
    ∷ (622, RequestHandler.muzzle)
    ∷ (623, RequestHandler.muzzle)
    ∷ (625, RequestHandler.alter_speed)
    ∷ (626, RequestHandler.data_port_error)
    ∷ (627, RequestHandler.wallop)
    ∷ (628, RequestHandler.announce)
    ∷ (652, RequestHandler.cloak)
    ∷ (700, RequestHandler.change_speed)
    ∷ (701, RequestHandler.change_pass)
    ∷ (702, RequestHandler.change_email)
    ∷ (703, RequestHandler.change_data_port)
    ∷ (750, RequestHandler.ping_server)
    ∷ (751, RequestHandler.ping)
    ∷ (752, RequestHandler.ping)
    ∷ (753, RequestHandler.alter_pass)
    ∷ (800, RequestHandler.server_reconfig)
    ∷ (801, RequestHandler.server_version)
    ∷ (810, RequestHandler.server_config)
    ∷ (820, RequestHandler.clear_channel)
    ∷ (821, RequestHandler.redirect_client)
    ∷ (822, RequestHandler.cycle_client)
    ∷ (823, RequestHandler.channel_level)
    ∷ (824, RequestHandler.emote)
    ∷ (826, RequestHandler.channel_limit)
    ∷ (827, RequestHandler.full_channel_list)
    ∷ (829, RequestHandler.kick)
    ∷ (830, RequestHandler.list_users)
    ∷ (831, RequestHandler.global_user_list)
    ∷ (870, RequestHandler.add_directory)
    ∷ (10000, RequestHandler.client_quit)
    ∷ (10010, RequestHandler.server_login)
    ∷ (10011, RequestHandler.server_login_ack)
    ∷ (10012, RequestHandler.user_sharing)
    ∷ (10013, RequestHandler.user_ip)
    ∷ (10014, RequestHandler.reginfo)
    ∷ (10015, RequestHandler.remote_search)
    ∷ (10016, RequestHandler.remote_search_result)
    ∷ (10017, RequestHandler.remote_search_end)
    ∷ (10018, RequestHandler.encapsulated)
    ∷ (10019, RequestHandler.link_info)
    ∷ (10020, RequestHandler.server_quit)
    ∷ (10021, RequestHandler.remote_notify_mods)
    ∷ (10100, RequestHandler.server_connect)
    ∷ (10101, RequestHandler.server_disconnect)
    ∷ (10110, RequestHandler.kill_server)
    ∷ (10111, RequestHandler.remove_server)
    ∷ (10112, RequestHandler.server_links)
    ∷ (10115, RequestHandler.server_usage)
    ∷ (10117, RequestHandler.rehash)
    ∷ (10200, RequestHandler.register_user)
    ∷ (10201, RequestHandler.channel_level)
    ∷ (10202, RequestHandler.kick)
    ∷ (10203, RequestHandler.user_mode_cmd)
    ∷ (10204, RequestHandler.channel_op)
    ∷ (10205, RequestHandler.channel_op)
    ∷ (10206, RequestHandler.channel_op_list)
    ∷ (10207, RequestHandler.channel_drop)
    ∷ (10208, RequestHandler.channel_wallop)
    ∷ (10209, RequestHandler.channel_mode)
    ∷ (10210, RequestHandler.channel_invite)
    ∷ (10211, RequestHandler.channel_voice)
    ∷ (10212, RequestHandler.channel_voice)
    ∷ (10213, RequestHandler.channel_muzzle)
    ∷ (10214, RequestHandler.channel_muzzle)
    ∷ (10300, RequestHandler.share_file)
    ∷ (10301, RequestHandler.browse_new)
    ∷ []

-- `found` is the index in the table, and `absent` is -1. `out_of_range` would be a read outside the
-- table, and `no_fuel` belongs to the model only.
pub data Search : Type 0 where
  found : ℕ → Search
  absent out_of_range no_fuel : Search

-- The loop. `caught k` is `SigCaught` as it is read before round `k`.
unfoldable pub find_loop : ℕ → (ℕ → Bool) → ℕ → List Row → ℕ → ℕ → ℕ → Search
find_loop zero caught k table tag min max = no_fuel
find_loop (suc fuel) caught k table tag min max =
    let try = (max + min) / 2 in
    let lower = find_loop fuel caught (suc k) table tag min (try - 1) in
    let upper = find_loop fuel caught (suc k) table tag (try + 1) max in
    if caught k then absent else elim (get_elem? table try) [
      | none ↦ out_of_range
      | some (message, _) ↦
          if tag == message
          then found try
          else if min == max
          then absent
          else if ltb tag message
          then if try == min then absent else lower
          else if try == max
          then absent
          else upper
    ]

unfoldable pub find_handler : (ℕ → Bool) → List Row → ℕ → Search
find_handler caught table tag =
    find_loop (suc (length table)) caught 0 table tag 0 (length table - 1)
