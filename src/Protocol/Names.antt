-- ===== src/Protocol/Names.antt =====
-- The protocol handlers of the table in handler.c, by their names in the source.
pub data RequestHandler : Type 0 where
  login register_nick check_password add_file remove_file search download privmsg : RequestHandler
  add_hotlist browse server_stats resume download_start download_end upload_start : RequestHandler
  upload_end check_port remove_hotlist ignore_list ignore unignore clear_ignore join :
      RequestHandler
  part public server_error topic channel_banlist channel_ban channel_unban : RequestHandler
  channel_clear_bans user_speed whois level upload_request upload_ok kill_user nuke ban :
      RequestHandler
  alter_port unban banlist list_channels queue_limit show_motd muzzle alter_speed : RequestHandler
  data_port_error wallop announce cloak change_speed change_pass change_email : RequestHandler
  change_data_port ping_server ping alter_pass server_reconfig server_version : RequestHandler
  server_config clear_channel redirect_client cycle_client channel_level emote : RequestHandler
  channel_limit full_channel_list kick list_users global_user_list add_directory : RequestHandler
  client_quit server_login server_login_ack user_sharing user_ip reginfo remote_search :
      RequestHandler
  remote_search_result remote_search_end encapsulated link_info server_quit : RequestHandler
  remote_notify_mods server_connect server_disconnect kill_server remove_server : RequestHandler
  server_links server_usage rehash register_user user_mode_cmd channel_op : RequestHandler
  channel_op_list channel_drop channel_wallop channel_mode channel_invite channel_voice :
      RequestHandler
  channel_muzzle share_file browse_new : RequestHandler
