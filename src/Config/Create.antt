-- ===== src/Config/Create.antt =====
-- src/configuration.c: `mptcpd_config_create`, from the settings file and the merge on.
use mptcpd.Common.{
  Bool, true, false, not, Option, none, some, is_some, List, [], ◌∷◌, ◌++◌, ◌==◌, if◌then◌else◌,
}
use mptcpd.Config.Sources.{
  Str, Key, Argument, SettingsFile, check_file_perms, Config, unset, push_all, parse_options,
  parse_config_log, parse_config_plugin_dir, parse_config_addr_flags, parse_config_notify_flags,
  parse_config_default_plugin, parse_config_plugins_to_load,
}
use mptcpd.Ell.Queue.{Queue}

-- `p == NULL ? q : p`.
abbrev pub or_else {ℓ} : {A : Type ℓ} → Option A → Option A → Option A
or_else none b = b
or_else (some a) b = some a

module _ (queue : Queue Str) where
  open queue use {Q, new, entries}

  -- The settings that `parse_config_file` reads, in its order.
  unfoldable pub parse_settings : Config queue → (Key → Option Str) → Config queue
  parse_settings config settings =
      let c1 = parse_config_log queue config settings in
      let c2 = parse_config_plugin_dir queue c1 settings in
      let c3 = parse_config_notify_flags queue c2 settings in
      let c4 = parse_config_addr_flags queue c3 settings in
      let c5 = parse_config_default_plugin queue c4 settings in
      parse_config_plugins_to_load queue c5 settings

  -- `parse_config_file`: the configuration, and whether it was parsed.
  unfoldable pub parse_config_file : Config queue → SettingsFile → Config queue × Bool
  parse_config_file config file =
      if not (check_file_perms file.stat)
      then (config, false)
      else if not file.created
      then (config, false)
      else (elim file.settings [
        | none ↦ (config, true)
        | some settings ↦ (parse_settings config settings, true)
      ])

  -- `parse_config_files`, over the one file MPTCPD_CONFIG_FILE.
  unfoldable pub parse_config_files : Config queue → List SettingsFile → Config queue × Bool
  parse_config_files config [] = (config, true)
  parse_config_files config (file ∷ rest) =
      let r = parse_config_file config file in
      let later = parse_config_files r.0 rest in if r.1 then later else r

  -- The queue of `merge_config`, which is copied entry by entry.
  unfoldable pub merge_plugins : Option Q → Option Q → Option Q
  merge_plugins (some q) src = some q
  merge_plugins none none = none
  merge_plugins none (some q) = some (push_all queue new (entries q))

  -- `merge_config`, which always returns true.
  unfoldable pub merge_config : Config queue → Config queue → Config queue
  merge_config dst src = record {
    log_set = or_else dst.log_set src.log_set;
    plugin_dir = or_else dst.plugin_dir src.plugin_dir;
    addr_flags = if dst.addr_flags == 0 then src.addr_flags else dst.addr_flags;
    notify_flags = if dst.notify_flags == 0 then src.notify_flags else dst.notify_flags;
    default_plugin = or_else dst.default_plugin src.default_plugin;
    plugins_to_load = merge_plugins dst.plugins_to_load src.plugins_to_load;
  }

  unfoldable pub check_config : Config queue → Bool
  check_config config = is_some config.plugin_dir

  -- `plugins_to_load_string`: none where it reads through a NULL pointer, which is the list of the
  -- entries of an empty queue.
  unfoldable pub comma_join : Str → List Str → Str
  comma_join s [] = s
  comma_join s (t ∷ rest) = s ++ 44 ∷ comma_join t rest

  abbrev pub joined : List Str → Option Str
  joined [] = none
  joined (s ∷ rest) = some (comma_join s rest)

  unfoldable pub plugins_to_load_string : Q → Option Str
  plugins_to_load_string q = joined (entries q)

  -- How `mptcpd_config_create` ends: the program ends in `argp_error`, the result is NULL, a NULL
  -- pointer is read, or there is a configuration.
  pub data Created : Type 0 where
    usage_error null reads_null : Created
    made : Config queue → Created

  -- Whether the log message about the plugins to load reads through a NULL pointer.
  unfoldable pub log_reads_null : Option Q → Bool
  log_reads_null none = false
  log_reads_null (some q) = not (is_some (plugins_to_load_string q))

  -- `mptcpd_config_create` after the options, with MPTCPD_DEFAULT_PLUGINDIR.
  unfoldable pub create_from : Str → List SettingsFile → Option (Config queue) → Created
  create_from plugindir files none = usage_error
  create_from plugindir files (some config) =
      let sys = parse_config_files (unset queue) files in
      let def_config = record (unset queue) { plugin_dir = some plugindir } in
      let merged = merge_config (merge_config config sys.0) def_config in
      if not sys.1
      then null
      else if not (check_config merged)
      then null
      else if log_reads_null merged.plugins_to_load
      then reads_null
      else made merged

  -- `mptcpd_config_create`.
  unfoldable pub config_create : Str → List Argument → List SettingsFile → Created
  config_create plugindir arguments files =
      create_from plugindir files (parse_options queue arguments (unset queue))
