-- ===== src/Config/Sources.antt =====
-- src/configuration.c: the three sources of a configuration, in the order of their priority, which are
-- the command line, the settings file and the defaults of the build.
use mptcpd.Common.{
  ℕ, Bool, true, false, ◌&&◌, not, Option, none, some, is_some, List, [], ◌∷◌, ◌++◌, ◌==◌,
  if◌then◌else◌,
}
use mptcpd.Config.{Tok, addr_flags_toks, flags_from_string}
use mptcpd.Ell.Queue.{Queue}

abbrev pub Str : Type 0
Str = List ℕ

-- `strcmp(a, b) == 0`.
unfoldable pub same_string : Str → Str → Bool
same_string [] [] = true
same_string [] (d ∷ b) = false
same_string (c ∷ a) [] = false
same_string (c ∷ a) (d ∷ b) = c == d && same_string a b

-- `l_log_set_stderr`, `l_log_set_syslog`, `l_log_set_journal` and `l_log_set_null`.
pub data LogFunction : Type 0 where
  to_stderr to_syslog to_journal to_null : LogFunction

-- `get_log_set_function`: a NULL function is `none`.
unfoldable pub get_log_set_function : Option Str → Option LogFunction
get_log_set_function none = none
get_log_set_function (some l) =
    if same_string l (115 ∷ 116 ∷ 100 ∷ 101 ∷ 114 ∷ 114 ∷ [])
    then some to_stderr
    else if same_string l (115 ∷ 121 ∷ 115 ∷ 108 ∷ 111 ∷ 103 ∷ [])
    then some to_syslog
    else if same_string l (106 ∷ 111 ∷ 117 ∷ 114 ∷ 110 ∷ 97 ∷ 108 ∷ [])
    then some to_journal
    else if same_string l (110 ∷ 117 ∷ 108 ∷ 108 ∷ [])
    then some to_null
    else none

-- `notify_flags_toks`: existing, skip_link_local, skip_loopback, check_route.
abbrev pub notify_flags_toks : List Tok
notify_flags_toks =
    record { id = 1; string = 101 ∷ 120 ∷ 105 ∷ 115 ∷ 116 ∷ 105 ∷ 110 ∷ 103 ∷ [] }
    ∷ record {
      id = 2;
      string =
          115 ∷ 107 ∷ 105 ∷ 112 ∷ 95 ∷ 108 ∷ 105 ∷ 110 ∷ 107 ∷ 95 ∷ 108 ∷ 111 ∷ 99 ∷ 97 ∷ 108 ∷ [];
    }
    ∷ record {
      id = 4;
      string = 115 ∷ 107 ∷ 105 ∷ 112 ∷ 95 ∷ 108 ∷ 111 ∷ 111 ∷ 112 ∷ 98 ∷ 97 ∷ 99 ∷ 107 ∷ [];
    }
    ∷ record { id = 8; string = 99 ∷ 104 ∷ 101 ∷ 99 ∷ 107 ∷ 95 ∷ 114 ∷ 111 ∷ 117 ∷ 116 ∷ 101 ∷ [] }
    ∷ []

-- The tokens of `strtok` for the separator comma: the longest parts without a comma that are not
-- empty. `word` is the part that has been read.
abbrev pub keep : Str → List Str → List Str
keep [] rest = rest
keep (c ∷ w) rest = (c ∷ w) ∷ rest

unfoldable pub comma_tokens : Str → Str → List Str
comma_tokens word [] = keep word []
comma_tokens word (c ∷ str) =
    let more = comma_tokens (word ++ c ∷ []) str in
    let next = comma_tokens [] str in if c == 44 then keep word next else more

-- The keys of the group `core` of a settings file, and the arguments of the command line.
pub data Key : Type 0 where
  log plugin_dir addr_flags notify_flags path_manager load_plugins : Key

pub data Argument : Type 0 where
  debug : Argument
  option : Key → Str → Argument

-- What `stat` finds: whether the file is a regular one and whether all may write to it, or its errno.
pub data Stat : Type 0 where
  found : Bool → Bool → Stat
  failed : ℕ → Stat

-- `check_file_perms`; ENOENT is 2.
unfoldable pub check_file_perms : Stat → Bool
check_file_perms (found regular world_writable) = regular && not world_writable
check_file_perms (failed errno) = errno == 2

-- What the system gives for a settings file: its `stat`, whether `l_settings_new` succeeds, and the
-- values of the keys, where it can be loaded.
pub record SettingsFile : Type 0 where
  pub stat : Stat
  pub created : Bool
  pub settings : Option (Key → Option Str)

module _ (queue : Queue Str) where
  open queue use {Q, new, push_tail, entries}

  -- `struct mptcpd_config`.
  pub record Config : Type 0 where
    pub log_set : Option LogFunction
    pub plugin_dir : Option Str
    pub addr_flags : ℕ
    pub notify_flags : ℕ
    pub default_plugin : Option Str
    pub plugins_to_load : Option Q

  -- A configuration whose memory is zeroed.
  abbrev pub unset : Config
  unset = record {
    log_set = none;
    plugin_dir = none;
    addr_flags = 0;
    notify_flags = 0;
    default_plugin = none;
    plugins_to_load = none;
  }

  -- The loops that append to a queue.
  unfoldable pub push_all : Q → List Str → Q
  push_all q [] = q
  push_all q (s ∷ rest) = push_all (push_tail q s).0 rest

  unfoldable pub set_plugins_to_load : Config → Str → Config
  set_plugins_to_load config plugins = record config {
    plugins_to_load = some (push_all new (comma_tokens [] plugins));
  }

  -- `parse_opt`; none where `argp_error` ends the program.
  unfoldable pub parse_opt : Argument → Config → Option Config
  parse_opt debug config = some config
  parse_opt (option log arg) config = elim (get_log_set_function (some arg)) [
    | none ↦ none
    | some f ↦ some (record config { log_set = some f })
  ]
  parse_opt (option plugin_dir []) config = none
  parse_opt (option plugin_dir (c ∷ arg)) config =
      some (record config { plugin_dir = some (c ∷ arg) })
  parse_opt (option path_manager []) config = none
  parse_opt (option path_manager (c ∷ arg)) config =
      some (record config { default_plugin = some (c ∷ arg) })
  parse_opt (option addr_flags arg) config =
      some (record config { addr_flags = flags_from_string addr_flags_toks arg })
  parse_opt (option notify_flags arg) config =
      some (record config { notify_flags = flags_from_string notify_flags_toks arg })
  parse_opt (option load_plugins []) config = none
  parse_opt (option load_plugins (c ∷ arg)) config = some (set_plugins_to_load config (c ∷ arg))

  -- `parse_options`, of the arguments in their order.
  unfoldable pub parse_options : List Argument → Config → Option Config
  parse_options [] config = some config
  parse_options (a ∷ rest) config = elim (parse_opt a config) [
    | none ↦ none
    | some c ↦ parse_options rest c
  ]

  unfoldable pub parse_config_log : Config → (Key → Option Str) → Config
  parse_config_log config settings =
      if is_some config.log_set then config else (elim (settings log) [
        | none ↦ config
        | some s ↦ record config { log_set = get_log_set_function (some s) }
      ])

  unfoldable pub parse_config_plugin_dir : Config → (Key → Option Str) → Config
  parse_config_plugin_dir config settings =
      if is_some config.plugin_dir then config else (elim (settings plugin_dir) [
        | none ↦ config
        | some s ↦ record config { plugin_dir = some s }
      ])

  unfoldable pub parse_config_addr_flags : Config → (Key → Option Str) → Config
  parse_config_addr_flags config settings =
      if not (config.addr_flags == 0) then config else (elim (settings addr_flags) [
        | none ↦ config
        | some s ↦ record config { addr_flags = flags_from_string addr_flags_toks s }
      ])

  unfoldable pub parse_config_notify_flags : Config → (Key → Option Str) → Config
  parse_config_notify_flags config settings =
      if not (config.notify_flags == 0) then config else (elim (settings notify_flags) [
        | none ↦ config
        | some s ↦ record config { notify_flags = flags_from_string notify_flags_toks s }
      ])

  unfoldable pub parse_config_default_plugin : Config → (Key → Option Str) → Config
  parse_config_default_plugin config settings =
      if is_some config.default_plugin then config else (elim (settings path_manager) [
        | none ↦ config
        | some s ↦ record config { default_plugin = some s }
      ])

  unfoldable pub parse_config_plugins_to_load : Config → (Key → Option Str) → Config
  parse_config_plugins_to_load config settings =
      if is_some config.plugins_to_load
      then config
      else (elim (settings load_plugins) [ none ↦ config | some s ↦ set_plugins_to_load config s ])
