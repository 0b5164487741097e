-- ===== src/Config/Priority.antt =====
-- Which source each value of a configuration comes from.
use mptcpd.Common.{
  ℕ, zero, suc, Bool, true, false, not, Option, none, some, is_some, List, [], ◌∷◌, ◌++◌, ◌==◌,
  if◌then◌else◌, ◌≡◌, refl, arith, Option-cases, inl, inr, ap, ◌∙◌, sym, append_assoc, append-nil,
}
use mptcpd.Config.Create.{
  parse_settings, parse_config_file, parse_config_files, or_else, merge_config, check_config,
  merge_plugins, joined, plugins_to_load_string, log_reads_null, Created, reads_null, made,
  create_from, config_create,
}
use mptcpd.Config.Sources.{
  Str, Key, log, plugin_dir, addr_flags, notify_flags, path_manager, load_plugins, Argument, option,
  SettingsFile, check_file_perms, Config, unset, push_all, get_log_set_function, comma_tokens,
  notify_flags_toks, set_plugins_to_load, parse_opt, parse_options, parse_config_log,
  parse_config_plugin_dir, parse_config_addr_flags, parse_config_notify_flags,
  parse_config_default_plugin, parse_config_plugins_to_load,
}
use mptcpd.Config.{Tok, addr_flags_toks, flags_from_string}
use mptcpd.Ell.Queue.{Queue}

-- The value of a key in a settings file, none too where the file cannot be loaded.
abbrev pub value : SettingsFile → Key → Option Str
value file key = elim file.settings [ none ↦ none | some settings ↦ settings key ]

-- The flags that a value names, 0 without a value.
abbrev pub flags_of : List Tok → Option Str → ℕ
flags_of toks none = 0
flags_of toks (some s) = flags_from_string toks s

-- Commas, and nothing else.
abbrev pub commas : ℕ → Str
commas zero = []
commas (suc n) = 44 ∷ commas n

or_else-none {ℓ} : {A : Type ℓ} (a : Option A) → or_else a none ≡ a
or_else-none none = refl
or_else-none (some a) = refl

or_else_assoc {ℓ} :
    {A : Type ℓ} (a b c : Option A) → or_else (or_else a b) c ≡ or_else a (or_else b c)
or_else_assoc none b c = refl
or_else_assoc (some a) b c = refl

is_some-or_else {ℓ} : {A : Type ℓ} (a : Option A) (c : A) → is_some (or_else a (some c)) ≡ true
is_some-or_else none c = refl
is_some-or_else (some a) c = refl

zero_twice : (n : ℕ) → (if n == 0 then 0 else n) ≡ n
zero_twice n = ground arith

module _ (queue : Queue Str) where
  open queue use {Q, new, push_tail, entries}

  -- A queue that takes every entry.
  abbrev pub Takes : Type 0
  Takes = (q : Q) (s : Str) → (push_tail q s).1 ≡ true

  -- The plugins to load, in their order.
  abbrev pub loaded : Option Q → Option (List Str)
  loaded none = none
  loaded (some q) = some (entries q)

  entries-push_all : (q : Q) (l : List Str) → Takes → entries (push_all queue q l) ≡ entries q ++ l
  unfolding push_all
  entries-push_all q [] t = sym (append-nil (entries q))
  entries-push_all q (s ∷ rest) t =
      let pushed : entries (push_tail q s).0 ≡ entries q ++ s ∷ [] =
        queue.entries-push_tail q s ∙ rw (t q s) refl in
      entries-push_all (push_tail q s).0 rest t
      ∙ ap (λ e. e ++ rest) pushed
      ∙ append_assoc (entries q) (s ∷ []) rest

  pub entries-made : (l : List Str) → Takes → entries (push_all queue new l) ≡ l
  entries-made l t = entries-push_all new l t ∙ ap (λ e. e ++ l) queue.entries-new

  queue_of : Option Str → Option Q
  queue_of none = none
  queue_of (some s) = some (push_all queue new (comma_tokens [] s))

  -- What is read from a settings file into an empty configuration.
  read : (Key → Option Str) → Config queue
  read settings = record {
    log_set = get_log_set_function (settings log);
    plugin_dir = settings plugin_dir;
    addr_flags = flags_of addr_flags_toks (settings addr_flags);
    notify_flags = flags_of notify_flags_toks (settings notify_flags);
    default_plugin = settings path_manager;
    plugins_to_load = queue_of (settings load_plugins);
  }

  log_read :
      (c : Config queue) (settings : Key → Option Str)
      → parse_config_log queue (record c { log_set = none }) settings
        ≡ record c { log_set = get_log_set_function (settings log) }
  unfolding parse_config_log get_log_set_function
  log_read c settings = elim (Option-cases (settings log)) [
    | inl e ↦ rw e refl
    | inr (v, e) ↦ rw e refl
  ]

  plugin_dir_read :
      (c : Config queue) (settings : Key → Option Str)
      → parse_config_plugin_dir queue (record c { plugin_dir = none }) settings
        ≡ record c { plugin_dir = settings plugin_dir }
  unfolding parse_config_plugin_dir
  plugin_dir_read c settings = elim (Option-cases (settings plugin_dir)) [
    | inl e ↦ rw e refl
    | inr (v, e) ↦ rw e refl
  ]

  notify_flags_read :
      (c : Config queue) (settings : Key → Option Str)
      → parse_config_notify_flags queue (record c { notify_flags = 0 }) settings
        ≡ record c { notify_flags = flags_of notify_flags_toks (settings notify_flags) }
  unfolding parse_config_notify_flags
  notify_flags_read c settings = elim (Option-cases (settings notify_flags)) [
    | inl e ↦ rw e refl
    | inr (v, e) ↦ rw e refl
  ]

  addr_flags_read :
      (c : Config queue) (settings : Key → Option Str)
      → parse_config_addr_flags queue (record c { addr_flags = 0 }) settings
        ≡ record c { addr_flags = flags_of addr_flags_toks (settings addr_flags) }
  unfolding parse_config_addr_flags
  addr_flags_read c settings = elim (Option-cases (settings addr_flags)) [
    | inl e ↦ rw e refl
    | inr (v, e) ↦ rw e refl
  ]

  default_plugin_read :
      (c : Config queue) (settings : Key → Option Str)
      → parse_config_default_plugin queue (record c { default_plugin = none }) settings
        ≡ record c { default_plugin = settings path_manager }
  unfolding parse_config_default_plugin
  default_plugin_read c settings = elim (Option-cases (settings path_manager)) [
    | inl e ↦ rw e refl
    | inr (v, e) ↦ rw e refl
  ]

  plugins_to_load_read :
      (c : Config queue) (settings : Key → Option Str)
      → parse_config_plugins_to_load queue (record c { plugins_to_load = none }) settings
        ≡ record c { plugins_to_load = queue_of (settings load_plugins) }
  unfolding parse_config_plugins_to_load set_plugins_to_load queue_of
  plugins_to_load_read c settings = elim (Option-cases (settings load_plugins)) [
    | inl e ↦ rw e refl
    | inr (v, e) ↦ rw e refl
  ]

  parse_settings_lem :
      (settings : Key → Option Str) → parse_settings queue (unset queue) settings ≡ read settings
  unfolding parse_settings read
  parse_settings_lem settings =
      let c0 = unset queue in
      let c1 : Config queue = record c0 { log_set = get_log_set_function (settings log) } in
      let c2 : Config queue = record c1 { plugin_dir = settings plugin_dir } in
      let c3 : Config queue = record c2 {
        notify_flags = flags_of notify_flags_toks (settings notify_flags);
      } in
      let c4 : Config queue = record c3 {
        addr_flags = flags_of addr_flags_toks (settings addr_flags);
      } in
      let c5 : Config queue = record c4 { default_plugin = settings path_manager } in
      rw
        (
          log_read c0 settings,
          plugin_dir_read c1 settings,
          notify_flags_read c2 settings,
          addr_flags_read c3 settings,
          default_plugin_read c4 settings,
        )
        (plugins_to_load_read c5 settings)

  parse_files_lem :
      (file : SettingsFile)
      → check_file_perms file.stat ≡ true
      → file.created ≡ true
      → parse_config_files queue (unset queue) (file ∷ []) ≡ (read (value file), true)
  unfolding parse_config_files parse_config_file read get_log_set_function queue_of
  parse_files_lem file perms created = elim (Option-cases file.settings) [
    | inl e ↦ rw (perms, created, e) refl
    | inr (settings, e) ↦ rw (perms, created, e) (ap (λ c. (c, true)) (parse_settings_lem settings))
  ]

  -- Each value of `m` is that of `c`, else that of a settings file, else that of the build.
  pub record Merged (c : Config queue) (values : Key → Option Str) (dir : Str) (m : Config queue)
      : Type 0 where
    pub log_set : m.log_set ≡ or_else c.log_set (get_log_set_function (values log))
    pub plugin_dir : m.plugin_dir ≡ or_else c.plugin_dir (or_else (values plugin_dir) (some dir))
    pub addr_flags :
        m.addr_flags
        ≡ (if c.addr_flags == 0 then flags_of addr_flags_toks (values addr_flags) else c.addr_flags)
    pub notify_flags : m.notify_flags ≡ (
        if c.notify_flags == 0
        then flags_of notify_flags_toks (values notify_flags)
        else c.notify_flags)
    pub default_plugin : m.default_plugin ≡ or_else c.default_plugin (values path_manager)
    pub plugins_to_load :
        loaded m.plugins_to_load
        ≡ or_else
            (loaded c.plugins_to_load)
            (elim (values load_plugins) [ none ↦ none | some s ↦ some (comma_tokens [] s) ])

  merged : Config queue → (Key → Option Str) → Str → Config queue
  merged c values dir =
      merge_config queue (merge_config queue c (read values))
        (record (unset queue) { plugin_dir = some dir })

  loaded-merge_plugins :
      (own : Option Q) (v : Option Str)
      → Takes
      → loaded (merge_plugins queue (merge_plugins queue own (queue_of v)) none)
        ≡ or_else (loaded own) (elim v [ none ↦ none | some s ↦ some (comma_tokens [] s) ])
  unfolding merge_plugins queue_of
  loaded-merge_plugins (some q) v takes = refl
  loaded-merge_plugins none none takes = refl
  loaded-merge_plugins none (some s) takes = ap some (
      entries-made (entries (push_all queue new (comma_tokens [] s))) takes
      ∙ entries-made (comma_tokens [] s) takes)

  merged-Merged :
      (c : Config queue) (values : Key → Option Str) (dir : Str)
      → Takes
      → Merged c values dir (merged c values dir)
  unfolding merged merge_config read
  merged-Merged c values dir takes = record {
    log_set = or_else-none _;
    plugin_dir = or_else_assoc c.plugin_dir (values plugin_dir) (some dir);
    addr_flags = zero_twice _;
    notify_flags = zero_twice _;
    default_plugin = or_else-none _;
    plugins_to_load = loaded-merge_plugins c.plugins_to_load (values load_plugins) takes;
  }

  checked :
      (c : Config queue) (values : Key → Option Str) (dir : Str)
      → check_config queue (merged c values dir) ≡ true
  unfolding check_config merged merge_config
  checked c values dir = is_some-or_else _ dir

  -- How the creation of a merged configuration ends.
  abbrev pub no_entry : Option (List Str) → Bool
  no_entry (some []) = true
  no_entry _ = false

  abbrev pub ended : Config queue → Created queue
  ended m = if no_entry (loaded m.plugins_to_load) then reads_null else made m

  log_reads_null_lem : (o : Option Q) → log_reads_null queue o ≡ no_entry (loaded o)
  unfolding log_reads_null plugins_to_load_string
  log_reads_null_lem none = refl
  log_reads_null_lem (some q) = by_entries (entries q)
    where
      by_entries : (l : List Str) → not (is_some (joined queue l)) ≡ no_entry (some l)
      by_entries [] = refl
      by_entries (s ∷ rest) = refl

  -- The same for the creation, and how it ends, where the arguments lead to `c`.
  pub config_create-Merged :
      (c : Config queue) (arguments : List Argument) (file : SettingsFile) (dir : Str)
      → Takes
      → parse_options queue arguments (unset queue) ≡ some c
      → check_file_perms file.stat ≡ true
      → file.created ≡ true
      → (m : Config queue) × Merged c (value file) dir m
        × (config_create queue dir arguments (file ∷ []) ≡ ended m)
  unfolding config_create create_from merged
  config_create-Merged c arguments file dir takes parsed perms created = (
    merged c (value file) dir,
    merged-Merged c (value file) dir takes,
    rw
        (
          parsed,
          create_from,
          parse_files_lem file perms created,
          checked c (value file) dir,
          log_reads_null_lem (merged c (value file) dir).plugins_to_load,
        )
        refl,
  )

  comma_tokens-commas : (n : ℕ) → comma_tokens [] (commas n) ≡ []
  unfolding comma_tokens
  comma_tokens-commas zero = refl
  comma_tokens-commas (suc n) = comma_tokens-commas n

  -- An option `--load-plugins` that names no plugin, because its value is one or more commas, is not
  -- refused as the empty value is: with a settings file that may be read, the daemon reads through a
  -- NULL pointer.
  pub commas-reads_null :
      (n : ℕ) (file : SettingsFile) (dir : Str)
      → Takes
      → check_file_perms file.stat ≡ true
      → file.created ≡ true
      → config_create queue dir (option load_plugins (commas (suc n)) ∷ []) (file ∷ []) ≡ reads_null
  unfolding parse_options parse_opt set_plugins_to_load
  commas-reads_null n file dir takes perms created =
      let str = commas (suc n) in
      let q = push_all queue new (comma_tokens [] str) in
      let c : Config queue = record (unset queue) { plugins_to_load = some q } in
      let r =
        config_create-Merged c (option load_plugins str ∷ []) file dir takes refl perms created in
      let is_empty : entries q ≡ [] =
        entries-made (comma_tokens [] str) takes ∙ comma_tokens-commas (suc n) in
      let list : loaded r.0.plugins_to_load ≡ some [] = r.1.plugins_to_load ∙ ap some is_empty in
      r.2 ∙ rw list refl
