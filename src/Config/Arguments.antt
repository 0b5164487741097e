-- ===== src/Config/Arguments.antt =====
-- What the arguments of the command line and a settings file say, and the configuration that comes of
-- it.
use mptcpd.Common.{
  ℕ, Bool, true, false, Option, none, some, is_some, List, [], ◌∷◌, ◌++◌, ◌==◌, if◌then◌else◌, All,
  ◌≡◌, refl, sym, ap, ◌∙◌, arith, ◌⊎◌, Bool-cases, Option-cases, inl, inr, append_assoc, append-nil,
}
use mptcpd.Config.Create.{or_else, config_create}
use mptcpd.Config.Flags.{
  word, others, same_word, IsWord, known_flags, flags_from_string-known_flags,
}
use mptcpd.Config.Priority.{
  Takes, loaded, flags_of, value, ended, Merged, entries-made, config_create-Merged,
}
use mptcpd.Config.Sources.{
  Str, Key, log, plugin_dir, addr_flags, notify_flags, path_manager, load_plugins, Argument, debug,
  option, Stat, found, failed, SettingsFile, check_file_perms, Config, unset, push_all, same_string,
  LogFunction, to_stderr, to_syslog, to_journal, to_null, get_log_set_function, keep, comma_tokens,
  notify_flags_toks, set_plugins_to_load, parse_opt, parse_options,
}
use mptcpd.Config.{Tok, addr_flags_toks, flags_from_string}
use mptcpd.Ell.Queue.{Queue}

-- The value that an argument gives for a key, and the last one that a command line gives.
abbrev pub own : Key → Argument → Option Str
own log (option log s) = some s
own plugin_dir (option plugin_dir s) = some s
own addr_flags (option addr_flags s) = some s
own notify_flags (option notify_flags s) = some s
own path_manager (option path_manager s) = some s
own load_plugins (option load_plugins s) = some s
own key a = none

abbrev pub given : Key → List Argument → Option Str
given key [] = none
given key (a ∷ rest) = or_else (given key rest) (own key a)

-- What a value says, and `d` without a value.
abbrev pub over : {A : Type 0} → Option Str → A → (Str → A) → A
over none d f = d
over (some s) d f = f s

-- stderr, syslog, journal and null.
abbrev pub log_of : Str → Option LogFunction
log_of s =
    if same_word s (115 ∷ 116 ∷ 100 ∷ 101 ∷ 114 ∷ 114 ∷ [])
    then some to_stderr
    else if same_word s (115 ∷ 121 ∷ 115 ∷ 108 ∷ 111 ∷ 103 ∷ [])
    then some to_syslog
    else if same_word s (106 ∷ 111 ∷ 117 ∷ 114 ∷ 110 ∷ 97 ∷ 108 ∷ [])
    then some to_journal
    else if same_word s (110 ∷ 117 ∷ 108 ∷ 108 ∷ [])
    then some to_null
    else none

-- The flags of the words of a value, up to the first that is not in the table.
abbrev pub named_flags : List Tok → Str → ℕ
named_flags toks s = known_flags toks (word s ∷ others s) 0

-- The parts of a value between commas that are not empty.
abbrev pub non_empty : List Str → List Str
non_empty [] = []
non_empty ([] ∷ ws) = non_empty ws
non_empty ((c ∷ w) ∷ ws) = (c ∷ w) ∷ non_empty ws

abbrev pub names : Str → List Str
names s = non_empty (word s ∷ others s)

-- An argument that is not refused: a value of `--log` is known, and those of the directory and of
-- plugins are not empty.
abbrev pub accepted : Argument → Bool
accepted (option log s) = is_some (log_of s)
accepted (option plugin_dir []) = false
accepted (option path_manager []) = false
accepted (option load_plugins []) = false
accepted a = true

same_string_lem : (a b : Str) → same_string a b ≡ same_word a b
unfolding same_string
same_string_lem [] [] = refl
same_string_lem [] (d ∷ b) = refl
same_string_lem (c ∷ a) [] = refl
same_string_lem (c ∷ a) (d ∷ b) = ground (arith, same_string_lem a b)

get_log_set_function_lem : (s : Str) → get_log_set_function (some s) ≡ log_of s
unfolding get_log_set_function
get_log_set_function_lem s =
    rw
      (
        same_string_lem s (115 ∷ 116 ∷ 100 ∷ 101 ∷ 114 ∷ 114 ∷ []),
        same_string_lem s (115 ∷ 121 ∷ 115 ∷ 108 ∷ 111 ∷ 103 ∷ []),
        same_string_lem s (106 ∷ 111 ∷ 117 ∷ 114 ∷ 110 ∷ 97 ∷ 108 ∷ []),
        same_string_lem s (110 ∷ 117 ∷ 108 ∷ 108 ∷ []),
      )
      refl

addr_words : All IsWord addr_flags_toks
addr_words = ground arith

notify_words : All IsWord notify_flags_toks
notify_words = ground arith

keep-non_empty : (w : Str) (ws : List Str) → keep w (non_empty ws) ≡ non_empty (w ∷ ws)
keep-non_empty [] ws = refl
keep-non_empty (c ∷ w) ws = refl

comma_tokens_lem : (w str : Str) → comma_tokens w str ≡ non_empty ((w ++ word str) ∷ others str)
unfolding comma_tokens
comma_tokens_lem w [] = keep-non_empty w [] ∙ ap (λ v. non_empty (v ∷ [])) (sym (append-nil w))
comma_tokens_lem w (c ∷ str) = elim (Bool-cases (c == 44)) [
  | inl e ↦ rw e (
      ap (keep w) (comma_tokens_lem [] str)
      ∙ keep-non_empty w (word str ∷ others str)
      ∙ ap (λ v. non_empty (v ∷ word str ∷ others str)) (sym (append-nil w)))
  | inr e ↦ rw e (
      comma_tokens_lem (w ++ c ∷ []) str
      ∙ ap (λ v. non_empty (v ∷ others str)) (append_assoc w (c ∷ []) (word str)))
]

over-or_else :
    {A : Type 0} (g o : Option Str) (d : A) (f : Str → A)
    → over (or_else g o) d f ≡ over g (over o d f) f
over-or_else none o d f = refl
over-or_else (some s) o d f = refl

module _ (queue : Queue Str) where
  open queue use {Q, new, entries}

  -- The configuration `c'` is `c` with what `values` says in place of its values.
  record Set (values : Key → Option Str) (c c' : Config queue) : Type 0 where
    pub log_set : c'.log_set ≡ over (values log) c.log_set log_of
    pub plugin_dir : c'.plugin_dir ≡ over (values plugin_dir) c.plugin_dir (λ s. some s)
    pub addr_flags :
        c'.addr_flags ≡ over (values addr_flags) c.addr_flags (named_flags addr_flags_toks)
    pub notify_flags :
        c'.notify_flags ≡ over (values notify_flags) c.notify_flags (named_flags notify_flags_toks)
    pub default_plugin :
        c'.default_plugin ≡ over (values path_manager) c.default_plugin (λ s. some s)
    pub plugins_to_load :
        loaded queue c'.plugins_to_load
        ≡ over (values load_plugins) (loaded queue c.plugins_to_load) (λ s. some (names s))

  Set-trans :
      (u v : Key → Option Str) (c d e : Config queue)
      → Set u c d
      → Set v d e
      → Set (λ key. or_else (v key) (u key)) c e
  Set-trans u v c d e s t = record {
    log_set =
        t.log_set
        ∙ ap (λ x. over (v log) x log_of) s.log_set
        ∙ sym (over-or_else (v log) (u log) c.log_set log_of);
    plugin_dir =
        t.plugin_dir
        ∙ ap (λ x. over (v plugin_dir) x (λ y. some y)) s.plugin_dir
        ∙ sym (over-or_else (v plugin_dir) (u plugin_dir) c.plugin_dir (λ y. some y));
    addr_flags =
        t.addr_flags
        ∙ ap (λ x. over (v addr_flags) x (named_flags addr_flags_toks)) s.addr_flags
        ∙ sym (over-or_else (v addr_flags) (u addr_flags) c.addr_flags _);
    notify_flags =
        t.notify_flags
        ∙ ap (λ x. over (v notify_flags) x (named_flags notify_flags_toks)) s.notify_flags
        ∙ sym (over-or_else (v notify_flags) (u notify_flags) c.notify_flags _);
    default_plugin =
        t.default_plugin
        ∙ ap (λ x. over (v path_manager) x (λ y. some y)) s.default_plugin
        ∙ sym (over-or_else (v path_manager) (u path_manager) c.default_plugin (λ y. some y));
    plugins_to_load =
        t.plugins_to_load
        ∙ ap (λ x. over (v load_plugins) x (λ y. some (names y))) s.plugins_to_load
        ∙ sym (
            over-or_else (v load_plugins) (u load_plugins) (loaded queue c.plugins_to_load)
              (λ y. some (names y)));
  }

  Set-refl : (c : Config queue) → Set (λ key. none) c c
  Set-refl c = record {
    log_set = refl;
    plugin_dir = refl;
    addr_flags = refl;
    notify_flags = refl;
    default_plugin = refl;
    plugins_to_load = refl;
  }

  loaded-set :
      (s : Str)
      → Takes queue
      → loaded queue (some (push_all queue new (comma_tokens [] s))) ≡ some (names s)
  loaded-set s takes =
      ap some (entries-made queue (comma_tokens [] s) takes ∙ comma_tokens_lem [] s)

  -- One argument that is accepted.
  Parsed : Argument → Config queue → Type 0
  Parsed a c = (c' : Config queue) × (parse_opt queue a c ≡ some c') × Set (λ key. own key a) c c'

  parse_opt-Parsed :
      (a : Argument) (c : Config queue) → Takes queue → accepted a ≡ true → Parsed a c
  unfolding Parsed parse_opt set_plugins_to_load
  parse_opt-Parsed debug c takes ok = (
    c,
    refl,
    record {
      log_set = refl;
      plugin_dir = refl;
      addr_flags = refl;
      notify_flags = refl;
      default_plugin = refl;
      plugins_to_load = refl;
    },
  )
  parse_opt-Parsed (option log s) c takes ok = elim (Option-cases (log_of s)) [
    | inl e ↦ absurd cc
    | inr (f, e) ↦ (
      record c { log_set = some f },
      rw (get_log_set_function_lem s ∙ e, parse_opt) refl,
      record {
        log_set = sym e;
        plugin_dir = refl;
        addr_flags = refl;
        notify_flags = refl;
        default_plugin = refl;
        plugins_to_load = refl;
      },
    )
  ]
  parse_opt-Parsed (option plugin_dir []) c takes ok = absurd cc
  parse_opt-Parsed (option plugin_dir (d ∷ s)) c takes ok = (
    record c { plugin_dir = some (d ∷ s) },
    refl,
    record {
      log_set = refl;
      plugin_dir = refl;
      addr_flags = refl;
      notify_flags = refl;
      default_plugin = refl;
      plugins_to_load = refl;
    },
  )
  parse_opt-Parsed (option path_manager []) c takes ok = absurd cc
  parse_opt-Parsed (option path_manager (d ∷ s)) c takes ok = (
    record c { default_plugin = some (d ∷ s) },
    refl,
    record {
      log_set = refl;
      plugin_dir = refl;
      addr_flags = refl;
      notify_flags = refl;
      default_plugin = refl;
      plugins_to_load = refl;
    },
  )
  parse_opt-Parsed (option addr_flags s) c takes ok = (
    record c { addr_flags = flags_from_string addr_flags_toks s },
    refl,
    record {
      log_set = refl;
      plugin_dir = refl;
      addr_flags = flags_from_string-known_flags addr_flags_toks s addr_words;
      notify_flags = refl;
      default_plugin = refl;
      plugins_to_load = refl;
    },
  )
  parse_opt-Parsed (option notify_flags s) c takes ok = (
    record c { notify_flags = flags_from_string notify_flags_toks s },
    refl,
    record {
      log_set = refl;
      plugin_dir = refl;
      addr_flags = refl;
      notify_flags = flags_from_string-known_flags notify_flags_toks s notify_words;
      default_plugin = refl;
      plugins_to_load = refl;
    },
  )
  parse_opt-Parsed (option load_plugins []) c takes ok = absurd cc
  parse_opt-Parsed (option load_plugins (d ∷ s)) c takes ok = (
    record c { plugins_to_load = some (push_all queue new (comma_tokens [] (d ∷ s))) },
    refl,
    record {
      log_set = refl;
      plugin_dir = refl;
      addr_flags = refl;
      notify_flags = refl;
      default_plugin = refl;
      plugins_to_load = loaded-set (d ∷ s) takes;
    },
  )

  parse_options-Set :
      (arguments : List Argument) (c : Config queue)
      → Takes queue
      → All (λ a. accepted a ≡ true) arguments
      → (c' : Config queue) × (parse_options queue arguments c ≡ some c')
        × Set (λ key. given key arguments) c c'
  unfolding parse_options Parsed
  parse_options-Set [] c takes ok = (c, refl, Set-refl c)
  parse_options-Set (a ∷ rest) c takes ok =
      let (d, now, set) = parse_opt-Parsed a c takes ok.0 in
      let (e, later, sets) = parse_options-Set rest d takes ok.1 in
      (
        e,
        rw (now, parse_options) later,
        Set-trans (λ key. own key a) (λ key. given key rest) c d e set sets,
      )

  -- Where each value of a configuration comes from: the last argument for it, then the settings file,
  -- then the directory of the build. Flags that are 0 count as not set.
  pub record From (arguments : List Argument) (values : Key → Option Str) (dir : Str)
      (m : Config queue) : Type 0 where
    pub log_set :
        m.log_set ≡ or_else (over (given log arguments) none log_of) (over (values log) none log_of)
    pub plugin_dir :
        m.plugin_dir ≡ or_else (given plugin_dir arguments) (or_else (values plugin_dir) (some dir))
    pub addr_flags :
        let first = over (given addr_flags arguments) 0 (named_flags addr_flags_toks) in
        m.addr_flags
        ≡ (if first == 0 then over (values addr_flags) 0 (named_flags addr_flags_toks) else first)
    pub notify_flags :
        let first = over (given notify_flags arguments) 0 (named_flags notify_flags_toks) in
        m.notify_flags ≡ (
          if first == 0
          then over (values notify_flags) 0 (named_flags notify_flags_toks)
          else first)
    pub default_plugin :
        m.default_plugin ≡ or_else (given path_manager arguments) (values path_manager)
    pub plugins_to_load :
        loaded queue m.plugins_to_load
        ≡ or_else
            (over (given load_plugins arguments) none (λ s. some (names s)))
            (over (values load_plugins) none (λ s. some (names s)))

  log_value : (o : Option Str) → get_log_set_function o ≡ over o none log_of
  unfolding get_log_set_function
  log_value none = refl
  log_value (some s) = get_log_set_function_lem s

  flags_value :
      (toks : List Tok) (o : Option Str)
      → All IsWord toks
      → flags_of toks o ≡ over o 0 (named_flags toks)
  flags_value toks none words = refl
  flags_value toks (some s) words = flags_from_string-known_flags toks s words

  names_value :
      (o : Option Str)
      → (elim o as (λ x. Option (List Str)) [ none ↦ none | some s ↦ some (comma_tokens [] s) ])
        ≡ over o none (λ s. some (names s))
  names_value none = refl
  names_value (some s) = ap some (comma_tokens_lem [] s)

  over-some : (o : Option Str) → over o none (λ s. some s) ≡ o
  over-some none = refl
  over-some (some s) = refl

  Merged-From :
      (arguments : List Argument) (values : Key → Option Str) (dir : Str) (c m : Config queue)
      → Set (λ key. given key arguments) (unset queue) c
      → Merged queue c values dir m
      → From arguments values dir m
  Merged-From arguments values dir c m set merged = record {
    log_set = merged.log_set ∙ rw (set.log_set, log_value (values log)) refl;
    plugin_dir =
        merged.plugin_dir
        ∙ ap (λ x. or_else x (or_else (values plugin_dir) (some dir)))
            (set.plugin_dir ∙ over-some (given plugin_dir arguments));
    addr_flags =
        merged.addr_flags
        ∙ rw (set.addr_flags, flags_value addr_flags_toks (values addr_flags) addr_words) refl;
    notify_flags =
        merged.notify_flags
        ∙ rw (set.notify_flags, flags_value notify_flags_toks (values notify_flags) notify_words)
            refl;
    default_plugin =
        merged.default_plugin
        ∙ ap (λ x. or_else x (values path_manager))
            (set.default_plugin ∙ over-some (given path_manager arguments));
    plugins_to_load =
        merged.plugins_to_load
        ∙ ap (or_else (loaded queue c.plugins_to_load)) (names_value (values load_plugins))
        ∙ ap (λ x. or_else x (over (values load_plugins) none (λ s. some (names s))))
            set.plugins_to_load;
  }

  -- A settings file that may be read: a regular one to which not all may write, or one that is not
  -- there.
  abbrev pub Readable : Stat → Type 0
  Readable stat = (stat ≡ found true false) ⊎ (stat ≡ failed 2)

  permitted : (stat : Stat) → Readable stat → check_file_perms stat ≡ true
  unfolding check_file_perms
  permitted stat (inl e) = rw e refl
  permitted stat (inr e) = rw e refl

  -- With arguments none of which is refused, and a settings file that may be read, every value is the
  -- one that the last argument for it says, else that of the settings file, else that of the build,
  -- where flags of 0 count as not set, if the queue takes every entry. The creation then succeeds,
  -- unless plugins to load are set and their list is empty, as it is for a value of commas only: then
  -- a NULL pointer is read.
  pub config_create-From :
      (arguments : List Argument) (file : SettingsFile) (dir : Str)
      → Takes queue
      → All (λ a. accepted a ≡ true) arguments
      → Readable file.stat
      → file.created ≡ true
      → (m : Config queue) × From arguments (value file) dir m
        × (config_create queue dir arguments (file ∷ []) ≡ ended queue m)
  config_create-From arguments file dir takes ok readable created =
      let (c, parsed, set) = parse_options-Set arguments (unset queue) takes ok in
      let (m, merged, made) =
        config_create-Merged queue c arguments file dir takes parsed (permitted file.stat readable)
          created in
      (m, Merged-From arguments (value file) dir c m set merged, made)
