-- ===== src/Config/Tests.antt =====
-- The theorems on configurations, at inputs that meet their hypotheses.
use mptcpd.Common.{inl, All, ℕ, true, false, none, some, List, [], ◌∷◌, ◌≡◌, refl, arith}
use mptcpd.Config.Create.{config_create, reads_null}
use mptcpd.Config.Priority.{value, ended, commas, commas-reads_null}
use mptcpd.Config.Arguments.{From, config_create-From}
use mptcpd.Config.Sources.{
  Str, log, plugin_dir, load_plugins, Argument, option, found, SettingsFile, Config,
  check_file_perms,
}
use mptcpd.Ell.Queue.{Queue, list_queue}
use mptcpd.Config.{
  addr_flags_toks, append_tok, flags_string_loop, flags_string, strip, after_tok, find_tok,
  flags_loop, flags_from_string,
}
use mptcpd.Config.Flags.{
  IsWord, word, others, known_flags, flags_from_string-known_flags, flags_from_string-flags_string,
}

runs : Unit {0}
unfolding flags_from_string flags_loop find_tok strip after_tok flags_string flags_string_loop
    append_tok
runs = tt

-- signal,backup
abbrev words : List ℕ
words = 115 ∷ 105 ∷ 103 ∷ 110 ∷ 97 ∷ 108 ∷ 44 ∷ 98 ∷ 97 ∷ 99 ∷ 107 ∷ 117 ∷ 112 ∷ []

written : flags_string addr_flags_toks 5 128 ≡ words
unfolding runs
written = refl

-- A buffer of ten characters has room for the first word.
cut : flags_string addr_flags_toks 5 10 ≡ 115 ∷ 105 ∷ 103 ∷ 110 ∷ 97 ∷ 108 ∷ []
unfolding runs
cut = refl

named : All IsWord addr_flags_toks
named = ground arith

flags_from_string-known_flags_example :
    flags_from_string addr_flags_toks words
    ≡ known_flags addr_flags_toks (word words ∷ others words) 0
flags_from_string-known_flags_example = flags_from_string-known_flags addr_flags_toks words named

flags_from_string-flags_string_example :
    flags_from_string addr_flags_toks (flags_string addr_flags_toks 5 128) ≡ 5
flags_from_string-flags_string_example = flags_from_string-flags_string 5 (omega arith)

-- A settings file with a plugin directory, /a, and with plugins to load, one of them named b.
abbrev file : SettingsFile
file = record {
  stat = found true false;
  created = true;
  settings = some (λ key. elim key [
    | plugin_dir ↦ some (47 ∷ 97 ∷ [])
    | load_plugins ↦ some (44 ∷ 98 ∷ 44 ∷ [])
    | _ ↦ none
  ]);
}

-- --log=null --load-plugins=c,d
abbrev arguments : List Argument
arguments = option log (110 ∷ 117 ∷ 108 ∷ 108 ∷ []) ∷ option load_plugins (99 ∷ 44 ∷ 100 ∷ []) ∷ []

abbrev queue : Queue Str
queue = list_queue Str

config_create-From_example :
    (m : Config queue) × From queue arguments (value file) (47 ∷ []) m
    × (config_create queue (47 ∷ []) arguments (file ∷ []) ≡ ended queue m)
config_create-From_example =
    config_create-From queue arguments file (47 ∷ []) (λ q s. refl) (refl, (refl, tt)) (inl refl)
      refl

commas-reads_null_example :
    config_create queue (47 ∷ []) (option load_plugins (commas 1) ∷ []) (file ∷ []) ≡ reads_null
unfolding check_file_perms
commas-reads_null_example = commas-reads_null queue 0 file (47 ∷ []) (λ q s. refl) refl refl
