-- ===== src/Config.antt =====
-- src/configuration.c: flags in words, and the merge of configurations. A string is the list of its
-- characters, without the NUL at its end.
pub mod Flags
pub mod Sources
pub mod Create
pub mod Priority
pub mod Arguments
mod Tests
use Prim.Native.Nat.{bit_or}
use mptcpd.Common.{
  ℕ, zero, suc, ◌+◌, ◌-◌, Bool, true, false, Option, none, some, List, [], ◌∷◌, ◌++◌, ◌==◌, leb,
  length, if◌then◌else◌,
}
use mptcpd.NetworkMonitor.{has_bit}

-- `struct tok_entry`.
pub record Tok : Type 0 where
  pub id : ℕ
  pub string : List ℕ

-- `addr_flags_toks`, less the entry at its end: subflow, signal, backup, fullmesh.
abbrev pub addr_flags_toks : List Tok
addr_flags_toks =
    record { id = 2; string = 115 ∷ 117 ∷ 98 ∷ 102 ∷ 108 ∷ 111 ∷ 119 ∷ [] }
    ∷ record { id = 1; string = 115 ∷ 105 ∷ 103 ∷ 110 ∷ 97 ∷ 108 ∷ [] }
    ∷ record { id = 4; string = 98 ∷ 97 ∷ 99 ∷ 107 ∷ 117 ∷ 112 ∷ [] }
    ∷ record { id = 8; string = 102 ∷ 117 ∷ 108 ∷ 108 ∷ 109 ∷ 101 ∷ 115 ∷ 104 ∷ [] }
    ∷ []

-- `append_tok`: what is written, and the number that is returned.
unfoldable pub append_tok : ℕ → List ℕ → List ℕ → List ℕ × ℕ
append_tok len sep tok =
    if leb len (length tok + length sep) then ([], len) else (sep ++ tok, length tok + length sep)

-- The loop of `flags_string`, with the room that is left and the separator.
unfoldable pub flags_string_loop : List Tok → ℕ → ℕ → List ℕ → List ℕ
unfolding append_tok
flags_string_loop [] flags len sep = []
flags_string_loop (tok ∷ toks) flags len sep =
    let written = append_tok len sep tok.string in
    let later = flags_string_loop toks flags (len - written.1) (44 ∷ []) in
    let unset = flags_string_loop toks flags len sep in
    if has_bit flags tok.id then written.0 ++ later else unset

unfoldable pub flags_string : List Tok → ℕ → ℕ → List ℕ
unfolding flags_string_loop
flags_string toks flags len = flags_string_loop toks flags len []

-- What follows a prefix, where `strncmp` finds it.
unfoldable pub strip : List ℕ → List ℕ → Option (List ℕ)
strip [] str = some str
strip (c ∷ p) [] = none
strip (c ∷ p) (d ∷ str) = let rest = strip p str in if c == d then rest else none

-- A token ends at the end of the string or at a comma, which is skipped.
unfoldable pub after_tok : Option (List ℕ) → Option (List ℕ)
after_tok none = none
after_tok (some []) = some []
after_tok (some (c ∷ rest)) = if c == 44 then some rest else none

-- The inner loop of `flags_from_string`: the flag of the first token, and the rest of the string.
unfoldable pub find_tok : List Tok → List ℕ → Option (ℕ × List ℕ)
unfolding strip after_tok
find_tok [] str = none
find_tok (tok ∷ toks) str =
    let later = find_tok toks str in
    elim (after_tok (strip tok.string str)) [ none ↦ later | some rest ↦ some (tok.id, rest) ]

-- The outer loop, on fuel.
unfoldable pub flags_loop : ℕ → List Tok → List ℕ → ℕ → ℕ
flags_loop zero toks str ret = ret
flags_loop (suc n) toks [] ret = ret
flags_loop (suc n) toks (c ∷ str) ret = elim (find_tok toks (c ∷ str)) [
  | none ↦ ret
  | some (id, rest) ↦ flags_loop n toks rest (bit_or ret id)
]

unfoldable pub flags_from_string : List Tok → List ℕ → ℕ
unfolding flags_loop find_tok
flags_from_string toks str = flags_loop (length str) toks str 0
