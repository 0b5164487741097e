-- ===== src/Config/Flags.antt =====
-- Reading and writing flags in words.
use Prim.Native.Nat.{bit_or}
use mptcpd.Common.{
  ℕ, zero, suc, ◌+◌, ◌≤◌, ◌<◌, Bool, true, false, Option, none, some, List, [], ◌∷◌, length, ◌==◌,
  ◌&&◌, Bool-cases, if◌then◌else◌, All, ◌≡◌, refl, subst, sym, arith, ◌∙◌, Option-cases, inl, inr,
}
use mptcpd.Config.{
  Tok, addr_flags_toks, append_tok, flags_string_loop, flags_string, strip, after_tok, find_tok,
  flags_loop, flags_from_string,
}
use mptcpd.NetworkMonitor.{has_bit}

-- The part of a string before its first comma, what follows the comma, and the parts that follow it.
abbrev pub word : List ℕ → List ℕ
word [] = []
word (c ∷ str) = if c == 44 then [] else c ∷ word str

abbrev after : List ℕ → List ℕ
after [] = []
after (c ∷ str) = if c == 44 then str else after str

abbrev pub others : List ℕ → List (List ℕ)
others [] = []
others (c ∷ str) = if c == 44 then word str ∷ others str else others str

-- Words that are the same.
abbrev pub same_word : List ℕ → List ℕ → Bool
same_word [] [] = true
same_word (c ∷ a) (d ∷ b) = c == d && same_word a b
same_word _ _ = false

-- The flag of a word, by the first entry of a table that has it.
abbrev pub flag_of : List Tok → List ℕ → Option ℕ
flag_of [] w = none
flag_of (tok ∷ toks) w = if same_word tok.string w then some tok.id else flag_of toks w

-- The flags of the words up to the first one that the table does not have, with those of `ret`.
abbrev pub known_flags : List Tok → List (List ℕ) → ℕ → ℕ
known_flags toks [] ret = ret
known_flags toks (w ∷ ws) ret = elim (flag_of toks w) [
  | none ↦ ret
  | some id ↦ known_flags toks ws (bit_or ret id)
]

-- A word: it is not empty, and it has no comma.
abbrev pub IsWord : Tok → Type 0
IsWord tok = (1 ≤ length tok.string) × All (λ c. (c == 44) ≡ false) tok.string

one_token :
    (p str : List ℕ)
    → All (λ c. (c == 44) ≡ false) p
    → after_tok (strip p str) ≡ (if same_word p (word str) then some (after str) else none)
unfolding strip after_tok
one_token [] [] plain = refl
one_token [] (c ∷ str) plain = ground arith
one_token (d ∷ p) [] plain = refl
one_token (d ∷ p) (c ∷ str) plain = elim (Bool-cases (d == c)) [
  | inl e ↦
      let same : (c == 44) ≡ false = ground (arith, e, plain.0) in
      rw (e, strip, same) (one_token p str plain.1 ∙ rw e refl)
  | inr e ↦ ground (arith, e)
]

found : List ℕ → Option ℕ → Option (ℕ × List ℕ)
found str none = none
found str (some id) = some (id, after str)

find_tok_lem :
    (toks : List Tok) (str : List ℕ)
    → All IsWord toks
    → find_tok toks str ≡ found str (flag_of toks (word str))
unfolding find_tok found
find_tok_lem [] str named = refl
find_tok_lem (tok ∷ toks) str named =
    let one = one_token tok.string str named.0.1 in
    elim (Bool-cases (same_word tok.string (word str))) [
      | inl e ↦ rw (one, find_tok, e) refl
      | inr e ↦ rw (one, find_tok, e) (find_tok_lem toks str named.1)
    ]

length-after : (c : ℕ) (str : List ℕ) → length (after (c ∷ str)) ≤ length str
length-after c [] = ground arith
length-after c (d ∷ str) = ground (arith, length-after d str)

not_empty : (s : List ℕ) → 1 ≤ length s → same_word s [] ≡ false
not_empty [] h = absurd (omega arith)
not_empty (c ∷ s) h = refl

-- The empty string is no word.
flag_of-empty : (toks : List Tok) → All IsWord toks → flag_of toks [] ≡ none
flag_of-empty [] named = refl
flag_of-empty (tok ∷ toks) named = rw (not_empty tok.string named.0.0) (flag_of-empty toks named.1)

known_flags-after :
    (toks : List Tok) (str : List ℕ) (ret : ℕ)
    → All IsWord toks
    → known_flags toks (word (after str) ∷ others (after str)) ret
      ≡ known_flags toks (others str) ret
known_flags-after toks [] ret named = rw (flag_of-empty toks named, known_flags) refl
known_flags-after toks (c ∷ str) ret named = elim (Bool-cases (c == 44)) [
  | inl e ↦ rw e refl
  | inr e ↦ rw e (known_flags-after toks str ret named)
]

unknown_word :
    (toks : List Tok) (w : List ℕ) (ws : List (List ℕ)) (ret : ℕ)
    → flag_of toks w ≡ none
    → known_flags toks (w ∷ ws) ret ≡ ret
unknown_word toks w ws ret e = rw (e, known_flags) refl

known_word :
    (toks : List Tok) (w : List ℕ) (ws : List (List ℕ)) (ret id : ℕ)
    → flag_of toks w ≡ some id
    → known_flags toks (w ∷ ws) ret ≡ known_flags toks ws (bit_or ret id)
known_word toks w ws ret id e = rw (e, known_flags) refl

enough :
    (n : ℕ) (toks : List Tok) (str : List ℕ) (ret : ℕ)
    → All IsWord toks
    → length str ≤ n
    → flags_loop n toks str ret ≡ known_flags toks (word str ∷ others str) ret
unfolding flags_loop found
enough zero toks [] ret named le = rw (flag_of-empty toks named, known_flags) refl
enough zero toks (c ∷ str) ret named le = absurd (omega arith)
enough (suc n) toks [] ret named le = rw (flag_of-empty toks named, known_flags) refl
enough (suc n) toks (c ∷ str) ret named le =
    let found_lem = find_tok_lem toks (c ∷ str) named in
    elim (Option-cases (flag_of toks (word (c ∷ str)))) [
      | inl e ↦
          rw (found_lem, flags_loop, e)
            (sym (unknown_word toks (word (c ∷ str)) (others (c ∷ str)) ret e))
      | inr (id, e) ↦
          let shorter = length-after c str in
          rw (found_lem, flags_loop, e)
            (enough n toks (after (c ∷ str)) (bit_or ret id) named (omega arith)
              ∙ known_flags-after toks (c ∷ str) (bit_or ret id) named
              ∙ sym (known_word toks (word (c ∷ str)) (others (c ∷ str)) ret id e))
    ]

-- The loop that reads flags, on a table of words that are not empty and have no comma, ends within as
-- many rounds as the string has characters. The result is the flags of the parts of the string
-- between its commas, up to the first part that is no word of the table.
pub flags_from_string-known_flags :
    (toks : List Tok) (str : List ℕ)
    → All IsWord toks
    → flags_from_string toks str ≡ known_flags toks (word str ∷ others str) 0
unfolding flags_from_string
flags_from_string-known_flags toks str named = enough (length str) toks str 0 named (omega arith)

-- The flags of four words.
abbrev mask : Bool → Bool → Bool → Bool → ℕ
mask signal subflow backup fullmesh =
    (if signal then 1 else 0)
    + (if subflow then 2 else 0)
    + (if backup then 4 else 0)
    + (if fullmesh then 8 else 0)

read_written :
    (a b c d : Bool)
    → flags_from_string addr_flags_toks (flags_string addr_flags_toks (mask a b c d) 128)
      ≡ mask a b c d
unfolding flags_from_string flags_loop find_tok strip after_tok flags_string flags_string_loop
    append_tok
read_written false false false false = refl
read_written true false false false = refl
read_written false true false false = refl
read_written true true false false = refl
read_written false false true false = refl
read_written true false true false = refl
read_written false true true false = refl
read_written true true true false = refl
read_written false false false true = refl
read_written true false false true = refl
read_written false true false true = refl
read_written true true false true = refl
read_written false false true true = refl
read_written true false true true = refl
read_written false true true true = refl
read_written true true true true = refl

bits :
    (flags : ℕ)
    → flags < 16
    → mask (has_bit flags 1) (has_bit flags 2) (has_bit flags 4) (has_bit flags 8) ≡ flags
bits flags h = ground arith

-- The address flags that are written into the buffer of 128 characters are read back as they were,
-- for every set of the four flags.
pub flags_from_string-flags_string :
    (flags : ℕ)
    → flags < 16
    → flags_from_string addr_flags_toks (flags_string addr_flags_toks flags 128) ≡ flags
flags_from_string-flags_string flags h =
    subst (λ n. flags_from_string addr_flags_toks (flags_string addr_flags_toks n 128) ≡ n)
      (bits flags h)
      (read_written (has_bit flags 1) (has_bit flags 2) (has_bit flags 4) (has_bit flags 8))
