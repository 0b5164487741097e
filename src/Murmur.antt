-- ===== src/Murmur.antt =====
-- lib/murmur_hash.c: MurmurHash3 of a byte array, on 32-bit words with their wrap-around written
-- out. Blocks are read in little-endian order, as on the platforms that need no byte swap.
use Prim.Native.Nat.{bit_or, bit_xor}
use mptcpd.Common.{
  ℕ, zero, suc, ◌+◌, ◌-◌, ◌*◌, ◌/◌, ◌%◌, ◌^◌, List, [], ◌∷◌, drop, get_or, ◌==◌, if◌then◌else◌,
}

abbrev pub word_mod : ℕ
word_mod = 0x100000000

abbrev pub c1 : ℕ
c1 = 0xcc9e2d51

abbrev pub c2 : ℕ
c2 = 0x1b873593

-- `(x << r) | (x >> (32 - r))` on `uint32_t`.
unfoldable pub rotl32 : ℕ → ℕ → ℕ
rotl32 x r = bit_or (x * 2 ^ r % word_mod) (x / 2 ^ (32 - r))

-- `p[i]`, four bytes.
unfoldable pub getblock32 : List ℕ → ℕ
getblock32 p =
    get_or p 0 0 + get_or p 1 0 * 0x100 + get_or p 2 0 * 0x10000 + get_or p 3 0 * 0x1000000

unfoldable pub fmix32 : ℕ → ℕ
fmix32 h =
    let h1 = bit_xor h (h / 2 ^ 16) in
    let h2 = h1 * 0x85ebca6b % word_mod in
    let h3 = bit_xor h2 (h2 / 2 ^ 13) in
    let h4 = h3 * 0xc2b2ae35 % word_mod in bit_xor h4 (h4 / 2 ^ 16)

-- `k1 *= c1; k1 = rotl32(k1, 15); k1 *= c2`.
unfoldable pub mix_k : ℕ → ℕ
unfolding rotl32
mix_k k1 = rotl32 (k1 * c1 % word_mod) 15 * c2 % word_mod

-- One round of the loop of the body.
unfoldable pub round : ℕ → ℕ → ℕ
unfolding mix_k
round h1 k1 = (rotl32 (bit_xor h1 (mix_k k1)) 13 * 5 + 0xe6546b64) % word_mod

-- The loop `for (int i = -nblocks; i; i++)`, over the blocks that are left.
unfoldable pub body : ℕ → List ℕ → ℕ → ℕ
unfolding round getblock32
body zero p h1 = h1
body (suc i) p h1 = body i (drop 4 p) (round h1 (getblock32 p))

-- The switch on `len & 3`, whose cases fall through.
unfoldable pub tail_mix : ℕ → List ℕ → ℕ → ℕ
unfolding mix_k
tail_mix n tail h1 =
    if n == 0
    then h1
    else let three = (if n == 3 then bit_xor 0 (get_or tail 2 0 * 2 ^ 16) else 0) in
      let two = (if n == 1 then three else bit_xor three (get_or tail 1 0 * 2 ^ 8)) in
      bit_xor h1 (mix_k (bit_xor two (get_or tail 0 0)))

-- `mptcpd_murmur_hash3`.
unfoldable pub murmur_hash3 : List ℕ → ℕ → ℕ → ℕ
unfolding body tail_mix fmix32
murmur_hash3 key len seed =
    let nblocks = len / 4 in
    let h1 = body nblocks key seed in
    let h2 = tail_mix (len % 4) (drop (nblocks * 4) key) h1 in fmix32 (bit_xor h2 len)

-- The four bytes of a word in memory.
abbrev pub word_bytes : ℕ → List ℕ
word_bytes w =
    (w % 0x100) ∷ (w / 0x100 % 0x100) ∷ (w / 0x10000 % 0x100) ∷ (w / 0x1000000 % 0x100) ∷ []
