-- ===== src/Upstream/RoundTrip.antt =====
-- What is given to an upstream kernel, and what the callbacks make of it when it comes back.
use mptcpd.Common.{
  ℕ, ◌<◌, ◌^◌, true, Option, none, some, List, [], ◌∷◌, ◌++◌, ◌==◌, if◌then◌else◌, ◌≡◌, ◌≢◌, refl,
  ℤ, pos, negsuc, take, false, arith, Bool-cases, inl, inr, ◌∙◌, ap, All,
}
use mptcpd.Ell.Genl.{Genl, Token, attr, leave}
use mptcpd.Netlink.Size.{optional, attributes, wire_port}
use mptcpd.Netlink.Writes.{Roomy}
use mptcpd.Upstream.Wire.{upstream_set_limits-Outcome}
use mptcpd.Netlink.{Kernel, get_port_number, swap16, u8, u16, u32, check_genl_error}
use mptcpd.PathManager.{Limit}
use mptcpd.Sockaddr.{Sockaddr, af_inet, is_inet, sockaddr_storage_init}
use mptcpd.Upstream.Reply.{
  Answer, ReplyAttr, MptcpdAddrInfo, Found, nothing, zeroed, or_zero, s32_value, addr_info_init,
  find_attr, find_attrs, get_addr_callback_recurse, first_addr, get_addr_callback,
  kernel_to_mptcpd_limit, read_limits, get_limits_callback,
}
use mptcpd.Upstream.Tokens.{addr_tokens, limit_attr, limit_tokens}
use mptcpd.Upstream.{AddrInfo, s32_bits, upstream_set_limits, mptcpd_to_kernel_limit}

-- The pointer to an attribute that is left out where its value is 0.
abbrev given : ℕ → Option ℕ
given v = if v == 0 then none else some v

or_zero-given : (v : ℕ) → or_zero (given v) ≡ v
or_zero-given v = ground arith

port_found :
    (v : ℕ) (rest : List Token) (f : Found)
    → f.port ≡ none
    → find_attrs (attributes (optional v (u16 5 v) ++ rest)) f
      ≡ find_attrs (attributes rest) (record f { port = given v })
unfolding find_attrs find_attr
port_found v rest f unset = elim (Bool-cases (v == 0)) [
  | inl e ↦ rw (e, unset) refl
  | inr e ↦ rw e refl
]

id_found :
    (v : ℕ) (rest : List Token) (f : Found)
    → f.id ≡ none
    → find_attrs (attributes (optional v (u8 2 v) ++ rest)) f
      ≡ find_attrs (attributes rest) (record f { id = given v })
unfolding find_attrs find_attr
id_found v rest f unset = elim (Bool-cases (v == 0)) [
  | inl e ↦ rw (e, unset) refl
  | inr e ↦ rw e refl
]

flags_found :
    (v : ℕ) (rest : List Token) (f : Found)
    → f.flags ≡ none
    → find_attrs (attributes (optional v (u32 6 v) ++ rest)) f
      ≡ find_attrs (attributes rest) (record f { flags = given v })
unfolding find_attrs find_attr
flags_found v rest f unset = elim (Bool-cases (v == 0)) [
  | inl e ↦ rw (e, unset) refl
  | inr e ↦ rw e refl
]

index_found :
    (v : ℕ) (rest : List Token) (f : Found)
    → f.index ≡ none
    → find_attrs (attributes (optional v (u32 7 v) ++ rest)) f
      ≡ find_attrs (attributes rest) (record f { index = given v })
unfolding find_attrs find_attr
index_found v rest f unset = elim (Bool-cases (v == 0)) [
  | inl e ↦ rw (e, unset) refl
  | inr e ↦ rw e refl
]

-- What is found in the attributes of an address.
abbrev found : AddrInfo → Option ℕ → Option (List ℕ) → Found
found info addr4 addr6 = record {
  addr4 = addr4;
  addr6 = addr6;
  port = given (wire_port info.addr);
  id = given info.id;
  flags = given info.flags;
  index = given (s32_bits info.ifindex);
}

optional-found :
    (info : AddrInfo) (addr4 : Option ℕ) (addr6 : Option (List ℕ))
    → find_attrs
        (attributes (
          optional (wire_port info.addr) (u16 5 (wire_port info.addr))
          ++ (optional info.id (u8 2 info.id)
              ++ (optional info.flags (u32 6 info.flags)
                  ++ (optional (s32_bits info.ifindex) (u32 7 (s32_bits info.ifindex))
                      ++ leave ∷ [])))))
        (record nothing { addr4 = addr4; addr6 = addr6 })
      ≡ found info addr4 addr6
unfolding find_attrs
optional-found info addr4 addr6 =
    let index = s32_bits info.ifindex in
    let with_index = optional index (u32 7 index) ++ leave ∷ [] in
    let with_flags = optional info.flags (u32 6 info.flags) ++ with_index in
    let with_id = optional info.id (u8 2 info.id) ++ with_flags in
    let f : Found = record nothing { addr4 = addr4; addr6 = addr6 } in
    let f_port : Found = record f { port = given (wire_port info.addr) } in
    let f_id : Found = record f_port { id = given info.id } in
    let f_flags : Found = record f_id { flags = given info.flags } in
    port_found (wire_port info.addr) with_id f refl
    ∙ id_found info.id with_flags f_port refl
    ∙ flags_found info.flags with_index f_id refl
    ∙ index_found index (leave ∷ []) f_flags refl

-- The view that the family selects, as `mptcpd_sockaddr_storage_init` makes it of zeroed memory.
abbrev pub view : Sockaddr → Sockaddr
view addr =
    if addr.family == af_inet
    then record { family = 2; port = addr.port; addr4 = addr.addr4; addr6 = [] }
    else record { family = 10; port = addr.port; addr4 = 0; addr6 = addr.addr6 }

-- The numbers of an `in_port_t` and of an `int32_t`.
abbrev pub InRange : Sockaddr → ℤ → Type 0
InRange addr (pos n) = (addr.port < 2 ^ 16) × (n < 2 ^ 31)
InRange addr (negsuc n) = (addr.port < 2 ^ 16) × (n < 2 ^ 31)

swap16_lem : (n : ℕ) → n < 2 ^ 16 → swap16 (swap16 n) ≡ n
swap16_lem n h = omega arith

s32_value-s32_bits : (addr : Sockaddr) (i : ℤ) → InRange addr i → s32_value (s32_bits i) ≡ i
s32_value-s32_bits addr (pos n) h = ground arith
s32_value-s32_bits addr (negsuc n) h = ground arith

port-InRange : (addr : Sockaddr) (i : ℤ) → InRange addr i → addr.port < 2 ^ 16
port-InRange addr (pos n) range = range.0
port-InRange addr (negsuc n) range = range.0

read_port :
    (addr : Sockaddr) (i : ℤ)
    → is_inet addr ≡ true
    → InRange addr i
    → swap16 (get_port_number (some addr)) ≡ addr.port
unfolding get_port_number
read_port addr i inet range = rw inet (swap16_lem addr.port (port-InRange addr i range))

-- The address of an answer with the ID, flags and index of a command.
abbrev pub as_sent : AddrInfo → Sockaddr → MptcpdAddrInfo
as_sent info addr = record { addr = addr; id = info.id; flags = info.flags; index = info.ifindex }

-- What the callback makes of the attributes that were found, for each family.
read_found :
    (info : AddrInfo) (a : ℕ) (bytes : List ℕ)
    → is_inet info.addr ≡ true
    → InRange info.addr info.ifindex
    → ((addr_info_init (found info (some a) none) zeroed).0
        ≡ as_sent info (record { family = 2; port = info.addr.port; addr4 = a; addr6 = [] }))
      × ((addr_info_init (found info none (some bytes)) zeroed).0
          ≡ as_sent info (record { family = 10; port = info.addr.port; addr4 = 0; addr6 = bytes }))
unfolding addr_info_init sockaddr_storage_init get_port_number wire_port
read_found info a bytes inet range =
    (rw (is_port, is_id, is_flags, is_index) refl, rw (is_port, is_id, is_flags, is_index) refl)
  where
    is_port : swap16 (or_zero (given (wire_port info.addr))) ≡ info.addr.port
    is_port =
        ap swap16 (or_zero-given (wire_port info.addr))
        ∙ read_port info.addr info.ifindex inet range

    is_id : or_zero (given info.id) ≡ info.id
    is_id = or_zero-given info.id

    is_flags : or_zero (given info.flags) ≡ info.flags
    is_flags = or_zero-given info.flags

    is_index : s32_value (or_zero (given (s32_bits info.ifindex))) ≡ info.ifindex
    is_index =
        ap s32_value (or_zero-given (s32_bits info.ifindex))
        ∙ s32_value-s32_bits info.addr info.ifindex range

-- An answer with one address.
abbrev pub one_addr : List Token → Answer
one_addr ts = record {
  error = pos 0;
  attrs = some (record { type = 1; value = 0; nested = some (attributes ts) } ∷ []);
}

-- An Internet address with its ID, flags and interface index, written as the nested attribute of a
-- command and answered by the kernel without an error, reaches the callback of `get_addr` as it was,
-- if its port is a 16-bit and its index a 32-bit number: what a command leaves out because it is 0
-- is read as 0.
pub get_addr_callback-addr_tokens :
    (info : AddrInfo)
    → is_inet info.addr ≡ true
    → InRange info.addr info.ifindex
    → get_addr_callback (one_addr (addr_tokens info)) ≡ some (as_sent info (view info.addr))
unfolding get_addr_callback check_genl_error first_addr get_addr_callback_recurse find_attrs
    find_attr
get_addr_callback-addr_tokens info inet range =
    let a = info.addr.addr4 in
    let bytes = info.addr.addr6 in
    let read = read_found info a bytes inet range in
    let made : Found → Option MptcpdAddrInfo = λ f. some (addr_info_init f zeroed).0 in
    elim (Bool-cases (info.addr.family == 2)) [
      | inl e ↦ rw e (ap made (optional-found info (some a) none) ∙ ap some read.0)
      | inr e ↦ rw e (ap made (optional-found info none (some bytes)) ∙ ap some read.1)
    ]

-- The limits of an answer.
abbrev pub limit_attrs : List Token → List ReplyAttr
limit_attrs [] = []
limit_attrs (attr a ∷ rest) =
    record { type = a.type; value = a.value; nested = none } ∷ limit_attrs rest
limit_attrs (_ ∷ rest) = limit_attrs rest

limit_type : (t : ℕ) → t ≢ 2 → t ≢ 3 → kernel_to_mptcpd_limit (limit_attr t) ≡ t
unfolding kernel_to_mptcpd_limit mptcpd_to_kernel_limit
limit_type t two three = ground arith

read_limits-limit_tokens :
    (ls : List Limit)
    → All (λ l. (l.0 ≢ 2) × (l.0 ≢ 3)) ls
    → read_limits (limit_attrs (limit_tokens ls)) ≡ ls
unfolding read_limits
read_limits-limit_tokens [] all = refl
read_limits-limit_tokens (l ∷ rest) all =
    ap (λ t. (t, l.1) ∷ read_limits (limit_attrs (limit_tokens rest)))
      (limit_type l.0 all.0.0 all.0.1)
    ∙ ap (λ r. l ∷ r) (read_limits-limit_tokens rest all.1)

answered_limits : List Token → List Limit
answered_limits ts = get_limits_callback (record { error = pos 0; attrs = some (limit_attrs ts) })

answered_limits-limit_tokens :
    (limits : List Limit)
    → All (λ l. (l.0 ≢ 2) × (l.0 ≢ 3)) limits
    → answered_limits (limit_tokens limits) ≡ limits
unfolding answered_limits get_limits_callback check_genl_error
answered_limits-limit_tokens limits h = read_limits-limit_tokens limits h

-- A kernel that keeps the attributes of the last request, and takes every one.
abbrev pub keeper : Kernel (List Token)
keeper = record { send = λ cmd ts c w. (ts, 1); dump = λ cmd ts c w. (ts, 1) }

-- The limits that `upstream_set_limits` sends, answered by the kernel without an error, reach the
-- callback of `get_limits` as they were, if there are some, none has the type 2 or 3, and there was
-- memory for every attribute.
pub get_limits_callback-set_limits :
    (g : Genl) (limits : List Limit) (len : ℕ)
    → Roomy g
    → (len == 0) ≡ false
    → All (λ l. (l.0 ≢ 2) × (l.0 ≢ 3)) (take len limits)
    → let sent = (upstream_set_limits g keeper limits len []).0 in
      get_limits_callback (record { error = pos 0; attrs = some (limit_attrs sent) })
      ≡ take len limits
unfolding answered_limits
get_limits_callback-set_limits g limits len room some_limits types =
    elim (upstream_set_limits-Outcome g keeper limits len [] some_limits) [
      | inl (e, short) ↦ absurd (short room)
      | inr e ↦
          ap (λ r. answered_limits r.0) e ∙ answered_limits-limit_tokens (take len limits) types
    ]
