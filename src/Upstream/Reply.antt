-- ===== src/Upstream/Reply.antt =====
-- The answers of the upstream kernel: the callbacks of src/netlink_pm_upstream.c. A payload is taken
-- to have the size of its type, which the callbacks do not check.
use mptcpd.Common.{
  ℕ, zero, ◌-◌, ◌^◌, Bool, true, false, not, Option, none, some, List, [], ◌∷◌, ℤ, pos, negsuc, ltb,
  ◌==◌, if◌then◌else◌,
}
use mptcpd.Events.Attributes.{Attribute}
use mptcpd.ListenerManager.{ListenerMap, Lm, lm_close}
use mptcpd.Netlink.{check_genl_error, swap16}
use mptcpd.PathManager.{Limit}
use mptcpd.Sockaddr.{Sockaddr, sockaddr_storage_init}

-- An attribute of an answer: its payload as an integer, and as attributes where it is nested.
pub record ReplyAttr : Type 0 where
  pub type : ℕ
  pub value : ℕ
  pub nested : Option (List Attribute)

-- An answer: its error, and its attributes where they can be read.
pub record Answer : Type 0 where
  pub error : ℤ
  pub attrs : Option (List ReplyAttr)

-- `struct mptcpd_addr_info`.
pub record MptcpdAddrInfo : Type 0 where
  pub addr : Sockaddr
  pub id : ℕ
  pub flags : ℕ
  pub index : ℤ

-- `struct mptcpd_addr_info addr = { .id = 0 }`.
abbrev pub zeroed : MptcpdAddrInfo
zeroed = record {
  addr = record { family = 0; port = 0; addr4 = 0; addr6 = [] };
  id = 0;
  flags = 0;
  index = pos 0;
}

-- `p ? *p : 0`.
abbrev pub or_zero : Option ℕ → ℕ
or_zero none = 0
or_zero (some n) = n

-- 32 bits as an `int32_t`.
abbrev pub s32_value : ℕ → ℤ
s32_value n = if ltb n (2 ^ 31) then pos n else negsuc (2 ^ 32 - 1 - n)

-- The pointers that `get_addr_callback_recurse` sets.
pub record Found : Type 0 where
  pub addr4 : Option ℕ
  pub addr6 : Option (List ℕ)
  pub port : Option ℕ
  pub id : Option ℕ
  pub flags : Option ℕ
  pub index : Option ℕ

abbrev pub nothing : Found
nothing = record { addr4 = none; addr6 = none; port = none; id = none; flags = none; index = none }

-- `mptcpd_addr_info_init`, for a structure that is not NULL.
unfoldable pub addr_info_init : Found → MptcpdAddrInfo → MptcpdAddrInfo × Bool
addr_info_init found info =
    elim (sockaddr_storage_init found.addr4 found.addr6 (swap16 (or_zero found.port))
      (some info.addr)) [
        | none ↦ (info, false)
        | some addr ↦ (
          record {
            addr = addr;
            id = or_zero found.id;
            flags = or_zero found.flags;
            index = s32_value (or_zero found.index);
          },
          true,
        )
      ]

-- The loop of `get_addr_callback_recurse`, with its switch.
unfoldable pub find_attr : Attribute → Found → Found
find_attr a found =
    let t = a.type in
    if t == 1
    then found
    else if t == 2
    then record found { id = some a.value }
    else if t == 3
    then record found { addr4 = some a.value }
    else if t == 4
    then record found { addr6 = some a.bytes }
    else if t == 5
    then record found { port = some a.value }
    else if t == 6
    then record found { flags = some a.value }
    else if t == 7
    then record found { index = some a.value }
    else found

unfoldable pub find_attrs : List Attribute → Found → Found
find_attrs [] found = found
find_attrs (a ∷ rest) found = find_attrs rest (find_attr a found)

-- `get_addr_callback_recurse`. The result of the initialisation is not looked at.
unfoldable pub get_addr_callback_recurse :
    Option (List Attribute) → MptcpdAddrInfo → MptcpdAddrInfo × Bool
get_addr_callback_recurse none info = (info, false)
get_addr_callback_recurse (some attrs) info =
    ((addr_info_init (find_attrs attrs nothing) info).0, true)

-- The loop of `get_addr_callback`, which ends with the first address.
unfoldable pub first_addr : List ReplyAttr → MptcpdAddrInfo → Option MptcpdAddrInfo
first_addr [] info = some info
first_addr (a ∷ rest) info =
    let r = get_addr_callback_recurse a.nested info in
    let later = first_addr rest info in
    if not (a.type == 1) then later else if r.1 then some r.0 else none

-- `get_addr_callback`: the address that is passed to the callback of the user, if it is called.
unfoldable pub get_addr_callback : Answer → Option MptcpdAddrInfo
get_addr_callback msg =
    if not (check_genl_error msg.error)
    then none
    else (elim msg.attrs [ none ↦ none | some attrs ↦ first_addr attrs zeroed ])

-- `kernel_to_mptcpd_limit`.
unfoldable pub kernel_to_mptcpd_limit : ℕ → ℕ
kernel_to_mptcpd_limit type = if type == 2 then 0 else if type == 3 then 1 else type

unfoldable pub read_limits : List ReplyAttr → List Limit
read_limits [] = []
read_limits (a ∷ rest) = (kernel_to_mptcpd_limit a.type, a.value) ∷ read_limits rest

-- `get_limits_callback`: the limits that are passed to the callback of the user, which is always
-- called.
unfoldable pub get_limits_callback : Answer → List Limit
get_limits_callback msg =
    if not (check_genl_error msg.error)
    then []
    else (elim msg.attrs [ none ↦ [] | some attrs ↦ read_limits attrs ])

-- `upstream_remove_callback`, where `sa` is what is found at the user data when the answer comes.
unfoldable pub upstream_remove_callback :
    (p : ListenerMap) → ℤ → Option (Lm p) → Option Sockaddr → Option (Lm p)
upstream_remove_callback p (pos zero) lm sa = (lm_close p lm sa).0
upstream_remove_callback p _ lm sa = lm
