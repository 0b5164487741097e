-- ===== src/Netlink.antt =====
-- src/commands.h and src/commands.c: what the two netlink backends share, and the calls of ELL with
-- which they build and send a message.
pub mod Writes
pub mod Size
pub mod Samples
use mptcpd.Common.{
  ℕ, ◌+◌, ◌*◌, ◌/◌, ◌%◌, Bool, true, false, Option, none, some, List, [], ◌∷◌, ℤ, pos, is_negative,
  not, ◌==◌, if◌then◌else◌,
}
use mptcpd.Ell.Genl.{Genl, Token, enter, attr, leave}
use mptcpd.Events.Attributes.{Attribute}
use mptcpd.PathManager.{Pointer}
use mptcpd.Sockaddr.{Sockaddr, af_inet, is_inet}

abbrev pub enomem : ℤ
enomem = pos 12

-- NLA_ALIGN, and `MPTCPD_NLA_ALIGN` and `MPTCPD_NLA_ALIGN_OPT` for a variable of `size` bytes: the
-- size of an attribute with its header.
abbrev pub align : ℕ → ℕ
align n = (n + 3) / 4 * 4

unfoldable pub nla_align : ℕ → ℕ
nla_align size = 4 + align size

unfoldable pub nla_align_opt : ℕ → ℕ → ℕ
unfolding nla_align
nla_align_opt size v = if v == 0 then 0 else nla_align size

-- `mptcpd_get_addr_size`, and `MPTCPD_NLA_ALIGN_ADDR`.
unfoldable pub get_addr_size : Sockaddr → ℕ
get_addr_size addr = if addr.family == af_inet then 4 else 16

unfoldable pub nla_align_addr : Sockaddr → ℕ
unfolding nla_align get_addr_size
nla_align_addr addr = nla_align (get_addr_size addr)

-- `mptcpd_get_addr_family`; a NULL address is `none`.
unfoldable pub get_addr_family : Option Sockaddr → ℕ
get_addr_family none = 0
get_addr_family (some addr) = addr.family

-- `htons` and `ntohs`: the two bytes of a word change places.
abbrev pub swap16 : ℕ → ℕ
swap16 n = n % 256 * 256 + n / 256 % 256

-- `mptcpd_get_port_number`: in host byte order.
unfoldable pub get_port_number : Option Sockaddr → ℕ
get_port_number none = 0
get_port_number (some addr) = if is_inet addr then swap16 addr.port else swap16 0

-- `mptcpd_check_genl_error`, of the error that the message carries.
unfoldable pub check_genl_error : ℤ → Bool
check_genl_error error = not (is_negative error)

-- Attributes of the sizes that the commands append. Only the reading that the size calls for is
-- filled in.
abbrev pub number : ℕ → ℕ → ℕ → Attribute
number type len value = record { type = type; len = len; value = value; bytes = [] }

abbrev pub u8 : ℕ → ℕ → Attribute
u8 type value = number type 1 value

abbrev pub u16 : ℕ → ℕ → Attribute
u16 type value = number type 2 value

abbrev pub u32 : ℕ → ℕ → Attribute
u32 type value = number type 4 value

-- The IP address of `addr`, by its family: `sin_addr` or `sin6_addr`.
abbrev pub ip_attr : ℕ → ℕ → Sockaddr → Attribute
ip_attr type4 type6 addr =
    if addr.family == af_inet
    then u32 type4 addr.addr4
    else record { type = type6; len = 16; value = 0; bytes = addr.addr6 }

-- What is to run when the kernel answers, with its data: only the log of an error; also, without an
-- error, `mptcpd_lm_close` of an address; the callback of a plugin on the address of the answer, with
-- the function that follows it and whether this is a dump; or that on the limits of the answer.
pub data Completion : Type 0 where
  logs : Completion
  closes : Option Sockaddr → Completion
  passes_addr : ℕ → Pointer → Pointer → Bool → Completion
  passes_limits : ℕ → Pointer → Completion

-- `l_genl_family_send` and `l_genl_family_dump` of a command and its tokens, in a kernel whose state
-- is of type `W`. They return the ID of the request, or 0.
pub record Kernel (W : Type 0) : Type 0 where
  pub send : ℕ → List Token → Completion → W → W × ℕ
  pub dump : ℕ → List Token → Completion → W → W × ℕ

-- A result of `send` as the commands return it: `send(...) == 0`.
abbrev pub result : {W : Type 0} → W × ℕ → W × ℤ
result r = (r.0, if r.1 == 0 then pos 1 else pos 0)

module _ (g : Genl) where
  open g use {Msg, append_attr, enter_nested, leave_nested, command, body}

  -- A call that adds to a message. It returns false when it fails.
  abbrev pub Step : Type 0
  Step = Msg → Msg × Bool

  -- `f(msg) && h(msg) && ...`.
  unfoldable pub all_steps : List Step → Step
  all_steps [] m = (m, true)
  all_steps (f ∷ rest) m = elim (f m).1 [ true ↦ all_steps rest (f m).0 | false ↦ (f m) ]

  -- `v == 0 || f(msg)`.
  unfoldable pub unless_zero : ℕ → Step → Step
  unless_zero v f m = elim (v == 0) [ true ↦ (m, true) | false ↦ f m ]

  -- The end of a command: ENOMEM unless every call has succeeded.
  unfoldable pub transmit : {W : Type 0} → Kernel W → Msg × Bool → Completion → W → W × ℤ
  transmit kernel (msg, appended) completion w =
      if appended then result (kernel.send (command msg) (body msg) completion w) else (w, enomem)
