-- ===== src/Org/Sizes.antt =====
-- The size of a message to a multipath-tcp.org kernel, and the one that its command computes for it.
use mptcpd.Common.{
  ℕ, ◌+◌, Bool, Option, none, some, List, [], ◌∷◌, ◌++◌, ◌≡◌, arith, ◌==◌, Bool-cases, inl, inr,
  subst,
}
use mptcpd.Ell.Genl.{Token, attr}
use mptcpd.Netlink.Size.{wire_port, wire_size, wire_size-append, nla_align-ip, wire_size-optional}
use mptcpd.Netlink.{nla_align, nla_align_opt, nla_align_addr, get_port_number, u16}
use mptcpd.Org.Wire.{
  add_addr_tokens, remove_addr_tokens, add_subflow_tokens, subflow_tokens, backup_token,
  local_tokens, remote_tokens, message,
}
use mptcpd.Org.{
  add_addr_size, remove_addr_size, add_subflow_size, set_backup_size, remove_subflow_size,
}
use mptcpd.PathManager.Commands.{
  Command, user_add_addr, user_remove_addr, user_add_subflow, user_set_backup, user_remove_subflow,
}
use mptcpd.Sockaddr.{Sockaddr}

remote-size :
    (addr : Sockaddr) (rest : List Token)
    → wire_size (remote_tokens addr ++ rest) ≡ nla_align_addr addr + nla_align 2 + wire_size rest
unfolding wire_size nla_align
remote-size addr rest = omega (arith, nla_align-ip addr 7 8)

local-size :
    (addr : Sockaddr)
    → wire_size (local_tokens (some addr))
      ≡ nla_align_addr addr + nla_align_opt 2 (get_port_number (some addr))
unfolding wire_size get_port_number wire_port
local-size addr =
    let port = wire_port addr in
    omega (arith, nla_align-ip addr 5 6, wire_size-optional port (u16 9 port))

add_addr-size :
    (addr : Sockaddr) (id token : ℕ)
    → wire_size (add_addr_tokens addr id token) ≡ add_addr_size addr
unfolding add_addr_size wire_size nla_align
add_addr-size addr id token = omega (arith, local-size addr)

remove_addr-size : (id token : ℕ) → wire_size (remove_addr_tokens id token) ≡ remove_addr_size
unfolding remove_addr_size wire_size nla_align
remove_addr-size id token = omega arith

subflow-size :
    (token : ℕ) (laddr raddr : Sockaddr) (rest : List Token)
    → wire_size (subflow_tokens token laddr raddr rest)
      ≡ remove_subflow_size laddr raddr + wire_size rest
unfolding remove_subflow_size wire_size nla_align
subflow-size token laddr raddr rest = omega (arith, nla_align-ip laddr 5 6, remote-size raddr rest)

set_backup-size :
    (token : ℕ) (laddr raddr : Sockaddr) (backup : Bool)
    → wire_size (subflow_tokens token laddr raddr (backup_token backup))
      ≡ set_backup_size laddr raddr
unfolding set_backup_size remove_subflow_size wire_size nla_align
set_backup-size token laddr raddr backup =
    omega (arith, subflow-size token laddr raddr (backup_token backup))

subflow_none-size :
    (token : ℕ) (laddr raddr : Sockaddr)
    → wire_size (subflow_tokens token laddr raddr []) ≡ remove_subflow_size laddr raddr
unfolding wire_size nla_align
subflow_none-size token laddr raddr = omega (arith, subflow-size token laddr raddr [])

-- The end of the message of `add_subflow`.
created-size :
    (raddr : Sockaddr) (backup : Bool)
    → wire_size (attr (u16 2 raddr.family) ∷ (remote_tokens raddr ++ backup_token backup))
      ≡ nla_align 2 + nla_align_addr raddr + nla_align 2 + nla_align 1
unfolding wire_size nla_align
created-size raddr backup = omega (arith, remote-size raddr (backup_token backup))

add_subflow-size :
    (token local_id remote_id : ℕ) (laddr : Option Sockaddr) (raddr : Sockaddr) (backup : Bool)
    → wire_size (add_subflow_tokens token local_id remote_id laddr raddr backup)
      ≡ add_subflow_size laddr raddr
unfolding add_subflow_size wire_size nla_align
add_subflow-size token local_id remote_id none raddr backup =
    omega (arith, created-size raddr backup)
add_subflow-size token local_id remote_id (some laddr) raddr backup =
    let end = attr (u16 2 raddr.family) ∷ (remote_tokens raddr ++ backup_token backup) in
    omega (
      arith,
      created-size raddr backup,
      local-size laddr,
      wire_size-append (local_tokens (some laddr)) end,
    )

-- The size of the payload that each command computes in advance.
abbrev pub payload_size : Command → ℕ
payload_size (user_add_addr (some addr) id token listener) = add_addr_size addr
payload_size (user_remove_addr addr id token) = remove_addr_size
payload_size (user_add_subflow token local_id remote_id laddr (some raddr) backup) =
    add_subflow_size laddr raddr
payload_size (user_set_backup token (some laddr) (some raddr) backup) = set_backup_size laddr raddr
payload_size (user_remove_subflow token (some laddr) (some raddr)) = remove_subflow_size laddr raddr
payload_size c = 0

-- The size of a message, if there is one.
abbrev Sized : Option (ℕ × List Token) → ℕ → Type 0
Sized none size = Unit
Sized (some (cmd, ts)) size = wire_size ts ≡ size

message-Sized : (c : Command) → Sized (message c) (payload_size c)
message-Sized (user_add_addr none id token listener) = tt
message-Sized (user_add_addr (some addr) id token listener) = elim (Bool-cases (id == 0)) [
  | inl e ↦ rw e tt
  | inr e ↦ rw e (add_addr-size addr id token)
]
message-Sized (user_remove_addr addr id token) = elim (Bool-cases (id == 0)) [
  | inl e ↦ rw e tt
  | inr e ↦ rw e (remove_addr-size id token)
]
message-Sized (user_add_subflow token local_id remote_id laddr none backup) = tt
message-Sized (user_add_subflow token local_id remote_id laddr (some raddr) backup) =
    elim (Bool-cases (wire_port raddr == 0)) [
      | inl e ↦ rw e tt
      | inr e ↦ rw e (add_subflow-size token local_id remote_id laddr raddr backup)
    ]
message-Sized (user_set_backup token none raddr backup) = tt
message-Sized (user_set_backup token (some laddr) none backup) = tt
message-Sized (user_set_backup token (some laddr) (some raddr) backup) =
    set_backup-size token laddr raddr backup
message-Sized (user_remove_subflow token none raddr) = tt
message-Sized (user_remove_subflow token (some laddr) none) = tt
message-Sized (user_remove_subflow token (some laddr) (some raddr)) =
    subflow_none-size token laddr raddr
message-Sized _ = tt

-- For every command that has a message, the payload size that the command computes in advance is
-- exactly the size of the attributes of its message, headers and padding included.
pub payload_size-message :
    (c : Command) (cmd : ℕ) (ts : List Token)
    → message c ≡ some (cmd, ts)
    → wire_size ts ≡ payload_size c
payload_size-message c cmd ts h = subst (λ o. Sized o (payload_size c)) h (message-Sized c)
