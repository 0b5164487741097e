-- ===== src/Org.antt =====
-- src/netlink_pm_mptcp_org.c: the commands of plugins as messages to the multipath-tcp.org kernel.
pub mod Wire
pub mod Sizes
pub mod Parse
mod Tests
use mptcpd.Common.{ℕ, ◌+◌, Bool, Option, none, some, List, [], ◌∷◌, ℤ, pos, ◌==◌, if◌then◌else◌}
use mptcpd.Ell.Genl.{Genl}
use mptcpd.Netlink.{
  Kernel, Step, all_steps, unless_zero, transmit, logs, u8, u16, u32, ip_attr, nla_align,
  nla_align_opt, nla_align_addr, get_addr_family, get_port_number,
}
use mptcpd.PathManager.{PmCmdOps, einval}
use mptcpd.Sockaddr.{Sockaddr}

-- The enumeration of commands in linux/mptcp_org.h.
abbrev pub cmd_announce : ℕ
cmd_announce = 4

abbrev pub cmd_remove : ℕ
cmd_remove = 5

abbrev pub cmd_sub_create : ℕ
cmd_sub_create = 8

abbrev pub cmd_sub_destroy : ℕ
cmd_sub_destroy = 9

abbrev pub cmd_sub_priority : ℕ
cmd_sub_priority = 12

-- A `bool` as the byte that it is stored in.
abbrev pub bool_byte : Bool → ℕ
bool_byte b = if b then 1 else 0

-- The sizes of the payloads that the commands compute, `payload_size`.
unfoldable pub add_addr_size : Sockaddr → ℕ
add_addr_size addr =
    nla_align 4
    + nla_align 1
    + nla_align 2
    + nla_align_addr addr
    + nla_align_opt 2 (get_port_number (some addr))

unfoldable pub remove_addr_size : ℕ
remove_addr_size = nla_align 4 + nla_align 1

unfoldable pub add_subflow_size : Option Sockaddr → Sockaddr → ℕ
add_subflow_size local_addr remote_addr =
    nla_align 4
    + nla_align 2
    + nla_align 1
    + nla_align 1
    + (elim local_addr [
      | none ↦ 0
      | some addr ↦ nla_align_addr addr + nla_align_opt 2 (get_port_number (some addr))
    ])
    + nla_align_addr remote_addr
    + nla_align 2
    + nla_align 1

unfoldable pub set_backup_size : Sockaddr → Sockaddr → ℕ
set_backup_size local_addr remote_addr =
    nla_align 4
    + nla_align 2
    + nla_align_addr local_addr
    + nla_align 2
    + nla_align_addr remote_addr
    + nla_align 2
    + nla_align 1

unfoldable pub remove_subflow_size : Sockaddr → Sockaddr → ℕ
remove_subflow_size local_addr remote_addr =
    nla_align 4
    + nla_align 2
    + nla_align_addr local_addr
    + nla_align 2
    + nla_align_addr remote_addr
    + nla_align 2

module _ (g : Genl) where
  open g use {Msg, new_sized, append_attr}

  -- `append_local_addr_attr` and `append_remote_addr_attr`, each with its branch of
  -- `append_addr_attr`.
  unfoldable pub append_local_addr_attr : Sockaddr → Step g
  append_local_addr_attr addr msg = append_attr msg (ip_attr 5 6 addr)

  unfoldable pub append_remote_addr_attr : Sockaddr → Step g
  append_remote_addr_attr addr msg = append_attr msg (ip_attr 7 8 addr)

  -- The local address of `add_subflow`, with its port, unless the pointer is NULL.
  unfoldable pub append_local : Option Sockaddr → Step g
  unfolding append_local_addr_attr all_steps unless_zero get_port_number
  append_local none = all_steps g []
  append_local (some addr) =
      let port = get_port_number (some addr) in
      all_steps g
        (append_local_addr_attr addr ∷ unless_zero g port (λ m. append_attr m (u16 9 port)) ∷ [])

  -- The conditions `appended` of the commands.
  unfoldable pub add_addr_steps : Sockaddr → ℕ → ℕ → Step g
  unfolding append_local_addr_attr all_steps unless_zero get_addr_family get_port_number
  add_addr_steps addr id token =
      let port = get_port_number (some addr) in
      all_steps g (
        (λ m. append_attr m (u32 1 token))
        ∷ (λ m. append_attr m (u8 3 id))
        ∷ (λ m. append_attr m (u16 2 (get_addr_family (some addr))))
        ∷ append_local_addr_attr addr
        ∷ unless_zero g port (λ m. append_attr m (u16 9 port))
        ∷ [])

  unfoldable pub remove_addr_steps : ℕ → ℕ → Step g
  unfolding all_steps
  remove_addr_steps address_id token =
      all_steps g ((λ m. append_attr m (u32 1 token)) ∷ (λ m. append_attr m (u8 3 address_id)) ∷ [])

  unfoldable pub add_subflow_steps : ℕ → ℕ → ℕ → Option Sockaddr → Sockaddr → Bool → Step g
  unfolding append_local append_remote_addr_attr all_steps get_addr_family get_port_number
  add_subflow_steps token local_id remote_id local_addr remote_addr backup = all_steps g (
      (λ m. append_attr m (u32 1 token))
      ∷ (λ m. append_attr m (u8 3 local_id))
      ∷ (λ m. append_attr m (u8 4 remote_id))
      ∷ append_local local_addr
      ∷ (λ m. append_attr m (u16 2 (get_addr_family (some remote_addr))))
      ∷ append_remote_addr_attr remote_addr
      ∷ (λ m. append_attr m (u16 10 (get_port_number (some remote_addr))))
      ∷ (λ m. append_attr m (u8 11 (bool_byte backup)))
      ∷ [])

  unfoldable pub set_backup_steps : ℕ → Sockaddr → Sockaddr → Bool → Step g
  unfolding append_local_addr_attr append_remote_addr_attr all_steps get_addr_family get_port_number
  set_backup_steps token local_addr remote_addr backup = all_steps g (
      (λ m. append_attr m (u32 1 token))
      ∷ (λ m. append_attr m (u16 2 (get_addr_family (some local_addr))))
      ∷ append_local_addr_attr local_addr
      ∷ (λ m. append_attr m (u16 9 (get_port_number (some local_addr))))
      ∷ append_remote_addr_attr remote_addr
      ∷ (λ m. append_attr m (u16 10 (get_port_number (some remote_addr))))
      ∷ (λ m. append_attr m (u8 11 (bool_byte backup)))
      ∷ [])

  unfoldable pub remove_subflow_steps : ℕ → Sockaddr → Sockaddr → Step g
  unfolding append_local_addr_attr append_remote_addr_attr all_steps get_addr_family get_port_number
  remove_subflow_steps token local_addr remote_addr = all_steps g (
      (λ m. append_attr m (u32 1 token))
      ∷ (λ m. append_attr m (u16 2 (get_addr_family (some local_addr))))
      ∷ append_local_addr_attr local_addr
      ∷ (λ m. append_attr m (u16 9 (get_port_number (some local_addr))))
      ∷ append_remote_addr_attr remote_addr
      ∷ (λ m. append_attr m (u16 10 (get_port_number (some remote_addr))))
      ∷ [])

  module _ {W : Type 0} (kernel : Kernel W) where
    unfoldable pub org_add_addr : Sockaddr → ℕ → ℕ → Bool → W → W × ℤ
    org_add_addr addr id token listener w =
        transmit g kernel
          (add_addr_steps addr id token (new_sized cmd_announce (add_addr_size addr))) logs w

    unfoldable pub org_remove_addr : Option Sockaddr → ℕ → ℕ → W → W × ℤ
    org_remove_addr addr address_id token w =
        transmit g kernel
          (remove_addr_steps address_id token (new_sized cmd_remove remove_addr_size)) logs w

    unfoldable pub org_add_subflow : ℕ → ℕ → ℕ → Option Sockaddr → Sockaddr → Bool → W → W × ℤ
    org_add_subflow token local_id remote_id local_addr remote_addr backup w =
        if get_port_number (some remote_addr) == 0
        then (w, einval)
        else transmit g kernel
            (add_subflow_steps token local_id remote_id local_addr remote_addr backup
              (new_sized cmd_sub_create (add_subflow_size local_addr remote_addr)))
            logs w

    unfoldable pub org_set_backup : ℕ → Sockaddr → Sockaddr → Bool → W → W × ℤ
    org_set_backup token local_addr remote_addr backup w =
        transmit g kernel
          (set_backup_steps token local_addr remote_addr backup
            (new_sized cmd_sub_priority (set_backup_size local_addr remote_addr)))
          logs w

    unfoldable pub org_remove_subflow : ℕ → Sockaddr → Sockaddr → W → W × ℤ
    org_remove_subflow token local_addr remote_addr w =
        transmit g kernel
          (remove_subflow_steps token local_addr remote_addr
            (new_sized cmd_sub_destroy (remove_subflow_size local_addr remote_addr)))
          logs w

    -- `cmd_ops`. There are no `kcmd_ops`.
    abbrev pub cmd_ops : PmCmdOps W
    cmd_ops = record {
      add_addr = some org_add_addr;
      remove_addr = some org_remove_addr;
      add_subflow = some org_add_subflow;
      set_backup = some org_set_backup;
      remove_subflow = some org_remove_subflow;
    }
