-- ===== src/Upstream.antt =====
-- src/netlink_pm_upstream.c: the commands of plugins as messages to the upstream kernel, with the
-- numbers of `linux/mptcp.h`.
pub mod Tokens
pub mod Wire
pub mod Announce
pub mod Reply
pub mod RoundTrip
mod Tests
use mptcpd.Common.{
  ℕ, zero, suc, ◌+◌, ◌-◌, ◌*◌, ◌%◌, ◌^◌, Bool, true, false, not, Option, none, some, List, [], ◌∷◌,
  map, take, ℤ, pos, negsuc, ◌==◌, if◌then◌else◌,
}
use mptcpd.Ell.Genl.{Genl}
use mptcpd.Netlink.{
  Kernel, Step, all_steps, unless_zero, transmit, result, logs, closes, passes_addr, passes_limits,
  u8, u16, u32, ip_attr, nla_align, nla_align_opt, nla_align_addr, get_addr_family, get_port_number,
}
use mptcpd.PathManager.{Limit, Pointer, Pm, PmCmdOps, KpmCmdOps, einval}
use mptcpd.Sockaddr.{Sockaddr}

-- MPTCP_PM_ADDR_FLAG_SIGNAL and MPTCP_PM_ADDR_FLAG_BACKUP.
abbrev pub flag_signal : ℕ
flag_signal = 1

abbrev pub flag_backup : ℕ
flag_backup = 4

-- `flags |= MPTCP_PM_ADDR_FLAG_SIGNAL`, on bit 0.
abbrev pub with_signal : ℕ → ℕ
with_signal flags = flags + (1 - flags % 2)

-- `int32_t` as the 32 bits that it is stored in.
abbrev pub s32_bits : ℤ → ℕ
s32_bits (pos n) = n % 2 ^ 32
s32_bits (negsuc n) = 2 ^ 32 - 1 - n % 2 ^ 32

abbrev pub is_zero : ℤ → Bool
is_zero (pos zero) = true
is_zero (pos (suc n)) = false
is_zero (negsuc n) = false

-- `struct addr_info`.
pub record AddrInfo : Type 0 where
  pub addr : Sockaddr
  pub id : ℕ
  pub flags : ℕ
  pub ifindex : ℤ

-- An initialiser that names the address only, or the address and its ID.
abbrev pub only_addr : Sockaddr → AddrInfo
only_addr addr = record { addr = addr; id = 0; flags = 0; ifindex = pos 0 }

abbrev pub addr_and_id : Sockaddr → ℕ → AddrInfo
addr_and_id addr id = record { addr = addr; id = id; flags = 0; ifindex = pos 0 }

abbrev pub announced : Sockaddr → ℕ → AddrInfo
announced addr id = record { addr = addr; id = id; flags = flag_signal; ifindex = pos 0 }

-- The flag MPTCP_PM_ADDR_FLAG_SIGNAL is set with a port.
unfoldable pub signal_with_port : AddrInfo → AddrInfo
signal_with_port info =
    if get_port_number (some info.addr) == 0
    then info
    else record info { flags = with_signal info.flags }

-- `mptcpd_to_kernel_limit`: MPTCPD_LIMIT_RCV_ADD_ADDRS and MPTCPD_LIMIT_SUBFLOWS.
unfoldable pub mptcpd_to_kernel_limit : ℕ → ℕ
mptcpd_to_kernel_limit type = if type == 0 then 2 else if type == 1 then 3 else type

-- The payload sizes that the commands compute.
unfoldable pub send_add_addr_size : AddrInfo → ℕ → ℕ
send_add_addr_size info token =
    nla_align 2
    + nla_align_addr info.addr
    + nla_align_opt 2 (get_port_number (some info.addr))
    + nla_align_opt 1 info.id
    + nla_align_opt 4 info.flags
    + nla_align_opt 4 (s32_bits info.ifindex)
    + nla_align_opt 4 token

unfoldable pub add_subflow_size : Sockaddr → Sockaddr → ℕ
add_subflow_size local_addr remote_addr =
    nla_align 4
    + nla_align 1
    + nla_align 2
    + nla_align_addr local_addr
    + nla_align_opt 2 (get_port_number (some local_addr))
    + nla_align 1
    + nla_align 2
    + nla_align_addr remote_addr
    + nla_align 2

unfoldable pub remove_subflow_size : Sockaddr → Sockaddr → ℕ
remove_subflow_size local_addr remote_addr =
    nla_align 4
    + nla_align 2
    + nla_align_addr local_addr
    + nla_align 2
    + nla_align 2
    + nla_align_addr remote_addr
    + nla_align 2

unfoldable pub set_backup_size : Sockaddr → Sockaddr → ℕ
set_backup_size local_addr remote_addr =
    nla_align 4
    + nla_align 2
    + nla_align_addr local_addr
    + nla_align 2
    + nla_align 4
    + nla_align 2
    + nla_align_addr remote_addr
    + nla_align 2

module _ (g : Genl) where
  open g use {Msg, new_sized, append_attr, enter_nested, leave_nested}

  -- `append_addr_attr`, with `append_ip`. The numbers of the nested types have bit 15 clear, so
  -- that `NLA_F_NESTED |` is an addition.
  unfoldable pub append_addr_attr : AddrInfo → ℕ → Step g
  append_addr_attr info nested_type =
      let port = get_port_number (some info.addr) in
      let index = s32_bits info.ifindex in
      all_steps g (
        (λ m. enter_nested m (0x8000 + nested_type))
        ∷ (λ m. append_attr m (u16 1 (get_addr_family (some info.addr))))
        ∷ (λ m. append_attr m (ip_attr 3 4 info.addr))
        ∷ unless_zero g port (λ m. append_attr m (u16 5 port))
        ∷ unless_zero g info.id (λ m. append_attr m (u8 2 info.id))
        ∷ unless_zero g info.flags (λ m. append_attr m (u32 6 info.flags))
        ∷ unless_zero g index (λ m. append_attr m (u32 7 index))
        ∷ leave_nested
        ∷ [])

  unfoldable pub append_local_addr_attr : AddrInfo → Step g
  append_local_addr_attr info = append_addr_attr info 1

  unfoldable pub append_remote_addr_attr : AddrInfo → Step g
  append_remote_addr_attr info = append_addr_attr info 6

  -- The conditions `appended` of the commands.
  unfoldable pub send_add_addr_steps : AddrInfo → ℕ → Step g
  send_add_addr_steps info token =
      all_steps g
        (append_local_addr_attr info ∷ unless_zero g token (λ m. append_attr m (u32 4 token)) ∷ [])

  unfoldable pub subflow_steps : ℕ → AddrInfo → AddrInfo → Step g
  subflow_steps token local remote = all_steps g (
      (λ m. append_attr m (u32 4 token))
      ∷ append_local_addr_attr local
      ∷ append_remote_addr_attr remote
      ∷ [])

  unfoldable pub address_id_steps : ℕ → Step g
  address_id_steps address_id = all_steps g (
      (λ m. enter_nested m (0x8000 + 1))
      ∷ (λ m. append_attr m (u8 2 address_id))
      ∷ leave_nested
      ∷ [])

  unfoldable pub remove_steps : ℕ → ℕ → Step g
  remove_steps id token =
      all_steps g ((λ m. append_attr m (u32 4 token)) ∷ (λ m. append_attr m (u8 5 id)) ∷ [])

  -- The loop of `upstream_set_limits`.
  unfoldable pub limits_steps : List Limit → Step g
  limits_steps limits =
      all_steps g (map (λ l m. append_attr m (u32 (mptcpd_to_kernel_limit l.0) l.1)) limits)

  module _ {W : Type 0} (kernel : Kernel W) where
    unfoldable pub send_add_addr : ℕ → AddrInfo → ℕ → W → W × ℤ
    send_add_addr cmd info token w =
        let info' = signal_with_port info in
        transmit g kernel
          (send_add_addr_steps info' token (new_sized cmd (send_add_addr_size info' token))) logs w

    unfoldable pub upstream_remove : Option Sockaddr → ℕ → ℕ → W → W × ℤ
    upstream_remove addr id token w =
        transmit g kernel (remove_steps id token (new_sized 9 (nla_align 4 + nla_align 1)))
          (closes addr) w

    -- The local address must not be NULL: its size is read.
    unfoldable pub upstream_add_subflow : ℕ → ℕ → ℕ → Sockaddr → Sockaddr → Bool → W → W × ℤ
    upstream_add_subflow token local_id remote_id local_addr remote_addr backup w =
        let local = addr_and_id local_addr local_id in
        let remote = addr_and_id remote_addr remote_id in
        transmit g kernel
          (subflow_steps token local remote
            (new_sized 10 (add_subflow_size local_addr remote_addr)))
          logs w

    unfoldable pub upstream_remove_subflow : ℕ → Sockaddr → Sockaddr → W → W × ℤ
    upstream_remove_subflow token local_addr remote_addr w =
        transmit g kernel
          (subflow_steps token (only_addr local_addr) (only_addr remote_addr)
            (new_sized 11 (remove_subflow_size local_addr remote_addr)))
          logs w

    unfoldable pub upstream_set_backup : ℕ → Sockaddr → Sockaddr → Bool → W → W × ℤ
    upstream_set_backup token local_addr remote_addr backup w =
        let local = record (only_addr local_addr) { flags = if backup then flag_backup else 0 } in
        transmit g kernel
          (subflow_steps token local (only_addr remote_addr)
            (new_sized 7 (set_backup_size local_addr remote_addr)))
          logs w

    unfoldable pub upstream_add_addr : Sockaddr → ℕ → ℕ → ℤ → W → W × ℤ
    upstream_add_addr addr id flags index w =
        send_add_addr 1 (record { addr = addr; id = id; flags = flags; ifindex = index }) 0 w

    unfoldable pub upstream_remove_addr : ℕ → W → W × ℤ
    upstream_remove_addr address_id w =
        transmit g kernel (address_id_steps address_id (new_sized 2 (nla_align 1))) logs w

    unfoldable pub upstream_get_addr : ℕ → ℕ → Pointer → Pointer → W → W × ℤ
    upstream_get_addr address_id callback data_ complete w =
        transmit g kernel (address_id_steps address_id (new_sized 3 (nla_align 1)))
          (passes_addr callback data_ complete false) w

    unfoldable pub upstream_dump_addrs : ℕ → Pointer → Pointer → W → W × ℤ
    upstream_dump_addrs callback data_ complete w =
        let msg = new_sized 3 0 in
        result
          (kernel.dump (g.command msg) (g.body msg) (passes_addr callback data_ complete true) w)

    unfoldable pub upstream_flush_addrs : W → W × ℤ
    upstream_flush_addrs w = transmit g kernel (new_sized 4 0, true) logs w

    -- The array has at least `len` entries.
    unfoldable pub upstream_set_limits : List Limit → ℕ → W → W × ℤ
    upstream_set_limits limits len w =
        if len == 0
        then (w, einval)
        else transmit g kernel (limits_steps (take len limits) (new_sized 5 (len * nla_align 4)))
            logs w

    unfoldable pub upstream_get_limits : ℕ → Pointer → W → W × ℤ
    upstream_get_limits callback data_ w =
        transmit g kernel (new_sized 6 0, true) (passes_limits callback data_) w

    unfoldable pub upstream_set_flags : Sockaddr → ℕ → W → W × ℤ
    upstream_set_flags addr flags w =
        let info = signal_with_port (record (only_addr addr) { flags = flags }) in
        transmit g kernel
          (append_local_addr_attr info
            (new_sized 7 (nla_align 2 + nla_align_addr addr + nla_align 4)))
          logs w

    -- `mptcpd_lm_listen` on `pm->lm`, with the address that it leaves in the memory of the caller and
    -- its result; and what a read through a NULL pointer comes to, which C leaves open.
    module _ (listen : Sockaddr → W → W × Sockaddr × ℤ) (at_null : W → W × ℤ) where
      unfoldable pub upstream_announce : Sockaddr → ℕ → ℕ → Bool → W → W × ℤ
      upstream_announce addr id token listener w =
          let r = listen addr w in
          if not listener
          then send_add_addr 8 (announced addr id) token w
          else if is_zero r.2
          then send_add_addr 8 (announced r.1 id) token r.0
          else (r.0, r.2)

      -- `cmd_ops`.
      abbrev pub cmd_ops : PmCmdOps W
      cmd_ops = record {
        add_addr = some upstream_announce;
        remove_addr = some upstream_remove;
        add_subflow = some (λ token local_id remote_id local_addr remote_addr backup.
            elim local_addr [
              | none ↦ at_null
              | some addr ↦ upstream_add_subflow token local_id remote_id addr remote_addr backup
            ]);
        set_backup = some upstream_set_backup;
        remove_subflow = some upstream_remove_subflow;
      }

      -- `kcmd_ops`.
      abbrev pub kcmd_ops : KpmCmdOps W
      kcmd_ops = record {
        add_addr = some upstream_add_addr;
        remove_addr = some upstream_remove_addr;
        get_addr = some upstream_get_addr;
        dump_addrs = some upstream_dump_addrs;
        flush_addrs = some upstream_flush_addrs;
        set_limits = some upstream_set_limits;
        get_limits = some upstream_get_limits;
        set_flags = some upstream_set_flags;
      }

      -- A path manager whose family has appeared, on this kernel.
      abbrev pub upstream_pm : Pm W
      upstream_pm = record { has_family = true; kcmd_ops = some kcmd_ops; cmd_ops = some cmd_ops }
