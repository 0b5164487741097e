-- ===== src/PathManager.antt =====
-- lib/path_manager.c: the commands that plugins give to the kernel, up to the call of the netlink
-- backend. What the backends do is a parameter: they act on a world `W`, which holds the kernel and
-- the memory of the caller, and return a result of type `int`.
pub mod Commands
mod Tests
use mptcpd.Common.{
  ℕ, Bool, true, false, ◌||◌, not, Option, none, some, List, ℤ, pos, ◌==◌, if◌then◌else◌,
}
use mptcpd.Sockaddr.{Sockaddr}

-- EINVAL, EAGAIN and EOPNOTSUPP, as which ENOTSUP is defined.
abbrev pub einval : ℤ
einval = pos 22

abbrev pub eagain : ℤ
eagain = pos 11

abbrev pub enotsup : ℤ
enotsup = pos 95

-- `struct mptcpd_limit`: a type and a limit.
abbrev pub Limit : Type 0
Limit = ℕ × ℕ

-- Function pointers and `void *` data are numbers; a NULL pointer is `none`.
abbrev pub Pointer : Type 0
Pointer = Option ℕ

module _ (W : Type 0) where
  abbrev pub Action : Type 0
  Action = W → W × ℤ

  -- `struct mptcpd_kpm_cmd_ops`.
  pub record KpmCmdOps : Type 0 where
    pub add_addr : Option (Sockaddr → ℕ → ℕ → ℤ → Action)
    pub remove_addr : Option (ℕ → Action)
    pub get_addr : Option (ℕ → ℕ → Pointer → Pointer → Action)
    pub dump_addrs : Option (ℕ → Pointer → Pointer → Action)
    pub flush_addrs : Option Action
    pub set_limits : Option (List Limit → ℕ → Action)
    pub get_limits : Option (ℕ → Pointer → Action)
    pub set_flags : Option (Sockaddr → ℕ → Action)

  -- `struct mptcpd_pm_cmd_ops`.
  pub record PmCmdOps : Type 0 where
    pub add_addr : Option (Sockaddr → ℕ → ℕ → Bool → Action)
    pub remove_addr : Option (Option Sockaddr → ℕ → ℕ → Action)
    pub add_subflow : Option (ℕ → ℕ → ℕ → Option Sockaddr → Sockaddr → Bool → Action)
    pub set_backup : Option (ℕ → Sockaddr → Sockaddr → Bool → Action)
    pub remove_subflow : Option (ℕ → Sockaddr → Sockaddr → Action)

  -- What the commands read of `struct mptcpd_pm`: whether `family` is set, and the backend.
  pub record Pm : Type 0 where
    pub has_family : Bool
    pub kcmd_ops : Option KpmCmdOps
    pub cmd_ops : Option PmCmdOps

  -- `mptcpd_pm_ready`, and `is_pm_ready` without its log message.
  unfoldable pub pm_ready : Pm → Bool
  pm_ready pm = pm.has_family

  -- The end of every command: EAGAIN, ENOTSUP, or the call of the backend. `ops` is the member of
  -- the backend, none where the backend or the member is NULL.
  unfoldable pub call : {A : Type 0} → Pm → Option A → (A → Action) → Action
  unfolding pm_ready
  call pm ops f w =
      if not (pm_ready pm)
      then (w, eagain)
      else (elim ops [ none ↦ (w, enotsup) | some op ↦ f op w ])

  -- `ops == NULL || ops->member == NULL`.
  abbrev pub member : {A B : Type 0} → Option A → (A → Option B) → Option B
  member none f = none
  member (some ops) f = f ops

  unfoldable pub kpm_add_addr : Option Pm → Option Sockaddr → ℕ → ℕ → ℤ → Action
  unfolding call
  kpm_add_addr (some pm) (some addr) address_id flags index w =
      if address_id == 0
      then (w, einval)
      else call pm (member pm.kcmd_ops (λ ops. ops.add_addr)) (λ op. op addr address_id flags index)
          w
  kpm_add_addr _ _ address_id flags index w = (w, einval)

  unfoldable pub kpm_remove_addr : Option Pm → ℕ → Action
  unfolding call
  kpm_remove_addr none address_id w = (w, einval)
  kpm_remove_addr (some pm) address_id w =
      if address_id == 0
      then (w, einval)
      else call pm (member pm.kcmd_ops (λ ops. ops.remove_addr)) (λ op. op address_id) w

  unfoldable pub kpm_get_addr : Option Pm → ℕ → Pointer → Pointer → Pointer → Action
  unfolding call
  kpm_get_addr (some pm) id (some callback) user_data complete w =
      if id == 0
      then (w, einval)
      else call pm (member pm.kcmd_ops (λ ops. ops.get_addr))
          (λ op. op id callback user_data complete) w
  kpm_get_addr _ id _ user_data complete w = (w, einval)

  unfoldable pub kpm_dump_addrs : Option Pm → Pointer → Pointer → Pointer → Action
  unfolding call
  kpm_dump_addrs (some pm) (some callback) user_data complete w =
      call pm (member pm.kcmd_ops (λ ops. ops.dump_addrs)) (λ op. op callback user_data complete) w
  kpm_dump_addrs _ _ user_data complete w = (w, einval)

  unfoldable pub kpm_flush_addrs : Option Pm → Action
  unfolding call
  kpm_flush_addrs none w = (w, einval)
  kpm_flush_addrs (some pm) w = call pm (member pm.kcmd_ops (λ ops. ops.flush_addrs)) (λ op. op) w

  unfoldable pub kpm_set_limits : Option Pm → Option (List Limit) → ℕ → Action
  unfolding call
  kpm_set_limits (some pm) (some limits) len w =
      if len == 0
      then (w, einval)
      else call pm (member pm.kcmd_ops (λ ops. ops.set_limits)) (λ op. op limits len) w
  kpm_set_limits _ _ len w = (w, einval)

  unfoldable pub kpm_get_limits : Option Pm → Pointer → Pointer → Action
  unfolding call
  kpm_get_limits (some pm) (some callback) user_data w =
      call pm (member pm.kcmd_ops (λ ops. ops.get_limits)) (λ op. op callback user_data) w
  kpm_get_limits _ _ user_data w = (w, einval)

  unfoldable pub kpm_set_flags : Option Pm → Option Sockaddr → ℕ → Action
  unfolding call
  kpm_set_flags (some pm) (some addr) flags w =
      call pm (member pm.kcmd_ops (λ ops. ops.set_flags)) (λ op. op addr flags) w
  kpm_set_flags _ _ flags w = (w, einval)

  unfoldable pub do_pm_add_addr : Option Pm → Option Sockaddr → ℕ → ℕ → Bool → Action
  unfolding call
  do_pm_add_addr (some pm) (some addr) address_id token listener w =
      if address_id == 0
      then (w, einval)
      else call pm (member pm.cmd_ops (λ ops. ops.add_addr))
          (λ op. op addr address_id token listener) w
  do_pm_add_addr _ _ address_id token listener w = (w, einval)

  unfoldable pub pm_add_addr : Option Pm → Option Sockaddr → ℕ → ℕ → Action
  unfolding do_pm_add_addr
  pm_add_addr pm addr address_id token w = do_pm_add_addr pm addr address_id token true w

  unfoldable pub pm_add_addr_no_listener : Option Pm → Option Sockaddr → ℕ → ℕ → Action
  unfolding do_pm_add_addr
  pm_add_addr_no_listener pm addr address_id token w =
      do_pm_add_addr pm addr address_id token false w

  unfoldable pub pm_remove_addr : Option Pm → Option Sockaddr → ℕ → ℕ → Action
  unfolding call
  pm_remove_addr none addr address_id token w = (w, einval)
  pm_remove_addr (some pm) addr address_id token w =
      if address_id == 0
      then (w, einval)
      else call pm (member pm.cmd_ops (λ ops. ops.remove_addr)) (λ op. op addr address_id token) w

  unfoldable pub pm_add_subflow :
      Option Pm → ℕ → ℕ → ℕ → Option Sockaddr → Option Sockaddr → Bool → Action
  unfolding call
  pm_add_subflow (some pm) token local_id remote_id local_addr (some remote_addr) backup w =
      call pm (member pm.cmd_ops (λ ops. ops.add_subflow))
        (λ op. op token local_id remote_id local_addr remote_addr backup) w
  pm_add_subflow _ token local_id remote_id local_addr _ backup w = (w, einval)

  unfoldable pub pm_set_backup : Option Pm → ℕ → Option Sockaddr → Option Sockaddr → Bool → Action
  unfolding call
  pm_set_backup (some pm) token (some local_addr) (some remote_addr) backup w =
      call pm (member pm.cmd_ops (λ ops. ops.set_backup))
        (λ op. op token local_addr remote_addr backup) w
  pm_set_backup _ token _ _ backup w = (w, einval)

  unfoldable pub pm_remove_subflow : Option Pm → ℕ → Option Sockaddr → Option Sockaddr → Action
  unfolding call
  pm_remove_subflow (some pm) token (some local_addr) (some remote_addr) w =
      call pm (member pm.cmd_ops (λ ops. ops.remove_subflow))
        (λ op. op token local_addr remote_addr) w
  pm_remove_subflow _ token _ _ w = (w, einval)
