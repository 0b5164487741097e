-- ===== src/PathManager/Commands.antt =====
-- What every command of lib/path_manager.c returns, and when it reaches the backend.
use mptcpd.Common.{
  ℕ, Bool, true, false, ◌&&◌, not, Option, none, some, List, ℤ, ◌==◌, if◌then◌else◌, is_some, ◌≡◌,
  refl, arith, ◌∙◌, Bool-cases, Option-cases, inl, inr,
}
use mptcpd.PathManager.{
  einval, eagain, enotsup, Limit, Pointer, Action, Pm, pm_ready, call, member, kpm_add_addr,
  kpm_remove_addr, kpm_get_addr, kpm_dump_addrs, kpm_flush_addrs, kpm_set_limits, kpm_get_limits,
  kpm_set_flags, do_pm_add_addr, pm_add_addr, pm_add_addr_no_listener, pm_remove_addr,
  pm_add_subflow, pm_set_backup, pm_remove_subflow,
}
use mptcpd.Sockaddr.{Sockaddr}

-- The commands, with the arguments as the plugin passes them.
pub data Command : Type 0 where
  kernel_add_addr : Option Sockaddr → ℕ → ℕ → ℤ → Command
  kernel_remove_addr : ℕ → Command
  kernel_get_addr : ℕ → Pointer → Pointer → Pointer → Command
  kernel_dump_addrs : Pointer → Pointer → Pointer → Command
  kernel_flush_addrs : Command
  kernel_set_limits : Option (List Limit) → ℕ → Command
  kernel_get_limits : Pointer → Pointer → Command
  kernel_set_flags : Option Sockaddr → ℕ → Command
  user_add_addr : Option Sockaddr → ℕ → ℕ → Bool → Command
  user_remove_addr : Option Sockaddr → ℕ → ℕ → Command
  user_add_subflow : ℕ → ℕ → ℕ → Option Sockaddr → Option Sockaddr → Bool → Command
  user_set_backup : ℕ → Option Sockaddr → Option Sockaddr → Bool → Command
  user_remove_subflow : ℕ → Option Sockaddr → Option Sockaddr → Command

-- The arguments that a command requires: pointers that are not NULL, and an address ID or a length
-- other than 0.
abbrev pub accepts : Command → Bool
accepts (kernel_add_addr addr id flags index) = is_some addr && not (id == 0)
accepts (kernel_remove_addr id) = not (id == 0)
accepts (kernel_get_addr id callback user_data complete) = not (id == 0) && is_some callback
accepts (kernel_dump_addrs callback user_data complete) = is_some callback
accepts kernel_flush_addrs = true
accepts (kernel_set_limits limits len) = is_some limits && not (len == 0)
accepts (kernel_get_limits callback user_data) = is_some callback
accepts (kernel_set_flags addr flags) = is_some addr
accepts (user_add_addr addr id token listener) = is_some addr && not (id == 0)
accepts (user_remove_addr addr id token) = not (id == 0)
accepts (user_add_subflow token local_id remote_id laddr raddr backup) = is_some raddr
accepts (user_set_backup token laddr raddr backup) = is_some laddr && is_some raddr
accepts (user_remove_subflow token laddr raddr) = is_some laddr && is_some raddr

module _ (W : Type 0) where
  abbrev applied : {A : Type 0} → Option A → (A → Action W) → Option (Action W)
  applied none f = none
  applied (some op) f = some (f op)

  -- The function of the file.
  unfoldable pub run : Option (Pm W) → Command → Action W
  run pm (kernel_add_addr addr id flags index) = kpm_add_addr W pm addr id flags index
  run pm (kernel_remove_addr id) = kpm_remove_addr W pm id
  run pm (kernel_get_addr id callback user_data complete) =
      kpm_get_addr W pm id callback user_data complete
  run pm (kernel_dump_addrs callback user_data complete) =
      kpm_dump_addrs W pm callback user_data complete
  run pm kernel_flush_addrs = kpm_flush_addrs W pm
  run pm (kernel_set_limits limits len) = kpm_set_limits W pm limits len
  run pm (kernel_get_limits callback user_data) = kpm_get_limits W pm callback user_data
  run pm (kernel_set_flags addr flags) = kpm_set_flags W pm addr flags
  run pm (user_add_addr addr id token listener) =
      if listener
      then pm_add_addr W pm addr id token
      else pm_add_addr_no_listener W pm addr id token
  run pm (user_remove_addr addr id token) = pm_remove_addr W pm addr id token
  run pm (user_add_subflow token local_id remote_id laddr raddr backup) =
      pm_add_subflow W pm token local_id remote_id laddr raddr backup
  run pm (user_set_backup token laddr raddr backup) = pm_set_backup W pm token laddr raddr backup
  run pm (user_remove_subflow token laddr raddr) = pm_remove_subflow W pm token laddr raddr

  -- A member of the backend's table, if there is a table.
  abbrev offered : {A B : Type 0} → Option A → (A → Option B) → Option B
  offered none f = none
  offered (some ops) f = f ops

  -- The member of the backend that carries a command out, applied to the arguments; none where a
  -- pointer is missing or the kernel does not offer the command.
  abbrev pub backend : Pm W → Command → Option (Action W)
  backend pm (kernel_add_addr (some addr) id flags index) =
      applied (offered pm.kcmd_ops (λ ops. ops.add_addr)) (λ op. op addr id flags index)
  backend pm (kernel_remove_addr id) =
      applied (offered pm.kcmd_ops (λ ops. ops.remove_addr)) (λ op. op id)
  backend pm (kernel_get_addr id (some callback) user_data complete) =
      applied (offered pm.kcmd_ops (λ ops. ops.get_addr)) (λ op. op id callback user_data complete)
  backend pm (kernel_dump_addrs (some callback) user_data complete) =
      applied (offered pm.kcmd_ops (λ ops. ops.dump_addrs)) (λ op. op callback user_data complete)
  backend pm kernel_flush_addrs = offered pm.kcmd_ops (λ ops. ops.flush_addrs)
  backend pm (kernel_set_limits (some limits) len) =
      applied (offered pm.kcmd_ops (λ ops. ops.set_limits)) (λ op. op limits len)
  backend pm (kernel_get_limits (some callback) user_data) =
      applied (offered pm.kcmd_ops (λ ops. ops.get_limits)) (λ op. op callback user_data)
  backend pm (kernel_set_flags (some addr) flags) =
      applied (offered pm.kcmd_ops (λ ops. ops.set_flags)) (λ op. op addr flags)
  backend pm (user_add_addr (some addr) id token listener) =
      applied (offered pm.cmd_ops (λ ops. ops.add_addr)) (λ op. op addr id token listener)
  backend pm (user_remove_addr addr id token) =
      applied (offered pm.cmd_ops (λ ops. ops.remove_addr)) (λ op. op addr id token)
  backend pm (user_add_subflow token local_id remote_id laddr (some raddr) backup) =
      applied (offered pm.cmd_ops (λ ops. ops.add_subflow))
        (λ op. op token local_id remote_id laddr raddr backup)
  backend pm (user_set_backup token (some laddr) (some raddr) backup) =
      applied (offered pm.cmd_ops (λ ops. ops.set_backup)) (λ op. op token laddr raddr backup)
  backend pm (user_remove_subflow token (some laddr) (some raddr)) =
      applied (offered pm.cmd_ops (λ ops. ops.remove_subflow)) (λ op. op token laddr raddr)
  backend pm _ = none

  call_lem :
      (pm : Pm W) (w : W) {A B : Type 0} (ops : Option A) (sel : A → Option B) (f : B → Action W)
      → call W pm (member W ops sel) f w ≡ (
          if not pm.has_family
          then (w, eagain)
          else (elim (applied (offered ops sel) f) [ none ↦ (w, enotsup) | some act ↦ act w ]))
  unfolding call pm_ready
  call_lem pm w none sel f = refl
  call_lem pm w (some ops) sel f = elim (Option-cases (sel ops)) [
    | inl e ↦ rw e refl
    | inr e ↦ rw e.1 refl
  ]

  -- Every command checks in one order: a missing path manager or argument is EINVAL, a path manager
  -- whose family is not there yet is EAGAIN, a command that the kernel does not offer is ENOTSUP,
  -- and in each of these cases the world is as before. Otherwise the backend acts, with the
  -- arguments as given, and its result is the result.
  pub run-backend :
      (pm : Pm W) (c : Command) (w : W)
      → (run none c w ≡ (w, einval))
        × (run (some pm) c w ≡ (
            if not (accepts c)
            then (w, einval)
            else if not pm.has_family
            then (w, eagain)
            else (elim (backend pm c) [ none ↦ (w, enotsup) | some act ↦ act w ])))
  unfolding run call kpm_add_addr kpm_remove_addr kpm_get_addr kpm_dump_addrs kpm_flush_addrs
      kpm_set_limits kpm_get_limits kpm_set_flags do_pm_add_addr pm_add_addr pm_add_addr_no_listener
      pm_remove_addr pm_add_subflow pm_set_backup pm_remove_subflow
  run-backend pm (kernel_add_addr none id flags index) w = (refl, ground (arith, call_lem pm w))
  run-backend pm (kernel_add_addr (some a) id flags index) w = (refl, ground (arith, call_lem pm w))
  run-backend pm (kernel_remove_addr id) w = (refl, ground (arith, call_lem pm w))
  run-backend pm (kernel_get_addr id none user_data complete) w =
      (refl, ground (arith, call_lem pm w))
  run-backend pm (kernel_get_addr id (some f) user_data complete) w =
      (refl, ground (arith, call_lem pm w))
  run-backend pm (kernel_dump_addrs none user_data complete) w =
      (refl, ground (arith, call_lem pm w))
  run-backend pm (kernel_dump_addrs (some f) user_data complete) w =
      (refl, ground (arith, call_lem pm w))
  run-backend pm (kernel_flush_addrs) w = (refl, ground (arith, call_lem pm w))
  run-backend pm (kernel_set_limits none len) w = (refl, ground (arith, call_lem pm w))
  run-backend pm (kernel_set_limits (some l) len) w = (refl, ground (arith, call_lem pm w))
  run-backend pm (kernel_get_limits none user_data) w = (refl, ground (arith, call_lem pm w))
  run-backend pm (kernel_get_limits (some f) user_data) w = (refl, ground (arith, call_lem pm w))
  run-backend pm (kernel_set_flags none flags) w = (refl, ground (arith, call_lem pm w))
  run-backend pm (kernel_set_flags (some a) flags) w = (refl, ground (arith, call_lem pm w))
  run-backend pm (user_add_addr none id token true) w = (refl, ground (arith, call_lem pm w))
  run-backend pm (user_add_addr (some a) id token true) w = (refl, ground (arith, call_lem pm w))
  run-backend pm (user_add_addr none id token false) w = (refl, ground (arith, call_lem pm w))
  run-backend pm (user_add_addr (some a) id token false) w = (refl, ground (arith, call_lem pm w))
  run-backend pm (user_remove_addr a id token) w = (refl, ground (arith, call_lem pm w))
  run-backend pm (user_add_subflow token local_id remote_id l none backup) w =
      (refl, ground (arith, call_lem pm w))
  run-backend pm (user_add_subflow token local_id remote_id l (some r) backup) w =
      (refl, ground (arith, call_lem pm w))
  run-backend pm (user_set_backup token none r backup) w = (refl, ground (arith, call_lem pm w))
  run-backend pm (user_set_backup token (some l) none backup) w =
      (refl, ground (arith, call_lem pm w))
  run-backend pm (user_set_backup token (some l) (some r) backup) w =
      (refl, ground (arith, call_lem pm w))
  run-backend pm (user_remove_subflow token none r) w = (refl, ground (arith, call_lem pm w))
  run-backend pm (user_remove_subflow token (some l) none) w = (refl, ground (arith, call_lem pm w))
  run-backend pm (user_remove_subflow token (some l) (some r)) w =
      (refl, ground (arith, call_lem pm w))

  -- A path manager whose family has appeared gives a command with all its arguments to the backend.
  pub ready-run :
      (pm : Pm W) (c : Command) (w : W)
      → pm.has_family ≡ true
      → run (some pm) c w ≡ (
          if accepts c
          then (elim (backend pm c) [ none ↦ (w, enotsup) | some act ↦ act w ])
          else (w, einval))
  unfolding pm_ready
  ready-run pm c w ready =
      (run-backend pm c w).1
      ∙ elim (Bool-cases (accepts c)) [ inl e ↦ rw (e, ready) refl | inr e ↦ rw e refl ]
