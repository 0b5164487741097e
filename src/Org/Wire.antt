-- ===== src/Org/Wire.antt =====
-- What the commands of plugins put on the wire to a multipath-tcp.org kernel.
use mptcpd.Common.{
  ℕ, Bool, true, Option, none, some, List, [], ◌∷◌, ◌++◌, ◌==◌, if◌then◌else◌, ◌≡◌, refl, ◌⊎◌, inl,
  inr, ℤ, arith, Bool-cases, ◌∙◌,
}
use mptcpd.Ell.Genl.{Genl, Token, attr}
use mptcpd.Netlink.Size.{optional, wire_port}
use mptcpd.Netlink.Writes.{
  Writes, Roomy, last, more, append_attr-Writes, all_steps-Writes, unless_zero-Writes, none-Writes,
  transmit-sends,
}
use mptcpd.Netlink.{
  Kernel, enomem, logs, result, u8, u16, u32, ip_attr, get_addr_family, get_port_number,
}
use mptcpd.Org.{
  append_local_addr_attr, append_remote_addr_attr, append_local, add_addr_steps, remove_addr_steps,
  add_subflow_steps, set_backup_steps, remove_subflow_steps, org_add_addr, org_remove_addr,
  org_add_subflow, org_set_backup, org_remove_subflow, cmd_ops, bool_byte, cmd_sub_create,
}
use mptcpd.PathManager.Commands.{
  Command, run, ready-run, accepts, user_add_addr, user_remove_addr, user_add_subflow,
  user_set_backup, user_remove_subflow, kernel_add_addr, kernel_remove_addr, kernel_get_addr,
  kernel_dump_addrs, kernel_flush_addrs, kernel_set_limits, kernel_get_limits, kernel_set_flags,
}
use mptcpd.PathManager.{Pm, einval, enotsup}
use mptcpd.Sockaddr.{Sockaddr}

-- The attributes of the messages. A local port of 0 is left out where it is optional.
abbrev pub local_tokens : Option Sockaddr → List Token
local_tokens none = []
local_tokens (some addr) =
    attr (ip_attr 5 6 addr) ∷ optional (wire_port addr) (u16 9 (wire_port addr))

abbrev pub add_addr_tokens : Sockaddr → ℕ → ℕ → List Token
add_addr_tokens addr id token =
    attr (u32 1 token) ∷ attr (u8 3 id) ∷ attr (u16 2 addr.family) ∷ local_tokens (some addr)

abbrev pub remove_addr_tokens : ℕ → ℕ → List Token
remove_addr_tokens id token = attr (u32 1 token) ∷ attr (u8 3 id) ∷ []

abbrev pub remote_tokens : Sockaddr → List Token
remote_tokens addr = attr (ip_attr 7 8 addr) ∷ attr (u16 10 (wire_port addr)) ∷ []

abbrev pub backup_token : Bool → List Token
backup_token backup = attr (u8 11 (bool_byte backup)) ∷ []

abbrev pub add_subflow_tokens : ℕ → ℕ → ℕ → Option Sockaddr → Sockaddr → Bool → List Token
add_subflow_tokens token local_id remote_id local_addr remote_addr backup =
    attr (u32 1 token)
    ∷ attr (u8 3 local_id)
    ∷ attr (u8 4 remote_id)
    ∷ (local_tokens local_addr
        ++ attr (u16 2 remote_addr.family) ∷ (remote_tokens remote_addr ++ backup_token backup))

abbrev pub subflow_tokens : ℕ → Sockaddr → Sockaddr → List Token → List Token
subflow_tokens token local_addr remote_addr rest =
    attr (u32 1 token)
    ∷ attr (u16 2 local_addr.family)
    ∷ attr (ip_attr 5 6 local_addr)
    ∷ attr (u16 9 (wire_port local_addr))
    ∷ (remote_tokens remote_addr ++ rest)

-- The command and the attributes of the message that carries a command; none if the command is
-- refused.
abbrev pub message : Command → Option (ℕ × List Token)
message (user_add_addr (some addr) id token listener) =
    if id == 0 then none else some (4, add_addr_tokens addr id token)
message (user_remove_addr addr id token) =
    if id == 0 then none else some (5, remove_addr_tokens id token)
message (user_add_subflow token local_id remote_id laddr (some raddr) backup) =
    if wire_port raddr == 0
    then none
    else some (8, add_subflow_tokens token local_id remote_id laddr raddr backup)
message (user_set_backup token (some laddr) (some raddr) backup) =
    some (12, subflow_tokens token laddr raddr (backup_token backup))
message (user_remove_subflow token (some laddr) (some raddr)) =
    some (9, subflow_tokens token laddr raddr [])
message _ = none

-- The result of a refused command: the kernel has no commands for its own path manager.
abbrev pub refusal : Command → ℤ
refusal (user_add_subflow token local_id remote_id laddr raddr backup) = einval
refusal c = if accepts c then enotsup else einval

module _ (g : Genl) where
  append_local-Writes :
      (addr : Option Sockaddr) → Writes g (append_local g addr) (local_tokens addr)
  unfolding append_local append_local_addr_attr get_port_number wire_port
  append_local-Writes none = none-Writes g
  append_local-Writes (some addr) =
      all_steps-Writes g
        (more (append_attr-Writes g _) (last (unless_zero-Writes g _ (append_attr-Writes g _))))

  add_addr-Writes :
      (addr : Sockaddr) (id token : ℕ)
      → Writes g (add_addr_steps g addr id token) (add_addr_tokens addr id token)
  unfolding add_addr_steps append_local_addr_attr get_addr_family get_port_number wire_port
  add_addr-Writes addr id token =
      let one = append_attr-Writes g in
      all_steps-Writes g (
        more (one _)
          (more (one _) (more (one _) (more (one _) (last (unless_zero-Writes g _ (one _)))))))

  remove_addr-Writes :
      (id token : ℕ) → Writes g (remove_addr_steps g id token) (remove_addr_tokens id token)
  unfolding remove_addr_steps
  remove_addr-Writes id token =
      all_steps-Writes g (more (append_attr-Writes g _) (last (append_attr-Writes g _)))

  add_subflow-Writes :
      (token local_id remote_id : ℕ) (local_addr : Option Sockaddr) (remote_addr : Sockaddr)
      (backup : Bool)
      → Writes g
          (add_subflow_steps g token local_id remote_id local_addr remote_addr backup)
          (add_subflow_tokens token local_id remote_id local_addr remote_addr backup)
  unfolding add_subflow_steps append_remote_addr_attr get_addr_family get_port_number wire_port
  add_subflow-Writes token local_id remote_id local_addr remote_addr backup =
      let one = append_attr-Writes g in
      all_steps-Writes g (
        more (one _) (
          more (one _) (
            more (one _) (
              more (append_local-Writes local_addr)
                (more (one _) (more (one _) (more (one _) (last (one _)))))))))

  set_backup-Writes :
      (token : ℕ) (local_addr remote_addr : Sockaddr) (backup : Bool)
      → Writes g
          (set_backup_steps g token local_addr remote_addr backup)
          (subflow_tokens token local_addr remote_addr (backup_token backup))
  unfolding set_backup_steps append_local_addr_attr append_remote_addr_attr get_addr_family
      get_port_number wire_port
  set_backup-Writes token local_addr remote_addr backup =
      let one = append_attr-Writes g in
      all_steps-Writes g (
        more (one _)
          (more (one _) (more (one _) (more (one _) (more (one _) (more (one _) (last (one _))))))))

  remove_subflow-Writes :
      (token : ℕ) (local_addr remote_addr : Sockaddr)
      → Writes g
          (remove_subflow_steps g token local_addr remote_addr)
          (subflow_tokens token local_addr remote_addr [])
  unfolding remove_subflow_steps append_local_addr_attr append_remote_addr_attr get_addr_family
      get_port_number wire_port
  remove_subflow-Writes token local_addr remote_addr =
      let one = append_attr-Writes g in
      all_steps-Writes g
        (more (one _) (more (one _) (more (one _) (more (one _) (more (one _) (last (one _)))))))

  module _ (W : Type 0) (kernel : Kernel W) where
    -- A path manager whose family has appeared, on this kernel.
    abbrev pub org_pm : Pm W
    org_pm = record { has_family = true; kcmd_ops = none; cmd_ops = some (cmd_ops g kernel) }

    -- What a command may come to. Without a message it is refused, and the world is as before. With
    -- one, either there was no memory, and the world is as before, or the kernel is sent the message.
    abbrev pub Outcome : Option (ℕ × List Token) → ℤ → W → W × ℤ → Type 0
    Outcome none refused w r = r ≡ (w, refused)
    Outcome (some (cmd, ts)) refused w r =
        ((r ≡ (w, enomem)) × ¬ Roomy g) ⊎ (r ≡ result (kernel.send cmd ts logs w))

    org_add_addr-Outcome :
        (addr : Sockaddr) (id token : ℕ) (listener : Bool) (w : W) (z : ℤ)
        → Outcome
            (some (4, add_addr_tokens addr id token))
            z
            w
            (org_add_addr g kernel addr id token listener w)
    unfolding org_add_addr
    org_add_addr-Outcome addr id token listener w z =
        transmit-sends g kernel _ _ _ w (add_addr-Writes addr id token)

    org_remove_addr-Outcome :
        (addr : Option Sockaddr) (id token : ℕ) (w : W) (z : ℤ)
        → Outcome
            (some (5, remove_addr_tokens id token))
            z
            w
            (org_remove_addr g kernel addr id token w)
    unfolding org_remove_addr
    org_remove_addr-Outcome addr id token w z =
        transmit-sends g kernel _ _ _ w (remove_addr-Writes id token)

    org_add_subflow-Outcome :
        (token local_id remote_id : ℕ) (laddr : Option Sockaddr) (raddr : Sockaddr) (backup : Bool)
        (w : W)
        → Outcome
            (message (user_add_subflow token local_id remote_id laddr (some raddr) backup))
            einval
            w
            (org_add_subflow g kernel token local_id remote_id laddr raddr backup w)
    unfolding org_add_subflow get_port_number wire_port
    org_add_subflow-Outcome token local_id remote_id laddr raddr backup w =
        let sent =
          transmit-sends g kernel cmd_sub_create _ logs w
            (add_subflow-Writes token local_id remote_id laddr raddr backup) in
        elim (Bool-cases (wire_port raddr == 0)) [ inl e ↦ rw e refl | inr e ↦ rw e sent ]

    org_set_backup-Outcome :
        (token : ℕ) (laddr raddr : Sockaddr) (backup : Bool) (w : W) (z : ℤ)
        → Outcome
            (some (12, subflow_tokens token laddr raddr (backup_token backup)))
            z
            w
            (org_set_backup g kernel token laddr raddr backup w)
    unfolding org_set_backup
    org_set_backup-Outcome token laddr raddr backup w z =
        transmit-sends g kernel _ _ _ w (set_backup-Writes token laddr raddr backup)

    org_remove_subflow-Outcome :
        (token : ℕ) (laddr raddr : Sockaddr) (w : W) (z : ℤ)
        → Outcome
            (some (9, subflow_tokens token laddr raddr []))
            z
            w
            (org_remove_subflow g kernel token laddr raddr w)
    unfolding org_remove_subflow
    org_remove_subflow-Outcome token laddr raddr w z =
        transmit-sends g kernel _ _ _ w (remove_subflow-Writes token laddr raddr)

    -- Every command of a plugin, on every input, is refused with the result that `refusal` gives,
    -- fails with ENOMEM, which it does only if there is no memory for some attribute, in both cases
    -- without a change of the world, or sends the kernel exactly the message of the command, which
    -- `message` writes out with the command numbers of mptcp_org.h; the result is then 0 if a request
    -- was made and 1 if not.
    pub run-message :
        (c : Command) (w : W) → Outcome (message c) (refusal c) w (run W (some org_pm) c w)
    run-message (kernel_add_addr none id flags index) w =
        ready-run W org_pm (kernel_add_addr none id flags index) w refl ∙ ground arith
    run-message (kernel_add_addr (some a) id flags index) w =
        ready-run W org_pm (kernel_add_addr (some a) id flags index) w refl ∙ ground arith
    run-message (kernel_remove_addr id) w =
        ready-run W org_pm (kernel_remove_addr id) w refl ∙ ground arith
    run-message (kernel_get_addr id none user_data complete) w =
        ready-run W org_pm (kernel_get_addr id none user_data complete) w refl ∙ ground arith
    run-message (kernel_get_addr id (some f) user_data complete) w =
        ready-run W org_pm (kernel_get_addr id (some f) user_data complete) w refl ∙ ground arith
    run-message (kernel_dump_addrs none user_data complete) w =
        ready-run W org_pm (kernel_dump_addrs none user_data complete) w refl ∙ ground arith
    run-message (kernel_dump_addrs (some f) user_data complete) w =
        ready-run W org_pm (kernel_dump_addrs (some f) user_data complete) w refl ∙ ground arith
    run-message (kernel_flush_addrs) w =
        ready-run W org_pm (kernel_flush_addrs) w refl ∙ ground arith
    run-message (kernel_set_limits none len) w =
        ready-run W org_pm (kernel_set_limits none len) w refl ∙ ground arith
    run-message (kernel_set_limits (some l) len) w =
        ready-run W org_pm (kernel_set_limits (some l) len) w refl ∙ ground arith
    run-message (kernel_get_limits none user_data) w =
        ready-run W org_pm (kernel_get_limits none user_data) w refl ∙ ground arith
    run-message (kernel_get_limits (some f) user_data) w =
        ready-run W org_pm (kernel_get_limits (some f) user_data) w refl ∙ ground arith
    run-message (kernel_set_flags none flags) w =
        ready-run W org_pm (kernel_set_flags none flags) w refl ∙ ground arith
    run-message (kernel_set_flags (some a) flags) w =
        ready-run W org_pm (kernel_set_flags (some a) flags) w refl ∙ ground arith
    run-message (user_add_addr none id token listener) w =
        ready-run W org_pm (user_add_addr none id token listener) w refl ∙ ground arith
    run-message (user_add_addr (some addr) id token listener) w =
        let is_run = ready-run W org_pm (user_add_addr (some addr) id token listener) w refl in
        elim (Bool-cases (id == 0)) [
          | inl e ↦ rw (is_run, e) refl
          | inr e ↦ rw (is_run, e) (org_add_addr-Outcome addr id token listener w einval)
        ]
    run-message (user_remove_addr addr id token) w =
        let is_run = ready-run W org_pm (user_remove_addr addr id token) w refl in
        elim (Bool-cases (id == 0)) [
          | inl e ↦ rw (is_run, e) refl
          | inr e ↦ rw (is_run, e) (org_remove_addr-Outcome addr id token w einval)
        ]
    run-message (user_add_subflow token local_id remote_id laddr none backup) w =
        ready-run W org_pm (user_add_subflow token local_id remote_id laddr none backup) w refl
        ∙ ground arith
    run-message (user_add_subflow token local_id remote_id laddr (some raddr) backup) w =
        let is_run =
          ready-run W org_pm (user_add_subflow token local_id remote_id laddr (some raddr) backup) w
            refl in
        rw is_run (org_add_subflow-Outcome token local_id remote_id laddr raddr backup w)
    run-message (user_set_backup token none raddr backup) w =
        ready-run W org_pm (user_set_backup token none raddr backup) w refl ∙ ground arith
    run-message (user_set_backup token (some laddr) none backup) w =
        ready-run W org_pm (user_set_backup token (some laddr) none backup) w refl ∙ ground arith
    run-message (user_set_backup token (some laddr) (some raddr) backup) w =
        let is_run =
          ready-run W org_pm (user_set_backup token (some laddr) (some raddr) backup) w refl in
        rw is_run (org_set_backup-Outcome token laddr raddr backup w einval)
    run-message (user_remove_subflow token none raddr) w =
        ready-run W org_pm (user_remove_subflow token none raddr) w refl ∙ ground arith
    run-message (user_remove_subflow token (some laddr) none) w =
        ready-run W org_pm (user_remove_subflow token (some laddr) none) w refl ∙ ground arith
    run-message (user_remove_subflow token (some laddr) (some raddr)) w =
        let is_run =
          ready-run W org_pm (user_remove_subflow token (some laddr) (some raddr)) w refl in
        rw is_run (org_remove_subflow-Outcome token laddr raddr w einval)
