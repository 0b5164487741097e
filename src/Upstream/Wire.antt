-- ===== src/Upstream/Wire.antt =====
-- What the commands of plugins put on the wire to an upstream kernel.
use mptcpd.Common.{
  ℕ, Bool, true, false, not, Option, none, some, is_some, List, [], ◌∷◌, ◌==◌, if◌then◌else◌, take,
  ◌≡◌, refl, ◌⊎◌, inl, inr, ℤ, pos, arith, Bool-cases, ◌∙◌, sym, append-nil,
}
use mptcpd.Ell.Genl.{Genl, Token, attr}
use mptcpd.Netlink.Writes.{Writes, Roomy, transmit-sends}
use mptcpd.Netlink.{
  Kernel, Completion, logs, closes, passes_addr, passes_limits, enomem, result, u8, u32,
}
use mptcpd.PathManager.Commands.{
  Command, run, ready-run, kernel_add_addr, kernel_remove_addr, kernel_get_addr, kernel_dump_addrs,
  kernel_flush_addrs, kernel_set_limits, kernel_get_limits, kernel_set_flags, user_add_addr,
  user_remove_addr, user_add_subflow, user_set_backup, user_remove_subflow,
}
use mptcpd.PathManager.{Limit, Pointer, Pm, einval}
use mptcpd.Sockaddr.{Sockaddr}
use mptcpd.Upstream.Tokens.{
  announce_tokens, nested, subflow_tokens, id_tokens, limit_tokens, append_signalled-Writes,
  send_signalled-Writes, signalled, subflow-Writes, address_id-Writes, remove-Writes, limits-Writes,
}
use mptcpd.Upstream.{
  AddrInfo, announced, append_local_addr_attr, send_add_addr, upstream_remove, upstream_add_subflow,
  upstream_remove_subflow, upstream_set_backup, upstream_add_addr, upstream_remove_addr,
  upstream_get_addr, upstream_dump_addrs, upstream_flush_addrs, upstream_set_limits,
  upstream_get_limits, upstream_set_flags, upstream_announce, upstream_pm,
}

-- A message, whether it is sent as a dump, and what runs when it is answered.
pub record Message : Type 0 where
  pub dumps : Bool
  pub command : ℕ
  pub tokens : List Token
  pub completion : Completion

abbrev pub info_of : Sockaddr → ℕ → ℕ → ℤ → AddrInfo
info_of addr id flags index = record { addr = addr; id = id; flags = flags; ifindex = index }

abbrev pub backup_info : Sockaddr → Bool → AddrInfo
backup_info addr backup = info_of addr 0 (if backup then 4 else 0) (pos 0)

abbrev sent : ℕ → List Token → Completion → Message
sent cmd ts completion = record {
  dumps = false;
  command = cmd;
  tokens = ts;
  completion = completion;
}

-- The message that carries a command; none if the command is refused. Listening and a subflow
-- without a local address are left out.
abbrev pub message : Command → Option Message
message (kernel_add_addr (some addr) id flags index) =
    if id == 0 then none else some (sent 1 (announce_tokens (info_of addr id flags index) 0) logs)
message (kernel_remove_addr id) = if id == 0 then none else some (sent 2 (id_tokens id) logs)
message (kernel_get_addr id (some callback) user_data complete) =
    if id == 0
    then none
    else some (sent 3 (id_tokens id) (passes_addr callback user_data complete false))
message (kernel_dump_addrs (some callback) user_data complete) = some (record {
  dumps = true;
  command = 3;
  tokens = [];
  completion = passes_addr callback user_data complete true;
})
message kernel_flush_addrs = some (sent 4 [] logs)
message (kernel_set_limits (some limits) len) =
    if len == 0 then none else some (sent 5 (limit_tokens (take len limits)) logs)
message (kernel_get_limits (some callback) user_data) =
    some (sent 6 [] (passes_limits callback user_data))
message (kernel_set_flags (some addr) flags) =
    some (sent 7 (nested 1 (signalled (info_of addr 0 flags (pos 0)))) logs)
message (user_add_addr (some addr) id token listener) =
    if id == 0 then none else some (sent 8 (announce_tokens (info_of addr id 1 (pos 0)) token) logs)
message (user_remove_addr addr id token) =
    if id == 0 then none else some (sent 9 (attr (u32 4 token) ∷ attr (u8 5 id) ∷ []) (closes addr))
message (user_add_subflow token local_id remote_id (some laddr) (some raddr) backup) = some (
    sent 10
      (subflow_tokens token (info_of laddr local_id 0 (pos 0)) (info_of raddr remote_id 0 (pos 0)))
      logs)
message (user_set_backup token (some laddr) (some raddr) backup) =
    some (sent 7 (subflow_tokens token (backup_info laddr backup) (info_of raddr 0 0 (pos 0))) logs)
message (user_remove_subflow token (some laddr) (some raddr)) =
    some
      (sent 11 (subflow_tokens token (info_of laddr 0 0 (pos 0)) (info_of raddr 0 0 (pos 0))) logs)
message _ = none

-- The commands that `message` covers.
abbrev pub plain : Command → Bool
plain (user_add_addr addr id token listener) = not listener
plain (user_add_subflow token local_id remote_id laddr raddr backup) = is_some laddr
plain c = true

module _ (g : Genl) where
  module _ {W : Type 0} (kernel : Kernel W) where
    -- What the kernel is given.
    abbrev pub deliver : Message → W → W × ℕ
    deliver m w =
        if m.dumps
        then kernel.dump m.command m.tokens m.completion w
        else kernel.send m.command m.tokens m.completion w

    -- What a command may come to. Without a message it is refused with EINVAL, and the world is as
    -- before. With one, either there was no memory for some attribute, and the world is as before, or
    -- the kernel is given the message.
    abbrev pub Outcome : Option Message → W → W × ℤ → Type 0
    Outcome none w r = r ≡ (w, einval)
    Outcome (some m) w r = ((r ≡ (w, enomem)) × ¬ Roomy g) ⊎ (r ≡ result (deliver m w))

    -- A command that is refused where `b` holds.
    guarded-Outcome :
        (b : Bool) (m : Message) (w : W) (r : W × ℤ)
        → Outcome (some m) w r
        → Outcome (if b then none else some m) w (if not b then r else (w, einval))
    guarded-Outcome true m w r o = refl
    guarded-Outcome false m w r o = o

    pub send_add_addr-Outcome :
        (cmd : ℕ) (info : AddrInfo) (token : ℕ) (w : W)
        → Outcome
            (some (sent cmd (announce_tokens info token) logs))
            w
            (send_add_addr g kernel cmd info token w)
    unfolding send_add_addr
    send_add_addr-Outcome cmd info token w =
        transmit-sends g kernel cmd _ logs w (send_signalled-Writes g info token)

    upstream_add_addr-Outcome :
        (addr : Sockaddr) (id flags : ℕ) (index : ℤ) (w : W)
        → Outcome
            (some (sent 1 (announce_tokens (info_of addr id flags index) 0) logs))
            w
            (upstream_add_addr g kernel addr id flags index w)
    unfolding upstream_add_addr
    upstream_add_addr-Outcome addr id flags index w = send_add_addr-Outcome 1 _ 0 w

    upstream_remove_addr-Outcome :
        (id : ℕ) (w : W)
        → Outcome (some (sent 2 (id_tokens id) logs)) w (upstream_remove_addr g kernel id w)
    unfolding upstream_remove_addr
    upstream_remove_addr-Outcome id w = transmit-sends g kernel 2 _ logs w (address_id-Writes g id)

    upstream_get_addr-Outcome :
        (id f : ℕ) (user_data complete : Pointer) (w : W)
        → Outcome
            (some (sent 3 (id_tokens id) (passes_addr f user_data complete false)))
            w
            (upstream_get_addr g kernel id f user_data complete w)
    unfolding upstream_get_addr
    upstream_get_addr-Outcome id f user_data complete w =
        transmit-sends g kernel 3 _ _ w (address_id-Writes g id)

    upstream_dump_addrs-Outcome :
        (f : ℕ) (user_data complete : Pointer) (w : W)
        → Outcome
            (message (kernel_dump_addrs (some f) user_data complete))
            w
            (upstream_dump_addrs g kernel f user_data complete w)
    unfolding upstream_dump_addrs
    upstream_dump_addrs-Outcome f user_data complete w =
        inr (rw (g.command-new_sized 3 0, g.body-new_sized 3 0) refl)

    empty-Writes : Writes g (λ m. (m, true)) []
    empty-Writes = record {
      same_command = λ m. refl;
      appends = λ m ok. sym (append-nil (g.body m));
      succeeds = λ room m. refl;
    }

    upstream_flush_addrs-Outcome :
        (w : W) → Outcome (some (sent 4 [] logs)) w (upstream_flush_addrs g kernel w)
    unfolding upstream_flush_addrs
    upstream_flush_addrs-Outcome w = transmit-sends g kernel 4 0 logs w empty-Writes

    pub upstream_set_limits-Outcome :
        (limits : List Limit) (len : ℕ) (w : W)
        → (len == 0) ≡ false
        → Outcome
            (some (sent 5 (limit_tokens (take len limits)) logs))
            w
            (upstream_set_limits g kernel limits len w)
    unfolding upstream_set_limits
    upstream_set_limits-Outcome limits len w e =
        let sends = transmit-sends g kernel 5 _ logs w (limits-Writes g (take len limits)) in
        rw e sends

    upstream_get_limits-Outcome :
        (f : ℕ) (user_data : Pointer) (w : W)
        → Outcome
            (some (sent 6 [] (passes_limits f user_data)))
            w
            (upstream_get_limits g kernel f user_data w)
    unfolding upstream_get_limits
    upstream_get_limits-Outcome f user_data w = transmit-sends g kernel 6 0 _ w empty-Writes

    upstream_set_flags-Outcome :
        (addr : Sockaddr) (flags : ℕ) (w : W)
        → Outcome
            (message (kernel_set_flags (some addr) flags))
            w
            (upstream_set_flags g kernel addr flags w)
    unfolding upstream_set_flags append_local_addr_attr
    upstream_set_flags-Outcome addr flags w =
        transmit-sends g kernel 7 _ logs w (append_signalled-Writes g _)

    upstream_remove-Outcome :
        (addr : Option Sockaddr) (id token : ℕ) (w : W)
        → Outcome
            (some (sent 9 (attr (u32 4 token) ∷ attr (u8 5 id) ∷ []) (closes addr)))
            w
            (upstream_remove g kernel addr id token w)
    unfolding upstream_remove
    upstream_remove-Outcome addr id token w =
        transmit-sends g kernel 9 _ _ w (remove-Writes g id token)

    upstream_add_subflow-Outcome :
        (token local_id remote_id : ℕ) (laddr raddr : Sockaddr) (backup : Bool) (w : W)
        → Outcome
            (message (user_add_subflow token local_id remote_id (some laddr) (some raddr) backup))
            w
            (upstream_add_subflow g kernel token local_id remote_id laddr raddr backup w)
    unfolding upstream_add_subflow
    upstream_add_subflow-Outcome token local_id remote_id laddr raddr backup w =
        transmit-sends g kernel 10 _ logs w (subflow-Writes g token _ _)

    upstream_set_backup-Outcome :
        (token : ℕ) (laddr raddr : Sockaddr) (backup : Bool) (w : W)
        → Outcome
            (message (user_set_backup token (some laddr) (some raddr) backup))
            w
            (upstream_set_backup g kernel token laddr raddr backup w)
    unfolding upstream_set_backup
    upstream_set_backup-Outcome token laddr raddr backup w =
        transmit-sends g kernel 7 _ logs w (subflow-Writes g token _ _)

    upstream_remove_subflow-Outcome :
        (token : ℕ) (laddr raddr : Sockaddr) (w : W)
        → Outcome
            (message (user_remove_subflow token (some laddr) (some raddr)))
            w
            (upstream_remove_subflow g kernel token laddr raddr w)
    unfolding upstream_remove_subflow
    upstream_remove_subflow-Outcome token laddr raddr w =
        transmit-sends g kernel 11 _ logs w (subflow-Writes g token _ _)

    module _ (listen : Sockaddr → W → W × Sockaddr × ℤ) (at_null : W → W × ℤ) where
      abbrev pm : Pm W
      pm = upstream_pm g kernel listen at_null

      announce-Outcome :
          (addr : Sockaddr) (id token : ℕ) (listener : Bool) (w : W)
          → not listener ≡ true
          → Outcome
              (some (sent 8 (announce_tokens (info_of addr id 1 (pos 0)) token) logs))
              w
              (upstream_announce g kernel listen at_null addr id token listener w)
      unfolding upstream_announce
      announce-Outcome addr id token true w h = absurd cc
      announce-Outcome addr id token false w h = send_add_addr-Outcome 8 (announced addr id) token w

      -- Every command of a plugin, on every input, except an announcement that is to listen and a
      -- subflow without a local address: it is refused with EINVAL, fails with ENOMEM, which it does
      -- only if there is no memory for some attribute, in both cases without a change of the world, or
      -- gives the kernel exactly the message of the command, which `message` writes out: a port, an ID,
      -- flags, an index and a token of an announcement are left out where they are 0, and the command
      -- for flags carries the port. The result is then 0 if a request was made and 1 if not.
      pub run-deliver :
          (c : Command) (w : W) → plain c ≡ true → Outcome (message c) w (run W (some pm) c w)
      run-deliver (kernel_add_addr none id flags index) w h =
          ready-run W pm (kernel_add_addr none id flags index) w refl ∙ ground arith
      run-deliver (kernel_add_addr (some a) id flags index) w h =
          rw (ready-run W pm (kernel_add_addr (some a) id flags index) w refl)
            (guarded-Outcome (id == 0) _ w _ (upstream_add_addr-Outcome a id flags index w))
      run-deliver (kernel_remove_addr id) w h =
          rw (ready-run W pm (kernel_remove_addr id) w refl)
            (guarded-Outcome (id == 0) _ w _ (upstream_remove_addr-Outcome id w))
      run-deliver (kernel_get_addr id none user_data complete) w h =
          ready-run W pm (kernel_get_addr id none user_data complete) w refl ∙ ground arith
      run-deliver (kernel_get_addr id (some f) user_data complete) w h =
          let is_run = ready-run W pm (kernel_get_addr id (some f) user_data complete) w refl in
          elim (Bool-cases (id == 0)) [
            | inl e ↦ rw (is_run, e) refl
            | inr e ↦ rw (is_run, e) (upstream_get_addr-Outcome id f user_data complete w)
          ]
      run-deliver (kernel_dump_addrs none user_data complete) w h =
          ready-run W pm (kernel_dump_addrs none user_data complete) w refl ∙ ground arith
      run-deliver (kernel_dump_addrs (some f) user_data complete) w h =
          rw (ready-run W pm (kernel_dump_addrs (some f) user_data complete) w refl)
            (upstream_dump_addrs-Outcome f user_data complete w)
      run-deliver (kernel_flush_addrs) w h =
          rw (ready-run W pm (kernel_flush_addrs) w refl) (upstream_flush_addrs-Outcome w)
      run-deliver (kernel_set_limits none len) w h =
          ready-run W pm (kernel_set_limits none len) w refl ∙ ground arith
      run-deliver (kernel_set_limits (some l) len) w h =
          let is_run = ready-run W pm (kernel_set_limits (some l) len) w refl in
          elim (Bool-cases (len == 0)) [
            | inl e ↦ rw (is_run, e) refl
            | inr e ↦ rw (is_run, e) (upstream_set_limits-Outcome l len w e)
          ]
      run-deliver (kernel_get_limits none user_data) w h =
          ready-run W pm (kernel_get_limits none user_data) w refl ∙ ground arith
      run-deliver (kernel_get_limits (some f) user_data) w h =
          rw (ready-run W pm (kernel_get_limits (some f) user_data) w refl)
            (upstream_get_limits-Outcome f user_data w)
      run-deliver (kernel_set_flags none flags) w h =
          ready-run W pm (kernel_set_flags none flags) w refl ∙ ground arith
      run-deliver (kernel_set_flags (some a) flags) w h =
          rw (ready-run W pm (kernel_set_flags (some a) flags) w refl)
            (upstream_set_flags-Outcome a flags w)
      run-deliver (user_add_addr none id token listener) w h =
          ready-run W pm (user_add_addr none id token listener) w refl ∙ ground arith
      run-deliver (user_add_addr (some a) id token listener) w h =
          rw (ready-run W pm (user_add_addr (some a) id token listener) w refl)
            (guarded-Outcome (id == 0) _ w _ (announce-Outcome a id token listener w h))
      run-deliver (user_remove_addr addr id token) w h =
          rw (ready-run W pm (user_remove_addr addr id token) w refl)
            (guarded-Outcome (id == 0) _ w _ (upstream_remove-Outcome addr id token w))
      run-deliver (user_add_subflow token local_id remote_id none none backup) w h =
          ready-run W pm (user_add_subflow token local_id remote_id none none backup) w refl
          ∙ ground arith
      run-deliver (user_add_subflow token local_id remote_id (some laddr) none backup) w h =
          ready-run W pm (user_add_subflow token local_id remote_id (some laddr) none backup) w refl
          ∙ ground arith
      run-deliver (user_add_subflow token local_id remote_id none (some raddr) backup) w h =
          absurd cc
      run-deliver (user_add_subflow token local_id remote_id (some laddr) (some raddr) backup) w h =
          rw
            (ready-run W pm
              (user_add_subflow token local_id remote_id (some laddr) (some raddr) backup) w refl)
            (upstream_add_subflow-Outcome token local_id remote_id laddr raddr backup w)
      run-deliver (user_set_backup token none raddr backup) w h =
          ready-run W pm (user_set_backup token none raddr backup) w refl ∙ ground arith
      run-deliver (user_set_backup token (some laddr) none backup) w h =
          ready-run W pm (user_set_backup token (some laddr) none backup) w refl ∙ ground arith
      run-deliver (user_set_backup token (some laddr) (some raddr) backup) w h =
          rw (ready-run W pm (user_set_backup token (some laddr) (some raddr) backup) w refl)
            (upstream_set_backup-Outcome token laddr raddr backup w)
      run-deliver (user_remove_subflow token none raddr) w h =
          ready-run W pm (user_remove_subflow token none raddr) w refl ∙ ground arith
      run-deliver (user_remove_subflow token (some laddr) none) w h =
          ready-run W pm (user_remove_subflow token (some laddr) none) w refl ∙ ground arith
      run-deliver (user_remove_subflow token (some laddr) (some raddr)) w h =
          rw (ready-run W pm (user_remove_subflow token (some laddr) (some raddr)) w refl)
            (upstream_remove_subflow-Outcome token laddr raddr w)
