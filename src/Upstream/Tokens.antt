-- ===== src/Upstream/Tokens.antt =====
-- The tokens that the calls of the upstream commands append to a message.
use mptcpd.Common.{
  ℕ, ◌+◌, ◌-◌, ◌*◌, ◌/◌, ◌%◌, List, [], ◌∷◌, ◌++◌, ◌==◌, if◌then◌else◌, ◌≡◌, refl, ap, subst, inl,
  inr, arith, Bool-cases,
}
use mptcpd.Ell.Genl.{Genl, Token, enter, attr, leave}
use mptcpd.Netlink.Size.{optional, wire_port}
use mptcpd.Netlink.Writes.{
  Writes, last, more, more-Writes, append_attr-Writes, enter_nested-Writes, leave_nested-Writes,
  all_steps-Writes, unless_zero-Writes, none-Writes,
}
use mptcpd.Netlink.{u8, u16, u32, ip_attr, get_addr_family, get_port_number}
use mptcpd.PathManager.{Limit}
use mptcpd.Upstream.{
  AddrInfo, signal_with_port, s32_bits, mptcpd_to_kernel_limit, append_addr_attr,
  append_local_addr_attr, append_remote_addr_attr, send_add_addr_steps, subflow_steps,
  address_id_steps, remove_steps, limits_steps,
}

-- An address as a nested attribute, and the tokens of the messages, as the kernel expects
-- them. A port, an ID, flags, an index and a token of 0 are left out.
abbrev pub addr_tokens : AddrInfo → List Token
addr_tokens info =
    attr (u16 1 info.addr.family)
    ∷ attr (ip_attr 3 4 info.addr)
    ∷ (optional (wire_port info.addr) (u16 5 (wire_port info.addr))
        ++ (optional info.id (u8 2 info.id)
            ++ (optional info.flags (u32 6 info.flags)
                ++ (optional (s32_bits info.ifindex) (u32 7 (s32_bits info.ifindex))
                    ++ leave ∷ []))))

abbrev pub nested : ℕ → AddrInfo → List Token
nested type info = enter (0x8000 + type) ∷ addr_tokens info

-- An address with a port is announced with the flag MPTCP_PM_ADDR_FLAG_SIGNAL, which is bit 0.
abbrev pub signalled : AddrInfo → AddrInfo
signalled info =
    let port = wire_port info.addr in
    record info { flags = if port == 0 then info.flags else info.flags / 2 * 2 + 1 }

abbrev pub announce_tokens : AddrInfo → ℕ → List Token
announce_tokens info token = nested 1 (signalled info) ++ optional token (u32 4 token)

abbrev pub subflow_tokens : ℕ → AddrInfo → AddrInfo → List Token
subflow_tokens token local remote = attr (u32 4 token) ∷ (nested 1 local ++ nested 6 remote)

abbrev pub id_tokens : ℕ → List Token
id_tokens id = enter (0x8000 + 1) ∷ attr (u8 2 id) ∷ leave ∷ []

-- MPTCP_PM_ATTR_RCV_ADD_ADDRS and MPTCP_PM_ATTR_SUBFLOWS for the types 0 and 1.
abbrev pub limit_attr : ℕ → ℕ
limit_attr type = if type == 0 then 2 else if type == 1 then 3 else type

abbrev pub limit_tokens : List Limit → List Token
limit_tokens [] = []
limit_tokens (l ∷ rest) = attr (u32 (limit_attr l.0) l.1) ∷ limit_tokens rest

signal_with_port_lem : (info : AddrInfo) → signal_with_port info ≡ signalled info
unfolding signal_with_port get_port_number wire_port
signal_with_port_lem info =
    let port = wire_port info.addr in
    let set_bit : info.flags + (1 - info.flags % 2) ≡ info.flags / 2 * 2 + 1 = omega arith in
    elim (Bool-cases (port == 0)) [
      | inl e ↦ rw e refl
      | inr e ↦ rw e (ap (λ f. record info { flags = f }) set_bit)
    ]

module _ (g : Genl) where
  pub append_addr_attr-Writes :
      (info : AddrInfo) (type : ℕ) → Writes g (append_addr_attr g info type) (nested type info)
  unfolding append_addr_attr get_addr_family get_port_number wire_port
  append_addr_attr-Writes info type =
      let one = append_attr-Writes g in
      all_steps-Writes g (
        more (enter_nested-Writes g _) (
          more (one _) (
            more (one _) (
              more (unless_zero-Writes g _ (one _)) (
                more (unless_zero-Writes g _ (one _)) (
                  more (unless_zero-Writes g _ (one _))
                    (more (unless_zero-Writes g _ (one _)) (last (leave_nested-Writes g)))))))))

  pub send_add_addr-Writes :
      (info : AddrInfo) (token : ℕ)
      → Writes g (send_add_addr_steps g info token) (nested 1 info ++ optional token (u32 4 token))
  unfolding send_add_addr_steps append_local_addr_attr
  send_add_addr-Writes info token = all_steps-Writes g (
      more (append_addr_attr-Writes info 1)
        (last (unless_zero-Writes g token (append_attr-Writes g _))))

  pub subflow-Writes :
      (token : ℕ) (local remote : AddrInfo)
      → Writes g (subflow_steps g token local remote) (subflow_tokens token local remote)
  unfolding subflow_steps append_local_addr_attr append_remote_addr_attr
  subflow-Writes token local remote = all_steps-Writes g (
      more (append_attr-Writes g _)
        (more (append_addr_attr-Writes local 1) (last (append_addr_attr-Writes remote 6))))

  pub address_id-Writes : (id : ℕ) → Writes g (address_id_steps g id) (id_tokens id)
  unfolding address_id_steps
  address_id-Writes id = all_steps-Writes g (
      more (enter_nested-Writes g _) (more (append_attr-Writes g _) (last (leave_nested-Writes g))))

  pub remove-Writes :
      (id token : ℕ) → Writes g (remove_steps g id token) (attr (u32 4 token) ∷ attr (u8 5 id) ∷ [])
  unfolding remove_steps
  remove-Writes id token =
      all_steps-Writes g (more (append_attr-Writes g _) (last (append_attr-Writes g _)))

  pub limits-Writes : (limits : List Limit) → Writes g (limits_steps g limits) (limit_tokens limits)
  unfolding limits_steps mptcpd_to_kernel_limit
  limits-Writes [] = none-Writes g
  limits-Writes (l ∷ rest) = more-Writes g _ _ _ _ (append_attr-Writes g _) (limits-Writes rest)

  -- An address with the flag that its port requires, in a message and by itself.
  pub send_signalled-Writes :
      (info : AddrInfo) (token : ℕ)
      → Writes g (send_add_addr_steps g (signal_with_port info) token) (announce_tokens info token)
  send_signalled-Writes info token =
      subst
        (λ i.
          Writes g (send_add_addr_steps g (signal_with_port info) token)
            (nested 1 i ++ optional token (u32 4 token)))
        (signal_with_port_lem info) (send_add_addr-Writes (signal_with_port info) token)

  pub append_signalled-Writes :
      (info : AddrInfo)
      → Writes g (append_addr_attr g (signal_with_port info) 1) (nested 1 (signalled info))
  append_signalled-Writes info =
      subst (λ i. Writes g (append_addr_attr g (signal_with_port info) 1) (nested 1 i))
        (signal_with_port_lem info) (append_addr_attr-Writes (signal_with_port info) 1)
