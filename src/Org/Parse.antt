-- ===== src/Org/Parse.antt =====
-- The messages of the multipath-tcp.org commands on subflows, read by the parser of src/path_manager.c:
-- commands and events have their attributes from one enumeration.
use mptcpd.Common.{
  ℕ, Bool, true, some, List, [], ◌==◌, if◌then◌else◌, ◌≡◌, refl, arith, ◌⊎◌, inl, inr, sym, ap,
  subst, Bool-cases, false,
}
use mptcpd.Ell.Genl.{Token}
use mptcpd.Events.Attributes.{parse, no_attrs, parse_list, parse_attr, get_attr}
use mptcpd.Events.{handle_subflow, both_addresses, has_connection}
use mptcpd.Netlink.Size.{attributes, wire_port}
use mptcpd.Netlink.{get_port_number, swap16}
use mptcpd.Org.Wire.{subflow_tokens, backup_token}
use mptcpd.Org.{bool_byte}
use mptcpd.Sockaddr.{Sockaddr, af_inet, af_inet6, is_inet, sockaddr_storage_init}

-- The view that the family selects, with the bytes of the port in the other order.
abbrev pub in_host_order : Sockaddr → Sockaddr
in_host_order addr =
    if addr.family == af_inet
    then record { family = af_inet; port = swap16 addr.port; addr4 = addr.addr4; addr6 = [] }
    else record { family = af_inet6; port = swap16 addr.port; addr4 = 0; addr6 = addr.addr6 }

inet_cases :
    (addr : Sockaddr)
    → is_inet addr ≡ true
    → (record addr { family = 2 } ≡ addr) ⊎ (record addr { family = 10 } ≡ addr)
inet_cases addr h = elim (Bool-cases (addr.family == 2)) [
  | inl e ↦ inl (ap (λ f. record addr { family = f }) (sym (is_two e)))
  | inr e ↦ inr (ap (λ f. record addr { family = f }) (sym (is_ten e)))
]
  where
    is_two : (addr.family == 2) ≡ true → addr.family ≡ 2
    is_two e = ground arith

    is_ten : (addr.family == 2) ≡ false → addr.family ≡ 10
    is_ten e = ground arith

-- What the event handlers read from a message with these tokens.
abbrev pub ReadBack : List Token → ℕ → Sockaddr → Sockaddr → Bool → Type 0
ReadBack ts token laddr raddr backup =
    let attrs = parse (some (attributes ts)) no_attrs in
    (handle_subflow attrs ≡ some (in_host_order laddr, in_host_order raddr))
    × (attrs.token ≡ some token)
    × (attrs.backup ≡ some (bool_byte backup))

module _ (token : ℕ) (backup : Bool) where
  abbrev Priority : Sockaddr → Sockaddr → Type 0
  Priority laddr raddr =
      ReadBack (subflow_tokens token laddr raddr (backup_token backup)) token laddr raddr backup

  families :
      (laddr raddr : Sockaddr)
      → Priority (record laddr { family = 2 }) (record raddr { family = 2 })
        × Priority (record laddr { family = 2 }) (record raddr { family = 10 })
        × Priority (record laddr { family = 10 }) (record raddr { family = 2 })
        × Priority (record laddr { family = 10 }) (record raddr { family = 10 })
  unfolding handle_subflow parse get_port_number wire_port sockaddr_storage_init both_addresses
      has_connection parse_list parse_attr get_attr
  families laddr raddr =
      ((refl, refl, refl), (refl, refl, refl), (refl, refl, refl), (refl, refl, refl))

-- The message of `mptcp_org_set_backup` for two Internet addresses, read by the event handlers, gives
-- back the token, the backup flag and both addresses, with their ports in host byte order.
pub set_backup-handle_subflow :
    (token : ℕ) (laddr raddr : Sockaddr) (backup : Bool)
    → is_inet laddr ≡ true
    → is_inet raddr ≡ true
    → ReadBack (subflow_tokens token laddr raddr (backup_token backup)) token laddr raddr backup
set_backup-handle_subflow token laddr raddr backup l r =
    let all = families token backup laddr raddr in
    let P = Priority token backup in
    let subst2 : (a b : Sockaddr) → a ≡ laddr → b ≡ raddr → P a b → P laddr raddr =
      λ a b e f p. subst (λ x. P x raddr) e (subst (λ x. P a x) f p) in
    elim (inet_cases laddr l) [
      | inl e ↦ elim (inet_cases raddr r) [
        | inl f ↦ subst2 _ _ e f all.0
        | inr f ↦ subst2 _ _ e f all.1
      ]
      | inr e ↦ elim (inet_cases raddr r) [
        | inl f ↦ subst2 _ _ e f all.2
        | inr f ↦ subst2 _ _ e f all.3
      ]
    ]
