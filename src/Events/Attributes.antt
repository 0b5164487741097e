-- ===== src/Events/Attributes.antt =====
-- `parse_netlink_attributes` of src/path_manager.c.
use mptcpd.Common.{ℕ, Option, none, some, List, [], ◌∷◌, ◌==◌, if◌then◌else◌}

-- `struct pm_event_attrs`: a NULL pointer is `none`.
pub record Attrs : Type 0 where
  pub token : Option ℕ
  pub laddr_id : Option ℕ
  pub raddr_id : Option ℕ
  pub laddr4 : Option ℕ
  pub raddr4 : Option ℕ
  pub laddr6 : Option (List ℕ)
  pub raddr6 : Option (List ℕ)
  pub local_port : Option ℕ
  pub remote_port : Option ℕ
  pub index : Option ℕ
  pub backup : Option ℕ
  pub error : Option ℕ
  pub server_side : Option ℕ

abbrev pub no_attrs : Attrs
no_attrs = record {
  token = none;
  laddr_id = none;
  raddr_id = none;
  laddr4 = none;
  raddr4 = none;
  laddr6 = none;
  raddr6 = none;
  local_port = none;
  remote_port = none;
  index = none;
  backup = none;
  error = none;
  server_side = none;
}

-- An attribute of a message: its type and length, and its payload read as an integer and as bytes.
pub record Attribute : Type 0 where
  pub type : ℕ
  pub len : ℕ
  pub value : ℕ
  pub bytes : List ℕ

-- `MPTCP_GET_NL_ATTR`: a payload of another length than that of the destination is not taken.
unfoldable pub get_attr {ℓ} : {A : Type ℓ} → ℕ → ℕ → A → Option A → Option A
get_attr len expected payload attr = if len == expected then some payload else attr

-- The body of the loop: the switch on the numbers of `enum mptcp_event_attr`.
unfoldable pub parse_attr : Attribute → Attrs → Attrs
unfolding get_attr
parse_attr a attrs =
    let t = a.type in
    if t == 1
    then record attrs { token = get_attr a.len 4 a.value attrs.token }
    else if t == 3
    then record attrs { laddr_id = get_attr a.len 1 a.value attrs.laddr_id }
    else if t == 4
    then record attrs { raddr_id = get_attr a.len 1 a.value attrs.raddr_id }
    else if t == 5
    then record attrs { laddr4 = get_attr a.len 4 a.value attrs.laddr4 }
    else if t == 6
    then record attrs { laddr6 = get_attr a.len 16 a.bytes attrs.laddr6 }
    else if t == 9
    then record attrs { local_port = get_attr a.len 2 a.value attrs.local_port }
    else if t == 7
    then record attrs { raddr4 = get_attr a.len 4 a.value attrs.raddr4 }
    else if t == 8
    then record attrs { raddr6 = get_attr a.len 16 a.bytes attrs.raddr6 }
    else if t == 10
    then record attrs { remote_port = get_attr a.len 2 a.value attrs.remote_port }
    else if t == 11
    then record attrs { backup = get_attr a.len 1 a.value attrs.backup }
    else if t == 12
    then record attrs { error = get_attr a.len 1 a.value attrs.error }
    else if t == 15
    then record attrs { index = get_attr a.len 4 a.value attrs.index }
    else if t == 18
    then record attrs { server_side = get_attr a.len 1 a.value attrs.server_side }
    else attrs

unfoldable pub parse_list : List Attribute → Attrs → Attrs
unfolding parse_attr
parse_list [] attrs = attrs
parse_list (a ∷ rest) attrs = parse_list rest (parse_attr a attrs)

-- `none` is a message whose attributes cannot be read.
unfoldable pub parse : Option (List Attribute) → Attrs → Attrs
unfolding parse_list
parse none attrs = attrs
parse (some msg) attrs = parse_list msg attrs
