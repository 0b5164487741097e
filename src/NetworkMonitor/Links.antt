-- ===== src/NetworkMonitor/Links.antt =====
-- lib/network_monitor.c: links, which come and go.
use mptcpd.Common.{
  ℕ, ◌+◌, ◌-◌, Bool, ◌||◌, ◌&&◌, not, Option, none, some, List, [], ◌∷◌, ◌==◌, ltb, if◌then◌else◌,
  Ordering, update, take, length,
}
use mptcpd.Ell.Queue.{Queue}
use mptcpd.NetworkMonitor.{
  Link, Attr, LinkMsg, Event, Call, AddrInfo, has_bit, iff_up, iff_loopback, iff_running, Interface,
  Nm, notify, matches_index,
}

abbrev pub ifla_ifname : ℕ
ifla_ifname = 3

abbrev pub if_namesize : ℕ
if_namesize = 16

-- The characters of a C string before its end.
unfoldable pub cstring : List ℕ → List ℕ
cstring [] = []
cstring (c ∷ rest) = if c == 0 then [] else c ∷ cstring rest

-- The loop over the attributes: a name whose payload fits is copied by `l_strlcpy`.
unfoldable pub link_name : List Attr → List ℕ → List ℕ
unfolding cstring
link_name [] name = name
link_name (a ∷ rest) name = link_name rest (
    if a.kind == ifla_ifname && ltb (length a.payload) if_namesize
    then take (if_namesize - 1) (cstring a.payload)
    else name)

unfoldable pub link_of : LinkMsg → Link
unfolding link_name
link_of m = record {
  family = m.family;
  kind = m.kind;
  index = m.index;
  flags = m.flags;
  name = link_name m.attrs [];
}

-- `mptcpd_addr_put`.
unfoldable pub addr_put : (ℕ → AddrInfo) → ℕ → ℕ → AddrInfo
addr_put addr_at at =
    let ai = addr_at at in
    let ai' = record ai { count = ai.count - 1 } in
    update addr_at at (if ai.count == 1 then record ai' { timeout = none } else ai')

-- `mptcpd_interface_destroy`: every address is put, and the interface freed.
unfoldable pub put_all : (ℕ → AddrInfo) → List ℕ → ℕ → AddrInfo
unfolding addr_put
put_all addr_at [] = addr_at
put_all addr_at (at ∷ rest) = put_all (addr_put addr_at at) rest

-- The types of messages: RTM_NEWLINK, RTM_DELLINK and any other.
pub data LinkType : Type 0 where
  newlink dellink unexpected : LinkType

module _ (queue : Queue ℕ) where
  open queue use {Q, new, entries, insert, find, remove_if}

  -- `mptcpd_interface_create`.
  unfoldable pub interface_create : LinkMsg → Interface queue
  unfolding link_of
  interface_create m = record { link = link_of m; addrs = new }

  -- `mptcpd_interface_compare`.
  unfoldable pub interface_compare : (ℕ → Interface queue) → ℕ → ℕ → Ordering
  interface_compare iface_at a b =
      if ltb (iface_at b).link.index (iface_at a).link.index then Ordering.gt else Ordering.lt

  unfoldable pub is_interface_ready : Nm queue → LinkMsg → Bool
  is_interface_ready nm m =
      (has_bit m.flags iff_up && has_bit m.flags iff_running)
      && (not (has_bit m.flags iff_loopback) || nm.monitor_loopback)

  -- `insert_link`: the state, and the new interface.
  unfoldable pub insert_link : LinkMsg → Nm queue → Nm queue × Option ℕ
  unfolding interface_create interface_compare
  insert_link m nm =
      let at = nm.fresh in
      let iface_at = update nm.iface_at at (interface_create m) in
      let inserted = insert nm.interfaces at (interface_compare iface_at) in
      let nm' = record nm { interfaces = inserted.0; iface_at = iface_at; fresh = nm.fresh + 1 } in
      (nm', if inserted.1 then some at else none)

  unfoldable pub update_link : LinkMsg → Nm queue → Nm queue × List Call
  unfolding insert_link
  update_link m nm =
      let made = insert_link m nm in
      elim (find nm.interfaces (matches_index queue nm m.index)) [
        | none ↦ elim made.1 [
          | none ↦ (made.0, [])
          | some at ↦ (made.0, notify queue made.0 (Event.new_interface (made.0.iface_at at).link))
        ]
        | some at ↦
            let i = nm.iface_at at in
            let link = record i.link { flags = m.flags } in
            let nm' = record nm { iface_at = update nm.iface_at at (record i { link = link }) } in
            (nm', notify queue nm' (Event.update_interface link))
      ]

  -- `remove_link`, for the index of the message.
  unfoldable pub remove_link : ℕ → Nm queue → Nm queue × List Call
  unfolding put_all
  remove_link index nm =
      let removed = remove_if nm.interfaces (matches_index queue nm index) in
      let nm' = record nm { interfaces = removed.0 } in
      elim removed.1 [
        | none ↦ (nm', [])
        | some at ↦ (
          record nm' { addr_at = put_all nm.addr_at (entries (nm.iface_at at).addrs) },
          notify queue nm' (Event.delete_interface (nm.iface_at at).link),
        )
      ]

  unfoldable pub handle_link : LinkType → LinkMsg → Nm queue → Nm queue × List Call
  unfolding is_interface_ready update_link remove_link
  handle_link newlink m nm =
      if is_interface_ready nm m then update_link m nm else remove_link m.index nm
  handle_link dellink m nm = remove_link m.index nm
  handle_link unexpected m nm = (nm, [])

  -- `handle_rtm_getlink`: an answer to the request for all links, with its error.
  unfoldable pub handle_rtm_getlink : ℕ → LinkMsg → Nm queue → Nm queue
  unfolding is_interface_ready insert_link
  handle_rtm_getlink error m nm =
      if not (error == 0) then nm else if is_interface_ready nm m then (insert_link m nm).0 else nm
