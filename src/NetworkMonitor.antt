-- ===== src/NetworkMonitor.antt =====
-- lib/network_monitor.c: the network interfaces and addresses of the host, from rtnetlink messages.
-- The queues are ELL's, through the interface of `Ell`, and hold pointers. An object in memory is
-- the value of a store at its address, and each kind of object has a store of its own.
pub mod Links
pub mod LinkList
pub mod LinkView
pub mod LinkSpec
pub mod LinkRefines
pub mod LinkHistory
pub mod Duplicate
pub mod Routes
pub mod Addresses
pub mod RouteLife
pub mod Tracking
mod Tests
use mptcpd.Common.{
  ℕ, ◌+◌, ◌/◌, ◌%◌, ◌-◌, Bool, true, false, ◌||◌, ◌&&◌, not, Option, none, some, List, [], ◌∷◌,
  ◌++◌, ◌==◌, ltb, leb, if◌then◌else◌, Ordering, update, take, ℤ, pos, negsuc, neg, is_negative,
  nat_abs,
}
use mptcpd.Ell.Queue.{Queue}
use mptcpd.Sockaddr.{Sockaddr}

-- The members of `struct mptcpd_interface` less the addresses.
pub record Link : Type 0 where
  pub family : ℕ
  pub kind : ℕ
  pub index : ℕ
  pub flags : ℕ
  pub name : List ℕ

-- An attribute of an rtnetlink message: its type, and its payload.
pub record Attr : Type 0 where
  pub kind : ℕ
  pub payload : List ℕ

-- `struct ifinfomsg` with the attributes that follow it.
pub record LinkMsg : Type 0 where
  pub family : ℕ
  pub kind : ℕ
  pub index : ℕ
  pub flags : ℕ
  pub attrs : List Attr

-- `struct mptcpd_nm_ops`: which members are set, and `struct nm_ops_info`, with the user data.
pub data Callback : Type 0 where
  on_new_interface on_update_interface on_delete_interface on_new_address on_delete_address :
      Callback

pub record OpsInfo : Type 0 where
  pub implements : Callback → Bool
  pub user_data : ℕ

-- A call of a member. It is passed a pointer to an interface, which is what it reads there.
pub data Event : Type 0 where
  new_interface update_interface delete_interface : Link → Event
  new_address delete_address : Link → Sockaddr → Event

abbrev pub callback : Event → Callback
callback (new_interface i) = on_new_interface
callback (update_interface i) = on_update_interface
callback (delete_interface i) = on_delete_interface
callback (new_address i sa) = on_new_address
callback (delete_address i sa) = on_delete_address

-- Who is called, and how.
abbrev pub Call : Type 0
Call = OpsInfo × Event

-- `struct nm_addr_info`. The timer is the milliseconds that it is set to. An object whose count is
-- 0 has been freed.
pub record AddrInfo : Type 0 where
  pub address : Sockaddr
  pub interface : Option ℕ
  pub index : ℕ
  pub count : ℕ
  pub timeout : Option ℕ
  pub attempts : ℕ

-- Bit `2 ^ n` of a mask of flags, for the weight `2 ^ n`.
abbrev pub has_bit : ℕ → ℕ → Bool
has_bit flags weight = flags / weight % 2 == 1

abbrev pub iff_up : ℕ
iff_up = 1

abbrev pub iff_loopback : ℕ
iff_loopback = 8

abbrev pub iff_running : ℕ
iff_running = 64

module _ (queue : Queue ℕ) where
  open queue use {Q, new, entries, push_tail}

  pub record Interface : Type 0 where
    pub link : Link
    pub addrs : Q

  -- `struct mptcpd_nm` without the handles of netlink, and the memory.
  pub record Nm : Type 0 where
    pub interfaces : Q
    pub ops : Q
    pub notify_flags : ℕ
    pub monitor_loopback : Bool
    pub iface_at : ℕ → Interface
    pub addr_at : ℕ → AddrInfo
    pub ops_at : ℕ → OpsInfo
    pub fresh : ℕ

  -- `mptcpd_nm_create` where netlink is there, before the first message; `iface_at`, `addr_at` and
  -- `ops_at` are what memory holds.
  unfoldable pub nm_create : ℕ → (ℕ → Interface) → (ℕ → AddrInfo) → (ℕ → OpsInfo) → Nm
  nm_create flags iface_at addr_at ops_at = record {
    interfaces = new;
    ops = new;
    notify_flags = flags;
    monitor_loopback = false;
    iface_at = iface_at;
    addr_at = addr_at;
    ops_at = ops_at;
    fresh = 0;
  }

  abbrev pub sets_none : (Callback → Bool) → Bool
  sets_none implements =
      not (implements on_new_interface)
      && not (implements on_update_interface)
      && not (implements on_delete_interface)
      && not (implements on_new_address)
      && not (implements on_delete_address)

  -- `mptcpd_nm_register_ops`. A NULL pointer is `none`.
  unfoldable pub register_ops : Option Nm → Option (Callback → Bool) → ℕ → Option Nm × Bool
  register_ops none implements user_data = (none, false)
  register_ops (some nm) none user_data = (some nm, false)
  register_ops (some nm) (some implements) user_data =
      let at = nm.fresh in
      let pushed = push_tail nm.ops at in
      let made = record nm {
        ops_at = update nm.ops_at at (record { implements = implements; user_data = user_data });
        fresh = nm.fresh + 1;
        ops = pushed.0;
      } in
      if sets_none implements then (some nm, false) else (some made, pushed.1)

  -- `mptcpd_nm_monitor_loopback`.
  unfoldable pub nm_monitor_loopback : Option Nm → Bool → Option Nm × Bool
  nm_monitor_loopback none enable = (none, false)
  nm_monitor_loopback (some nm) enable = (some (record nm { monitor_loopback = enable }), true)

  -- `l_queue_foreach` over the observers, with a function that calls an operation that is set.
  unfoldable pub notify_list : (ℕ → OpsInfo) → List ℕ → Event → List Call
  notify_list ops_at [] e = []
  notify_list ops_at (at ∷ rest) e =
      if (ops_at at).implements (callback e)
      then (ops_at at, e) ∷ notify_list ops_at rest e
      else notify_list ops_at rest e

  unfoldable pub notify : Nm → Event → List Call
  unfolding notify_list
  notify nm e = notify_list nm.ops_at (entries nm.ops) e

  -- `mptcpd_interface_match`, as the test of a queue.
  abbrev pub matches_index : Nm → ℕ → ℕ → Bool
  matches_index nm index at = (nm.iface_at at).link.index == index

  -- The links of the interfaces, in the order of the queue.
  unfoldable pub links_at : (ℕ → Interface) → List ℕ → List Link
  links_at iface_at [] = []
  links_at iface_at (at ∷ rest) = (iface_at at).link ∷ links_at iface_at rest

  -- What `mptcpd_nm_foreach_interface` passes to its callback, one call after the other.
  unfoldable pub nm_foreach_interface : Nm → List Link
  unfolding links_at
  nm_foreach_interface nm = links_at nm.iface_at (entries nm.interfaces)
