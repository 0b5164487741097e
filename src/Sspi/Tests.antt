-- ===== src/Sspi/Tests.antt =====
-- Runs of the plugin, and the theorems at inputs that meet their hypotheses.
use mptcpd.Common.{ℕ, true, false, none, some, List, [], ◌∷◌, pos, ◌≡◌, ◌≢◌, refl, arith}
use mptcpd.Ell.Queue.{Queue, list_queue, insert_entry, find_entry, drop_entry}
use mptcpd.Ell.Removal.{list_removal, scan}
use mptcpd.HashSockaddr.{memcmp}
use mptcpd.NetworkMonitor.{Nm}
use mptcpd.PathManager.{
  PmCmdOps, Pm, pm_ready, call, do_pm_add_addr, pm_add_addr, pm_remove_subflow,
}
use mptcpd.Plugin.Calls.{Event, new_connection, connection_closed, new_subflow, subflow_closed}
use mptcpd.Sockaddr.{Sockaddr, sockaddr_copy}
use mptcpd.Sspi.{
  Sspi, init, sockaddr_match, get_index, get_index_all, addr_to_index, info_of_index,
  interface_info_lookup, send_addr_all, send_addrs_all, connect, join, leave, remove_token, close,
  handle,
}
use mptcpd.Sspi.History.{Single, Opens, Orderly, run, run-Single, connection_closed_forgets}
use mptcpd.Sspi.Infos.{times, times_at, has_index, Apart}
use mptcpd.Sspi.Lookup.{Inv, tokens}
use mptcpd.Sspi.Refines.{Refines, handle-Refines}
use mptcpd.Sspi.Where.{where_is}

runs : Unit {0}
unfolding find_entry insert_entry drop_entry scan memcmp pm_ready call do_pm_add_addr pm_add_addr
    pm_remove_subflow sockaddr_copy init sockaddr_match get_index get_index_all addr_to_index
    info_of_index interface_info_lookup send_addr_all send_addrs_all connect join leave remove_token
    close handle Opens Orderly run times times_at has_index Apart tokens
runs = tt

abbrev q : Queue ℕ
q = list_queue ℕ

-- 192.0.2.1 and 198.51.100.1.
abbrev here : Sockaddr
here = record { family = 2; port = 0; addr4 = 0x010200c0; addr6 = [] }

abbrev there : Sockaddr
there = record here { addr4 = 0x016433c6 }

-- The network monitor knows one interface, of index 2, with the first address.
abbrev nm : Nm q
nm = record {
  interfaces = 1 ∷ [];
  ops = [];
  notify_flags = 0;
  monitor_loopback = false;
  iface_at = λ at. record {
    link = record { family = 0; kind = 1; index = 2; flags = 65; name = [] };
    addrs = 3 ∷ [];
  };
  addr_at = λ at. record {
    address = here;
    interface = some 1;
    index = 2;
    count = 1;
    timeout = none;
    attempts = 0;
  };
  ops_at = λ at. record { implements = λ c. false; user_data = 0 };
  fresh = 4;
}

-- A kernel that keeps the tokens of the subflows that it is told to close, and of the addresses.
abbrev kernel : PmCmdOps (List ℕ)
kernel = record {
  add_addr = some (λ addr id token listener w. (token ∷ w, pos 0));
  remove_addr = none;
  add_subflow = none;
  set_backup = none;
  remove_subflow = some (λ token laddr raddr w. (token ∷ w, pos 0));
}

abbrev pm : Pm (List ℕ)
pm = record { has_family = true; kcmd_ops = none; cmd_ops = some kernel }

abbrev step : Event → Sspi q × List ℕ → Sspi q × List ℕ
step e s = handle q list_removal (List ℕ) pm nm e s.0 s.1

abbrev empty : Sspi q
empty = init q (λ a. record { index = 0; tokens = [] })

abbrev started : Sspi q × List ℕ
started = step (new_connection 7 here there false) (empty, [])

-- Two connections with a subflow on the interface.
abbrev shared : Sspi q × List ℕ
shared = step (new_connection 8 here there false) started

second_subflow_is_closed : (step (new_subflow 7 here there false) shared).1 ≡ 7 ∷ []
unfolding runs
second_subflow_is_closed = refl

nothing_is_announced : shared.1 ≡ []
unfolding runs
nothing_is_announced = refl

shared-Inv : Inv q shared.0
unfolding runs
shared-Inv = record { below = ground arith; apart = ground arith }

handle-Refines_example :
    Refines q list_removal
      (List ℕ)
      pm
      nm
      (where_is q nm)
      shared.0
      []
      (handle q list_removal (List ℕ) pm nm (new_subflow 7 here there false) shared.0 [])
      (new_subflow 7 here there false)
handle-Refines_example =
    handle-Refines q list_removal (List ℕ) pm nm (new_subflow 7 here there false) shared.0 []
      (λ l a compare. refl) shared-Inv

abbrev history : List (Nm q × Event)
history =
    (nm, new_connection 7 here there false)
    ∷ (nm, new_subflow 7 here there false)
    ∷ (nm, new_connection 8 here there true)
    ∷ (nm, subflow_closed 7 here there false)
    ∷ (nm, connection_closed 8)
    ∷ []

empty-Inv : Inv q empty
unfolding runs
empty-Inv = record { below = tt; apart = tt }

empty-Single : Single q (tokens q empty)
unfolding runs
empty-Single i token = omega arith

orderly : Orderly q list_removal (List ℕ) pm history empty []
unfolding runs
orderly = (λ i. refl, (ground arith, (λ i. ground arith, (tt, (tt, tt)))))

run-Single_example :
    Inv q (run q list_removal (List ℕ) pm history empty []).0
    × Single q (tokens q (run q list_removal (List ℕ) pm history empty []).0)
run-Single_example =
    run-Single q list_removal (List ℕ) pm history empty [] (λ l a compare. refl) empty-Inv
      empty-Single orderly

here_index : addr_to_index q nm here ≡ some 2
unfolding runs
here_index = refl

seven_there : tokens q shared.0 2 7 ≢ 0
unfolding runs
seven_there = ground arith

connection_closed_forgets_example :
    let closed = handle q list_removal (List ℕ) pm nm (connection_closed 7) shared.0 [] in
    let again = handle q list_removal (List ℕ) pm nm (new_subflow 8 here there false) closed.0 [] in
    (tokens q closed.0 2 8 ≡ 0) × (tokens q again.0 2 8 ≡ 1) × (again.1 ≡ [])
connection_closed_forgets_example =
    connection_closed_forgets q list_removal (List ℕ) pm nm shared.0 [] 2 7 8 here there false
      (λ l a compare. refl) shared-Inv here_index seven_there
