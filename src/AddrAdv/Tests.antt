-- ===== src/AddrAdv/Tests.antt =====
-- Runs of the address advertiser, and its theorems at inputs that meet their hypotheses.
use mptcpd.Common.{ℕ, true, none, some, List, [], ◌∷◌, pos, ◌≡◌, refl, arith}
use mptcpd.AddrAdv.{
  State, add_int, to_int, new_limits, update_limits, new_local_address, delete_local_address, init,
}
use mptcpd.AddrAdv.Subflows.{delete-new_local_address}
use mptcpd.Ell.Assoc.{assoc, find, erase}
use mptcpd.Ell.Numbers.{number_set, member, discard, put, find_unused_min}
use mptcpd.HashSockaddr.{hash_sockaddr_compare, memcmp}
use mptcpd.IdManager.{
  Idm, hashmap_replace, put_id, new_id, idm_map_id, idm_get_id, idm_remove_id, idm_create,
}
use mptcpd.IdManager as Ids
use mptcpd.IdManager.Invariant.{Inv}
use mptcpd.IdManager.Keys.{ip_keys}
use mptcpd.PathManager.{
  KpmCmdOps, Pm, Limit, pm_ready, call, kpm_set_limits, kpm_add_addr, kpm_remove_addr,
}
use mptcpd.Sockaddr.{Sockaddr}

runs : Unit {0}
unfolding find erase member discard put find_unused_min hash_sockaddr_compare memcmp hashmap_replace
    put_id new_id idm_map_id idm_get_id idm_remove_id idm_create pm_ready call kpm_set_limits
    kpm_add_addr kpm_remove_addr add_int to_int new_limits update_limits new_local_address
    delete_local_address init
runs = tt

abbrev platform : Ids.Platform
platform = record {
  seed = 1;
  hm = assoc (ip_keys 1);
  us = number_set 1 255 (omega arith);
  have_replace = true;
}

-- The limits and the addresses that the kernel was told, the last first.
abbrev Kernel : Type 0
Kernel = List (List Limit) × List ℕ

abbrev kernel : KpmCmdOps Kernel
kernel = record {
  add_addr = some (λ addr id flags index w. ((w.0, id ∷ w.1), pos 0));
  remove_addr = some (λ id w. (w, pos 0));
  get_addr = none;
  dump_addrs = none;
  flush_addrs = none;
  set_limits = some (λ limits len w. ((limits ∷ w.0, w.1), pos 0));
  get_limits = none;
  set_flags = none;
}

abbrev pm : Pm Kernel
pm = record { has_family = true; kcmd_ops = some kernel; cmd_ops = none }

abbrev Plugin : Type 0
Plugin = State platform Kernel pm 2

abbrev fresh : Idm platform
fresh = record { ids = []; map = [] }

abbrev started : Plugin
started = record {
  limits = record { subflows = 2; add_addrs = 2 };
  idm = fresh;
  world = (((1, 2) ∷ (0, 2) ∷ []) ∷ [], []);
}

starts : init platform Kernel pm 2 fresh ([], []) ≡ started
unfolding runs
starts = refl

-- 192.0.2.1.
abbrev here : Sockaddr
here = record { family = 2; port = 0; addr4 = 0x010200c0; addr6 = [] }

abbrev mapped : Idm platform
mapped = record { ids = 1 ∷ []; map = (here, 1) ∷ [] }

advertised : new_local_address platform Kernel pm 2 (pos 3) here started ≡ record {
  limits = record { subflows = 3; add_addrs = 3 };
  idm = mapped;
  world = (((1, 3) ∷ (0, 3) ∷ []) ∷ ((1, 2) ∷ (0, 2) ∷ []) ∷ [], 1 ∷ []);
}
unfolding runs
advertised = refl

fresh-Inv : Inv platform fresh
unfolding runs
fresh-Inv = record {
  distinct = tt;
  used = λ a id h. ground arith;
  unique = λ a b id h k. ground arith;
}

got : idm_get_id platform (some fresh) (some here) ≡ (some mapped, 1)
unfolding runs
got = refl

delete-new_local_address_example :
    let s' =
      delete_local_address platform Kernel pm 2 here
        (new_local_address platform Kernel pm 2 (pos 3) here started) in
    (s'.limits.subflows ≡ 2)
    × ((j : Sockaddr) → platform.hm.lookup s'.idm.map j ≡ platform.hm.lookup fresh.map j)
    × ((n : ℕ) → platform.us.contains s'.idm.ids n ≡ platform.us.contains fresh.ids n)
unfolding find
delete-new_local_address_example =
    delete-new_local_address platform Kernel pm 2 (pos 3) here started mapped 1 fresh-Inv refl got
      (omega arith) (omega arith)
