-- ===== src/IdManager/Tests.antt =====
-- Runs of the ID manager, and the theorems at inputs that meet their hypotheses.
use mptcpd.Common.{ℕ, ◌≤◌, true, false, none, some, ◌≡◌, ◌≢◌, ◌↔◌, refl, arith, [], ◌∷◌}
use mptcpd.Ell.Assoc.{assoc, find, erase}
use mptcpd.Ell.Numbers.{number_set, member, discard, put, find_unused_min}
use mptcpd.HashSockaddr.{hash_sockaddr_compare, memcmp}
use mptcpd.IdManager.{
  Platform, Idm, hashmap_replace, put_id, new_id, idm_map_id, idm_get_id, idm_remove_id, idm_create,
}
use mptcpd.IdManager.Get.{Got, get_id-Got, get_id-succeeds_iff}
use mptcpd.IdManager.Invariant.{Inv}
use mptcpd.IdManager.Keys.{ip_keys}
use mptcpd.IdManager.Leak.{Leaked, map_id-Leaked}
use mptcpd.IdManager.Remove.{without, remove_id-get_id}
use mptcpd.IdManager.Run.{get, remove, sync, step, run, Holds, Orderly, run-create-Inv}
use mptcpd.Sockaddr.{Sockaddr}

runs : Unit {0}
unfolding find erase member discard put find_unused_min hash_sockaddr_compare memcmp hashmap_replace
    put_id new_id idm_map_id idm_get_id idm_remove_id idm_create step run without Orderly
runs = tt

-- A build without `l_hashmap_replace`.
abbrev test : Platform
test = record {
  seed = 0xc0ffee;
  hm = assoc (ip_keys 0xc0ffee);
  us = number_set 1 255 (omega arith);
  have_replace = false;
}

-- 192.0.2.1 and 192.0.2.2, with a port, and 2001:db8::1.
abbrev first : Sockaddr
first = record { family = 2; port = 0x1234; addr4 = 0x010200c0; addr6 = [] }

abbrev first_other_port : Sockaddr
first_other_port = record first { port = 0x1235 }

abbrev second : Sockaddr
second = record { family = 2; port = 0; addr4 = 0x020200c0; addr6 = [] }

abbrev third : Sockaddr
third = record {
  family = 10;
  port = 0;
  addr4 = 0;
  addr6 = 0x20 ∷ 1 ∷ 0xd ∷ 0xb8 ∷ 0 ∷ 0 ∷ 0 ∷ 0 ∷ 0 ∷ 0 ∷ 0 ∷ 0 ∷ 0 ∷ 0 ∷ 0 ∷ 1 ∷ [];
}

abbrev busy : Idm test
busy = record { ids = 1 ∷ []; map = (first, 1) ∷ [] }

abbrev busier : Idm test
busier = record { ids = 2 ∷ 1 ∷ []; map = (second, 2) ∷ (first, 1) ∷ [] }

busy-Inv : Inv test busy
unfolding runs
busy-Inv = record {
  distinct = (refl, tt);
  used = λ a id h. ground arith;
  unique = λ a b id h k. ground arith;
}

get_new : idm_get_id test (some busy) (some second) ≡ (some busier, 2)
unfolding runs
get_new = refl

get_known : idm_get_id test (some busier) (some first_other_port) ≡ (some busier, 1)
unfolding runs
get_known = refl

get_twice : (idm_get_id test (idm_get_id test (some busier) (some third)).0 (some third)).1 ≡ 3
unfolding runs
get_twice = refl

remapped :
    idm_map_id test (some busy) (some first) 7
    ≡ (some (record { ids = 7 ∷ 1 ∷ []; map = (first, 7) ∷ [] }), true)
unfolding runs
remapped = refl

get_id-Got_example : Got test busy busier second 2
get_id-Got_example = get_id-Got test busy busier second 2 busy-Inv get_new (omega arith)

get_id-succeeds_iff_example :
    ((idm_get_id test (some busy) (some second)).1 ≢ 0)
    ↔ ((n : ℕ) × (1 ≤ n) × (n ≤ 255) × (test.us.contains busy.ids n ≡ false))
unfolding runs
get_id-succeeds_iff_example = get_id-succeeds_iff test busy second refl refl refl

remove_id-get_id_example :
    (idm_remove_id test (some busier) (some second) ≡ (some (without test busier second), 2))
    × ((j : Sockaddr)
        → test.hm.lookup (without test busier second).map j ≡ test.hm.lookup busy.map j)
    × ((n : ℕ) → test.us.contains (without test busier second).ids n ≡ test.us.contains busy.ids n)
unfolding runs
remove_id-get_id_example =
    remove_id-get_id test busy busier second 2 busy-Inv refl get_new (omega arith)

orderly :
    Orderly test
      (some (idm_create test))
      (get (some first) ∷ sync (some first) 7 ∷ remove (some third) ∷ get none ∷ [])
unfolding runs
orderly = (tt, (refl, (tt, (tt, tt))))

run-create-Inv_example : Holds test (Inv test) (
    run test
      (some (idm_create test))
      (get (some first) ∷ sync (some first) 7 ∷ remove (some third) ∷ get none ∷ []))
run-create-Inv_example =
    run-create-Inv test
      (get (some first) ∷ sync (some first) 7 ∷ remove (some third) ∷ get none ∷ []) orderly

abbrev remapped_idm : Idm test
remapped_idm = record { ids = 7 ∷ 1 ∷ []; map = (first, 7) ∷ [] }

map_id-Leaked_example :
    Leaked test remapped_idm 1 × (test.hm.lookup remapped_idm.map first ≡ some 7)
unfolding runs
map_id-Leaked_example =
    map_id-Leaked test busy remapped_idm first 1 7 busy-Inv refl (omega arith) remapped

remapped-Inv : Inv test remapped_idm
unfolding runs
remapped-Inv = record {
  distinct = (refl, tt);
  used = λ a id h. ground arith;
  unique = λ a b id h k. ground arith;
}
