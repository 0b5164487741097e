-- ===== src/Events/SyncTests.antt =====
-- A run of the synchronisation of address IDs, and the theorem at it.
use mptcpd.Common.{ℕ, true, none, some, List, [], ◌∷◌, ◌≡◌, refl, arith}
use mptcpd.Ell.Assoc.{assoc, find, erase}
use mptcpd.Ell.Numbers.{number_set, member, discard, put, find_unused_min}
use mptcpd.Events.Sync.{Entry, dump_addrs_callback, sync, assigned, Kept, sync-get_id}
use mptcpd.HashSockaddr.{hash_sockaddr_compare, memcmp}
use mptcpd.IdManager.{Platform, Idm, hashmap_replace, put_id, idm_map_id, idm_get_id, idm_create}
use mptcpd.IdManager.Invariant.{Inv, idm_create-Inv}
use mptcpd.IdManager.Keys.{ip_keys}
use mptcpd.Sockaddr.{Sockaddr}

runs : Unit {0}
unfolding find erase member discard put find_unused_min hash_sockaddr_compare memcmp hashmap_replace
    put_id idm_map_id idm_get_id idm_create dump_addrs_callback sync assigned Kept
runs = tt

abbrev test : Platform
test = record {
  seed = 0xc0ffee;
  hm = assoc (ip_keys 0xc0ffee);
  us = number_set 1 255 (omega arith);
  have_replace = true;
}

-- 192.0.2.1, and 2001:db8::1 in short.
abbrev first : Sockaddr
first = record { family = 2; port = 0; addr4 = 0x010200c0; addr6 = [] }

abbrev second : Sockaddr
second = record { family = 10; port = 0; addr4 = 0; addr6 = 0x20 ∷ 1 ∷ [] }

abbrev reported : List Entry
reported = (first, 9) ∷ (second, 4) ∷ []

abbrev new_manager : Idm test
new_manager = idm_create test

reported-Kept : Kept test reported
unfolding runs
reported-Kept = (
  refl,
  omega arith,
  omega arith,
  (ground arith, tt),
  refl,
  (refl, omega arith, omega arith, tt, refl, tt),
)

second_id : (idm_get_id test (some (sync test new_manager reported)) (some second)).1 ≡ 4
unfolding runs
second_id = refl

sync-get_id_example :
    Inv test (sync test new_manager reported)
    × ((k : Sockaddr) (id : ℕ)
        → assigned test reported k ≡ some id
        → idm_get_id test (some (sync test new_manager reported)) (some k)
          ≡ (some (sync test new_manager reported), id))
    × ((k : Sockaddr)
        → assigned test reported k ≡ none
        → test.hm.lookup (sync test new_manager reported).map k ≡ test.hm.lookup new_manager.map k)
unfolding runs
sync-get_id_example =
    sync-get_id test reported new_manager (λ m k v. refl) (idm_create-Inv test) reported-Kept
      (refl, (refl, tt))
