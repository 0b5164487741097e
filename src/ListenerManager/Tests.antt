-- ===== src/ListenerManager/Tests.antt =====
-- Runs of the listener manager, and the theorems at inputs that meet their hypotheses.
use mptcpd.Common.{◌↔◌, ℕ, Bool, true, false, ◌||◌, some, ◌==◌, [], pos, ◌≡◌, ◌≢◌, refl}
use mptcpd.Ell.Assoc.{assoc, find, erase}
use mptcpd.HashSockaddr.{memcmp}
use mptcpd.HashSockaddr as Ip
use mptcpd.ListenerManager.Close.{Closed, lm_close-Closed}
use mptcpd.ListenerManager.Destroy.{lm_destroy_iff}
use mptcpd.ListenerManager.Count.{count, Listened}
use mptcpd.ListenerManager.Listen.{lm_listen-Listened}
use mptcpd.ListenerManager.Invariant.{Inv}
use mptcpd.ListenerManager.Keys.{listener_keys, hash_sockaddr_compare}
use mptcpd.ListenerManager.Samples.{
  test, any_port, bound, answers, std_fds, idle, idle-Inv, honest, after,
}
use mptcpd.ListenerManager.{
  ListenerMap, Lm, open_listener, lm_create, close_listener, map_listener, make_listener,
  share_or_make, lm_listen, release, lm_close, close_all, lm_destroy, is_unbound_address,
}
use mptcpd.Sockaddr.{Sockaddr}

runs : Unit {0}
unfolding find erase memcmp Ip.hash_sockaddr_compare hash_sockaddr_compare open_listener
    close_listener map_listener make_listener share_or_make lm_listen release lm_close
    is_unbound_address lm_create count close_all lm_destroy
runs = tt

listening : (lm_listen test answers (some idle) (some any_port)).2 ≡ pos 0
unfolding runs
listening = refl

lm_listen-Listened_example : Listened test idle after bound (pos 0)
unfolding runs
lm_listen-Listened_example =
    lm_listen-Listened test idle after answers any_port bound (pos 0) honest (λ name h. refl)
      idle-Inv refl

after-Inv : Inv test after
after-Inv = lm_listen-Listened_example.valid

lm_close-Closed_example : Closed test after (release test after bound 1) bound (pos 0)
unfolding runs
lm_close-Closed_example =
    lm_close-Closed test after (release test after bound 1) bound (pos 0) after-Inv refl

not_taken : (b : Bool) → false ≡ true → b ≡ false
not_taken b h = cc

-- A hash map that takes no entry.
abbrev full : ListenerMap
full = record {
  seed = 0;
  hm =
      let m = assoc (listener_keys 0) in
      record m {
        insert = λ m k v. (m, false);
        lookup-insert = λ m k j v h. refl;
        insert-Distinct = λ m k v h d. d;
        isempty-insert = λ m k v h. not_taken _ h;
      };
}

abbrev opened : Lm full
opened = record {
  map = [];
  values = λ a. record { fd = 0; refcnt = 0 };
  fresh = 1;
  open_fds = λ fd. fd == 5 || std_fds fd;
}

lm_destroy_iff_example : (lm_destroy test after 5 ≡ true) ↔ (
    (after.open_fds 5 ≡ true)
    × ((a : Sockaddr) (at : ℕ) → test.hm.lookup after.map a ≡ some at → (after.values at).fd ≢ 5))
lm_destroy_iff_example = lm_destroy_iff test after 5 after-Inv

-- The descriptor of the listener is closed.
destroyed : lm_destroy test after 5 ≡ false
unfolding runs
destroyed = refl
