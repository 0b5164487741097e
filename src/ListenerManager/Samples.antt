-- ===== src/ListenerManager/Samples.antt =====
-- A listener manager with no listener, the answers of a kernel to its first listener, and what is
-- then its state.
use mptcpd.Common.{ℕ, Bool, true, ◌||◌, some, ◌==◌, [], ◌∷◌, pos, ◌≡◌, refl, arith}
use mptcpd.Ell.Assoc.{assoc, find, erase}
use mptcpd.HashSockaddr.{memcmp}
use mptcpd.HashSockaddr as Ip
use mptcpd.ListenerManager.Count.{count}
use mptcpd.ListenerManager.Invariant.{Inv, Honest}
use mptcpd.ListenerManager.Keys.{listener_keys, hash_sockaddr_compare}
use mptcpd.ListenerManager.{
  ListenerMap, Lm, Answers, done, update, open_listener, lm_create, map_listener, make_listener,
  share_or_make, lm_listen, is_unbound_address,
}
use mptcpd.Sockaddr.{Sockaddr}

abbrev pub test : ListenerMap
test = record { seed = 0xc0ffee; hm = assoc (listener_keys 0xc0ffee) }

-- 192.0.2.1, with the port left to the kernel, and with the port that it chooses.
abbrev pub any_port : Sockaddr
any_port = record { family = 2; port = 0; addr4 = 0x010200c0; addr6 = [] }

abbrev pub bound : Sockaddr
bound = record any_port { port = 0x3930 }

abbrev pub answers : Answers
answers = record { socket = done 5; bind = done tt; listen = done tt; getsockname = done bound }

abbrev pub std_fds : ℕ → Bool
std_fds fd = fd == 0 || fd == 1 || fd == 2

abbrev pub idle : Lm test
idle = record {
  map = [];
  values = λ a. record { fd = 0; refcnt = 0 };
  fresh = 1;
  open_fds = std_fds;
}

pub idle-Inv : Inv test idle
unfolding find count lm_create
idle-Inv = record {
  distinct = tt;
  below = λ a v h. cc;
  counted = λ a v h. cc;
  opened = λ a v h. cc;
  apart = λ a b v w h k e. cc;
}

pub honest : Honest test idle answers
unfolding find
honest = record {
  socket_errno = λ e h. cc;
  bind_errno = λ e h. cc;
  listen_errno = λ e h. cc;
  name_errno = λ e h. cc;
  new_fd = λ fd h. ground arith;
  new_name = λ name h. refl;
}

abbrev pub after : Lm test
after = record {
  map = (bound, 1) ∷ [];
  values = update (λ a. record { fd = 0; refcnt = 0 }) 1 (record { fd = 5; refcnt = 1 });
  fresh = 2;
  open_fds = update std_fds 5 true;
}

pub listened : lm_listen test answers (some idle) (some any_port) ≡ (some after, some bound, pos 0)
unfolding find erase memcmp Ip.hash_sockaddr_compare hash_sockaddr_compare open_listener
    map_listener make_listener share_or_make lm_listen is_unbound_address
listened = refl
