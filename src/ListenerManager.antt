-- ===== src/ListenerManager.antt =====
-- lib/listener_manager.c: reference-counted listening sockets. The hash map is ELL's, through the
-- interface of `Ell`; what the kernel answers to the system calls of one operation is an argument,
-- and the descriptors that are open are part of the state.
pub mod Keys
pub mod Invariant
pub mod Count
pub mod Listen
pub mod Close
pub mod Destroy
pub mod Samples
mod Tests
use mptcpd.Common.{
  ℕ, ◌+◌, ◌-◌, Bool, true, false, ◌||◌, not, Option, none, some, ◌==◌, if◌then◌else◌, List, [], ◌∷◌,
  ℤ, pos, negsuc, neg, is_negative, Ordering, nat_abs,
}
pub use mptcpd.Common.{update}
use mptcpd.Ell.HashMap.{HashMap, is_eq}
use mptcpd.HashSockaddr.{memcmp}
use mptcpd.Sockaddr.{Sockaddr, af_inet, is_inet}
use Keys.{listener_keys}

-- The result of a system call, or its errno.
pub data Sys (A : Type 0) : Type 0 where
  done : A → Sys A
  failed : ℕ → Sys A

-- The answers of the kernel to the calls that one operation may make.
pub record Answers : Type 0 where
  pub socket : Sys ℕ
  pub bind : Sys (Unit {0})
  pub listen : Sys (Unit {0})
  pub getsockname : Sys Sockaddr

-- `struct lm_value`.
pub record LmValue : Type 0 where
  pub fd : ℕ
  pub refcnt : ℕ

abbrev pub einval : ℕ
einval = 22

-- `in6addr_any`.
abbrev any6 : List ℕ
any6 = 0 ∷ 0 ∷ 0 ∷ 0 ∷ 0 ∷ 0 ∷ 0 ∷ 0 ∷ 0 ∷ 0 ∷ 0 ∷ 0 ∷ 0 ∷ 0 ∷ 0 ∷ 0 ∷ []

-- INADDR_ANY and INADDR_BROADCAST, or `in6addr_any`.
unfoldable pub is_unbound_address : Sockaddr → Bool
is_unbound_address sa =
    if sa.family == af_inet
    then sa.addr4 == 0 || sa.addr4 == 0xffffffff
    else is_eq (memcmp sa.addr6 any6)

-- `open_listener`: the open descriptors after it, and the new one or -errno.
unfoldable pub open_listener : Answers → (ℕ → Bool) → (ℕ → Bool) × ℤ
open_listener ans open_fds = elim ans.socket [
  | failed error ↦ (open_fds, neg (pos error))
  | done fd ↦ elim ans.bind [
    | failed error ↦ (update (update open_fds fd true) fd false, neg (pos error))
    | done _ ↦ elim ans.listen [
      | failed error ↦ (update (update open_fds fd true) fd false, neg (pos error))
      | done _ ↦ (update open_fds fd true, pos fd)
    ]
  ]
]

-- The seed drawn by `mptcpd_lm_create`, and the hash map.
pub record ListenerMap : Type 1 where
  pub seed : ℕ
  pub hm : HashMap (listener_keys seed) ℕ

module _ (p : ListenerMap) where
  open p use {hm}

  -- `struct mptcpd_lm` without the seed, with the memory that its values point to, the next free
  -- address of that memory, and the open descriptors of the process.
  pub record Lm : Type 0 where
    pub map : hm.Map
    pub values : ℕ → LmValue
    pub fresh : ℕ
    pub open_fds : ℕ → Bool

  -- `mptcpd_lm_create`, in a process with the given open descriptors.
  unfoldable pub lm_create : (ℕ → Bool) → Lm
  lm_create open_fds = record {
    map = hm.new;
    values = λ a. record { fd = 0; refcnt = 0 };
    fresh = 1;
    open_fds = open_fds;
  }

  -- `close_listener`, for a value that is not NULL. The freed memory is not used again.
  unfoldable pub close_listener : Lm → ℕ → Lm
  close_listener lm at = record lm { open_fds = update lm.open_fds (lm.values at).fd false }

  -- The end of `make_listener`: map the bound address to a new value, zeroed by `l_new`, and fill
  -- the value in if it was mapped.
  unfoldable pub map_listener : Lm → Sockaddr → ℕ → Lm × ℤ
  unfolding close_listener
  map_listener lm sa fd =
      let at = lm.fresh in
      let made = record lm {
        values = update lm.values at (record { fd = 0; refcnt = 0 });
        fresh = lm.fresh + 1;
      } in
      let inserted = hm.insert lm.map sa at in
      if not inserted.1 then (close_listener (record made { map = inserted.0 }) at, negsuc 0) else (
        record made {
          map = inserted.0;
          values = update lm.values at (record { fd = fd; refcnt = 1 });
        },
        pos 0,
      )

  -- `make_listener`: the state, the address that the call leaves behind `sa`, and the result.
  unfoldable pub make_listener : Answers → Lm → Sockaddr → Lm × Sockaddr × ℤ
  make_listener ans lm sa =
      let opened = open_listener ans lm.open_fds in
      let lm' = record lm { open_fds = opened.0 } in
      elim opened.1 [
        | negsuc n ↦ (lm', sa, neg (negsuc n))
        | pos fd ↦ elim ans.getsockname [
          | failed error ↦ (record lm' { open_fds = update opened.0 fd false }, sa, pos error)
          | done name ↦ let r = map_listener lm' name fd in (r.0, name, r.1)
        ]
      ]

  -- `mptcpd_lm_listen` from the lookup on.
  unfoldable pub share_or_make : Answers → Lm → Sockaddr → Lm × Sockaddr × ℤ
  share_or_make ans lm sa = elim (hm.lookup lm.map sa) [
    | some at ↦
        let v = lm.values at in
        (record lm { values = update lm.values at (record v { refcnt = v.refcnt + 1 }) }, sa, pos 0)
    | none ↦ make_listener ans lm sa
  ]

  -- `mptcpd_lm_listen`. A NULL pointer is `none`; the address is passed in and out.
  unfoldable pub lm_listen : Answers → Option Lm → Option Sockaddr → Option Lm × Option Sockaddr × ℤ
  lm_listen ans none sa = (none, sa, pos einval)
  lm_listen ans (some lm) none = (some lm, none, pos einval)
  lm_listen ans (some lm) (some sa) =
      let r = share_or_make ans lm sa in
      if not (is_inet sa)
      then (some lm, some sa, pos einval)
      else if is_unbound_address sa
      then (some lm, some sa, pos einval)
      else (some r.0, some r.1, r.2)

  -- The rest of `mptcpd_lm_close` for a mapped address. The reference count of a mapped value is
  -- positive, so that the decrement is to 0 exactly from 1.
  unfoldable pub release : Lm → Sockaddr → ℕ → Lm
  unfolding close_listener
  release lm sa at =
      let v = lm.values at in
      let lm' = record lm { values = update lm.values at (record v { refcnt = v.refcnt - 1 }) } in
      let closed = close_listener lm' at in
      if v.refcnt == 1 then record closed { map = (hm.remove lm.map sa).0 } else lm'

  -- `mptcpd_lm_close`.
  unfoldable pub lm_close : Option Lm → Option Sockaddr → Option Lm × ℤ
  lm_close none sa = (none, pos einval)
  lm_close (some lm) none = (some lm, pos einval)
  lm_close (some lm) (some sa) = elim (hm.lookup lm.map sa) [
    | none ↦ (some lm, pos einval)
    | some at ↦ (some (release lm sa at), pos 0)
  ]

  -- `l_hashmap_destroy` with `close_listener`, over the entries of the map.
  unfoldable pub close_all : Lm → List (Sockaddr × ℕ) → Lm
  unfolding close_listener
  close_all lm [] = lm
  close_all lm ((sa, at) ∷ rest) = close_all (close_listener lm at) rest

  -- `mptcpd_lm_destroy`: the open descriptors after it.
  unfoldable pub lm_destroy : Lm → ℕ → Bool
  unfolding close_all
  lm_destroy lm = (close_all lm (hm.entries lm.map)).open_fds
