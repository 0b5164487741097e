-- ===== src/NetworkMonitor/RouteLife.antt =====
-- The life of an address object that waits for a default route: who refers to it, and when it ends.
use mptcpd.Common.{
  ℕ, ◌+◌, ◌-◌, ◌*◌, ◌≤◌, Bool, true, false, ◌||◌, ◌&&◌, Option, if◌then◌else◌, ◌≡◌, arith,
}
use mptcpd.NetworkMonitor.{AddrInfo}
use mptcpd.NetworkMonitor.Addresses.{addr_create}
use mptcpd.NetworkMonitor.Routes.{
  RouteReply, is_default, found_route, schedule_route_check, check_default_route,
  handle_rtm_timeout, put_one,
}
use mptcpd.Sockaddr.{Sockaddr}

-- The object, and what will still touch it: the list of its interface, a reply that is awaited, and
-- a timer that runs. `retries` counts the timers that have fired.
pub record Life : Type 0 where
  pub ai : AddrInfo
  pub listed : Bool
  pub pending : Bool
  pub ticking : Bool
  pub retries : ℕ

abbrev pub one_if : Bool → ℕ
one_if true = 1
one_if false = 0

-- The object after `handle_rtm_getroute`.
abbrev pub replied : Bool → RouteReply → Option ℕ → AddrInfo → AddrInfo
replied armed reply interface ai =
    if is_default reply ai then found_route interface ai else (schedule_route_check armed ai).0

-- What can happen to it: the reply comes, after which a timer runs if one was set, the timer fires, or the list drops it, as the interface
-- or the address goes.
pub data Step : Life → Life → Type 0 where
  reply :
      (s : Life) (armed : Bool) (r : RouteReply) (interface : Option ℕ)
      → s.pending ≡ true
      → Step s (record s {
        ai = replied armed r interface s.ai;
        pending = false;
        ticking = if is_default r s.ai then false else (schedule_route_check armed s.ai).1;
      })
  fire :
      (s : Life) (sent : Bool)
      → s.ticking ≡ true
      → Step s (record s {
        ai = handle_rtm_timeout sent s.ai;
        pending = sent;
        ticking = false;
        retries = s.retries + 1;
      })
  drop : (s : Life) → s.listed ≡ true → Step s (record s { ai = put_one s.ai; listed = false })

-- The start, in `update_addr`: the object is in the list, and a request is sent.
unfoldable pub start : Sockaddr → Option ℕ → ℕ → Bool → Life
start sa interface index sent = record {
  ai = check_default_route sent (record (addr_create sa) { interface = interface; index = index });
  listed = true;
  pending = sent;
  ticking = false;
  retries = 0;
}

pub data Reach (s : Life) : Life → Type 0 where
  here : Reach s s
  next : {t u : Life} → Reach s t → Step t u → Reach s u

-- The count is the number of those who refer to the object, and one more for each retry.
pub record Counted (s : Life) : Type 0 where
  pub count : s.ai.count ≡ one_if s.listed + one_if (s.pending || s.ticking) + s.retries
  pub one_wait : (s.pending && s.ticking) ≡ false
  pub timer : s.ticking ≡ true → s.ai.attempts ≤ 4
  pub tries : s.retries + one_if s.ticking ≤ s.ai.attempts
  pub bounded : s.retries + one_if s.ticking ≤ 4

start-Counted :
    (sa : Sockaddr) (interface : Option ℕ) (index : ℕ) (sent : Bool)
    → Counted (start sa interface index sent)
unfolding start check_default_route addr_create
start-Counted sa interface index sent = ground arith

Step-Counted : {s t : Life} → Step s t → Counted s → Counted t
unfolding found_route schedule_route_check handle_rtm_timeout check_default_route
Step-Counted (reply s armed r interface h) c = ground arith
Step-Counted (fire s sent h) c = ground arith
Step-Counted (drop s h) c = ground arith

Reach-Counted : {s t : Life} → Counted s → Reach s t → Counted t
Reach-Counted c here = c
Reach-Counted c (next r st) = Step-Counted st (Reach-Counted c r)

fires_grow : {s t : Life} → Reach s t → s.retries ≤ t.retries
fires_grow here = omega arith
fires_grow (next r st) = fires_grow_step st (fires_grow r)
  where
    fires_grow_step : {n : ℕ} {t u : Life} → Step t u → n ≤ t.retries → n ≤ u.retries
    fires_grow_step (reply s armed p interface h) le = le
    fires_grow_step (fire s sent h) le = omega arith
    fires_grow_step (drop s h) le = le

-- The steps of a history.
abbrev pub steps : {s t : Life} → Reach s t → ℕ
steps here = 0
steps (next r st) = steps r + 1

-- How many steps are left.
abbrev potential : Life → ℕ
potential s =
    one_if s.listed
    + (if s.pending then 1 + 2 * (4 - s.retries) else 0)
    + (if s.ticking then 2 * (4 - s.retries) else 0)

Step-potential : {s t : Life} → Step s t → Counted s → potential t + 1 ≤ potential s
Step-potential (reply s armed r interface h) c = ground arith
Step-potential (fire s sent h) c = ground arith
Step-potential (drop s h) c = ground arith

steps-potential : {s t : Life} (r : Reach s t) → Counted s → steps r + potential t ≤ potential s
steps-potential here c = omega arith
steps-potential (next r st) c =
    omega (arith, steps-potential r c, Step-potential st (Reach-Counted c r))

module _ (sa : Sockaddr) (interface : Option ℕ) (index : ℕ) (sent : Bool) where
  -- The count of an address object is one for the list that holds it, one while a reply is awaited or
  -- a timer runs, never both of these, and one for each timer that has fired: it is alive as long as
  -- anything refers to it, and is freed with the last reference only if no timer has fired.
  pub start-counts :
      {s : Life}
      → Reach (start sa interface index sent) s
      → (s.ai.count ≡ one_if s.listed + one_if (s.pending || s.ticking) + s.retries)
        × ((s.pending && s.ticking) ≡ false)
  start-counts r =
      let c = Reach-Counted (start-Counted sa interface index sent) r in (c.count, c.one_wait)

  -- Each timer that fires takes a reference that is never given back: from then on the object is not
  -- freed, whatever comes, the removal of its address included.
  pub start-leaks :
      {s t : Life}
      → Reach (start sa interface index sent) s
      → 1 ≤ s.retries
      → Reach s t
      → 1 ≤ t.ai.count
  start-leaks r once q =
      let c = Reach-Counted (Reach-Counted (start-Counted sa interface index sent) r) q in
      ground (arith, fires_grow q)

  -- The wait for a route ends: whatever the replies, at most four timers fire, and a history has at
  -- most ten steps.
  pub start-ends :
      {s : Life} (r : Reach (start sa interface index sent) s) → (s.retries ≤ 4) × (steps r ≤ 10)
  unfolding start
  start-ends r =
      let i = start-Counted sa interface index sent in
      let c = Reach-Counted i r in (ground arith, ground (arith, steps-potential r i))
