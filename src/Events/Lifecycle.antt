-- ===== src/Events/Lifecycle.antt =====
-- src/path_manager.c: the path manager from the appearance of the generic netlink family to its
-- disappearance, and what it tells those that registered for it.
use mptcpd.Common.{
  ℕ, ◌||◌, Bool, true, false, not, Option, none, some, List, [], ◌∷◌, ◌++◌, ◌==◌, if◌then◌else◌, ℤ,
  pos, ◌≡◌, refl, ap, ◌∙◌, All,
}

-- `struct mptcpd_pm_ops` with its data: whether the two callbacks are there.
pub record PmOps : Type 0 where
  pub ready : Bool
  pub not_ready : Bool
  pub user_data : ℕ

-- A call of one of the two callbacks, with the data.
pub data Notice : Type 0 where
  is_ready : ℕ → Notice
  is_not_ready : ℕ → Notice

-- What changes of `struct mptcpd_pm`: whether `family` is set, the ID of the registration for events,
-- and `event_ops`. Besides, whether the answer to the dump of the addresses is awaited.
pub record Life : Type 0 where
  pub family : Bool
  pub id : ℕ
  pub event_ops : List PmOps
  pub dumping : Bool

-- `mptcpd_pm_register_ops`, of operations that are not NULL; `pushed` is what `l_queue_push_tail`
-- returns.
unfoldable pub pm_register_ops : Bool → PmOps → Life → Bool × Life
pm_register_ops pushed ops pm =
    if not (ops.ready || ops.not_ready)
    then (false, pm)
    else if pushed
    then (true, record pm { event_ops = pm.event_ops ++ ops ∷ [] })
    else (false, pm)

unfoldable pub notify_pm_ready : PmOps → List Notice
notify_pm_ready ops = if ops.ready then is_ready ops.user_data ∷ [] else []

unfoldable pub notify_pm_not_ready : PmOps → List Notice
notify_pm_not_ready ops = if ops.not_ready then is_not_ready ops.user_data ∷ [] else []

-- `l_queue_foreach` over `event_ops`.
unfoldable pub notify_all : (PmOps → List Notice) → List PmOps → List Notice
notify_all f [] = []
notify_all f (ops ∷ rest) = f ops ++ notify_all f rest

-- `complete_pm_init`, where `loaded` and `id` are the results of `mptcpd_plugin_load` and of the
-- registration for events; none where the program exits.
unfoldable pub complete_pm_init : Bool → ℕ → Life → Option (Life × List Notice)
complete_pm_init loaded id pm =
    if not loaded
    then none
    else some (record pm { id = id; dumping = false }, notify_all notify_pm_ready pm.event_ops)

abbrev pub is_zero : ℤ → Bool
is_zero (pos n) = n == 0
is_zero _ = false

-- `family_appeared` on an upstream kernel, where `info` says whether the family is there, and `dump`
-- is the result of the command for the addresses.
unfoldable pub family_appeared : Bool → ℤ → Life → Life
family_appeared info dump pm =
    if not info
    then pm
    else if pm.family
    then pm
    else record pm { family = true; dumping = is_zero dump }

unfoldable pub family_vanished : Life → Life × List Notice
family_vanished pm =
    (record pm { family = false; id = 0 }, notify_all notify_pm_not_ready pm.event_ops)

-- What happens to the path manager: a notice or an answer about the family, with the result of the
-- dump; the answer to the dump, with the results of its completion; the end of the family.
pub data Event : Type 0 where
  appeared : Bool → ℤ → Event
  answered : Bool → ℕ → Event
  vanished : Event

-- An answer comes only if one is awaited, and the family ends only if it is there.
unfoldable pub step : Event → Life → Option (Life × List Notice)
step (appeared info dump) pm = some (family_appeared info dump pm, [])
step (answered loaded id) pm = if pm.dumping then complete_pm_init loaded id pm else some (pm, [])
step vanished pm = if pm.family then some (family_vanished pm) else some (pm, [])

abbrev after : List Notice → Option (Life × List Notice) → Option (Life × List Notice)
after ns none = none
after ns (some (pm, later)) = some (pm, ns ++ later)

-- The state after a history, and all notices; none where the program exits.
unfoldable pub run : List Event → Life → Option (Life × List Notice)
run [] pm = some (pm, [])
run (e ∷ es) pm = elim (step e pm) [ none ↦ none | some r ↦ after r.1 (run es r.0) ]

abbrev pub stays : Event → Bool
stays vanished = false
stays _ = true

waits :
    (e : Event) (pm : Life)
    → stays e ≡ true
    → pm.family ≡ true
    → pm.dumping ≡ false
    → step e pm ≡ some (pm, [])
unfolding step family_appeared
waits (appeared true dump) pm s f d = rw f refl
waits (appeared false dump) pm s f d = refl
waits (answered loaded id) pm s f d = rw d refl
waits vanished pm s f d = absurd cc

run_next :
    (e : Event) (es : List Event) (pm : Life)
    → step e pm ≡ some (pm, [])
    → run (e ∷ es) pm ≡ after [] (run es pm)
unfolding run
run_next e es pm h = rw (h, run) refl

run-stays :
    (es : List Event) (pm : Life)
    → pm.family ≡ true
    → pm.dumping ≡ false
    → All (λ e. stays e ≡ true) es
    → run es pm ≡ some (pm, [])
unfolding run
run-stays [] pm f d all = refl
run-stays (e ∷ es) pm f d all =
    run_next e es pm (waits e pm all.0 f d) ∙ ap (after []) (run-stays es pm f d all.1)

-- Where the command for the addresses fails when the family appears, nothing completes the start: no
-- matter what happens, until the family ends nobody is told that the path manager is ready, and its
-- state does not change.
pub run-family_appeared :
    (es : List Event) (pm : Life) (dump : ℤ)
    → pm.family ≡ false
    → is_zero dump ≡ false
    → All (λ e. stays e ≡ true) es
    → let pm' = family_appeared true dump pm in run es pm' ≡ some (pm', [])
unfolding family_appeared
run-family_appeared es pm dump f z all =
    rw f (run-stays es (record pm { family = true; dumping = is_zero dump }) refl z all)
