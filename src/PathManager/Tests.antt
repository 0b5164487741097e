-- ===== src/PathManager/Tests.antt =====
-- Runs of the commands, and the theorem at a concrete backend.
use mptcpd.Common.{true, false, none, some, List, [], ◌∷◌, pos, ◌≡◌, refl}
use mptcpd.PathManager.{
  KpmCmdOps, Pm, Limit, einval, eagain, enotsup, pm_ready, call, kpm_set_limits, kpm_get_limits,
  kpm_add_addr,
}
use mptcpd.PathManager.Commands.{kernel_set_limits, run, run-backend}

runs : Unit {0}
unfolding pm_ready call kpm_set_limits kpm_get_limits kpm_add_addr run
runs = tt

-- A kernel that keeps the limits that it is sent, and offers no other command.
abbrev kernel : KpmCmdOps (List Limit)
kernel = record {
  add_addr = none;
  remove_addr = none;
  get_addr = none;
  dump_addrs = none;
  flush_addrs = none;
  set_limits = some (λ limits len w. (limits, pos 0));
  get_limits = none;
  set_flags = none;
}

abbrev ready : Pm (List Limit)
ready = record { has_family = true; kcmd_ops = some kernel; cmd_ops = none }

abbrev waiting : Pm (List Limit)
waiting = record ready { has_family = false }

abbrev limits : List Limit
limits = (1, 4) ∷ []

sent : kpm_set_limits (List Limit) (some ready) (some limits) 1 [] ≡ (limits, pos 0)
unfolding runs
sent = refl

too_early : kpm_set_limits (List Limit) (some waiting) (some limits) 1 [] ≡ ([], eagain)
unfolding runs
too_early = refl

empty : kpm_set_limits (List Limit) (some waiting) (some limits) 0 [] ≡ ([], einval)
unfolding runs
empty = refl

not_offered : kpm_get_limits (List Limit) (some ready) (some 1) none [] ≡ ([], enotsup)
unfolding runs
not_offered = refl

run-backend_example :
    (run (List Limit) none (kernel_set_limits (some limits) 1) [] ≡ ([], einval))
    × (run (List Limit) (some ready) (kernel_set_limits (some limits) 1) [] ≡ (limits, pos 0))
unfolding runs
run-backend_example = run-backend (List Limit) ready (kernel_set_limits (some limits) 1) []
