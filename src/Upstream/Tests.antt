-- ===== src/Upstream/Tests.antt =====
-- Runs of the upstream commands, and the theorems at inputs that meet their hypotheses.
use mptcpd.Common.{take, ℕ, some, List, [], ◌∷◌, pos, negsuc, ℤ, ◌≡◌, refl, arith}
use mptcpd.Ell.Genl.{list_genl, attr, enter, leave}
use mptcpd.ListenerManager.Count.{Listened}
use mptcpd.ListenerManager.Samples.{
  test, any_port, bound, answers, idle, idle-Inv, honest, after, listened,
}
use mptcpd.Netlink.Writes.{Roomy}
use mptcpd.Netlink.Samples.{Sent, keeping, sample4, sample6}
use mptcpd.Netlink.{
  Kernel, all_steps, unless_zero, transmit, u8, u16, u32, get_addr_family, get_port_number,
}
use mptcpd.PathManager.Commands.{Command, run, kernel_add_addr}
use mptcpd.PathManager.{Limit}
use mptcpd.Sockaddr.{Sockaddr}
use mptcpd.Upstream.Announce.{Host, After, announce_listening, announce-Listened}
use mptcpd.Upstream.Reply.{get_addr_callback, get_limits_callback}
use mptcpd.Upstream.RoundTrip.{
  view, as_sent, one_addr, limit_attrs, get_addr_callback-addr_tokens,
  get_limits_callback-set_limits, keeper,
}
use mptcpd.Upstream.Tokens.{addr_tokens}
use mptcpd.Upstream.Wire.{info_of, message, Outcome, run-deliver}
use mptcpd.Upstream.{
  AddrInfo, upstream_set_limits, upstream_pm, upstream_add_addr, send_add_addr, signal_with_port,
  send_add_addr_steps, append_local_addr_attr, append_addr_attr,
}

-- The message of `upstream_add_addr`, with the flag that a port requires.
added : upstream_add_addr list_genl keeping sample4 3 4 (pos 2) [] ≡ (
  (
    1,
    enter 0x8001
        ∷ attr (u16 1 2)
        ∷ attr (u32 3 0x010200c0)
        ∷ attr (u16 5 4242)
        ∷ attr (u8 2 3)
        ∷ attr (u32 6 5)
        ∷ attr (u32 7 2)
        ∷ leave
        ∷ [],
  )
      ∷ [],
  pos 0,
)
unfolding upstream_add_addr send_add_addr signal_with_port send_add_addr_steps
    append_local_addr_attr append_addr_attr transmit all_steps unless_zero get_addr_family
    get_port_number
added = refl

abbrev add : Command
add = kernel_add_addr (some sample4) 3 4 (pos 2)

abbrev no_listen : Sockaddr → Sent → Sent × Sockaddr × ℤ
no_listen addr w = (w, addr, pos 98)

abbrev stop : Sent → Sent × ℤ
stop w = (w, pos 14)

run-deliver_example :
    Outcome list_genl keeping
      (message add)
      []
      (run Sent (some (upstream_pm list_genl keeping no_listen stop)) add [])
run-deliver_example = run-deliver list_genl keeping no_listen stop add [] refl

abbrev info : AddrInfo
info = info_of sample6 9 5 (negsuc 6)

get_addr_callback-addr_tokens_example :
    get_addr_callback (one_addr (addr_tokens info)) ≡ some (as_sent info (view sample6))
get_addr_callback-addr_tokens_example =
    get_addr_callback-addr_tokens info refl (omega arith, omega arith)

abbrev limits : List Limit
limits = (0, 8) ∷ (1, 4) ∷ []

room : Roomy list_genl
room = record { appended = λ m a. refl; entered = λ m t. refl; left = λ m. refl }

get_limits_callback-set_limits_example :
    let sent = (upstream_set_limits list_genl keeper limits 2 []).0 in
    get_limits_callback (record { error = pos 0; attrs = some (limit_attrs sent) }) ≡ take 2 limits
get_limits_callback-set_limits_example =
    get_limits_callback-set_limits list_genl limits 2 room refl
      ((omega arith, omega arith), ((omega arith, omega arith), tt))

-- A kernel that takes no request.
abbrev refusing : Kernel ℕ
refusing = record { send = λ cmd ts c w. (w, 0); dump = λ cmd ts c w. (w, 0) }

abbrev halt : Host test ℕ → Host test ℕ × ℤ
halt h = (h, pos 14)

announce-Listened_example :
    Listened test idle after bound (pos 0)
    × After test list_genl refusing
        (λ n. answers)
        0
        after
        bound
        (pos 0)
        7
        99
        (announce_listening test list_genl refusing
          (λ n. answers)
          any_port
          7
          99
          halt
          (record { net = 0; lm = some idle; addr = some any_port }))
announce-Listened_example =
    announce-Listened test list_genl refusing (λ n. answers) 0 idle after any_port bound (pos 0) 7
      99 halt honest (λ name h. refl) idle-Inv listened
