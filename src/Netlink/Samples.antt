-- ===== src/Netlink/Samples.antt =====
-- A kernel that keeps the messages that it is sent, and sample addresses, for the runs of both
-- backends.
use mptcpd.Common.{ℕ, List, [], ◌∷◌}
use mptcpd.Ell.Genl.{Token}
use mptcpd.Netlink.{Kernel}
use mptcpd.Sockaddr.{Sockaddr}

abbrev pub Sent : Type 0
Sent = List (ℕ × List Token)

-- A kernel to which every request is made.
abbrev pub keeping : Kernel Sent
keeping = record {
  send = λ cmd ts c w. ((cmd, ts) ∷ w, 1);
  dump = λ cmd ts c w. ((cmd, ts) ∷ w, 1);
}

-- 192.0.2.1, port 4242, and 2001:db8::1, port 80.
abbrev pub sample4 : Sockaddr
sample4 = record { family = 2; port = 0x9210; addr4 = 0x010200c0; addr6 = [] }

abbrev pub sample6 : Sockaddr
sample6 = record {
  family = 10;
  port = 0x5000;
  addr4 = 0;
  addr6 = 0x20 ∷ 0x01 ∷ 0x0d ∷ 0xb8 ∷ 0 ∷ 0 ∷ 0 ∷ 0 ∷ 0 ∷ 0 ∷ 0 ∷ 0 ∷ 0 ∷ 0 ∷ 0 ∷ 1 ∷ [];
}
