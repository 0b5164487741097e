-- ===== src/Org/Tests.antt =====
-- Runs of the multipath-tcp.org commands, and the theorems at inputs that meet their hypotheses.
use mptcpd.Common.{true, some, [], ◌∷◌, pos, ◌≡◌, refl}
use mptcpd.Ell.Genl.{list_genl, attr}
use mptcpd.Netlink.Samples.{Sent, keeping, sample4, sample6}
use mptcpd.Netlink.Size.{wire_size}
use mptcpd.Netlink.{
  all_steps, unless_zero, transmit, u8, u16, u32, get_addr_family, get_port_number, nla_align,
  nla_align_addr, get_addr_size,
}
use mptcpd.Org.Sizes.{payload_size, payload_size-message}
use mptcpd.Org.Wire.{message, refusal, org_pm, Outcome, run-message, subflow_tokens, backup_token}
use mptcpd.Org.{append_local_addr_attr, add_addr_steps, org_add_addr, set_backup_size}
use mptcpd.PathManager.Commands.{Command, run, user_add_subflow, user_set_backup}

-- The message of `org_add_addr`, and the result.
announced : org_add_addr list_genl keeping sample4 7 99 true [] ≡ (
  (
    4,
    attr (u32 1 99)
        ∷ attr (u8 3 7)
        ∷ attr (u16 2 2)
        ∷ attr (u32 5 0x010200c0)
        ∷ attr (u16 9 4242)
        ∷ [],
  )
      ∷ [],
  pos 0,
)
unfolding org_add_addr transmit add_addr_steps all_steps unless_zero append_local_addr_attr
    get_addr_family get_port_number
announced = refl

abbrev subflow : Command
subflow = user_add_subflow 99 3 4 (some sample4) (some sample4) true

run-message_example :
    Outcome list_genl Sent keeping
      (message subflow)
      (refusal subflow)
      []
      (run Sent (some (org_pm list_genl Sent keeping)) subflow [])
run-message_example = run-message list_genl Sent keeping subflow []

abbrev priority : Command
priority = user_set_backup 99 (some sample4) (some sample6) true

payload_size-message_example :
    wire_size (subflow_tokens 99 sample4 sample6 (backup_token true)) ≡ payload_size priority
payload_size-message_example =
    payload_size-message priority 12 (subflow_tokens 99 sample4 sample6 (backup_token true)) refl

priority_size : payload_size priority ≡ 68
unfolding set_backup_size nla_align nla_align_addr get_addr_size
priority_size = refl
