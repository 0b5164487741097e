-- ===== src/Events/Tests.antt =====
-- Runs of the event handlers, and the theorems at inputs that meet their hypotheses.
use mptcpd.Common.{ℕ, true, none, some, List, [], ◌∷◌, ◌≡◌, refl}
use mptcpd.Ell.Assoc.{find, erase}
use mptcpd.HashSockaddr.{memcmp, compare_number}
use mptcpd.Events.Attributes.{Attrs, Attribute, parse, no_attrs}
use mptcpd.Events.Fields.{Field, number, code, size, last_valid, parse-last_valid}
use mptcpd.Events.Sequence.{closed-created}
use mptcpd.Events.Calls.{local_address, remote_address, subflows_backup}
use mptcpd.Events.{
  both_addresses, has_connection, handle_subflow, handle_connection_created, handle_new_subflow,
  handle_subflow_closed, handle_priority_changed, handle_mptcp_event,
}
use mptcpd.Plugin.Calls.{Event}
use mptcpd.Plugin.Dispatch.{one_call, TokenEvent}
use mptcpd.Plugin.{name_to_ops, new_connection, new_subflow, subflow_closed, subflow_priority}
use mptcpd.Sockaddr.{sockaddr_storage_init}
-- The platform and the registry of the tests of the plugins.
use mptcpd.Plugin.Samples.{test, loaded, sspi}

runs : Unit {0}
unfolding find erase memcmp compare_number parse name_to_ops has_connection handle_mptcp_event
    handle_connection_created handle_subflow both_addresses sockaddr_storage_init handle_new_subflow
    new_connection new_subflow
runs = tt

abbrev attr : ℕ → ℕ → ℕ → Attribute
attr type len value = record { type = type; len = len; value = value; bytes = [] }

-- A token given twice, the second time with a wrong length.
abbrev message : List Attribute
message =
    attr 1 4 77
    ∷ attr 2 2 2
    ∷ attr 5 4 9
    ∷ attr 9 2 1000
    ∷ attr 7 4 8
    ∷ attr 10 2 80
    ∷ attr 11 1 0
    ∷ attr 1 2 3
    ∷ []

abbrev complete : Attrs
complete = record no_attrs {
  token = some 77;
  laddr4 = some 9;
  local_port = some 1000;
  raddr4 = some 8;
  remote_port = some 80;
  backup = some 0;
}

parsed : parse (some message) no_attrs ≡ complete
unfolding runs
parsed = refl

-- The priority in the message is 0, and the plugin is told `true`.
backup_lost :
    (handle_mptcp_event test
      (handle_mptcp_event test loaded 1 (some message)).0
      10
      (some message)).1
    ≡ (sspi, Event.new_subflow 77 (local_address complete) (remote_address complete) true) ∷ []
unfolding runs
backup_lost = refl

parse-last_valid_example :
    ((f : Field)
      → number f (parse (some message) no_attrs)
        ≡ last_valid (λ a. a.value) (code f) (size f) message none)
    × ((parse (some message) no_attrs).laddr6 ≡ last_valid (λ a. a.bytes) 6 16 message none)
    × ((parse (some message) no_attrs).raddr6 ≡ last_valid (λ a. a.bytes) 8 16 message none)
parse-last_valid_example = parse-last_valid message

subflows_backup_example :
    (handle_new_subflow test loaded complete
      ≡ new_subflow test loaded 77 (local_address complete) (remote_address complete) true)
    × (handle_subflow_closed test loaded complete
        ≡ subflow_closed test loaded 77 (local_address complete) (remote_address complete) true)
    × (handle_priority_changed test loaded complete
        ≡ subflow_priority test loaded 77 (local_address complete) (remote_address complete) true)
unfolding runs
subflows_backup_example = subflows_backup test loaded complete

closed-created_example :
    (handle_mptcp_event test (handle_mptcp_event test loaded 1 (some message)).0 3 (some message)).1
    ≡ one_call test loaded.default_ops 77 TokenEvent.closed
unfolding runs
closed-created_example =
    closed-created test loaded message message 77 refl refl refl refl (λ ops. refl)
