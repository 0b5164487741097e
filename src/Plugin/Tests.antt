-- ===== src/Plugin/Tests.antt =====
-- Runs of the plugin registry, and the theorems at inputs that meet their hypotheses.
use mptcpd.Common.{true, false, none, some, [], ◌∷◌, ◌≡◌, refl}
use mptcpd.Ell.Assoc.{find, erase}
use mptcpd.HashSockaddr.{memcmp, compare_number}
use mptcpd.Plugin.Broadcast.{broadcast}
use mptcpd.Plugin.Calls.{Event}
use mptcpd.Plugin.Default.{named, register_all, register_all-default}
use mptcpd.Plugin.Dispatch.{TokenEvent, handle, one_call, handle-new_connection}
use mptcpd.Plugin.Samples.{test, loaded, sspi, sspi_name, registrations}
use mptcpd.Plugin.{
  start, register_ops, invoke, invoke_all, name_to_ops, token_to_ops, new_connection, new_subflow,
  new_interface,
}
use mptcpd.Sockaddr.{Sockaddr}

runs : Unit {0}
unfolding find erase memcmp compare_number named register_all start register_ops invoke name_to_ops
    token_to_ops new_connection handle broadcast new_subflow new_interface invoke_all
runs = tt

loads : register_all test (start test (some sspi_name)) registrations ≡ loaded
unfolding runs
loads = refl

abbrev address : Sockaddr
address = record { family = 2; port = 7; addr4 = 9; addr6 = [] }

subflow_call :
    new_subflow test
      (new_connection test loaded none 77 address address true).0
      77
      address
      address
      false
    ≡ (sspi, Event.new_subflow 77 address address false) ∷ []
unfolding runs
subflow_call = refl

interface_calls : new_interface test loaded 3 ≡ (sspi, Event.new_interface 3) ∷ []
unfolding runs
interface_calls = refl

register_all-default_example :
    (register_all test (start test (some sspi_name)) registrations).default_ops ≡ some sspi
unfolding runs
register_all-default_example =
    register_all-default test (some sspi_name) registrations (λ m name ops. refl)

handle-new_connection_example :
    handle test (new_connection test loaded none 77 address address true).0 77 TokenEvent.closed
    ≡ one_call test loaded.default_ops 77 TokenEvent.closed
unfolding runs
handle-new_connection_example =
    handle-new_connection test loaded none 77 77 address address true TokenEvent.closed refl
      (λ ops. refl)

loaded-Distinct : test.names.Distinct loaded.pm_plugins
unfolding runs
loaded-Distinct = (refl, (refl, tt))
