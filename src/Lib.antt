-- ===== src/Lib.antt =====
-- A model of mptcpd, the multipath TCP daemon, with the theorems that make its parts correct.
--
-- The daemon receives MPTCP events and network changes over netlink, and hands them to path manager
-- plugins, which answer with commands. Between the two stand the tables that this library models:
--   Sockaddr          lib/sockaddr.c: a socket address with its IPv4 and its IPv6 view
--   HashSockaddr      lib/hash_sockaddr.c: comparison and copy of hash map keys by IP address
--   Murmur            lib/murmur_hash.c: the hash of the keys
--   IdManager         lib/id_manager.c: address IDs 1 to 255 for local addresses
--   ListenerManager   lib/listener_manager.c: reference-counted listening sockets
--   Plugin            lib/plugin.c: registration of plugins, and the calls of their operations
--   Events            src/path_manager.c: from a netlink message to the calls of Plugin, and
--                     the appearance and the end of the netlink family
--   PathManager       lib/path_manager.c: the commands of plugins, up to the netlink backend
--   NetworkMonitor    lib/network_monitor.c: the links and addresses of the host, from rtnetlink
--   AddrAdv           plugins/path_managers/addr_adv.c: a plugin, which advertises local addresses
--   Sspi              plugins/path_managers/sspi.c: a plugin, with one subflow on each interface
--   Config            src/configuration.c: flags in words, and the sources of a configuration
--   Netlink           src/commands.c and src/commands.h: what the two netlink backends share
--   Upstream          src/netlink_pm_upstream.c: the commands for the upstream kernel
--   Org               src/netlink_pm_mptcp_org.c: the commands for the multipath-tcp.org kernel
--   Common, Ell       shared names, and the interfaces of the containers of ELL
--
-- Correspondence. Functions keep their names, less the prefix `mptcpd_`; the tail of a long function
-- is sometimes a definition of its own, which its comment names. A pointer that may be NULL is an
-- `Option`. State is passed in and returned. A call of a plugin is an entry of the list of calls
-- that an operation of Plugin returns. A socket address has both views of the C union, and the
-- family says which is meant. Memory that the code allocates for a listener is an address of a
-- store, so that the reference count is changed in one place. The queues of the network monitor and
-- of the plugin sspi hold addresses of such stores too. An rtnetlink message is the record of what is
-- read from it, and the answer to a request is a message that a handler is given. The index of a link
-- is a natural number, as the kernel counts them from 1. The operations of sspi on connections and
-- subflows are called connect, join, leave and close. Numbers are natural numbers; where
-- the code narrows one to eight bits, `% 256` is written out, and Murmur computes modulo 2 ^ 32.
-- Reference counts are not bounded: the code would need 2 ^ 31 listeners on one address to wrap.
--
-- Parameters. ELL is not part of the repository. Its hash map and its set of numbers are records of
-- operations and laws (Ell.HashMap, Ell.Uintset, Ell.Queue, Ell.Removal), and Ell.Assoc, Ell.Numbers,
-- `list_queue` and `list_removal` are concrete containers that satisfy the laws; the witnesses run on
-- these. What the kernel answers to the socket calls of one operation is the record `Answers` of
-- ListenerManager.
-- For PathManager the netlink backend is a record of functions on a world; Upstream and Org fill it. A
-- message under construction is the record `Ell.Genl`, whose calls may fail, and sending it is the
-- record `Kernel` of Netlink. What the dynamic linker finds in a file is a function, and what a
-- settings file gives is the record `SettingsFile` of Config. The string functions of the C library
-- are written out. The random seeds, the build option HAVE_L_HASHMAP_REPLACE and the length of a
-- plugin name are fields of the platform records. The attribute numbers and sizes of Events are
-- those of include/linux/mptcp.h and of include/linux/mptcp_upstream.h.
--
-- Fuel. One function takes fuel, `flags_loop` of Config, which is given the length of the string that
-- it reads; Config.Flags shows that this is enough. Every other loop of the modelled code runs over a
-- list, or counts the blocks of a key down.
--
-- Not modelled: logging, assertions, freeing of memory, and the byte order of the bit mixing other
-- than little-endian; what ELL does with the sockets of the network monitor, the tests of the
-- netlink backends for a kernel in /proc, the creation of the path manager, which makes its parts one
-- after the other; and the programs mptcpize and mptcpwrap.
pub mod Common
pub mod Ell
pub mod Sockaddr
pub mod HashSockaddr
pub mod Murmur
pub mod Netlink
pub mod IdManager
pub mod ListenerManager
pub mod Plugin
pub mod Events
pub mod PathManager
pub mod AddrAdv
pub mod NetworkMonitor
pub mod Sspi
pub mod Config
pub mod Org
pub mod Upstream
