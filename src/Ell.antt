-- ===== src/Ell.antt =====
-- What mptcpd uses of ELL, the Embedded Linux Library: interfaces with the documented behaviour of
-- its containers. ELL itself is not part of the repository.
pub mod HashMap
pub mod Uintset
pub mod Queue
pub mod Removal
pub mod Genl
pub mod Assoc
pub mod Numbers
