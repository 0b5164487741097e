-- ===== src/Plugin/Samples.antt =====
-- A concrete platform and registry, for the tests.
use mptcpd.Common.{ℕ, Bool, true, false, some, List, [], ◌∷◌, Ordering, ◌≡◌, ◌∙◌, arith, refl, ap}
use mptcpd.Ell.Assoc.{assoc}
use mptcpd.Ell.HashMap.{Keys}
use mptcpd.HashSockaddr.{memcmp, compare_number}
use mptcpd.HashSockaddr.Order.{memcmp_eq, memcmp_self}
use mptcpd.Plugin.Calls.{Ops, Callback}
use mptcpd.Plugin.{Platform, Registry}

pub names_eq : (a b : List ℕ) → memcmp a b ≡ Ordering.eq → a ≡ b
names_eq = memcmp_eq

pub numbers_eq : (a b : ℕ) → compare_number a b ≡ Ordering.eq → a ≡ b
unfolding compare_number
numbers_eq a b h = ground (arith, h)

pub numbers_self : (a : ℕ) → compare_number a a ≡ Ordering.eq
unfolding compare_number
numbers_self a = ground arith

-- Tables with one bucket.
abbrev pub name_keys : Keys (List ℕ)
name_keys = record {
  hash = λ s. 0;
  compare = memcmp;
  compare_self = memcmp_self;
  compare_sym = λ a b h. ap (memcmp b) (names_eq a b h) ∙ memcmp_self b;
  compare_trans = λ a b c h k. ap (λ x. memcmp x c) (names_eq a b h) ∙ k;
  hash_agrees = λ a b h. refl;
}

abbrev pub number_keys : Keys ℕ
number_keys = record {
  hash = λ s. 0;
  compare = compare_number;
  compare_self = numbers_self;
  compare_sym = λ a b h. ap (compare_number b) (numbers_eq a b h) ∙ numbers_self b;
  compare_trans = λ a b c h k. ap (λ x. compare_number x c) (numbers_eq a b h) ∙ k;
  hash_agrees = λ a b h. refl;
}

abbrev pub test : Platform
test = record {
  string_keys = name_keys;
  token_keys = number_keys;
  names = assoc name_keys;
  tokens = assoc number_keys;
  name_len = 16;
  string_eq = names_eq;
  token_eq = numbers_eq;
}

-- "sspi" implements every operation, "addr_adv" none but those on addresses.
abbrev pub sspi_name : List ℕ
sspi_name = b's' ∷ b's' ∷ b'p' ∷ b'i' ∷ []

abbrev pub addr_adv_name : List ℕ
addr_adv_name = b'a' ∷ b'd' ∷ b'd' ∷ b'r' ∷ b'_' ∷ b'a' ∷ b'd' ∷ b'v' ∷ []

abbrev pub sspi : Ops
sspi = record { ident = 1; implements = λ c. true }

abbrev pub on_addresses : Callback → Bool
on_addresses Callback.on_new_local_address = true
on_addresses Callback.on_delete_local_address = true
on_addresses _ = false

abbrev pub addr_adv : Ops
addr_adv = record { ident = 2; implements = on_addresses }

abbrev pub registrations : List (List ℕ × Ops)
registrations = (addr_adv_name, addr_adv) ∷ (sspi_name, sspi) ∷ []

abbrev pub loaded : Registry test
loaded = record {
  pm_plugins = (sspi_name, sspi) ∷ (addr_adv_name, addr_adv) ∷ [];
  token_ops = [];
  default_name = sspi_name;
  default_ops = some sspi;
}
