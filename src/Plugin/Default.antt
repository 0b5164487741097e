-- ===== src/Plugin/Default.antt =====
-- Which plugin is the default after the plugins have registered themselves.
use mptcpd.Common.{
  ℕ, true, false, Option, none, some, List, [], ◌∷◌, take, ◌≡◌, if◌then◌else◌, arith, refl,
}
use mptcpd.Ell.HashMap.{is_eq}
use mptcpd.HashSockaddr.{memcmp}
use mptcpd.Plugin.Calls.{Ops}
use mptcpd.Plugin.Dispatch.{or_else}
use mptcpd.Plugin.{Platform, Registry, start, register_ops}

-- The last plugin registered under a name.
unfoldable pub named : List ℕ → List (List ℕ × Ops) → Option Ops
named name [] = none
named name ((n, ops) ∷ regs) = elim (named name regs) [
  | some later ↦ some later
  | none ↦ if is_eq (memcmp name n) then some ops else none
]

abbrev pub first : List (List ℕ × Ops) → Option Ops → Option Ops
first [] d = d
first ((n, ops) ∷ regs) d = some ops

module _ (p : Platform) where
  open p use {names, tokens, name_len}

  -- The configured name, of which as many characters count as the buffer holds; it is empty if none
  -- is configured.
  abbrev pub configured : Option (List ℕ) → List ℕ
  configured none = []
  configured (some name) = take name_len name

  -- Registrations one after the other.
  unfoldable pub register_all : Registry p → List (List ℕ × Ops) → Registry p
  register_all r [] = r
  register_all r ((name, ops) ∷ regs) =
      register_all (register_ops p r (some name) (some ops)).0 regs

  -- The hash map takes every entry.
  abbrev pub Takes : Type 0
  Takes = (m : names.Map) (name : List ℕ) (ops : Ops) → (names.insert m name ops).1 ≡ true

  register_step :
      (r : Registry p) (name : List ℕ) (ops : Ops)
      → Takes
      → let r' = (register_ops p r (some name) (some ops)).0 in
        (r'.default_ops ≡ (
          if is_eq (memcmp r.default_name name)
          then some ops
          else if names.isempty r.pm_plugins
          then some ops
          else r.default_ops))
        × (r'.default_name ≡ r.default_name)
        × (names.isempty r'.pm_plugins ≡ false)
  unfolding register_ops
  register_step r name ops takes =
      ground (arith, takes r.pm_plugins name ops, names.isempty-insert r.pm_plugins name ops)

  register_rest :
      (r : Registry p) (regs : List (List ℕ × Ops))
      → Takes
      → names.isempty r.pm_plugins ≡ false
      → (register_all r regs).default_ops ≡ or_else (named r.default_name regs) r.default_ops
  unfolding register_all named
  register_rest r [] takes e = refl
  register_rest r ((name, ops) ∷ regs) takes e =
      let r' = (register_ops p r (some name) (some ops)).0 in
      let s = register_step r name ops takes in
      ground (arith, s, e, register_rest r' regs takes s.2)

  -- The default is the last plugin that registered under the configured name, cut to the length of
  -- the buffer, and where there is none, the first that registered, if the map of names takes every
  -- entry.
  pub register_all-default :
      (default_name : Option (List ℕ)) (regs : List (List ℕ × Ops))
      → Takes
      → (register_all (start p default_name) regs).default_ops
        ≡ or_else (named (configured default_name) regs) (first regs none)
  unfolding register_all named start
  register_all-default none [] takes = refl
  register_all-default (some n) [] takes = refl
  register_all-default none ((name, ops) ∷ regs) takes =
      let r = start p none in
      let r' = (register_ops p r (some name) (some ops)).0 in
      let s = register_step r name ops takes in
      ground (arith, s, names.isempty-new, register_rest r' regs takes s.2)
  register_all-default (some n) ((name, ops) ∷ regs) takes =
      let r = start p (some n) in
      let r' = (register_ops p r (some name) (some ops)).0 in
      let s = register_step r name ops takes in
      ground (arith, s, names.isempty-new, register_rest r' regs takes s.2)
