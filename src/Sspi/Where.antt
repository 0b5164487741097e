-- ===== src/Sspi/Where.antt =====
-- On which network interface the plugin looks for an address.
use mptcpd.Common.{
  ℕ, Bool, true, false, not, ◌&&◌, Option, none, some, List, [], ◌∷◌, ◌==◌, is_some, if◌then◌else◌,
  ◌≡◌, refl, ap, ◌∙◌, fun_ext, arith, Bool-cases, inl, inr,
}
use mptcpd.Ell.Queue.{Queue, find_entry}
use mptcpd.NetworkMonitor.{Nm, AddrInfo}
use mptcpd.NetworkMonitor.Tracking.{same_host, is_eq-memcmp}
use mptcpd.Sockaddr.{Sockaddr}
use mptcpd.Sspi.{sockaddr_match, get_index, get_index_all, addr_to_index}

-- One of these addresses is `addr`.
abbrev pub holds : (ℕ → AddrInfo) → List ℕ → Sockaddr → Bool
holds addr_at [] addr = false
holds addr_at (at ∷ rest) addr =
    if same_host (addr_at at).address addr then true else holds addr_at rest addr

sockaddr_match_lem : (a b : Sockaddr) → sockaddr_match a b ≡ same_host a b
unfolding sockaddr_match same_host
sockaddr_match_lem a b = ground (arith, is_eq-memcmp a.addr6 b.addr6)

found_holds :
    (addr_at : ℕ → AddrInfo) (l : List ℕ) (addr : Sockaddr)
    → is_some (find_entry (λ at. sockaddr_match (addr_at at).address addr) l) ≡ holds addr_at l addr
unfolding find_entry
found_holds addr_at [] addr = refl
found_holds addr_at (at ∷ rest) addr =
    ground (arith, sockaddr_match_lem (addr_at at).address addr, found_holds addr_at rest addr)

-- What a search comes to.
abbrev or_bad : Option ℕ → ℕ
or_bad none = 2147483647
or_bad (some i) = i

abbrev unless_bad : ℕ → Option ℕ
unless_bad i = if i == 2147483647 then none else some i

module _ (queue : Queue ℕ) where
  open queue use {entries, find}

  -- The index of the first of these interfaces that has the address; an interface with the index
  -- INT_MAX is passed over.
  abbrev pub first_with : Nm queue → Sockaddr → List ℕ → Option ℕ
  first_with nm addr [] = none
  first_with nm addr (i ∷ rest) =
      if holds nm.addr_at (entries (nm.iface_at i).addrs) addr
        && not ((nm.iface_at i).link.index == 2147483647)
      then some (nm.iface_at i).link.index
      else first_with nm addr rest

  -- The index of the first interface of the monitor that has the address.
  abbrev pub where_is : Nm queue → Sockaddr → Option ℕ
  where_is nm addr = first_with nm addr (entries nm.interfaces)

  get_index_lem :
      (nm : Nm queue) (addr : Sockaddr) (i : ℕ)
      → get_index queue nm addr i 2147483647 ≡ (
          if holds nm.addr_at (entries (nm.iface_at i).addrs) addr
          then (nm.iface_at i).link.index
          else 2147483647)
  unfolding get_index
  get_index_lem nm addr i =
      let match = λ (at : ℕ). sockaddr_match (nm.addr_at at).address addr in
      let e : is_some (find (nm.iface_at i).addrs match)
          ≡ holds nm.addr_at (entries (nm.iface_at i).addrs) addr =
        ap is_some (queue.find-entries (nm.iface_at i).addrs match)
        ∙ found_holds nm.addr_at (entries (nm.iface_at i).addrs) addr in
      ap (λ b. if b then (nm.iface_at i).link.index else 2147483647) e

  kept_index :
      (nm : Nm queue) (addr : Sockaddr) (l : List ℕ) (index : ℕ)
      → (index == 2147483647) ≡ false
      → get_index_all queue nm addr l index ≡ index
  unfolding get_index_all get_index
  kept_index nm addr [] index h = refl
  kept_index nm addr (i ∷ rest) index h = ground (arith, h, kept_index nm addr rest index h)

  get_index_all_lem :
      (nm : Nm queue) (addr : Sockaddr) (l : List ℕ)
      → unless_bad (get_index_all queue nm addr l 2147483647) ≡ first_with nm addr l
  unfolding get_index_all
  get_index_all_lem nm addr [] = refl
  get_index_all_lem nm addr (i ∷ rest) =
      let index = (nm.iface_at i).link.index in
      let now = get_index_lem nm addr i in
      let held = holds nm.addr_at (entries (nm.iface_at i).addrs) addr in
      let later = get_index_all_lem nm addr rest in
      ap (λ n. unless_bad (get_index_all queue nm addr rest n)) now ∙ (elim (Bool-cases held) [
        | inr e ↦ rw e later
        | inl e ↦ elim (Bool-cases (index == 2147483647)) [
          | inl b ↦
              let same : index ≡ 2147483647 = ground (arith, b) in
              rw e
                (ap (λ n. unless_bad (get_index_all queue nm addr rest n)) same ∙ later ∙ rw b refl)
          | inr b ↦ rw e (ap unless_bad (kept_index nm addr rest index b) ∙ ground (arith, b))
        ]
      ])

  pub addr_to_index_lem : (nm : Nm queue) → addr_to_index queue nm ≡ where_is nm
  unfolding addr_to_index
  addr_to_index_lem nm = fun_ext (λ addr. get_index_all_lem nm addr (entries nm.interfaces))
