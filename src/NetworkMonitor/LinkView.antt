-- ===== src/NetworkMonitor/LinkView.antt =====
-- The queue of interfaces as the list of its links.
use mptcpd.Common.{
  ℕ, ◌<◌, Bool, true, Option, none, some, List, [], ◌∷◌, ◌==◌, All, update, ◌≡◌, refl, arith,
  Bool-cases, inl, inr,
}
use mptcpd.Ell.Queue.{Queue, insert_entry, find_entry, drop_entry}
use mptcpd.NetworkMonitor.{Link, Interface, links_at}
use mptcpd.NetworkMonitor.Links.{interface_compare}
use mptcpd.NetworkMonitor.LinkList.{
  compare_link, find_link, drop_link, set_flags, with_flags, Increasing,
}

module _ (queue : Queue ℕ) where
  open queue use {entries, insert, find, remove_if}

  abbrev Store : Type 0
  Store = ℕ → Interface queue

  abbrev pub has_index : Store → ℕ → ℕ → Bool
  has_index f i at = (f at).link.index == i

  -- The link behind a pointer that may be NULL.
  abbrev pub link_behind : Store → Option ℕ → Option Link
  link_behind f none = none
  link_behind f (some at) = some (f at).link

  pub links_at-insert_entry :
      (f : Store) (a : ℕ) (l : List ℕ)
      → links_at queue f (insert_entry (interface_compare queue f) a l)
        ≡ insert_entry compare_link (f a).link (links_at queue f l)
  unfolding links_at insert_entry interface_compare compare_link
  links_at-insert_entry f a [] = refl
  links_at-insert_entry f a (x ∷ l) = ground (arith, links_at-insert_entry f a l)

  pub links_at_fresh :
      (f : Store) (a : ℕ) (i : Interface queue) (l : List ℕ)
      → All (λ at. at < a) l
      → links_at queue (update f a i) l ≡ links_at queue f l
  unfolding links_at
  links_at_fresh f a i [] all = refl
  links_at_fresh f a i (x ∷ l) all = ground (arith, all, links_at_fresh f a i l all.1)

  pub find_entry_link :
      (f : Store) (i : ℕ) (l : List ℕ)
      → link_behind f (find_entry (has_index f i) l) ≡ find_link i (links_at queue f l)
  unfolding links_at find_entry find_link
  find_entry_link f i [] = refl
  find_entry_link f i (x ∷ l) = ground (arith, find_entry_link f i l)

  pub links_at-drop_entry :
      (f : Store) (i : ℕ) (l : List ℕ)
      → links_at queue f (drop_entry (has_index f i) l) ≡ drop_link i (links_at queue f l)
  unfolding links_at drop_entry drop_link
  links_at-drop_entry f i [] = refl
  links_at-drop_entry f i (x ∷ l) = ground (arith, links_at-drop_entry f i l)

  -- Where the indices grow, a found pointer is the only one with its index.
  Only : Store → ℕ → ℕ → List ℕ → Type 0
  Only f i at l = All (λ x. has_index f i x ≡ true → x ≡ at) l

  none_above :
      (f : Store) (i at : ℕ) (l : List ℕ)
      → All (λ k. i < k.index) (links_at queue f l)
      → Only f i at l
  unfolding links_at Only
  none_above f i at [] all = tt
  none_above f i at (x ∷ l) all =
      (λ e. absurd (ground (arith, e, all.0)), none_above f i at l all.1)

  found-Only :
      (f : Store) (i at : ℕ) (l : List ℕ)
      → Increasing (links_at queue f l)
      → find_entry (has_index f i) l ≡ some at
      → ((f at).link.index ≡ i) × Only f i at l
  unfolding links_at find_entry Increasing Only
  found-Only f i at [] s h = cc h
  found-Only f i at (x ∷ l) s h = elim (Bool-cases (has_index f i x)) [
    | inl e ↦
        let here : x ≡ at = ground (arith, h, e) in
        let index : (f x).link.index ≡ i = ground (arith, e) in
        (ground (arith, index, here), (λ k. here, none_above f i at l (rw (← index) s.0)))
    | inr e ↦
        let rest = found-Only f i at l s.1 (ground (arith, h, e)) in
        (rest.0, (λ k. absurd (ground (arith, e, k)), rest.1))
  ]

  set-Only :
      (f : Store) (i at flags : ℕ) (l : List ℕ)
      → (f at).link.index ≡ i
      → Only f i at l
      → links_at queue (update f at (record (f at) { link = with_flags (f at).link flags })) l
        ≡ set_flags i flags (links_at queue f l)
  unfolding links_at set_flags Only
  set-Only f i at flags [] e only = refl
  set-Only f i at flags (x ∷ l) e only = elim (Bool-cases (x == at)) [
    | inl here ↦ ground (arith, here, e, set-Only f i at flags l e only.1)
    | inr other ↦ ground (arith, other, only.0, set-Only f i at flags l e only.1)
  ]

  pub links_at-set_flags :
      (f : Store) (i at flags : ℕ) (l : List ℕ)
      → Increasing (links_at queue f l)
      → find_entry (has_index f i) l ≡ some at
      → links_at queue (update f at (record (f at) { link = with_flags (f at).link flags })) l
        ≡ set_flags i flags (links_at queue f l)
  links_at-set_flags f i at flags l s h =
      let (e, only) = found-Only f i at l s h in set-Only f i at flags l e only
