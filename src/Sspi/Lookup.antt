-- ===== src/Sspi/Lookup.antt =====
-- The table of tokens by interface, and the search for the object of an interface.
use mptcpd.Common.{
  ℕ, ◌+◌, ◌<◌, false, none, some, [], ◌==◌, is_some, if◌then◌else◌, All, update, ◌≡◌, refl, sym, ap,
  subst, ◌∙◌, arith, Option-cases, inl, inr,
}
use mptcpd.Ell.Queue.{Queue, insert_entry, All-insert_entry}
use mptcpd.NetworkMonitor.LinkSpec.{Takes, grown}
use mptcpd.Sspi.{Info, Sspi, append, info_of_index, set_tokens}
use mptcpd.Sspi.Infos.{
  times, absent_fresh, has_index, Apart, times_at, find_index, times_at-update, Apart-same,
  All-update, All-set, has_index_same, times_at-insert_entry, Apart-insert_entry, find-insert_entry,
  has_index_find, times_found, times_set,
}

module _ (queue : Queue ℕ) where
  open queue use {Q, entries, insert, find, new}

  -- The objects in use are below `fresh`, and there is one for an index.
  pub record Inv (s : Sspi queue) : Type 0 where
    pub below : All (λ at. at < s.fresh) (entries s.interfaces)
    pub apart : Apart queue s.info_at (entries s.interfaces)

  -- How often the plugin has a token for the interface of an index.
  unfoldable pub tokens : Sspi queue → ℕ → ℕ → ℕ
  tokens s i t = times_at queue s.info_at (entries s.interfaces) i t

  -- A search led to the object at `a` for index `i`, with nothing else changed.
  pub record Found (s s' : Sspi queue) (i a : ℕ) : Type 0 where
    pub valid : Inv s'
    pub same : (j t : ℕ) → tokens s' j t ≡ tokens s j t
    pub at : find_index queue s'.info_at i (entries s'.interfaces) ≡ some a

  find_known :
      (i : ℕ) (s : Sspi queue) (a : ℕ)
      → find s.interfaces (λ k. (s.info_at k).index == i) ≡ some a
      → info_of_index queue i s ≡ (s, some a)
  unfolding info_of_index
  find_known i s a h = ground (arith, h)

  -- The object that is made for an index.
  abbrev made : ℕ → Sspi queue → Sspi queue
  made i s = record s {
    interfaces = (insert s.interfaces s.fresh append).0;
    info_at = update s.info_at s.fresh (record { index = i; tokens = new });
    fresh = s.fresh + 1;
  }

  find_new :
      (i : ℕ) (s : Sspi queue)
      → Takes queue
      → find s.interfaces (λ k. (s.info_at k).index == i) ≡ none
      → info_of_index queue i s ≡ (made i s, some s.fresh)
  unfolding info_of_index
  find_new i s takes h = ground (arith, h, takes s.interfaces s.fresh append)

  made-Found :
      (i : ℕ) (s : Sspi queue)
      → Takes queue
      → Inv s
      → has_index queue s.info_at (entries s.interfaces) i ≡ false
      → Found s (made i s) i s.fresh
  unfolding tokens
  made-Found i s takes inv free =
      let l = entries s.interfaces in
      let v : Info queue = record { index = i; tokens = new } in
      let f = update s.info_at s.fresh v in
      let e : entries (made i s).interfaces ≡ insert_entry append s.fresh l = ground (
        arith,
        queue.entries-insert s.interfaces s.fresh append,
        takes s.interfaces s.fresh append,
      ) in
      let out = absent_fresh s.fresh l inv.below in
      let here : (f s.fresh) ≡ v = ground arith in
      let same = All-update queue s.info_at s.fresh v l out in
      let free' : has_index queue f l (f s.fresh).index ≡ false =
        ap (λ w. has_index queue f l w.index) here
        ∙ has_index_same queue s.info_at f l i same
        ∙ free in
      let empty : entries (f s.fresh).tokens ≡ [] =
        ap (λ w. entries w.tokens) here ∙ queue.entries-new in
      record {
        valid = record {
          below = subst (All (λ k. k < s.fresh + 1)) (sym e) (
              All-insert_entry (λ k. k < s.fresh + 1) append s.fresh l (omega arith)
                (grown l s.fresh inv.below));
          apart = subst (Apart queue f) (sym e) (
              Apart-insert_entry queue f s.fresh l free'
                (Apart-same queue s.info_at f l same inv.apart));
        };
        same = λ j t.
            ap (λ k. times_at queue f k j t) e
            ∙ times_at-insert_entry queue f s.fresh l j t empty
            ∙ times_at-update queue s.info_at s.fresh v l j t out;
        at =
            ap (λ k. find_index queue f i k) e
            ∙ ap (λ w. find_index queue f w.index (insert_entry append s.fresh l)) (sym here)
            ∙ find-insert_entry queue f s.fresh l free';
      }

  -- The search for the object of an index, which makes it where it is missing.
  pub info_of_index-Found :
      (i : ℕ) (s : Sspi queue)
      → Takes queue
      → Inv s
      → (a : ℕ) × (s' : Sspi queue) × (info_of_index queue i s ≡ (s', some a)) × Found s s' i a
  info_of_index-Found i s takes inv =
      let same = queue.find-entries s.interfaces (λ k. (s.info_at k).index == i) in
      elim (Option-cases (find s.interfaces (λ k. (s.info_at k).index == i))) [
        | inl h ↦
            let free : has_index queue s.info_at (entries s.interfaces) i ≡ false =
              has_index_find queue s.info_at i (entries s.interfaces) ∙ ap is_some (sym same ∙ h) in
            (s.fresh, made i s, find_new i s takes h, made-Found i s takes inv free)
        | inr (a, h) ↦ (
          a,
          s,
          find_known i s a h,
          record { valid = inv; same = λ j t. refl; at = sym same ∙ h },
        )
      ]

  -- The tokens of an object that was found.
  pub tokens-Found :
      (s s' : Sspi queue) (i a t : ℕ)
      → Found s s' i a
      → times t (entries (s'.info_at a).tokens) ≡ tokens s i t
  unfolding tokens
  tokens-Found s s' i a t found =
      sym (times_found queue s'.info_at i a (entries s'.interfaces) t found.at) ∙ found.same i t

  -- What other tokens for it change.
  pub set_tokens-Found :
      (s s' : Sspi queue) (i a : ℕ) (q : Q)
      → Found s s' i a
      → Inv (set_tokens queue a q s')
        × ((j t : ℕ)
            → tokens (set_tokens queue a q s') j t
              ≡ (if i == j then times t (entries q) else tokens s j t))
  unfolding tokens
  set_tokens-Found s s' i a q found =
      let l = entries s'.interfaces in
      let v : Info queue = record (s'.info_at a) { tokens = q } in
      (
        record {
          below = found.valid.below;
          apart =
              Apart-same queue s'.info_at (update s'.info_at a v) l
                (All-set queue s'.info_at a v l refl) found.valid.apart;
        },
        λ j t.
            times_set queue s'.info_at i a q l j t found.at found.valid.apart
            ∙ ap (λ n. if i == j then times t (entries q) else n) (found.same j t),
      )
