-- ===== src/Plugin/Priority.antt =====
-- Lists of plugins in the order of their priorities.
use mptcpd.Common.{
  ℕ, ◌&&◌, not, Bool, true, false, Option, none, some, List, [], ◌∷◌, ◌++◌, ℤ, less, not_less_trans,
  less_asym, if◌then◌else◌, All, ◌≡◌, refl, append_assoc, arith, Bool-cases, inl, inr,
}
use mptcpd.Ell.Queue.{insert_entry}
use mptcpd.Plugin.Load.{PluginInfo, Linker, compare_plugin_priority, plugin_of, path}

-- `q` does not have to come before `p`.
abbrev pub NotBefore : PluginInfo → PluginInfo → Type 0
NotBefore p q = less q.desc.priority p.desc.priority ≡ false

-- No plugin stands behind one of a less favourable priority.
unfoldable pub Sorted : List PluginInfo → Type 0
Sorted [] = Unit
Sorted (p ∷ rest) = All (NotBefore p) rest × Sorted rest

abbrev pub same_priority : ℤ → PluginInfo → Bool
same_priority k p = not (less k p.desc.priority) && not (less p.desc.priority k)

-- The plugins of one priority.
unfoldable pub at_priority : ℤ → List PluginInfo → List PluginInfo
at_priority k [] = []
at_priority k (p ∷ rest) = if same_priority k p then p ∷ at_priority k rest else at_priority k rest

abbrev pub prepend : Option PluginInfo → List PluginInfo → List PluginInfo
prepend none l = l
prepend (some p) l = p ∷ l

-- The list of a queue after an attempt to load a plugin.
abbrev pub add : Option PluginInfo → List PluginInfo → List PluginInfo
add none l = l
add (some p) l = insert_entry compare_plugin_priority p l

-- The plugins that the linker finds, in the order of the request.
unfoldable pub found : Linker → List ℕ → List (List ℕ) → List PluginInfo
found dl dir [] = []
found dl dir (name ∷ rest) = prepend (plugin_of dl (path dir name)) (found dl dir rest)

insert_before :
    (a x : PluginInfo) (xs : List PluginInfo)
    → less a.desc.priority x.desc.priority ≡ true
    → insert_entry compare_plugin_priority a (x ∷ xs) ≡ a ∷ x ∷ xs
unfolding insert_entry compare_plugin_priority
insert_before a x xs h = ground (arith, h)

insert_behind :
    (a x : PluginInfo) (xs : List PluginInfo)
    → less a.desc.priority x.desc.priority ≡ false
    → insert_entry compare_plugin_priority a (x ∷ xs)
      ≡ x ∷ insert_entry compare_plugin_priority a xs
unfolding insert_entry compare_plugin_priority
insert_behind a x xs h = ground (arith, h)

pub All-insert_entry :
    (P : PluginInfo → Type 0) (a : PluginInfo) (l : List PluginInfo)
    → P a
    → All P l
    → All P (insert_entry compare_plugin_priority a l)
unfolding insert_entry
All-insert_entry P a [] h all = (h, tt)
All-insert_entry P a (x ∷ xs) h all = elim (Bool-cases (less a.desc.priority x.desc.priority)) [
  | inl lt ↦ rw (insert_before a x xs lt) (h, all)
  | inr ge ↦ rw (insert_behind a x xs ge) (all.0, All-insert_entry P a xs h all.1)
]

All-weaken :
    (a x : PluginInfo) (l : List PluginInfo)
    → NotBefore a x
    → All (NotBefore x) l
    → All (NotBefore a) l
All-weaken a x [] h all = tt
All-weaken a x (y ∷ l) h all = (
  not_less_trans a.desc.priority x.desc.priority y.desc.priority h all.0,
  All-weaken a x l h all.1,
)

pub Sorted-insert_entry :
    (a : PluginInfo) (l : List PluginInfo)
    → Sorted l
    → Sorted (insert_entry compare_plugin_priority a l)
unfolding insert_entry Sorted
Sorted-insert_entry a [] s = (tt, tt)
Sorted-insert_entry a (x ∷ xs) s = elim (Bool-cases (less a.desc.priority x.desc.priority)) [
  | inl lt ↦
      let ge = less_asym a.desc.priority x.desc.priority lt in
      rw (insert_before a x xs lt) ((ge, All-weaken a x xs ge s.0), s)
  | inr ge ↦
      rw (insert_behind a x xs ge)
        (All-insert_entry (NotBefore x) a xs ge s.0, Sorted-insert_entry a xs s.1)
]

-- All of a list is less urgent than `k`.
at_priority_none :
    (k : ℤ) (x : PluginInfo) (l : List PluginInfo)
    → less k x.desc.priority ≡ true
    → All (NotBefore x) l
    → at_priority k l ≡ []
unfolding at_priority
at_priority_none k x [] h all = refl
at_priority_none k x (y ∷ l) h all =
    ground (arith, at_priority_none k x l h all.1, not_less_trans x.desc.priority y.desc.priority k)

-- Behind a plugin of priority `k` there is none, if the list starts with a less urgent one.
at_priority_later :
    (k : ℤ) (a x : PluginInfo) (xs : List PluginInfo)
    → less a.desc.priority x.desc.priority ≡ true
    → All (NotBefore x) xs
    → same_priority k a ≡ true
    → at_priority k (x ∷ xs) ≡ []
unfolding at_priority
at_priority_later k a x xs lt all same = ground (
  arith,
  lt,
  same,
  not_less_trans x.desc.priority k a.desc.priority,
  at_priority_none k x xs,
  all,
)

pub at_priority-insert_entry :
    (k : ℤ) (a : PluginInfo) (l : List PluginInfo)
    → Sorted l
    → at_priority k (insert_entry compare_plugin_priority a l)
      ≡ (if same_priority k a then at_priority k l ++ a ∷ [] else at_priority k l)
unfolding insert_entry Sorted at_priority
at_priority-insert_entry k a [] s = ground arith
at_priority-insert_entry k a (x ∷ xs) s = elim (Bool-cases (less a.desc.priority x.desc.priority)) [
  | inl lt ↦
      let later = at_priority_later k a x xs lt s.0 in
      ground (arith, insert_before a x xs lt, later)
  | inr ge ↦ ground (arith, insert_behind a x xs ge, at_priority-insert_entry k a xs s.1)
]

pub Sorted-add : (o : Option PluginInfo) (l : List PluginInfo) → Sorted l → Sorted (add o l)
Sorted-add none l s = s
Sorted-add (some p) l s = Sorted-insert_entry p l s

pub at_priority-add :
    (k : ℤ) (o : Option PluginInfo) (l rest : List PluginInfo)
    → Sorted l
    → at_priority k (add o l) ++ at_priority k rest
      ≡ at_priority k l ++ at_priority k (prepend o rest)
unfolding at_priority
at_priority-add k none l rest s = refl
at_priority-add k (some p) l rest s = elim (Bool-cases (same_priority k p)) [
  | inl e ↦ ground (
    arith,
    e,
    at_priority-insert_entry k p l s,
    append_assoc (at_priority k l) (p ∷ []) (at_priority k rest),
  )
  | inr e ↦ ground (arith, e, at_priority-insert_entry k p l s)
]
