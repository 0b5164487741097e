-- ===== src/Events/Notices.antt =====
-- What an observer of the path manager is told over any history.
use mptcpd.Common.{
  ℕ, ◌&&◌, Bool, true, false, not, some, List, [], ◌∷◌, ◌++◌, ℤ, ◌≡◌, refl, Bool-cases, subst, inl,
  inr, ◌∙◌, sym,
}
use mptcpd.Events.Lifecycle.{
  PmOps, Notice, is_ready, is_not_ready, Life, notify_all, notify_pm_ready, notify_pm_not_ready,
  complete_pm_init, is_zero, family_appeared, family_vanished,
}

-- One observer, with both callbacks.
abbrev pub watched : ℕ → List PmOps
watched d = record { ready = true; not_ready = true; user_data = d } ∷ []

-- What it was told last, and whether the notices alternate, where `told` is what came before.
abbrev pub last_told : Bool → List Notice → Bool
last_told told [] = told
last_told told (is_ready d ∷ rest) = last_told true rest
last_told told (is_not_ready d ∷ rest) = last_told false rest

abbrev pub alternates : Bool → List Notice → Bool
alternates told [] = true
alternates told (is_ready d ∷ rest) = not told && alternates true rest
alternates told (is_not_ready d ∷ rest) = told && alternates false rest

-- The histories of a path manager with one observer in which the command for the addresses never
-- fails, and the family does not end while its answer is awaited.
pub data Reach (d : ℕ) : Life → List Notice → Type 0 where
  created :
      {pm : Life}
      → pm.family ≡ false
      → pm.dumping ≡ false
      → pm.event_ops ≡ watched d
      → Reach d pm []
  appears :
      {pm : Life} {ns : List Notice} (info : Bool) (dump : ℤ)
      → Reach d pm ns
      → is_zero dump ≡ true
      → Reach d (family_appeared info dump pm) ns
  answers :
      {pm pm' : Life} {ns more : List Notice} (loaded : Bool) (id : ℕ)
      → Reach d pm ns
      → pm.dumping ≡ true
      → complete_pm_init loaded id pm ≡ some (pm', more)
      → Reach d pm' (ns ++ more)
  vanishes :
      {pm : Life} {ns : List Notice}
      → Reach d pm ns
      → pm.family ≡ true
      → pm.dumping ≡ false
      → Reach d (family_vanished pm).0 (ns ++ (family_vanished pm).1)

pub record Told (d : ℕ) (pm : Life) (ns : List Notice) : Type 0 where
  pub observer : pm.event_ops ≡ watched d
  pub awaited : pm.dumping ≡ true → pm.family ≡ true
  pub last : last_told false ns ≡ (pm.family && not pm.dumping)
  pub alternating : alternates false ns ≡ true

last_told-append :
    (b : Bool) (ns more : List Notice) → last_told b (ns ++ more) ≡ last_told (last_told b ns) more
last_told-append b [] more = refl
last_told-append b (is_ready d ∷ ns) more = last_told-append true ns more
last_told-append b (is_not_ready d ∷ ns) more = last_told-append false ns more

alternates-append :
    (b : Bool) (ns more : List Notice)
    → alternates b (ns ++ more) ≡ (alternates b ns && alternates (last_told b ns) more)
alternates-append b [] more = refl
alternates-append true (is_ready d ∷ ns) more = refl
alternates-append false (is_ready d ∷ ns) more = alternates-append true ns more
alternates-append true (is_not_ready d ∷ ns) more = alternates-append false ns more
alternates-append false (is_not_ready d ∷ ns) more = refl

never : ¬ (false ≡ true)
never h = cc

appeared-Told :
    (d : ℕ) (pm : Life) (ns : List Notice) (info : Bool) (dump : ℤ)
    → is_zero dump ≡ true
    → Told d pm ns
    → Told d (family_appeared info dump pm) ns
unfolding family_appeared
appeared-Told d pm ns false dump z t = t
appeared-Told d pm ns true dump z t = elim (Bool-cases pm.family) [
  | inl f ↦ subst (λ p. Told d p ns) (sym (there f)) t
  | inr f ↦
      subst (λ p. Told d p ns) (sym (new f))
        (record {
          observer = t.observer;
          awaited = λ h. refl;
          last = t.last ∙ rw (f, z) refl;
          alternating = t.alternating;
        })
]
  where
    there : pm.family ≡ true → family_appeared true dump pm ≡ pm
    there f = rw (f, family_appeared) refl

    new :
        pm.family ≡ false
        → family_appeared true dump pm ≡ record pm { family = true; dumping = is_zero dump }
    new f = rw (f, family_appeared) refl

answered-Told :
    (d : ℕ) (pm : Life) (ns : List Notice) (id : ℕ)
    → pm.dumping ≡ true
    → Told d pm ns
    → Told d
        (record pm { id = id; dumping = false })
        (ns ++ notify_all notify_pm_ready pm.event_ops)
unfolding notify_all notify_pm_ready
answered-Told d pm ns id w t =
    let before : last_told false ns ≡ false = t.last ∙ rw w (not_both pm.family) in
    rw t.observer (record {
      observer = refl;
      awaited = λ h. absurd (never h);
      last = last_told-append false ns _ ∙ sym (rw (t.awaited w) refl);
      alternating = alternates-append false ns _ ∙ rw (t.alternating, before) refl;
    })
  where
    not_both : (b : Bool) → (b && false) ≡ false
    not_both true = refl
    not_both false = refl

vanished-Told :
    (d : ℕ) (pm : Life) (ns : List Notice)
    → pm.family ≡ true
    → pm.dumping ≡ false
    → Told d pm ns
    → Told d (family_vanished pm).0 (ns ++ (family_vanished pm).1)
unfolding family_vanished notify_all notify_pm_not_ready
vanished-Told d pm ns f w t =
    let before : last_told false ns ≡ true = t.last ∙ rw (f, w) refl in
    rw t.observer (record {
      observer = refl;
      awaited = λ h. absurd (never (sym w ∙ h));
      last = last_told-append false ns _;
      alternating = alternates-append false ns _ ∙ rw (t.alternating, before) refl;
    })

complete-some :
    (loaded : Bool) (id : ℕ) (pm pm' : Life) (more : List Notice)
    → complete_pm_init loaded id pm ≡ some (pm', more)
    → ◌≡◌ {A = Life × List Notice}
        (record pm { id = id; dumping = false }, notify_all notify_pm_ready pm.event_ops)
        (pm', more)
unfolding complete_pm_init
complete-some true id pm pm' more e = cc
complete-some false id pm pm' more e = absurd cc

-- In a history of a path manager with one observer, in which the command for the addresses never
-- fails and the family does not end while its answer is awaited, the observer is told in turn that
-- the path manager is ready and that it is not, ready first, and it was last told that it is ready
-- exactly if the family is there and the answer to the dump has come.
pub Reach-Told : (d : ℕ) (pm : Life) (ns : List Notice) → Reach d pm ns → Told d pm ns
Reach-Told d pm ns (created f w o) = record {
  observer = o;
  awaited = λ h. absurd (never (sym w ∙ h));
  last = rw f refl;
  alternating = refl;
}
Reach-Told d _ ns (appears {pm} info dump r z) =
    appeared-Told d pm ns info dump z (Reach-Told d pm ns r)
Reach-Told d _ _ (answers {pm} {pm'} {ns} {more} loaded id r w e) =
    subst (λ q. Told d q.0 (ns ++ q.1)) (complete-some loaded id pm pm' more e)
      (answered-Told d pm ns id w (Reach-Told d pm ns r))
Reach-Told d _ _ (vanishes {pm} {ns} r f w) = vanished-Told d pm ns f w (Reach-Told d pm ns r)
