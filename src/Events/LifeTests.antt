-- ===== src/Events/LifeTests.antt =====
-- The theorems on the life of the path manager, at inputs that meet their hypotheses.
use mptcpd.Common.{true, false, some, [], ◌∷◌, pos, ◌≡◌, refl}
use mptcpd.Events.Lifecycle.{
  Life, appeared, answered, is_ready, is_not_ready, notify_all, notify_pm_ready,
  notify_pm_not_ready, complete_pm_init, family_appeared, family_vanished, run, run-family_appeared,
}
use mptcpd.Events.Notices.{watched, Reach, created, appears, answers, vanishes, Told, Reach-Told}

abbrev idle : Life
idle = record { family = false; id = 0; event_ops = watched 7; dumping = false }

run-family_appeared_example :
    run (appeared true (pos 0) ∷ answered true 3 ∷ []) (family_appeared true (pos 1) idle)
    ≡ some (family_appeared true (pos 1) idle, [])
run-family_appeared_example =
    run-family_appeared (appeared true (pos 0) ∷ answered true 3 ∷ []) idle (pos 1) refl refl
      (refl, (refl, tt))

-- The family appears, the answer comes, and the family ends.
history : Reach 7 idle (is_ready 7 ∷ is_not_ready 7 ∷ [])
unfolding notify_all notify_pm_ready notify_pm_not_ready complete_pm_init family_appeared
    family_vanished
history =
    vanishes
      (answers true 3 (appears {pm = idle} {ns = []} true (pos 0) (created refl refl refl) refl)
        refl refl)
      refl refl

Reach-Told_example : Told 7 idle (is_ready 7 ∷ is_not_ready 7 ∷ [])
Reach-Told_example = Reach-Told 7 idle (is_ready 7 ∷ is_not_ready 7 ∷ []) history
