-- ===== src/Tracky/Watchdog/Shutdown.antt =====
-- How the loop of `Start` ends, and what `Shutdown` does to it.
use trackeroo.Base.{
  not_both, ◌≡◌, ◌↔◌, refl, ap, ◌∙◌, sym, inl, inr, true, false, List, [], ◌∷◌, ◌++◌, All, map, ℤ,
  Bool-cases,
}
use trackeroo.Tracky.Task.{kill}
use trackeroo.Tracky.Watchdog.{
  TaskManager, Watched, runs, panics, shutdown, Pass, one_pass, kill_all, watch, start,
}
use trackeroo.Tracky.Watchdog.Verdict.{
  PassSane, PassAlive, check_tasks_iff, pass_tasks, watch_stopped, watch_running,
}

-- What `Start` does along a list of passes.
pub data Ends (ps : List Pass) (res : Watched) : Type 0 where
  runs_on : All PassAlive ps → res ≡ runs → Ends ps res
  shuts_down :
      (alive : List Pass) (p : Pass) (rest : List Pass) (m : TaskManager)
      → ps ≡ alive ++ p ∷ rest
      → All PassAlive alive
      → ¬ PassAlive p
      → res ≡ panics m
      → m.own.running ≡ false
      → m.tasks ≡ map kill p.tasks
      → Ends ps res

pass_iff :
    (p : Pass) (m : TaskManager)
    → PassSane p
    → m.own.running ≡ true
    → ((one_pass p m).own.running ≡ true) ↔ PassAlive p
unfolding one_pass
pass_iff p m v e = check_tasks_iff p.now p.tasks (record m { tasks = p.tasks }) v.0 v.1 e

one_pass-tasks : (p : Pass) (m : TaskManager) → (one_pass p m).tasks ≡ p.tasks
unfolding one_pass
one_pass-tasks p m = pass_tasks p.now p.tasks (record m { tasks = p.tasks })

kill_all_lem :
    (m : TaskManager)
    → ((kill_all m).own.running ≡ m.own.running) × ((kill_all m).tasks ≡ map kill m.tasks)
unfolding kill_all
kill_all_lem m = (refl, refl)

watch_nil : (m : TaskManager) → m.own.running ≡ true → watch [] m ≡ runs
unfolding watch
watch_nil m e = rw e

after_pass :
    (p : Pass) (ps : List Pass) (res : Watched) → PassAlive p → Ends ps res → Ends (p ∷ ps) res
after_pass p ps res a (runs_on all e) = runs_on (a, all) e
after_pass p ps res a (shuts_down alive q rest m s all n e r t) =
    shuts_down (p ∷ alive) q rest m (ap (λ l. p ∷ l) s) (a, all) n e r t

watch-Ends :
    (ps : List Pass) (m : TaskManager)
    → All PassSane ps
    → m.own.running ≡ true
    → Ends ps (watch ps m)
watch-Ends [] m v e = runs_on tt (watch_nil m e)
watch-Ends (p ∷ ps) m v e = elim (Bool-cases (one_pass p m).own.running) [
  | inl r ↦ rw (watch_running p ps m e) (
      after_pass p ps (watch ps (one_pass p m)) ((pass_iff p m v.0 e).0 r)
        (watch-Ends ps (one_pass p m) v.1 r))
  | inr r ↦
      let (own, tasks) = kill_all_lem (one_pass p m) in
      shuts_down [] p ps (kill_all (one_pass p m)) refl tt
        (λ a. not_both ((pass_iff p m v.0 e).1 a) r)
        (watch_running p ps m e ∙ watch_stopped ps (one_pass p m) r) (own ∙ r)
        (tasks ∙ ap (map kill) (one_pass-tasks p m))
]

-- Along every list of passes of the watchdog, `Start` runs on exactly while all tasks are alive: at
-- the first pass with a task that is not, it kills every task and panics, not running. The clock
-- and the kicks are Unix times, and each task has the watchdog of 120 seconds.
pub start-Ends : (ps : List Pass) (m : TaskManager) → All PassSane ps → Ends ps (start ps m)
unfolding start
start-Ends ps m v = watch-Ends ps (record m { own = record m.own { running = true } }) v refl

All-middle : (xs ys : List Pass) (p : Pass) → All PassAlive (xs ++ p ∷ ys) → PassAlive p
All-middle [] ys p a = a.0
All-middle (x ∷ xs) ys p a = All-middle xs ys p a.1

no_panic : (m : TaskManager) → panics m ≡ runs → ⊥
no_panic m e = cc

Ends-iff : (ps : List Pass) (res : Watched) → Ends ps res → (res ≡ runs) ↔ All PassAlive ps
Ends-iff ps res (runs_on all e) = (λ h. all, λ h. e)
Ends-iff ps res (shuts_down alive p rest m s all n e r t) =
    (λ h. absurd (no_panic m (sym e ∙ h)), λ h. absurd (n (All-middle alive rest p (rw s at h))))

-- `Shutdown` does not shut down: whatever the reason, a manager that was told to shut down before
-- `Start` runs on along exactly the same passes as one that was not.
pub start-shutdown :
    (ps : List Pass) (m : TaskManager) (reason : ℤ)
    → All PassSane ps
    → (start ps (shutdown reason m) ≡ runs) ↔ (start ps m ≡ runs)
start-shutdown ps m reason v =
    let told = Ends-iff ps (start ps (shutdown reason m)) (start-Ends ps (shutdown reason m) v) in
    let plain = Ends-iff ps (start ps m) (start-Ends ps m v) in
    (λ h. plain.1 (told.0 h), λ h. told.1 (plain.0 h))
