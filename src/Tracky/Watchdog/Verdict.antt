-- ===== src/Tracky/Watchdog/Verdict.antt =====
-- When the watchdog stops the firmware.
use trackeroo.Base.{
  not_both, ℕ, ◌-◌, ◌≤◌, ◌<◌, ◌≡◌, ◌↔◌, refl, ap, ◌∙◌, inl, inr, true, false, List, [], ◌∷◌, All,
  pos, ltb, arith, Bool-cases, lt-cases, ◌^◌, ◌⊎◌,
}
use trackeroo.Tracky.Task.{
  TaskState, is_resetting, last_kick, to_uint64, sub64, to_uint64-to_int, sub64_forward,
  sub64_wraps,
}
use trackeroo.Tracky.Watchdog.{
  panics, TaskManager, watchdog, stop, is_late, check_tasks, Pass, one_pass, kill_all, watch,
}

-- A task with the watchdog of `NewTask`, `NewAgent` and `NewTdmClient`, and a kick in the range of
-- the Unix times.
abbrev pub IsSane : TaskState → Type 0
IsSane t = (t.wtd ≡ pos 120) × (t.kicked < 2 ^ 63)

-- The task is not resetting, and kicked at most 120 seconds before `now`, and not after it.
abbrev pub IsAlive : ℕ → TaskState → Type 0
IsAlive now t = (t.resetting ≡ false) × (t.kicked ≤ now) × (now - t.kicked ≤ 120)

minutes : to_uint64 (pos 120) ≡ 120
unfolding to_uint64
minutes = refl

late_lem : (now : ℕ) (t : TaskState) → IsSane t → is_late now t ≡ ltb 120 (sub64 now t.kicked)
unfolding is_late last_kick
late_lem now t v =
    ap (λ k. ltb (to_uint64 t.wtd) (sub64 now k)) (to_uint64-to_int t.kicked (omega (arith, v.1)))
    ∙ ap (λ s. ltb s (sub64 now t.kicked)) (ap to_uint64 v.0 ∙ minutes)

not_late :
    (now : ℕ) (t : TaskState) → now < 2 ^ 63 → IsSane t → IsAlive now t → is_late now t ≡ false
not_late now t b v a =
    late_lem now t v
    ∙ ground (
      arith,
      sub64_forward now t.kicked (omega (arith, v.1)) (omega arith) (omega (arith, a.1)),
      a.2,
    )

late :
    (now : ℕ) (t : TaskState)
    → now < 2 ^ 63
    → IsSane t
    → ¬ ((t.kicked ≤ now) × (now - t.kicked ≤ 120))
    → is_late now t ≡ true
late now t b v a = elim (lt-cases now t.kicked) [
  | inl l ↦ late_lem now t v ∙ ground (arith, sub64_wraps now t.kicked (omega (arith, v.1)) l)
  | inr l ↦
      late_lem now t v
      ∙ ground (arith, sub64_forward now t.kicked (omega (arith, v.1)) (omega arith) (omega arith))
]

check_resetting :
    (now : ℕ) (t : TaskState) (ts : List TaskState) (m : TaskManager)
    → t.resetting ≡ true
    → check_tasks now (t ∷ ts) m ≡ stop t.reason m
unfolding check_tasks is_resetting
check_resetting now t ts m e = rw e

check_alive :
    (now : ℕ) (t : TaskState) (ts : List TaskState) (m : TaskManager)
    → t.resetting ≡ false
    → is_late now t ≡ false
    → check_tasks now (t ∷ ts) m ≡ check_tasks now ts m
unfolding check_tasks is_resetting
check_alive now t ts m e f = rw (e, f)

check_late :
    (now : ℕ) (t : TaskState) (ts : List TaskState) (m : TaskManager)
    → t.resetting ≡ false
    → is_late now t ≡ true
    → check_tasks now (t ∷ ts) m ≡ check_tasks now ts (stop watchdog m)
unfolding check_tasks is_resetting
check_late now t ts m e f = rw (e, f)

-- A manager that has stopped is not started again by the rest of the pass.
stays_stopped :
    (now : ℕ) (ts : List TaskState) (m : TaskManager)
    → m.own.running ≡ false
    → (check_tasks now ts m).own.running ≡ false
unfolding check_tasks
stays_stopped now [] m e = e
stays_stopped now (t ∷ ts) m e = elim (Bool-cases t.resetting) [
  | inl r ↦ rw (check_resetting now t ts m r) refl
  | inr r ↦ elim (Bool-cases (is_late now t)) [
    | inl l ↦ rw (check_late now t ts m r l) (stays_stopped now ts (stop watchdog m) refl)
    | inr l ↦ rw (check_alive now t ts m r l) (stays_stopped now ts m e)
  ]
]

is_alive? :
    (now : ℕ) (t : TaskState)
    → (IsAlive now t) ⊎ ((t.resetting ≡ true) ⊎ ¬ ((t.kicked ≤ now) × (now - t.kicked ≤ 120)))
is_alive? now t = elim (Bool-cases t.resetting) [
  | inl r ↦ inr (inl r)
  | inr r ↦ elim (lt-cases now t.kicked) [
    | inl l ↦ inr (inr (λ a. omega (arith, a.0)))
    | inr l ↦ elim (lt-cases 120 (now - t.kicked)) [
      | inl d ↦ inr (inr (λ a. omega (arith, a.1)))
      | inr d ↦ inl (r, l, d)
    ]
  ]
]

check_running :
    (now : ℕ) (ts : List TaskState) (m : TaskManager)
    → now < 2 ^ 63
    → All IsSane ts
    → (check_tasks now ts m).own.running ≡ true
    → All (IsAlive now) ts
check_running now [] m b v h = tt
check_running now (t ∷ ts) m b v h = elim (is_alive? now t) [
  | inl a ↦ (
    a,
    check_running now ts m b v.1 (rw (check_alive now t ts m a.0 (not_late now t b v.0 a)) at h),
  )
  | inr (inl r) ↦ absurd (not_both h (rw (check_resetting now t ts m r) refl))
  | inr (inr d) ↦ elim (Bool-cases t.resetting) [
    | inl r ↦ absurd (not_both h (rw (check_resetting now t ts m r) refl))
    | inr r ↦ absurd (
        not_both h (
          rw (check_late now t ts m r (late now t b v.0 d))
            (stays_stopped now ts (stop watchdog m) refl)))
  ]
]

check_everyone :
    (now : ℕ) (ts : List TaskState) (m : TaskManager)
    → now < 2 ^ 63
    → All IsSane ts
    → All (IsAlive now) ts
    → check_tasks now ts m ≡ m
unfolding check_tasks
check_everyone now [] m b v a = refl
check_everyone now (t ∷ ts) m b v a =
    check_alive now t ts m a.0.0 (not_late now t b v.0 a.0) ∙ check_everyone now ts m b v.1 a.1

-- A pass of the watchdog lets the firmware run on exactly if every task is alive: none is
-- resetting, none was kicked more than 120 seconds before the clock was read, and none was kicked
-- after that. The last is a wrap-around of uint64, by which a task that kicks while the pass runs
-- stops the firmware.
pub check_tasks_iff :
    (now : ℕ) (ts : List TaskState) (m : TaskManager)
    → now < 2 ^ 63
    → All IsSane ts
    → m.own.running ≡ true
    → ((check_tasks now ts m).own.running ≡ true) ↔ All (IsAlive now) ts
check_tasks_iff now ts m b v e =
    (check_running now ts m b v, λ a. rw (check_everyone now ts m b v a) e)

pub pass_tasks :
    (now : ℕ) (ts : List TaskState) (m : TaskManager) → (check_tasks now ts m).tasks ≡ m.tasks
unfolding check_tasks
pass_tasks now [] m = refl
pass_tasks now (t ∷ ts) m = elim (Bool-cases t.resetting) [
  | inl r ↦ rw (check_resetting now t ts m r) refl
  | inr r ↦ elim (Bool-cases (is_late now t)) [
    | inl l ↦ rw (check_late now t ts m r l) (pass_tasks now ts (stop watchdog m))
    | inr l ↦ rw (check_alive now t ts m r l) (pass_tasks now ts m)
  ]
]

pub watch_stopped :
    (ps : List Pass) (m : TaskManager) → m.own.running ≡ false → watch ps m ≡ panics (kill_all m)
unfolding watch
watch_stopped [] m e = rw e
watch_stopped (p ∷ ps) m e = rw e

pub watch_running :
    (p : Pass) (ps : List Pass) (m : TaskManager)
    → m.own.running ≡ true
    → watch (p ∷ ps) m ≡ watch ps (one_pass p m)
unfolding watch
watch_running p ps m e = rw e

abbrev pub PassSane : Pass → Type 0
PassSane p = (p.now < 2 ^ 63) × All IsSane p.tasks

abbrev pub PassAlive : Pass → Type 0
PassAlive p = All (IsAlive p.now) p.tasks
