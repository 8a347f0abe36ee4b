-- ===== src/Tracky/Task.antt =====
-- tracky/src/trackeroo/task.go: what every task of the firmware keeps. The clock is an argument.
use trackeroo.Base.{
  ℕ, ◌+◌, ◌-◌, ◌%◌, ◌^◌, ◌<◌, ◌≡◌, Bool, true, false, Bytes, ℤ, pos, negsuc, ltb, if◌then◌else◌,
  arith, Bool-cases, inl, inr,
}

abbrev pub two64 : ℕ
two64 = 2 ^ 64

-- the conversions `int(x)` and `uint64(x)` on 64 bits
unfoldable pub to_int : ℕ → ℤ
to_int n = if ltb n (2 ^ 63) then pos n else negsuc (two64 - 1 - n)

unfoldable pub to_uint64 : ℤ → ℕ
to_uint64 (pos n) = n % two64
to_uint64 (negsuc n) = two64 - 1 - n % two64

-- subtraction of uint64
unfoldable pub sub64 : ℕ → ℕ → ℕ
sub64 a b = (a + (two64 - b)) % two64

pub record TaskState : Type 0 where
  pub name : Bytes
  pub running : Bool
  pub resetting : Bool
  pub reason : ℤ
  pub wtd : ℤ
  pub kicked : ℕ

unfoldable pub new_task : Bytes → ℕ → TaskState
new_task name now = record {
  name = name;
  running = false;
  resetting = false;
  reason = pos 0;
  wtd = pos 120;
  kicked = now;
}

unfoldable pub kick : ℕ → TaskState → TaskState
kick now t = record t { kicked = now }

unfoldable pub kill : TaskState → TaskState
kill t = record t { running = false }

unfoldable pub reset : ℤ → TaskState → TaskState
reset reason t = record t { reason = reason; resetting = true }

unfoldable pub is_resetting : TaskState → Bool
is_resetting t = t.resetting

-- As in the source, the answer is the field `resetting`.
unfoldable pub is_running : TaskState → Bool
is_running t = t.resetting

unfoldable pub last_kick : TaskState → ℤ
unfolding to_int
last_kick t = to_int t.kicked

pub to_uint64-to_int : (n : ℕ) → n < two64 → to_uint64 (to_int n) ≡ n
unfolding to_uint64 to_int
to_uint64-to_int n h = elim (Bool-cases (ltb n (2 ^ 63))) [
  | inl e ↦ rw (e, to_uint64) (omega arith)
  | inr e ↦ rw (e, to_uint64) (omega arith)
]

-- Within the range, the difference is that of the numbers if the first is not below the second,
-- and wraps around otherwise.
pub sub64_forward : (a b : ℕ) → b < two64 → a < two64 → ¬ (a < b) → sub64 a b ≡ a - b
unfolding sub64
sub64_forward a b hb ha h = omega arith

pub sub64_wraps : (a b : ℕ) → b < two64 → a < b → sub64 a b ≡ two64 - (b - a)
unfolding sub64
sub64_wraps a b hb h = omega arith
