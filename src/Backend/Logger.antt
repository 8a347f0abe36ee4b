-- ===== src/Backend/Logger.antt =====
-- trackeroo-backend/src/internal/logger/logger.go: the level, the channel of 1024 messages, and the
-- goroutine that prints them. What stands before a message (the time, a coloured level) is left out.
use trackeroo.Base.{
  ◌≡◌, ap, sym, ◌∙◌, ℕ, ◌-◌, ltb, leb, ◌&&◌, not, Bool, true, false, Option, none, some, List, [],
  ◌∷◌, ◌++◌, append-nil, append_assoc, map, length, keep, Bytes, codes, bytes_eq, if◌then◌else◌,
  Bool-cases, inl, inr, arith,
}

-- DEBUG, INFO, WARNING, ERROR, DISABLED and FATAL are 0 to 5.
abbrev pub fatal_level : ℕ
fatal_level = 5

-- `strings.ToUpper` on ASCII
to_upper : Bytes → Bytes
to_upper s = map (λ c. if leb b'a' c && leb c b'z' then c - 32 else c) s

unfoldable pub level_of : Bytes → ℕ
unfolding to_upper bytes_eq
level_of variable =
    let name = to_upper variable in
    if bytes_eq name (codes "DEBUG")
    then 0
    else if bytes_eq name (codes "INFO")
    then 1
    else if bytes_eq name (codes "WARNING")
    then 2
    else if bytes_eq name (codes "ERROR")
    then 3
    else if bytes_eq name (codes "FATAL")
    then 5
    else if bytes_eq name (codes "DISABLED")
    then 4
    else 1

-- A message and its level.
abbrev pub Entry : Type 0
Entry = ℕ × Bytes

pub record Logger : Type 0 where
  pub log_level : ℕ
  pub waiting : List Entry
  pub printed : List Entry

unfoldable pub init_logger : Bytes → Logger
unfolding level_of
init_logger variable = record { log_level = level_of variable; waiting = []; printed = [] }

-- `Debug`, `Info`, `Warning` and `Error`: the sender is blocked while the channel is full.
unfoldable pub log : Entry → Logger → Option Logger
log e l =
    if ltb (length l.waiting) 1024 then some (record l { waiting = l.waiting ++ e ∷ [] }) else none

-- one turn of the goroutine
unfoldable pub run_one : Logger → Logger
run_one l = elim l.waiting [
  | [] ↦ l
  | e ∷ rest ↦
      if ltb e.0 l.log_level
      then record l { waiting = rest }
      else record l { waiting = rest; printed = l.printed ++ e ∷ [] }
]

-- `Fatal` prints at once; `true` is the end of the program.
unfoldable pub fatal : Bytes → Logger → Logger × Bool
fatal message l =
    if leb l.log_level fatal_level
    then (record l { printed = l.printed ++ (fatal_level, message) ∷ [] }, true)
    else (l, false)

-- as many turns as there are messages
unfoldable pub run_all : List Entry → Logger → Logger
unfolding run_one
run_all [] l = l
run_all (e ∷ es) l = run_all es (run_one l)

-- what passes the level
abbrev pub shown : ℕ → List Entry → List Entry
shown level = keep (λ e. not (ltb e.0 level))

-- The goroutine prints the messages that pass the level, each once and in the order in which they
-- were logged, and leaves no message behind.
pub run_all-shown :
    (es : List Entry) (level : ℕ) (before : List Entry)
    → run_all es (record { log_level = level; waiting = es; printed = before })
      ≡ record { log_level = level; waiting = []; printed = before ++ shown level es }
unfolding run_all run_one keep
run_all-shown [] level before =
    ap (λ p. record { log_level = level; waiting = []; printed = p }) (sym (append-nil before))
run_all-shown (e ∷ es) level before = elim (Bool-cases (ltb e.0 level)) [
  | inl f ↦ rw f (run_all-shown es level before)
  | inr f ↦ rw f (
      run_all-shown es level (before ++ e ∷ [])
      ∙ ap (λ p. record { log_level = level; waiting = []; printed = p })
          (append_assoc before (e ∷ []) (shown level es)))
]

-- `Fatal` ends the program at every level that InitLogger can set.
pub fatal-init_logger : (variable message : Bytes) → (fatal message (init_logger variable)).1 ≡ true
unfolding fatal init_logger level_of
fatal-init_logger variable message = ground arith
