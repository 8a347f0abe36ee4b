-- ===== src/Brokeroo/Connect.antt =====
-- brokeroo/cmd/brokeroo/main.go: the attempts of `connectMQTT`, and the start and the stop of the
-- service around them.
use trackeroo.Base.{
  ℕ, zero, suc, ◌+◌, ◌≤◌, ◌<◌, ◌≡◌, ◌∙◌, Bool, true, false, Option, none, some, arith, inl, inr,
  Bool-cases, ◌==◌, ==_iff, lt-cases, if◌then◌else◌,
}

-- The loop of `connectMQTT`: `answers i` says whether attempt number i, from 0, succeeds. It returns
-- the number of attempts made and whether the last one succeeded, and none when it is out of fuel.
unfoldable pub connect_mqtt : (ℕ → Bool) → ℕ → ℕ → Option (ℕ × Bool)
connect_mqtt answers zero c = none
connect_mqtt answers (suc fuel) c =
    let rest = connect_mqtt answers fuel (c + 1) in
    if answers c then some (c + 1, true) else (if c == 10 then some (c + 1, false) else rest)

-- How the attempts from number c on end: with the first that succeeds, or with the failure of
-- number 10.
pub data Connects (answers : ℕ → Bool) (c : ℕ) (res : Option (ℕ × Bool)) : Type 0 where
  connects :
      (n : ℕ)
      → c ≤ n
      → n ≤ 10
      → ((i : ℕ) → c ≤ i → i < n → answers i ≡ false)
      → answers n ≡ true
      → res ≡ some (n + 1, true)
      → Connects answers c res
  gives_up :
      ((i : ℕ) → c ≤ i → i ≤ 10 → answers i ≡ false)
      → res ≡ some (11, false)
      → Connects answers c res

connect_success :
    (answers : ℕ → Bool) (fuel c : ℕ)
    → answers c ≡ true
    → connect_mqtt answers (suc fuel) c ≡ some (c + 1, true)
unfolding connect_mqtt
connect_success answers fuel c e = ground arith

connect_last :
    (answers : ℕ → Bool) (fuel : ℕ)
    → answers 10 ≡ false
    → connect_mqtt answers (suc fuel) 10 ≡ some (11, false)
unfolding connect_mqtt
connect_last answers fuel e = ground arith

connect_again :
    (answers : ℕ → Bool) (fuel c : ℕ)
    → answers c ≡ false
    → c < 10
    → connect_mqtt answers (suc fuel) c ≡ connect_mqtt answers fuel (c + 1)
unfolding connect_mqtt
connect_again answers fuel c e l = ground (arith, ==_iff c 10)

connect_over :
    (answers : ℕ → Bool) (fuel c : ℕ)
    → answers c ≡ false
    → c ≡ 10
    → connect_mqtt answers (suc fuel) c ≡ some (11, false)
connect_over answers fuel c e t = rw t (connect_last answers fuel (rw t at e))

fails_only : (answers : ℕ → Bool) (c i : ℕ) → answers c ≡ false → c ≡ i → answers i ≡ false
fails_only answers c i e t = rw t at e

fails_here :
    (answers : ℕ → Bool) (c i : ℕ)
    → answers c ≡ false
    → (c + 1 ≤ i → answers i ≡ false)
    → c ≤ i
    → answers i ≡ false
fails_here answers c i e h l = elim (lt-cases c i) [
  | inl m ↦ h (omega arith)
  | inr m ↦ fails_only answers c i e (omega arith)
]

connect-Connects :
    (answers : ℕ → Bool) (fuel c : ℕ)
    → c ≤ 10
    → 10 < c + fuel
    → Connects answers c (connect_mqtt answers fuel c)
connect-Connects answers zero c l f = ground arith
connect-Connects answers (suc fuel) c l f = elim (Bool-cases (answers c)) [
  | inl e ↦ connects c (omega arith) l (λ i a b. ground arith) e (connect_success answers fuel c e)
  | inr e ↦ elim (lt-cases c 10) [
    | inr m ↦
        gives_up (λ i a b. fails_only answers c i e (omega arith))
          (connect_over answers fuel c e (omega arith))
    | inl m ↦ elim (connect-Connects answers fuel (c + 1) (omega arith) (omega arith)) [
      | connects n a b h s r ↦
          connects n (omega arith) b (λ i x y. fails_here answers c i e (λ z. h i z y) x) s
            (connect_again answers fuel c e m ∙ r)
      | gives_up h r ↦
          gives_up (λ i x y. fails_here answers c i e (λ z. h i z y) x)
            (connect_again answers fuel c e m ∙ r)
    ]
  ]
]

-- With fuel for 11 attempts or more, connecting to the MQTT broker never runs out of fuel: it
-- returns without error at the first of the attempts 0 to 10 that succeeds, or with an error after
-- all the 11 have failed.
pub connect_mqtt-Connects :
    (answers : ℕ → Bool) (fuel : ℕ) → 11 ≤ fuel → Connects answers 0 (connect_mqtt answers fuel 0)
connect_mqtt-Connects answers fuel l = connect-Connects answers fuel 0 (omega arith) (omega arith)
