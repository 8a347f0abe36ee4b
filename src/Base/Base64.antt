-- ===== src/Base/Base64.antt =====
-- `base64.StdEncoding` of Go's library: `EncodeToString` and `DecodeString`.
use Prim.Native.Nat.{ℕ, ◌+◌, ◌-◌, ◌*◌, ◌/◌, ◌%◌, ◌<◌}
use mathlib.Core.Path.{◌≡◌, refl, ap, ◌∙◌}
use mathlib.Core.Logic.{◌≢◌}
use mathlib.Core.Bool.{Bool, false, not, ◌&&◌, ◌||◌}
use mathlib.Core.Option.{Option, none, some}
use mathlib.Core.List.{[], ◌∷◌}
use native.Mathlib.Omega.{arith}
use trackeroo.Base.Tests.{ltb, leb, ◌==◌, if◌then◌else◌}
use trackeroo.Base.Results.{◌>>=◌}
use trackeroo.Base.Lists.{keep, All}
use trackeroo.Base.Strings.{Bytes}

abbrev pad : ℕ
pad = b'='

-- the alphabet: A-Z, a-z, 0-9, + and /
letter : ℕ → ℕ
letter n =
    if ltb n 26
    then n + 65
    else if ltb n 52
    then n + 71
    else if ltb n 62
    then n - 4
    else if n == 62
    then b'+'
    else b'/'

value : ℕ → Option ℕ
value c =
    if leb b'A' c && leb c b'Z'
    then some (c - 65)
    else if leb b'a' c && leb c b'z'
    then some (c - 71)
    else if leb b'0' c && leb c b'9'
    then some (c + 4)
    else if c == b'+'
    then some 62
    else if c == b'/'
    then some 63
    else none

unfoldable pub encode64 : Bytes → Bytes
unfolding letter
encode64 [] = []
encode64 (a ∷ []) = letter (a / 4) ∷ letter (a % 4 * 16) ∷ pad ∷ pad ∷ []
encode64 (a ∷ b ∷ []) =
    letter (a / 4) ∷ letter (a % 4 * 16 + b / 16) ∷ letter (b % 16 * 4) ∷ pad ∷ []
encode64 (a ∷ b ∷ c ∷ s) =
    letter (a / 4)
    ∷ letter (a % 4 * 16 + b / 16)
    ∷ letter (b % 16 * 4 + c / 64)
    ∷ letter (c % 64)
    ∷ encode64 s

-- three bytes of four values
whole : Bytes → ℕ → ℕ → ℕ → ℕ → Bytes
whole rest p q r s = (p * 4 + q / 16) ∷ (q % 16 * 16 + r / 4) ∷ (r % 4 * 64 + s) ∷ rest

-- a group that ends in padding, which ends the text
last_group : ℕ → ℕ → ℕ → Option Bytes
last_group p q r =
    if r == pad then (do x ← value p; y ← value q; some ((x * 4 + y / 16) ∷ [])) else (do
      x ← value p
      y ← value q
      z ← value r
      some ((x * 4 + y / 16) ∷ (y % 16 * 16 + z / 4) ∷ []))

groups : Bytes → Option Bytes
unfolding whole last_group value
groups [] = some []
groups (p ∷ q ∷ r ∷ s ∷ rest) =
    let more = groups rest in
    if s == pad then elim rest [ [] ↦ last_group p q r | _ ∷ _ ↦ none ] else (do
      x ← value p
      y ← value q
      z ← value r
      u ← value s
      tail ← more
      some (whole tail x y z u))
groups _ = none

abbrev is_newline : ℕ → Bool
is_newline c = c == 10 || c == 13

-- line breaks are skipped
unfoldable pub decode64 : Bytes → Option Bytes
unfolding groups keep
decode64 s = groups (keep (λ c. not (is_newline c)) s)

value-letter : (n : ℕ) → n < 64 → value (letter n) ≡ some n
unfolding value letter
value-letter n h = ground arith

letter_plain : (n : ℕ) → n < 64 → (letter n ≢ pad) × (is_newline (letter n) ≡ false)
unfolding letter
letter_plain n h = ground arith

abbrev pub AreBytes : Bytes → Type 0
AreBytes = All (λ n. n < 256)

letter_not_pad : (n : ℕ) → n < 64 → (letter n == pad) ≡ false
letter_not_pad n h = let p = (letter_plain n h).0 in ground arith

groups-whole :
    (x y z u : ℕ) (t tail : Bytes)
    → x < 64
    → y < 64
    → z < 64
    → u < 64
    → groups t ≡ some tail
    → groups (letter x ∷ letter y ∷ letter z ∷ letter u ∷ t) ≡ some (whole tail x y z u)
unfolding groups
groups-whole x y z u t tail hx hy hz hu e = rw (
  letter_not_pad u hu,
  value-letter x hx,
  value-letter y hy,
  value-letter z hz,
  value-letter u hu,
  e,
)

whole_bytes :
    (a b c : ℕ) (s : Bytes)
    → a < 256
    → b < 256
    → c < 256
    → whole s (a / 4) (a % 4 * 16 + b / 16) (b % 16 * 4 + c / 64) (c % 64) ≡ a ∷ b ∷ c ∷ s
unfolding whole
whole_bytes a b c s ha hb hc =
    let e1 : (a / 4) * 4 + (a % 4 * 16 + b / 16) / 16 ≡ a = omega arith in
    let e2 : (a % 4 * 16 + b / 16) % 16 * 16 + (b % 16 * 4 + c / 64) / 4 ≡ b = omega arith in
    let e3 : (b % 16 * 4 + c / 64) % 4 * 64 + c % 64 ≡ c = omega arith in rw (e1, e2, e3)

groups_one :
    (a : ℕ)
    → a < 256
    → groups (letter (a / 4) ∷ letter (a % 4 * 16) ∷ pad ∷ pad ∷ []) ≡ some (a ∷ [])
unfolding groups
groups_one a h =
    let e : (a / 4) * 4 + (a % 4 * 16) / 16 ≡ a = omega arith in
    rw (value-letter (a / 4) (omega arith), value-letter (a % 4 * 16) (omega arith), e)

groups_two :
    (a b : ℕ)
    → a < 256
    → b < 256
    → groups (letter (a / 4) ∷ letter (a % 4 * 16 + b / 16) ∷ letter (b % 16 * 4) ∷ pad ∷ [])
      ≡ some (a ∷ b ∷ [])
unfolding groups
groups_two a b ha hb =
    let e1 : (a / 4) * 4 + (a % 4 * 16 + b / 16) / 16 ≡ a = omega arith in
    let e2 : (a % 4 * 16 + b / 16) % 16 * 16 + (b % 16 * 4) / 4 ≡ b = omega arith in
    rw (
      letter_not_pad (b % 16 * 4) (omega arith),
      value-letter (a / 4) (omega arith),
      value-letter (a % 4 * 16 + b / 16) (omega arith),
      value-letter (b % 16 * 4) (omega arith),
      e1,
      e2,
    )

encode64_three :
    (a b c : ℕ) (s : Bytes)
    → encode64 (a ∷ b ∷ c ∷ s)
      ≡ letter (a / 4)
        ∷ letter (a % 4 * 16 + b / 16)
        ∷ letter (b % 16 * 4 + c / 64)
        ∷ letter (c % 64)
        ∷ encode64 s
unfolding encode64
encode64_three a b c s = refl

groups-encode64 : (s : Bytes) → AreBytes s → groups (encode64 s) ≡ some s
groups-encode64 [] h = unfold groups encode64 in refl
groups-encode64 (a ∷ []) h = unfold encode64 in groups_one a h.0
groups-encode64 (a ∷ b ∷ []) h = unfold encode64 in groups_two a b h.0 h.1.0
groups-encode64 (a ∷ b ∷ c ∷ s) h =
    ap groups (encode64_three a b c s)
    ∙ groups-whole (a / 4) (a % 4 * 16 + b / 16) (b % 16 * 4 + c / 64) (c % 64) (encode64 s) s
        (let k = h.0 in omega arith) (let k = h.0 in let l = h.1.0 in omega arith)
        (let l = h.1.1.0 in omega arith) (omega arith) (groups-encode64 s h.1.1.1)
    ∙ ap some (whole_bytes a b c s h.0 h.1.0 h.1.1.0)

keep-letter :
    (n : ℕ) (s : Bytes)
    → n < 64
    → keep (λ c. not (is_newline c)) (letter n ∷ s) ≡ letter n ∷ keep (λ c. not (is_newline c)) s
unfolding keep
keep-letter n s h = rw (letter_plain n h).1

keep-encode64 : (s : Bytes) → AreBytes s → keep (λ c. not (is_newline c)) (encode64 s) ≡ encode64 s
keep-encode64 [] h = unfold encode64 keep in refl
keep-encode64 (a ∷ []) h =
    unfold encode64 in
    rw
      (keep-letter (a / 4) _ (let k = h.0 in omega arith), keep-letter (a % 4 * 16) _ (omega arith))
      (unfold keep in refl)
keep-encode64 (a ∷ b ∷ []) h =
    unfold encode64 in
    rw
      (
        keep-letter (a / 4) _ (let k = h.0 in omega arith),
        keep-letter (a % 4 * 16 + b / 16) _ (let k = h.1.0 in omega arith),
        keep-letter (b % 16 * 4) _ (omega arith),
      )
      (unfold keep in refl)
keep-encode64 (a ∷ b ∷ c ∷ s) h = rw (
  encode64_three a b c s,
  keep-letter (a / 4) _ (let k = h.0 in omega arith),
  keep-letter (a % 4 * 16 + b / 16) _ (let k = h.1.0 in omega arith),
  keep-letter (b % 16 * 4 + c / 64) _ (let k = h.1.1.0 in omega arith),
  keep-letter (c % 64) _ (omega arith),
  keep-encode64 s h.1.1.1,
)

-- Decoding an encoded byte string gives it back.
pub decode64-encode64 : (s : Bytes) → AreBytes s → decode64 (encode64 s) ≡ some s
unfolding decode64
decode64-encode64 s h = rw (keep-encode64 s h) (groups-encode64 s h)
