-- ===== src/Base/Decimal.antt =====
-- Package `strconv` of Go's library, at base 10 and 64 bits: `FormatInt`, `ParseInt`, `FormatBool`
-- and `ParseBool`. A parse that fails, on its syntax or on its range, is `none`.
use Prim.Native.Nat.{ℕ, zero, suc, ◌+◌, ◌-◌, ◌*◌, ◌/◌, ◌%◌, ◌^◌, ◌<◌}
use mathlib.Core.Path.{◌≡◌, refl, ap, ◌∙◌}
use mathlib.Core.Logic.{◌≢◌, inl, inr}
use mathlib.Core.Bool.{Bool, true, false, ◌&&◌, ◌||◌}
use mathlib.Core.Option.{Option, none, some}
use mathlib.Core.List.{[], ◌∷◌, ◌++◌}
use native.Mathlib.Omega.{arith}
use trackeroo.Base.Tests.{ltb, leb, ◌==◌, if◌then◌else◌, Bool-cases}
use trackeroo.Base.Strings.{Bytes, codes, bytes_eq}
use trackeroo.Base.Integers.{ℤ, pos, negsuc}

-- The first argument bounds the number of digits.
digits : ℕ → ℕ → Bytes
digits zero n = []
digits (suc f) n =
    let rest = digits f (n / 10) in
    if ltb n 10 then (b'0' + n) ∷ [] else rest ++ (b'0' + n % 10) ∷ []

-- a number has at most as many digits as its successor says
unfoldable pub format_nat : ℕ → Bytes
unfolding digits
format_nat n = digits (suc n) n

unfoldable pub format_int : ℤ → Bytes
unfolding format_nat
format_int (pos n) = format_nat n
format_int (negsuc n) = b'-' ∷ format_nat (suc n)

scan : Bytes → ℕ → Option ℕ
scan [] n = some n
scan (c ∷ s) n =
    let rest = scan s (n * 10 + (c - b'0')) in if leb b'0' c && leb c b'9' then rest else none

unsigned : Bytes → Option ℕ
unfolding scan
unsigned [] = none
unsigned (c ∷ s) = scan (c ∷ s) 0

abbrev cutoff : ℕ
cutoff = 2 ^ 63

bounded : Option ℕ → Option ℤ
bounded none = none
bounded (some n) = if ltb n cutoff then some (pos n) else none

negated : Option ℕ → Option ℤ
negated none = none
negated (some zero) = some (pos 0)
negated (some (suc n)) = if ltb n cutoff then some (negsuc n) else none

unfoldable pub parse_int : Bytes → Option ℤ
unfolding unsigned bounded negated
parse_int [] = none
parse_int (c ∷ s) =
    if c == b'+'
    then bounded (unsigned s)
    else if c == b'-'
    then negated (unsigned s)
    else bounded (unsigned (c ∷ s))

unfoldable pub format_bool : Bool → Bytes
format_bool true = codes "true"
format_bool false = codes "false"

unfoldable pub parse_bool : Bytes → Option Bool
unfolding bytes_eq
parse_bool s =
    if bytes_eq s (codes "1")
      || bytes_eq s (codes "t")
      || bytes_eq s (codes "T")
      || bytes_eq s (codes "TRUE")
      || bytes_eq s (codes "true")
      || bytes_eq s (codes "True")
    then some true
    else if bytes_eq s (codes "0")
        || bytes_eq s (codes "f")
        || bytes_eq s (codes "F")
        || bytes_eq s (codes "FALSE")
        || bytes_eq s (codes "false")
        || bytes_eq s (codes "False")
    then some false
    else none

-- the numbers of Go's `int64`
abbrev pub IsInt64 : ℤ → Type 0
IsInt64 (pos n) = n < 2 ^ 63
IsInt64 (negsuc n) = n < 2 ^ 63

scan-append : (s t : Bytes) (n m : ℕ) → scan s n ≡ some m → scan (s ++ t) n ≡ scan t m
unfolding scan
scan-append [] t n m e = cc
scan-append (c ∷ s) t n m e = elim (Bool-cases (leb b'0' c && leb c b'9')) [
  | inl f ↦ rw f (scan-append s t (n * 10 + (c - b'0')) m (rw f at e))
  | inr f ↦ absurd (let e' = rw f at e in cc)
]

scan_digit : (q r : ℕ) → r < 10 → scan ((b'0' + r) ∷ []) q ≡ some (q * 10 + r)
unfolding scan
scan_digit q r h = ground arith

scan-digits : (f n : ℕ) → n < f → scan (digits f n) 0 ≡ some n
unfolding digits
scan-digits zero n h = absurd (omega arith)
scan-digits (suc f) n h = elim (Bool-cases (ltb n 10)) [
  | inl e ↦
      let same : 0 * 10 + n ≡ n = omega arith in rw e (scan_digit 0 n (ground arith) ∙ ap some same)
  | inr e ↦
      let same : n / 10 * 10 + n % 10 ≡ n = omega arith in
      rw e (
        scan-append (digits f (n / 10)) _ 0 (n / 10) (scan-digits f (n / 10) (ground arith))
        ∙ scan_digit (n / 10) (n % 10) (omega arith)
        ∙ ap some same)
]

snoc-ne-nil : (s : Bytes) (c : ℕ) → s ++ c ∷ [] ≢ []
snoc-ne-nil [] c h = cc
snoc-ne-nil (d ∷ s) c h = cc

format_nat-ne-nil : (n : ℕ) → format_nat n ≢ []
unfolding format_nat digits
format_nat-ne-nil n = elim (Bool-cases (ltb n 10)) [
  | inl e ↦ rw e (λ h. cc)
  | inr e ↦ rw e (snoc-ne-nil (digits n (n / 10)) (b'0' + n % 10))
]

unsigned-format_nat : (n : ℕ) → unsigned (format_nat n) ≡ some n
unsigned-format_nat n =
    scanned (format_nat n) (format_nat-ne-nil n)
    ∙ unfold format_nat in scan-digits (suc n) n (omega arith)
  where
    scanned : (s : Bytes) → s ≢ [] → unsigned s ≡ scan s 0
    scanned [] h = absurd (h refl)
    scanned (c ∷ s) h = unfold unsigned in refl

parse_int_plain : (s : Bytes) (n : ℕ) → unsigned s ≡ some n → parse_int s ≡ bounded (some n)
unfolding parse_int unsigned scan
parse_int_plain [] n e = cc
parse_int_plain (c ∷ s) n e = elim (Bool-cases (leb b'0' c && leb c b'9')) [
  | inl f ↦
      let plus : (c == b'+') ≡ false = ground arith in
      let minus : (c == b'-') ≡ false = ground arith in rw (plus, minus) (ap bounded e)
  | inr f ↦ absurd (let e' = rw f at e in cc)
]

-- A number of 64 bits is parsed back from its print.
pub parse_int-format_int : (z : ℤ) → IsInt64 z → parse_int (format_int z) ≡ some z
unfolding format_int
parse_int-format_int (pos n) h =
    parse_int_plain (format_nat n) n (unsigned-format_nat n) ∙ unfold bounded in ground arith
parse_int-format_int (negsuc n) h =
    unfold parse_int in rw (unsigned-format_nat (suc n)) (unfold negated in ground arith)

pub parse_bool-format_bool : (b : Bool) → parse_bool (format_bool b) ≡ some b
unfolding parse_bool format_bool
parse_bool-format_bool true = refl
parse_bool-format_bool false = refl
