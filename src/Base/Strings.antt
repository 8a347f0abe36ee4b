-- ===== src/Base/Strings.antt =====
-- A Go string is a sequence of bytes: literals, equality, and the functions of package `strings`
-- that the program calls (`Split` and `Cut` at one byte, `Contains`, `ReplaceAll` of one byte).
use Prim.Native.Nat.{ℕ}
use Prim.Native.Char.{code}
use Prim.Native.String.{String}
use mathlib.Core.Path.{◌≡◌, refl, ap}
use mathlib.Core.Logic.{◌↔◌, ◌≢◌, inl, inr}
use mathlib.Core.Bool.{Bool, true, false, ◌&&◌, ◌||◌}
use mathlib.Core.List.{List, [], ◌∷◌, ◌++◌}
use native.Mathlib.Omega.{arith}
use trackeroo.Base.Tests.{◌==◌, if◌then◌else◌, Bool-cases}
use trackeroo.Base.Lists.{All}

abbrev pub Bytes : Type 0
Bytes = List ℕ

-- the bytes of an ASCII literal
abbrev pub codes : String → Bytes
codes String.[] = []
codes (String.◌∷◌ c s) = code c ∷ codes s

unfoldable pub bytes_eq : Bytes → Bytes → Bool
bytes_eq [] [] = true
bytes_eq (a ∷ s) (b ∷ t) = a == b && bytes_eq s t
bytes_eq _ _ = false

bytes_eq_sound : (s t : Bytes) → bytes_eq s t ≡ true → s ≡ t
unfolding bytes_eq
bytes_eq_sound [] [] h = refl
bytes_eq_sound [] (b ∷ t) h = cc
bytes_eq_sound (a ∷ s) [] h = cc
bytes_eq_sound (a ∷ s) (b ∷ t) h = ground (arith, bytes_eq_sound s t)

pub bytes_eq_refl : (s : Bytes) → bytes_eq s s ≡ true
unfolding bytes_eq
bytes_eq_refl [] = refl
bytes_eq_refl (a ∷ s) = ground (arith, bytes_eq_refl s)

pub bytes_eq_iff : (s t : Bytes) → (bytes_eq s t ≡ true) ↔ (s ≡ t)
bytes_eq_iff s t = (bytes_eq_sound s t, λ e. cc (e, bytes_eq_refl s))

abbrev pub Lacks : ℕ → Bytes → Type 0
Lacks b = All (λ c. c ≢ b)

-- `strings.Cut(s, sep)` at a separator of one byte: the text before the first one and after it
unfoldable pub cut : ℕ → Bytes → Bytes × Bytes × Bool
cut sep [] = ([], [], false)
cut sep (c ∷ s) =
    let (before, after, found) = cut sep s in
    if c == sep then ([], s, true) else (c ∷ before, after, found)

pub cut-append :
    (sep : ℕ) (p rest : Bytes) → Lacks sep p → cut sep (p ++ sep ∷ rest) ≡ (p, rest, true)
unfolding cut
cut-append sep [] rest h = ground arith
cut-append sep (c ∷ p) rest h = ground (arith, cut-append sep p rest h.1)

-- A cut that found the separator splits the text at the first one.
pub cut_sound :
    (sep : ℕ) (s : Bytes)
    → (cut sep s).2 ≡ true
    → (s ≡ (cut sep s).0 ++ sep ∷ (cut sep s).1) × Lacks sep (cut sep s).0
unfolding cut
cut_sound sep [] h = cc
cut_sound sep (c ∷ s) h = elim (Bool-cases (c == sep)) [
  | inl e ↦ let e' : c ≡ sep = ground arith in rw e (rw e' (refl, tt))
  | inr e ↦
      let (same, lacks) = cut_sound sep s (rw e at h) in
      rw e (ap (◌∷◌ c) same, (ground arith, lacks))
]

unfoldable pub has_prefix : Bytes → Bytes → Bool
has_prefix [] s = true
has_prefix (c ∷ p) [] = false
has_prefix (c ∷ p) (d ∷ s) = c == d && has_prefix p s

-- `strings.Contains(s, p)`
unfoldable pub contains : Bytes → Bytes → Bool
unfolding has_prefix
contains [] p = has_prefix p []
contains (c ∷ s) p = has_prefix p (c ∷ s) || contains s p

has_prefix-append : (p s : Bytes) → has_prefix p (p ++ s) ≡ true
unfolding has_prefix
has_prefix-append [] s = refl
has_prefix-append (c ∷ p) s = ground (arith, has_prefix-append p s)

has_prefix_sound : (p s : Bytes) → has_prefix p s ≡ true → (b : Bytes) × (s ≡ p ++ b)
unfolding has_prefix
has_prefix_sound [] s h = (s, refl)
has_prefix_sound (c ∷ p) [] h = cc
has_prefix_sound (c ∷ p) (d ∷ s) h =
    let (b, e) = has_prefix_sound p s (ground arith) in (b, ground arith)

contains_prefix : (p s : Bytes) → has_prefix p s ≡ true → contains s p ≡ true
unfolding contains
contains_prefix p [] h = h
contains_prefix p (c ∷ s) h = rw h

pub contains_infix : (a p b : Bytes) → contains (a ++ (p ++ b)) p ≡ true
unfolding contains
contains_infix [] p b = contains_prefix p (p ++ b) (has_prefix-append p b)
contains_infix (c ∷ a) p b = ground (arith, contains_infix a p b)

pub contains_sound :
    (s p : Bytes) → contains s p ≡ true → (a : Bytes) × (b : Bytes) × (s ≡ a ++ (p ++ b))
unfolding contains
contains_sound [] p h = let (b, e) = has_prefix_sound p [] h in ([], b, e)
contains_sound (c ∷ s) p h = elim (Bool-cases (has_prefix p (c ∷ s))) [
  | inl e ↦ let (b, f) = has_prefix_sound p (c ∷ s) e in ([], b, f)
  | inr e ↦ let (a, b, f) = contains_sound s p (ground arith) in (c ∷ a, b, ap (◌∷◌ c) f)
]

push_byte : ℕ → List Bytes → List Bytes
push_byte c [] = (c ∷ []) ∷ []
push_byte c (p ∷ ps) = (c ∷ p) ∷ ps

-- `strings.Split(s, sep)` at a separator of one byte
unfoldable pub split : ℕ → Bytes → List Bytes
unfolding push_byte
split sep [] = [] ∷ []
split sep (c ∷ s) = let rest = split sep s in if c == sep then [] ∷ rest else push_byte c rest

pub split-append :
    (sep : ℕ) (p rest : Bytes) → Lacks sep p → split sep (p ++ sep ∷ rest) ≡ p ∷ split sep rest
unfolding split
split-append sep [] rest h = ground arith
split-append sep (c ∷ p) rest h = ground (arith, split-append sep p rest h.1)

pub split-Lacks : (sep : ℕ) (p : Bytes) → Lacks sep p → split sep p ≡ p ∷ []
unfolding split
split-Lacks sep [] h = refl
split-Lacks sep (c ∷ p) h = ground (arith, split-Lacks sep p h.1)

-- the text that a list of parts was split from
abbrev pub rejoin : ℕ → List Bytes → Bytes
rejoin sep [] = []
rejoin sep (p ∷ []) = p
rejoin sep (p ∷ q ∷ ps) = p ++ sep ∷ rejoin sep (q ∷ ps)

-- `strings.ReplaceAll(s, old, new)` for two texts of one byte
unfoldable pub replace_all : ℕ → ℕ → Bytes → Bytes
replace_all old new [] = []
replace_all old new (c ∷ s) = (if c == old then new else c) ∷ replace_all old new s

rejoin-push_byte :
    (sep c : ℕ) (ps : List Bytes) → ps ≢ [] → rejoin sep (push_byte c ps) ≡ c ∷ rejoin sep ps
unfolding push_byte
rejoin-push_byte sep c [] h = absurd (h refl)
rejoin-push_byte sep c (p ∷ []) h = refl
rejoin-push_byte sep c (p ∷ q ∷ ps) h = refl

push_byte-ne-nil : (c : ℕ) (ps : List Bytes) → push_byte c ps ≢ []
unfolding push_byte
push_byte-ne-nil c [] h = cc
push_byte-ne-nil c (p ∷ ps) h = cc

split-ne-nil : (sep : ℕ) (s : Bytes) → split sep s ≢ []
unfolding split
split-ne-nil sep [] h = cc
split-ne-nil sep (c ∷ s) h = ground (arith, push_byte-ne-nil c (split sep s))

rejoin-cons-nil : (sep : ℕ) (ps : List Bytes) → ps ≢ [] → rejoin sep ([] ∷ ps) ≡ sep ∷ rejoin sep ps
rejoin-cons-nil sep [] h = absurd (h refl)
rejoin-cons-nil sep (p ∷ ps) h = refl

pub rejoin-split : (sep : ℕ) (s : Bytes) → rejoin sep (split sep s) ≡ s
unfolding split
rejoin-split sep [] = refl
rejoin-split sep (c ∷ s) = elim (Bool-cases (c == sep)) [
  | inl e ↦
      let same : c ≡ sep = ground arith in
      rw (e, rejoin-cons-nil sep (split sep s) (split-ne-nil sep s), rejoin-split sep s, same)
  | inr e ↦ rw (e, rejoin-push_byte sep c (split sep s) (split-ne-nil sep s), rejoin-split sep s)
]

push_byte-Lacks :
    (sep c : ℕ) (ps : List Bytes) → c ≢ sep → All (Lacks sep) ps → All (Lacks sep) (push_byte c ps)
unfolding push_byte
push_byte-Lacks sep c [] h a = ((h, tt), tt)
push_byte-Lacks sep c (p ∷ ps) h a = ((h, a.0), a.1)

pub split-parts : (sep : ℕ) (s : Bytes) → All (Lacks sep) (split sep s)
unfolding split
split-parts sep [] = (tt, tt)
split-parts sep (c ∷ s) = elim (Bool-cases (c == sep)) [
  | inl e ↦ rw e (tt, split-parts sep s)
  | inr e ↦ rw e (push_byte-Lacks sep c (split sep s) (ground arith) (split-parts sep s))
]
