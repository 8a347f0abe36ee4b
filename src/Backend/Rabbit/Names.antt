-- ===== src/Backend/Rabbit/Names.antt =====
-- The address that `getClientIP` of service/rabbit.go takes from the name of a connection.
use trackeroo.Base.{
  ◌≡◌, refl, ap, ◌∙◌, false, [], ◌∷◌, ◌++◌, Bytes, All, Lacks, split-append, split, arith, ◌==◌,
  ◌&&◌,
}
use trackeroo.Backend.Rabbit.{
  push_first, split_arrow, is_space, trim_left, trim_right, trim_space, first_part, get_client_ip,
}

-- no spaces
abbrev pub IsPlain : Bytes → Type 0
IsPlain = All (λ c. is_space c ≡ false)

abbrev pub arrow : Bytes
arrow = b'-' ∷ b'>' ∷ []

split_arrow-Lacks : (s : Bytes) → Lacks b'-' s → split_arrow s ≡ s ∷ []
unfolding split_arrow push_first
split_arrow-Lacks [] h = refl
split_arrow-Lacks (c ∷ []) h = refl
split_arrow-Lacks (c ∷ d ∷ s) h =
    let no : (c == b'-' && d == b'>') ≡ false = ground (arith, h.0) in
    rw (no, split_arrow-Lacks (d ∷ s) h.1) refl

split_arrow-append :
    (a s : Bytes)
    → Lacks b'-' a
    → split_arrow (a ++ (b' ' ∷ (arrow ++ s))) ≡ (a ++ b' ' ∷ []) ∷ split_arrow s
unfolding split_arrow push_first
split_arrow-append [] s h = refl
split_arrow-append (c ∷ []) s h = let no : (c == b'-') ≡ false = ground (arith, h.0) in rw no refl
split_arrow-append (c ∷ d ∷ a) s h =
    let no : (c == b'-') ≡ false = ground (arith, h.0) in
    rw (no, split_arrow-append (d ∷ a) s h.1) refl

trim_right-IsPlain : (s : Bytes) → IsPlain s → trim_right s ≡ s
unfolding trim_right
trim_right-IsPlain [] h = refl
trim_right-IsPlain (c ∷ []) h = rw h.0 refl
trim_right-IsPlain (c ∷ d ∷ s) h = rw (trim_right-IsPlain (d ∷ s) h.1) refl

trim_space-IsPlain : (s : Bytes) → IsPlain s → trim_space (b' ' ∷ s) ≡ s
unfolding trim_space trim_left
trim_space-IsPlain [] h = unfold trim_right in refl
trim_space-IsPlain (c ∷ s) h = rw h.0 (trim_right-IsPlain (c ∷ s) h)

two_parts :
    (name left right : Bytes)
    → split_arrow name ≡ left ∷ right ∷ []
    → get_client_ip name ≡ first_part (split b':' (trim_space right))
unfolding get_client_ip
two_parts name left right e = rw (e, get_client_ip) refl

-- Of a connection's name `client -> address:port` the function takes the address behind the arrow,
-- whatever stands before it: `client` holds no dash, the rest no dash and no space, and the address
-- no colon.
pub get_client_ip_lem :
    (client address port : Bytes)
    → Lacks b'-' client
    → Lacks b'-' (address ++ b':' ∷ port)
    → IsPlain (address ++ b':' ∷ port)
    → Lacks b':' address
    → get_client_ip (client ++ (b' ' ∷ (arrow ++ (b' ' ∷ (address ++ b':' ∷ port))))) ≡ address
unfolding first_part
get_client_ip_lem client address port hc hr plain ha =
    let rest = address ++ b':' ∷ port in
    two_parts _ (client ++ b' ' ∷ []) (b' ' ∷ rest) (
      split_arrow-append client (b' ' ∷ rest) hc
      ∙ ap (◌∷◌ (client ++ b' ' ∷ [])) (split_arrow-Lacks (b' ' ∷ rest) (ground arith, hr)))
    ∙ ap (λ t. first_part (split b':' t)) (trim_space-IsPlain rest plain)
    ∙ ap first_part (split-append b':' address port ha)
