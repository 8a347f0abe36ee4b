-- ===== src/Backend/Router.antt =====
-- trackeroo-backend/src/internal/router/router.go: handlers, middlewares and subroutes, collected
-- and then put together. The lookup of http.ServeMux is a parameter.
use mathlib.Core.List.{foldr}
use trackeroo.Base.{
  ℕ, zero, suc, ◌≡◌, ◌≢◌, refl, ◌∙◌, ap, List, [], ◌∷◌, ◌++◌, map, arith, length, ◌==◌,
  if◌then◌else◌, Option, none, some, Bytes, codes, returned, get_elem?, take, take-length,
}
use trackeroo.Backend.Http.{Handler, Request, http_error}

abbrev pub Middleware : Type 0 → Type 0
Middleware S = Handler S → Handler S

pub record Router (S : Type 0) : Type 0 where
  pub handlers : List (Bytes × Handler S)
  pub middlewares : List (Middleware S)
  pub subroutes : List (Bytes × Handler S)

-- `strings.TrimSuffix(path, "/")`
unfoldable pub trim_slash : Bytes → Bytes
trim_slash [] = []
trim_slash (c ∷ []) = if c == b'/' then [] else c ∷ []
trim_slash (c ∷ d ∷ s) = c ∷ trim_slash (d ∷ s)

-- the text behind a prefix, where it is one
unfoldable pub after_prefix : Bytes → Bytes → Option Bytes
after_prefix [] s = some s
after_prefix (c ∷ p) [] = none
after_prefix (c ∷ p) (d ∷ s) = if c == d then after_prefix p s else none

trim_slash_lem : (p : Bytes) → trim_slash (p ++ b'/' ∷ []) ≡ p
unfolding trim_slash
trim_slash_lem [] = refl
trim_slash_lem (c ∷ []) = refl
trim_slash_lem (c ∷ d ∷ p) = ap (◌∷◌ c) (trim_slash_lem (d ∷ p))

after_prefix-append : (p s : Bytes) → after_prefix p (p ++ s) ≡ some s
unfolding after_prefix
after_prefix-append [] s = refl
after_prefix-append (c ∷ p) s = ground (arith, after_prefix-append p s)

module _ {S : Type 0} where
  unfoldable pub new_router : Router S
  new_router = record { handlers = []; middlewares = []; subroutes = [] }

  unfoldable pub add_handler : Bytes → Handler S → Router S → Router S
  add_handler endpoint fn r = record r { handlers = r.handlers ++ (endpoint, fn) ∷ [] }

  unfoldable pub add_middleware : Middleware S → Router S → Router S
  add_middleware mw r = record r { middlewares = r.middlewares ++ mw ∷ [] }

  unfoldable pub add_subroute : Bytes → Handler S → Router S → Router S
  add_subroute path h r = record r { subroutes = r.subroutes ++ (path, h) ∷ [] }

  apply_at : Option (Middleware S) → Handler S → Handler S
  apply_at none next = next
  apply_at (some x) next = x next

  -- `for i := len(mw) - 1; i >= 0; i--`; the first argument is `i + 1`
  apply_down : ℕ → List (Middleware S) → Handler S → Handler S
  apply_down zero mw next = next
  apply_down (suc i) mw next = apply_down i mw (apply_at (get_elem? mw i) next)

  unfoldable pub create_stack : List (Middleware S) → Handler S → Handler S
  unfolding apply_down apply_at
  create_stack mw next = apply_down (length mw) mw next

  not_found : Handler S
  not_found r (s, w) = ((s, http_error (codes "404 page not found") 404 w), returned tt)

  strip_to : Option Bytes → Handler S → Handler S
  unfolding not_found
  strip_to none h r = not_found r
  strip_to (some rest) h r = h (record r { path = rest })

  -- `http.StripPrefix`
  unfoldable pub strip_prefix : Bytes → Handler S → Handler S
  unfolding strip_to after_prefix
  strip_prefix [] h r = h r
  strip_prefix (c ∷ p) h r = strip_to (after_prefix (c ∷ p) r.path) h r

  unfoldable pub mount : Bytes × Handler S → Bytes × Handler S
  unfolding strip_prefix trim_slash
  mount (path, h) = (path, strip_prefix (trim_slash path) h)

  -- `serve` is the lookup of `http.ServeMux` among the patterns that were registered.
  unfoldable pub finalize : (List (Bytes × Handler S) → Handler S) → Router S → Handler S
  unfolding mount create_stack
  finalize serve r = create_stack r.middlewares (serve (r.handlers ++ map mount r.subroutes))

  take-suc :
      (n : ℕ) (mw : List (Middleware S)) (next : Handler S)
      → foldr (λ m h. m h) (apply_at (get_elem? mw n) next) (take n mw)
        ≡ foldr (λ m h. m h) next (take (suc n) mw)
  unfolding apply_at
  take-suc zero [] next = refl
  take-suc zero (m ∷ mw) next = refl
  take-suc (suc n) [] next = refl
  take-suc (suc n) (m ∷ mw) next = ap m (take-suc n mw next)

  apply_down-foldr :
      (n : ℕ) (mw : List (Middleware S)) (next : Handler S)
      → apply_down n mw next ≡ foldr (λ m h. m h) next (take n mw)
  unfolding apply_down
  apply_down-foldr zero mw next = refl
  apply_down-foldr (suc n) mw next =
      apply_down-foldr n mw (apply_at (get_elem? mw n) next) ∙ take-suc n mw next

  -- The loop of `createStack`, which runs from the last middleware to the first, makes the first
  -- one the outermost: it is the right fold of application over the list.
  pub create_stack-foldr :
      (mw : List (Middleware S)) (next : Handler S)
      → create_stack mw next ≡ foldr (λ m h. m h) next mw
  unfolding create_stack
  create_stack-foldr mw next =
      apply_down-foldr (length mw) mw next ∙ ap (foldr (λ m h. m h) next) (take-length mw)

  -- A router that is mounted at `p/` sees the part of the path behind `p`, and the rest of the
  -- request as it came.
  pub mount-path :
      (p rest : Bytes) (h : Handler S) (r : Request)
      → p ≢ []
      → (mount (p ++ b'/' ∷ [], h)).1 (record r { path = p ++ rest }) ≡ h (record r { path = rest })
  unfolding mount strip_prefix strip_to
  mount-path [] rest h r ne = absurd (ne refl)
  mount-path (c ∷ p) rest h r ne = rw (trim_slash_lem (c ∷ p), after_prefix-append (c ∷ p) rest)
