-- ===== src/Backend/Middleware/Stack.antt =====
-- The middlewares of the main router, in the order in which main.go adds them.
use trackeroo.Base.{
  ◌≡◌, refl, codes, ◌∙◌, ap, none, some, List, [], ◌∷◌, ◌++◌, Outcome, returned, panicked,
}
use trackeroo.Backend.Http.{Handler, Request, Writer, set_header, write, write_header, first_status}
use trackeroo.Backend.Router.{Middleware, create_stack, create_stack-foldr}
use trackeroo.Backend.Middleware.{status_level, log_line, logging, caught, recovering, cors}

-- the writer that reaches the handler
abbrev pub entered : Writer → Writer
entered w =
    set_header (codes "Access-Control-Allow-Headers") (codes "Content-Type, Authorization") (
      set_header (codes "Access-Control-Allow-Methods") (codes "GET, POST, PUT, DELETE, OPTIONS")
        (set_header (codes "Access-Control-Allow-Origin") (codes "*") (record w { logged = 200 })))

entered_log : (w : Writer) → (entered w).access_log ≡ w.access_log
unfolding set_header
entered_log w = refl

module _ {S : Type 0} where
  abbrev pub main_middlewares : List (Middleware S)
  main_middlewares = logging ∷ recovering ∷ cors ∷ []

  abbrev pub main_stack : Handler S → Handler S
  main_stack = create_stack main_middlewares

  -- a handler that leaves the access log to the middleware
  abbrev pub KeepsLog : Handler S → Type 0
  KeepsLog h = (r : Request) (s : S) (w : Writer) → (h r (s, w)).0.1.access_log ≡ w.access_log

  -- One line, and the result of the handler or of `Recover`.
  abbrev IsAnswered : Writer → (S × Writer) × Outcome (Unit {0}) → Type 0
  IsAnswered w ((s', w'), o) =
      (o ≡ returned tt) × (w'.access_log ≡ w.access_log ++ (status_level w'.logged, w'.logged) ∷ [])

  logged-caught :
      (w : Writer) (res : (S × Writer) × Outcome (Unit {0}))
      → res.0.1.access_log ≡ w.access_log
      → IsAnswered w (log_line (caught res))
  unfolding log_line caught write write_header
  logged-caught w ((s', w'), returned u) e =
      (refl, ap (λ l. l ++ (status_level w'.logged, w'.logged) ∷ []) e)
  logged-caught w ((s', w'), panicked) e = (refl, ap (λ l. l ++ (status_level 500, 500) ∷ []) e)

  pub main_stack_lem :
      (h : Handler S) (r : Request) (s : S) (w : Writer)
      → main_stack h r (s, w) ≡ log_line (caught (h r (s, entered w)))
  unfolding logging recovering cors
  main_stack_lem h r s w = ap (λ g. g r (s, w)) (create_stack-foldr main_middlewares h)

  -- Behind Logging, Recover and CORS, every request is answered without a panic and logged by
  -- exactly one line, at the level of the status that the line shows, whatever the handler does to
  -- the response or the server, a panic included. The handler leaves the log alone.
  pub main_stack_answers :
      (h : Handler S) (r : Request) (s : S) (w : Writer)
      → KeepsLog h
      → ((main_stack h r (s, w)).1 ≡ returned tt)
        × ((main_stack h r (s, w)).0.1.access_log
            ≡ w.access_log
              ++ (
                status_level (main_stack h r (s, w)).0.1.logged,
                (main_stack h r (s, w)).0.1.logged,
              )
                ∷ [])
  main_stack_answers h r s w k =
      rw (main_stack_lem h r s w)
        (logged-caught w (h r (s, entered w)) (k r s (entered w) ∙ entered_log w))

  panicked-caught :
      (res : (S × Writer) × Outcome (Unit {0}))
      → res.1 ≡ panicked
      → res.0.1.sent ≡ none
      → (log_line (caught res)).0.1.sent ≡ some (500, res.0.1.header)
  unfolding log_line caught write write_header first_status
  panicked-caught ((s', w'), returned u) e n = cc
  panicked-caught ((s', w'), panicked) e n = rw n

  -- A handler that panics before it has sent a status is answered with status 500, and the state
  -- that it left stays.
  pub main_stack_panic :
      (h : Handler S) (r : Request) (s s' : S) (w w' : Writer)
      → h r (s, entered w) ≡ ((s', w'), panicked)
      → w'.sent ≡ none
      → ((main_stack h r (s, w)).0.1.sent ≡ some (500, w'.header))
        × ((main_stack h r (s, w)).0.0 ≡ s')
  unfolding log_line caught
  main_stack_panic h r s s' w w' e n =
      rw (main_stack_lem h r s w, e) (panicked-caught ((s', w'), panicked) refl n, refl)
