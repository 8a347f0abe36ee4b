-- ===== src/Tracky/Mqtt/Goroutines.antt =====
-- tracky/src/trackeroo/mqtt.go: the goroutines that handleJobRequest starts, interleaved with the
-- handler that starts them.
use mathlib.Core.List.{Perm, perm_middle, map-append}
use mathlib.Core.List.Perm
use trackeroo.Base.{◌≡◌, refl, ap, ◌∙◌, List, [], ◌∷◌, ◌++◌, append_assoc, map, Bytes, ℤ}
use trackeroo.Tracky.Jobs.{Fields, Payload}
use trackeroo.Tracky.Mqtt.{Effect, sends, spawns, TdmClient, ran}

module _ {F : Type 0} (to_int : F → ℤ) (t : TdmClient) where
  -- What can be published, in its order, while jobs wait to end and the handler has effects left: the
  -- handler publishes or starts a job, in its order, and any of the jobs that were started publishes.
  pub data Runs : List (Effect F) → List (Effect F) → List (Effect F) → Type 0 where
    ended : Runs [] [] []
    published :
        {jobs effects out : List (Effect F)} (topic key : Bytes) (value : Payload)
        → Runs jobs effects out
        → Runs jobs (sends topic key value ∷ effects) (sends topic key value ∷ out)
    started :
        {jobs effects out : List (Effect F)} (name : Bytes) (args : Fields F)
        → Runs (spawns name args ∷ jobs) effects out
        → Runs jobs (spawns name args ∷ effects) out
    replied :
        {effects out : List (Effect F)} (before after : List (Effect F)) (job : Effect F)
        → Runs (before ++ after) effects out
        → Runs (before ++ job ∷ after) effects (ran to_int t job ∷ out)

  ran_sends :
      (topic key : Bytes) (value : Payload)
      → ran to_int t (sends topic key value) ≡ sends topic key value
  unfolding ran
  ran_sends topic key value = refl

  pushed :
      (before after more : List (Effect F)) (job : Effect F)
      → map (ran to_int t) (before ++ job ∷ after) ++ more
        ≡ map (ran to_int t) before ++ (ran to_int t job ∷ (map (ran to_int t) after ++ more))
  pushed before after more job =
      ap (λ l. l ++ more) (map-append (ran to_int t) before (job ∷ after))
      ∙ append_assoc (map (ran to_int t) before) (ran to_int t job ∷ map (ran to_int t) after) more

  joined :
      (before after more : List (Effect F))
      → map (ran to_int t) (before ++ after) ++ more
        ≡ map (ran to_int t) before ++ (map (ran to_int t) after ++ more)
  joined before after more =
      ap (λ l. l ++ more) (map-append (ran to_int t) before after)
      ∙ append_assoc (map (ran to_int t) before) (map (ran to_int t) after) more

  -- All is published once, in some order.
  pub Runs-ran :
      {jobs effects out : List (Effect F)}
      → Runs jobs effects out
      → Perm (map (ran to_int t) jobs ++ map (ran to_int t) effects) out
  Runs-ran ended = Perm.refl []
  Runs-ran (published {jobs} {effects} topic key value r) =
      Perm.trans (perm_middle (map (ran to_int t) jobs) (map (ran to_int t) effects))
        (rw (ran_sends topic key value) (Perm.cons (sends topic key value) (Runs-ran r)))
  Runs-ran (started {jobs} {effects} name args r) =
      Perm.trans (perm_middle (map (ran to_int t) jobs) (map (ran to_int t) effects)) (Runs-ran r)
  Runs-ran (replied {effects} {out} before after job r) =
      let others = Runs-ran {jobs = before ++ after} {effects = effects} {out = out} r in
      rw (pushed before after (map (ran to_int t) effects) job) (
        Perm.trans
          (perm_middle (map (ran to_int t) before)
            (map (ran to_int t) after ++ map (ran to_int t) effects))
          (Perm.cons (ran to_int t job)
            (rw (joined before after (map (ran to_int t) effects)) at others)))

  -- One of the orders: every job publishes before the handler goes on.
  pub Runs-at_once : (effects : List (Effect F)) → Runs [] effects (map (ran to_int t) effects)
  unfolding ran
  Runs-at_once [] = ended
  Runs-at_once (sends topic key value ∷ effects) = published topic key value (Runs-at_once effects)
  Runs-at_once (spawns name args ∷ effects) =
      started name args (replied [] [] (spawns name args) (Runs-at_once effects))
