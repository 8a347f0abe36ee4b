-- ===== src/Tracky/Mqtt/Dispatch.antt =====
-- Which jobs a message from the platform starts, and what is replied (mqtt.go of the firmware).
use trackeroo.Base.{
  ◌≡◌, refl, ap, ◌∙◌, Option, none, some, List, [], ◌∷◌, ◌++◌, Bytes, codes, returned, ℤ, ℕ, false,
  ◌==◌,
}
use trackeroo.Tracky.Jobs.{
  Json, text, object, Fields, no_fields, field, index, as_map, map_or_nil, Payload, job_error, job,
}
use trackeroo.Tracky.Mqtt.{
  Effect, sends, TdmClient, handle_job_request, missing_args, asked_job, on_key,
}

-- An entry of the expected jobs that has no arguments: no object `args` in an object `v`.
abbrev pub LacksArgs : {F : Type 0} → Json F → Type 0
LacksArgs v =
    as_map (
      index (codes "args") (map_or_nil (as_map (index (codes "v") (map_or_nil (as_map (some v)))))))
    ≡ none

-- An entry: a job with its arguments, one without them, or a key that is no job's.
pub data Entry (F : Type 0) : Type 0 where
  wanted : Bytes → Fields F → Entry F
  incomplete : (name : Bytes) (v : Json F) → LacksArgs v → Entry F
  ignored : (c : ℕ) (name : Bytes) (v : Json F) → (c == b'@') ≡ false → Entry F

module _ {F : Type 0} where
  abbrev pub one_field : Bytes → Json F → Fields F
  one_field k v = field k v no_fields

  -- {"@name": {"v": {"args": args}}, …}
  abbrev pub expecting : List (Entry F) → Fields F
  expecting [] = no_fields
  expecting (wanted name args ∷ entries) =
      field (b'@' ∷ name)
        (object (one_field (codes "v") (object (one_field (codes "args") (object args)))))
        (expecting entries)
  expecting (incomplete name v h ∷ entries) = field (b'@' ∷ name) v (expecting entries)
  expecting (ignored c name v h ∷ entries) = field (c ∷ name) v (expecting entries)

  -- {"key": "#status", "value": {"expected": …}}
  abbrev pub status_message : List (Entry F) → Fields F
  status_message entries = field (codes "key") (text (codes "#status")) (
      one_field (codes "value")
        (object (one_field (codes "expected") (object (expecting entries)))))

module _ {F : Type 0} (to_int : F → ℤ) (t : TdmClient) where
  -- the result of the job, or the error where there is none of this name
  abbrev pub answer_from : Option (Fields F → Payload) → Bytes → Fields F → Payload
  answer_from (some fn) name args = fn args
  answer_from none name args = job_error (codes "Cannot find job " ++ name)

  abbrev pub reply_to : Bytes → Fields F → Effect F
  reply_to name args =
      sends t.topic_up (codes "@" ++ name) (answer_from (job to_int name) name args)

  -- what is replied: to each job with arguments as far as the first one without them, and to that one
  -- an error
  abbrev pub replies_to : List (Entry F) → List (Effect F)
  replies_to [] = []
  replies_to (wanted name args ∷ entries) = reply_to name args ∷ replies_to entries
  replies_to (incomplete name v h ∷ entries) =
      sends t.topic_up (codes "@" ++ name) (job_error (codes "Missing args")) ∷ []
  replies_to (ignored c name v h ∷ entries) = replies_to entries

  abbrev effects_of : List (Entry F) → List (Effect F)
  effects_of [] = []
  effects_of (wanted name args ∷ entries) =
      handle_job_request to_int t name args ∷ effects_of entries
  effects_of (incomplete name v h ∷ entries) = missing_args to_int t name ∷ []
  effects_of (ignored c name v h ∷ entries) = effects_of entries

  asked_without :
      (name : Bytes)
      → asked_job to_int t name none
        ≡ missing_args to_int t name ∷ handle_job_request to_int t name no_fields ∷ []
  unfolding asked_job map_or_nil index as_map
  asked_without name = refl

  -- A message with the key of a job and no value is answered by an error, and the job is run
  -- nevertheless, without arguments.
  pub on_key_twice :
      (name : Bytes) (message : Fields F)
      → as_map (index (codes "value") message) ≡ none
      → on_key to_int t (b'@' ∷ name) message ≡ (
        missing_args to_int t name ∷ handle_job_request to_int t name no_fields ∷ [],
        returned tt,
      )
  unfolding on_key
  on_key_twice name message e =
      ap (λ v. (asked_job to_int t name v, returned tt)) e
      ∙ ap (λ l. (l, returned tt)) (asked_without name)
