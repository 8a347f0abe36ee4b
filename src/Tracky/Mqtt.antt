-- ===== src/Tracky/Mqtt.antt =====
-- tracky/src/trackeroo/mqtt.go: the client of the firmware, its answers to messages from
-- the platform. The JSON decoder and the conversion from float64 are parameters.
pub mod Goroutines
pub mod Dispatch
use trackeroo.Base.{
  ℕ, ◌==◌, Bool, true, false, Option, none, some, List, [], ◌∷◌, ◌++◌, Bytes, codes, bytes_eq,
  if◌then◌else◌, ℤ, pos, ◌+ℤ◌, negate, wrap64, Outcome, returned, panicked,
}
use trackeroo.Base.Decimal.{format_int}
use trackeroo.Backend.Token.{JwtLib}
use trackeroo.Tracky.Jobs.{
  Json, null, boolean, number, text, array, object, Items, no_items, item, Fields, no_fields, field,
  index, as_text, as_map, as_number, map_or_nil, Payload, empty, job_error, test_result, os_info,
  manifest, test, job,
}
use trackeroo.Tracky.Config.{Credentials, create_ca_file, get_token}

-- What the client does: it publishes a key and a value, or runs a job in a goroutine, which
-- publishes its result.
pub data Effect (F : Type 0) : Type 0 where
  sends : Bytes → Bytes → Payload → Effect F
  spawns : Bytes → Fields F → Effect F

pub record TdmClient : Type 0 where
  pub creds : Credentials
  pub broker : Bytes
  pub port : ℤ
  pub mode : Bytes
  pub client_id : Bytes
  pub topic_up : Bytes
  pub topic_dn : Bytes
  pub topic_data : Bytes

-- Without credentials the error is logged, and the nil pointer then panics. The second result is
-- the file that `CreateCaFile` writes.
unfoldable pub new_tdm_client : Option Credentials → Outcome (TdmClient × Option Bytes)
unfolding create_ca_file
new_tdm_client none = panicked
new_tdm_client (some c) = returned (
  record {
    creds = c;
    broker = c.mqtt_host;
    port = c.mqtt_port;
    mode = c.mqtt_mode;
    client_id = c.id;
    topic_up = codes "j/up/" ++ c.id;
    topic_dn = codes "j/dn/" ++ c.id;
    topic_data = codes "j/data/" ++ c.id;
  },
  create_ca_file (some c),
)

-- The options of the client that depend on the credentials; the password is empty where no token
-- can be made.
pub record Options : Type 0 where
  pub url : Bytes
  pub uses_tls : Bool
  pub username : Bytes
  pub password : Bytes

unfoldable pub init_client : JwtLib → (Bytes → Bytes) → ℕ → ℕ → TdmClient → Options
unfolding bytes_eq get_token format_int
init_client j broken now1 now2 t =
    let secure = bytes_eq t.mode (codes "secure") in
    let scheme = if secure then codes "mqtts://" else codes "mqtt://" in
    record {
      url = scheme ++ (t.broker ++ (codes ":" ++ format_int t.port));
      uses_tls = secure;
      username = t.client_id;
      password = elim (get_token j broken t.creds.private_key 200 200 t.creds.id now1 now2) [
        | none ↦ []
        | some token ↦ token
      ];
    }

module _ {F : Type 0} (to_int : F → ℤ) (t : TdmClient) where
  -- the value {"key": prefix + tag, "value": payload} on the topic `topicUp`
  unfoldable pub up : Bytes → Payload → Bytes → Effect F
  up tag payload prefix = sends t.topic_up (prefix ++ tag) payload

  unfoldable pub reply_job : Bytes → Payload → Effect F
  unfolding up
  reply_job key value = up key value (codes "@")

  unfoldable pub request : Bytes → Payload → Effect F
  unfolding up
  request key value = up key value (codes "#")

  unfoldable pub request_status : Effect F
  unfolding request
  request_status = request (codes "status") empty

  unfoldable pub request_time : Effect F
  unfolding request
  request_time = request (codes "now") empty

  unfoldable pub send_os_info : Effect F
  unfolding up
  send_os_info = up (codes "info") os_info (codes "__")

  unfoldable pub send_manifest : Effect F
  unfolding up
  send_manifest =
      up (codes "manifest") (manifest (codes "reset" ∷ codes "restart" ∷ codes "test" ∷ []))
        (codes "__")

  unfoldable pub handle_job_request : Bytes → Fields F → Effect F
  unfolding job reply_job
  handle_job_request name args = elim (job to_int name) [
    | some fn ↦ spawns name args
    | none ↦ reply_job name (job_error (codes "Cannot find job " ++ name))
  ]

  -- what the goroutine of a job publishes when the job has returned
  unfoldable pub ran : Effect F → Effect F
  unfolding job reply_job
  ran (sends topic key value) = sends topic key value
  ran (spawns name args) = elim (job to_int name) [
    | some fn ↦ reply_job name (fn args)
    | none ↦ spawns name args
  ]

  abbrev pub missing_args : Bytes → Effect F
  missing_args name = reply_job name (job_error (codes "Missing args"))

  -- The loop over the expected jobs. An entry without arguments ends it; `k[0]` panics on an empty key.
  unfoldable pub expected_jobs : Fields F → List (Effect F) × Outcome (Unit {0})
  unfolding handle_job_request reply_job as_map map_or_nil index
  expected_jobs no_fields = ([], returned tt)
  expected_jobs (field [] v m) = ([], panicked)
  expected_jobs (field (c ∷ name) v m) =
      let (effects, o) = expected_jobs m in
      let args = as_map (
        index (codes "args")
          (map_or_nil (as_map (index (codes "v") (map_or_nil (as_map (some v))))))) in
      if c == b'@'
      then elim args [
        | none ↦ (missing_args name ∷ [], returned tt)
        | some a ↦ (handle_job_request name a ∷ effects, o)
      ]
      else (effects, o)

  -- `data["value"]` of a message whose key is a job's: the job is run even where it is missing
  unfoldable pub asked_job : Bytes → Option (Fields F) → List (Effect F)
  unfolding handle_job_request reply_job as_map map_or_nil index
  asked_job name value =
      let args = map_or_nil (as_map (index (codes "args") (map_or_nil value))) in
      elim value [
        | none ↦ missing_args name ∷ handle_job_request name args ∷ []
        | some _ ↦ handle_job_request name args ∷ []
      ]

  unfoldable pub expected_of : Fields F → Fields F
  unfolding as_map map_or_nil index
  expected_of message =
      map_or_nil
        (as_map (index (codes "expected") (map_or_nil (as_map (index (codes "value") message)))))

  -- by the key of the message
  unfoldable pub on_key : Bytes → Fields F → List (Effect F) × Outcome (Unit {0})
  unfolding expected_jobs asked_job expected_of
  on_key [] message = ([], panicked)
  on_key (c ∷ name) message =
      if c == b'#'
      then (if bytes_eq (c ∷ name) (codes "#status")
          then expected_jobs (expected_of message)
          else ([], returned tt))
      else if c == b'@'
      then (asked_job name (as_map (index (codes "value") message)), returned tt)
      else ([], returned tt)

  -- `decode` is nothing where `Unmarshal` into a map fails.
  unfoldable pub handle_dn_msg :
      (Bytes → Option (Fields F)) → Bytes → List (Effect F) × Outcome (Unit {0})
  unfolding on_key as_text index
  handle_dn_msg decode payload = elim (decode payload) [
    | none ↦ ([], returned tt)
    | some message ↦ elim (as_text (index (codes "key") message)) [
      | none ↦ ([], returned tt)
      | some key ↦ on_key key message
    ]
  ]
