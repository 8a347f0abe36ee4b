-- ===== src/Backend/MqttAuth/Topics.antt =====
-- What `TopicAuth` of handler/mqttauth.go allows.
use trackeroo.Base.{
  not_both, ◌≡◌, refl, ap, ◌∙◌, inl, inr, Bool, true, false, Option, none, some, List, [], ◌∷◌,
  ◌++◌, Bytes, codes, contains, contains_infix, contains_sound, Option-cases, Bool-cases,
}
use trackeroo.Backend.Http.{Request, Writer, Chunk, text, write, write_header}
use trackeroo.Backend.Model.{User, MqttTopicAuthRequest}
use trackeroo.Backend.Cache
use trackeroo.Backend.Server.{Server}
use trackeroo.Backend.Db.{
  no_documents, db_failed, bad_object_id, duplicate_key, Result, ok, err, get_user_by_name,
}
use trackeroo.Backend.MqttAuth.{
  Reply, allow, deny, topic_verdict, remember, lookup_auth, form_topic_auth, topic_form, topic_auth,
}

abbrev pub by_lookup : Result User → Option Bool
by_lookup (ok _) = some true
by_lookup (err no_documents) = some false
by_lookup (err _) = none

abbrev pub known_of : Option Bool → Result User → Option Bool
known_of (some b) res = some b
known_of none res = by_lookup res

-- Whether the name is that of a user, as far as the cache and the collection tell.
abbrev pub is_known_user : Bool → Bytes → Server → Option Bool
is_known_user up name s = known_of (Cache.get name s.is_user_cache) (get_user_by_name up name s)

-- the name stands somewhere within the topic
abbrev pub Within : Bytes → Bytes → Type 0
Within name topic = (a : Bytes) × (b : Bytes) × (topic ≡ a ++ (name ++ b))

abbrev pub Says : List Chunk → Bytes → Reply → Type 0
Says body v r = r.0.1.body ≡ body ++ text v ∷ []

-- How `TopicAuth` ends, by what is known of the name.
pub data Judges (known : Option Bool) (form : MqttTopicAuthRequest) (body : List Chunk) (r : Reply)
    : Type 0 where
  for_user : known ≡ some true → Says body allow r → Judges known form body r
  within :
      known ≡ some false
      → Within form.username form.topic
      → Says body allow r
      → Judges known form body r
  outside :
      known ≡ some false
      → ¬ Within form.username form.topic
      → Says body deny r
      → Judges known form body r
  silent : known ≡ none → r.0.1.body ≡ body → Judges known form body r

verdict-Judges :
    (form : MqttTopicAuthRequest) (is_user : Bool) (s : Server) (w : Writer)
    → Judges (some is_user) form w.body (topic_verdict form is_user s w)
unfolding topic_verdict write
verdict-Judges form true s w = for_user refl refl
verdict-Judges form false s w = elim (Bool-cases (contains form.topic form.username)) [
  | inl c ↦ within refl (contains_sound form.topic form.username c) (rw c refl)
  | inr c ↦
      outside refl
        (λ (a, b, e).
          absurd
            (not_both (ap (λ t. contains t form.username) e ∙ contains_infix a form.username b) c))
        (rw c refl)
]

lookup-Judges :
    (form : MqttTopicAuthRequest) (res : Result User) (s : Server) (w : Writer)
    → Judges (by_lookup res) form w.body (lookup_auth form res s w)
unfolding lookup_auth
lookup-Judges form (ok u) s w = verdict-Judges form true (remember form true s) w
lookup-Judges form (err no_documents) s w = verdict-Judges form false (remember form false s) w
lookup-Judges form (err db_failed) s w = silent refl refl
lookup-Judges form (err bad_object_id) s w = silent refl refl
lookup-Judges form (err duplicate_key) s w = silent refl refl

cached_auth :
    (up : Bool) (form : MqttTopicAuthRequest) (s : Server) (w : Writer) (b : Bool)
    → Cache.get form.username s.is_user_cache ≡ some b
    → form_topic_auth up form s w ≡ topic_verdict form b s w
unfolding form_topic_auth
cached_auth up form s w b e = rw (e, form_topic_auth)

uncached_auth :
    (up : Bool) (form : MqttTopicAuthRequest) (s : Server) (w : Writer)
    → Cache.get form.username s.is_user_cache ≡ none
    → form_topic_auth up form s w ≡ lookup_auth form (get_user_by_name up form.username s) s w
unfolding form_topic_auth
uncached_auth up form s w e = rw (e, form_topic_auth)

form-Judges :
    (up : Bool) (form : MqttTopicAuthRequest) (s : Server) (w : Writer)
    → Judges (is_known_user up form.username s) form w.body (form_topic_auth up form s w)
form-Judges up form s w = elim (Option-cases (Cache.get form.username s.is_user_cache)) [
  | inl e ↦
      rw (uncached_auth up form s w e, e)
        (lookup-Judges form (get_user_by_name up form.username s) s w)
  | inr (b, e) ↦ rw (cached_auth up form s w b e, e) (verdict-Judges form b s w)
]

-- `TopicAuth` on a form that parses: a name that is known for a user's is allowed every topic; one
-- that is known for no user's is allowed a topic exactly if it stands somewhere within the text of
-- the topic, and is denied otherwise; where neither cache nor database tells, nothing is written.
pub topic_auth-Judges :
    (up : Bool) (f : Bytes → Bytes) (r : Request) (s : Server) (w : Writer)
    → r.form ≡ some f
    → Judges
        (is_known_user up (f (codes "username")) s)
        (topic_form f)
        w.body
        (topic_auth up r (s, w))
unfolding topic_auth write_header
topic_auth-Judges up f r s w e =
    rw (e, topic_auth) (form-Judges up (topic_form f) s (write_header 200 w))
