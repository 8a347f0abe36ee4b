-- ===== src/Backend/Users.antt =====
-- trackeroo-backend/src/internal/handler: users.go, and admin.go, health.go and options.go, which
-- answer without a look at the state. `text_of` is the text of a driver's error.
use trackeroo.Base.{
  ℕ, ◌≡◌, ap, ◌∙◌, Bool, true, Option, none, some, All, Bytes, codes, Outcome, returned,
}
use trackeroo.Backend.Http.{
  Handler, Request, Writer, write, write_header, set_header, http_error, json_value, json_details,
  content_type, application_json, first_status,
}
use trackeroo.Backend.Server.{Server}
use trackeroo.Backend.Db.{DbError, Result, ok, err}
use trackeroo.Backend.Db
use trackeroo.Backend.Login.{zero_user}
use trackeroo.Backend.Db.Deletion.{IsObjectId, update_user-delete_user_miss}

-- a value in JSON, or the text of the error with this status
unfoldable pub answer {ℓ} : {A : Type ℓ} → (DbError → Bytes) → ℕ → Result A → Writer → Writer
answer text_of status (ok a) w = write json_value (set_header content_type application_json w)
answer text_of status (err e) w = http_error (text_of e) status w

unfoldable pub get_users : (DbError → Bytes) → Bool → Handler Server
unfolding answer
get_users text_of up r (s, w) = ((s, answer text_of 500 (Db.get_users up s) w), returned tt)

unfoldable pub not_implemented : Handler Server
not_implemented r (s, w) = ((s, http_error (codes "Not implemented") 501 w), returned tt)

unfoldable pub create_user : Handler Server
unfolding not_implemented
create_user r sw = not_implemented r sw

unfoldable pub get_user : (DbError → Bytes) → (Bytes → Option Bytes) → Bool → Handler Server
unfolding answer
get_user text_of from_hex up r (s, w) =
    ((s, answer text_of 404 (Db.get_user from_hex up (r.path_value (codes "id")) s) w), returned tt)

unfoldable pub update_user : Handler Server
unfolding not_implemented
update_user r sw = not_implemented r sw

unfoldable pub deleted :
    (DbError → Bytes) → Server × Option DbError → Writer → (Server × Writer) × Outcome (Unit {0})
deleted text_of (s, none) w = ((s, write_header 204 w), returned tt)
deleted text_of (s, some e) w = ((s, http_error (text_of e) 404 w), returned tt)

unfoldable pub delete_user : (DbError → Bytes) → Bool → Handler Server
unfolding deleted
delete_user text_of up r (s, w) =
    deleted text_of (Db.delete_user up (r.path_value (codes "id")) s) w

unfoldable pub details : Bytes → Writer → Writer
details text w = write (json_details text) (set_header content_type application_json w)

unfoldable pub nothing_to_see : Handler Server
unfolding details
nothing_to_see r (s, w) = ((s, details (codes "Nothing to see here...") w), returned tt)

unfoldable pub health_check : Handler Server
unfolding details
health_check r (s, w) = ((s, details (codes "Healthy!") w), returned tt)

unfoldable pub options : Handler Server
options r (s, w) = (
  (
    s,
    write_header 200 (
        set_header (codes "Access-Control-Allow-Headers")
          (codes "Content-Type, Authorization, Username")
          (set_header (codes "Access-Control-Allow-Methods") (codes "POST, GET, OPTIONS")
            (set_header (codes "Access-Control-Allow-Origin") (codes "*") w))),
  ),
  returned tt,
)

-- A request to delete a user whose document has a key that the server made is answered by status
-- 204, as long as the database answers, and deletes no document, whatever the id.
pub delete_user_unchanged :
    (text_of : DbError → Bytes) (r : Request) (s : Server) (w : Writer)
    → All (λ d. IsObjectId d.key) s.users
    → w.sent ≡ none
    → ((delete_user text_of true r (s, w)).0.0 ≡ s)
      × ((delete_user text_of true r (s, w)).0.1.sent ≡ some (204, w.header))
unfolding delete_user write_header first_status
delete_user_unchanged text_of r s w h n =
    let id = r.path_value (codes "id") in
    let gone = (update_user-delete_user_miss s zero_user id h).1 in
    (
      ap (λ x. (deleted text_of x w).0.0) gone,
      ap (λ x. (deleted text_of x w).0.1.sent) gone ∙ ap (λ o. first_status o 204 w.header) n,
    )
