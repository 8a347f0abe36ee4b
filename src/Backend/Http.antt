-- ===== src/Backend/Http.antt =====
-- What the handlers use of net/http: the request's parts, the response writer, and handlers as
-- functions of a server state.
use trackeroo.Base.{
  ℕ, Option, none, some, List, [], ◌∷◌, ◌++◌, Bytes, codes, Dict, insert, delete, Outcome,
}
use trackeroo.Backend.Model.{Device, DeviceCredentials}

-- A piece of a response's body: a text, or a value given to a JSON encoder.
pub data Chunk : Type 0 where
  text : Bytes → Chunk
  json_error : Bytes → Chunk
  json_details : Bytes → Chunk
  json_token : Bytes → Chunk
  json_value : Chunk
  json_device : Device → Chunk
  json_devices : List Device → Chunk
  json_credentials : List DeviceCredentials → Chunk
  json_device_credentials : DeviceCredentials → Chunk

pub data Level : Type 0 where
  debug info warning error : Level

-- `header` is what `w.Header()` holds. `sent` is the status line and the header as they went out.
-- `logged` is the field `statusCode` of the logging middleware's `wrappedWriter`, and `access_log` the lines that
-- this middleware logged, each a level and a status.
pub record Writer : Type 0 where
  pub header : Dict Bytes
  pub sent : Option (ℕ × Dict Bytes)
  pub body : List Chunk
  pub logged : ℕ
  pub access_log : List (Level × ℕ)

abbrev pub fresh_writer : Writer
fresh_writer = record { header = []; sent = none; body = []; logged = 200; access_log = [] }

unfoldable pub first_status : Option (ℕ × Dict Bytes) → ℕ → Dict Bytes → Option (ℕ × Dict Bytes)
first_status none code header = some (code, header)
first_status (some s) code header = some s

-- Only the first status that is written goes out; the wrapper remembers the last.
unfoldable pub write_header : ℕ → Writer → Writer
unfolding first_status
write_header code w = record w { sent = first_status w.sent code w.header; logged = code }

-- `Write` sends status 200 first where none was sent; the wrapper does not see that.
unfoldable pub write : Chunk → Writer → Writer
unfolding first_status
write c w = record w { sent = first_status w.sent 200 w.header; body = w.body ++ c ∷ [] }

unfoldable pub set_header : Bytes → Bytes → Writer → Writer
set_header k v w = record w { header = insert k v w.header }

abbrev pub content_type : Bytes
content_type = codes "Content-Type"

abbrev pub content_length : Bytes
content_length = codes "Content-Length"

abbrev pub application_json : Bytes
application_json = codes "application/json"

-- `http.Error`
unfoldable pub http_error : Bytes → ℕ → Writer → Writer
unfolding set_header write_header write
http_error msg code w = write (text msg) (
    write_header code (
      set_header (codes "X-Content-Type-Options") (codes "nosniff") (
        set_header content_type (codes "text/plain; charset=utf-8")
          (record w { header = delete content_length w.header }))))

-- `header`, `query` and `path_value` give the empty text for what is not there; `form` is nothing
-- where `ParseForm` fails, and `body` where the body cannot be read.
pub record Request : Type 0 where
  pub method : Bytes
  pub path : Bytes
  pub header : Bytes → Bytes
  pub query : Bytes → Bytes
  pub path_value : Bytes → Bytes
  pub form : Option (Bytes → Bytes)
  pub body : Option Bytes

-- A handler over a server state. What was written before a panic stays written.
abbrev pub Handler : Type 0 → Type 0
Handler S = Request → S × Writer → (S × Writer) × Outcome (Unit {0})
