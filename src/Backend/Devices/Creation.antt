-- ===== src/Backend/Devices/Creation.antt =====
-- What `CreateDevice` of handler/devices.go stores and answers.
use trackeroo.Base.{
  ◌≡◌, refl, ap, ◌∙◌, Bool, true, false, none, some, List, [], ◌∷◌, ◌++◌, Bytes, bytes_eq_refl,
  returned, Option-cases, Bool-cases, inl, inr,
}
use trackeroo.Base.Base64.{encode64}
use trackeroo.Backend.Model.{Device, DeviceCreation}
use trackeroo.Backend.Http.{Request, Writer, write, write_header, json_device}
use trackeroo.Backend.Token.{gen_private_key}
use trackeroo.Backend.Server.{Server, DeviceDoc, string_id, id_eq, id_text}
use trackeroo.Backend.Db.{
  DbError, ok, err, duplicate_key, db_failed, find_first, found, device_has, decode_device,
  get_device, insert_device, gen_device_id,
}
use trackeroo.Backend.Devices.{Environment, Ending, new_device, create_device, created, fail}

module _ {ℓ} {A : Type ℓ} (p : A → Bool) where
  find_first_last :
      (xs : List A) (y : A)
      → find_first p xs ≡ none
      → p y ≡ true
      → find_first p (xs ++ y ∷ []) ≡ some y
  unfolding find_first
  find_first_last [] y n e = rw e refl
  find_first_last (x ∷ xs) y n e = elim (Bool-cases (p x)) [
    | inl f ↦ absurd (let n' = rw f at n in cc)
    | inr f ↦ rw f (find_first_last xs y (rw f at n) e)
  ]

abbrev doc_of : Bytes → Device → DeviceDoc
doc_of id d = record { key = string_id id; device = record d { id = id } }

abbrev pub with_device : Bytes → Device → Server → Server
with_device id d s = record s { devices = s.devices ++ doc_of id d ∷ [] }

pub stored_device :
    (id : Bytes) (d : Device) (s : Server)
    → find_first (device_has (string_id id)) s.devices ≡ none
    → get_device true id (with_device id d s) ≡ ok (record d { id = id })
unfolding get_device found decode_device id_text
stored_device id d s n =
    rw
      (find_first_last (device_has (string_id id)) s.devices (doc_of id d) n
        (unfold id_eq in bytes_eq_refl id))
      refl

pub inserted :
    (id : Bytes) (d : Device) (s : Server)
    → find_first (device_has (string_id id)) s.devices ≡ none
    → insert_device id true true d s ≡ (with_device id d s, ok (record d { id = id }))
unfolding insert_device
inserted id d s n = rw n (ap (λ g. (with_device id d s, g)) (stored_device id d s n))

-- the state and the answer after a creation that went through
abbrev pub stored_and_answered : Environment → DeviceCreation → Bytes → Server → Writer → Ending
stored_and_answered x req random s w =
    let id = gen_device_id x.hex in
    let dev = new_device x req (encode64 random) in
    (
      (with_device id dev s, write (json_device (record dev { id = id })) (write_header 201 w)),
      returned tt,
    )

abbrev device_of : Environment → DeviceCreation → Bytes → Device
device_of x req random = new_device x req (encode64 random)

-- How `CreateDevice` ends: with a body that is no JSON, without random bytes, where the insertion
-- fails or the id is taken, where the new document cannot be read back, or with a new document whose
-- device is the answer.
pub data Creates (x : Environment) (r : Request) (s : Server) (w : Writer) (res : Ending)
    : Type 0 where
  malformed : x.decode r.body ≡ none → res ≡ fail 400 x.decode_error s w → Creates x r s w res
  no_key : x.random ≡ none → res ≡ fail 500 x.random_error s w → Creates x r s w res
  refused :
      (req : DeviceCreation) (random : Bytes)
      → x.decode r.body ≡ some req
      → x.random ≡ some random
      → x.up 0 ≡ false
      → res ≡ fail 500 (x.text_of db_failed) s w
      → Creates x r s w res
  taken :
      (req : DeviceCreation) (random : Bytes) (older : DeviceDoc)
      → x.decode r.body ≡ some req
      → x.random ≡ some random
      → x.up 0 ≡ true
      → find_first (device_has (string_id (gen_device_id x.hex))) s.devices ≡ some older
      → res ≡ fail 500 (x.text_of duplicate_key) s w
      → Creates x r s w res
  unread :
      (req : DeviceCreation) (random : Bytes)
      → x.decode r.body ≡ some req
      → x.random ≡ some random
      → x.up 0 ≡ true
      → x.up 1 ≡ false
      → find_first (device_has (string_id (gen_device_id x.hex))) s.devices ≡ none
      → res
        ≡ fail 500
            (x.text_of db_failed)
            (with_device (gen_device_id x.hex) (device_of x req random) s)
            w
      → Creates x r s w res
  stores :
      (req : DeviceCreation) (random : Bytes)
      → x.decode r.body ≡ some req
      → x.random ≡ some random
      → x.up 0 ≡ true
      → x.up 1 ≡ true
      → find_first (device_has (string_id (gen_device_id x.hex))) s.devices ≡ none
      → res ≡ stored_and_answered x req random s w
      → Creates x r s w res

pub create_device_step :
    (x : Environment) (r : Request) (s : Server) (w : Writer) (req : DeviceCreation)
    (random : Bytes)
    → x.decode r.body ≡ some req
    → x.random ≡ some random
    → create_device x r (s, w)
      ≡ created x
          (insert_device (gen_device_id x.hex) (x.up 0) (x.up 1) (device_of x req random) s)
          w
unfolding create_device gen_private_key
create_device_step x r s w req random d n = rw (d, create_device, n, gen_private_key) refl

rejects_body :
    (x : Environment) (r : Request) (s : Server) (w : Writer)
    → x.decode r.body ≡ none
    → create_device x r (s, w) ≡ fail 400 x.decode_error s w
unfolding create_device
rejects_body x r s w d = rw (d, create_device) refl

lacks_key :
    (x : Environment) (r : Request) (s : Server) (w : Writer) (req : DeviceCreation)
    → x.decode r.body ≡ some req
    → x.random ≡ none
    → create_device x r (s, w) ≡ fail 500 x.random_error s w
unfolding create_device gen_private_key
lacks_key x r s w req d n = rw (d, create_device, n, gen_private_key) refl

pub created_ok :
    (x : Environment) (s : Server) (dev : Device) (w : Writer)
    → created x (s, ok dev) w ≡ ((s, write (json_device dev) (write_header 201 w)), returned tt)
unfolding created
created_ok x s dev w = refl

not_inserted :
    (reads : Bool) (id : Bytes) (d : Device) (s : Server)
    → insert_device id false reads d s ≡ (s, err db_failed)
unfolding insert_device
not_inserted reads id d s = refl

id_taken :
    (reads : Bool) (id : Bytes) (d : Device) (s : Server) (older : DeviceDoc)
    → find_first (device_has (string_id id)) s.devices ≡ some older
    → insert_device id true reads d s ≡ (s, err duplicate_key)
unfolding insert_device
id_taken reads id d s older n = rw n refl

not_read :
    (id : Bytes) (d : Device) (s : Server)
    → find_first (device_has (string_id id)) s.devices ≡ none
    → insert_device id true false d s ≡ (with_device id d s, err db_failed)
unfolding insert_device get_device
not_read id d s n = rw n refl

created_err :
    (x : Environment) (s : Server) (e : DbError) (w : Writer)
    → created x (s, err e) w ≡ fail 500 (x.text_of e) s w
unfolding created
created_err x s e w = refl

-- `CreateDevice` on a body that parses, with random bytes
inserted-Creates :
    (x : Environment) (r : Request) (s : Server) (w : Writer) (req : DeviceCreation)
    (random : Bytes) (up reads : Bool)
    → x.decode r.body ≡ some req
    → x.random ≡ some random
    → x.up 0 ≡ up
    → x.up 1 ≡ reads
    → Creates x r s w
        (created x (insert_device (gen_device_id x.hex) up reads (device_of x req random) s) w)
inserted-Creates x r s w req random false reads d n u v = refused req random d n u (
    ap (λ p. created x p w) (not_inserted reads (gen_device_id x.hex) (device_of x req random) s)
    ∙ created_err x s db_failed w)
inserted-Creates x r s w req random true reads d n u v =
    let id = gen_device_id x.hex in
    elim (Option-cases (find_first (device_has (string_id id)) s.devices)) [
      | inr (older, f) ↦ taken req random older d n u f (
          ap (λ p. created x p w) (id_taken reads id (device_of x req random) s older f)
          ∙ created_err x s duplicate_key w)
      | inl f ↦ read_back reads v f
    ]
  where
    read_back :
        (reads : Bool)
        → x.up 1 ≡ reads
        → find_first (device_has (string_id (gen_device_id x.hex))) s.devices ≡ none
        → Creates x r s w (
            created x (insert_device (gen_device_id x.hex) true reads (device_of x req random) s) w)
    read_back true v f = stores req random d n u v f (
        ap (λ p. created x p w) (inserted (gen_device_id x.hex) (device_of x req random) s f)
        ∙ created_ok x _ _ w)
    read_back false v f = unread req random d n u v f (
        ap (λ p. created x p w) (not_read (gen_device_id x.hex) (device_of x req random) s f)
        ∙ created_err x _ db_failed w)

-- `CreateDevice` answers 400 to a body that is no JSON and 500 where the random source or the
-- insertion fails or the id is taken, and stores nothing then. Otherwise it stores the device under
-- the generated id, with the Base64 text of the random bytes as its key: it answers 201 with just
-- that device, or, where the new document cannot be read back, 500 although it is stored.
pub create_device-Creates :
    (x : Environment) (r : Request) (s : Server) (w : Writer)
    → Creates x r s w (create_device x r (s, w))
create_device-Creates x r s w = elim (Option-cases (x.decode r.body)) [
  | inl n ↦ malformed n (rejects_body x r s w n)
  | inr (req, d) ↦ elim (Option-cases x.random) [
    | inl n ↦ no_key n (rejects_key n d)
    | inr (random, n) ↦
        rw (create_device_step x r s w req random d n)
          (inserted-Creates x r s w req random (x.up 0) (x.up 1) d n refl refl)
  ]
]
  where
    rejects_key :
        {req : DeviceCreation}
        → x.random ≡ none
        → x.decode r.body ≡ some req
        → create_device x r (s, w) ≡ fail 500 x.random_error s w
    rejects_key n d = lacks_key x r s w _ d n
