-- ===== src/Backend/Db/Deletion.antt =====
-- Which documents the updates and deletions of service/db.go reach.
use trackeroo.Base.{
  ◌≡◌, ◌≢◌, refl, ap, Bool, true, false, Option, none, some, List, [], ◌∷◌, arith, Bytes, codes,
  length, length-append, All, Option-cases, inl, inr,
}
use trackeroo.Backend.Model.{User}
use trackeroo.Backend.Server.{DocId, object_id, string_id, id_eq, UserDoc, DeviceDoc, Server}
use trackeroo.Backend.Db.{
  bad_object_id, user_has, device_has, delete_first, update_first, update_user, delete_user,
  delete_device, gen_device_id,
}

-- the key of a document whose `_id` the server made
abbrev pub IsObjectId : DocId → Type 0
IsObjectId (object_id _) = Unit
IsObjectId (string_id _) = ⊥

-- the key of a document whose `_id` the program made
abbrev pub IsStringId : DocId → Type 0
IsStringId (object_id _) = ⊥
IsStringId (string_id _) = Unit

module _ {ℓ} {A : Type ℓ} (p : A → Bool) where
  delete_first_miss : (xs : List A) → All (λ x. p x ≡ false) xs → delete_first p xs ≡ xs
  unfolding delete_first
  delete_first_miss [] h = refl
  delete_first_miss (x ∷ xs) h = ground (arith, delete_first_miss xs h.1)

  update_first_miss :
      (f : A → A) (xs : List A) → All (λ x. p x ≡ false) xs → update_first p f xs ≡ xs
  unfolding update_first
  update_first_miss f [] h = refl
  update_first_miss f (x ∷ xs) h = ground (arith, update_first_miss f xs h.1)

object-string_miss : (k : DocId) (id : Bytes) → IsObjectId k → id_eq k (string_id id) ≡ false
unfolding id_eq
object-string_miss (object_id h) id o = refl
object-string_miss (string_id t) id o = elim o [ ]

string-object_miss : (k : DocId) (id : Bytes) → IsStringId k → id_eq k (object_id id) ≡ false
unfolding id_eq
string-object_miss (object_id h) id o = elim o [ ]
string-object_miss (string_id t) id o = refl

users_miss :
    (id : Bytes) (ds : List UserDoc)
    → All (λ d. IsObjectId d.key) ds
    → All (λ d. user_has (string_id id) d ≡ false) ds
users_miss id [] h = tt
users_miss id (d ∷ ds) h = (object-string_miss d.key id h.0, users_miss id ds h.1)

devices_miss :
    (id : Bytes) (ds : List DeviceDoc)
    → All (λ d. IsStringId d.key) ds
    → All (λ d. device_has (object_id id) d ≡ false) ds
devices_miss id [] h = tt
devices_miss id (d ∷ ds) h = (string-object_miss d.key id h.0, devices_miss id ds h.1)

-- Where every user document has a key that the server made (as the documents of mongo/init.js
-- have), `UpdateUser` and `DeleteUser` change no document, whatever the id, and report no error
-- as long as the database answers.
pub update_user-delete_user_miss :
    (s : Server) (user : User) (id : Bytes)
    → All (λ d. IsObjectId d.key) s.users
    → (update_user true user s ≡ (s, none)) × (delete_user true id s ≡ (s, none))
unfolding update_user delete_user
update_user-delete_user_miss s user id h = (
  ap (λ us. (record s { users = us }, none))
      (update_first_miss (user_has (string_id user.id)) (λ d. record d { user = user }) s.users
        (users_miss user.id s.users h)),
  ap (λ us. (record s { users = us }, none))
      (delete_first_miss (user_has (string_id id)) s.users (users_miss id s.users h)),
)

-- Where every device document has a key that the program made (as `InsertDevice` makes them),
-- `DeleteDevice` removes no document, whatever the id and whatever the database answers. For an
-- id of `GenDeviceID`, whose hex part has 16 digits, it changes nothing at all and reports a bad id:
-- `ObjectIDFromHex` takes texts of 24 digits only.
pub delete_device_miss :
    (from_hex : Bytes → Option Bytes) (s : Server) (up : Bool) (id hex : Bytes)
    → ((t : Bytes) → length t ≢ 24 → from_hex t ≡ none)
    → All (λ d. IsStringId d.key) s.devices
    → length hex ≡ 16
    → ((delete_device from_hex up id s).0.devices ≡ s.devices)
      × (delete_device from_hex up (gen_device_id hex) s ≡ (s, some bad_object_id))
unfolding delete_device gen_device_id
delete_device_miss from_hex s up id hex law h n = (
  elim (Option-cases (from_hex id)) [
    | inl e ↦ rw (e, delete_device)
    | inr (x, e) ↦
        rw (e, delete_device)
          (ground (
            arith,
            delete_first_miss (device_has (object_id x)) s.devices (devices_miss x s.devices h),
          ))
  ],
  rw (
    law (gen_device_id hex)
        (unfold gen_device_id in omega (arith, length-append {0} (codes "trk-") hex)),
    delete_device,
  ),
)
