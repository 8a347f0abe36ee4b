-- ===== src/Backend/Cache.antt =====
-- trackeroo-backend/src/internal/service/cache.go: a map behind a read-write lock. Each call holds
-- the lock for its whole body, so calls are steps on the map. A cache holds values of one type.
use trackeroo.Base.{
  Option, none, some, [], ◌≡◌, Bytes, bytes_eq, if◌then◌else◌, Dict, lookup, insert, delete,
  lookup-insert, lookup-delete, refl,
}

pub record SimpleCache {ℓ} (V : Type ℓ) : Type ℓ where
  pub items : Dict V

module _ {ℓ} {V : Type ℓ} where
  unfoldable pub new_simple_cache : SimpleCache V
  new_simple_cache = record { items = [] }

  unfoldable pub get : Bytes → SimpleCache V → Option V
  get key kc = lookup key kc.items

  unfoldable pub set : Bytes → V → SimpleCache V → SimpleCache V
  set key value kc = record { items = insert key value kc.items }

  unfoldable pub invalidate : Bytes → SimpleCache V → SimpleCache V
  invalidate key kc = record { items = delete key kc.items }

  unfoldable pub clear : SimpleCache V → SimpleCache V
  clear kc = record { items = [] }

  pub get-set :
      (k j : Bytes) (v : V) (kc : SimpleCache V)
      → get j (set k v kc) ≡ (if bytes_eq k j then some v else get j kc)
  unfolding get set
  get-set k j v kc = lookup-insert k j v kc.items

  pub get-invalidate :
      (k j : Bytes) (kc : SimpleCache V)
      → get j (invalidate k kc) ≡ (if bytes_eq k j then none else get j kc)
  unfolding get invalidate
  get-invalidate k j kc = lookup-delete k j kc.items

  pub get-clear : (k : Bytes) (kc : SimpleCache V) → get k (clear kc) ≡ none
  unfolding get clear lookup
  get-clear k kc = refl
