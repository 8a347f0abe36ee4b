-- ===== src/Tracky/Jobs.antt =====
-- tracky/src/trackeroo/jobs.go: the jobs, on decoded JSON values as in mqtt.go. The conversion from
-- float64 is a parameter.
use trackeroo.Base.{
  Bool, Option, none, some, List, ◌++◌, Bytes, codes, bytes_eq, if◌then◌else◌, ℤ, ◌+ℤ◌, negate,
  wrap64,
}
use trackeroo.Base.Decimal.{format_int}

-- A decoded JSON value; a number is a float64 of type F.
mutual
  pub data Json (F : Type 0) : Type 0 where
    null : Json F
    boolean : Bool → Json F
    number : F → Json F
    text : Bytes → Json F
    array : Items F → Json F
    object : Fields F → Json F

  pub data Items (F : Type 0) : Type 0 where
    no_items : Items F
    item : Json F → Items F → Items F

  -- A map, its entries in the order in which `range` meets them; `no_fields` is also the nil map.
  pub data Fields (F : Type 0) : Type 0 where
    no_fields : Fields F
    field : Bytes → Json F → Fields F → Fields F

module _ {F : Type 0} where
  unfoldable pub index : Bytes → Fields F → Option (Json F)
  unfolding bytes_eq
  index k no_fields = none
  index k (field j v m) = let rest = index k m in if bytes_eq j k then some v else rest

  -- the assertions to string and to map[string]any
  unfoldable pub as_text : Option (Json F) → Option Bytes
  as_text (some (text s)) = some s
  as_text _ = none

  unfoldable pub as_map : Option (Json F) → Option (Fields F)
  as_map (some (object m)) = some m
  as_map _ = none

  unfoldable pub as_number : Option (Json F) → Option F
  as_number (some (number n)) = some n
  as_number _ = none

  -- `m, _ := v.(map[string]any)`
  unfoldable pub map_or_nil : Option (Fields F) → Fields F
  map_or_nil none = no_fields
  map_or_nil (some m) = m

-- The values that the client sends.
pub data Payload : Type 0 where
  empty : Payload
  job_error : Bytes → Payload
  test_result : ℤ → ℤ → Bytes → Payload
  os_info : Payload
  manifest : List Bytes → Payload

-- jobs.go: the only job
module _ {F : Type 0} (to_int : F → ℤ) where
  unfoldable pub test : Fields F → Payload
  unfolding index as_number wrap64 ◌+ℤ◌ negate format_int
  test args = elim (as_number (index (codes "a") args)) [
    | none ↦ job_error (codes "Missing parameter a")
    | some x ↦ elim (as_number (index (codes "b") args)) [
      | none ↦ job_error (codes "Missing parameter b")
      | some y ↦
          let a = to_int x in
          let b = to_int y in
          test_result (wrap64 (a +ℤ b)) (wrap64 (a +ℤ negate b))
            (codes "a: " ++ (format_int a ++ (codes " - b: " ++ format_int b)))
    ]
  ]

  -- the map `Jobs`
  unfoldable pub job : Bytes → Option (Fields F → Payload)
  unfolding test bytes_eq
  job name = if bytes_eq name (codes "test") then some test else none
