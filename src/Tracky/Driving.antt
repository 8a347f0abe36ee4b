-- ===== src/Tracky/Driving.antt =====
-- tracky/src/trackeroo/driving.go: the types of the driving simulation, float64 numbers as an
-- interface, and the arithmetic. Routing has the services, Simulation the drive.
pub mod Routing
pub mod Simulation
pub mod Legs
pub mod Arrival
use trackeroo.Base.{
  ℕ, Bool, true, false, not, Option, List, [], ◌∷◌, Bytes, codes, bytes_eq, if◌then◌else◌, ℤ,
}
use trackeroo.Backend.Model.{Time}

-- What the program uses of float64. `decimal n d` is the literal n / d, `float32` the rounding to
-- that type, `print` is `%f`, `scan` is `Sscanf` with `%f`, and `nanoseconds` the conversion to a
-- Duration.
pub record Floats : Type 1 where
  pub Float : Type 0
  pub decimal : ℕ → ℕ → Float
  pub add : Float → Float → Float
  pub sub : Float → Float → Float
  pub mul : Float → Float → Float
  pub div : Float → Float → Float
  pub less : Float → Float → Bool
  pub at_most : Float → Float → Bool
  pub equal : Float → Float → Bool
  pub abs : Float → Float
  pub log : Float → Float
  pub sin : Float → Float
  pub cos : Float → Float
  pub sqrt : Float → Float
  pub atan2 : Float → Float → Float
  pub pi : Float
  pub float32 : Float → Float
  pub nanoseconds : Float → ℤ
  pub print : Float → Bytes
  pub scan : Bytes → Option Float

pub record Coordinate (F : Type 0) : Type 0 where
  pub lat : F
  pub lng : F

pub record RouteSegment (F : Type 0) : Type 0 where
  pub coordinates : List (Coordinate F)
  pub speed_kmh : F
  pub should_stop : Bool

pub data Status : Type 0 where
  arrived driving_on stopped slowing accelerating : Status

pub record DrivePosition (F : Type 0) : Type 0 where
  pub coordinate : Coordinate F
  pub timestamp : Time
  pub speed : F
  pub speed_limit : F
  pub status : Status
  pub start_at : Coordinate F
  pub end_at : Coordinate F
  pub consumption : F
  pub distance : F

module _ (R : Floats) where
  -- `float64` of a literal without a fraction
  abbrev pub whole : ℕ → R.Float
  whole n = R.decimal n 1

  -- a missing key gives 0, as for devices of type `other`
  unfoldable pub consumption_multiplier : Bytes → R.Float
  unfolding bytes_eq
  consumption_multiplier t =
      if bytes_eq t (codes "valuable")
      then R.float32 (R.decimal 13 10)
      else if bytes_eq t (codes "food")
      then R.float32 (R.decimal 11 10)
      else if bytes_eq t (codes "private_transport")
      then whole 1
      else if bytes_eq t (codes "public_transport")
      then R.float32 (R.decimal 18 10)
      else whole 0

  unfoldable pub get_consumption : R.Float → Bytes → R.Float
  unfolding consumption_multiplier
  get_consumption speed dev_type =
      let threshold = whole 80 in
      let base = R.add (whole 5) (R.div (R.decimal 607 10) speed) in
      let consumption =
        if R.at_most threshold speed
        then R.add base (R.mul (whole 5) (R.log (R.div speed threshold)))
        else base in
      if R.equal speed (whole 0)
      then whole 0
      else R.mul consumption (consumption_multiplier dev_type)

  unfoldable pub haversine_distance : Coordinate R.Float → Coordinate R.Float → R.Float
  haversine_distance p q =
      let radians : R.Float → R.Float = λ x. R.div (R.mul x R.pi) (whole 180) in
      let half : R.Float → R.Float = λ x. R.sin (R.div x (whole 2)) in
      let lat = half (radians (R.sub q.lat p.lat)) in
      let lng = half (radians (R.sub q.lng p.lng)) in
      let a =
        R.add (R.mul lat lat)
          (R.mul (R.mul (R.mul (R.cos (radians p.lat)) (R.cos (radians q.lat))) lng) lng) in
      let c = R.mul (whole 2) (R.atan2 (R.sqrt a) (R.sqrt (R.sub (whole 1) a))) in
      R.mul (whole 6371) c

  unfoldable pub interpolate_position :
      Coordinate R.Float → Coordinate R.Float → R.Float → Coordinate R.Float
  interpolate_position p q progress = record {
    lat = R.add p.lat (R.mul (R.sub q.lat p.lat) progress);
    lng = R.add p.lng (R.mul (R.sub q.lng p.lng) progress);
  }
