-- ===== src/Tracky/Driving/Routing.antt =====
-- tracky/src/trackeroo/driving.go: `Geocode`, `GetRoute` and `NewDrivingSimulator`. What the two
-- services answer to a URL, and the JSON decoder, are arguments.
use trackeroo.Base.{
  ℕ, ◌+◌, ◌/◌, ◌%◌, ◌==◌, ltb, leb, ◌&&◌, ◌||◌, Bool, Option, none, some, List, [], ◌∷◌, ◌++◌,
  Bytes, codes, bytes_eq, if◌then◌else◌,
}
use trackeroo.Tracky.Driving.{Floats, Coordinate, RouteSegment, whole}

-- How a call that fetches something ends; a panic is `crashed`.
pub data RoutingError : Type 0 where
  unreachable unreadable unparsable no_results bad_latitude bad_longitude no_routes : RoutingError
  bad_status : ℕ → RoutingError

pub data Fetched {ℓ} (A : Type ℓ) : Type ℓ where
  got : A → Fetched A
  failed : RoutingError → Fetched A
  crashed : Fetched A

infixl 5 ◌>>=◌
abbrev pub ◌>>=◌ {ℓ κ} : {A : Type ℓ} {B : Type κ} → Fetched A → (A → Fetched B) → Fetched B
got a >>= f = f a
failed e >>= f = failed e
crashed >>= f = crashed

-- A response: its status, and its body where that can be read.
pub record Response : Type 0 where
  pub status : ℕ
  pub body : Option Bytes

pub record Place : Type 0 where
  pub lat : Bytes
  pub lon : Bytes

pub record Step (F : Type 0) : Type 0 where
  pub coordinates : List (List F)
  pub distance : F
  pub duration : F
  pub maneuver_type : Bytes

-- Of the first `routes` there are only the legs, each a list of steps.
pub record OsrmResponse (F : Type 0) : Type 0 where
  pub code : Bytes
  pub routes : List (List (List (Step F)))

pub record RoutingService (F : Type 0) : Type 0 where
  pub nominatim_url : Bytes
  pub osrm_url : Bytes
  pub http_get : Bytes → Option Response
  pub parse_places : Bytes → Option (List Place)
  pub parse_routes : Bytes → Option (OsrmResponse F)

-- a digit of a percent escape
hex_digit : ℕ → ℕ
hex_digit n = if ltb n 10 then b'0' + n else n + 55

is_unreserved : ℕ → Bool
is_unreserved c =
    leb b'a' c && leb c b'z'
    || leb b'A' c && leb c b'Z'
    || leb b'0' c && leb c b'9'
    || c == b'-'
    || c == b'_'
    || c == b'.'
    || c == b'~'

-- `url.QueryEscape`
unfoldable pub query_escape : Bytes → Bytes
unfolding hex_digit is_unreserved
query_escape [] = []
query_escape (c ∷ s) =
    let rest = query_escape s in
    if is_unreserved c
    then c ∷ rest
    else if c == b' '
    then b'+' ∷ rest
    else b'%' ∷ hex_digit (c / 16) ∷ hex_digit (c % 16) ∷ rest

unfoldable pub or_fail : {A : Type 0} → RoutingError → Option A → Fetched A
or_fail e none = failed e
or_fail e (some a) = got a

module _ (R : Floats) (rs : RoutingService R.Float) where
  -- the first result of the search
  unfoldable pub place_of : List Place → Fetched (Coordinate R.Float)
  unfolding or_fail
  place_of [] = failed no_results
  place_of (p ∷ ps) = do
    lat ← or_fail bad_latitude (R.scan p.lat)
    lng ← or_fail bad_longitude (R.scan p.lon)
    got (record { lat = lat; lng = lng })

  unfoldable pub checked : Response → Fetched Response
  checked resp = if resp.status == 200 then got resp else failed (bad_status resp.status)

  unfoldable pub geocode : Bytes → Fetched (Coordinate R.Float)
  unfolding or_fail place_of checked query_escape
  geocode address = do
    resp ← or_fail unreachable (
        rs.http_get (
          rs.nominatim_url
          ++ (codes "/search?q=" ++ (query_escape address ++ codes "&format=json&limit=1"))))
    good ← checked resp
    body ← or_fail unreadable good.body
    places ← or_fail unparsable (rs.parse_places body)
    place_of places

  -- `c[1]` and `c[0]`, which panic on fewer numbers
  unfoldable pub coordinate_of : List R.Float → Fetched (Coordinate R.Float)
  coordinate_of (lng ∷ lat ∷ more) = got (record { lat = lat; lng = lng })
  coordinate_of _ = crashed

  unfoldable pub coordinates_of : List (List R.Float) → Fetched (List (Coordinate R.Float))
  unfolding coordinate_of
  coordinates_of [] = got []
  coordinates_of (c ∷ cs) = do x ← coordinate_of c; xs ← coordinates_of cs; got (x ∷ xs)

  unfoldable pub is_stop : Bytes → Bool
  unfolding bytes_eq
  is_stop t =
      bytes_eq t (codes "turn")
      || bytes_eq t (codes "roundabout")
      || bytes_eq t (codes "end_of_road")

  unfoldable pub speed_of : Step R.Float → R.Float
  speed_of step =
      if R.less (whole R 0) step.duration
      then R.mul (R.div step.distance step.duration) (R.decimal 36 10)
      else whole R 0

  unfoldable pub segments_of : List (Step R.Float) → Fetched (List (RouteSegment R.Float))
  unfolding coordinates_of is_stop speed_of
  segments_of [] = got []
  segments_of (step ∷ steps) = do
    coordinates ← coordinates_of step.coordinates
    rest ← segments_of steps
    got (
        record {
          coordinates = coordinates;
          speed_kmh = speed_of step;
          should_stop = is_stop step.maneuver_type;
        }
        ∷ rest)

  -- The legs of the first route, one after the other.
  unfoldable pub legs_of : List (List (Step R.Float)) → List (Step R.Float)
  legs_of [] = []
  legs_of (leg ∷ legs) = leg ++ legs_of legs

  unfoldable pub segments_of_response : OsrmResponse R.Float → Fetched (List (RouteSegment R.Float))
  unfolding segments_of legs_of bytes_eq
  segments_of_response resp = elim resp.routes [
    | [] ↦ failed no_routes
    | route ∷ more ↦
        if bytes_eq resp.code (codes "Ok") then segments_of (legs_of route) else failed no_routes
  ]

  -- The status of the response is not looked at.
  unfoldable pub get_route :
      Coordinate R.Float → Coordinate R.Float → Fetched (List (RouteSegment R.Float))
  unfolding or_fail segments_of_response
  get_route from to = do
    resp ← or_fail unreachable (
        rs.http_get (
          rs.osrm_url
          ++ (codes "/route/v1/driving/"
              ++ (R.print from.lng
                  ++ (codes ","
                      ++ (R.print from.lat
                          ++ (codes ";"
                              ++ (R.print to.lng
                                  ++ (codes ","
                                      ++ (R.print to.lat
                                          ++ codes
                                              "?geometries=geojson&overview=full&steps=true"))))))))))
    body ← or_fail unreadable resp.body
    parsed ← or_fail unparsable (rs.parse_routes body)
    segments_of_response parsed

  -- the route of `NewDrivingSimulator`, along the pairs of neighbouring waypoints
  unfoldable pub route_along : List Bytes → Fetched (List (RouteSegment R.Float))
  unfolding geocode get_route
  route_along [] = got []
  route_along (w ∷ []) = got []
  route_along (w ∷ v ∷ ws) = do
    start ← geocode w
    end ← geocode v
    r ← get_route start end
    rest ← route_along (v ∷ ws)
    got (r ++ rest)
