-- ===== src/Tracky/Firmware/Reporting.antt =====
-- The loop of tracky/src/firmware.go reports the arrival of every drive.
use trackeroo.Base.{
  ◌≡◌, ◌≢◌, refl, ap, sym, ◌∙◌, ℕ, ◌≤◌, Bool, true, false, ◌||◌, Option, none, some, List, [], ◌∷◌,
  ◌++◌, length, All, Bool-cases, inl, inr, returned, arith, ◌-◌,
}
use trackeroo.Backend.Model.{Time}
use trackeroo.Tracky.Driving.{
  Floats, Coordinate, RouteSegment, Status, arrived, driving_on, stopped, slowing, accelerating,
  DrivePosition,
}
use trackeroo.Tracky.Driving.Simulation.{DrivingSimulator, simulate_drive}
use trackeroo.Tracky.Driving.Arrival.{
  OnTheWay, end_of, Drives, no_end, no_start, too_short, arrives, simulate_drive-Drives,
}
use trackeroo.Tracky.Sensors.{Payload, Surroundings, status_eq}
use trackeroo.Tracky.Firmware.{
  Loop, is_new_status, exceeds, accumulated, payload_of, reported, on_position, on_positions,
  choose_run, one_drive,
}

status_eq_sound : (s t : Status) → status_eq s t ≡ true → s ≡ t
unfolding status_eq
status_eq_sound arrived arrived e = refl
status_eq_sound arrived driving_on e = cc
status_eq_sound arrived stopped e = cc
status_eq_sound arrived slowing e = cc
status_eq_sound arrived accelerating e = cc
status_eq_sound driving_on arrived e = cc
status_eq_sound driving_on driving_on e = refl
status_eq_sound driving_on stopped e = cc
status_eq_sound driving_on slowing e = cc
status_eq_sound driving_on accelerating e = cc
status_eq_sound stopped arrived e = cc
status_eq_sound stopped driving_on e = cc
status_eq_sound stopped stopped e = refl
status_eq_sound stopped slowing e = cc
status_eq_sound stopped accelerating e = cc
status_eq_sound slowing arrived e = cc
status_eq_sound slowing driving_on e = cc
status_eq_sound slowing stopped e = cc
status_eq_sound slowing slowing e = refl
status_eq_sound slowing accelerating e = cc
status_eq_sound accelerating arrived e = cc
status_eq_sound accelerating driving_on e = cc
status_eq_sound accelerating stopped e = cc
status_eq_sound accelerating slowing e = cc
status_eq_sound accelerating accelerating e = refl

not_new : (o : Option Status) (s : Status) → is_new_status o s ≡ false → o ≡ some s
unfolding is_new_status
not_new none s e = cc
not_new (some t) s e = ap some (status_eq_sound t s (ground arith))

is_new : (o : Option Status) (s : Status) → o ≢ some s → is_new_status o s ≡ true
is_new o s n = elim (Bool-cases (is_new_status o s)) [
  | inl e ↦ e
  | inr e ↦ absurd (n (not_new o s e))
]

-- The last message is the arrival at this place.
pub record Reported {F : Type 0} (last : Coordinate F) (queued : List (Payload F)) : Type 0 where
  pub older : List (Payload F)
  pub message : Payload F
  pub is_last : queued ≡ older ++ message ∷ []
  pub has_arrived : message.status ≡ arrived
  pub at_last : message.position ≡ last

module _ (R : Floats) (x : Surroundings R) where
  abbrev late : DrivePosition R.Float → Loop R.Float → Bool
  late p l = exceeds (x.monotonic l.readings - l.last_publish) x.period

  on_position_reports :
      (p : DrivePosition R.Float) (l : Loop R.Float)
      → is_new_status l.last_status p.status ≡ true
      → on_position R x p l ≡ reported R x p (accumulated R x p l)
  unfolding on_position
  on_position_reports p l e = elim (Bool-cases (late p l)) [
    | inl f ↦ simp (f, e)
    | inr f ↦ simp (f, e)
  ]

  reported_status :
      (p : DrivePosition R.Float) (l : Loop R.Float)
      → (reported R x p l).last_status ≡ some p.status
  unfolding reported
  reported_status p l = elim (Bool-cases (x.marshals (payload_of R x p l))) [
    | inl e ↦ rw e refl
    | inr e ↦ rw e refl
  ]

  kept_status :
      (p : DrivePosition R.Float) (l : Loop R.Float)
      → (accumulated R x p l).last_status ≡ l.last_status
  unfolding accumulated
  kept_status p l = refl

  on_position_status :
      (p : DrivePosition R.Float) (l : Loop R.Float)
      → (on_position R x p l).last_status ≡ some p.status
  unfolding on_position
  on_position_status p l = elim (Bool-cases (late p l || is_new_status l.last_status p.status)) [
    | inl e ↦ simp e (reported_status p (accumulated R x p l))
    | inr e ↦ simp e (kept_status p l ∙ not_new l.last_status p.status (ground arith))
  ]

  -- a message that is encoded is queued last
  reported_last :
      (p : DrivePosition R.Float) (l : Loop R.Float) (last : Coordinate R.Float)
      → x.marshals (payload_of R x p l) ≡ true
      → p.status ≡ arrived
      → p.coordinate ≡ last
      → Reported last (reported R x p l).queued
  reported_last p l last m a c = rw (queued_as m) (record {
    older = l.queued;
    message = payload_of R x p l;
    is_last = refl;
    has_arrived = unfold payload_of in a;
    at_last = unfold payload_of in c;
  })
    where
      queued_as :
          x.marshals (payload_of R x p l) ≡ true
          → (reported R x p l).queued ≡ l.queued ++ payload_of R x p l ∷ []
      queued_as m = unfold reported in rw m refl

  on_positions-append :
      (ps : List (DrivePosition R.Float)) (p : DrivePosition R.Float) (l : Loop R.Float)
      → on_positions R x (ps ++ p ∷ []) l ≡ on_position R x p (on_positions R x ps l)
  unfolding on_positions
  on_positions-append [] p l = refl
  on_positions-append (q ∷ ps) p l = on_positions-append ps p (on_position R x q l)

  some-inj : {s t : Status} → some s ≡ some t → s ≡ t
  some-inj e = cc

  -- the status after positions on the way
  on_the_way :
      (first last : Coordinate R.Float) (p : DrivePosition R.Float)
      (ps : List (DrivePosition R.Float)) (l : Loop R.Float)
      → All (OnTheWay first last) (p ∷ ps)
      → (on_positions R x (p ∷ ps) l).last_status ≢ some arrived
  unfolding on_positions
  on_the_way first last p [] l h e = h.0.0 (some-inj (sym (on_position_status p l) ∙ e))
  on_the_way first last p (q ∷ ps) l h e = on_the_way first last q ps (on_position R x p l) h.1 e

  way-Reported :
      (first last : Coordinate R.Float) (way : List (DrivePosition R.Float))
      (final : DrivePosition R.Float) (l : Loop R.Float)
      → ((q : Payload R.Float) → x.marshals q ≡ true)
      → way ≢ []
      → All (OnTheWay first last) way
      → final.status ≡ arrived
      → final.coordinate ≡ last
      → Reported last (on_positions R x (way ++ final ∷ []) l).queued
  way-Reported first last [] final l m n h a c = absurd (n refl)
  way-Reported first last (p ∷ ps) final l m n h a c =
      let before = on_positions R x (p ∷ ps) l in
      let fresh =
        is_new before.last_status final.status
          (λ e. on_the_way first last p ps l h (e ∙ ap some a)) in
      rw (on_positions-append (p ∷ ps) final l ∙ on_position_reports final before fresh)
        (reported_last final (accumulated R x final before) last (m _) a c)

  -- the report of what a drive has sent
  drive-Reported :
      (route : List (RouteSegment R.Float)) (ps : List (DrivePosition R.Float))
      (last : Coordinate R.Float) (l : Loop R.Float)
      → ((q : Payload R.Float) → x.marshals q ≡ true)
      → 2 ≤ length ps
      → end_of route ≡ some last
      → Drives R route (returned ps)
      → Reported last (on_positions R x ps l).queued
  drive-Reported route ps last l m n e (no_end f g) = absurd (let h = g in cc)
  drive-Reported route ps last l m n e (no_start f g) = absurd (let h = g in cc)
  drive-Reported route ps last l m n e (too_short f g) = absurd (empty_short ps n (same g))
    where
      same : {a b : List (DrivePosition R.Float)} → returned a ≡ returned b → a ≡ b
      same q = cc

      empty_short : (qs : List (DrivePosition R.Float)) → 2 ≤ length qs → qs ≡ [] → ⊥
      empty_short [] k q = omega arith
      empty_short (p ∷ qs) k q = cc
  drive-Reported route ps last l m n e (arrives first last' way final s f h legs a c g) =
      let same_end : last' ≡ last = end_same (sym f ∙ e) in
      rw (same g) (
        way-Reported first last way final l m (enough way (rw (same g) at n)) (rw (sym same_end) h)
          a (c ∙ same_end))
    where
      same : {a b : List (DrivePosition R.Float)} → returned a ≡ returned b → a ≡ b
      same q = cc

      end_same : {a b : Coordinate R.Float} → some a ≡ some b → a ≡ b
      end_same q = cc

      enough : (way : List (DrivePosition R.Float)) → 2 ≤ length (way ++ final ∷ []) → way ≢ []
      enough [] k q = omega arith
      enough (p ∷ way) k q = cc

-- Whatever the firmware has reported before, the last message that it queues for a drive of at least
-- two positions is the arrival, at the last coordinate of the route: every payload is assumed to be
-- encodable.
pub one_drive-Reported :
    (R : Floats) (random : ℕ → R.Float) (clock : ℕ → Time) (ds : DrivingSimulator R.Float)
    (x : Surroundings R) (forced : Bool) (ps : List (DrivePosition R.Float))
    (last : Coordinate R.Float) (l : Loop R.Float)
    → simulate_drive R random clock ds ≡ returned ps
    → end_of ds.route ≡ some last
    → 2 ≤ length ps
    → ((q : Payload R.Float) → x.marshals q ≡ true)
    → Reported last (one_drive R x forced (some ps) l).queued
unfolding one_drive
one_drive-Reported R random clock ds x forced ps last l e f n m =
    drive-Reported R x ds.route ps last (choose_run R x forced l) m n f
      (rw (sym e) (simulate_drive-Drives R random clock ds))
