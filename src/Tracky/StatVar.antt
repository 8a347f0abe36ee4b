-- ===== src/Tracky/StatVar.antt =====
-- tracky/src/trackeroo/utils.go: the statistics of a variable, at float64.
use trackeroo.Base.{ℕ, ◌+◌, ◌==◌, if◌then◌else◌}
use trackeroo.Tracky.Driving.{Floats, whole}

pub record StatVar (F : Type 0) : Type 0 where
  pub avg : F
  pub min : F
  pub max : F
  pub count : ℕ

module _ (R : Floats) where
  unfoldable pub new_stat_var : StatVar R.Float
  new_stat_var = record { avg = whole R 0; min = whole R 0; max = whole R 0; count = 0 }

  unfoldable pub add : R.Float → StatVar R.Float → StatVar R.Float
  add value sv =
      if sv.count == 0
      then record { avg = whole R 0; min = value; max = value; count = sv.count + 1 }
      else record {
        avg = R.add sv.avg (R.div (R.sub value sv.avg) (whole R (sv.count + 1)));
        min = if R.less value sv.min then value else sv.min;
        max = if R.less sv.max value then value else sv.max;
        count = sv.count + 1;
      }

  -- `Get` returns what was there and starts again.
  unfoldable pub get : StatVar R.Float → StatVar R.Float × StatVar R.Float
  unfolding new_stat_var
  get sv = (sv, new_stat_var)
