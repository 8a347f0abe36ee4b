-- ===== src/Sqlite.antt =====
-- The SQLite table behind a durable queue, and the statements that the two files pq.go
-- (trackeroo-backend/src/internal/service, tracky/src/trackeroo) run on it.
-- A table is its rows and the largest id ever given out (AUTOINCREMENT).
use trackeroo.Base.{
  ℕ, ◌+◌, ◌-◌, ◌^◌, Bool, not, Option, none, some, List, [], ◌∷◌, ◌++◌, map, ltb, ◌==◌,
  if◌then◌else◌, length, keep, Bytes, ℤ, pos, negsuc,
}

-- The columns of `CREATE TABLE … (id, data, status)`.
pub record Row : Type 0 where
  pub id : ℕ
  pub blob : Bytes
  pub status : ℕ

pub record Table : Type 0 where
  pub rows : List Row
  pub seq : ℕ

-- status of a row that waits, that was handed out, and that was acknowledged
abbrev pub waiting : ℕ
waiting = 0

abbrev pub in_flight : ℕ
in_flight = 1

abbrev pub acked : ℕ
acked = 5

-- the largest rowid of SQLite
abbrev pub max_rowid : ℕ
max_rowid = 2 ^ 63 - 1

unfoldable pub create_table : Option Table → Table
create_table none = record { rows = []; seq = 0 }
create_table (some t) = t

-- INSERT INTO q(data, status) VALUES(?, 0)
unfoldable pub insert_row : Bytes → Table → Table
insert_row blob t = record {
  rows = t.rows ++ record { id = t.seq + 1; blob = blob; status = waiting } ∷ [];
  seq = t.seq + 1;
}

unfoldable pub earlier : Row → Option Row → Row
earlier r none = r
earlier r (some s) = if ltb s.id r.id then s else r

-- SELECT * FROM q WHERE status = 0 ORDER BY id, of which `QueryRow` reads the first row
unfoldable pub first_waiting : List Row → Option Row
unfolding earlier
first_waiting [] = none
first_waiting (r ∷ rs) =
    let rest = first_waiting rs in if r.status == waiting then some (earlier r rest) else rest

-- UPDATE q SET status = ? WHERE id = ?
unfoldable pub mark : ℕ → ℤ → Row → Row
mark status (negsuc _) r = r
mark status (pos id) r = if r.id == id then record r { status = status } else r

unfoldable pub set_row_status : ℕ → ℤ → Table → Table
unfolding mark
set_row_status status id t = record t { rows = map (mark status id) t.rows }

abbrev pub is_waiting : Row → Bool
is_waiting r = r.status == waiting

abbrev pub is_kept : Row → Bool
is_kept r = not (r.status == acked)

-- SELECT COUNT(*) FROM q WHERE status = 0
unfoldable pub count_waiting : Table → ℕ
unfolding keep
count_waiting t = length (keep is_waiting t.rows)

-- DELETE FROM q WHERE status = 5
unfoldable pub delete_acked : Table → Table
unfolding keep
delete_acked t = record t { rows = keep is_kept t.rows }
