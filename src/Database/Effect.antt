-- ===== src/Database/Effect.antt =====
-- What a statement that returns a row, or raises, leaves.
use weatherflow.Prelude.{String, Option, some, ◌==◌, if◌then◌else◌}
use weatherflow.Outcome.{Result, ok, err}
use weatherflow.Database.{Db}

-- The row of the key `j`, after a statement that writes the row of the key `k`.
abbrev pub row_after : {A : Type 0} → Result A → String → String → Option A → Option A
row_after (ok v) k j before = if k == j then some v else before
row_after (err e) k j before = before

-- An error leaves the database as it was.
abbrev pub left_by : {A : Type 0} → Result A → Db → Db → Db
left_by (ok v) before after = after
left_by (err e) before after = before
