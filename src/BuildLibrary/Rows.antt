-- ===== src/BuildLibrary/Rows.antt =====
-- internal/buildlibrary/generations.go: one row of the table `generations`, with the columns of
-- migrations/, and SQL's UPDATE over the table. Times are ticks of the clock; NULL is `none`.
use ro_builder.Prelude.{
  ℕ, zero, suc, Bool, true, false, List, [], ◌∷◌, Option, none, some, String, str_eq, ltb,
  if◌then◌else◌, All, get_elem?, ◌≡◌, ◌≢◌, arith,
}

pub data GenStatus : Type 0 where
  queued running completed failed : GenStatus

pub record Row : Type 0 where
  pub id : String
  pub status : GenStatus
  pub created_at : ℕ
  pub started_at : Option ℕ
  pub completed_at : Option ℕ
  pub request_json : String
  pub attempts : ℕ
  pub failure_reason : Option String
  pub error_detail : Option String
  pub trace_json : Option String
  pub lease_expires_at : Option ℕ
  pub lease_owner : Option String

abbrev pub Rows : Type 0
Rows = List Row

abbrev pub is_queued : GenStatus → Bool
is_queued queued = true
is_queued _ = false

abbrev pub is_running : GenStatus → Bool
is_running running = true
is_running _ = false

-- `status IN ('queued','running')`
abbrev pub is_in_flight : GenStatus → Bool
is_in_flight queued = true
is_in_flight running = true
is_in_flight _ = false

-- `column = $n` on a text column, where NULL equals nothing.
abbrev pub column_eq : Option String → String → Bool
column_eq none value = false
column_eq (some stored) value = str_eq stored value

-- `column < $n` on a time column.
abbrev pub column_lt : Option ℕ → ℕ → Bool
column_lt none value = false
column_lt (some stored) value = ltb stored value

-- `UPDATE … SET … WHERE …`
unfoldable pub update_where : (Row → Bool) → (Row → Row) → Rows → Rows
update_where test change [] = []
update_where test change (r ∷ rest) =
    let others = update_where test change rest in if test r then change r ∷ others else r ∷ others

-- `SELECT count(*) … WHERE …`, and the rows that an UPDATE affects.
unfoldable pub count_where : (Row → Bool) → Rows → ℕ
count_where test [] = 0
count_where test (r ∷ rest) =
    let others = count_where test rest in if test r then suc others else others

-- The primary key.
unfoldable pub Distinct : Rows → Type 0
Distinct [] = Unit
Distinct (r ∷ rest) = All (λ s. s.id ≢ r.id) rest × Distinct rest

pub get_elem?-update_where :
    (test : Row → Bool) (change : Row → Row) (rows : Rows) (i : ℕ) {r : Row}
    → get_elem? rows i ≡ some r
    → get_elem? (update_where test change rows) i ≡ some (if test r then change r else r)
unfolding update_where
get_elem?-update_where test change [] i e = cc
get_elem?-update_where test change (x ∷ rest) zero e = ground arith
get_elem?-update_where test change (x ∷ rest) (suc i) e =
    ground (arith, get_elem?-update_where test change rest i e)
