-- ===== src/Hercules/SkillDb/Levels.antt =====
-- The table of the cast times by level.
use mathlib.Core.Path.{subst, ap}
use ro_builder.Prelude.{ℕ, zero, suc, ◌+◌, ◌<◌, some, get_elem?, length, ◌≡◌, refl, arith}
use ro_builder.Prelude.Int.{ℤ}
use ro_builder.Hercules.Parser.{Fields, number, get}
use ro_builder.Hercules.Rows.{int_or}
use ro_builder.Hercules.SkillDb.{level_key, filled}

-- The table has a value for each level.
pub length-filled :
    (m : Fields) (count i : ℕ) (before : ℤ) → length (filled m count i before) ≡ count
unfolding filled
length-filled m zero i before = refl
length-filled m (suc count) i before =
    omega (arith, length-filled m count (suc i) (int_or before (get (level_key (suc i)) m)))

-- A level that the object names has in the table the value that it has there.
pub filled-named :
    (m : Fields) (count i : ℕ) (before : ℤ) (j : ℕ) {n : ℤ}
    → j < count
    → get (level_key (suc (i + j))) m ≡ some (number n)
    → get_elem? (filled m count i before) j ≡ some n
unfolding filled int_or
filled-named m zero i before j h named = absurd (omega arith)
filled-named m (suc count) i before zero {n} h named =
    ap (λ v. some (int_or before v))
      (subst (λ l. get (level_key (suc l)) m ≡ some (number n)) {x = i + 0} {y = i} (omega arith)
        named)
filled-named m (suc count) i before (suc j) {n} h named =
    filled-named m count (suc i) (int_or before (get (level_key (suc i)) m)) j (omega arith) (
      subst (λ l. get (level_key (suc l)) m ≡ some (number n)) {x = i + suc j} {y = suc i + j}
        (omega arith) named)
