-- ===== src/Hercules/SkillDb.antt =====
-- internal/data/sources/hercules/skills.go: `LoadSkillDB` behind the reading of the file. A field
-- holds one value, or an object with a value for each level: `Lv1`, `Lv2` and on. A range over
-- an object goes through its fields in their order.
pub mod Levels
use ro_builder.Prelude.{
  ℕ, zero, suc, ◌+◌, ◌-◌, ◌*◌, ◌/◌, Bool, true, false, ◌||◌, ◌&&◌, List, [], ◌∷◌, Option, none,
  some, String, Result, ok, ◌>>=◌, if◌then◌else◌, ◌==◌, ltb,
}
use ro_builder.Prelude.Int.{ℤ, pos, int_lt, pos_part}
use ro_builder.GameData.{Skill}
use ro_builder.Hercules.Cursor.{Bytes}
use ro_builder.Hercules.Parser.{Value, Fields, number, text, boolean, object, end, field, get, atoi}
use ro_builder.Hercules.Rows.{RowError, LoadError, at_key, int_or, text_of, id_of, load_db}

-- The digits of `n` in front of `acc`; each round drops one, so that `n` rounds and one more do.
unfoldable pub decimal_from : ℕ → ℕ → Bytes → Bytes
decimal_from zero n acc = acc
decimal_from (suc rounds) n acc =
    let digit = b'0' + (n - n / 10 * 10) in
    let rest = decimal_from rounds (n / 10) (digit ∷ acc) in if ltb n 10 then digit ∷ acc else rest

-- `fmt.Sprintf("Lv%d", n)`
abbrev pub level_key : ℕ → Bytes
level_key n = b'L' ∷ b'v' ∷ decimal_from (suc n) n []

-- The level that a key names: `strings.HasPrefix(k, "Lv")`, and `strconv.Atoi(k[2:])`.
unfoldable pub key_level : Bytes → Option ℤ
unfolding atoi
key_level (l ∷ v ∷ digits) =
    let level = atoi digits in if l == b'L' && v == b'v' then level else none
key_level _ = none

-- `v.(int)`
unfoldable pub as_int : Value → Option ℤ
as_int (number n) = some n
as_int _ = none

module _ {A : Type 0} (reading : Value → Option A) where
  -- `t[fmt.Sprintf("Lv%d", maxLevel)]`, if it is of the type.
  unfoldable pub read_some : Option Value → Option A
  read_some none = none
  read_some (some v) = reading v

  unfoldable pub direct : Fields → ℤ → Option A
  unfolding read_some get decimal_from
  direct m max_level =
      let found = read_some (get (level_key (pos_part max_level)) m) in
      if int_lt (pos 0) max_level then found else none

  -- One round of the range: the best level so far with its value.
  unfoldable pub better : ℤ × A → Option ℤ → Option A → ℤ × A
  better best (some level) (some a) = if int_lt best.0 level then (level, a) else best
  better best _ _ = best

  unfoldable pub highest : ℤ × A → Fields → A
  unfolding better key_level
  highest best end = best.1
  highest best (field k v rest) = highest (better best (key_level k) (reading v)) rest

  abbrev pub or_else : A → Option A → A
  or_else a none = a
  or_else a (some b) = b

  -- `intAtMaxLevel` and `stringAtMaxLevel`, which differ in the type that they read.
  unfoldable pub at_max_level : A → Option Value → ℤ → A
  unfolding direct highest
  at_max_level nothing none max_level = nothing
  at_max_level nothing (some (object m)) max_level =
      or_else (highest (pos 0, nothing) m) (direct m max_level)
  at_max_level nothing (some v) max_level = or_else nothing (reading v)

-- The loop of `intSliceByLevel` that grows `n` to the highest level of a key.
unfoldable pub grown : ℤ → Option ℤ → ℤ
grown n none = n
grown n (some level) = if int_lt n level then level else n

unfoldable pub highest_level : ℤ → Fields → ℤ
unfolding grown key_level
highest_level n end = n
highest_level n (field k v rest) = highest_level (grown n (key_level k)) rest

-- The `count` levels behind level `i`, where a gap has the value before it.
unfoldable pub filled : Fields → ℕ → ℕ → ℤ → List ℤ
unfolding int_or get decimal_from
filled m zero i before = []
filled m (suc count) i before =
    let value = int_or before (get (level_key (suc i)) m) in value ∷ filled m count (suc i) value

abbrev pub is_int : Option Value → Bool
is_int (some (number n)) = true
is_int _ = false

-- `populated`
unfoldable pub is_populated : Fields → ℕ → ℕ → Bool
unfolding get decimal_from
is_populated m zero i = false
is_populated m (suc count) i = is_int (get (level_key (suc i)) m) || is_populated m count (suc i)

-- `intSliceByLevel`: an empty list is Go's nil.
unfoldable pub int_slice_by_level : Option Value → ℤ → List ℤ
unfolding highest_level filled is_populated
int_slice_by_level (some (object m)) max_level =
    let n = pos_part (highest_level max_level m) in
    if is_populated m n 0 then filled m n 0 (pos 0) else []
int_slice_by_level _ _ = []

-- `if v, ok := m["InterruptCast"].(bool); ok { s.Interruptible = v }`
unfoldable pub flag_of : Option Value → Bool
flag_of (some (boolean b)) = b
flag_of _ = false

module _ (decode : Bytes → String) where
  -- `v.(string)`
  unfoldable pub as_text : Value → Option String
  as_text (text b) = some (decode b)
  as_text _ = none

  -- The fields of a skill, once its id and its maximal level are read.
  abbrev pub skill_at : Fields → ℤ → ℤ → Skill
  skill_at m id max_level = record {
    id = id;
    aegis_name = text_of decode (at_key "Name" m);
    name = text_of decode (at_key "Description" m);
    max_level = max_level;
    attack_type = text_of decode (at_key "AttackType" m);
    element = at_max_level as_text "" (at_key "Element" m) max_level;
    cast_time_ms = at_max_level as_int (pos 0) (at_key "CastTime" m) max_level;
    fixed_cast_ms = at_max_level as_int (pos 0) (at_key "FixedCastTime" m) max_level;
    after_cast_ms = at_max_level as_int (pos 0) (at_key "AfterCastActDelay" m) max_level;
    cooldown_ms = at_max_level as_int (pos 0) (at_key "CoolDown" m) max_level;
    cast_time_by_level_ms = int_slice_by_level (at_key "CastTime" m) max_level;
    interruptible = flag_of (at_key "InterruptCast" m);
    status_change = text_of decode (at_key "StatusChange" m);
    self_buff = none;
    attack_skill = none;
  }

  -- `skillFromMap`
  unfoldable pub skill_from_map : Fields → Result RowError Skill
  unfolding get text_of int_or id_of as_int as_text at_max_level int_slice_by_level flag_of
  skill_from_map m = do
    id ← id_of (at_key "Id" m)
    ok (skill_at m id (int_or (pos 0) (at_key "MaxLevel" m)))

  -- `LoadSkillDB`
  unfoldable pub load_skill_db : Bytes → Result LoadError (List Skill)
  unfolding load_db skill_from_map
  load_skill_db src = load_db skill_from_map src
