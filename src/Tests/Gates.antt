-- ===== src/Tests/Gates.antt =====
-- The gates on a knight that faces a freezing target. Floats are numbers here.
use ro_builder.Prelude.{
  ℕ, ◌*◌, ◌-◌, ◌/◌, true, false, not, ◌&&◌, [], ◌∷◌, none, some, any, ltb, leb, if◌then◌else◌, ◌≡◌,
  refl, arith,
}
use Prim.Native.Nat.{◌^◌}
use ro_builder.Prelude.Int.{pos, pos_part, int_lt, int_eq}
use ro_builder.Scoring.{ScoreResponse}
use ro_builder.Domain.Gate.{is_blocking}
use ro_builder.Gates.Inputs.{
  effective_stats, Inputs, Catalog, combat_of, is_mvp, derive_scenario_type,
}
use ro_builder.GameData.{Mob, Item}
use ro_builder.Scoring.{Floats}
use ro_builder.Gates.Cast.{Shortens, effective_cast_time_ms-Shortens}
use ro_builder.Gates.Status.Covers.{is_immune}
use ro_builder.Gates.Status.{
  has_fail, evaluate_status_immunity, resolve_status_priority, target_threats, applied, priority_of,
}
use ro_builder.Gates.Status.Fails.{in_force, evaluate_status_immunity-has_fail}
use ro_builder.Gates.Survival.{evaluate_ehp, dies, evaluate_ehp-has_fail}
use ro_builder.Gates.Offense.{
  evaluate_hit, below_floor, hit_of, is_hit_insensitive, evaluate_hit-has_fail,
}
use ro_builder.Gates.Evaluate.{canonical_quality_gates, resolve_quality_gates, evaluate}
use ro_builder.Gates.Evaluate.Blocks.{blocked, evaluate-has_fail}
use ro_builder.Tests.Domain.{knight}
use ro_builder.Tests.BuildLibrary.{response}

abbrev pub numbers : Floats ℕ
numbers = record {
  lt = ltb;
  le = leb;
  mul = λ a b. a * b;
  div = λ a b. a / b;
  sub = λ a b. a - b;
  of_int = pos_part;
  dec = λ n k. n / 10 ^ k;
}

abbrev pub ice : Mob
ice = record {
  id = pos 1252;
  sprite_name = "KTULLANUX";
  name = "Ktullanux";
  jname = "";
  lv = pos 98;
  hp = pos 4417000;
  atk_min = pos 1680;
  atk_max = pos 10360;
  def = pos 40;
  mdef = pos 42;
  race = "RC_Brute";
  element = "Ele_Water";
  element_lv = pos 4;
  size = "Size_Large";
  threats = some (record { applies_status = "frozen" ∷ "blind" ∷ []; casts_skills = [] });
}

abbrev pub sword : Item
sword = record {
  id = pos 1101;
  aegis_name = "Sword";
  name = "Sword";
  type = "IT_WEAPON";
  atk = pos 25;
  def = pos 0;
  slots = pos 3;
  weight = pos 500;
  range = pos 1;
  loc = "EQP_WEAPON";
  weapon_lv = pos 1;
  equip_lv = pos 2;
  subtype = "W_1HSWORD";
  grants_immunity = "stun" ∷ [];
  grants_uninterruptible_cast = false;
}

abbrev catalog : Catalog
catalog = record {
  skill = λ _. none;
  item = λ id. if int_eq id (pos 1101) then some sword else none;
  mob = λ id. if int_eq id (pos 1252) then some ice else none;
}

abbrev scored : ScoreResponse ℕ
scored = record response {
  combat = some (record {
    hit = some 70;
    dodge = some 10;
    battle_time_sec = some 20;
    incoming = record { min = some 1; ave = some 3; max = some 90; ave_with_dodge = some 3 };
    enemy_type = "MVP";
  });
}

abbrev input : Inputs ℕ
input = record {
  score = some scored;
  snapshot = some knight;
  catalog = some catalog;
  profile = none;
  scenario = some (record { target = pos 1252 });
  ignore_status = "stun" ∷ [];
  playstyle = "pvm";
}

frozen_fails : has_fail (evaluate_status_immunity (canonical_quality_gates numbers) input) ≡ true
unfolding has_fail evaluate_status_immunity int_lt int_eq resolve_status_priority
    derive_scenario_type effective_stats is_blocking
frozen_fails = refl

evaluate-has_fail_example :
    has_fail (evaluate numbers input)
    ≡ blocked numbers (resolve_quality_gates numbers input.profile) input
evaluate-has_fail_example = evaluate-has_fail numbers input

evaluate_status_immunity-has_fail_example :
    has_fail (evaluate_status_immunity (canonical_quality_gates numbers) input)
    ≡ any
        (λ s.
          in_force
            (priority_of
              (canonical_quality_gates numbers).status_priority
              (derive_scenario_type input))
            input.ignore_status
            s
          && not (is_immune input s))
        (applied (target_threats input))
evaluate_status_immunity-has_fail_example =
    evaluate_status_immunity-has_fail (canonical_quality_gates numbers) input

evaluate_hit-has_fail_example :
    has_fail (evaluate_hit numbers (canonical_quality_gates numbers) input) ≡ (
      below_floor numbers
        (is_mvp input)
        (canonical_quality_gates numbers).hit
        (hit_of numbers (combat_of input.score))
      && not (is_hit_insensitive input))
evaluate_hit-has_fail_example =
    evaluate_hit-has_fail numbers (canonical_quality_gates numbers) input

evaluate_ehp-has_fail_example :
    has_fail (evaluate_ehp numbers (canonical_quality_gates numbers) input)
    ≡ dies numbers (canonical_quality_gates numbers) input input.score (combat_of input.score)
evaluate_ehp-has_fail_example =
    evaluate_ehp-has_fail numbers (canonical_quality_gates numbers) input

effective_cast_time_ms-Shortens_example : Shortens 3000 500 (pos 40) (pos 120)
effective_cast_time_ms-Shortens_example =
    effective_cast_time_ms-Shortens 3000 500 (pos 40) (pos 120) (omega arith)
