-- ===== src/Domain/Build.antt =====
-- internal/domain/build.go: `Build`, `Build.Validate` and the two `ToScoreRequest`, of a build and
-- (internal/domain/trajectory.go) of a snapshot.
use ro_builder.Prelude.{
  Bool, true, false, ◌&&◌, ◌||◌, [], ◌∷◌, Option, none, some, String, str_eq, eq_iff, All, Result,
  ok, err, ◌>>◌, reject_if, if◌then◌else◌, if_cases, some_inj, ◌≡◌, refl, ◌⊎◌, ◌↔◌, arith,
}
use ro_builder.Prelude.Int.{ℤ, pos, ◌≤ℤ◌, int_lt, int_eq, int_eq_iff}
use ro_builder.Scoring.{Stats, Level, Equipment, EnemyStats, ScoreRequest}
use ro_builder.Domain.Profile.{ServerProfile, resolve_enemy}
use ro_builder.Domain.Profile.Target.{Resolves, resolve_enemy-Resolves}
use ro_builder.Domain.Snapshot.{Scenario, Snapshot}
use ro_builder.Domain.Snapshot
use ro_builder.Domain.Snapshot.Valid.{IsRefine, validate-IsValid}

pub record Build : Type 0 where
  pub mode : String
  pub server : String
  pub tier : String
  pub class : String
  pub level : Level
  pub stats : Stats
  pub equipment : Equipment

pub data BuildError : Type 0 where
  unsupported_mode : String → BuildError
  unknown_build_mode : String → BuildError
  negative_level : ℤ → ℤ → BuildError
  build_refine : String → ℤ → BuildError

abbrev BuildCheck : Type 0
BuildCheck = Result BuildError (Unit {0})

unfoldable pub check_mode : String → BuildCheck
check_mode mode =
    if str_eq mode "" || str_eq mode "pre-renewal"
    then ok tt
    else if str_eq mode "renewal"
    then err (unsupported_mode mode)
    else err (unknown_build_mode mode)

unfoldable pub check_build_refines : Equipment → BuildCheck
check_build_refines [] = ok tt
check_build_refines ((slot, spec) ∷ rest) = do
  reject_if (int_lt spec.refine (pos 0) || int_lt (pos 10) spec.refine)
      (build_refine slot spec.refine)
  check_build_refines rest

-- `Build.Validate`
unfoldable pub validate_build : Build → BuildCheck
unfolding check_mode check_build_refines
validate_build b = do
  check_mode b.mode
  reject_if (int_lt b.level.base (pos 0) || int_lt b.level.job (pos 0))
      (negative_level b.level.base b.level.job)
  check_build_refines b.equipment

-- `l != (Level{})`, and the same for the stats.
abbrev is_zero_level : Level → Bool
is_zero_level l = int_eq l.base (pos 0) && int_eq l.job (pos 0)

abbrev is_zero_stats : Stats → Bool
is_zero_stats s =
    int_eq s.str (pos 0)
    && int_eq s.agi (pos 0)
    && int_eq s.vit (pos 0)
    && int_eq s.int (pos 0)
    && int_eq s.dex (pos 0)
    && int_eq s.luk (pos 0)

abbrev set_unless {ℓ} : {A : Type ℓ} → Bool → A → Option A
set_unless true x = none
set_unless false x = some x

module _ {R : Type 0} where
  abbrev enemy_fields : Option (ServerProfile R) → Option Scenario → Option ℤ × Option EnemyStats
  enemy_fields profile none = (none, none)
  enemy_fields profile (some s) =
      if int_eq s.target (pos 0) then (none, none) else resolve_enemy profile s.target

  -- `Build.ToScoreRequest`
  unfoldable pub build_request : Build → Option Scenario → Option (ServerProfile R) → ScoreRequest
  build_request b scenario profile = record {
    class = set_unless (str_eq b.class "") b.class;
    level = set_unless (is_zero_level b.level) b.level;
    stats = set_unless (is_zero_stats b.stats) b.stats;
    skills = [];
    buffs = [];
    attack_skills = [];
    equipment = b.equipment;
    enemy = (enemy_fields profile scenario).0;
    enemy_inline = (enemy_fields profile scenario).1;
  }

  -- `Snapshot.ToScoreRequest`
  unfoldable pub snapshot_request : Snapshot R → Option (ServerProfile R) → ScoreRequest
  snapshot_request s profile = record {
    class = set_unless (str_eq s.class "") s.class;
    level = set_unless (is_zero_level s.level) s.level;
    stats = set_unless (is_zero_stats s.stats) s.stats;
    skills = s.skills;
    buffs = [];
    attack_skills = [];
    equipment = s.equipment;
    enemy = (enemy_fields profile s.leveling_target).0;
    enemy_inline = (enemy_fields profile s.leveling_target).1;
  }

pub record BuildOk (b : Build) : Type 0 where
  pub known_mode : (b.mode ≡ "") ⊎ (b.mode ≡ "pre-renewal")
  pub base_level : pos 0 ≤ℤ b.level.base
  pub job_level : pos 0 ≤ℤ b.level.job
  pub refines : All IsRefine b.equipment

check_mode_iff :
    (mode : String) → (check_mode mode ≡ ok tt) ↔ ((mode ≡ "") ⊎ (mode ≡ "pre-renewal"))
unfolding check_mode
check_mode_iff mode = ground (arith, eq_iff mode "", eq_iff mode "pre-renewal")

check_build_refines_iff : (e : Equipment) → (check_build_refines e ≡ ok tt) ↔ All IsRefine e
unfolding check_build_refines int_lt
check_build_refines_iff [] = ground arith
check_build_refines_iff ((slot, spec) ∷ rest) = ground (arith, check_build_refines_iff rest)

-- `Build.Validate` returns nil exactly for a build with an empty or a pre-renewal mode, levels that are
-- not negative, and refines from 0 to 10.
pub validate_build-BuildOk : (b : Build) → (validate_build b ≡ ok tt) ↔ BuildOk b
validate_build-BuildOk b =
    unfold validate_build int_lt in
    ground (arith, check_mode_iff b.mode, check_build_refines_iff b.equipment)

-- What the calculator is asked about a snapshot, its buffs and attack skills aside.
pub record Asks {R : Type 0} (s : Snapshot R) (profile : Option (ServerProfile R))
    (req : ScoreRequest) : Type 0 where
  pub class : req.class ≡ some s.class
  pub level : req.level ≡ some s.level
  pub skills : req.skills ≡ s.skills
  pub equipment : req.equipment ≡ s.equipment
  pub target :
      (scenario : Scenario)
      → s.leveling_target ≡ some scenario
      → Resolves profile scenario.target (req.enemy, req.enemy_inline)

module _ {R : Type 0} where
  enemy_fields-some :
      (profile : Option (ServerProfile R)) (t : Scenario)
      → Resolves profile t.target (enemy_fields profile (some t))
  enemy_fields-some profile t =
      if_cases (Resolves profile t.target) (int_eq t.target (pos 0))
        (λ e. Resolves.no_target ((int_eq_iff t.target (pos 0)).0 e))
        (λ _. resolve_enemy-Resolves profile t.target)

  enemy_fields-Resolves :
      (profile : Option (ServerProfile R)) (target : Option Scenario) (scenario : Scenario)
      → target ≡ some scenario
      → Resolves profile scenario.target (enemy_fields profile target)
  enemy_fields-Resolves profile none scenario e = cc
  enemy_fields-Resolves profile (some t) scenario e =
      rw (← some_inj e) (enemy_fields-some profile t)

  -- The request of a snapshot that `Snapshot.Validate` accepts carries its class, its level, its
  -- skills and its equipment, and its target as `ResolveEnemy` resolves it.
  pub snapshot_request-Asks :
      (s : Snapshot R) (profile : Option (ServerProfile R))
      → Snapshot.validate s ≡ ok tt
      → Asks s profile (snapshot_request s profile)
  snapshot_request-Asks s profile h =
      let valid = (validate-IsValid s).0 h in
      unfold snapshot_request in
      record {
        class = ground (arith, valid.class_set, eq_iff s.class "");
        level = ground (arith, valid.base_level, int_eq_iff s.level.base (pos 0));
        skills = refl;
        equipment = refl;
        target = λ scenario e. enemy_fields-Resolves profile s.leveling_target scenario e;
      }
