-- ===== src/Domain/Profile/Target.antt =====
-- internal/domain/server.go: what a target resolves to under a profile, and `QualityGatesWarnings`.
use ro_builder.Prelude.{
  Bool, true, false, not, ◌&&◌, List, [], ◌∷◌, ◌++◌, Option, none, some, String, str_eq, any,
  if_cases, ◌≡◌, refl, arith,
}
use ro_builder.Prelude.Int.{ℤ, pos, int_eq, int_eq_iff}
use ro_builder.Scoring.{Floats, EnemyStats}
use ro_builder.GameData.{Mob}
use ro_builder.Domain.Profile.{
  QualityGates, StatusPriority, ServerProfile, custom_mob, overlay_mob, resolve_enemy, enemy_of,
  mob_to_enemy_stats,
}

-- No target, the stats of an overlay mob of that id, or the bare id of a mob the overlay lacks.
pub data Resolves {R : Type 0} (profile : Option (ServerProfile R)) (id : ℤ)
    : Option ℤ × Option EnemyStats → Type 0 where
  no_target : id ≡ pos 0 → Resolves profile id (none, none)
  overlaid :
      (m : Mob)
      → m.id ≡ id
      → overlay_mob profile id ≡ some m
      → Resolves profile id (none, some (mob_to_enemy_stats m))
  stock : overlay_mob profile id ≡ none → Resolves profile id (some id, none)

custom_mob-id : (l : List Mob) (id : ℤ) (m : Mob) → custom_mob l id ≡ some m → m.id ≡ id
unfolding custom_mob
custom_mob-id [] id m h = cc
custom_mob-id (first ∷ rest) id m h =
    ground (arith, custom_mob-id rest id m, int_eq_iff first.id id)

module _ {R : Type 0} where
  overlay_mob-id :
      (profile : Option (ServerProfile R)) (id : ℤ) (m : Mob)
      → overlay_mob profile id ≡ some m
      → m.id ≡ id
  overlay_mob-id none id m h = cc
  overlay_mob-id (some p) id m h = custom_mob-id p.custom_mobs id m h

  found-Resolves :
      (profile : Option (ServerProfile R)) (id : ℤ) (found : Option Mob)
      → overlay_mob profile id ≡ found
      → Resolves profile id (enemy_of found id)
  found-Resolves profile id none e = stock e
  found-Resolves profile id (some m) e = overlaid m (overlay_mob-id profile id m e) e

  -- `ResolveEnemy` gives nothing for the id 0, the stats of the overlay mob of that id where the
  -- profile has one, and the bare id otherwise: never both an id and inline stats.
  pub resolve_enemy-Resolves :
      (profile : Option (ServerProfile R)) (id : ℤ) → Resolves profile id (resolve_enemy profile id)
  unfolding resolve_enemy
  resolve_enemy-Resolves profile id =
      if_cases (Resolves profile id) (int_eq id (pos 0))
        (λ e. no_target ((int_eq_iff id (pos 0)).0 e))
        (λ _. found-Resolves profile id (overlay_mob profile id) refl)

module _ {R : Type 0} (F : Floats R) where
  -- Go's `x == 0` on `float64`.
  abbrev pub is_zero : R → Bool
  is_zero x = F.le x (F.dec 0 0) && F.le (F.dec 0 0) x

  abbrev has_key : List (String × StatusPriority) → String → Bool
  has_key entries key = any (λ e. str_eq e.0 key) entries

  abbrev warn_if : Bool → String → List String
  warn_if true name = name ∷ []
  warn_if false name = []

  unfoldable pub threshold_warnings : QualityGates R → List String
  threshold_warnings qg =
      warn_if (is_zero qg.hit.normal_fail_hard) "hit.normal_fail_hard"
      ++ (warn_if (is_zero qg.hit.normal_fail) "hit.normal_fail"
          ++ (warn_if (is_zero qg.hit.normal_warn) "hit.normal_warn"
              ++ (warn_if (is_zero qg.hit.mvp_fail_hard) "hit.mvp_fail_hard"
                  ++ (warn_if (is_zero qg.hit.mvp_fail) "hit.mvp_fail"
                      ++ (warn_if (is_zero qg.flee.fail) "flee.fail"
                          ++ (warn_if (is_zero qg.flee.warn) "flee.warn"
                              ++ warn_if (is_zero qg.flee.woe_penalty) "flee.woe_penalty"))))))

  unfoldable pub other_warnings : QualityGates R → List String
  other_warnings qg =
      warn_if (is_zero qg.ehp_multiplier.normal) "ehp_multiplier.normal"
      ++ (warn_if (is_zero qg.ehp_multiplier.mvp_melee) "ehp_multiplier.mvp_melee"
          ++ (warn_if (is_zero qg.ehp_multiplier.mvp_magic_burst) "ehp_multiplier.mvp_magic_burst"
              ++ (warn_if (int_eq qg.ttk_mvp_max_sec (pos 0)) "ttk_mvp_max_sec"
                  ++ (warn_if (int_eq qg.cast_time_warn_ms (pos 0)) "cast_time_warn_ms"
                      ++ (warn_if (int_eq qg.cast_interrupt_ms (pos 0)) "cast_interrupt_ms"
                          ++ (warn_if (not (has_key qg.status_priority "pvm")) "status_priority.pvm"
                              ++ warn_if (not (has_key qg.status_priority "pvp"))
                                  "status_priority.pvp"))))))

  -- `QualityGatesWarnings`
  unfoldable pub quality_gates_warnings : Option (ServerProfile R) → List String
  unfolding threshold_warnings other_warnings
  quality_gates_warnings none = []
  quality_gates_warnings (some p) = elim p.quality_gates [
    | none ↦ []
    | some qg ↦ threshold_warnings qg ++ other_warnings qg
  ]
