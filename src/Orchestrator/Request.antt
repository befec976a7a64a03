-- ===== src/Orchestrator/Request.antt =====
-- internal/orchestrator/orchestrator.go: the request of a generation, its validation, its profile, and
-- the level caps and skill points that its prompt states.
use Prim.Native.String.{[], ◌∷◌}
use ro_builder.Prelude.{
  ℕ, suc, Bool, true, not, ◌||◌, List, Option, none, some, String, str_eq, eq_iff, ltb, Result, ok,
  err, ◌>>◌, is_ok, reject_if, if◌then◌else◌, ◌≡◌, ◌↔◌, ◌⊎◌, ◌≤◌, arith,
}
use ro_builder.Prelude.Int.{ℤ, pos, int_lt}
use ro_builder.Domain.Profile.{ServerProfile, class_max_level_override}
use ro_builder.BuildLibrary.Saved.{is_empty}
use ro_builder.Catalog.Load.{Catalog, get}
use ro_builder.Catalog.Classes.{class_max_levels}
use ro_builder.Catalog.Progression.{class_skill_point_budget}

-- `GenerateRequest`, its gate overrides aside.
pub record GenerateRequest : Type 0 where
  pub class : String
  pub server : String
  pub playstyle : String
  pub mode : String
  pub description : String

pub data ValidationError : Type 0 where
  mode_unsupported : String → ValidationError
  mode_unknown : String → ValidationError
  playstyle_unknown : String → ValidationError
  description_too_long : ℕ → ValidationError
  server_unknown : String → ValidationError

-- `utf8.RuneCountInString`
unfoldable pub rune_count : String → ℕ
rune_count [] = 0
rune_count (c ∷ rest) = suc (rune_count rest)

-- `maxDescriptionLen`
abbrev pub max_description_len : ℕ
max_description_len = 2000

abbrev Check : Type 0
Check = Result ValidationError (Unit {0})

unfoldable pub check_mode : String → Check
check_mode mode =
    if str_eq mode "" || str_eq mode "pre-renewal"
    then ok tt
    else if str_eq mode "renewal"
    then err (mode_unsupported mode)
    else err (mode_unknown mode)

abbrev pub is_playstyle : String → Bool
is_playstyle p =
    str_eq p ""
    || str_eq p "pvm"
    || str_eq p "pvp"
    || str_eq p "balanced_dual"
    || str_eq p "balanced_generalist"

-- `validateRequest`
unfoldable pub validate_request : GenerateRequest → Check
unfolding check_mode rune_count
validate_request req = do
  check_mode req.mode
  reject_if (not (is_playstyle req.playstyle)) (playstyle_unknown req.playstyle)
  reject_if (ltb max_description_len (rune_count req.description))
      (description_too_long (rune_count req.description))

abbrev override_base : Option (ℤ × ℤ) → ℤ → ℤ
override_base none base = base
override_base (some o) base = if int_lt (pos 0) o.0 then o.0 else base

abbrev override_job : Option (ℤ × ℤ) → ℤ → ℤ
override_job none job = job
override_job (some o) job = if int_lt (pos 0) o.1 then o.1 else job

abbrev merged : Option (ℤ × ℤ) → Option (ℤ × ℤ) → Option (ℤ × ℤ)
merged none override = none
merged (some levels) override =
    some (override_base override levels.0, override_job override levels.1)

module _ {R : Type 0} where
  abbrev known_profile :
      Option (ServerProfile R) → String → Result ValidationError (Option (ServerProfile R))
  known_profile none server = err (server_unknown server)
  known_profile (some p) server = ok (some p)

  -- `resolveProfile`, on the map of the profiles
  unfoldable pub resolve_profile :
      List (String × ServerProfile R) → String → Result ValidationError (Option (ServerProfile R))
  unfolding get
  resolve_profile profiles server =
      if str_eq server "" || is_empty profiles
      then ok none
      else known_profile (get profiles server) server

  abbrev known_server : Option (ServerProfile R) → String → Check
  known_server none server = err (server_unknown server)
  known_server (some p) server = ok tt

  -- `ValidateRequestWithProfiles`
  unfoldable pub validate_request_with_profiles :
      GenerateRequest → List (String × ServerProfile R) → Check
  unfolding validate_request get
  validate_request_with_profiles req profiles =
      validate_request req
      >> (if str_eq req.server "" || is_empty profiles
          then ok tt
          else known_server (get profiles req.server) req.server)

  -- `fetchClassMaxLevelsForPrompt`
  unfoldable pub fetch_class_max_levels :
      Option Catalog → Option (ServerProfile R) → String → Option (ℤ × ℤ)
  unfolding class_max_levels class_max_level_override
  fetch_class_max_levels none profile class = none
  fetch_class_max_levels (some c) profile class =
      if str_eq class ""
      then none
      else merged (class_max_levels c class) (class_max_level_override profile class)

-- `fetchSkillPointBudget`
unfoldable pub fetch_skill_point_budget : Option Catalog → String → ℤ
unfolding class_skill_point_budget
fetch_skill_point_budget none class = pos 0
fetch_skill_point_budget (some c) class =
    if str_eq class ""
    then pos 0
    else elim (class_skill_point_budget c class) [ none ↦ pos 0 | some budget ↦ budget ]

-- What a request may be.
pub record IsValidRequest (req : GenerateRequest) : Type 0 where
  pub mode : (req.mode ≡ "") ⊎ (req.mode ≡ "pre-renewal")
  pub playstyle : is_playstyle req.playstyle ≡ true
  pub description : rune_count req.description ≤ 2000

check_mode_iff :
    (mode : String) → (check_mode mode ≡ ok tt) ↔ ((mode ≡ "") ⊎ (mode ≡ "pre-renewal"))
unfolding check_mode
check_mode_iff mode = ground (arith, eq_iff mode "", eq_iff mode "pre-renewal")

-- `validateRequest` returns nil exactly for a request with an empty or a pre-renewal mode, one of the known playstyles or none, and a
-- description of at most 2000 characters.
pub validate_request-IsValidRequest :
    (req : GenerateRequest) → (validate_request req ≡ ok tt) ↔ IsValidRequest req
unfolding validate_request
validate_request-IsValidRequest req = ground (arith, check_mode_iff req.mode)

module _ {R : Type 0} where
  known-agree :
      (found : Option (ServerProfile R)) (server : String)
      → (known_server found server ≡ ok tt) ↔ (is_ok (known_profile found server) ≡ true)
  known-agree none server = ground arith
  known-agree (some p) server = ground arith

  -- The check in front of the queue and the loop agree: `ValidateRequestWithProfiles` returns nil exactly when `validateRequest` does and
  -- `resolveProfile` finds the server of the request, so that a queued request is not refused later for either.
  pub validate_request_with_profiles_iff :
      (req : GenerateRequest) (profiles : List (String × ServerProfile R))
      → (validate_request_with_profiles req profiles ≡ ok tt)
        ↔ ((validate_request req ≡ ok tt) × (is_ok (resolve_profile profiles req.server) ≡ true))
  unfolding validate_request_with_profiles resolve_profile
  validate_request_with_profiles_iff req profiles =
      ground (arith, known-agree (get profiles req.server) req.server)
