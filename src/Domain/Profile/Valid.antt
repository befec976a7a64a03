-- ===== src/Domain/Profile/Valid.antt =====
-- What `ServerProfile.Validate` accepts, and the thresholds that `QualityGatesWarnings` names.
use ro_builder.Prelude.{
  ℕ, suc, Bool, not, ◌||◌, List, [], ◌∷◌, String, str_eq, eq_iff, All, Result, ok, ◌>>◌, reject_if,
  ◌≡◌, ◌≢◌, ◌⊎◌, ◌↔◌, arith,
}
use ro_builder.Prelude.Int.{pos, ◌≤ℤ◌, ◌<ℤ◌, int_lt}
use ro_builder.GameData.{Mob}
use ro_builder.Domain.Profile.{ClassChange, ServerProfile}

pub data ProfileError : Type 0 where
  empty_key : ProfileError
  unknown_mode : String → ProfileError
  negative_caps : ProfileError
  class_change_without_class : ℕ → ProfileError
  bad_custom_mob : ℕ → ProfileError

abbrev pub Check : Type 0
Check = Result ProfileError (Unit {0})

-- `case "", PreRenewal, Renewal`
abbrev pub is_known_mode : String → Bool
is_known_mode mode = str_eq mode "" || str_eq mode "pre-renewal" || str_eq mode "renewal"

unfoldable pub check_class_changes : ℕ → List ClassChange → Check
check_class_changes i [] = ok tt
check_class_changes i (change ∷ rest) = do
  reject_if (str_eq change.class "") (class_change_without_class i)
  check_class_changes (suc i) rest

unfoldable pub check_custom_mobs : ℕ → List Mob → Check
check_custom_mobs i [] = ok tt
check_custom_mobs i (m ∷ rest) = do
  reject_if (int_lt m.id (pos 1)) (bad_custom_mob i)
  check_custom_mobs (suc i) rest

-- `ServerProfile.Validate`
unfoldable pub validate : {R : Type 0} → ServerProfile R → Check
unfolding check_class_changes check_custom_mobs
validate p = do
  reject_if (str_eq p.key "") empty_key
  reject_if (not (is_known_mode p.mode)) (unknown_mode p.mode)
  reject_if
      (int_lt p.caps.max_base_level (pos 0)
        || int_lt p.caps.max_job_level (pos 0)
        || int_lt p.caps.max_stat (pos 0))
      negative_caps
  check_class_changes 0 p.class_changes
  check_custom_mobs 0 p.custom_mobs

pub record IsValid {R : Type 0} (p : ServerProfile R) : Type 0 where
  pub key_set : p.key ≢ ""
  pub known_mode : (p.mode ≡ "") ⊎ (p.mode ≡ "pre-renewal") ⊎ (p.mode ≡ "renewal")
  pub base_cap : pos 0 ≤ℤ p.caps.max_base_level
  pub job_cap : pos 0 ≤ℤ p.caps.max_job_level
  pub stat_cap : pos 0 ≤ℤ p.caps.max_stat
  pub named_classes : All (λ change. change.class ≢ "") p.class_changes
  pub mob_ids : All (λ m. pos 0 <ℤ m.id) p.custom_mobs

check_class_changes_iff :
    (i : ℕ) (l : List ClassChange)
    → (check_class_changes i l ≡ ok tt) ↔ All (λ change. change.class ≢ "") l
unfolding check_class_changes
check_class_changes_iff i [] = ground arith
check_class_changes_iff i (change ∷ rest) =
    ground (arith, check_class_changes_iff (suc i) rest, eq_iff change.class "")

check_custom_mobs_iff :
    (i : ℕ) (l : List Mob) → (check_custom_mobs i l ≡ ok tt) ↔ All (λ m. pos 0 <ℤ m.id) l
unfolding check_custom_mobs int_lt
check_custom_mobs_iff i [] = ground arith
check_custom_mobs_iff i (m ∷ rest) = ground (arith, check_custom_mobs_iff (suc i) rest)

-- `ServerProfile.Validate` returns nil exactly for a profile with a key, a mode that is empty or one
-- of the two known ones, caps that are not negative, a class in every class change, and a positive id
-- in every custom mob.
pub validate-IsValid : {R : Type 0} (p : ServerProfile R) → (validate p ≡ ok tt) ↔ IsValid p
unfolding validate int_lt
validate-IsValid p = ground (
  arith,
  eq_iff p.key "",
  eq_iff p.mode "",
  eq_iff p.mode "pre-renewal",
  eq_iff p.mode "renewal",
  check_class_changes_iff 0 p.class_changes,
  check_custom_mobs_iff 0 p.custom_mobs,
)
