-- ===== src/Domain/Gate.antt =====
-- internal/domain/server.go: the result of one quality gate and its severities.
use ro_builder.Prelude.{
  Bool, true, false, not, ◌&&◌, ◌||◌, if◌then◌else◌, List, String, str_eq, eq_iff, ◌≡◌, ◌⊎◌, arith,
}
use ro_builder.Prelude.Int.{ℤ}

-- Go's `any` as the gates fill it.
pub data GateValue (R : Type 0) : Type 0 where
  absent : GateValue R
  int : ℤ → GateValue R
  float : R → GateValue R
  text : String → GateValue R

-- `fmt.Sprintf` is not run: a reason is its format and the arguments.
pub record Reason (R : Type 0) : Type 0 where
  pub format : String
  pub args : List (GateValue R)

pub record GateResult (R : Type 0) : Type 0 where
  pub name : String
  pub threshold : GateValue R
  pub actual : GateValue R
  pub severity : String
  pub reason : Reason R

abbrev pub severity_pass : String
severity_pass = "pass"

abbrev pub severity_warn : String
severity_warn = "warn"

abbrev pub severity_fail : String
severity_fail = "fail"

abbrev pub severity_fail_hard : String
severity_fail_hard = "fail_hard"

module _ {R : Type 0} where
  -- `GateResult.IsPass`
  unfoldable pub is_pass : GateResult R → Bool
  is_pass g = str_eq g.severity severity_pass

  -- `GateResult.IsBlocking`
  unfoldable pub is_blocking : GateResult R → Bool
  is_blocking g = str_eq g.severity severity_fail || str_eq g.severity severity_fail_hard

  pub is_blocking_cases :
      (g : GateResult R)
      → is_blocking g ≡ true
      → (g.severity ≡ severity_fail) ⊎ (g.severity ≡ severity_fail_hard)
  unfolding is_blocking
  is_blocking_cases g h =
      ground (arith, eq_iff g.severity severity_fail, eq_iff g.severity severity_fail_hard)

  -- A passing gate does not block.
  pub is_pass-not_blocking : (g : GateResult R) → is_pass g ≡ true → is_blocking g ≡ false
  unfolding is_pass is_blocking
  is_pass-not_blocking g h = rw ((eq_iff g.severity severity_pass).0 h)

  -- A warning does not block.
  pub is_warn-not_blocking :
      (g : GateResult R) → str_eq g.severity severity_warn ≡ true → is_blocking g ≡ false
  unfolding is_blocking
  is_warn-not_blocking g h = rw ((eq_iff g.severity severity_warn).0 h)

  -- Two failing tiers in front of one that does not fail, and a tier that is demoted.
  pub two_tiers-is_blocking :
      (a b : Bool) (x y z : GateResult R)
      → is_blocking x ≡ true
      → is_blocking y ≡ true
      → is_blocking z ≡ false
      → is_blocking (if a then x else if b then y else z) ≡ (a || b)
  two_tiers-is_blocking true b x y z hx hy hz = hx
  two_tiers-is_blocking false true x y z hx hy hz = hy
  two_tiers-is_blocking false false x y z hx hy hz = hz

  pub demoted-is_blocking :
      (b i : Bool) (r w : GateResult R)
      → is_blocking r ≡ b
      → is_blocking w ≡ false
      → is_blocking (if b && i then w else r) ≡ (b && not i)
  demoted-is_blocking true true r w h k = k
  demoted-is_blocking true false r w h k = h
  demoted-is_blocking false i r w h k = h

  pub open_tiers-is_blocking :
      (c : Bool) (x y : GateResult R)
      → is_blocking x ≡ false
      → is_blocking y ≡ false
      → is_blocking (if c then x else y) ≡ false
  open_tiers-is_blocking true x y hx hy = hx
  open_tiers-is_blocking false x y hx hy = hy
