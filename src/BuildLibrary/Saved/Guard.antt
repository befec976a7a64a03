-- ===== src/BuildLibrary/Saved/Guard.antt =====
-- internal/buildlibrary/save.go: what `summarizeAndGuard` lets through.
use ro_builder.Prelude.{
  reject_if-ok_inv, is_ok, is_ok-bind, is_ok-reject, ℕ, suc, ◌+◌, ◌<◌, true, false, ◌&&◌, List, [],
  ◌∷◌, eq_iff, Result, ok, err, ◌>>=◌, ◌>>◌, >>=-ok_inv, reject_if, All, if◌then◌else◌, ◌==◌, ◌≡◌,
  ◌↔◌, refl, arith,
}
use ro_builder.Domain.Gate.{
  GateResult, is_blocking, is_pass, is_pass-not_blocking, is_warn-not_blocking, severity_pass,
  severity_warn, severity_fail, severity_fail_hard,
}
use ro_builder.Domain.Snapshot.{Snapshot}
use ro_builder.Domain.Trajectory.{Trajectory}
use ro_builder.BuildLibrary.Saved.{
  GateSummary, SaveError, no_gates, no_scored_snapshots, tally_gates, is_scored, is_empty,
  guard_primary, tally_snapshots, tally_alternatives, summarize_and_guard,
}

module _ {R : Type 0} where
  abbrev pub Unblocked : Snapshot R → Type 0
  Unblocked s = All (λ g. is_blocking g ≡ false) s.gates

  -- A scored snapshot has gate results.
  abbrev pub Judged : Snapshot R → Type 0
  Judged s = (is_scored s && is_empty s.gates) ≡ false

  tally_gates-is_ok :
      (sum : GateSummary) (gs : List (GateResult R))
      → (is_ok (tally_gates sum gs) ≡ true) ↔ All (λ g. is_blocking g ≡ false) gs
  unfolding tally_gates is_blocking is_pass
  tally_gates-is_ok sum [] = (λ _. tt, λ _. refl)
  tally_gates-is_ok sum (g ∷ rest) = ground (
    arith,
    eq_iff g.severity severity_pass,
    is_pass-not_blocking g,
    is_warn-not_blocking g,
    eq_iff g.severity severity_warn,
    eq_iff g.severity severity_fail,
    eq_iff g.severity severity_fail_hard,
    tally_gates-is_ok (record sum { pass = suc sum.pass }) rest,
    tally_gates-is_ok (record sum { warn = suc sum.warn }) rest,
    tally_gates-is_ok sum rest,
  )

  tally_snapshots-is_ok :
      (sum : GateSummary) (ss : List (Snapshot R))
      → (is_ok (tally_snapshots sum ss) ≡ true) ↔ All Unblocked ss
  unfolding tally_snapshots
  tally_snapshots-is_ok sum [] = (λ _. tt, λ _. refl)
  tally_snapshots-is_ok sum (s ∷ rest) =
      is_ok-bind (tally_gates sum s.gates) _ _ _ (tally_gates-is_ok sum s.gates)
        (λ t. tally_snapshots-is_ok t rest)

  tally_alternatives-is_ok :
      (sum : GateSummary) (alts : List (Trajectory R))
      → (is_ok (tally_alternatives sum alts) ≡ true) ↔ All (λ t. All Unblocked t.snapshots) alts
  unfolding tally_alternatives
  tally_alternatives-is_ok sum [] = (λ _. tt, λ _. refl)
  tally_alternatives-is_ok sum (t ∷ rest) =
      is_ok-bind (tally_snapshots sum t.snapshots) _ _ _ (tally_snapshots-is_ok sum t.snapshots)
        (λ tallied. tally_alternatives-is_ok tallied rest)

  guard_primary-is_ok :
      (scored : ℕ) (sum : GateSummary) (ss : List (Snapshot R))
      → (is_ok (guard_primary scored sum ss) ≡ true) ↔ All (λ s. Judged s × Unblocked s) ss
  unfolding guard_primary
  guard_primary-is_ok scored sum [] = (λ _. tt, λ _. refl)
  guard_primary-is_ok scored sum (s ∷ rest) = ground (
    arith,
    is_ok-reject (is_scored s && is_empty s.gates) SaveError.gates_not_evaluated
        (tally_gates sum s.gates >>= λ t.
          guard_primary (if is_scored s then suc scored else scored) t rest)
        _
        (is_ok-bind (tally_gates sum s.gates) _ _ _ (tally_gates-is_ok sum s.gates)
          (λ t. guard_primary-is_ok (if is_scored s then suc scored else scored) t rest)),
  )

  -- How many snapshots carry a score.
  abbrev pub scored_count : List (Snapshot R) → ℕ
  scored_count [] = 0
  scored_count (s ∷ rest) = if is_scored s then suc (scored_count rest) else scored_count rest

  guard_primary-count :
      (scored : ℕ) (sum : GateSummary) (ss : List (Snapshot R)) {out : ℕ × GateSummary}
      → guard_primary scored sum ss ≡ ok out
      → out.0 ≡ scored + scored_count ss
  unfolding guard_primary
  guard_primary-count scored sum [] e = ground arith
  guard_primary-count scored sum (s ∷ rest) e =
      let inner =
        >>=-ok_inv (tally_gates sum s.gates) _
          (reject_if-ok_inv (is_scored s && is_empty s.gates) _ _ e).1 in
      ground (
        arith,
        guard_primary-count (if is_scored s then suc scored else scored) inner.0 rest inner.2,
      )

  -- What `summarizeAndGuard` asks of a submission.
  pub record Publishable (primary : Trajectory R) (alts : List (Trajectory R)) : Type 0 where
    pub judged : All Judged primary.snapshots
    pub unblocked : All Unblocked primary.snapshots
    pub scored : 0 < scored_count primary.snapshots
    pub alternatives : All (λ t. All Unblocked t.snapshots) alts

  All-both {κ μ} :
      (P : Snapshot R → Type κ) (Q : Snapshot R → Type μ) (ss : List (Snapshot R))
      → All (λ s. P s × Q s) ss ↔ (All P ss × All Q ss)
  All-both P Q [] = (λ _. (tt, tt), λ _. tt)
  All-both P Q (s ∷ rest) =
      let more = All-both P Q rest in
      (
        λ h. ((h.0.0, (more.0 h.1).0), (h.0.1, (more.0 h.1).1)),
        λ h. ((h.0.0, h.1.0), more.1 (h.0.1, h.1.1)),
      )

  finish_guard :
      (primary : Trajectory R) (alts : List (Trajectory R))
      (counted : Result SaveError (ℕ × GateSummary))
      → ((is_ok counted ≡ true) ↔ All (λ s. Judged s × Unblocked s) primary.snapshots)
      → ((out : ℕ × GateSummary) → counted ≡ ok out → out.0 ≡ scored_count primary.snapshots)
      → (is_ok (
            counted >>= λ c.
            reject_if (c.0 == 0) no_scored_snapshots >> tally_alternatives c.1 alts)
          ≡ true)
        ↔ Publishable primary alts
  finish_guard primary alts (err e) h k = (
    λ bad. cc,
    λ p. cc (h.1 ((All-both Judged Unblocked primary.snapshots).1 (p.judged, p.unblocked))),
  )
  finish_guard primary alts (ok c) h k =
      let both = All-both Judged Unblocked primary.snapshots in
      let end =
        is_ok-reject (c.0 == 0) no_scored_snapshots (tally_alternatives c.1 alts) _
          (tally_alternatives-is_ok c.1 alts) in
      (
        λ e. record {
          judged = (both.0 (h.0 refl)).0;
          unblocked = (both.0 (h.0 refl)).1;
          scored = ground (arith, k c refl, end.0 e);
          alternatives = (end.0 e).1;
        },
        λ p. end.1 (ground (arith, k c refl, p.scored), p.alternatives),
      )

  -- `summarizeAndGuard` accepts a submission exactly when the primary has a scored snapshot, each scored one of
  -- its snapshots has gate results, and no snapshot of the primary or of an alternative has a failing gate.
  pub summarize_and_guard-Publishable :
      (primary : Trajectory R) (alts : List (Trajectory R))
      → (is_ok (summarize_and_guard primary alts) ≡ true) ↔ Publishable primary alts
  unfolding summarize_and_guard
  summarize_and_guard-Publishable primary alts =
      finish_guard primary alts (guard_primary 0 no_gates primary.snapshots)
        (guard_primary-is_ok 0 no_gates primary.snapshots)
        (λ out e. omega (arith, guard_primary-count 0 no_gates primary.snapshots e))
