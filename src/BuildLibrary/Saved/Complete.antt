-- ===== src/BuildLibrary/Saved/Complete.antt =====
-- internal/buildlibrary/save.go: what `SaveAndComplete` does to the two tables.
use mathlib.Core.Path.{subst}
use ro_builder.Prelude.{
  reject_if-ok_inv, is_ok_of, ℕ, zero, suc, Bool, true, false, not, [], ◌∷◌, ◌++◌, none, some,
  str_eq, any, ok, >>=-ok_inv, ◌==◌, get_elem?, ◌≡◌, refl, arith, Bool-cases, inl, inr, ap, sym,
  ◌∙◌,
}
use ro_builder.BuildLibrary.Rows.{
  completed, Row, Rows, update_where, count_where, get_elem?-update_where,
}
use ro_builder.BuildLibrary.Generations.{is_owned, completed_row}
use ro_builder.BuildLibrary.Generations.Steps.{step, saves}
use ro_builder.BuildLibrary.Generations.Moved.{Owned, is_owned-Owned}
use ro_builder.BuildLibrary.Saved.{
  GateSummary, Store, SaveInput, summarize_and_guard, insert_saved, save_and_complete,
  insert_failed, already_terminal, id_required,
}
use ro_builder.BuildLibrary.Saved.Guard.{Publishable, summarize_and_guard-Publishable}

-- A count that is not 0 has a row behind it.
counted-row :
    (test : Row → Bool) (rows : Rows)
    → (count_where test rows == 0) ≡ false
    → (i : ℕ) × (r : Row) × (get_elem? rows i ≡ some r) × (test r ≡ true)
unfolding count_where
counted-row test [] e = cc
counted-row test (r ∷ rest) e = elim (Bool-cases (test r)) [
  | inl owns ↦ (zero, r, refl, owns)
  | inr other ↦
      (let more = counted-row test rest (ground arith) in (suc more.0, more.1, more.2, more.3))
]

module _ {R : Type 0} where
  -- What a completed save leaves.
  pub record Completes (store after : Store R) (input : SaveInput R) (now : ℕ) : Type 0 where
    pub publishable : Publishable input.primary input.alternatives
    pub place : ℕ
    pub row : Row
    pub found : get_elem? store.generations place ≡ some row
    pub owned : Owned input.id input.owner row
    pub ended :
        get_elem? after.generations place
        ≡ some (record row {
          status = completed;
          completed_at = some now;
          lease_expires_at = none;
          lease_owner = none;
        })
    pub updated :
        after.generations
        ≡ update_where (is_owned input.id input.owner) (completed_row now) store.generations
    pub is_step : after.generations ≡ step store.generations (saves input.id input.owner now)
    pub new_id : any (λ s. str_eq s.id input.id) store.saved ≡ false
    pub summary : GateSummary
    pub summarized : summarize_and_guard input.primary input.alternatives ≡ ok summary
    pub added :
        after.saved
        ≡ store.saved
          ++ (record {
            id = input.id;
            created_at = now;
            class = input.class;
            server = input.server;
            playstyle = input.playstyle;
            mode = input.mode;
            description = input.description;
            primary = input.primary;
            alternatives = input.alternatives;
            final_text = input.final_text;
            gate_summary = summary;
            calc_version = input.calc_version;
            catalog_version = input.catalog_version;
            accepted_at = none;
          }
              ∷ [])

  -- When `SaveAndComplete` returns no error, the submission has passed the gate guard, its id was not saved before,
  -- the generation of that id was running under the caller's lease, it is now completed and holds no lease, which is the
  -- step of the call in a history, and exactly one row is added to the saved trajectories: the submission, its
  -- alternatives and final text, with the summary of its gates, not accepted yet.
  pub save_and_complete-Completes :
      (store after : Store R) (input : SaveInput R) (now : ℕ)
      → save_and_complete store input now ≡ ok after
      → Completes store after input now
  unfolding save_and_complete insert_saved step
  save_and_complete-Completes store after input now e =
      let named = reject_if-ok_inv (str_eq input.id "") id_required _ e in
      let summed = >>=-ok_inv (summarize_and_guard input.primary input.alternatives) _ named.1 in
      let saved = >>=-ok_inv (insert_saved store input now summed.0) _ summed.2 in
      let known =
        reject_if-ok_inv (not (any (λ g. str_eq g.id input.id) store.generations))
          (insert_failed input.id) _ saved.1 in
      let new =
        reject_if-ok_inv (any (λ s. str_eq s.id input.id) store.saved) (insert_failed input.id) _
          known.1 in
      let held =
        reject_if-ok_inv (count_where (is_owned input.id input.owner) store.generations == 0)
          (already_terminal input.id) _ saved.2 in
      let whole : after ≡ record {
        generations =
            update_where (is_owned input.id input.owner) (completed_row now) store.generations;
        saved = saved.0;
      } =
        cc held.1 in
      let at = counted-row (is_owned input.id input.owner) store.generations held.0 in
      record {
        publishable =
            (summarize_and_guard-Publishable input.primary input.alternatives).0
              (is_ok_of (summarize_and_guard input.primary input.alternatives) summed.1);
        place = at.0;
        row = at.1;
        found = at.2;
        owned = is_owned-Owned input.id input.owner at.1 at.3;
        ended =
            subst (λ t. get_elem? t.generations at.0 ≡ some (completed_row now at.1)) (sym whole)
              (get_elem?-update_where (is_owned input.id input.owner) (completed_row now)
                  store.generations at.0 at.2
                ∙ ap some (rw at.3 refl));
        updated = ap (λ t. t.generations) whole;
        is_step = ap (λ t. t.generations) whole;
        new_id = new.0;
        summary = summed.0;
        summarized = summed.1;
        added = ap (λ t. t.saved) whole ∙ sym (cc new.1);
      }
