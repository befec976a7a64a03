-- ===== src/Hercules/JobDb/Joins.antt =====
-- What `LoadJobMaxLevelsDB` returns, and that the loops over named entries end.
use ro_builder.Prelude.{List, [], map, String, ok, err, >>=-ok_inv, ok_inj, ◌≡◌, ◌≢◌, sym}
use ro_builder.GameData.{JobMaxLevels}
use ro_builder.Hercules.Cursor.{Bytes}
use ro_builder.Hercules.Parser.{out_of_fuel}
use ro_builder.Hercules.Roots.{syntax}
use ro_builder.Hercules.Roots.Ends.{read_roots-Finishes}
use ro_builder.Hercules.Roots.Keeps.{Returns, Returned, read_roots-Returns}
use ro_builder.Hercules.Keys.{lookup, sort_by_key}
use ro_builder.Hercules.Keys.Sorted.{
  Ascending, Distinct, set-Distinct, sort_by_key-Ascending, lookup-sort_by_key,
}
use ro_builder.Hercules.SkillTree.{add_class, load_skill_tree_db}
use ro_builder.Hercules.JobDb.{
  JobExpRefs, ExpGroupMaxLevels, refs_of, add_job, add_root, load_job_db, load_exp_group_db,
  max_levels_of, load_job_max_levels_db,
}

-- `LoadSkillTreeDB`, `LoadJobDB` and `LoadExpGroupDB` end on every source: the fuel that the loop
-- over the named entries gets is never used up.
pub loads-end :
    (decode : Bytes → String) (src : Bytes)
    → (load_skill_tree_db decode src ≢ err (syntax out_of_fuel))
      × (load_job_db src ≢ err (syntax out_of_fuel))
      × (load_exp_group_db src ≢ err (syntax out_of_fuel))
unfolding load_skill_tree_db load_job_db load_exp_group_db
loads-end decode src = (
  read_roots-Finishes (add_class decode) [] src,
  read_roots-Finishes add_job [] src,
  read_roots-Finishes add_root (record { base = []; job = [] }) src,
)

load_job_db-Distinct : (src : Bytes) → Returns Distinct (load_job_db src)
unfolding load_job_db add_job
load_job_db-Distinct src =
    read_roots-Returns add_job Distinct
      (λ name m refs distinct. set-Distinct name (refs_of m) refs distinct) [] src tt

-- The jobs of `LoadJobDB` strictly ascending, with the same entry for every name.
pub record Sorts (refs sorted : List (Bytes × JobExpRefs)) : Type 0 where
  pub ascending : Ascending sorted
  pub same : (name : Bytes) → lookup name sorted ≡ lookup name refs

-- `LoadJobMaxLevelsDB` returns, where it returns rows, one row for each job that `LoadJobDB` maps
-- from its name, in strictly ascending order of the names, and the row has the levels that
-- `LoadExpGroupDB` gives the two groups of the job, or 0 for an unknown group.
pub load_job_max_levels_db-Sorts :
    (decode : Bytes → String) (jobs exp_groups : Bytes) {rows : List JobMaxLevels}
    → load_job_max_levels_db decode jobs exp_groups ≡ ok rows
    → (refs : List (Bytes × JobExpRefs)) × (load_job_db jobs ≡ ok refs)
      × (groups : ExpGroupMaxLevels) × (load_exp_group_db exp_groups ≡ ok groups)
      × (sorted : List (Bytes × JobExpRefs)) × Sorts refs sorted
      × (rows ≡ map (max_levels_of decode groups) sorted)
unfolding load_job_max_levels_db
load_job_max_levels_db-Sorts decode jobs exp_groups done =
    let (refs, known, more) = >>=-ok_inv (load_job_db jobs) _ done in
    let (groups, levels, joined) = >>=-ok_inv (load_exp_group_db exp_groups) _ more in
    let distinct = Returned Distinct (load_job_db jobs) (load_job_db-Distinct jobs) known in
    (
      refs,
      known,
      groups,
      levels,
      sort_by_key refs,
      record {
        ascending = sort_by_key-Ascending refs distinct;
        same = λ name. lookup-sort_by_key name refs distinct;
      },
      sym (ok_inj _ _ joined),
    )
