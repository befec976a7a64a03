-- ===== src/Tests/Catalog.antt =====
-- A catalog of a few rows.
use ro_builder.Prelude.{ℕ, false, List, [], ◌∷◌, none, some, String, ok, ◌≡◌, ◌≤◌, refl}
use ro_builder.Prelude.Int.{pos, pos_part, int_lt, int_eq}
use ro_builder.GameData.{Skill, ClassSkillTree, ClassSkillEntry, JobMaxLevels}
use ro_builder.Catalog.Names.{to_lower}
use ro_builder.Catalog.Load.{CatalogFile, Catalog, catalog_of, get, load}
use ro_builder.Catalog.Load.Indexed.{Serves, load-Serves}
use ro_builder.Catalog.Classes.{class_max_levels}
use ro_builder.Catalog.Progression.{progression_chain, class_skill_point_budget}
use ro_builder.Catalog.Progression.Chain.{LeadsTo, Outside, progression_chain-LeadsTo}
use ro_builder.Catalog.Search.{
  ItemFilter, search_items, search_limit, is_skipped, matches, take, search_items-matches,
}
use ro_builder.Tests.Gates.{ice, sword}

abbrev plain_skill : Skill
plain_skill = record {
  id = pos 5;
  aegis_name = "SM_BASH";
  name = "Bash";
  max_level = pos 10;
  attack_type = "Weapon";
  element = "";
  cast_time_ms = pos 0;
  fixed_cast_ms = pos 0;
  after_cast_ms = pos 0;
  cooldown_ms = pos 0;
  cast_time_by_level_ms = [];
  interruptible = false;
  status_change = "";
  self_buff = none;
  attack_skill = some (record { name = "bash" });
}

abbrev endow_skill : Skill
endow_skill = record plain_skill {
  id = pos 280;
  aegis_name = "SA_FLAMELAUNCHER";
  name = "Endow";
  self_buff = some (record {
    name = "mild_wind";
    kind = "weapon_endow";
    persistence = "transient";
    endow = some (record { elements = "earth" ∷ "wind" ∷ "holy" ∷ [] });
  });
  attack_skill = none;
}

abbrev entry : String → ClassSkillEntry
entry name = record { aegis_name = name; max_level = pos 10; requires = []; unusable = false }

abbrev tree : String → List String → ClassSkillTree
tree name parents = record {
  name = name;
  inherit = parents;
  skills = entry "SM_BASH" ∷ entry "SA_FLAMELAUNCHER" ∷ [];
}

abbrev max_levels : String → ℕ → JobMaxLevels
max_levels name job = record {
  name = name;
  max_base_level = pos 99;
  max_job_level = pos job;
  base_exp_group = "";
  job_exp_group = "";
}

abbrev pub file : CatalogFile
file = record {
  version = pos 3;
  mode = "pre-renewal";
  items = sword ∷ record sword { name = "Sword again" } ∷ record sword { id = pos 1102 } ∷ [];
  mobs = ice ∷ [];
  skills = plain_skill ∷ endow_skill ∷ [];
  classes =
      ("novice", tree "Novice" [])
      ∷ ("swordsman", tree "Swordsman" ("Novice" ∷ []))
      ∷ ("knight", tree "Knight" ("Swordsman" ∷ "Novice" ∷ []))
      ∷ [];
  job_max_levels = max_levels "Novice" 10 ∷ max_levels "Swordsman" 50 ∷ max_levels "Knight" 50 ∷ [];
  class_innate_buffs = [];
}

abbrev pub catalog : Catalog
catalog = catalog_of file

knight_chain : progression_chain catalog "knight" ≡ "novice" ∷ "swordsman" ∷ "knight" ∷ []
unfolding progression_chain catalog_of
knight_chain = refl

knight_budget : class_skill_point_budget catalog "Knight" ≡ some (pos 107)
unfolding class_skill_point_budget catalog_of class_max_levels int_lt
knight_budget = refl

loaded : load (ok file) ≡ ok catalog
unfolding load catalog_of int_eq
loaded = refl

load-Serves_example : Serves file catalog
load-Serves_example = load-Serves file catalog loaded

progression_chain-LeadsTo_example :
    LeadsTo "rune_knight" (progression_chain catalog "rune_knight")
    × Outside none "rune_knight" (progression_chain catalog "rune_knight")
unfolding get catalog_of
progression_chain-LeadsTo_example = progression_chain-LeadsTo catalog "rune_knight"

-- A class that the catalog lacks is a chain of its own.
unknown_chain : progression_chain catalog "rune_knight" ≡ "rune_knight" ∷ []
unfolding progression_chain catalog_of
unknown_chain = refl

abbrev swords : ItemFilter
swords = record {
  type = "IT_WEAPON";
  subtype = "";
  name_contains = "SWO";
  min_slots = pos 1;
  max_slots = pos 0;
  max_equip_lv = pos 10;
  limit = pos 1;
}

one_sword : search_items catalog swords ≡ sword ∷ []
unfolding search_items catalog_of int_lt int_eq
one_sword = refl

search_items-matches_example :
    (search_items catalog swords
      ≡ take
          (pos_part (search_limit swords))
          (matches (is_skipped swords (to_lower swords.name_contains)) catalog.items.listed))
    × (1 ≤ pos_part (search_limit swords))
    × (pos_part (search_limit swords) ≤ 100)
search_items-matches_example = search_items-matches catalog swords
