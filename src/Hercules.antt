-- ===== src/Hercules.antt =====
-- internal/data/sources/hercules: the reader of the emulator's libconfig files.
pub mod Cursor
pub mod Tokenizer
pub mod Parser
pub mod Rows
pub mod ItemDb
pub mod MobDb
pub mod SkillDb
pub mod Roots
pub mod Keys
pub mod SkillTree
pub mod JobDb
