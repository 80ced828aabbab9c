-- ===== src/Storage/Migrate.antt =====
-- _migrate_schema of aep_core/core/storage.py. The registry of migrators and the reading of the field
-- schema_version are arguments; the guard of 50 iterations is the fuel.
pub mod Chain
use research_paper_aep.Base.{
  Bool, Option, String, false, if◌then◌else◌, none, some, suc, true, zero, ℕ, ◌==◌,
}

pub data Migration {ℓ} (A : Type ℓ) : Type ℓ where
  migrated : A → Migration A
  unknown_version diverged : Migration A

module _ {ℓ} {A : Type ℓ} (migrators : Option String → Option (A → A))
    (schema_version : A → Option String) where
  -- from_version != CURRENT_SCHEMA_VERSION, negated
  abbrev pub is_current : A → Bool
  is_current state = elim (schema_version state) [ none ↦ false | some v ↦ v == "1.0.0" ]

  -- The loop, with the iterations that are left.
  unfoldable pub migrate_loop : ℕ → A → Migration A
  migrate_loop zero state = if is_current state then migrated state else diverged
  migrate_loop (suc left) state = elim (is_current state) [
    | true ↦ migrated state
    | false ↦ elim (migrators (schema_version state)) [
      | none ↦ unknown_version
      | some migrator ↦ migrate_loop left (migrator state)
    ]
  ]

  unfoldable pub migrate_schema : A → Migration A
  unfolding migrate_loop
  migrate_schema state = migrate_loop 50 state
