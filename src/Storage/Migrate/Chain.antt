-- ===== src/Storage/Migrate/Chain.antt =====
use research_paper_aep.Base.{
  Bool-cases, Option, Option-cases, String, arith, false, inl, inr, none, some, suc, true, zero, ℕ,
  ◌<◌, ◌≡◌, ◌≤◌,
}
use research_paper_aep.Storage.Migrate.{
  Migration, diverged, is_current, migrate_loop, migrate_schema, migrated, unknown_version,
}

-- What the migration loop reaches.

module _ {ℓ} {A : Type ℓ} (migrators : Option String → Option (A → A))
    (schema_version : A → Option String) where
  -- So many migrators lead from one state to another, each from a version that is not current.
  pub data Chain : ℕ → A → A → Type ℓ where
    here : {s : A} → Chain 0 s s
    step :
        {n : ℕ} {s t : A} {f : A → A}
        → is_current migrators schema_version s ≡ false
        → migrators (schema_version s) ≡ some f
        → Chain n (f s) t
        → Chain (suc n) s t

  -- What an answer tells, where at most n migrators may run
  abbrev pub Reached : ℕ → A → Migration A → Type ℓ
  Reached n s (migrated t) =
      (k : ℕ) × (k ≤ n) × Chain k s t × (is_current migrators schema_version t ≡ true)
  Reached n s unknown_version =
      (k : ℕ) × (t : A) × (k < n)
      × Chain k s t
      × (is_current migrators schema_version t ≡ false)
      × (migrators (schema_version t) ≡ none)
  Reached n s diverged = (t : A) × Chain n s t × (is_current migrators schema_version t ≡ false)

  Reached-step :
      (n : ℕ) (s : A) (f : A → A) (m : Migration A)
      → is_current migrators schema_version s ≡ false
      → migrators (schema_version s) ≡ some f
      → Reached n (f s) m
      → Reached (suc n) s m
  Reached-step n s f (migrated t) old e (k, le, chain, new) =
      (suc k, omega arith, step old e chain, new)
  Reached-step n s f unknown_version old e (k, t, lt, chain, stuck, lost) =
      (suc k, t, omega arith, step old e chain, stuck, lost)
  Reached-step n s f diverged old e (t, chain, stuck) = (t, step old e chain, stuck)

  migrate_loop-Reached : (n : ℕ) (s : A) → Reached n s (migrate_loop migrators schema_version n s)
  unfolding migrate_loop
  migrate_loop-Reached zero s = elim (Bool-cases (is_current migrators schema_version s)) [
    | inl e ↦ rw (e, migrate_loop) (0, omega arith, here, e)
    | inr e ↦ rw (e, migrate_loop) (s, here, e)
  ]
  migrate_loop-Reached (suc n) s = elim (Bool-cases (is_current migrators schema_version s)) [
    | inl e ↦ rw (e, migrate_loop) (0, omega arith, here, e)
    | inr e ↦ elim (Option-cases (migrators (schema_version s))) [
      | inl none_is ↦ rw (e, none_is, migrate_loop) (0, s, omega arith, here, e, none_is)
      | inr (f, some_is) ↦
          rw (e, some_is, migrate_loop)
            (Reached-step n s f _ e some_is (migrate_loop-Reached n (f s)))
    ]
  ]

  migrate_loop_complete :
      (n k : ℕ) (s t : A)
      → Chain k s t
      → k ≤ n
      → is_current migrators schema_version t ≡ true
      → migrate_loop migrators schema_version n s ≡ migrated t
  unfolding migrate_loop
  migrate_loop_complete zero k s t here le e = rw (e, migrate_loop)
  migrate_loop_complete (suc n) k s t here le e = rw (e, migrate_loop)
  migrate_loop_complete zero k s t (step old found chain) le e = absurd (omega arith)
  migrate_loop_complete (suc n) k s t (step old found chain) le e =
      rw (old, found, migrate_loop) (migrate_loop_complete n _ _ t chain (omega arith) e)

  pub migrate_schema_complete :
      (s : A)
      → Reached 50 s (migrate_schema migrators schema_version s)
        × ((k : ℕ) (t : A)
            → Chain k s t
            → k ≤ 50
            → is_current migrators schema_version t ≡ true
            → migrate_schema migrators schema_version s ≡ migrated t)
  unfolding migrate_schema
  migrate_schema_complete s =
      (migrate_loop-Reached 50 s, λ k t chain le e. migrate_loop_complete 50 k s t chain le e)
