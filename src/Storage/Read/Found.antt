-- ===== src/Storage/Read/Found.antt =====
use research_paper_aep.Base.{
  Bool, Bool-cases, Option, String, ap, inl, inr, none, refl, some, str_eq→eq, subst, true, ℕ, ◌==◌,
  ◌≡◌, ◌≤◌,
}
use research_paper_aep.Redis.{Redis, poison}
use research_paper_aep.Redis.Laws.{get-set_ne}
use research_paper_aep.Storage.Save.{Quarantine, SaveError, storage_operation}
use research_paper_aep.Storage.Save.Frame.{SameButPoison, quarantine-frame}
use research_paper_aep.Storage.Migrate.{
  Migration, diverged, is_current, migrate_schema, migrated, unknown_version,
}
use research_paper_aep.Storage.Migrate.Chain.{Chain, Reached, migrate_schema_complete}
use research_paper_aep.Storage.Read.{
  Decoded, GetResult, RawRead, Reader, ambiguous, decoded_as, found, get_raises, get_state,
  malformed, missing, on_decoded, on_migrated, on_read, on_validated, quarantine_raw, raw_text,
  unavailable, undecodable,
}

-- What a read promises.

module _ {A V : Type 0} (rd : Reader A V) (q : Quarantine) (id : String) (r : Redis) where
  -- The state that a read has found
  pub record Origin (read : RawRead) (v : V) : Type 0 where
    pub raw : String
    pub was_read : read ≡ raw_text raw
    pub stored_dict : A
    pub was_decoded : rd.decode_state raw ≡ decoded_as stored_dict
    pub current_dict : A
    pub steps : ℕ
    pub few : steps ≤ 50
    pub chain : Chain rd.migrators rd.schema_version steps stored_dict current_dict
    pub current : is_current rd.migrators rd.schema_version current_dict ≡ true
    pub validated : rd.model_validate current_dict ≡ some v
    pub own : rd.execution_id_of v ≡ id

  found-injective : {v w : V} → Path (GetResult V) (found v) (found w) → v ≡ w
  found-injective p = cc

  quarantine_raw-frame :
      (reason raw : String) → SameButPoison id r (quarantine_raw q id reason raw r)
  unfolding quarantine_raw
  quarantine_raw-frame reason raw k other = elim (Bool-cases q.succeeds) [
    | inl e ↦ rw e (get-set_ne r (poison id q.epoch_ms) k _ _ (other q.epoch_ms))
    | inr e ↦ rw e refl
  ]

  abbrev Answers : (V → Type 0) → GetResult V × Redis → Type 0
  Answers P o = ((v : V) → o.0 ≡ found v → P v × (o.1 ≡ r)) × SameButPoison id r o.1

  raises-Answers :
      (P : V → Type 0) (e : SaveError) (s : Redis)
      → SameButPoison id r s
      → Answers P (get_raises e, s)
  raises-Answers P e s same = (λ v h. cc, same)

  on_validated-Answers :
      (raw : String) (o : Option V)
      → Answers (λ v. (o ≡ some v) × (rd.execution_id_of v ≡ id)) (on_validated rd q id r raw o)
  unfolding on_validated
  on_validated-Answers raw none = raises-Answers _ _ _ (quarantine_raw-frame _ raw)
  on_validated-Answers raw (some w) = elim (Bool-cases (rd.execution_id_of w == id)) [
    | inr e ↦ rw e (raises-Answers _ storage_operation r (λ k other. refl))
    | inl e ↦
        let own = str_eq→eq (rd.execution_id_of w) id e in
        rw e (
          λ v h. (
            (
              ap some (found-injective h),
              subst (λ u. rd.execution_id_of u ≡ id) (found-injective h) own,
            ),
            refl,
          ),
          λ k other. refl,
        )
  ]

  on_migrated-Answers :
      (raw : String) (m : Migration A)
      → Answers
          (λ v.
            (b : A) × (m ≡ migrated b)
            × (rd.model_validate b ≡ some v)
            × (rd.execution_id_of v ≡ id))
          (on_migrated rd q id r raw m)
  unfolding on_migrated
  on_migrated-Answers raw unknown_version = raises-Answers _ _ _ (quarantine_raw-frame _ raw)
  on_migrated-Answers raw diverged = raises-Answers _ _ _ (quarantine_raw-frame _ raw)
  on_migrated-Answers raw (migrated b) =
      let (finds, same) = on_validated-Answers raw (rd.model_validate b) in
      (λ v h. let ((valid, own), kept) = finds v h in ((b, refl, valid, own), kept), same)

  origin :
      (raw : String) (a b : A) (v : V)
      → rd.decode_state raw ≡ decoded_as a
      → migrate_schema rd.migrators rd.schema_version a ≡ migrated b
      → rd.model_validate b ≡ some v
      → rd.execution_id_of v ≡ id
      → Origin (raw_text raw) v
  origin raw a b v was moved valid own =
      let reached = (migrate_schema_complete rd.migrators rd.schema_version a).0 in
      let (k, few, chain, new) =
        subst (λ m. Reached rd.migrators rd.schema_version 50 a m) moved reached in
      record {
        raw = raw;
        was_read = refl;
        stored_dict = a;
        was_decoded = was;
        current_dict = b;
        steps = k;
        few = few;
        chain = chain;
        current = new;
        validated = valid;
        own = own;
      }

  on_decoded-Answers :
      (raw : String) (d : Decoded A)
      → rd.decode_state raw ≡ d
      → Answers (Origin (raw_text raw)) (on_decoded rd q id r raw d)
  unfolding on_decoded
  on_decoded-Answers raw ambiguous e = raises-Answers _ _ _ (quarantine_raw-frame _ raw)
  on_decoded-Answers raw malformed e = raises-Answers _ _ _ (quarantine_raw-frame _ raw)
  on_decoded-Answers raw (decoded_as a) e =
      let (finds, same) =
        on_migrated-Answers raw (migrate_schema rd.migrators rd.schema_version a) in
      (
        λ v h.
            let ((b, moved, valid, own), kept) = finds v h in
            (origin raw a b v e moved valid own, kept),
        same,
      )

  on_read-Answers : (read : RawRead) → Answers (Origin read) (on_read rd q id r read)
  unfolding on_read
  on_read-Answers undecodable =
      raises-Answers _ _ _ (quarantine-frame q id "invalid-serialization" r)
  on_read-Answers unavailable = raises-Answers _ _ _ (λ k other. refl)
  on_read-Answers missing = (λ v h. cc, λ k other. refl)
  on_read-Answers (raw_text raw) = on_decoded-Answers raw (rd.decode_state raw) refl

  -- A read finds a state only where the raw text decodes, at most 50 migrators lead from its dictionary to
  -- one of the current version, that one is valid, and its execution is the one asked for; Redis is then
  -- as before. Whatever it answers, every key but a poison key of the execution reads as before.
  pub get_state-Origin :
      (is_canonical : String → Bool) (read : RawRead)
      → let o = get_state rd q id r is_canonical read in
        ((v : V) → o.0 ≡ found v → Origin read v × (o.1 ≡ r)) × SameButPoison id r o.1
  unfolding get_state
  get_state-Origin is_canonical read = elim (Bool-cases (is_canonical id)) [
    | inl e ↦ rw e (on_read-Answers read)
    | inr e ↦ rw e (raises-Answers (Origin read) storage_operation r (λ k other. refl))
  ]
