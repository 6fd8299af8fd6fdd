-- ===== src/Ingest/StrategySync/Mirror.antt =====
-- After a sync the mirror has a row for every file of the registry.
use mathlib.Core.Path.{subst}
use toss_api.Prelude.{
  ℕ, String, ◌+◌, ◌≡◌, refl, sym, ◌∙◌, ap, ◌↔◌, inl, inr, Bool, some, List, [], ◌∷◌, Has,
  Has-search, arith, eq_iff, Bool-cases,
}
use toss_api.Action.{Result, ok, >>=-ok}
use toss_api.Numeric.{Numeric}
use toss_api.Db.Sql.{Engine, IsPostgres}
use toss_api.Db.Repositories.Strategies.{StrategyRegistryRow, is_version, overwrite, sync_from_spec}
use toss_api.Research.Spec.{StrategySpec, status_value, source_value}
use toss_api.Research.Files.{Files, names, read_text, read_text-find}
use toss_api.Research.Registry.{SpecTexts, load, list_versions, list_strategy_ids}
use toss_api.Research.Registry.Newest.{list_versions-read_text, list_versions-Has, names-find}
use toss_api.Ingest.StrategySync.{row_of, sync_one, sync_versions, sync_strategies, sync_all}

module _ {N J : Type 0} (model_json : StrategySpec N → J) where
  -- A row that says what the specification says.
  pub record Mirrors (s : StrategySpec N) (r : StrategyRegistryRow J) : Type 0 where
    pub strategy_id : r.strategy_id ≡ s.strategy_id
    pub version : r.version ≡ s.version
    pub name : r.name ≡ s.name
    pub status : r.status ≡ status_value s.status
    pub source : r.source ≡ source_value s.source
    pub spec_json : r.spec_json ≡ model_json s

  abbrev pub Mirrored : StrategySpec N → List (StrategyRegistryRow J) → Type 0
  Mirrored s t = (r : StrategyRegistryRow J) × Has r t × Mirrors s r

module _ {N J K : Type 0} (eng : Engine (StrategyRegistryRow J) K) (pg : IsPostgres eng)
    (model_json : StrategySpec N → J) (now : ℕ) where
  after_sync : StrategySpec N → List (StrategyRegistryRow J) → List (StrategyRegistryRow J)
  after_sync s t = sync_from_spec eng (row_of model_json now s) t

  after_sync-Mirrored :
      (s : StrategySpec N) (t : List (StrategyRegistryRow J))
      → Mirrored model_json s (after_sync s t)
  unfolding after_sync sync_from_spec overwrite row_of
  after_sync-Mirrored s t =
      let new = row_of model_json now s in
      let clash : StrategyRegistryRow J → StrategyRegistryRow J → Bool =
        λ n old. is_version n.strategy_id n.version old in
      elim (Has-search (clash new) t) [
        | inl (old, m, hit) ↦
            let u = overwrite old new in
            let there = (pg.insert_law clash overwrite new t u).1 (inl (old, m, hit, refl)) in
            (
              u,
              there,
              record {
                strategy_id = ground (arith, hit, eq_iff old.strategy_id s.strategy_id);
                version = ground (arith, hit, eq_iff old.version s.version);
                name = refl;
                status = refl;
                source = refl;
                spec_json = refl;
              },
            )
        | inr free ↦
            let there = (pg.insert_law clash overwrite new t new).1 (inr (inr (free, refl))) in
            (
              new,
              there,
              record {
                strategy_id = refl;
                version = refl;
                name = refl;
                status = refl;
                source = refl;
                spec_json = refl;
              },
            )
      ]

  -- A sync of another version, or of the same specification again, leaves it mirrored.
  after_sync-keeps :
      (s s' : StrategySpec N) (t : List (StrategyRegistryRow J))
      → (s'.strategy_id ≡ s.strategy_id → s'.version ≡ s.version → s' ≡ s)
      → Mirrored model_json s t
      → Mirrored model_json s (after_sync s' t)
  unfolding after_sync sync_from_spec row_of
  after_sync-keeps s s' t only (r, m, k) =
      let new = row_of model_json now s' in
      let clash : StrategyRegistryRow J → StrategyRegistryRow J → Bool =
        λ n old. is_version n.strategy_id n.version old in
      elim (Bool-cases (clash new r)) [
        | inl hit ↦
            let id : r.strategy_id ≡ s'.strategy_id =
              ground (arith, hit, eq_iff r.strategy_id s'.strategy_id) in
            let version : r.version ≡ s'.version =
              ground (arith, hit, eq_iff r.version s'.version) in
            let same = only (sym id ∙ k.strategy_id) (sym version ∙ k.version) in
            subst (λ u. Mirrored model_json s (after_sync u t)) (sym same) (after_sync-Mirrored s t)
        | inr miss ↦ (r, (pg.insert_law clash overwrite new t r).1 (inr (inl (m, miss))), k)
      ]

module _ {F N : Type 0} (num : Numeric N) (texts : SpecTexts F N) (files : Files) where
  -- The file loads, under its own names.
  abbrev pub Loads : String → String → Type 0
  Loads id v =
      (s : StrategySpec N) × (load num texts files id v ≡ ok s)
      × (s.strategy_id ≡ id)
      × (s.version ≡ v)

module _ {F N J K : Type 0} (num : Numeric N) (texts : SpecTexts F N)
    (eng : Engine (StrategyRegistryRow J) K) (pg : IsPostgres eng) (model_json : StrategySpec N → J)
    (now : ℕ) (files : Files) where
  abbrev Table : Type 0
  Table = List (StrategyRegistryRow J)

  -- What holds of the table and is kept by the sync of every version.
  abbrev Kept : (Table → Type 0) → Type 0
  Kept Q =
      (id v : String)
      → Loads num texts files id v
      → (t : Table) → Q t
      → Q (sync_one num texts eng model_json now files id v t).1

  -- A call returned, and keeps what every sync keeps.
  record Runs (t : Table) (out : Result F ℕ × Table) : Type 1 where
    returned : (n : ℕ) × (out.0 ≡ ok n)
    kept : (Q : Table → Type 0) → Kept Q → Q t → Q out.1

  sync_one-ok :
      (id v : String) (s : StrategySpec N) (t : Table)
      → load num texts files id v ≡ ok s
      → sync_one num texts eng model_json now files id v t
        ≡ (ok tt, sync_from_spec eng (row_of model_json now s) t)
  unfolding sync_one
  sync_one-ok id v s t e = rw e refl

  sync_versions-Runs :
      (id : String) (versions : List String) (count : ℕ) (t : Table)
      → ((v : String) → Has v versions → Loads num texts files id v)
      → Runs t (sync_versions num texts eng model_json now files id versions count t)
  unfolding sync_versions
  sync_versions-Runs id [] count t loads = record { returned = (count, refl); kept = λ Q keep q. q }
  sync_versions-Runs id (v ∷ versions) count t loads =
      let (s, e, i, w) = loads v (inl refl) in
      let one = sync_one-ok id v s t e in
      let t' = sync_from_spec eng (row_of model_json now s) t in
      let rest = sync_versions-Runs id versions (count + 1) t' (λ u m. loads u (inr m)) in
      let step =
        >>=-ok (sync_one num texts eng model_json now files id v)
          (λ _. sync_versions num texts eng model_json now files id versions (count + 1)) t tt t'
          one in
      subst (Runs t) (sym step) (record {
        returned = rest.returned;
        kept = λ Q keep q.
            rest.kept Q keep (subst Q (ap (λ o. o.1) one) (keep id v (loads v (inl refl)) t q));
      })

  sync_strategies-Runs :
      (ids : List String) (count : ℕ) (t : Table)
      → ((id v : String) → Has v (list_versions num texts files id) → Loads num texts files id v)
      → Runs t (sync_strategies num texts eng model_json now files ids count t)
  unfolding sync_strategies
  sync_strategies-Runs [] count t loads = record { returned = (count, refl); kept = λ Q keep q. q }
  sync_strategies-Runs (id ∷ ids) count t loads =
      let inner =
        sync_versions num texts eng model_json now files id (list_versions num texts files id)
          count in
      let one = sync_versions-Runs id (list_versions num texts files id) count t (loads id) in
      let (n, e) = one.returned in
      let rest = sync_strategies-Runs ids n (inner t).1 loads in
      let step =
        >>=-ok inner (sync_strategies num texts eng model_json now files ids) t n (inner t).1
          (λ i. (e i, (inner t).1)) in
      subst (Runs t) (sym step) (record {
        returned = rest.returned;
        kept = λ Q keep q. rest.kept Q keep (one.kept Q keep q);
      })

  -- The table after a version of a strategy, and whatever follows in its loop.
  sync_versions-reaches :
      (id : String) (versions : List String) (count : ℕ) (t : Table) (v : String)
      (Q : Table → Type 0)
      → Kept Q
      → ((u : String) → Has u versions → Loads num texts files id u)
      → Has v versions
      → ((t' : Table) → Q (sync_one num texts eng model_json now files id v t').1)
      → Q (sync_versions num texts eng model_json now files id versions count t).1
  unfolding sync_versions
  sync_versions-reaches id [] count t v Q keep loads m made = elim m [ ]
  sync_versions-reaches id (u ∷ versions) count t v Q keep loads m made =
      let (s, e, i, w) = loads u (inl refl) in
      let one = sync_one-ok id u s t e in
      let t' = sync_from_spec eng (row_of model_json now s) t in
      let later : (x : String) → Has x versions → Loads num texts files id x =
        λ x k. loads x (inr k) in
      let step =
        >>=-ok (sync_one num texts eng model_json now files id u)
          (λ _. sync_versions num texts eng model_json now files id versions (count + 1)) t tt t'
          one in
      subst (λ (o : Result F ℕ × Table). Q o.1) (sym step)
        (elim m [
          | inl same ↦
              let here : Q t' =
                subst Q (ap (λ (o : Result F (Unit {0}) × Table). o.1) one) (rw same at (made t)) in
              (sync_versions-Runs id versions (count + 1) t' later).kept Q keep here
          | inr k ↦ sync_versions-reaches id versions (count + 1) t' v Q keep later k made
        ])

  sync_strategies-reaches :
      (ids : List String) (count : ℕ) (t : Table) (id v : String) (Q : Table → Type 0)
      → Kept Q
      → ((j u : String) → Has u (list_versions num texts files j) → Loads num texts files j u)
      → Has id ids
      → Has v (list_versions num texts files id)
      → ((t' : Table) → Q (sync_one num texts eng model_json now files id v t').1)
      → Q (sync_strategies num texts eng model_json now files ids count t).1
  unfolding sync_strategies
  sync_strategies-reaches [] count t id v Q keep loads m k made = elim m [ ]
  sync_strategies-reaches (j ∷ ids) count t id v Q keep loads m k made =
      let inner =
        sync_versions num texts eng model_json now files j (list_versions num texts files j)
          count in
      let one = sync_versions-Runs j (list_versions num texts files j) count t (loads j) in
      let (n, e) = one.returned in
      let step =
        >>=-ok inner (sync_strategies num texts eng model_json now files ids) t n (inner t).1
          (λ i. (e i, (inner t).1)) in
      subst (λ (o : Result F ℕ × Table). Q o.1) (sym step)
        (elim m [
          | inl same ↦ (sync_strategies-Runs ids n (inner t).1 loads).kept Q keep (
              sync_versions-reaches j (list_versions num texts files j) count t v Q keep (loads j)
                (rw (← same) k) (rw (← same) made))
          | inr further ↦ sync_strategies-reaches ids n (inner t).1 id v Q keep loads further k made
        ])

  module _ (sorts : (x : String) (xs : List String) → Has x (texts.sorted xs) ↔ Has x xs)
      (loads : (id v text : String)
        → read_text id v files ≡ some text
        → Loads num texts files id v) where
    listed : (id v : String) → Has v (list_versions num texts files id) → Loads num texts files id v
    listed id v m =
        let (text, e) = list_versions-read_text num texts sorts files id v m in loads id v text e

    mirror-Kept :
        (id v : String) (s : StrategySpec N)
        → load num texts files id v ≡ ok s
        → s.strategy_id ≡ id
        → s.version ≡ v
        → Kept (Mirrored model_json s)
    unfolding sync_one after_sync
    mirror-Kept id v s e i w j u (s', e', i', w') t q =
        let only : s'.strategy_id ≡ s.strategy_id → s'.version ≡ s.version → s' ≡ s = λ p r.
          let first : j ≡ id = sym i' ∙ p ∙ i in
          let second : u ≡ v = sym w' ∙ r ∙ w in
          let e'' : load num texts files id v ≡ ok s' = rw (first, second) at e' in
          ground (arith, e, e'') in
        rw (sync_one-ok j u s' t e')
          (unfold after_sync in after_sync-keeps eng pg model_json now s s' t only q)

    -- If every file loads under its own names, a sync of all returns, and the mirror then has for
    -- every file a row with the name, the status, the source and the JSON of its specification.
    pub sync_all-mirrors :
        (t : Table)
        → let (out, t') = sync_all num texts eng model_json now files t in
          ((n : ℕ) × (out ≡ ok n))
          × ((id v text : String) (s : StrategySpec N)
              → read_text id v files ≡ some text
              → load num texts files id v ≡ ok s
              → Mirrored model_json s t')
    unfolding sync_all list_strategy_ids
    sync_all-mirrors t =
        let ids = list_strategy_ids num texts files in
        (
          (sync_strategies-Runs ids 0 t listed).returned,
          λ id v text s there e.
              let (d, at, found) = read_text-find id v text files there in
              let (s', e', i, w) = loads id v text there in
              let same : s' ≡ s = ground (arith, e, e') in
              sync_strategies-reaches ids 0 t id v (Mirrored model_json s)
                (mirror-Kept id v s e (rw same at i) (rw same at w)) listed
                ((sorts id (names files)).1 (names-find id files d at))
                (list_versions-Has num texts sorts files id v text there)
                (λ t'.
                  rw (sync_one-ok id v s t' e)
                    (unfold after_sync in after_sync-Mirrored eng pg model_json now s t')),
        )
