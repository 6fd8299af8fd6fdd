-- ===== src/Research/Registry/Newest.antt =====
-- `load_latest` goes by the recorded creation time.
use toss_api.Prelude.{
  String, ◌≡◌, refl, ◌≤◌, ◌∙◌, ◌↔◌, inl, inr, Bool, some, List, [], ◌∷◌, Has, arith, eq_iff, str_eq,
  ltb, Bool-cases, Option-cases, if◌then◌else◌,
}
use mathlib.Core.Path.{subst}
use toss_api.Action.{ok, bind-ok, traverse, traverse-Has, traverse-all}
use toss_api.Numeric.{Numeric}
use toss_api.Research.Spec.{StrategySpec}
use toss_api.Research.Files.{Files, find, names, directory, read_text, read_text-find}
use toss_api.Research.Registry.{SpecTexts, newest, load, list_versions, max_created, load_latest}

module _ {N : Type 0} where
  newest-highest :
      (best : StrategySpec N) (specs : List (StrategySpec N))
      → Has (newest best specs) (best ∷ specs)
        × ((s : StrategySpec N)
            → Has s (best ∷ specs)
            → s.created_at ≤ (newest best specs).created_at)
  unfolding newest
  newest-highest best [] = (inl refl, λ s m. ground (arith, m))
  newest-highest best (x ∷ specs) =
      let later : Bool = ltb best.created_at x.created_at in
      let kept : StrategySpec N = if later then x else best in
      let (there, high) = newest-highest kept specs in
      (
        elim there [
          | inr further ↦ inr (inr further)
          | inl same ↦ elim (Bool-cases later) [
            | inl b ↦ inr (inl (same ∙ rw b refl))
            | inr b ↦ inl (same ∙ rw b refl)
          ]
        ],
        λ s m. elim m [
          | inl same ↦ ground (arith, same, high kept (inl refl))
          | inr (inl same) ↦ ground (arith, same, high kept (inl refl))
          | inr (inr further) ↦ high s (inr further)
        ],
      )

  max_created-highest :
      {F : Type 0} (specs : List (StrategySpec N)) (s : StrategySpec N)
      → max_created {F = F} specs ≡ ok s
      → Has s specs × ((w : StrategySpec N) → Has w specs → w.created_at ≤ s.created_at)
  unfolding max_created
  max_created-highest [] s h = ground (arith, h)
  max_created-highest (x ∷ specs) s h =
      let e : newest x specs ≡ s = ground (arith, h) in
      let (there, high) = newest-highest x specs in
      (
        subst (λ u. Has u (x ∷ specs)) e there,
        subst (λ u. (w : StrategySpec N) → Has w (x ∷ specs) → w.created_at ≤ u.created_at) e high,
      )

pub names-find :
    {V : Type 0} (k : String) (d : List (String × V)) (v : V) → find k d ≡ some v → Has k (names d)
unfolding find names
names-find k [] v h = ground (arith, h)
names-find k ((j, w) ∷ d) v h = elim (Bool-cases (str_eq j k)) [
  | inl b ↦ inl (ground (arith, eq_iff j k, b))
  | inr b ↦ inr (names-find k d v (ground (arith, h, b)))
]

find-names :
    {V : Type 0} (k : String) (d : List (String × V))
    → Has k (names d)
    → (v : V) × (find k d ≡ some v)
unfolding find names
find-names k [] m = elim m [ ]
find-names k ((j, w) ∷ d) m = elim (Bool-cases (str_eq j k)) [
  | inl b ↦ (w, rw b refl)
  | inr b ↦
      let further : Has k (names d) = ground (arith, m, b, eq_iff j k) in
      let (v, e) = find-names k d further in (v, rw b e)
]

module _ {F N : Type 0} (num : Numeric N) (texts : SpecTexts F N)
    (sorts : (x : String) (xs : List String) → Has x (texts.sorted xs) ↔ Has x xs) where
  -- A version with a file is listed.
  pub list_versions-Has :
      (files : Files) (id version text : String)
      → read_text id version files ≡ some text
      → Has version (list_versions num texts files id)
  unfolding list_versions
  list_versions-Has files id version text h =
      let (d, e, there) = read_text-find id version text files h in
      rw (e, list_versions) ((sorts version (names d)).1 (names-find version d text there))

  -- A version that is listed has a file.
  pub list_versions-read_text :
      (files : Files) (id version : String)
      → Has version (list_versions num texts files id)
      → (text : String) × (read_text id version files ≡ some text)
  unfolding list_versions read_text directory
  list_versions-read_text files id version m = elim (Option-cases (find id files)) [
    | inl e ↦ elim (rw (e, list_versions) at m) [ ]
    | inr (d, e) ↦
        let there : Has version (texts.sorted (names d)) = rw (e, list_versions) at m in
        let (text, found) = find-names version d ((sorts version (names d)).0 there) in
        (text, rw (e, directory) found)
  ]

  -- What `load_latest` returns is the specification of one version, and no version that loads was
  -- created later; every version that has a file loads.
  pub load_latest-newest :
      (files : Files) (id : String) (s : StrategySpec N)
      → load_latest num texts files id ≡ ok s
      → ((v : String) × (load num texts files id v ≡ ok s))
        × ((v text : String)
            → read_text id v files ≡ some text
            → (w : StrategySpec N) × (load num texts files id v ≡ ok w)
              × (w.created_at ≤ s.created_at))
  unfolding load_latest
  load_latest-newest files id s h =
      let versions = list_versions num texts files id in
      let (specs, loaded, best) =
        bind-ok (traverse (load num texts files id) versions) (max_created) s h in
      let (there, high) : Has s specs
          × ((w : StrategySpec N) → Has w specs → w.created_at ≤ s.created_at) =
        max_created-highest specs s best in
      let (v, listed, gives) =
        traverse-Has (load num texts files id) versions specs loaded s there in
      (
        (v, gives),
        λ v text e.
            let (w, m, one) =
              traverse-all (load num texts files id) versions specs loaded v
                (list_versions-Has files id v text e) in
            (w, one, high w m),
      )
