-- ===== src/Research/Files.antt =====
-- The directory of the registry: a directory for each strategy, and in it a text for each version.
-- Names are plain components of a path, without a separator.
use mathlib.Core.List.{map}
use toss_api.Prelude.{
  String, ◌≡◌, refl, ◌≢◌, ◌&&◌, Option, none, some, List, [], ◌∷◌, str_eq, eq_iff, arith,
  if◌then◌else◌, inl, inr, Option-cases,
}

module _ {V : Type 0} where
  unfoldable pub find : String → List (String × V) → Option V
  find k [] = none
  find k ((j, v) ∷ d) = if str_eq j k then some v else find k d

  unfoldable pub put : String → V → List (String × V) → List (String × V)
  put k v [] = (k, v) ∷ []
  put k v ((j, w) ∷ d) = if str_eq j k then (k, v) ∷ d else (j, w) ∷ put k v d

  unfoldable pub names : List (String × V) → List String
  names d = map (λ (k, _). k) d

  pub find-put :
      (k j : String) (v : V) (d : List (String × V))
      → find j (put k v d) ≡ (if str_eq k j then some v else find j d)
  unfolding find put
  find-put k j v [] = refl
  find-put k j v ((i, w) ∷ d) = ground (arith, eq_iff k j, eq_iff i k, eq_iff i j, find-put k j v d)

abbrev pub Directory : Type 0
Directory = List (String × String)

abbrev pub Files : Type 0
Files = List (String × Directory)

-- The directory of a strategy; one that is not there has no files.
unfoldable pub directory : String → Files → Directory
unfolding find
directory id files = elim (find id files) [ none ↦ [] | some d ↦ d ]

-- strategy_dir.mkdir(parents=True, exist_ok=True)
unfoldable pub mkdir : String → Files → Files
unfolding directory put
mkdir id files = put id (directory id files) files

-- path.read_text(), `none` where there is no such file
unfoldable pub read_text : String → String → Files → Option String
unfolding directory find
read_text id version files = find version (directory id files)

-- path.write_text(text)
unfoldable pub write_text : String → String → String → Files → Files
unfolding directory put
write_text id version text files = put id (put version text (directory id files)) files

directory-put :
    (id j : String) (d : Directory) (files : Files)
    → directory j (put id d files) ≡ (if str_eq id j then d else directory j files)
unfolding directory
directory-put id j d files = rw (directory, find-put id j d files) (ground arith)

-- A new directory changes no file.
pub read_text-mkdir :
    (id j v : String) (files : Files) → read_text j v (mkdir id files) ≡ read_text j v files
unfolding read_text mkdir
read_text-mkdir id j v files =
    rw (directory-put id j (directory id files) files) (ground (arith, eq_iff id j))

-- A written text is read back; every other file is as it was.
pub read_text-write_text :
    (id version text j v : String) (files : Files)
    → read_text j v (write_text id version text files)
      ≡ (if str_eq id j && str_eq version v then some text else read_text j v files)
unfolding read_text write_text
read_text-write_text id version text j v files =
    rw (directory-put id j (put version text (directory id files)) files)
      (ground (arith, eq_iff id j, find-put version v text (directory id files)))

find-nil : (k v : String) → find k [] ≢ some v
unfolding find
find-nil k v h = cc

-- A file lies in a directory that is there.
pub read_text-find :
    (id version text : String) (files : Files)
    → read_text id version files ≡ some text
    → (d : Directory) × (find id files ≡ some d) × (find version d ≡ some text)
unfolding read_text directory
read_text-find id version text files h = elim (Option-cases (find id files)) [
  | inl e ↦ absurd (find-nil version text (rw (e, directory) at h))
  | inr (d, e) ↦ (d, e, ground (arith, h, e))
]
