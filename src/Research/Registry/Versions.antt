-- ===== src/Research/Registry/Versions.antt =====
-- What is saved is loaded, and a saved version stays as it is.
use toss_api.Prelude.{
  String, ◌≡◌, refl, ◌∙◌, Bool, false, ◌&&◌, not, some, inl, inr, arith, eq_iff, str_eq,
  if◌then◌else◌, is_some, Bool-cases, Option-cases,
}
use toss_api.Exceptions.{plain, strategy_version_exists_error}
use toss_api.Action.{ok, err, bind-ok}
use toss_api.Numeric.{Numeric}
use toss_api.Research.Spec.{StrategySpec, validate_spec}
use toss_api.Research.Spec.Checked.{IsChecked, validate_spec-IsChecked}
use toss_api.Research.Files.{Files, mkdir, read_text, read_text-mkdir, read_text-write_text}
use toss_api.Research.Registry.{SpecTexts, model_validate_json, save, load}

module _ {F N : Type 0} (num : Numeric N) (texts : SpecTexts F N) where
  -- The file of a version after a save.
  save-read_text :
      (spec : StrategySpec N) (overwrite : Bool) (files : Files) (j v : String)
      → read_text j v (save num texts spec overwrite files).1 ≡ (
          if is_some (read_text spec.strategy_id spec.version files) && not overwrite
          then read_text j v files
          else (if str_eq spec.strategy_id j && str_eq spec.version v
              then some (texts.dump spec)
              else read_text j v files))
  unfolding save
  save-read_text spec overwrite files j v =
      let files' = mkdir spec.strategy_id files in
      let same = read_text-mkdir spec.strategy_id in
      ground (
        arith,
        same j v files,
        same spec.strategy_id spec.version files,
        read_text-write_text spec.strategy_id spec.version (texts.dump spec) j v files',
      )

  -- Without `overwrite` no save changes what is read of a version that is there; the save of one
  -- that is there raises StrategyVersionExistsError.
  pub save-append_only :
      (spec : StrategySpec N) (files : Files) (j v text : String)
      → read_text j v files ≡ some text
      → (read_text j v (save num texts spec false files).1 ≡ some text)
        × (spec.strategy_id ≡ j
            → spec.version ≡ v
            → (save num texts spec false files).0 ≡ err (plain strategy_version_exists_error))
  unfolding save
  save-append_only spec files j v text h = (
    ground (
      arith,
      save-read_text spec false files j v,
      eq_iff spec.strategy_id j,
      eq_iff spec.version v,
      h,
    ),
    λ i w.
        let there : read_text spec.strategy_id spec.version (mkdir spec.strategy_id files)
            ≡ some text =
          read_text-mkdir spec.strategy_id spec.strategy_id spec.version files ∙ rw (i, w) h in
        rw there refl,
  )

  save-wrote :
      (spec : StrategySpec N) (overwrite : Bool) (files : Files) (path : String × String)
      → (save num texts spec overwrite files).0 ≡ ok path
      → (is_some (read_text spec.strategy_id spec.version files) && not overwrite) ≡ false
  unfolding save
  save-wrote spec overwrite files path saved =
      let i = spec.strategy_id in
      let w = spec.version in
      elim (Bool-cases (is_some (read_text i w files) && not overwrite)) [
        | inl b ↦ absurd (ground (arith, saved, b, read_text-mkdir i i w files))
        | inr b ↦ b
      ]

  -- A specification that passes its validators, and whose text pydantic decodes to it again, is
  -- loaded as it was saved; all that is loaded of the other versions stays the same.
  pub load-save :
      (spec : StrategySpec N) (overwrite : Bool) (files : Files) (path : String × String)
      → texts.decode (texts.dump spec) ≡ ok spec
      → validate_spec texts.strip {F = F} num spec ≡ ok spec
      → (save num texts spec overwrite files).0 ≡ ok path
      → let files' = (save num texts spec overwrite files).1 in
        (load num texts files' spec.strategy_id spec.version ≡ ok spec)
        × ((j v : String)
            → (str_eq spec.strategy_id j && str_eq spec.version v) ≡ false
            → load num texts files' j v ≡ load num texts files j v)
  unfolding load model_validate_json
  load-save spec overwrite files path decoded valid saved =
      let i = spec.strategy_id in
      let w = spec.version in
      let written : (is_some (read_text i w files) && not overwrite) ≡ false =
        save-wrote spec overwrite files path saved in
      let mine : read_text i w (save num texts spec overwrite files).1 ≡ some (texts.dump spec) =
        ground (arith, save-read_text spec overwrite files i w, written, eq_iff i i, eq_iff w w) in
      (
        rw (mine, load, model_validate_json, decoded) valid,
        λ j v other.
            let kept : read_text j v (save num texts spec overwrite files).1 ≡ read_text j v files =
              ground (arith, save-read_text spec overwrite files j v, written, other) in
            rw (kept, load) refl,
      )

  -- Whatever the files hold, a specification that `load` returns has passed its validators: one of
  -- a status past research, but for retired, has assumptions that somebody can reproduce.
  pub load-IsChecked :
      (files : Files) (id version : String) (s : StrategySpec N)
      → load num texts files id version ≡ ok s
      → IsChecked num texts.strip s
  unfolding load model_validate_json
  load-IsChecked files id version s h = elim (Option-cases (read_text id version files)) [
    | inl e ↦ absurd (ground (arith, h, e))
    | inr (text, e) ↦
        let loaded : model_validate_json num texts text ≡ ok s = ground (arith, h, e) in
        let (raw, decoded, valid) =
          bind-ok (texts.decode text) (validate_spec texts.strip {F = F} num) s loaded in
        let (same, checked) = validate_spec-IsChecked num texts.strip raw s valid in rw same checked
  ]
