-- ===== src/AiContext/Persistence/Reload.antt =====
-- Results that are persisted are loaded again, from the time on at which they were made.
use mathlib.Core.Path.{subst}
use toss_api.Prelude.{
  ℕ, String, ◌≡◌, refl, sym, ap, ◌∙◌, ◌≤◌, inl, inr, true, Option, none, List, map, Has, map-Has,
  Has-map, arith, eq_iff,
}
use toss_api.Action.{ok, traverse-total, traverse-all}
use toss_api.Numeric.{Numeric}
use toss_api.Db.Sql.{Engine, IsPostgres}
use toss_api.Db.Upsert.{set_columns}
use toss_api.Db.Upsert.Observed.{select_as_of_iff}
use toss_api.Db.Upsert.Writes.{upsert_event_rows-Written, upsert_event_rows-All}
use toss_api.Db.Repositories.Annotations.{
  AnnotationKey, AnnotationRow, annotation_key_eq, set_annotation_values, upsert_annotations,
  annotation_filters, get_annotations_as_of,
}
use toss_api.AiContext.Schema.{EventKind, event_kinds, AiContextResult}
use toss_api.AiContext.Persistence.{
  key_of, row_of_result, persist_annotations, to_result, load_annotations_as_of,
}
use toss_api.AiContext.Persistence.Rows.{IsValidResult, HoldsResult, to_result-HoldsResult}

module _ {N : Type 0} (num : Numeric N) where
  -- The row holds a result that was made.
  abbrev pub IsAnnotation : AnnotationRow N → Type 0
  IsAnnotation row =
      (result : AiContextResult N) × IsValidResult num result × HoldsResult result row

module _ {N : Type 0} (eng : Engine (AnnotationRow N) AnnotationKey) where
  row_of_result-HoldsResult :
      (event_time as_of : ℕ) (result : AiContextResult N)
      → HoldsResult result (row_of_result event_time as_of result)
  unfolding row_of_result
  row_of_result-HoldsResult event_time as_of result = record {
    key = refl;
    ingested = refl;
    values = refl;
  }

  set_columns-HoldsResult :
      (event_time as_of : ℕ) (result : AiContextResult N) (old : AnnotationRow N)
      → old.key ≡ key_of result
      → HoldsResult result (
          set_columns annotation_key_eq eng
            (set_annotation_values eng)
            old
            (row_of_result event_time as_of result))
  unfolding row_of_result
  set_columns-HoldsResult event_time as_of result old k = record {
    key = k;
    ingested = refl;
    values = refl;
  }

module _ {F N : Type 0} (num : Numeric N) (eng : Engine (AnnotationRow N) AnnotationKey)
    (pg : IsPostgres eng) where
  persist-IsAnnotation :
      (results : List (AiContextResult N)) (event_time as_of : ℕ) (t t' : List (AnnotationRow N))
      → persist_annotations {F = F} eng results event_time as_of t ≡ ok t'
      → ((result : AiContextResult N) → Has result results → IsValidResult num result)
      → ((row : AnnotationRow N) → Has row t → IsAnnotation num row)
      → (row : AnnotationRow N) → Has row t'
      → IsAnnotation num row
  unfolding persist_annotations upsert_annotations
  persist-IsAnnotation results event_time as_of t t' h valid all row m =
      let rows = map (row_of_result event_time as_of) results in
      upsert_event_rows-All annotation_key_eq eng pg (set_annotation_values eng) {F = F}
        (IsAnnotation num) rows t t' h
        (λ new old n k.
          let (result, there, e) = Has-map (row_of_result event_time as_of) results new n in
          let key : old.key ≡ key_of result = k ∙ ap (λ (n : AnnotationRow N). n.key) e in
          let held = set_columns-HoldsResult eng event_time as_of result old key in
          (
            result,
            valid result there,
            subst
                (λ n.
                  HoldsResult result
                    (set_columns annotation_key_eq eng (set_annotation_values eng) old n))
                (sym e) held,
          ))
        (λ new n.
          let (result, there, e) = Has-map (row_of_result event_time as_of) results new n in
          (
            result,
            valid result there,
            subst (HoldsResult result) (sym e)
                (row_of_result-HoldsResult eng event_time as_of result),
          ))
        all row m

  -- A load from a table of annotations returns: it raises nothing.
  load-total :
      (source external_id : String) (event_kind : EventKind) (as_of : ℕ)
      (model_name : Option String) (t : List (AnnotationRow N))
      → ((row : AnnotationRow N) → Has row t → IsAnnotation num row)
      → (loaded : List (AiContextResult N)) × (load_annotations_as_of {F = F} num eng source
            external_id event_kind as_of model_name t
          ≡ ok loaded)
  unfolding load_annotations_as_of get_annotations_as_of
  load-total source external_id event_kind as_of model_name t all =
      let filters =
        annotation_filters eng source external_id (event_kinds.value event_kind) model_name in
      traverse-total (to_result num)
        (get_annotations_as_of eng source external_id (event_kinds.value event_kind) as_of
          model_name t)
        (λ row m.
          let there =
            ((select_as_of_iff annotation_key_eq eng pg (λ r. r.values.event_time) filters as_of t
                row).0
              m).0 in
          let (result, valid, held) = all row there in
          (result, to_result-HoldsResult num result row valid held))

  -- The row of a result in the table that it was persisted to, known at a time at which the result
  -- and whatever row its key had before were known.
  persisted_row :
      (results : List (AiContextResult N)) (event_time as_of later : ℕ)
      (t t' : List (AnnotationRow N)) (result : AiContextResult N)
      → persist_annotations {F = F} eng results event_time as_of t ≡ ok t'
      → Has result results
      → as_of ≤ later
      → ((old : AnnotationRow N) → Has old t → old.key ≡ key_of result → old.available_at ≤ later)
      → (row : AnnotationRow N) × Has row t' × HoldsResult result row × (row.available_at ≤ later)
  unfolding persist_annotations upsert_annotations
  persisted_row results event_time as_of later t t' result h m past known =
      let rows = map (row_of_result event_time as_of) results in
      let new = row_of_result event_time as_of result in
      let (written, _) =
        upsert_event_rows-Written annotation_key_eq eng pg (set_annotation_values eng) {F = F} rows
          t t' h in
      elim (written new (map-Has (row_of_result event_time as_of) results result m)) [
        | inl (there, free) ↦ (
          new,
          there,
          row_of_result-HoldsResult eng event_time as_of result,
          unfold row_of_result in past,
        )
        | inr (old, k, key, there) ↦
            let key' : old.key ≡ key_of result = unfold row_of_result in key in
            (
              set_columns annotation_key_eq eng (set_annotation_values eng) old new,
              there,
              set_columns-HoldsResult eng event_time as_of result old key',
              known old k key',
            )
      ]

  -- Results are persisted to a table of annotations. Then a load for any item, kind, model and time
  -- returns, and the table is one of annotations again. And a load for the item and the kind of one
  -- of the results, as of the time of the persisting or later, has that result as it was, if a row
  -- that its key had before was known by then.
  pub load-persist :
      (results : List (AiContextResult N)) (event_time as_of : ℕ) (t t' : List (AnnotationRow N))
      → persist_annotations {F = F} eng results event_time as_of t ≡ ok t'
      → ((result : AiContextResult N) → Has result results → IsValidResult num result)
      → ((row : AnnotationRow N) → Has row t → IsAnnotation num row)
      → ((row : AnnotationRow N) → Has row t' → IsAnnotation num row)
        × ((source external_id : String) (event_kind : EventKind) (later : ℕ)
              (model_name : Option String)
            → (loaded : List (AiContextResult N)) × (load_annotations_as_of {F = F} num eng source
                  external_id event_kind later model_name t'
                ≡ ok loaded))
        × ((result : AiContextResult N) (later : ℕ)
            → Has result results
            → as_of ≤ later
            → ((old : AnnotationRow N)
                → Has old t
                → old.key ≡ key_of result
                → old.available_at ≤ later)
            → (loaded : List (AiContextResult N)) × (load_annotations_as_of {F = F} num eng
                  result.source result.external_id result.event_kind later none t'
                ≡ ok loaded)
              × Has result loaded)
  unfolding load_annotations_as_of get_annotations_as_of
  load-persist results event_time as_of t t' h valid all =
      let after = persist-IsAnnotation results event_time as_of t t' h valid all in
      (
        after,
        λ source external_id event_kind later model_name.
            load-total source external_id event_kind later model_name t' after,
        λ result later m past known.
            let kind = event_kinds.value result.event_kind in
            let filters = annotation_filters eng result.source result.external_id kind none in
            let rows =
              get_annotations_as_of eng result.source result.external_id kind later none t' in
            let (row, there, held, available) =
              persisted_row results event_time as_of later t t' result h m past known in
            let wanted : filters row ≡ true = ground (
              arith,
              held.key,
              eq_iff row.key.source result.source,
              eq_iff row.key.external_id result.external_id,
              eq_iff row.key.event_kind kind,
            ) in
            let read : Has row rows =
              (select_as_of_iff annotation_key_eq eng pg (λ r. r.values.event_time) filters later t'
                  row).1
                (there, wanted, available) in
            let (loaded, e) =
              load-total result.source result.external_id result.event_kind later none t' after in
            let (result', k, gives) = traverse-all (to_result {F = F} num) rows loaded e row read in
            let same : result ≡ result' =
              ground (
                arith,
                gives,
                to_result-HoldsResult {F = F} num result row (valid result m) held,
              ) in
            (loaded, e, subst (λ r. Has r loaded) (sym same) k),
      )
