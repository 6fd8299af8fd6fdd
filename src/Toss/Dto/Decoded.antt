-- ===== src/Toss/Dto/Decoded.antt =====
-- What a payload holds of which the shapes of candles were read.
use mathlib.Core.Path.{subst}
use toss_api.Prelude.{
  String, ◌≡◌, refl, ◌⊎◌, inl, inr, Option, none, some, List, [], ◌∷◌, Pairs, arith,
}
use toss_api.Action.{ok, bind-ok, traverse, traverse-Pairs}
use toss_api.Runtime.{Json, JsonItems, JsonFields, null, string, array, object, nil, item}
use toss_api.Toss.Status.{get_field}
use toss_api.Toss.Dto.{
  str_field, any_field, as_object, as_list, optional_str_field, items_of, candle_dto, CandleDto,
  CandlesResultDto, candles_result_dto, raw_envelope_dto,
}

-- Where a response to a request for candles has the series: `result` of the payload, and in it the
-- items and the time before which the next page ends.
pub record IsPage (payload : Json) (items : JsonItems) (next_before : Option String) : Type 0 where
  pub top : JsonFields
  pub fields : JsonFields
  pub is_object : payload ≡ object top
  pub result : get_field "result" top ≡ some (object fields)
  pub listed : get_field "candles" fields ≡ some (array items)
  pub next :
      ((next_before ≡ none)
        × ((get_field "nextBefore" fields ≡ none) ⊎ (get_field "nextBefore" fields ≡ some null)))
      ⊎ ((text : String) × (next_before ≡ some text)
          × (get_field "nextBefore" fields ≡ some (string text)))

-- One relation between each item of an array and the element of a list at its place.
abbrev pub Elements : {A : Type 0} → (Json → A → Type 0) → JsonItems → List A → Type 0
Elements R nil [] = Unit
Elements R nil (_ ∷ _) = ⊥
Elements R (item _ _) [] = ⊥
Elements R (item j rest) (x ∷ xs) = R j x × Elements R rest xs

pub items_of-Elements :
    {A : Type 0} (R : Json → A → Type 0) (items : JsonItems) (xs : List A)
    → Pairs R (items_of items) xs
    → Elements R items xs
unfolding items_of
items_of-Elements R nil [] h = tt
items_of-Elements R nil (x ∷ xs) h = h
items_of-Elements R (item j rest) [] h = h
items_of-Elements R (item j rest) (x ∷ xs) h = (h.0, items_of-Elements R rest xs h.1)

-- A field that holds a text of which something is said.
abbrev pub HasText : JsonFields → String → (String → Type 0) → Type 0
HasText fields name P = (text : String) × (get_field name fields ≡ some (string text)) × P text

-- The item has each text under the name that the API gives it.
pub record IsItem (j : Json) (dto : CandleDto) : Type 0 where
  pub fields : JsonFields
  pub is_object : j ≡ object fields
  pub timestamp : get_field "timestamp" fields ≡ some (string dto.timestamp)
  pub open_price : get_field "openPrice" fields ≡ some (string dto.open_price)
  pub high_price : get_field "highPrice" fields ≡ some (string dto.high_price)
  pub low_price : get_field "lowPrice" fields ≡ some (string dto.low_price)
  pub close_price : get_field "closePrice" fields ≡ some (string dto.close_price)
  pub volume : get_field "volume" fields ≡ some (string dto.volume)
  pub currency : get_field "currency" fields ≡ some (string dto.currency)

module _ {F : Type 0} where
  str_field-ok :
      (name : String) (fields : JsonFields) (s : String)
      → str_field {F = F} name fields ≡ ok s
      → get_field name fields ≡ some (string s)
  unfolding str_field
  str_field-ok name fields s h = ground (arith, h)

  any_field-ok :
      (name : String) (fields : JsonFields) (j : Json)
      → any_field {F = F} name fields ≡ ok j
      → get_field name fields ≡ some j
  unfolding any_field
  any_field-ok name fields j h = ground (arith, h)

  as_object-ok :
      (j : Json) (fields : JsonFields) → as_object {F = F} j ≡ ok fields → j ≡ object fields
  unfolding as_object
  as_object-ok j fields h = ground (arith, h)

  as_list-ok :
      (j : Json) (xs : List Json)
      → as_list {F = F} j ≡ ok xs
      → (items : JsonItems) × (j ≡ array items) × (xs ≡ items_of items)
  unfolding as_list
  as_list-ok (array items) xs h = (items, refl, ground (arith, h))
  as_list-ok _ xs h = absurd (ground (arith, h))

  optional_str_field-ok :
      (name : String) (fields : JsonFields) (v : Option String)
      → optional_str_field {F = F} name fields ≡ ok v
      → ((v ≡ none) × ((get_field name fields ≡ none) ⊎ (get_field name fields ≡ some null)))
        ⊎ ((text : String) × (v ≡ some text) × (get_field name fields ≡ some (string text)))
  unfolding optional_str_field
  optional_str_field-ok name fields none h = inl (refl, ground (arith, h))
  optional_str_field-ok name fields (some text) h = inr (text, refl, ground (arith, h))

  candle_dto-IsItem : (j : Json) (dto : CandleDto) → candle_dto {F = F} j ≡ ok dto → IsItem j dto
  unfolding candle_dto
  candle_dto-IsItem j dto h =
      let (fs, h0, r0) = bind-ok (as_object {F = F} j) _ dto h in
      let (t, h1, r1) = bind-ok (str_field {F = F} "timestamp" fs) _ dto r0 in
      let (o, h2, r2) = bind-ok (str_field {F = F} "openPrice" fs) _ dto r1 in
      let (u, h3, r3) = bind-ok (str_field {F = F} "highPrice" fs) _ dto r2 in
      let (l, h4, r4) = bind-ok (str_field {F = F} "lowPrice" fs) _ dto r3 in
      let (c, h5, r5) = bind-ok (str_field {F = F} "closePrice" fs) _ dto r4 in
      let (v, h6, r6) = bind-ok (str_field {F = F} "volume" fs) _ dto r5 in
      let (k, h7, r7) = bind-ok (str_field {F = F} "currency" fs) _ dto r6 in
      record {
        fields = fs;
        is_object = as_object-ok j fs h0;
        timestamp = ground (arith, str_field-ok "timestamp" fs t h1, r7);
        open_price = ground (arith, str_field-ok "openPrice" fs o h2, r7);
        high_price = ground (arith, str_field-ok "highPrice" fs u h3, r7);
        low_price = ground (arith, str_field-ok "lowPrice" fs l h4, r7);
        close_price = ground (arith, str_field-ok "closePrice" fs c h5, r7);
        volume = ground (arith, str_field-ok "volume" fs v h6, r7);
        currency = ground (arith, str_field-ok "currency" fs k h7, r7);
      }

  -- All items of the page are read, place by place.
  pub candles_result_dto-IsPage :
      (payload result : Json) (dto : CandlesResultDto)
      → raw_envelope_dto {F = F} payload ≡ ok result
      → candles_result_dto {F = F} result ≡ ok dto
      → (items : JsonItems) × (items' : List Json) × IsPage payload items dto.next_before
        × (items' ≡ items_of items)
        × Pairs (IsItem) items' dto.candles
  unfolding raw_envelope_dto candles_result_dto
  candles_result_dto-IsPage payload result dto h h' =
      let (top, a0, b0) = bind-ok (as_object {F = F} payload) _ result h in
      let (fs, a1, b1) = bind-ok (as_object {F = F} result) _ dto h' in
      let (listed, a2, b2) = bind-ok (any_field {F = F} "candles" fs) _ dto b1 in
      let (js, a3, b3) = bind-ok (as_list {F = F} listed) _ dto b2 in
      let (dtos, a4, b4) = bind-ok (traverse (candle_dto {F = F}) js) _ dto b3 in
      let (next, a5, b5) = bind-ok (optional_str_field {F = F} "nextBefore" fs) _ dto b4 in
      let (items, is_array, same) = as_list-ok listed js a3 in
      let page : IsPage payload items next = record {
        top = top;
        fields = fs;
        is_object = as_object-ok payload top a0;
        result = ground (arith, any_field-ok "result" top result b0, as_object-ok result fs a1);
        listed = ground (arith, any_field-ok "candles" fs listed a2, is_array);
        next = optional_str_field-ok "nextBefore" fs next a5;
      } in
      let ends : (next ≡ dto.next_before) × (dtos ≡ dto.candles) =
        (ground (arith, b5), ground (arith, b5)) in
      (
        items,
        js,
        subst (IsPage payload items) ends.0 page,
        same,
        subst (Pairs IsItem js) ends.1
            (traverse-Pairs IsItem (candle_dto {F = F}) js dtos candle_dto-IsItem a4),
      )
