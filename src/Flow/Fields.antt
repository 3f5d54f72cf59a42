-- ===== src/Flow/Fields.antt =====
-- internal/flow/flowtest/flowtest.go: the field set that consumers of the JSON form of a flow agree
-- on, with the tags of internal/flow/flow.go. JSON is an argument, up to the order of an object's keys.
use mathlib.Core.List.{Permᴰ}
use proxysim.Prelude.{
  ◌≡◌, refl, ap, ◌∙◌, List, [], ◌∷◌, ◌++◌, map, Option, none, some, Text, codes, is_nil, sort,
  sort-perm, AllUntied, Untied, All, if◌then◌else◌,
}
use proxysim.Strings.Order.{text_le, text_le-IsOrder, text_le_antisymm}
use proxysim.Flow.{Flow}

-- a field that is left out where it is empty
abbrev omitempty : Text → Text → List Text
omitempty name value = if is_nil value then [] else name ∷ []

-- The keys that the tags give a flow's JSON object, in the order of the fields.
unfoldable pub json_keys : Flow → List Text
json_keys f =
    (codes "id"
      ∷ codes "started"
      ∷ codes "duration_ns"
      ∷ codes "scheme"
      ∷ codes "method"
      ∷ codes "host"
      ∷ codes "path"
      ∷ codes "request_headers"
      ∷ [])
    ++ (omitempty (codes "request_body") f.request_body
        ++ ((codes "request_truncated" ∷ codes "status_code" ∷ codes "response_headers" ∷ [])
            ++ (omitempty (codes "response_body") f.response_body
                ++ ((codes "response_truncated" ∷ codes "intercepted" ∷ [])
                    ++ omitempty (codes "error") f.error))))

abbrev pub golden_field_set : List Text
golden_field_set =
    codes "duration_ns"
    ∷ codes "error"
    ∷ codes "host"
    ∷ codes "id"
    ∷ codes "intercepted"
    ∷ codes "method"
    ∷ codes "path"
    ∷ codes "request_body"
    ∷ codes "request_headers"
    ∷ codes "request_truncated"
    ∷ codes "response_body"
    ∷ codes "response_headers"
    ∷ codes "response_truncated"
    ∷ codes "scheme"
    ∷ codes "started"
    ∷ codes "status_code"
    ∷ []

-- A value's JSON text, and the entries of an object in the order of the map's iteration.
pub record Json (V : Type 0) : Type 0 where
  pub marshal : V → Option Text
  pub unmarshal : Text → Option (List (Text × Text))

-- `FieldSet`; `none` is a test that fails.
unfoldable pub field_set : {V : Type 0} → Json V → V → Option (List Text)
field_set json v = elim (json.marshal v) [
  | none ↦ none
  | some bytes ↦ elim (json.unmarshal bytes) [
    | none ↦ none
    | some m ↦ some (sort text_le (map (λ e. e.0) m))
  ]
]

Untied-with : (k : Text) (ks : List Text) → All (Untied text_le k) ks
Untied-with k [] = tt
Untied-with k (j ∷ ks) = (text_le_antisymm k j, Untied-with k ks)

untied : (ks : List Text) → AllUntied text_le ks
untied [] = tt
untied (k ∷ ks) = (Untied-with k ks, untied ks)

-- the golden fields, without those that are left out
abbrev pub present : Text → Text → List Text → List Text
present name value rest = if is_nil value then rest else name ∷ rest

abbrev pub golden_present : Flow → List Text
golden_present f =
    codes "duration_ns"
    ∷ present (codes "error") f.error (
        codes "host"
        ∷ codes "id"
        ∷ codes "intercepted"
        ∷ codes "method"
        ∷ codes "path"
        ∷ present (codes "request_body") f.request_body (
            codes "request_headers"
            ∷ codes "request_truncated"
            ∷ present (codes "response_body") f.response_body (
                codes "response_headers"
                ∷ codes "response_truncated"
                ∷ codes "scheme"
                ∷ codes "started"
                ∷ codes "status_code"
                ∷ [])))

sorted_keys : (f : Flow) → sort text_le (json_keys f) ≡ golden_present f
unfolding json_keys sort text_le
sorted_keys f = at_sizes f.error f.request_body f.response_body
  where
    at_sizes :
        (e req resp : Text)
        → let g : Flow = record f { error = e; request_body = req; response_body = resp } in
          sort text_le (json_keys g) ≡ golden_present g
    at_sizes [] [] [] = refl
    at_sizes [] [] (x ∷ resp) = refl
    at_sizes [] (x ∷ req) [] = refl
    at_sizes [] (x ∷ req) (y ∷ resp) = refl
    at_sizes (c ∷ e) [] [] = refl
    at_sizes (c ∷ e) [] (x ∷ resp) = refl
    at_sizes (c ∷ e) (x ∷ req) [] = refl
    at_sizes (c ∷ e) (x ∷ req) (y ∷ resp) = refl

-- Where JSON gives an object the keys of the tags in some order, the field set of a flow is the golden
-- one, but for an empty body or error, which has no field.
pub field_set_golden :
    (json : Json Flow) (f : Flow) (bytes : Text) (m : List (Text × Text))
    → json.marshal f ≡ some bytes
    → json.unmarshal bytes ≡ some m
    → Permᴰ (map (λ e. e.0) m) (json_keys f)
    → field_set json f ≡ some (golden_present f)
unfolding field_set
field_set_golden json f bytes m e u p =
    rw (field_set, e, u)
      (ap some (sort-perm text_le text_le-IsOrder p (untied (map (λ e. e.0) m)) ∙ sorted_keys f))
