-- ===== src/Http/Laws.antt =====
-- Copying headers keeps every value, in order.
use proxysim.Prelude.{
  ◌≡◌, List, [], ◌∷◌, ◌++◌, Text, lookup-put, text_eq, text_eq_iff, if◌then◌else◌, append-nil,
  append_assoc, arith,
}
use proxysim.Http.{Header, canonical, values, add, add_values, copy_headers}

values-add :
    (h : Header) (k v j : Text)
    → values (add h k v) j ≡ (if text_eq (canonical k) j then values h j ++ v ∷ [] else values h j)
unfolding values add
values-add h k v j = ground (
  arith,
  lookup-put (canonical k) j (values h (canonical k) ++ v ∷ []) h,
  text_eq_iff (canonical k) j,
)

values-add_values :
    (k : Text) (vs : List Text) (h : Header) (j : Text)
    → values (add_values k h vs) j
      ≡ (if text_eq (canonical k) j then values h j ++ vs else values h j)
unfolding add_values
values-add_values k [] h j = ground (arith, append-nil (values h j))
values-add_values k (v ∷ vs) h j = ground (
  arith,
  values-add_values k vs (add h k v) j,
  values-add h k v j,
  append_assoc (values h j) (v ∷ []) vs,
)

-- the values that the entries of a header hold for a name
abbrev pub all_values : Header → Text → List Text
all_values [] j = []
all_values ((k, vs) ∷ src) j =
    if text_eq (canonical k) j then vs ++ all_values src j else all_values src j

-- After a copy a name has the values it had and then those of the source, in the source's order;
-- nothing is lost and no other name changes.
pub values-copy_headers :
    (src dst : Header) (j : Text)
    → values (copy_headers dst src) j ≡ values dst j ++ all_values src j
unfolding copy_headers
values-copy_headers [] dst j = ground (arith, append-nil (values dst j))
values-copy_headers ((k, vs) ∷ src) dst j = ground (
  arith,
  values-copy_headers src (add_values k dst vs) j,
  values-add_values k vs dst j,
  append_assoc (values dst j) vs (all_values src j),
)
