-- ===== src/Loki/Hook/Values/RoundTrip.antt =====
-- A value of JSON survives the way into Starlark and back.
use kigeon.Prelude.{
  ℕ, suc, ◌≡◌, refl, sym, ◌≢◌, ap, String, Bool, false, ◌||◌, arith, ◌==◌, eq_iff, subst,
}
use kigeon.Errors.{ok, ◌>>=◌}
use kigeon.Loki.Hook.Values.{
  GoValue, null, bool, float64, int64, string, slice, go_map, other, GoItems, nil, cons, GoFields,
  end, field, StarValue, none_type, star_bool, float, star_string, star_list, dict, StarItems,
  star_nil, star_cons, Entries, no_entry, entry, has_entry, add_entry, Starlark, put_field,
  go_value_to_starlark, go_items, go_fields, starlark_value_to_go, star_items, star_entries,
  go_map_to_starlark_dict, starlark_dict_to_go_map,
}

abbrev has_field : String → GoFields → Bool
has_field k end = false
has_field k (field j v m) = j == k || has_field k m

-- no key of a Go map stands in it twice
abbrev HasDistinctKeys : GoFields → Type 0
HasDistinctKeys end = Unit
HasDistinctKeys (field k v m) = (has_field k m ≡ false) × HasDistinctKeys m

-- The values that `json.Unmarshal` gives in an `any`.
abbrev mutual
  pub IsJson : GoValue → Type 0
  IsJson null = Unit
  IsJson (bool b) = Unit
  IsJson (float64 x) = Unit
  IsJson (string t) = Unit
  IsJson (int64 n) = ⊥
  IsJson (other t) = ⊥
  IsJson (slice l) = AreJson l
  IsJson (go_map m) = HasDistinctKeys m × HaveJson m

  pub AreJson : GoItems → Type 0
  AreJson nil = Unit
  AreJson (cons v l) = IsJson v × AreJson l

  pub HaveJson : GoFields → Type 0
  HaveJson end = Unit
  HaveJson (field k v m) = IsJson v × HaveJson m

-- The Starlark value of a value of JSON.
mutual
  star_of : GoValue → StarValue
  star_of null = none_type
  star_of (bool b) = star_bool b
  star_of (float64 x) = float x
  star_of (string t) = star_string t
  star_of (int64 n) = none_type
  star_of (other t) = none_type
  star_of (slice l) = star_list (star_of_items l)
  star_of (go_map m) = dict (star_of_fields m)

  star_of_items : GoItems → StarItems
  star_of_items nil = star_nil
  star_of_items (cons v l) = star_cons (star_of v) (star_of_items l)

  star_of_fields : GoFields → Entries
  star_of_fields end = no_entry
  star_of_fields (field k v m) = entry (star_string k) (star_of v) (star_of_fields m)

append_fields : GoFields → GoFields → GoFields
append_fields end m = m
append_fields (field k v p) m = field k v (append_fields p m)

abbrev add_field : GoFields → String → GoValue → GoFields
add_field p k v = append_fields p (field k v end)

append_fields-add_field :
    (p : GoFields) (k : String) (v : GoValue) (m : GoFields)
    → append_fields (add_field p k v) m ≡ append_fields p (field k v m)
unfolding append_fields
append_fields-add_field end k v m = refl
append_fields-add_field (field j w p) k v m = ap (field j w) (append_fields-add_field p k v m)

append_fields-end : (p : GoFields) → append_fields p end ≡ p
unfolding append_fields
append_fields-end end = refl
append_fields-end (field j w p) = ap (field j w) (append_fields-end p)

has_field_before :
    (j : String) (p : GoFields) (k : String) (v : GoValue) (m : GoFields)
    → has_field j (append_fields p (field k v m)) ≡ false
    → k ≢ j
unfolding append_fields
has_field_before j end k v m h = ground (arith, eq_iff k j)
has_field_before j (field i w p) k v m h = has_field_before j p k v m (ground arith)

-- A key that comes later is new.
key_is_new :
    (p : GoFields) (k : String) (v : GoValue) (m : GoFields)
    → HasDistinctKeys (append_fields p (field k v m))
    → has_field k p ≡ false
unfolding append_fields
key_is_new end k v m h = refl
key_is_new (field j w p) k v m h =
    ground (arith, eq_iff j k, eq_iff k j, has_field_before j p k v m h.0, key_is_new p k v m h.1)

has_entry-star_of_fields :
    (k : String) (p : GoFields) → has_entry k (star_of_fields p) ≡ has_field k p
unfolding star_of_fields
has_entry-star_of_fields k end = refl
has_entry-star_of_fields k (field j v p) = ap (λ b. j == k || b) (has_entry-star_of_fields k p)

add_entry-star_of_fields :
    (p : GoFields) (k : String) (v : GoValue)
    → add_entry (star_of_fields p) k (star_of v) ≡ star_of_fields (add_field p k v)
unfolding star_of_fields append_fields
add_entry-star_of_fields end k v = refl
add_entry-star_of_fields (field j w p) k v =
    ap (entry (star_string j) (star_of w)) (add_entry-star_of_fields p k v)

put_field-add_field :
    (p : GoFields) (k : String) (v : GoValue)
    → has_field k p ≡ false
    → put_field p k v ≡ add_field p k v
unfolding put_field append_fields
put_field-add_field end k v h = refl
put_field-add_field (field j w p) k v h = ground (arith, put_field-add_field p k v)

module _ (s : Starlark) where
  set_key-star_of_fields :
      (p : GoFields) (k : String) (v : GoValue)
      → has_field k p ≡ false
      → s.set_key (star_of_fields p) k (star_of v) ≡ ok (star_of_fields (add_field p k v))
  set_key-star_of_fields p k v h =
      rw (s.set_key_new (star_of_fields p) k (star_of v) (rw has_entry-star_of_fields h))
        (ap ok (add_entry-star_of_fields p k v))

  mutual
    unfolding go_value_to_starlark star_of append_fields

    to_starlark : (v : GoValue) → IsJson v → go_value_to_starlark s v ≡ ok (star_of v)
    to_starlark null h = refl
    to_starlark (bool b) h = refl
    to_starlark (float64 x) h = refl
    to_starlark (string t) h = refl
    to_starlark (int64 n) h = absurd h
    to_starlark (other t) h = absurd h
    to_starlark (slice l) h = rw (to_starlark_items 0 l h)
    to_starlark (go_map m) h = rw (to_starlark_fields end m h.0 h.1)

    to_starlark_items : (i : ℕ) (l : GoItems) → AreJson l → go_items s i l ≡ ok (star_of_items l)
    to_starlark_items i nil h = refl
    to_starlark_items i (cons v l) h = rw (to_starlark v h.0, to_starlark_items (suc i) l h.1)

    to_starlark_fields :
        (p m : GoFields)
        → HasDistinctKeys (append_fields p m)
        → HaveJson m
        → go_fields s (star_of_fields p) m ≡ ok (star_of_fields (append_fields p m))
    to_starlark_fields p end d h = rw append_fields-end
    to_starlark_fields p (field k v m) d h =
        rw (to_starlark v h.0, set_key-star_of_fields p k v (key_is_new p k v m d))
          (subst (λ q. go_fields s (star_of_fields (add_field p k v)) m ≡ ok (star_of_fields q))
            (append_fields-add_field p k v m)
            (to_starlark_fields (add_field p k v) m
              (subst HasDistinctKeys (sym (append_fields-add_field p k v m)) d) h.1))

  mutual
    unfolding starlark_value_to_go star_of append_fields

    to_go : (v : GoValue) → IsJson v → starlark_value_to_go s (star_of v) ≡ ok v
    to_go null h = refl
    to_go (bool b) h = refl
    to_go (float64 x) h = refl
    to_go (string t) h = refl
    to_go (int64 n) h = absurd h
    to_go (other t) h = absurd h
    to_go (slice l) h = rw (to_go_items 0 l h)
    to_go (go_map m) h = rw (to_go_fields end m h.0 h.1)

    to_go_items : (i : ℕ) (l : GoItems) → AreJson l → star_items s i (star_of_items l) ≡ ok l
    to_go_items i nil h = refl
    to_go_items i (cons v l) h = rw (to_go v h.0, to_go_items (suc i) l h.1)

    to_go_fields :
        (p m : GoFields)
        → HasDistinctKeys (append_fields p m)
        → HaveJson m
        → star_entries s p (star_of_fields m) ≡ ok (append_fields p m)
    to_go_fields p end d h = rw append_fields-end
    to_go_fields p (field k v m) d h =
        rw (to_go v h.0, put_field-add_field p k v (key_is_new p k v m d))
          (subst (λ q. star_entries s (add_field p k v) (star_of_fields m) ≡ ok q)
            (append_fields-add_field p k v m)
            (to_go_fields (add_field p k v) m
              (subst HasDistinctKeys (sym (append_fields-add_field p k v m)) d) h.1))

  -- A value that `json.Unmarshal` gives, of any depth and with any keys, is converted to Starlark
  -- and back without an error and without a change, if a Starlark dict keeps its items in the
  -- order of insertion.
  pub starlark_value_to_go-go_value_to_starlark :
      (v : GoValue) → IsJson v → (go_value_to_starlark s v >>= starlark_value_to_go s) ≡ ok v
  starlark_value_to_go-go_value_to_starlark v h = rw (to_starlark v h) (to_go v h)

  -- So is a whole map, as `toStarlarkDict` and `fromStarlarkDict` convert it.
  pub starlark_dict_to_go_map-go_map_to_starlark_dict :
      (m : GoFields)
      → IsJson (go_map m)
      → (go_map_to_starlark_dict s m >>= starlark_dict_to_go_map s) ≡ ok m
  unfolding go_map_to_starlark_dict starlark_dict_to_go_map star_of append_fields
  starlark_dict_to_go_map-go_map_to_starlark_dict m h =
      rw (to_starlark_fields end m h.0 h.1) (to_go_fields end m h.0 h.1)
