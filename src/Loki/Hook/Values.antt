-- ===== src/Loki/Hook/Values.antt =====
-- The conversions between Go and Starlark values of internal/eventsender/loki/hook.go.
-- A `float64` is kept as its bits. A Go map is its entries in the order in which `range` gives them,
-- a Starlark dict its items in the order of insertion.
pub mod RoundTrip
use kigeon.Prelude.{
  ℕ, suc, String, ◌≡◌, Bool, false, ◌||◌, Option, none, some, List, [], ◌∷◌, ◌==◌, if◌then◌else◌, ℤ,
  format_nat,
}
use kigeon.Errors.{Error, errorf, Result, ok, err, wrap_err, ◌>>=◌}

-- `any`, as `json.Unmarshal` and `starlarkValueToGo` fill it; `other` is a type that neither gives.
mutual
  pub data GoValue : Type 0 where
    null : GoValue
    bool : Bool → GoValue
    float64 : ℕ → GoValue
    int64 : ℤ → GoValue
    string : String → GoValue
    slice : GoItems → GoValue
    go_map : GoFields → GoValue
    other : String → GoValue

  pub data GoItems : Type 0 where
    nil : GoItems
    cons : GoValue → GoItems → GoItems

  pub data GoFields : Type 0 where
    end : GoFields
    field : String → GoValue → GoFields → GoFields

-- `starlark.Value`; `foreign` is a type that the program does not convert.
mutual
  pub data StarValue : Type 0 where
    none_type : StarValue
    star_bool : Bool → StarValue
    int : ℤ → StarValue
    float : ℕ → StarValue
    star_string : String → StarValue
    star_list : StarItems → StarValue
    dict : Entries → StarValue
    foreign : String → StarValue

  pub data StarItems : Type 0 where
    star_nil : StarItems
    star_cons : StarValue → StarItems → StarItems

  pub data Entries : Type 0 where
    no_entry : Entries
    entry : StarValue → StarValue → Entries → Entries

abbrev pub has_entry : String → Entries → Bool
has_entry k no_entry = false
has_entry k (entry (star_string j) v r) = j == k || has_entry k r
has_entry k (entry _ v r) = has_entry k r

abbrev pub add_entry : Entries → String → StarValue → Entries
add_entry no_entry k v = entry (star_string k) v no_entry
add_entry (entry j w r) k v = entry j w (add_entry r k v)

-- What the program uses of go.starlark.net: `Dict.SetKey` with a string key and `Int.Int64`.
-- A dict keeps its items in the order of insertion.
pub record Starlark : Type 0 where
  pub set_key : Entries → String → StarValue → Result Entries
  pub to_int64 : ℤ → Option ℤ
  pub set_key_new :
      (d : Entries) (k : String) (v : StarValue)
      → has_entry k d ≡ false
      → set_key d k v ≡ ok (add_entry d k v)

-- m[key] = val on a Go map
unfoldable pub put_field : GoFields → String → GoValue → GoFields
put_field end k v = field k v end
put_field (field j w m) k v = if j == k then field k v m else field j w (put_field m k v)

-- `starlark.AsString`
abbrev pub as_string : StarValue → Option String
as_string (star_string s) = some s
as_string _ = none

-- `Value.Type`, which the messages name
abbrev pub type_name : StarValue → String
type_name none_type = "NoneType"
type_name (star_bool b) = "bool"
type_name (int n) = "int"
type_name (float x) = "float"
type_name (star_string s) = "string"
type_name (star_list l) = "list"
type_name (dict d) = "dict"
type_name (foreign t) = t

module _ (s : Starlark) where
  -- `goValueToStarlark`; `go_items` is its loop over a slice and `go_fields` the loop of
  -- `goMapToStarlarkDict`
  unfoldable mutual
    pub go_value_to_starlark : GoValue → Result StarValue
    go_value_to_starlark null = ok none_type
    go_value_to_starlark (bool b) = ok (star_bool b)
    go_value_to_starlark (float64 x) = ok (float x)
    go_value_to_starlark (string t) = ok (star_string t)
    go_value_to_starlark (go_map m) = go_fields no_entry m >>= λ d. ok (dict d)
    go_value_to_starlark (slice l) = go_items 0 l >>= λ elems. ok (star_list elems)
    go_value_to_starlark (int64 n) = err (errorf "unsupported type %T" ("int64" ∷ []))
    go_value_to_starlark (other t) = err (errorf "unsupported type %T" (t ∷ []))

    pub go_items : ℕ → GoItems → Result StarItems
    go_items i nil = ok star_nil
    go_items i (cons v l) =
        wrap_err "[%d]: %w" (format_nat i ∷ []) (go_value_to_starlark v) >>= λ e.
        go_items (suc i) l >>= λ elems. ok (star_cons e elems)

    pub go_fields : Entries → GoFields → Result Entries
    go_fields d end = ok d
    go_fields d (field k v m) = wrap_err "key %q: %w" (k ∷ []) (go_value_to_starlark v) >>= λ sv.
        s.set_key d k sv >>= λ d'. go_fields d' m

  -- `goMapToStarlarkDict`
  unfoldable pub go_map_to_starlark_dict : GoFields → Result Entries
  unfolding go_value_to_starlark
  go_map_to_starlark_dict m = go_fields no_entry m

  -- `starlarkValueToGo`; `star_entries` is the loop of `starlarkDictToGoMap`, from the map `m` on
  unfoldable mutual
    unfolding put_field

    pub starlark_value_to_go : StarValue → Result GoValue
    starlark_value_to_go none_type = ok null
    starlark_value_to_go (star_bool b) = ok (bool b)
    starlark_value_to_go (int n) = elim (s.to_int64 n) [
      | none ↦ err (errorf "int value overflows int64" [])
      | some i ↦ ok (int64 i)
    ]
    starlark_value_to_go (float x) = ok (float64 x)
    starlark_value_to_go (star_string t) = ok (string t)
    starlark_value_to_go (dict d) = star_entries end d >>= λ m. ok (go_map m)
    starlark_value_to_go (star_list l) = star_items 0 l >>= λ elems. ok (slice elems)
    starlark_value_to_go (foreign t) = err (errorf "unsupported starlark type %s" (t ∷ []))

    pub star_items : ℕ → StarItems → Result GoItems
    star_items i star_nil = ok nil
    star_items i (star_cons v l) =
        wrap_err "[%d]: %w" (format_nat i ∷ []) (starlark_value_to_go v) >>= λ e.
        star_items (suc i) l >>= λ elems. ok (cons e elems)

    pub star_entries : GoFields → Entries → Result GoFields
    star_entries m no_entry = ok m
    star_entries m (entry k v d) = elim (as_string k) [
      | none ↦ err (errorf "non-string dict key: %s" (type_name k ∷ []))
      | some key ↦ wrap_err "key %q: %w" (key ∷ []) (starlark_value_to_go v) >>= λ val.
          star_entries (put_field m key val) d
    ]

  -- `starlarkDictToGoMap`
  unfoldable pub starlark_dict_to_go_map : Entries → Result GoFields
  unfolding starlark_value_to_go
  starlark_dict_to_go_map d = star_entries end d
