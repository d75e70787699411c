-- ===== src/Json.antt =====
-- Parsed request bodies: Go's `any` values as `encoding/json` with `UseNumber` leaves them. A
-- json.Number is its text; a float64 is the text that `strconv.FormatFloat(x, 'g', -1, 64)`, which
-- is not this code, renders; `int` is an int or an int64 that the router stored.
-- A map is an association list; a lookup finds the first entry.
use confidential_model_route.Common.{
  ◌≡◌, refl, Bool, Option, none, some, arith, if◌then◌else◌, Text, text_eq, text_eq_iff, [],
}
use confidential_model_route.Common.Int.{ℤ}

mutual
  pub data Value : Type 0 where
    null : Value
    bool : Bool → Value
    number : Text → Value
    float : Text → Value
    str : Text → Value
    int : ℤ → Value
    arr : Items → Value
    obj : Fields → Value

  pub data Items : Type 0 where
    nil : Items
    cons : Value → Items → Items

  pub data Fields : Type 0 where
    end : Fields
    field : Text → Value → Fields → Fields

-- `m[k]` with its presence
unfoldable pub lookup : Text → Fields → Option Value
lookup k end = none
lookup k (field j v m) = if text_eq j k then some v else lookup k m

-- `delete(m, k)`
unfoldable pub remove : Text → Fields → Fields
remove k end = end
remove k (field j v m) = let rest = remove k m in if text_eq j k then rest else field j v rest

-- `m[k] = v`
unfoldable pub assign : Text → Value → Fields → Fields
assign k v end = field k v end
assign k v (field j w m) = if text_eq j k then field j v m else field j w (assign k v m)

-- `m[k].(string)`, the empty text if it is none
unfoldable pub string_at : Text → Fields → Text
unfolding lookup
string_at k m = elim (lookup k m) [ some (str s) ↦ s | _ ↦ [] ]

-- `m[k]`, nil if missing
unfoldable pub value_at : Text → Fields → Value
unfolding lookup
value_at k m = elim (lookup k m) [ some v ↦ v | none ↦ null ]

pub lookup-remove :
    (k j : Text) (m : Fields) → lookup j (remove k m) ≡ (if text_eq k j then none else lookup j m)
unfolding lookup remove
lookup-remove k j end = ground arith
lookup-remove k j (field i v m) =
    ground (arith, lookup-remove k j m, text_eq_iff i k, text_eq_iff i j, text_eq_iff k j)

pub lookup-assign :
    (k j : Text) (v : Value) (m : Fields)
    → lookup j (assign k v m) ≡ (if text_eq k j then some v else lookup j m)
unfolding lookup assign
lookup-assign k j v end = refl
lookup-assign k j v (field i w m) =
    ground (arith, lookup-assign k j v m, text_eq_iff i k, text_eq_iff i j, text_eq_iff k j)

pub ruleset field_laws = (lookup-remove, lookup-assign)
