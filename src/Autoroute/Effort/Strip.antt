-- ===== src/Autoroute/Effort/Strip.antt =====
-- autoroute/autoroute.go: what ApplyEffort takes out of the body of the client.
use confidential_model_route.Common.{
  ◌≡◌, refl, sym, ap, ◌∙◌, inl, inr, true, false, Option, none, some, arith, if◌then◌else◌,
  Bool-cases, Text, text_eq, text_eq-eq, text_eq_refl, text_eq_iff,
}
use confidential_model_route.Json.{
  Value, Fields, obj, arr, number, float, str, null, bool, int, end, field, lookup, remove, assign,
  lookup-remove, lookup-assign,
}
use confidential_model_route.Autoroute.Effort.{
  client_effort_field, client_reasoning_field, client_effort_key, strip_reasoning,
  strip_client_effort,
}

remove-assign : (k : Text) (v : Value) (m : Fields) → remove k (assign k v m) ≡ remove k m
unfolding remove assign
remove-assign k v end = rw (text_eq_refl k) refl
remove-assign k v (field j w m) = ground (arith, remove-assign k v m, text_eq_iff j k)

remove-assign_other :
    (k j : Text) (v : Value) (m : Fields)
    → text_eq j k ≡ false
    → remove j (assign k v m) ≡ assign k v (remove j m)
unfolding remove assign
remove-assign_other k j v end h = ground (arith, h, text_eq_iff j k, text_eq_iff k j)
remove-assign_other k j v (field i w m) h = ground (
  arith,
  h,
  remove-assign_other k j v m h,
  text_eq_iff i k,
  text_eq_iff i j,
  text_eq_iff j k,
  text_eq_iff k j,
)

assign-assign : (k : Text) (v w : Value) (m : Fields) → assign k v (assign k w m) ≡ assign k v m
unfolding assign
assign-assign k v w end = rw (text_eq_refl k) refl
assign-assign k v w (field j u m) = ground (arith, assign-assign k v w m, text_eq_iff j k)

-- What becomes of `reasoning` when the client's effort is out of it.
abbrev put_back : Fields → Fields → Fields
put_back end body = remove client_reasoning_field body
put_back (field k v m) body = assign client_reasoning_field (obj (field k v m)) body

strip_reasoning_of :
    (m body x : Fields)
    → remove client_effort_key m ≡ x
    → strip_reasoning (assign client_reasoning_field (obj m) body) ≡ put_back x body
unfolding strip_reasoning
strip_reasoning_of m body end e =
    let l : lookup client_reasoning_field (assign client_reasoning_field (obj m) body)
        ≡ some (obj m) =
      rw
        (
          lookup-assign client_reasoning_field client_reasoning_field (obj m) body,
          text_eq_refl client_reasoning_field,
        )
        refl in
    rw (l, e, strip_reasoning) (remove-assign client_reasoning_field (obj m) body)
strip_reasoning_of m body (field k v m') e =
    let l : lookup client_reasoning_field (assign client_reasoning_field (obj m) body)
        ≡ some (obj m) =
      rw
        (
          lookup-assign client_reasoning_field client_reasoning_field (obj m) body,
          text_eq_refl client_reasoning_field,
        )
        refl in
    rw (l, e, strip_reasoning)
      (assign-assign client_reasoning_field (obj (field k v m')) (obj m) body)

strip_reasoning-assign :
    (w : Value) (options body : Fields)
    → strip_reasoning
        (assign client_reasoning_field (obj (assign client_effort_key w options)) body)
      ≡ strip_reasoning (assign client_reasoning_field (obj options) body)
strip_reasoning-assign w options body =
    strip_reasoning_of (assign client_effort_key w options) body (remove client_effort_key options)
      (remove-assign client_effort_key w options)
    ∙ sym (strip_reasoning_of options body (remove client_effort_key options) refl)

not_same : text_eq client_effort_field client_reasoning_field ≡ false
unfolding text_eq
not_same = refl

pub strip-effort_field :
    (v : Value) (body : Fields)
    → strip_client_effort (assign client_effort_field v body) ≡ strip_client_effort body
unfolding strip_client_effort
strip-effort_field v body = ap strip_reasoning (remove-assign client_effort_field v body)

pub strip-effort_key :
    (w : Value) (options body : Fields)
    → strip_client_effort
        (assign client_reasoning_field (obj (assign client_effort_key w options)) body)
      ≡ strip_client_effort (assign client_reasoning_field (obj options) body)
unfolding strip_client_effort
strip-effort_key w options body =
    ap strip_reasoning (
      remove-assign_other client_reasoning_field client_effort_field
        (obj (assign client_effort_key w options)) body not_same)
    ∙ strip_reasoning-assign w options (remove client_effort_field body)
    ∙ ap strip_reasoning (
        sym (
          remove-assign_other client_reasoning_field client_effort_field (obj options) body
            not_same))

-- What is left of the client's `reasoning`: an object loses its effort, and goes if it is empty
-- then; any other value stays.
abbrev object_left : Fields → Option Value
object_left end = none
object_left (field k v m) = some (obj (field k v m))

abbrev pub reasoning_left : Option Value → Option Value
reasoning_left (some (obj m)) = object_left (remove client_effort_key m)
reasoning_left o = o

stripped_object :
    (k : Text) (m options x : Fields)
    → lookup client_reasoning_field m ≡ some (obj options)
    → remove client_effort_key options ≡ x
    → lookup k (strip_reasoning m)
      ≡ (if text_eq client_reasoning_field k then object_left x else lookup k m)
unfolding strip_reasoning
stripped_object k m options end e r =
    rw (e, r, strip_reasoning) (lookup-remove client_reasoning_field k m)
stripped_object k m options (field j v x) e r =
    rw (e, r, strip_reasoning) (lookup-assign client_reasoning_field k (obj (field j v x)) m)

untouched :
    (k : Text) (m : Fields) (o : Option Value)
    → lookup client_reasoning_field m ≡ o
    → lookup k m ≡ (if text_eq client_reasoning_field k then o else lookup k m)
untouched k m o e = elim (Bool-cases (text_eq client_reasoning_field k)) [
  | inl b ↦ rw (b, ← text_eq-eq client_reasoning_field k b) e
  | inr b ↦ rw b refl
]

lookup-strip_reasoning :
    (k : Text) (m : Fields) (o : Option Value)
    → lookup client_reasoning_field m ≡ o
    → lookup k (strip_reasoning m)
      ≡ (if text_eq client_reasoning_field k then reasoning_left o else lookup k m)
unfolding strip_reasoning
lookup-strip_reasoning k m (some (obj options)) e =
    stripped_object k m options (remove client_effort_key options) e refl
lookup-strip_reasoning k m none e = rw (e, strip_reasoning) (untouched k m none e)
lookup-strip_reasoning k m (some null) e = rw (e, strip_reasoning) (untouched k m (some null) e)
lookup-strip_reasoning k m (some (bool b)) e =
    rw (e, strip_reasoning) (untouched k m (some (bool b)) e)
lookup-strip_reasoning k m (some (number t)) e =
    rw (e, strip_reasoning) (untouched k m (some (number t)) e)
lookup-strip_reasoning k m (some (float t)) e =
    rw (e, strip_reasoning) (untouched k m (some (float t)) e)
lookup-strip_reasoning k m (some (str t)) e =
    rw (e, strip_reasoning) (untouched k m (some (str t)) e)
lookup-strip_reasoning k m (some (int n)) e =
    rw (e, strip_reasoning) (untouched k m (some (int n)) e)
lookup-strip_reasoning k m (some (arr vs)) e =
    rw (e, strip_reasoning) (untouched k m (some (arr vs)) e)

not_same_either :
    (k : Text) → text_eq client_effort_field k ≡ true → text_eq client_reasoning_field k ≡ false
unfolding text_eq
not_same_either k h = rw (← text_eq-eq client_effort_field k h) refl

pub lookup-strip :
    (k : Text) (body : Fields)
    → lookup k (strip_client_effort body) ≡ (
        if text_eq client_effort_field k
        then none
        else if text_eq client_reasoning_field k
        then reasoning_left (lookup client_reasoning_field body)
        else lookup k body)
unfolding strip_client_effort
lookup-strip k body =
    let m = remove client_effort_field body in
    let e : lookup client_reasoning_field m ≡ lookup client_reasoning_field body =
      lookup-remove client_effort_field client_reasoning_field body ∙ rw not_same refl in
    lookup-strip_reasoning k m (lookup client_reasoning_field body) e
    ∙ elim (Bool-cases (text_eq client_effort_field k)) [
      | inl b ↦ rw (b, not_same_either k b, lookup-remove client_effort_field k body, b) refl
      | inr b ↦ rw (lookup-remove client_effort_field k body, b) refl
    ]
