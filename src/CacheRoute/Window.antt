-- ===== src/CacheRoute/Window.antt =====
-- The prefix window: how many bytes of the prompt reach the routing key, and that what lies beyond
-- them does not.
use confidential_model_route.Common.{
  ℕ, zero, suc, ◌+◌, ◌-◌, ◌≤◌, ◌≡◌, refl, ap, ◌∷◌, ◌++◌, arith, length, take, length-append,
  length-take, Text, [],
}
use confidential_model_route.Json.{
  Value, null, bool, number, float, str, int, arr, obj, Items, nil, cons, Fields, end, field,
}
use confidential_model_route.CacheSalt.{frame, uint32_be}
use confidential_model_route.CacheRoute.{
  append_framed, append_value, append_items, append_fields, sorted_value, flatten_value,
  prefix_window_cap, PromptFields, key_payload, format_bool,
}

length-frame : (s : Text) → length (frame s) ≡ 4 + length s
unfolding frame uint32_be
length-frame s = omega arith

append_framed_bound : (b : ℕ) (buf s : Text) → length buf ≤ b → length (append_framed b buf s) ≤ b
unfolding append_framed
append_framed_bound b buf s h =
    let room = b - length buf - 4 in
    ground (
      arith,
      length-append buf (frame (take room s)),
      length-frame (take room s),
      length-take room s,
    )

mutual
  unfolding append_value append_items append_fields

  append_value_bound :
      (b : ℕ) (buf : Text) (v : Value) → length buf ≤ b → length (append_value b buf v) ≤ b
  append_value_bound b buf null h = h
  append_value_bound b buf (bool x) h = ground (arith, append_framed_bound b buf (format_bool x))
  append_value_bound b buf (number s) h = ground (arith, append_framed_bound b buf s)
  append_value_bound b buf (float s) h = ground (arith, append_framed_bound b buf s)
  append_value_bound b buf (str s) h = ground (arith, append_framed_bound b buf s)
  append_value_bound b buf (int n) h = h
  append_value_bound b buf (arr xs) h = append_items_bound b buf xs h
  append_value_bound b buf (obj m) h = append_fields_bound b buf m h

  append_items_bound :
      (b : ℕ) (buf : Text) (xs : Items) → length buf ≤ b → length (append_items b buf xs) ≤ b
  append_items_bound b buf nil h = h
  append_items_bound b buf (cons x xs) h =
      let rest = append_items_bound b (append_value b buf x) xs (append_value_bound b buf x h) in
      ground (arith, rest)

  append_fields_bound :
      (b : ℕ) (buf : Text) (m : Fields) → length buf ≤ b → length (append_fields b buf m) ≤ b
  append_fields_bound b buf end h = h
  append_fields_bound b buf (field k v m) h =
      let key = append_framed_bound b buf k h in
      let rest =
        append_fields_bound b (append_value b (append_framed b buf k) v) m
          (append_value_bound b (append_framed b buf k) v key) in
      ground (arith, rest)

-- A flattened value is never longer than its budget, however large the value is.
pub flatten_value_bound : (b : ℕ) (v : Value) → length (flatten_value b v) ≤ b
unfolding flatten_value
flatten_value_bound b v = ground (arith, append_value_bound b [] (sorted_value v))

take-append : (n : ℕ) (s x : Text) → n ≤ length s → take n (s ++ x) ≡ take n s
take-append zero s x h = refl
take-append (suc n) [] x h = absurd (omega arith)
take-append (suc n) (c ∷ s) x h = ap (◌∷◌ c) (take-append n s x (omega arith))

flatten_value-str :
    (b : ℕ) (s x : Text)
    → b ≤ length s + 4
    → flatten_value b (str (s ++ x)) ≡ flatten_value b (str s)
unfolding flatten_value append_value sorted_value append_framed
flatten_value-str b s x h = ground (arith, take-append (b - 0 - 4) s x)

-- A prompt may go on growing behind its first 1,020 bytes of user text: what is hashed into its
-- routing key stays the same.
pub key_payload-grows :
    (secret salt cache_key : Text) (tools system : Value) (s x : Text)
    → prefix_window_cap ≤ length s + 4
    → key_payload secret salt cache_key
        (record { tools = tools; system = system; user = str (s ++ x) })
      ≡ key_payload secret salt cache_key (record { tools = tools; system = system; user = str s })
unfolding key_payload
key_payload-grows secret salt cache_key tools system s x h =
    let t = flatten_value prefix_window_cap tools in
    let y = flatten_value (prefix_window_cap - length t) system in
    rw (flatten_value-str (prefix_window_cap - length t - length y) s x (omega arith))

-- The flattened tools, system prompt and user message together fit the window of 1,024 bytes.
pub window_bound :
    (f : PromptFields)
    → let tools = flatten_value prefix_window_cap f.tools in
      let system = flatten_value (prefix_window_cap - length tools) f.system in
      let user = flatten_value (prefix_window_cap - length tools - length system) f.user in
      length tools + length system + length user ≤ prefix_window_cap
window_bound f =
    let tools = flatten_value prefix_window_cap f.tools in
    let system = flatten_value (prefix_window_cap - length tools) f.system in
    omega (
      arith,
      flatten_value_bound prefix_window_cap f.tools,
      flatten_value_bound (prefix_window_cap - length tools) f.system,
      flatten_value_bound (prefix_window_cap - length tools - length system) f.user,
    )
