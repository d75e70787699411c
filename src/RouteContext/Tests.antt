-- ===== src/RouteContext/Tests.antt =====
-- A cache of two answers with room for two, and a rejection that is running out.
use confidential_model_route.Common.{
  ℕ, ◌≤◌, ◌≡◌, refl, true, false, none, some, List, [], ◌∷◌, arith, text, text_eq,
}
use confidential_model_route.Common.Int.{pos}
use confidential_model_route.RouteContext.{
  RateLimit, empty_context, decision_rejected, rate_limit_valid, quota_valid, RouteContext,
  apply_rate_decision, apply_priority, priority_path, skips_queue, decision_demote, priority_of,
  Fields, remove, assign,
}
use confidential_model_route.Json.{int, Fields, field, end, remove, assign}
use confidential_model_route.RouteContext.Cache.{
  Key, Entry, Cache, key_eq, find, entry_size, evict, insert, put, get, without,
}
use confidential_model_route.RouteContext.Cache.Eviction.{Distinct, floor_of}
use confidential_model_route.RouteContext.Cache.Bytes.{IsBounded, put-IsBounded}
use confidential_model_route.RouteContext.Cache.History.{
  Op, store, look_up, step, run, ideal_run, run-Refines,
}
use confidential_model_route.RouteContext.Cache.Ideal.{Refines, find-Refines}
use confidential_model_route.RouteContext.Cache.Freshness.{floor_of-put}

abbrev key_of : ℕ → Key
key_of n = record { credential = n ∷ []; model = [] }

abbrev entry_of : ℕ → ℕ → Entry
entry_of n sequence = record {
  key = key_of n;
  resolved = empty_context;
  error = none;
  sequence = sequence;
  bytes = 1024;
}

abbrev cache : Cache
cache = record {
  entries = entry_of 1 4 ∷ entry_of 2 5 ∷ [];
  bytes = 2048;
  max_bytes = 2050;
  evicted_sequence = 0;
}

-- After a third answer: the first is evicted.
abbrev cache_after : Cache
cache_after = record cache { entries = entry_of 2 5 ∷ entry_of 3 6 ∷ []; evicted_sequence = 4 }

cache-IsBounded : IsBounded cache
cache-IsBounded = record { counted = refl; bounded = omega arith }

cache-Distinct : Distinct cache.entries
unfolding find key_eq text_eq
cache-Distinct = (refl, (refl, tt))

stored : put (key_of 3) empty_context none 6 cache ≡ some cache_after
unfolding put entry_size find key_eq text_eq insert evict
stored = refl

put-IsBounded_example :
    (d : Cache) × (put (key_of 3) empty_context none 6 cache ≡ some d) × IsBounded d
put-IsBounded_example = put-IsBounded (key_of 3) empty_context none 6 cache cache-IsBounded

floor_of-put_example :
    (floor_of (key_of 1) cache.entries 0 ≤ floor_of (key_of 1) cache_after.entries 4)
    × Distinct cache_after.entries
floor_of-put_example =
    floor_of-put (key_of 3) empty_context none 6 cache cache_after cache-Distinct stored (key_of 1)

abbrev rejection : RateLimit
rejection = record {
  decision = decision_rejected;
  reason = text "tokens";
  retry_after_seconds = some (pos 30);
  requests = none;
  tokens = none;
  observed_at = 0;
}

is_valid : rate_limit_valid (some rejection) ≡ true
unfolding rate_limit_valid quota_valid text_eq
is_valid = refl

refuses : apply_rate_decision rejection ≡ some (some (pos 30), true)
unfolding apply_rate_decision text_eq
refuses = refl

abbrev demoted_context : RouteContext
demoted_context = record empty_context {
  rate_limit = some (record rejection { decision = decision_demote });
}

-- The client asks for the priority 9.
abbrev request : Fields
request = field (text "priority") (int (pos 9)) end

abbrev demoted_request : Fields
demoted_request = field (text "priority") (int (pos 1)) end

demotes :
    apply_priority demoted_context (text "/v1/responses") (some request) ≡ some demoted_request
unfolding apply_priority priority_path priority_of text_eq remove assign
demotes = refl

waits : skips_queue demoted_context ≡ false
unfolding skips_queue
waits = refl

-- A hit moves its entry to the front.
hit :
    get 0 (key_of 1) cache
    ≡ some ((empty_context, none), record cache { entries = entry_of 2 5 ∷ entry_of 1 4 ∷ [] })
unfolding get find without key_eq text_eq
hit = refl

abbrev history : List Op
history = store (key_of 3) empty_context none 6 ∷ look_up 0 (key_of 1) ∷ []

history_runs : run history cache ≡ some cache_after
unfolding run step get put entry_size find key_eq text_eq insert evict
history_runs = refl

run-Refines_example : Refines cache_after (ideal_run 2050 history (λ k. find k cache.entries))
run-Refines_example =
    run-Refines history cache cache_after (λ k. find k cache.entries)
      (find-Refines cache cache-Distinct) history_runs
