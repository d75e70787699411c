-- ===== src/Shadow/Tests.antt =====
-- One key that is seen, and swept when it has expired.
use confidential_model_route.Common.{
  ℕ, ◌+◌, ◌≡◌, refl, false, some, [], ◌∷◌, Text, text_eq, map_at, map_delete,
}
use confidential_model_route.Common.Int.{pos}
use confidential_model_route.Hrw.{Decision}
use confidential_model_route.Shadow.{
  Entry, Shadow, minute, bump_rate, group_eq, count_at, without_group, drop_count, add_count,
  shift_count, keys_at, set_keys, without_key, touch, evict, back, oldest_of, make_room, insert,
}
use confidential_model_route.Shadow.Observe.{
  Knobs, first_seen, repeat_warm, still_warm, look_up, placed, observe_keyed,
}
use confidential_model_route.Shadow.Sweep.{
  sweep_list, without_list, retentions, sweep_lists, sweep_pass,
}
use confidential_model_route.Shadow.Counts.{tally}
use confidential_model_route.Shadow.Table.{IsCounted}
use confidential_model_route.Shadow.Observe.Counted.{observe_keyed-IsCounted}
use confidential_model_route.Shadow.Sweep.Counted.{sweep_pass-IsCounted}

abbrev model_of : Text → Text
model_of k = 109 ∷ []

abbrev empty : Shadow
empty = record { entries = []; lists = []; counts = []; max_keys = 1 }

abbrev knobs : Knobs
knobs = record { retention = 600; split_threshold = minute; max_inflight_delta = pos 1 }

abbrev decision : Decision
decision = record { order = (97 ∷ []) ∷ []; home = 97 ∷ []; r = 1; demoted = false }

abbrev seen_at : ℕ → Entry
seen_at now = record {
  model = 109 ∷ [];
  last_seen = now;
  expiry = now + 2400;
  warm = (97 ∷ [], now) ∷ [];
  window_start = some 0;
  prev_count = 0;
  cur_count = 1;
  home = 97 ∷ [];
  r = 1;
  retention = 600;
}

abbrev table_of : Text → ℕ → Shadow
table_of k now = record {
  entries = (k, seen_at now) ∷ [];
  lists = (600, k ∷ []) ∷ [];
  counts = (record { model = 109 ∷ []; home = 97 ∷ []; r = 1 }, 1) ∷ [];
  max_keys = 1;
}

empty-IsCounted : IsCounted model_of empty
unfolding count_at tally map_at
empty-IsCounted = record { distinct = tt; owned = λ k e h. cc; counted = λ g named. refl }

-- The second key evicts the first.
first_key :
    observe_keyed (λ h. 0) (109 ∷ []) (1 ∷ []) [] (97 ∷ []) (some decision) knobs 5 empty
    ≡ some (first_seen, table_of (1 ∷ []) 5)
unfolding observe_keyed look_up insert make_room map_at map_delete keys_at set_keys bump_rate placed
    shift_count add_count drop_count count_at without_group group_eq text_eq
first_key = refl

second_key :
    observe_keyed
      (λ h. 0)
      (109 ∷ [])
      (2 ∷ [])
      []
      (97 ∷ [])
      (some decision)
      knobs
      9
      (table_of (1 ∷ []) 5)
    ≡ some (first_seen, table_of (2 ∷ []) 9)
unfolding observe_keyed look_up insert make_room map_at map_delete keys_at set_keys without_key
    bump_rate placed shift_count add_count drop_count count_at without_group group_eq text_eq
    oldest_of back evict
second_key = refl

first-IsCounted : IsCounted model_of (table_of (1 ∷ []) 5)
first-IsCounted =
    observe_keyed-IsCounted model_of (λ h. 0) (1 ∷ []) [] (97 ∷ []) (some decision) knobs 5 empty
      (table_of (1 ∷ []) 5) first_seen empty-IsCounted first_key

observe_keyed-IsCounted_example : IsCounted model_of (table_of (2 ∷ []) 9)
observe_keyed-IsCounted_example =
    observe_keyed-IsCounted model_of (λ h. 0) (2 ∷ []) [] (97 ∷ []) (some decision) knobs 9
      (table_of (1 ∷ []) 5) (table_of (2 ∷ []) 9) first_seen first-IsCounted second_key

swept : sweep_pass 9000 (table_of (1 ∷ []) 5) ≡ some (false, empty)
unfolding sweep_pass sweep_lists sweep_list retentions back map_at evict map_delete keys_at set_keys
    without_key without_list shift_count drop_count count_at without_group group_eq text_eq
swept = refl

sweep_pass-IsCounted_example : IsCounted model_of empty
sweep_pass-IsCounted_example =
    sweep_pass-IsCounted model_of 9000 (table_of (1 ∷ []) 5) empty false first-IsCounted swept

warm_again :
    look_up (109 ∷ []) (1 ∷ []) (97 ∷ []) 10 600 (table_of (1 ∷ []) 5)
    ≡ some (repeat_warm, seen_at 5, table_of (1 ∷ []) 5)
unfolding look_up touch map_at keys_at set_keys without_key still_warm text_eq
warm_again = refl
