-- ===== src/Shadow.antt =====
-- cacheroute/shadow.go: the bounded table of routing keys and where their requests landed. Times are
-- nanoseconds; the zero time of a window is `none`. A LRU list is the list of its table keys from the
-- front to the back, and the map of lists has an empty list where it has none. The lock is held over
-- each operation. The metrics and the panics that are recovered are left out.
pub mod Rate
pub mod Counts
pub mod Table
pub mod Observe
pub mod Sweep
pub mod Tests
use confidential_model_route.Common.{
  ℕ, ◌+◌, ◌-◌, ◌*◌, ◌/◌, ◌%◌, Bool, true, false, not, ◌&&◌, Option, none, some, List, ◌∷◌, ltb, leb,
  ◌==◌, if◌then◌else◌, length, Text, text_eq, map_at, map_put, map_delete, [],
}

pub record Group : Type 0 where
  pub model : Text
  pub home : Text
  pub r : ℕ

pub record Entry : Type 0 where
  pub model : Text
  pub last_seen : ℕ
  pub expiry : ℕ
  pub warm : List (Text × ℕ)
  pub window_start : Option ℕ
  pub prev_count : ℕ
  pub cur_count : ℕ
  pub home : Text
  pub r : ℕ
  pub retention : ℕ

pub record Shadow : Type 0 where
  pub entries : List (Text × Entry)
  pub lists : List (ℕ × List Text)
  pub counts : List (Group × ℕ)
  pub max_keys : ℕ

abbrev pub minute : ℕ
minute = 60_000_000_000

-- `now.Truncate(time.Minute)`
abbrev pub truncated : ℕ → ℕ
truncated now = now / minute * minute

-- The rate of both functions, in multiples of 1/60,000,000,000 request per minute, so that it is
-- exact: `float64(e.prevCount)*(1-frac) + float64(e.curCount)`.
abbrev pub interpolated : ℕ → ℕ → ℕ → ℕ
interpolated now prev cur = prev * (minute - now % minute) + cur * minute

-- `e.windowStart.Equal(minute)`, and the test for the minute before.
abbrev pub starts_at : ℕ → Option ℕ → Bool
starts_at t none = false
starts_at t (some s) = s == t

abbrev pub starts_before : ℕ → Option ℕ → Bool
starts_before t none = false
starts_before t (some s) = s + minute == t

pub bump_rate : ℕ → Entry → ℕ × Entry
bump_rate now e =
    let m = truncated now in
    let e' =
      if starts_at m e.window_start
      then record e { cur_count = e.cur_count + 1 }
      else if starts_before m e.window_start
      then record e { prev_count = e.cur_count; cur_count = 1; window_start = some m }
      else record e { prev_count = 0; cur_count = 1; window_start = some m } in
    (interpolated now e'.prev_count e'.cur_count, e')

pub peek_rate : ℕ → Entry → ℕ
peek_rate now e =
    let m = truncated now in
    if starts_at m e.window_start
    then interpolated now e.prev_count e.cur_count
    else if starts_before m e.window_start
    then interpolated now e.cur_count 0
    else 0

pub group_eq : Group → Group → Bool
group_eq a b = text_eq a.model b.model && text_eq a.home b.home && a.r == b.r

-- `s.counts[g]`
pub count_at : Group → List (Group × ℕ) → ℕ
unfolding group_eq
count_at g [] = 0
count_at g ((k, n) ∷ cs) = if group_eq k g then n else count_at g cs

pub without_group : Group → List (Group × ℕ) → List (Group × ℕ)
unfolding group_eq
without_group g [] = []
without_group g ((k, n) ∷ cs) =
    let rest = without_group g cs in if group_eq k g then rest else (k, n) ∷ rest

-- `s.counts[g]--` with the deletion of what is not positive, and `s.counts[g]++`
pub drop_count : Group → List (Group × ℕ) → List (Group × ℕ)
unfolding count_at without_group
drop_count g cs =
    let n = count_at g cs - 1 in if n == 0 then without_group g cs else (g, n) ∷ without_group g cs

pub add_count : Group → List (Group × ℕ) → List (Group × ℕ)
unfolding count_at without_group
add_count g cs = (g, count_at g cs + 1) ∷ without_group g cs

abbrev pub is_blank {ℓ} : {A : Type ℓ} → List A → Bool
is_blank [] = true
is_blank (x ∷ xs) = false

-- `shiftCountLocked`
pub shift_count : Text → Text → ℕ → Text → ℕ → List (Group × ℕ) → List (Group × ℕ)
unfolding drop_count add_count
shift_count model old_home old_r new_home new_r cs =
    if text_eq old_home new_home && old_r == new_r
    then cs
    else (let left =
          if is_blank old_home
          then cs
          else drop_count (record { model = model; home = old_home; r = old_r }) cs in
        if is_blank new_home
        then left
        else add_count (record { model = model; home = new_home; r = new_r }) left)

pub keys_at : ℕ → List (ℕ × List Text) → List Text
keys_at t [] = []
keys_at t ((u, ks) ∷ ls) = if u == t then ks else keys_at t ls

pub set_keys : ℕ → List Text → List (ℕ × List Text) → List (ℕ × List Text)
set_keys t ks [] = (t, ks) ∷ []
set_keys t ks ((u, js) ∷ ls) = if u == t then (u, ks) ∷ ls else (u, js) ∷ set_keys t ks ls

pub without_key : Text → List Text → List Text
without_key k [] = []
without_key k (j ∷ js) = if text_eq j k then js else j ∷ without_key k js

-- `touchLocked`; the entry is stored by the caller.
pub touch : Text → Entry → ℕ → Shadow → Entry × Shadow
unfolding keys_at set_keys without_key
touch k e retention s =
    let left = without_key k (keys_at e.retention s.lists) in
    if e.retention == retention
    then (e, record s { lists = set_keys e.retention (k ∷ left) s.lists })
    else (let lists' = set_keys e.retention left s.lists in
        (
          record e { retention = retention },
          record s { lists = set_keys retention (k ∷ keys_at retention lists') lists' },
        ))

-- `evictLocked`; `none` is a nil dereference.
pub evict : Text → Shadow → Option Shadow
unfolding shift_count keys_at set_keys without_key
evict k s = elim (map_at k s.entries) [
  | none ↦ none
  | some e ↦ some (record s {
    entries = map_delete k s.entries;
    lists = set_keys e.retention (without_key k (keys_at e.retention s.lists)) s.lists;
    counts = shift_count e.model e.home e.r [] 0 s.counts;
  })
]

pub back : List Text → Option Text
back [] = none
back (k ∷ []) = some k
back (k ∷ j ∷ ks) = back (j ∷ ks)

-- The loop over the lists for the entry that was seen the longest ago, with its time; the outer
-- `none` is a nil dereference.
pub oldest_of :
    List (Text × Entry) → List (ℕ × List Text) → Option (Text × ℕ) → Option (Option (Text × ℕ))
unfolding back
oldest_of entries [] best = some best
oldest_of entries ((t, ks) ∷ ls) best = elim (back ks) [
  | none ↦ oldest_of entries ls best
  | some k ↦ elim (map_at k entries) [
    | none ↦ none
    | some e ↦ oldest_of entries ls (elim best [
      | none ↦ some (k, e.last_seen)
      | some (j, seen) ↦ if ltb e.last_seen seen then some (k, e.last_seen) else some (j, seen)
    ])
  ]
]

-- The eviction in front of an insertion.
pub make_room : Shadow → Option Shadow
unfolding oldest_of evict
make_room s =
    if not (leb s.max_keys (length s.entries))
    then some s
    else (elim (oldest_of s.entries s.lists none) [
      | none ↦ none
      | some none ↦ some s
      | some (some (k, seen)) ↦ evict k s
    ])

abbrev pub new_entry : Text → ℕ → Entry
new_entry model retention = record {
  model = model;
  last_seen = 0;
  expiry = 0;
  warm = [];
  window_start = none;
  prev_count = 0;
  cur_count = 0;
  home = [];
  r = 0;
  retention = retention;
}

-- `insertLocked`
pub insert : Text → Text → ℕ → Shadow → Option (Entry × Shadow)
unfolding make_room keys_at set_keys
insert model k retention s = elim (make_room s) [
  | none ↦ none
  | some s' ↦ some (
    new_entry model retention,
    record s' {
      entries = map_put k (new_entry model retention) s'.entries;
      lists = set_keys retention (k ∷ keys_at retention s'.lists) s'.lists;
    },
  )
]
