-- ===== src/JobIndex/Sessions.antt =====
-- src/job-index.ts: the ordered list of a session's jobs.
use codex_job_orchestrator.Common.{
  dict_get, dict_set, dict_delete, ℕ, zero, suc, ◌+◌, ◌-◌, ◌/◌, String, Bool, true, false, not,
  ◌&&◌, Option, none, some, List, [], ◌∷◌, str_eq, Dict, length, any, ltb, if◌then◌else◌, text_lt,
}
use codex_job_orchestrator.JobIndex.Types.{IndexedJob}

abbrev pub contains : String → List String → Bool
contains x xs = any (str_eq x) xs

abbrev pub get_elem? : List String → ℕ → Option String
get_elem? [] n = none
get_elem? (x ∷ xs) zero = some x
get_elem? (x ∷ xs) (suc n) = get_elem? xs n

-- `list.splice(n, 0, x)`.
abbrev pub insert_at : ℕ → String → List String → List String
insert_at zero x xs = x ∷ xs
insert_at (suc n) x [] = x ∷ []
insert_at (suc n) x (y ∷ ys) = y ∷ insert_at n x ys

-- `list.splice(list.indexOf(x), 1)`, where x is in the list.
unfoldable pub remove_first : String → List String → List String
remove_first x [] = []
remove_first x (y ∷ ys) = let rest = remove_first x ys in if str_eq x y then ys else y ∷ rest

abbrev pub drop : ℕ → List String → List String
drop zero xs = xs
drop (suc n) [] = []
drop (suc n) (x ∷ xs) = drop n xs

-- `target < mid.startedAt`, or level and the smaller id.
unfoldable pub goes_before : String → String → IndexedJob → String → Bool
goes_before target id m mid =
    if text_lt target m.started_at
    then true
    else if text_lt m.started_at target
    then false
    else text_lt id mid

abbrev with_id : String → Option IndexedJob → Option (String × IndexedJob)
with_id id none = none
with_id id (some r) = some (id, r)

abbrev pub record_at : Dict IndexedJob → Option String → Option (String × IndexedJob)
record_at d none = none
record_at d (some id) = with_id id (dict_get id d)

abbrev pub goes_left : IndexedJob → Option (String × IndexedJob) → Bool
goes_left job none = false
goes_left job (some (id, m)) = goes_before job.started_at job.job_id m id

-- The loop `while (lo < hi)`, on as much fuel as there are entries between lo and hi.
unfoldable pub find_place : ℕ → IndexedJob → List String → Dict IndexedJob → ℕ → ℕ → ℕ
unfolding goes_before
find_place zero job list d lo hi = lo
find_place (suc fuel) job list d lo hi =
    let mid = (lo + hi) / 2 in
    let left = find_place fuel job list d lo mid in
    let right = find_place fuel job list d (suc mid) hi in
    if ltb lo hi
    then (if goes_left job (record_at d (get_elem? list mid)) then left else right)
    else lo

unfoldable pub sorted_insert : List String → IndexedJob → Dict IndexedJob → Bool → List String
unfolding find_place
sorted_insert list job d known_absent =
    if not known_absent && contains job.job_id list
    then list
    else insert_at (find_place (length list) job list d 0 (length list)) job.job_id list

abbrev pub session_order_cap : ℕ
session_order_cap = 10000

-- `list.splice(0, list.length - cap)` when the list is longer than the cap.
abbrev trim : List String → List String
trim xs = drop (length xs - session_order_cap) xs

abbrev pub inserted : Option (List String) → IndexedJob → Dict IndexedJob → Bool → List String
inserted none job d known_absent = job.job_id ∷ []
inserted (some list) job d known_absent = sorted_insert list job d known_absent

abbrev pub inserted_trimmed :
    Option (List String) → IndexedJob → Dict IndexedJob → Bool → List String
inserted_trimmed none job d known_absent = job.job_id ∷ []
inserted_trimmed (some list) job d known_absent = trim (sorted_insert list job d known_absent)

-- An entry goes with its last job.
abbrev pub set_or_delete : String → List String → Dict (List String) → Dict (List String)
set_or_delete k [] d = dict_delete k d
set_or_delete k (x ∷ xs) d = dict_set k (x ∷ xs) d

abbrev pub without :
    String → String → Option (List String) → Dict (List String) → Dict (List String)
without k x none d = d
without k x (some list) d = set_or_delete k (remove_first x list) d

-- A job that is in its session's list is taken out of it and put in again.
abbrev pub moved :
    IndexedJob → Option (List String) → Dict IndexedJob → Dict (List String) → Dict (List String)
moved rec none by_id d = d
moved rec (some list) by_id d =
    if contains rec.job_id list
    then dict_set rec.session_id (sorted_insert (remove_first rec.job_id list) rec by_id true) d
    else d
