-- ===== src/JobEvents.antt =====
-- src/job-events.ts: `JobEventBroker`, which watches the folder of jobs for its subscribers.
-- A listener is named by a number. `path.basename` is a parameter.
pub mod Lifetime
pub mod Dispatch
mod Examples
use codex_job_orchestrator.Common.{
  dict_get, dict_set, dict_delete, ℕ, ◌+◌, String, Bool, true, false, Option, none, some, List, [],
  ◌∷◌, ◌++◌, map, Dict, length, any, ltb, ◌==◌, if◌then◌else◌, is_empty, ends_with,
}
use Prim.Native.Char.{code}

pub record JobEventBroker : Type 0 where
  pub listeners : Dict (List ℕ)
  pub watcher : Bool
  pub fallback : Bool
  pub rebuild_timer : Bool

unfoldable pub new_broker : JobEventBroker
new_broker = record { listeners = []; watcher = false; fallback = false; rebuild_timer = false }

unfoldable pub total_subscribers : Dict (List ℕ) → ℕ
total_subscribers [] = 0
total_subscribers ((id, set) ∷ d) = length set + total_subscribers d

-- What the making of a directory watcher does: the factory answers a watcher or null, or the folders
-- of the runtime cannot be made, which throws.
pub data Create : Type 0 where
  made unavailable dirs_fail : Create

abbrev pub created : Create → JobEventBroker → JobEventBroker
created made b = record b { watcher = true }
created unavailable b = b
created dirs_fail b = b

abbrev pub throws : Create → Bool
throws dirs_fail = true
throws made = false
throws unavailable = false

-- The new broker, and whether the call throws.
unfoldable pub ensure_dir_watcher : Create → JobEventBroker → JobEventBroker × Bool
ensure_dir_watcher c b = if b.watcher then (b, false) else (created c b, throws c)

unfoldable pub ensure_started : Create → JobEventBroker → JobEventBroker × Bool
unfolding ensure_dir_watcher
ensure_started c b =
    let started = ensure_dir_watcher c b in
    if started.1 then started else (record started.0 { fallback = true }, false)

-- `set.add(listener)`.
abbrev pub add_listener : ℕ → Option (List ℕ) → List ℕ
add_listener l none = l ∷ []
add_listener l (some set) = if any (λ k. k == l) set then set else set ++ (l ∷ [])

abbrev pub delete_listener : ℕ → List ℕ → List ℕ
delete_listener l [] = []
delete_listener l (k ∷ set) = let rest = delete_listener l set in if k == l then rest else k ∷ rest

unfoldable pub subscribe : String → ℕ → Create → JobEventBroker → JobEventBroker × Bool
unfolding ensure_started
subscribe id l c b =
    ensure_started c
      (record b { listeners = dict_set id (add_listener l (dict_get id b.listeners)) b.listeners })

unfoldable pub stop_all : JobEventBroker → JobEventBroker
stop_all b = record b { watcher = false; fallback = false; rebuild_timer = false }

abbrev pub kept : String → List ℕ → Dict (List ℕ) → Dict (List ℕ)
kept id [] d = dict_delete id d
kept id (k ∷ set) d = dict_set id (k ∷ set) d

abbrev pub left : String → ℕ → Option (List ℕ) → Dict (List ℕ) → Dict (List ℕ)
left id l none d = d
left id l (some set) d = kept id (delete_listener l set) d

-- The first call of the function that `subscribe` returns; the later ones do nothing.
unfoldable pub unsubscribe : String → ℕ → JobEventBroker → JobEventBroker
unfolding total_subscribers stop_all
unsubscribe id l b =
    let d = left id l (dict_get id b.listeners) b.listeners in
    if total_subscribers d == 0
    then stop_all (record b { listeners = d })
    else record b { listeners = d }

unfoldable pub on_watcher_error : JobEventBroker → JobEventBroker
unfolding total_subscribers
on_watcher_error b = record b {
  watcher = false;
  rebuild_timer = ltb 0 (total_subscribers b.listeners);
}

-- The callback of the rebuild timer.
unfoldable pub rebuild : Create → JobEventBroker → JobEventBroker × Bool
unfolding total_subscribers ensure_dir_watcher
rebuild c b =
    if ltb 0 (total_subscribers b.listeners)
    then ensure_dir_watcher c (record b { rebuild_timer = false })
    else (record b { rebuild_timer = false }, false)

unfoldable pub close : JobEventBroker → JobEventBroker
unfolding stop_all
close b = stop_all (record b { listeners = [] })

-- A call of a listener: which one, the job and the file's name.
abbrev Delivery : Type 0
Delivery = ℕ × String × Option String

abbrev emit_to : String → Option String → Option (List ℕ) → List Delivery
emit_to id name none = []
emit_to id name (some set) = map (λ l. (l, id, name)) set

unfoldable pub emit : JobEventBroker → String → Option String → List Delivery
emit b id name = emit_to id name (dict_get id b.listeners)

check_from : JobEventBroker → Dict (List ℕ) → List Delivery
unfolding emit
check_from b [] = []
check_from b ((id, set) ∷ d) = emit b id none ++ check_from b d

-- What the fallback timer does, too.
check_all : JobEventBroker → List Delivery
unfolding check_from
check_all b = check_from b b.listeners

-- `name.slice(0, dot)` for a dot that is not the first character, else the name.
abbrev pub before_dot : String → String
before_dot String.[] = String.[]
before_dot (String.◌∷◌ c s) =
    let rest = String.◌∷◌ c (before_dot s) in if code c == b'.' then String.[] else rest

abbrev base_of : String → String
base_of name = if is_empty (before_dot name) then name else before_dot name

unfoldable pub on_dir_event : (String → String) → JobEventBroker → Option String → List Delivery
unfolding emit check_all
on_dir_event basename b none = check_all b
on_dir_event basename b (some f) =
    let name = basename f in
    if is_empty f
    then check_all b
    else if ends_with name ".json"
    then emit b (base_of name) (some name)
    else []
