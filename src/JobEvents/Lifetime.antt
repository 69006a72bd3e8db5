-- ===== src/JobEvents/Lifetime.antt =====
-- src/job-events.ts: when the watcher and the timers of the broker are there.
use codex_job_orchestrator.Common.{
  dict_get, dict_set, dict_delete, ℕ, ◌+◌, ◌≤◌, String, ◌≡◌, refl, subst, inl, inr, Bool, true,
  false, Option, none, some, List, [], ◌∷◌, arith, str_eq, Dict, length, All, ltb, ◌==◌,
  if◌then◌else◌, Bool-cases, if_cases,
}
use codex_job_orchestrator.JobEvents.{
  JobEventBroker, new_broker, total_subscribers, Create, created, throws, ensure_dir_watcher,
  ensure_started, add_listener, delete_listener, subscribe, stop_all, kept, left, unsubscribe,
  on_watcher_error, rebuild, close, made, unavailable, dirs_fail,
}

total-dict_set :
    (id : String) (set : List ℕ) (d : Dict (List ℕ))
    → (dict_get id d ≡ none
        → total_subscribers (dict_set id set d) ≡ total_subscribers d + length set)
      × ((old : List ℕ)
          → dict_get id d ≡ some old
          → total_subscribers (dict_set id set d) + length old ≡ total_subscribers d + length set)
unfolding total_subscribers dict_get dict_set
total-dict_set id set [] = ((λ e. omega arith), λ old e. cc)
total-dict_set id set ((j, w) ∷ d) = elim (Bool-cases (str_eq j id)) [
  | inl h ↦ rw h ((λ e. cc), λ old e. same_length old e)
  | inr h ↦
      let (f, g) = total-dict_set id set d in
      rw h ((λ e. omega (arith, f e)), λ old e. omega (arith, g old e))
]
  where
    same_length :
        (old : List ℕ)
        → some w ≡ some old
        → (length set + total_subscribers d) + length old
          ≡ (length w + total_subscribers d) + length set
    same_length old e =
        subst
          (λ (v : List ℕ).
            (length set + total_subscribers d) + length v
            ≡ (length w + total_subscribers d) + length set)
          (inside e) (omega arith)
      where
        inside : some w ≡ some old → w ≡ old
        inside h = cc

total-dict_delete :
    (id : String) (d : Dict (List ℕ)) → total_subscribers (dict_delete id d) ≤ total_subscribers d
unfolding total_subscribers dict_delete
total-dict_delete id [] = omega arith
total-dict_delete id ((j, w) ∷ d) = ground (arith, total-dict_delete id d)

length-delete_listener : (l : ℕ) (set : List ℕ) → length (delete_listener l set) ≤ length set
length-delete_listener l [] = omega arith
length-delete_listener l (k ∷ set) = ground (arith, length-delete_listener l set)

length-add_listener : (l : ℕ) (o : Option (List ℕ)) → 1 ≤ length (add_listener l o)
length-add_listener l none = omega arith
length-add_listener l (some []) = omega arith
length-add_listener l (some (k ∷ set)) = ground arith

total-dict_set-positive :
    (id : String) (set : List ℕ) (d : Dict (List ℕ))
    → 1 ≤ length set
    → 1 ≤ total_subscribers (dict_set id set d)
unfolding total_subscribers dict_set
total-dict_set-positive id set [] h = omega (arith, h)
total-dict_set-positive id set ((j, w) ∷ d) h =
    if_cases (λ (z : Dict (List ℕ)). 1 ≤ total_subscribers z) (str_eq j id) (λ e. omega (arith, h))
      (λ e. omega (arith, total-dict_set-positive id set d h))

total-left :
    (id : String) (l : ℕ) (d : Dict (List ℕ)) (o : Option (List ℕ))
    → dict_get id d ≡ o
    → total_subscribers (left id l o d) ≤ total_subscribers d
total-left id l d none e = omega arith
total-left id l d (some set) e = by_rest (delete_listener l set) (length-delete_listener l set)
  where
    by_rest :
        (rest : List ℕ)
        → length rest ≤ length set
        → total_subscribers (kept id rest d) ≤ total_subscribers d
    by_rest [] h = total-dict_delete id d
    by_rest (k ∷ rest) h = let g = total-dict_set id (k ∷ rest) d in omega (arith, g.1 set e)

-- With subscribers the fallback timer is there; without, nothing is.
pub record IsLive (b : JobEventBroker) : Type 0 where
  pub covered : 1 ≤ total_subscribers b.listeners → b.fallback ≡ true
  pub idle :
      total_subscribers b.listeners ≡ 0
      → (b.watcher ≡ false) × (b.fallback ≡ false) × (b.rebuild_timer ≡ false)

new_broker-IsLive : IsLive new_broker
unfolding new_broker total_subscribers
new_broker-IsLive = record { covered = λ h. ground arith; idle = λ h. (refl, refl, refl) }

pub data Event : Type 0 where
  subscribes : String → ℕ → Create → Event
  unsubscribes : String → ℕ → Event
  watcher_errors : Event
  rebuilds : Create → Event
  closes : Event

after_event : Event → JobEventBroker → JobEventBroker
unfolding subscribe unsubscribe on_watcher_error rebuild close
after_event (subscribes id l c) b = (subscribe id l c b).0
after_event (unsubscribes id l) b = unsubscribe id l b
after_event watcher_errors b = on_watcher_error b
after_event (rebuilds c) b = (rebuild c b).0
after_event closes b = close b

-- The folders of the runtime can be made.
abbrev HasDirs : Event → Type 0
HasDirs (subscribes id l c) = throws c ≡ false
HasDirs (unsubscribes id l) = Unit
HasDirs watcher_errors = Unit
HasDirs (rebuilds c) = throws c ≡ false
HasDirs closes = Unit

started-IsLive :
    (c : Create) (b : JobEventBroker)
    → throws c ≡ false
    → 1 ≤ total_subscribers b.listeners
    → IsLive (ensure_started c b).0
unfolding ensure_started ensure_dir_watcher
started-IsLive c b h n = elim (Bool-cases b.watcher) [
  | inl w ↦ rw w (record { covered = λ i. refl; idle = λ i. ground arith })
  | inr w ↦ rw w (by_create (record b { watcher = false }) c h n)
]
  where
    by_create :
        (x : JobEventBroker) (c : Create)
        → throws c ≡ false
        → 1 ≤ total_subscribers x.listeners
        → IsLive
            (if◌then◌else◌ {A = JobEventBroker × Bool}
              (throws c)
              (created c x, throws c)
              (record (created c x) { fallback = true }, false)).0
    by_create x made e n = record { covered = λ i. refl; idle = λ i. ground arith }
    by_create x unavailable e n = record { covered = λ i. refl; idle = λ i. ground arith }
    by_create x dirs_fail e n = cc

subscribe-IsLive :
    (id : String) (l : ℕ) (c : Create) (b : JobEventBroker)
    → throws c ≡ false
    → IsLive (subscribe id l c b).0
unfolding subscribe
subscribe-IsLive id l c b h =
    started-IsLive c
      (record b { listeners = dict_set id (add_listener l (dict_get id b.listeners)) b.listeners })
      h
      (total-dict_set-positive id (add_listener l (dict_get id b.listeners)) b.listeners
        (length-add_listener l (dict_get id b.listeners)))

unsubscribe-IsLive :
    (id : String) (l : ℕ) (b : JobEventBroker) → IsLive b → IsLive (unsubscribe id l b)
unfolding unsubscribe stop_all
unsubscribe-IsLive id l b v =
    if_cases IsLive (total_subscribers (left id l (dict_get id b.listeners) b.listeners) == 0)
      (λ t. record { covered = λ h. ground arith; idle = λ h. (refl, refl, refl) })
      (λ f. record {
        covered = λ h.
            v.covered (omega (arith, total-left id l b.listeners (dict_get id b.listeners) refl));
        idle = λ h. ground arith;
      })

on_watcher_error-IsLive : (b : JobEventBroker) → IsLive b → IsLive (on_watcher_error b)
unfolding on_watcher_error
on_watcher_error-IsLive b v = record {
  covered = v.covered;
  idle = λ h. (refl, (v.idle h).1, ground arith);
}

rebuild-IsLive :
    (c : Create) (b : JobEventBroker) → throws c ≡ false → IsLive b → IsLive (rebuild c b).0
unfolding rebuild ensure_dir_watcher
rebuild-IsLive c b h v =
    if_cases {A = JobEventBroker × Bool} (λ z. IsLive z.0) (ltb 0 (total_subscribers b.listeners))
      (λ t.
        if_cases {A = JobEventBroker × Bool} (λ z. IsLive z.0) b.watcher
          (λ w. record { covered = v.covered; idle = λ i. ground arith }) (λ w. by_create t c))
      (λ f. record { covered = v.covered; idle = λ i. ((v.idle i).0, (v.idle i).1, refl) })
  where
    by_create :
        ltb 0 (total_subscribers b.listeners) ≡ true
        → (c : Create) → IsLive (created c (record b { rebuild_timer = false }))
    by_create t made = record { covered = v.covered; idle = λ i. ground arith }
    by_create t unavailable = record { covered = v.covered; idle = λ i. ground arith }
    by_create t dirs_fail = record { covered = v.covered; idle = λ i. ground arith }

after_event-IsLive :
    (e : Event) (b : JobEventBroker) → HasDirs e → IsLive b → IsLive (after_event e b)
unfolding after_event close stop_all total_subscribers
after_event-IsLive (subscribes id l c) b h v = subscribe-IsLive id l c b h
after_event-IsLive (unsubscribes id l) b h v = unsubscribe-IsLive id l b v
after_event-IsLive watcher_errors b h v = on_watcher_error-IsLive b v
after_event-IsLive (rebuilds c) b h v = rebuild-IsLive c b h v
after_event-IsLive closes b h v = record {
  covered = λ i. ground arith;
  idle = λ i. (refl, refl, refl);
}

unfoldable pub after_events : List Event → JobEventBroker → JobEventBroker
unfolding after_event
after_events [] b = b
after_events (e ∷ es) b = after_events es (after_event e b)

after_events-IsLive :
    (es : List Event) (b : JobEventBroker) → All HasDirs es → IsLive b → IsLive (after_events es b)
unfolding after_events
after_events-IsLive [] b h v = v
after_events-IsLive (e ∷ es) b (h, hs) v =
    after_events-IsLive es (after_event e b) hs (after_event-IsLive e b h v)

-- Whatever is called and whichever events come, while the folders of the runtime can be made where a
-- call makes them: as long as there are subscribers the fallback timer is set, and without any
-- neither a watcher nor a timer is left.
pub broker-IsLive : (es : List Event) → All HasDirs es → IsLive (after_events es new_broker)
broker-IsLive es h = after_events-IsLive es new_broker h new_broker-IsLive
