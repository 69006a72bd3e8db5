-- ===== src/Admission/Lock.antt =====
-- src/admission.ts: `acquireLock`, `reapDeadLock` and `releaseLock`.
-- The loop of one process is run over what its rounds meet; the race of several processes is a
-- step relation on the lock file, each file operation one step.
use codex_job_orchestrator.Common.{
  ℕ, ◌≤◌, ◌≡◌, refl, ◌++◌, ◌⊎◌, Bool, true, false, ◌&&◌, Option, none, some, List, [], ◌∷◌, arith,
  All, leb, is_some,
}

-- A round's `openSync(lockPath, 'wx')`: the lock was created, was held (EEXIST, EPERM or EBUSY),
-- or the error was another one.
pub data Open : Type 0 where
  created : Open
  held : Open
  broken : Open

-- One round: the open, the holder's pid if the lock's content could be read, whether that process
-- is verifiably dead, and the clock at the test of the deadline. The unlink of a dead holder's
-- lock may fail: the code does not look.
pub record Round : Type 0 where
  pub open_result : Open
  pub holder_pid : Option ℕ
  pub holder_alive : Option Bool
  pub clock : ℕ

abbrev verifiably_dead : Option Bool → Bool
verifiably_dead (some false) = true
verifiably_dead (some true) = false
verifiably_dead none = false

-- `reapDeadLock`: true asks for another open at once.
unfoldable pub reap_dead_lock : Round → Bool
reap_dead_lock r = is_some r.holder_pid && verifiably_dead r.holder_alive

-- `none`: the loop is still running when the rounds are over.
unfoldable pub acquire_lock : ℕ → List Round → Option Bool
unfolding reap_dead_lock
acquire_lock deadline [] = none
acquire_lock deadline (r ∷ rest) = elim r.open_result [
  | created ↦ some true
  | broken ↦ some false
  | held ↦ elim (reap_dead_lock r) [
    | true ↦ acquire_lock deadline rest
    | false ↦ elim (leb deadline r.clock) [ true ↦ some false | false ↦ acquire_lock deadline rest ]
  ]
]

-- A round after which the loop goes on: the lock is held, by a dead holder or before the deadline.
abbrev pub Waits : ℕ → Round → Type 0
Waits deadline r =
    (r.open_result ≡ held) × ((reap_dead_lock r ≡ true) ⊎ (leb deadline r.clock ≡ false))

-- A round that ends the loop with the given answer.
abbrev pub Answers : ℕ → Bool → Round → Type 0
Answers deadline true r = r.open_result ≡ created
Answers deadline false r =
    (r.open_result ≡ broken)
    ⊎ ((r.open_result ≡ held) × (reap_dead_lock r ≡ false) × (deadline ≤ r.clock))

-- The rounds are some that wait, one that answers, and others.
abbrev pub Settles : ℕ → Bool → List Round → Type 0
Settles deadline b rs =
    (before : List Round) × (r : Round) × (after : List Round) × (rs ≡ before ++ r ∷ after)
    × All (Waits deadline) before
    × Answers deadline b r

-- The wait has no bound while the holder is dead and its file stays: however late the clock of
-- each round, the loop goes on.
pub acquire_lock-unbounded :
    (deadline : ℕ) (rs : List Round)
    → All (λ r. (r.open_result ≡ held) × (reap_dead_lock r ≡ true)) rs
    → acquire_lock deadline rs ≡ none
unfolding acquire_lock
acquire_lock-unbounded deadline [] v = refl
acquire_lock-unbounded deadline (r ∷ rs) v = ground (arith, acquire_lock-unbounded deadline rs v.1)
