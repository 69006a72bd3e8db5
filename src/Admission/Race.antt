-- ===== src/Admission/Race.antt =====
-- src/admission.ts: the lock file between processes. Each file operation of `acquireLock`,
-- `reapDeadLock` and `releaseLock` is one step, and the steps of the processes interleave.
use codex_job_orchestrator.Common.{
  ℕ, ◌≡◌, refl, sym, ◌∙◌, ◌≢◌, ◌⊎◌, inl, inr, Bool, true, false, Option, none, some, arith, ◌==◌,
  if◌then◌else◌, Bool-cases,
}

-- `reaping`: has read the lock, has found its holder dead, and is about to unlink it.
pub data Phase : Type 0 where
  outside reaping inside : Phase

-- The holder that the lock file names, if the file is there, and where each process stands.
pub record Shared : Type 0 where
  pub lock_file : Option ℕ
  pub phase : ℕ → Phase

abbrev pub at : (ℕ → Phase) → ℕ → Phase → ℕ → Phase
at f p x q = if q == p then x else f q

-- `dead` says which processes are verifiably gone.
pub data LockStep (dead : ℕ → Bool) : Shared → Shared → Type 0 where
  create :
      (s : Shared) (p : ℕ)
      → s.phase p ≡ outside
      → s.lock_file ≡ none
      → LockStep dead s (record { lock_file = some p; phase = at s.phase p inside })
  inspect :
      (s : Shared) (p q : ℕ)
      → s.phase p ≡ outside
      → s.lock_file ≡ some q
      → dead q ≡ true
      → LockStep dead s (record s { phase = at s.phase p reaping })
  unlink :
      (s : Shared) (p : ℕ)
      → s.phase p ≡ reaping
      → LockStep dead s (record { lock_file = none; phase = at s.phase p outside })
  release :
      (s : Shared) (p : ℕ)
      → s.phase p ≡ inside
      → LockStep dead s (record { lock_file = none; phase = at s.phase p outside })

pub data Reach (dead : ℕ → Bool) (s : Shared) : Shared → Type 0 where
  here : Reach dead s s
  next : {t u : Shared} → Reach dead s t → LockStep dead t u → Reach dead s u

-- A process inside is the holder that the file names, and nobody is about to unlink.
pub record IsExclusive (s : Shared) : Type 0 where
  pub named : (p : ℕ) → s.phase p ≡ inside → s.lock_file ≡ some p
  pub calm : (p : ℕ) → s.phase p ≢ reaping

at_cases :
    (f : ℕ → Phase) (p q : ℕ) (x : Phase)
    → ((q ≡ p) × (at f p x q ≡ x)) ⊎ ((q ≢ p) × (at f p x q ≡ f q))
at_cases f p q x = elim (Bool-cases (q == p)) [
  | inl e ↦ inl (ground arith, rw e)
  | inr e ↦ inr (ground arith, rw e)
]

IsExclusive-step : {s t : Shared} → LockStep (λ _. false) s t → IsExclusive s → IsExclusive t
IsExclusive-step (create s p out free) x = record {
  named = λ q e. elim (at_cases s.phase p q inside) [
    | inl (same, _) ↦ rw same
    | inr (other, old) ↦ ground (arith, x.named q (sym old ∙ e))
  ];
  calm = λ q e. elim (at_cases s.phase p q inside) [
    | inl (_, new) ↦ cc (sym new ∙ e)
    | inr (other, old) ↦ x.calm q (sym old ∙ e)
  ];
}
IsExclusive-step (inspect s p q out full gone) x = cc gone
IsExclusive-step (unlink s p r) x = absurd (x.calm p r)
IsExclusive-step (release s p inn) x = record {
  named = λ q e. elim (at_cases s.phase p q outside) [
    | inl (_, new) ↦ cc (sym new ∙ e)
    | inr (other, old) ↦ absurd (other (ground (arith, x.named q (sym old ∙ e), x.named p inn)))
  ];
  calm = λ q e. elim (at_cases s.phase p q outside) [
    | inl (_, new) ↦ cc (sym new ∙ e)
    | inr (other, old) ↦ x.calm q (sym old ∙ e)
  ];
}

Reach-IsExclusive : {s t : Shared} → IsExclusive s → Reach (λ _. false) s t → IsExclusive t
Reach-IsExclusive x here = x
Reach-IsExclusive x (next r st) = IsExclusive-step st (Reach-IsExclusive x r)

-- Where no holder of the lock has died, at most one process is inside, however the file operations
-- interleave: the lock file names whoever is inside, so two that are inside are one.
pub exclusive_without_deaths :
    (s t : Shared) (p q : ℕ)
    → IsExclusive s
    → Reach (λ _. false) s t
    → t.phase p ≡ inside
    → t.phase q ≡ inside
    → p ≡ q
exclusive_without_deaths s t p q x r hp hq =
    let y = Reach-IsExclusive x r in cc (y.named p hp, y.named q hq)

-- One holder is dead and nobody else has come yet.
abbrev pub abandoned : ℕ → Shared
abandoned q = record { lock_file = some q; phase = λ _. outside }

-- With a dead holder the lock does not exclude: any two processes can both get inside. Each reads
-- the dead holder's file; one unlinks it and creates its own; the other then unlinks that one.
pub two_inside_after_death :
    (dead : ℕ → Bool) (q p r : ℕ)
    → dead q ≡ true
    → p ≢ r
    → (t : Shared) × Reach dead (abandoned q) t × (t.phase p ≡ inside) × (t.phase r ≡ inside)
two_inside_after_death dead q p r gone differ = (
  record { lock_file = some r; phase = f6 },
  next
      (next
        (next
          (next
            (next (next here (inspect (abandoned q) p q refl refl gone))
              (inspect (record { lock_file = some q; phase = f1 }) r q (ground arith) refl gone))
            (unlink (record { lock_file = some q; phase = f2 }) p (ground arith)))
          (create (record { lock_file = none; phase = f3 }) p (ground arith) refl))
        (unlink (record { lock_file = some p; phase = f4 }) r (ground arith)))
      (create (record { lock_file = none; phase = f5 }) r (ground arith) refl),
  ground arith,
  ground arith,
)
  where
    f1 : ℕ → Phase
    f1 = at (λ _. outside) p reaping

    f2 : ℕ → Phase
    f2 = at f1 r reaping

    f3 : ℕ → Phase
    f3 = at f2 p outside

    f4 : ℕ → Phase
    f4 = at f3 p inside

    f5 : ℕ → Phase
    f5 = at f4 r outside

    f6 : ℕ → Phase
    f6 = at f5 r inside
