-- ===== src/Proc/Examples.antt =====
-- src/proc.ts: a candidate below a chain of three processes.
use codex_job_orchestrator.Common.{
  ℕ, ◌<◌, ◌≡◌, refl, ◌≢◌, ◌↔◌, Option, none, some, [], ◌∷◌, ◌==◌, if◌then◌else◌, Number, int,
}
use codex_job_orchestrator.Proc.Ancestors.{
  positive, ancestors_from, build_ancestor_pid_set, PidCandidateOptions, evaluate_pid_candidate,
  IsAbove, IsSafe, evaluate_pid_candidate_iff, ancestor,
}

-- The parent of 9 is 5, that of 5 is 1, and 1 has none.
abbrev query : ℕ → Option Number
query p = if p == 9 then some (int 5) else if p == 5 then some (int 1) else none

abbrev options : PidCandidateOptions
unfolding build_ancestor_pid_set ancestors_from
options = record {
  own_pid = some 20;
  ancestor_pids = some (build_ancestor_pid_set query 32 (int 9));
  run_started_at_ms = some 100;
  os_start_time_fn = some (λ p. some 150);
}

set_of_three : build_ancestor_pid_set query 32 (int 9) ≡ 1 ∷ 5 ∷ 9 ∷ []
unfolding build_ancestor_pid_set ancestors_from
set_of_three = refl

child_is_safe : evaluate_pid_candidate (int 30) options ≡ none
unfolding evaluate_pid_candidate options build_ancestor_pid_set ancestors_from
child_is_safe = refl

parent_is_not : evaluate_pid_candidate (int 9) options ≡ some ancestor
unfolding evaluate_pid_candidate options build_ancestor_pid_set ancestors_from
parent_is_not = refl

evaluate_pid_candidate_iff_example :
    ((evaluate_pid_candidate (int 30) options ≡ none) ↔ IsSafe (int 30) options)
    × (options.ancestor_pids ≡ some (build_ancestor_pid_set query 32 (int 9))
        → evaluate_pid_candidate (int 30) options ≡ none
        → (a k : ℕ) → IsAbove query (some (int 9)) a k
        → k < 32
        → positive (some (int 30)) ≢ some a)
evaluate_pid_candidate_iff_example = evaluate_pid_candidate_iff (int 30) options query 32 (int 9)
