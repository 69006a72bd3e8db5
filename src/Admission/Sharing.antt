-- ===== src/Admission/Sharing.antt =====
-- src/admission.ts: the lease directory as every caller of `AdmissionManager` leaves it.
use codex_job_orchestrator.Common.{
  ℕ, suc, ◌≤◌, ◌<◌, String, ◌≡◌, refl, ap, subst, inl, inr, Bool, true, false, not, Option, none,
  some, List, [], ◌∷◌, ◌++◌, map, arith, length, length-append, count_if, count_if-append, All,
  Bool-cases, is_some, if_cases, is_some-false, to_nat,
}
use codex_job_orchestrator.Admission.Types.{
  AdmissionPolicy, AdmissionRequest, AdmissionLease, AdmissionEvaluation, Host,
}
use codex_job_orchestrator.Admission.Validate.{
  is_job_id, invalid_policy_field, invalid_request_field, IsSound, valid-IsSound,
}
use codex_job_orchestrator.Admission.Evaluate.{
  is_heavy, active_heavy, active_count, evaluate_admission,
}
use codex_job_orchestrator.Admission.Decision.{Admissible, admitted_iff}
use codex_job_orchestrator.Admission.Lease.{IsLease}
use codex_job_orchestrator.Admission.Files.{
  Area, PidInspector, CreateError, Disk, find_file, Sweep, sweep_leases, transient, other,
}
use codex_job_orchestrator.Admission.Manager.{
  Outcome, AcquireAdmissionResult, lease_info, new_lease, swept, write_lease, create_lease,
  decide_lease, acquire_admission_lease,
}
use codex_job_orchestrator.Admission.Table.{
  files, find_lease, live_only, IsReadable, file_of, find_file-files, files-append,
  sweep_leases-files,
}
use codex_job_orchestrator.Admission.Capacity.{
  heavy_lease, IsWithin, All-live_only, IsWithin-live_only, All-append, Apart-append,
  Distinct-append, no_clash,
}

-- The lease files are those of a table of sound leases within the limits.
pub record IsCapped (ceiling heavies : ℕ) (h : Host) (a : Area) : Type 0 where
  pub table : List AdmissionLease
  pub holds : a.leases ≡ files table
  pub sound : All IsLease table
  pub within : IsWithin ceiling heavies h table

pub new_lease-IsLease :
    (ttl now : ℕ) (r : AdmissionRequest) → 1 ≤ now → IsSound r → IsLease (new_lease ttl now r)
unfolding new_lease
new_lease-IsLease ttl now r pos s = record {
  id_valid = s.id_valid;
  backend_named = s.backend_named;
  profile_named = s.profile_named;
  folder_named = s.folder_named;
  pid_pos = s.pid_pos;
  started_pos = s.started_pos;
  acquired_pos = pos;
  heartbeat_pos = pos;
  expires_pos = omega arith;
}

-- In the view that the evaluation gets, every lease of the table is active.
active_count-lease_info : (ls : List AdmissionLease) → active_count (map lease_info ls) ≡ length ls
unfolding active_count
active_count-lease_info [] = refl
active_count-lease_info (l ∷ ls) = ap suc (active_count-lease_info ls)

heavies-lease_info :
    (ls : List AdmissionLease) → count_if active_heavy (map lease_info ls) ≡ count_if heavy_lease ls
heavies-lease_info [] = refl
heavies-lease_info (l ∷ ls) = ground (arith, heavies-lease_info ls)

heavies_room :
    (v : ℕ) (x : AdmissionLease) (ls : List AdmissionLease)
    → count_if heavy_lease ls ≤ v
    → (is_heavy x.resource_class ≡ true → count_if heavy_lease ls < v)
    → count_if heavy_lease (ls ++ x ∷ []) ≤ v
heavies_room v x ls le room = elim (Bool-cases (is_heavy x.resource_class)) [
  | inl e ↦ omega (arith, count_if-append heavy_lease ls (x ∷ []), room e, one e)
  | inr e ↦ omega (arith, count_if-append heavy_lease ls (x ∷ []), none_of e)
]
  where
    one : is_heavy x.resource_class ≡ true → count_if heavy_lease (x ∷ []) ≡ 1
    one e = rw e

    none_of : is_heavy x.resource_class ≡ false → count_if heavy_lease (x ∷ []) ≡ 0
    none_of e = rw e

-- An admissible request's lease fits beside the live ones.
pub IsWithin-admitted :
    (h : Host) (p : AdmissionPolicy) (r : AdmissionRequest) (free : Option ℕ) (ttl now : ℕ)
    (ls : List AdmissionLease)
    → Admissible h p r (map lease_info ls) free
    → find_lease r.job_id ls ≡ none
    → IsWithin (to_nat p.hard_safety_ceiling) (to_nat p.max_heavy_workers) h ls
    → IsWithin
        (to_nat p.hard_safety_ceiling)
        (to_nat p.max_heavy_workers)
        h
        (ls ++ new_lease ttl now r ∷ [])
unfolding new_lease
IsWithin-admitted h p r free ttl now ls a absent w = record {
  bounded = omega (
    arith,
    length-append {0} ls (new_lease ttl now r ∷ []),
    active_count-lease_info ls,
    a.under_ceiling,
  );
  heavy_bounded =
      heavies_room (to_nat p.max_heavy_workers) (new_lease ttl now r) ls w.heavy_bounded
        (λ e. omega (arith, a.heavy_room e, heavies-lease_info ls));
  apart =
      Apart-append h ls (new_lease ttl now r) w.apart
        (no_clash h r (new_lease ttl now r) ls refl refl a.space_free);
  distinct = Distinct-append ls (new_lease ttl now r) w.distinct absent;
}

abbrev pub Acquired : Type 0
Acquired = Area × Outcome AcquireAdmissionResult

file_of-none : (o : Option AdmissionLease) → is_some (file_of o) ≡ false → o ≡ none
file_of-none none e = refl
file_of-none (some l) e = cc

-- What `acquireAdmissionLease` does keeps the limits that its policy sets.
module _ (h : Host) (i : PidInspector) (d : Disk) (ttl now : ℕ) (free : Option ℕ)
    (p : AdmissionPolicy) (r : AdmissionRequest) (readable : IsReadable d) (clock : 1 ≤ now) where
  abbrev Capped : Area → Type 0
  Capped = IsCapped (to_nat p.hard_safety_ceiling) (to_nat p.max_heavy_workers) h

  abbrev Within : List AdmissionLease → Type 0
  Within = IsWithin (to_nat p.hard_safety_ceiling) (to_nat p.max_heavy_workers) h

  module _ (ls : List AdmissionLease) (b : Area) (holds : b.leases ≡ files ls)
      (sound : All IsLease ls) (w : Within ls) where
    same-Capped : Capped b
    same-Capped = record { table = ls; holds = holds; sound = sound; within = w }

    write_lease-Capped :
        (o : Option CreateError) (archived : List String) (e : AdmissionEvaluation)
        → IsSound r
        → Admissible h p r (map lease_info ls) free
        → find_lease r.job_id ls ≡ none
        → Capped (write_lease o (new_lease ttl now r) b archived e).0
    unfolding write_lease
    write_lease-Capped (some transient) archived e s adm absent = same-Capped
    write_lease-Capped (some other) archived e s adm absent = same-Capped
    write_lease-Capped none archived e s adm absent = record {
      table = ls ++ new_lease ttl now r ∷ [];
      holds = rw (holds, files-append ls (new_lease ttl now r ∷ []));
      sound =
          All-append IsLease ls (new_lease ttl now r) sound (new_lease-IsLease ttl now r clock s);
      within = IsWithin-admitted h p r free ttl now ls adm absent w;
    }

    absent_of_free : is_some (find_file r.job_id b.leases) ≡ false → find_lease r.job_id ls ≡ none
    absent_of_free e =
        file_of-none (find_lease r.job_id ls) (rw (← find_file-files r.job_id ls, ← holds) e)

    create_lease-Capped :
        (archived : List String) (e : AdmissionEvaluation)
        → IsSound r
        → Admissible h p r (map lease_info ls) free
        → Capped (create_lease d (new_lease ttl now r) b archived e).0
    unfolding create_lease new_lease
    create_lease-Capped archived e s adm =
        if_cases {A = Acquired} (λ st. Capped st.0) (is_some (find_file r.job_id b.leases))
          (λ _. same-Capped)
          (λ f. write_lease-Capped d.create_error archived e s adm (absent_of_free f))

    decide_lease-Capped :
        (a : Area) (s : Sweep)
        → IsSound r
        → b ≡ swept a s
        → s.live ≡ ls
        → Capped (decide_lease h d ttl now free p r a s).0
    unfolding decide_lease
    decide_lease-Capped a s snd eb el =
        if_cases {A = Acquired} (λ st. Capped st.0)
          (evaluate_admission h p r (map lease_info s.live) free).admitted
          (λ adm.
            subst
              (λ c.
                Capped
                  (create_lease d (new_lease ttl now r) c s.archived
                    (evaluate_admission h p r (map lease_info s.live) free)).0)
              eb
              (create_lease-Capped s.archived
                (evaluate_admission h p r (map lease_info s.live) free) snd
                (subst (λ l. Admissible h p r (map lease_info l) free) el
                  ((admitted_iff h p r (map lease_info s.live) free).0 adm))))
          (λ _. subst Capped eb same-Capped)

  -- Whatever the request, the clock and the races for the lock, an acquisition keeps the limits.
  pub acquire_admission_lease-IsCapped :
      (locked : Bool) (a : Area)
      → Capped a
      → Capped (acquire_admission_lease h i d locked ttl now free p r a).0
  unfolding acquire_admission_lease
  acquire_admission_lease-IsCapped locked a c =
      let swp = sweep_leases-files h i d now a c.table readable c.holds c.sound in
      if_cases {A = Acquired} (λ st. Capped st.0) (not (is_job_id r.job_id)) (λ _. c)
        λ _.
          if_cases {A = Acquired} (λ st. Capped st.0) (is_some (invalid_policy_field p)) (λ _. c)
            λ _.
              if_cases {A = Acquired} (λ st. Capped st.0) (is_some (invalid_request_field r))
                (λ _. c)
                λ valid.
                  if_cases {A = Acquired} (λ st. Capped st.0) (not locked) (λ _. c)
                    λ _.
                      decide_lease-Capped (live_only i now c.table)
                        (swept a (sweep_leases h i d now a)) swp.0
                        (All-live_only IsLease i now c.table c.sound)
                        (IsWithin-live_only _ _ h i now c.table c.within) a
                        (sweep_leases h i d now a)
                        (valid-IsSound r (is_some-false (invalid_request_field r) valid)) refl swp.1
