-- ===== src/Controller/Acquisition.antt =====
-- src/admission-controller.ts: what a successful acquisition adds to the lease directory.
use codex_job_orchestrator.Common.{
  ℕ, ◌≤◌, String, ◌≡◌, refl, Bool, not, Option, none, some, List, [], ◌∷◌, ◌++◌, map, arith,
  is_some, if_cases, is_some-false, Json,
}
use codex_job_orchestrator.Admission.Types.{
  AdmissionPolicy, AdmissionRequest, AdmissionLease, AdmissionEvaluation, Host,
}
use codex_job_orchestrator.Admission.Validate.{
  is_job_id, invalid_policy_field, invalid_request_field, valid-IsSound,
}
use codex_job_orchestrator.Admission.Evaluate.{evaluate_admission}
use codex_job_orchestrator.Admission.Lease.{encode_lease, IsLease}
use codex_job_orchestrator.Admission.Files.{
  Dir, Area, PidInspector, CreateError, Disk, find_file, remove_file, Sweep, sweep_leases,
  transient, other,
}
use codex_job_orchestrator.Admission.Manager.{
  Outcome, AcquireAdmissionResult, lease_info, new_lease, swept, write_lease, create_lease,
  decide_lease, acquire_admission_lease, returned, thrown,
}
use codex_job_orchestrator.Admission.Sharing.{new_lease-IsLease, Acquired}
use text.Mathlib.TextPositions.{eq_refl}

pub find_file-append :
    (id : String) (f : Option Json) (xs : Dir)
    → find_file id xs ≡ none
    → find_file id (xs ++ (id, f) ∷ []) ≡ some f
unfolding find_file
find_file-append id f [] e = rw (eq_refl id)
find_file-append id f ((j, g) ∷ xs) e = ground (arith, find_file-append id f xs)

pub remove_file-append :
    (id : String) (f : Option Json) (xs : Dir)
    → find_file id xs ≡ none
    → remove_file id (xs ++ (id, f) ∷ []) ≡ xs
unfolding find_file remove_file
remove_file-append id f [] e = rw (eq_refl id)
remove_file-append id f ((j, g) ∷ xs) e = ground (arith, remove_file-append id f xs)

-- A result of an acquisition that added the file of `x` to `kept`, if it says that it succeeded.
abbrev pub Extends : Dir → AdmissionLease → Area × Outcome AcquireAdmissionResult → Type 0
Extends kept x (b, thrown) = Unit
Extends kept x (b, returned res) =
    res.reason ≡ none
    → (b.leases ≡ kept ++ (x.job_id, some (encode_lease x)) ∷ [])
      × (find_file x.job_id kept ≡ none)
      × IsLease x

write_lease-Extends :
    (o : Option CreateError) (x : AdmissionLease) (b : Area) (archived : List String)
    (e : AdmissionEvaluation)
    → find_file x.job_id b.leases ≡ none
    → IsLease x
    → Extends b.leases x (write_lease o x b archived e)
unfolding write_lease
write_lease-Extends (some transient) x b archived e free v = λ k. cc
write_lease-Extends (some other) x b archived e free v = tt
write_lease-Extends none x b archived e free v = λ k. (refl, free, v)

create_lease-Extends :
    (d : Disk) (x : AdmissionLease) (b : Area) (archived : List String) (e : AdmissionEvaluation)
    → IsLease x
    → Extends b.leases x (create_lease d x b archived e)
unfolding create_lease
create_lease-Extends d x b archived e v =
    if_cases {A = Acquired} (Extends b.leases x) (is_some (find_file x.job_id b.leases)) (λ _ k. cc)
      (λ fresh.
        write_lease-Extends d.create_error x b archived e
          (is_some-false (find_file x.job_id b.leases) fresh) v)

decide_lease-Extends :
    (h : Host) (d : Disk) (ttl now : ℕ) (free : Option ℕ) (p : AdmissionPolicy)
    (r : AdmissionRequest) (a : Area) (s : Sweep)
    → IsLease (new_lease ttl now r)
    → Extends s.kept (new_lease ttl now r) (decide_lease h d ttl now free p r a s)
unfolding decide_lease
decide_lease-Extends h d ttl now free p r a s v =
    if_cases {A = Acquired} (Extends s.kept (new_lease ttl now r))
      (evaluate_admission h p r (map lease_info s.live) free).admitted
      (λ _.
        create_lease-Extends d (new_lease ttl now r) (swept a s) s.archived
          (evaluate_admission h p r (map lease_info s.live) free) v)
      (λ _ k. cc)

-- A successful acquisition adds the job's lease to what the sweep kept, and to nothing else.
pub acquire-Extends :
    (h : Host) (i : PidInspector) (d : Disk) (locked : Bool) (ttl now : ℕ) (free : Option ℕ)
    (p : AdmissionPolicy) (r : AdmissionRequest) (a : Area)
    → 1 ≤ now
    → Extends
        (sweep_leases h i d now a).kept
        (new_lease ttl now r)
        (acquire_admission_lease h i d locked ttl now free p r a)
unfolding acquire_admission_lease
acquire-Extends h i d locked ttl now free p r a pos =
    if_cases {A = Acquired} P (not (is_job_id r.job_id)) (λ _ k. cc)
      λ _.
        if_cases {A = Acquired} P (is_some (invalid_policy_field p)) (λ _ k. cc)
          λ _.
            if_cases {A = Acquired} P (is_some (invalid_request_field r)) (λ _ k. cc)
              λ valid.
                if_cases {A = Acquired} P (not locked) (λ _ k. cc)
                  λ _. decide_lease-Extends h d ttl now free p r a (sweep_leases h i d now a) (
                    new_lease-IsLease ttl now r pos
                      (valid-IsSound r (is_some-false (invalid_request_field r) valid)))
  where
    P : Acquired → Type 0
    P = Extends (sweep_leases h i d now a).kept (new_lease ttl now r)
