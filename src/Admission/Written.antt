-- ===== src/Admission/Written.antt =====
-- src/admission.ts: the leases that the manager writes, against `parseLease`.
use codex_job_orchestrator.Common.{ℕ, ◌≤◌, ◌≡◌, true, Option, none, some, Json}
use codex_job_orchestrator.Admission.Types.{AdmissionRequest, AdmissionLease}
use codex_job_orchestrator.Admission.Validate.{invalid_request_field, valid-IsSound}
use codex_job_orchestrator.Admission.Lease.{
  parse_lease, encode_lease, parse_lease-IsLease, parse_lease-encode_lease,
}
use codex_job_orchestrator.Admission.Manager.{new_lease}
use codex_job_orchestrator.Admission.Owner.{LeaseOwnerRef, extend, take_over, is_next_owner}
use codex_job_orchestrator.Admission.Sharing.{new_lease-IsLease}
use codex_job_orchestrator.Admission.Owners.{extend-IsLease, take_over-IsLease}

abbrev pub ReadsBack : AdmissionLease → Type 0
ReadsBack l = parse_lease (some (encode_lease l)) ≡ some l

-- The strict parser reads back as it was the lease that is made for a request which passes its
-- validation, and the one that a heartbeat or a transfer makes of a lease that was read from a
-- file, for a next owner that passes its test: when the clock is past 0 and the time to live a
-- whole number of milliseconds.
pub written_leases_are_read :
    (ttl now : ℕ) (r : AdmissionRequest) (n : LeaseOwnerRef) (f : Option Json) (l : AdmissionLease)
    → 1 ≤ now
    → invalid_request_field r ≡ none
    → parse_lease f ≡ some l
    → is_next_owner l.job_id (some n) ≡ true
    → ReadsBack (new_lease ttl now r)
      × ReadsBack (extend ttl now l)
      × ReadsBack (take_over ttl now n l)
written_leases_are_read ttl now r n f l clock valid read next =
    let v = parse_lease-IsLease f l read in
    (
      parse_lease-encode_lease (new_lease ttl now r)
          (new_lease-IsLease ttl now r clock (valid-IsSound r valid)),
      parse_lease-encode_lease (extend ttl now l) (extend-IsLease ttl now l clock v),
      parse_lease-encode_lease (take_over ttl now n l) (take_over-IsLease ttl now n l clock next v),
    )
