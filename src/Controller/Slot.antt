-- ===== src/Controller/Slot.antt =====
-- src/admission-controller.ts: the lease that a turn has acquired, as the file operations of its
-- owner meet it.
use codex_job_orchestrator.Common.{
  ℕ, ◌≤◌, String, ◌≡◌, refl, ap, ◌∙◌, Bool, true, false, not, Option, none, some, [], ◌∷◌, ◌++◌,
  arith, if_cases, Number, is_pos_int, to_nat, is_int, int, neg_int, non_int,
}
use codex_job_orchestrator.Admission.Types.{AdmissionLease, Host}
use codex_job_orchestrator.Admission.Validate.{is_job_id}
use codex_job_orchestrator.Admission.Lease.{encode_lease, IsLease, parse_lease-encode_lease}
use codex_job_orchestrator.Admission.Files.{Dir, Area, Disk, find_file, remove_file, sweep_leases}
use codex_job_orchestrator.Admission.Manager.{new_lease, returned, thrown}
use codex_job_orchestrator.Admission.Owner.{
  LeaseOwnerRef, FileRead, read_lease, owns, Step, after_read, with_own_lease, replace_lease,
  move_released, release_lease, take_over, is_next_owner, transfer_checked, transfer_lease_owner,
  ok, refused, missing, failed, corrupt, found,
}
use codex_job_orchestrator.Controller.{
  Env, Turn, Controller, controller_ttl, owner_ref, candidate_request, failed,
}
use codex_job_orchestrator.Controller.Acquisition.{find_file-append, remove_file-append}
use text.Mathlib.TextPositions.{eq_refl}

pub with_own_lease-found :
    (d : Disk) (o : LeaseOwnerRef) (a : Area) (x : AdmissionLease) (f : AdmissionLease → Step)
    → d.read_fails o.job_id ≡ false
    → find_file o.job_id a.leases ≡ some (some (encode_lease x))
    → IsLease x
    → owns o x ≡ true
    → with_own_lease d true o a f ≡ f x
unfolding with_own_lease
with_own_lease-found d o a x f readable there v own =
    simp (readable, there, parse_lease-encode_lease x v, own)

-- The lease directory right after a successful acquisition by the controller.
pub record Holds (kept : Dir) (x : AdmissionLease) (a : Area) : Type 0 where
  pub extended : a.leases ≡ kept ++ (x.job_id, some (encode_lease x)) ∷ []
  pub absent : find_file x.job_id kept ≡ none
  pub sound : IsLease x

pub there :
    (kept : Dir) (x : AdmissionLease) (a : Area)
    → Holds kept x a
    → find_file x.job_id a.leases ≡ some (some (encode_lease x))
there kept x a s = rw s.extended (find_file-append x.job_id (some (encode_lease x)) kept s.absent)

abbrev pub ref : AdmissionLease → Number → Number → LeaseOwnerRef
ref x pid started = record { job_id = x.job_id; pid = pid; pid_started_at = started }

-- The owner's calls reach the lease that the directory holds for it.
module _ (d : Disk) (pid started : Number) (kept : Dir) (x : AdmissionLease) (a : Area)
    (readable : d.read_fails x.job_id ≡ false) (own : owns (ref x pid started) x ≡ true)
    (s : Holds kept x a) where
  release_found :
      (h : Host) (now : ℕ)
      → release_lease h d true now (ref x pid started) a ≡ move_released h d now x.job_id x a
  unfolding release_lease
  release_found h now = simp (
    s.sound.id_valid,
    with_own_lease-found d (ref x pid started) a x (λ l. move_released h d now x.job_id l a)
        readable (there kept x a s) s.sound own,
  )

  pub transfer_found :
      (ttl now : ℕ) (pid' started' : Number)
      → is_pos_int pid' ≡ true
      → is_pos_int started' ≡ true
      → transfer_lease_owner d true ttl now (ref x pid started) (some (ref x pid' started')) a
        ≡ replace_lease d x.job_id (take_over ttl now (ref x pid' started') x) a
  unfolding transfer_lease_owner transfer_checked
  transfer_found ttl now pid' started' p q = simp (
    s.sound.id_valid,
    eq_refl x.job_id,
    p,
    q,
    with_own_lease-found d (ref x pid started) a x
        (λ l. replace_lease d x.job_id (take_over ttl now (ref x pid' started') l) a) readable
        (there kept x a s) s.sound own,
  )

  -- Releasing it restores what the sweep kept.
  pub release_restores :
      (h : Host) (now : ℕ)
      → d.move_fails x.job_id ≡ false
      → (release_lease h d true now (ref x pid started) a).0.leases ≡ kept
  unfolding move_released
  release_restores h now movable = rw (release_found h now) (
      simp (movable, there kept x a s)
        (ap (remove_file x.job_id) s.extended
          ∙ remove_file-append x.job_id (some (encode_lease x)) kept s.absent))

pub is_int-to_nat : (n : Number) → 1 ≤ to_nat n → is_int (to_nat n) n ≡ true
is_int-to_nat (int n) h = ground arith
is_int-to_nat (neg_int n) h = absurd (omega arith)
is_int-to_nat non_int h = absurd (omega arith)

-- The lease that a turn's acquisition makes, and what the sweep before it keeps.
abbrev pub turn_lease : Controller → Turn → AdmissionLease
turn_lease k t = new_lease controller_ttl t.acquiring.now (candidate_request k t.candidate)

abbrev pub turn_kept : Host → Turn → Area → Dir
turn_kept h t a = (sweep_leases h t.inspector t.acquiring.disk t.acquiring.now a).kept

-- The controller owns the lease that it has just acquired.
pub controller_owns :
    (k : Controller) (t : Turn)
    → IsLease (turn_lease k t)
    → owns (owner_ref k t.candidate) (turn_lease k t) ≡ true
unfolding candidate_request new_lease
controller_owns k t s =
    rw (is_int-to_nat k.owner_pid s.pid_pos, is_int-to_nat k.owner_pid_started_at s.started_pos)

-- The surroundings in which the controller can give a lease back.
pub record CanRelease (e : Env) (id : String) : Type 0 where
  pub lock : e.locked ≡ true
  pub reads : e.disk.read_fails id ≡ false
  pub moves : e.disk.move_fails id ≡ false

-- A refused step has changed nothing.
abbrev pub Unmoved : Area → Step → Type 0
Unmoved a (b, thrown) = Unit
Unmoved a (b, returned (ok l)) = Unit
Unmoved a (b, returned (refused why)) = b ≡ a

pub after_read-Unmoved :
    (o : LeaseOwnerRef) (a : Area) (f : AdmissionLease → Step) (x : FileRead)
    → ((l : AdmissionLease) → Unmoved a (f l))
    → Unmoved a (after_read o a f x)
unfolding after_read
after_read-Unmoved o a f missing g = refl
after_read-Unmoved o a f failed g = tt
after_read-Unmoved o a f corrupt g = refl
after_read-Unmoved o a f (found l) g =
    if_cases {A = Step} (Unmoved a) (owns o l) (λ _. g l) (λ _. refl)

pub transfer_checked-Unmoved :
    (d : Disk) (locked : Bool) (ttl now : ℕ) (o : LeaseOwnerRef) (n : Option LeaseOwnerRef)
    (a : Area)
    → Unmoved a (transfer_checked d locked ttl now o n a)
unfolding transfer_checked with_own_lease replace_lease
transfer_checked-Unmoved d locked ttl now o none a = refl
transfer_checked-Unmoved d locked ttl now o (some n) a =
    if_cases {A = Step} (Unmoved a) (is_next_owner o.job_id (some n))
      (λ _.
        if_cases {A = Step} (Unmoved a) (not locked) (λ _. refl)
          λ _.
            after_read-Unmoved o a _ (read_lease d o.job_id a.leases)
              λ l. if_cases {A = Step} (Unmoved a) d.replace_fails (λ _. tt) (λ _. tt))
      (λ _. refl)

pub transfer-Unmoved :
    (d : Disk) (locked : Bool) (ttl now : ℕ) (o : LeaseOwnerRef) (n : Option LeaseOwnerRef)
    (a : Area)
    → Unmoved a (transfer_lease_owner d locked ttl now o n a)
unfolding transfer_lease_owner
transfer-Unmoved d locked ttl now o n a =
    if_cases {A = Step} (Unmoved a) (not (is_job_id o.job_id)) (λ _. refl)
      (λ _. transfer_checked-Unmoved d locked ttl now o n a)
