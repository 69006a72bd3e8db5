-- ===== src/Admission/Owners.antt =====
-- src/admission.ts: what the owner's operations do to the table of leases.
use codex_job_orchestrator.Common.{
  ℕ, ◌≤◌, String, ◌≡◌, refl, sym, ◌∙◌, subst, inl, inr, Bool, true, not, Option, none, some, List,
  arith, All, Option-cases, if_cases, Number, is_pos_int, to_nat, int, neg_int, non_int,
}
use codex_job_orchestrator.Admission.Types.{AdmissionLease, Host}
use codex_job_orchestrator.Admission.Validate.{is_job_id}
use codex_job_orchestrator.Admission.Lease.{IsLease, parse_lease-encode_lease}
use codex_job_orchestrator.Admission.Files.{Area, Disk, find_file}
use codex_job_orchestrator.Admission.Owner.{
  LeaseOwnerRef, FileRead, read_lease, owns, Step, after_read, with_own_lease, replace_lease,
  extend, heartbeat_lease, move_released, release_lease, take_over, is_next_owner, transfer_checked,
  transfer_lease_owner, missing, failed, corrupt, found,
}
use codex_job_orchestrator.Admission.Table.{
  files, find_lease, put_lease, remove_lease, find_file-files, put_file-files, remove_file-files,
  find_lease_sound,
}
use codex_job_orchestrator.Admission.Updates.{
  SameClaim, All-put_lease, IsWithin-put_lease, All-remove_lease, IsWithin-remove_lease,
}
use codex_job_orchestrator.Admission.Sharing.{IsCapped}

pub extend-IsLease :
    (ttl now : ℕ) (l : AdmissionLease) → 1 ≤ now → IsLease l → IsLease (extend ttl now l)
extend-IsLease ttl now l pos v = record {
  id_valid = v.id_valid;
  backend_named = v.backend_named;
  profile_named = v.profile_named;
  folder_named = v.folder_named;
  pid_pos = v.pid_pos;
  started_pos = v.started_pos;
  acquired_pos = v.acquired_pos;
  heartbeat_pos = pos;
  expires_pos = omega arith;
}

pos_int-le : (n : Number) → is_pos_int n ≡ true → 1 ≤ to_nat n
pos_int-le (int n) e = ground arith
pos_int-le (neg_int n) e = cc
pos_int-le non_int e = cc

pub take_over-IsLease :
    (ttl now : ℕ) (n : LeaseOwnerRef) (l : AdmissionLease)
    → 1 ≤ now
    → is_next_owner l.job_id (some n) ≡ true
    → IsLease l
    → IsLease (take_over ttl now n l)
take_over-IsLease ttl now n l pos o v = record {
  id_valid = v.id_valid;
  backend_named = v.backend_named;
  profile_named = v.profile_named;
  folder_named = v.folder_named;
  pid_pos = pos_int-le n.pid (ground arith);
  started_pos = pos_int-le n.pid_started_at (ground arith);
  acquired_pos = v.acquired_pos;
  heartbeat_pos = pos;
  expires_pos = omega arith;
}

-- What is read of a table's files is the table's lease.
pub read_lease-found :
    (d : Disk) (id : String) (ls : List AdmissionLease) (l : AdmissionLease)
    → All IsLease ls
    → read_lease d id (files ls) ≡ found l
    → find_lease id ls ≡ some l
unfolding read_lease
read_lease-found d id ls l v e = elim (Option-cases (find_lease id ls)) [
  | inl n ↦ ground (arith, find_file-files id ls)
  | inr (m, n) ↦
      ground
        (arith, find_file-files id ls, parse_lease-encode_lease m (find_lease_sound id ls m v n).0)
]

module _ (c v : ℕ) (h : Host) (d : Disk) (a : Area) (cap : IsCapped c v h a) where
  abbrev pub Kept : Step → Type 0
  Kept st = IsCapped c v h st.0

  after_read-Kept :
      (o : LeaseOwnerRef) (f : AdmissionLease → Step) (x : FileRead)
      → ((l : AdmissionLease) → x ≡ found l → Kept (f l))
      → Kept (after_read o a f x)
  unfolding after_read
  after_read-Kept o f missing g = cap
  after_read-Kept o f failed g = cap
  after_read-Kept o f corrupt g = cap
  after_read-Kept o f (found l) g = if_cases {A = Step} Kept (owns o l) (λ _. g l refl) (λ _. cap)

  -- An operation on a lease that the table holds keeps the limits if its step does.
  with_own_lease-Kept :
      (locked : Bool) (o : LeaseOwnerRef) (f : AdmissionLease → Step)
      → ((l : AdmissionLease) → find_lease o.job_id cap.table ≡ some l → Kept (f l))
      → Kept (with_own_lease d locked o a f)
  unfolding with_own_lease
  with_own_lease-Kept locked o f g =
      if_cases {A = Step} Kept (not locked) (λ _. cap)
        λ _. after_read-Kept o f (read_lease d o.job_id a.leases) λ l e. g l (
          read_lease-found d o.job_id cap.table l cap.sound
            (subst (λ x. read_lease d o.job_id x ≡ found l) cap.holds e))

  pub replace_lease-Kept :
      (id : String) (l x : AdmissionLease)
      → find_lease id cap.table ≡ some l
      → SameClaim l x
      → IsLease x
      → Kept (replace_lease d id x a)
  unfolding replace_lease
  replace_lease-Kept id l x e s sound =
      let owned = (find_lease_sound id cap.table l cap.sound e).1 in
      if_cases {A = Step} Kept d.replace_fails (λ _. cap)
        λ _. record {
          table = put_lease id x cap.table;
          holds = rw cap.holds (put_file-files id x cap.table (s.0 ∙ owned));
          sound = All-put_lease id l x IsLease cap.table e (λ _. sound) cap.sound;
          within = IsWithin-put_lease id l x c v h cap.table e s cap.within;
        }

  move_released-Kept :
      (now : ℕ) (id : String) (l : AdmissionLease) → Kept (move_released h d now id l a)
  unfolding move_released
  move_released-Kept now id l =
      if_cases {A = Step} Kept (d.move_fails id) (λ _. cap)
        λ _. elim (Option-cases (find_file id a.leases)) [
          | inl e ↦ rw e cap
          | inr (f, e) ↦ rw e (record {
            table = remove_lease id cap.table;
            holds = rw cap.holds (remove_file-files id cap.table);
            sound = All-remove_lease id IsLease cap.table cap.sound;
            within = IsWithin-remove_lease id c v h cap.table cap.within;
          })
        ]

  pub heartbeat_lease-IsCapped :
      (locked : Bool) (ttl now : ℕ) (o : LeaseOwnerRef)
      → 1 ≤ now
      → Kept (heartbeat_lease d locked ttl now o a)
  unfolding heartbeat_lease
  heartbeat_lease-IsCapped locked ttl now o pos =
      if_cases {A = Step} Kept (not (is_job_id o.job_id)) (λ _. cap)
        λ _.
          with_own_lease-Kept locked o (λ l. replace_lease d o.job_id (extend ttl now l) a)
            λ l e.
              replace_lease-Kept o.job_id l (extend ttl now l) e (refl, refl, refl)
                (extend-IsLease ttl now l pos (find_lease_sound o.job_id cap.table l cap.sound e).0)

  pub release_lease-IsCapped :
      (locked : Bool) (now : ℕ) (o : LeaseOwnerRef) → Kept (release_lease h d locked now o a)
  unfolding release_lease
  release_lease-IsCapped locked now o =
      if_cases {A = Step} Kept (not (is_job_id o.job_id)) (λ _. cap)
        λ _.
          with_own_lease-Kept locked o (λ l. move_released h d now o.job_id l a)
            λ l e. move_released-Kept now o.job_id l

  transfer_checked-Kept :
      (locked : Bool) (ttl now : ℕ) (o : LeaseOwnerRef) (next : Option LeaseOwnerRef)
      → 1 ≤ now
      → Kept (transfer_checked d locked ttl now o next a)
  unfolding transfer_checked
  transfer_checked-Kept locked ttl now o none pos = cap
  transfer_checked-Kept locked ttl now o (some n) pos =
      if_cases {A = Step} Kept (is_next_owner o.job_id (some n))
        (λ next.
          with_own_lease-Kept locked o (λ l. replace_lease d o.job_id (take_over ttl now n l) a)
            λ l e.
              let sound = find_lease_sound o.job_id cap.table l cap.sound e in
              replace_lease-Kept o.job_id l (take_over ttl now n l) e (refl, refl, refl)
                (take_over-IsLease ttl now n l pos
                  (subst (λ x. is_next_owner x (some n) ≡ true) (sym sound.1) next) sound.0))
        (λ _. cap)

  pub transfer_lease_owner-IsCapped :
      (locked : Bool) (ttl now : ℕ) (o : LeaseOwnerRef) (next : Option LeaseOwnerRef)
      → 1 ≤ now
      → Kept (transfer_lease_owner d locked ttl now o next a)
  unfolding transfer_lease_owner
  transfer_lease_owner-IsCapped locked ttl now o next pos =
      if_cases {A = Step} Kept (not (is_job_id o.job_id)) (λ _. cap)
        λ _. transfer_checked-Kept locked ttl now o next pos
