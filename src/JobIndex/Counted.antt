-- ===== src/JobIndex/Counted.antt =====
-- src/job-index.ts: the counts and lists that `applyIndexedJob` keeps agree with the records.
use codex_job_orchestrator.Common.{
  dict_get, dict_set, ℕ, suc, ◌+◌, ◌-◌, ◌≤◌, max, String, ◌≡◌, refl, subst, Bool, true, false, ◌&&◌,
  none, some, [], ◌∷◌, arith, str_eq, eq_iff, eq_refl, Dict, one_if, dict_get-dict_set, holds,
  tally, tally-dict_set, length, if◌then◌else◌,
}
use codex_job_orchestrator.JobIndex.Types.{IndexedJob, JobIndex, same_status}
use codex_job_orchestrator.JobIndex.Sessions.{contains, session_order_cap, inserted_trimmed}
use codex_job_orchestrator.JobIndex.Apply.{bump, unbump, change_job, create_job}
use codex_job_orchestrator.JobIndex.Shape.{
  jobs_for_session, reply_children_of, occurrences, contains-occurrences,
}
use codex_job_orchestrator.JobIndex.Replies.{
  answers, str_eq_comm, occurrences-add_child, occurrences-update_children,
}
use codex_job_orchestrator.JobIndex.Listed.{
  occurrences-inserted_trimmed, length-inserted_trimmed, occurrences-put, length-put,
}
use codex_job_orchestrator.JobIndex.Moves.{is_in, occurrences-update_session, length-update_session}
use codex_job_orchestrator.JobStore.Status.{JobStatus}

abbrev has_status : JobStatus → IndexedJob → Bool
has_status s r = same_status r.status s

-- The counts are those of the records, a job stands once among the replies of its parent and of
-- no other job, and at most once in the list of its session and in no other; a list is longer than
-- the cap by one entry at most.
pub record IsCounted (x : JobIndex) : Type 0 where
  pub counts : (s : JobStatus) → x.status_counts s ≡ tally (has_status s) x.by_id
  pub replies :
      (p c : String)
      → occurrences c (reply_children_of x p) ≡ one_if (holds (answers p) (dict_get c x.by_id))
  pub sessions :
      (s c : String)
      → occurrences c (jobs_for_session x s) ≤ one_if (holds (is_in s) (dict_get c x.by_id))
  pub capped : (s : String) → length (jobs_for_session x s) ≤ suc session_order_cap

tally-holds :
    (p : IndexedJob → Bool) (k : String) (r : IndexedJob) (d : Dict IndexedJob)
    → dict_get k d ≡ some r
    → one_if (p r) ≤ tally p d
unfolding dict_get
tally-holds p k r [] h = cc
tally-holds p k r ((j, w) ∷ d) h = ground (arith, tally-holds p k r d)

module _ (p : IndexedJob → Bool) (k : String) (rec : IndexedJob) (d : Dict IndexedJob) where
  tally_fresh : dict_get k d ≡ none → tally p (dict_set k rec d) ≡ tally p d + one_if (p rec)
  tally_fresh e = omega (
    arith,
    subst (λ o. tally p (dict_set k rec d) + one_if (holds p o) ≡ tally p d + one_if (p rec)) e
        (tally-dict_set p k rec d),
  )

  tally_changed :
      (prev : IndexedJob)
      → dict_get k d ≡ some prev
      → (tally p (dict_set k rec d) + one_if (p prev) ≡ tally p d + one_if (p rec))
        × (one_if (p prev) ≤ tally p d)
  tally_changed prev e = (
    subst (λ o. tally p (dict_set k rec d) + one_if (holds p o) ≡ tally p d + one_if (p rec)) e
        (tally-dict_set p k rec d),
    tally-holds p k prev d e,
  )

  holds_after :
      (c : String)
      → holds p (dict_get c (dict_set k rec d))
        ≡ (if str_eq k c then p rec else holds p (dict_get c d))
  holds_after c = rw (dict_get-dict_set k c rec d) (ground arith)

same_status-bump :
    (r s : JobStatus) (c : JobStatus → ℕ) → bump r c s ≡ c s + one_if (same_status r s)
same_status-bump r s c = ground arith

same_status-unbump :
    (r s : JobStatus) (c : JobStatus → ℕ) → unbump r c s ≡ c s - one_if (same_status r s)
same_status-unbump r s c = ground arith

module _ (x : JobIndex) (v : IsCounted x) (rec : IndexedJob) where
  pub change_job-IsCounted :
      (prev : IndexedJob)
      → dict_get rec.job_id x.by_id ≡ some prev
      → IsCounted (change_job x prev rec)
  unfolding change_job
  change_job-IsCounted prev e = record {
    counts = λ s.
        let (a, b) = tally_changed (has_status s) rec.job_id rec x.by_id prev e in
        omega (
          arith,
          same_status-bump rec.status s (unbump prev.status x.status_counts),
          same_status-unbump prev.status s x.status_counts,
          v.counts s,
          a,
          b,
        );
    replies = λ p c.
        rw (holds_after (answers p) rec.job_id rec x.by_id c, str_eq_comm rec.job_id c)
          (occurrences-update_children prev rec x.reply_children c p
            (holds (answers p) (dict_get c x.by_id)) (v.replies p c) (λ h. known (answers p) c h));
    sessions = λ s c.
        rw (holds_after (is_in s) rec.job_id rec x.by_id c, str_eq_comm rec.job_id c)
          (occurrences-update_session x.by_id prev rec x.session_order c s
            (holds (is_in s) (dict_get c x.by_id)) (v.sessions s c) (λ h. known (is_in s) c h)
            (omega (
              arith,
              v.sessions rec.session_id rec.job_id,
              one_if-le (holds (is_in rec.session_id) (dict_get rec.job_id x.by_id)),
            )));
    capped = λ s. length-update_session x.by_id prev rec x.session_order s v.capped;
  }
    where
      one_if-le : (b : Bool) → one_if b ≤ 1
      one_if-le b = ground arith

      known :
          (q : IndexedJob → Bool) (c : String)
          → str_eq c rec.job_id ≡ true
          → holds q (dict_get c x.by_id) ≡ q prev
      known q c h = rw ((eq_iff c rec.job_id).0 h, e) refl

  pub create_job-IsCounted : dict_get rec.job_id x.by_id ≡ none → IsCounted (create_job x rec)
  unfolding create_job
  create_job-IsCounted e = record {
    counts = λ s. omega (
      arith,
      same_status-bump rec.status s x.status_counts,
      v.counts s,
      tally_fresh (has_status s) rec.job_id rec x.by_id e,
    );
    replies = λ p c.
        rw
          (
            holds_after (answers p) rec.job_id rec x.by_id c,
            str_eq_comm rec.job_id c,
            occurrences-add_child c rec.reply_to_job_id rec.job_id p x.reply_children,
          )
          (fresh_reply (str_eq c rec.job_id) (answers p rec)
            (holds (answers p) (dict_get c x.by_id)) (occurrences c (reply_children_of x p))
            (v.replies p c) (λ h. fresh (answers p) c h));
    sessions = λ s c.
        rw (holds_after (is_in s) rec.job_id rec x.by_id c, str_eq_comm rec.job_id c)
          (fresh_session (str_eq c rec.job_id) (is_in s rec) (holds (is_in s) (dict_get c x.by_id))
            (occurrences c (jobs_for_session x s)) (v.sessions s c) (λ h. fresh (is_in s) c h)
            (occurrences-put c (str_eq c rec.job_id) rec.session_id s
              (inserted_trimmed (dict_get rec.session_id x.session_order) rec x.by_id true)
              x.session_order
              (occurrences-inserted_trimmed c rec x.by_id (dict_get rec.session_id x.session_order)
                true (λ _. absent))));
    capped = λ s.
        length-put rec.session_id s (suc session_order_cap)
          (inserted_trimmed (dict_get rec.session_id x.session_order) rec x.by_id true)
          x.session_order
          (omega (
            arith,
            length-inserted_trimmed rec x.by_id (dict_get rec.session_id x.session_order) true,
          ))
          (v.capped s);
  }
    where
      fresh :
          (q : IndexedJob → Bool) (c : String)
          → str_eq c rec.job_id ≡ true
          → holds q (dict_get c x.by_id) ≡ false
      fresh q c h = rw ((eq_iff c rec.job_id).0 h, e) refl

      absent : contains rec.job_id (jobs_for_session x rec.session_id) ≡ false
      absent = rw contains-occurrences (
          ground (
            arith,
            subst (λ b. occurrences rec.job_id (jobs_for_session x rec.session_id) ≤ one_if b)
                (fresh (is_in rec.session_id) rec.job_id (eq_refl rec.job_id))
                (v.sessions rec.session_id rec.job_id),
          ))

      fresh_reply :
          (hit r b : Bool) (m : ℕ)
          → m ≡ one_if b
          → (hit ≡ true → b ≡ false)
          → (if r && hit then max 1 m else m) ≡ one_if (if hit then r else b)
      fresh_reply true r b m h f = ground arith
      fresh_reply false r b m h f = ground arith

      fresh_session :
          (hit r b : Bool) (m : ℕ)
          → m ≤ one_if b
          → (hit ≡ true → b ≡ false)
          → {n : ℕ} → n ≤ (if r && hit then max 1 m else m)
          → n ≤ one_if (if hit then r else b)
      fresh_session true r b m h f i = ground arith
      fresh_session false r b m h f i = ground arith
