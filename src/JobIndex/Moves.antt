-- ===== src/JobIndex/Moves.antt =====
-- src/job-index.ts: a job that changes its session or its start, and the lists of the sessions.
use codex_job_orchestrator.Common.{
  dict_get, dict_set, suc, ◌≤◌, max, String, ◌≡◌, refl, sym, ap, subst, inl, inr, Bool, true, false,
  not, ◌&&◌, Option, none, some, List, arith, str_eq, eq_iff, eq_refl, Dict, one_if, length,
  if◌then◌else◌, Bool-cases, if_cases,
}
use codex_job_orchestrator.JobIndex.Types.{IndexedJob}
use codex_job_orchestrator.JobIndex.Sessions.{
  session_order_cap, inserted, inserted_trimmed, without, moved,
}
use codex_job_orchestrator.JobIndex.Apply.{update_session}
use codex_job_orchestrator.JobIndex.Shape.{
  list_of, occurrences, list_of-dict_set, list_of-set_or_delete, occurrences-without,
}
use codex_job_orchestrator.JobIndex.Listed.{
  occurrences-inserted, occurrences-inserted_trimmed, length-inserted, length-inserted_trimmed,
  occurrences-put, sessions_arith, stay_arith, length-put, length-without, occurrences-moved,
  length-moved,
}

abbrev pub is_in : String → IndexedJob → Bool
is_in s r = str_eq r.session_id s

module _ (by_id : Dict IndexedJob) (prev rec : IndexedJob) (d : Dict (List String)) where
  first : Dict (List String)
  first = dict_set rec.session_id (inserted_trimmed (dict_get rec.session_id d) rec by_id false) d

  left : Dict (List String)
  unfolding first
  left = without prev.session_id rec.job_id (dict_get prev.session_id first) first

  module _ (c s : String) (b : Bool) (before : occurrences c (list_of (dict_get s d)) ≤ one_if b)
      (known : str_eq c rec.job_id ≡ true → b ≡ is_in s prev)
      (only : occurrences rec.job_id (list_of (dict_get rec.session_id d)) ≤ 1) where
    at_first : occurrences c (list_of (dict_get s first)) ≤ (
        if str_eq rec.session_id s && str_eq c rec.job_id
        then max 1 (occurrences c (list_of (dict_get s d)))
        else occurrences c (list_of (dict_get s d)))
    unfolding first
    at_first =
        occurrences-put c (str_eq c rec.job_id) rec.session_id s
          (inserted_trimmed (dict_get rec.session_id d) rec by_id false) d
          (occurrences-inserted_trimmed c rec by_id (dict_get rec.session_id d) false (λ e. cc))

    at_moved :
        occurrences rec.job_id (list_of (dict_get rec.session_id first)) ≤ 1
        → str_eq prev.session_id rec.session_id ≡ true
        → occurrences c
            (list_of (dict_get s (moved rec (dict_get rec.session_id first) by_id first)))
          ≤ one_if (if str_eq c rec.job_id then is_in s rec else b)
    at_moved one e =
        stay_arith (is_in s prev) (is_in s rec) (str_eq c rec.job_id)
          (occurrences c (list_of (dict_get s d))) (occurrences c (list_of (dict_get s first)))
          (occurrences c
            (list_of (dict_get s (moved rec (dict_get rec.session_id first) by_id first))))
          b before at_first
          (occurrences-moved by_id rec c s (dict_get rec.session_id first) first refl one) known
          (ap (λ z. str_eq z s) ((eq_iff prev.session_id rec.session_id).0 e))

    at_left :
        occurrences c (
          list_of (
            dict_get s (
              dict_set rec.session_id
                (inserted (dict_get rec.session_id left) rec by_id false)
                left)))
        ≤ one_if (if str_eq c rec.job_id then is_in s rec else b)
    unfolding left
    at_left =
        sessions_arith (is_in s prev) (is_in s rec) (str_eq c rec.job_id)
          (occurrences c (list_of (dict_get s d))) (occurrences c (list_of (dict_get s first)))
          (occurrences c (list_of (dict_get s left)))
          (occurrences c (
            list_of (
              dict_get s (
                dict_set rec.session_id (inserted (dict_get rec.session_id left) rec by_id false)
                  left))))
          b before at_first (occurrences-without c prev.session_id rec.job_id s first)
          (occurrences-put c (str_eq c rec.job_id) rec.session_id s
            (inserted (dict_get rec.session_id left) rec by_id false) left
            (subst
              (λ z. z ≤ (
                if str_eq c rec.job_id
                then max 1 (occurrences c (list_of (dict_get rec.session_id left)))
                else occurrences c (list_of (dict_get rec.session_id left))))
              (sym (occurrences-inserted c rec by_id (dict_get rec.session_id left)))
              (omega arith)))
          known

    at_stay :
        str_eq prev.session_id rec.session_id ≡ true
        → occurrences c (list_of (dict_get s first))
          ≤ one_if (if str_eq c rec.job_id then is_in s rec else b)
    at_stay e =
        stay_arith (is_in s prev) (is_in s rec) (str_eq c rec.job_id)
          (occurrences c (list_of (dict_get s d))) (occurrences c (list_of (dict_get s first)))
          (occurrences c (list_of (dict_get s first))) b before at_first (ground arith) known
          (ap (λ z. str_eq z s) ((eq_iff prev.session_id rec.session_id).0 e))

    once : occurrences rec.job_id (list_of (dict_get rec.session_id first)) ≤ 1
    unfolding first
    once =
        let h =
          occurrences-put rec.job_id (str_eq rec.job_id rec.job_id) rec.session_id rec.session_id
            (inserted_trimmed (dict_get rec.session_id d) rec by_id false) d
            (occurrences-inserted_trimmed rec.job_id rec by_id (dict_get rec.session_id d) false
              (λ e. cc)) in
        ground (arith, h, eq_refl rec.session_id, eq_refl rec.job_id)

    pub occurrences-update_session :
        occurrences c (list_of (dict_get s (update_session by_id prev rec d)))
        ≤ one_if (if str_eq c rec.job_id then is_in s rec else b)
    unfolding update_session first left
    occurrences-update_session =
        if_cases
          (λ z.
            occurrences c (list_of (dict_get s z))
            ≤ one_if (if str_eq c rec.job_id then is_in s rec else b))
          (not (str_eq prev.session_id rec.session_id)) (λ t. at_left)
          (λ f.
            if_cases
              (λ z.
                occurrences c (list_of (dict_get s z))
                ≤ one_if (if str_eq c rec.job_id then is_in s rec else b))
              (not (str_eq prev.started_at rec.started_at)) (λ t. at_moved once (ground arith))
              (λ g. at_stay (ground arith)))

  length-first :
      (s : String)
      → length (list_of (dict_get s d)) ≤ suc session_order_cap
      → length (list_of (dict_get s first)) ≤ suc session_order_cap
  unfolding first
  length-first s =
      length-put rec.session_id s (suc session_order_cap)
        (inserted_trimmed (dict_get rec.session_id d) rec by_id false) d
        (omega (arith, length-inserted_trimmed rec by_id (dict_get rec.session_id d) false))

  -- The list of the job's new session is within the cap when the old one is left.
  length-left :
      str_eq prev.session_id rec.session_id ≡ false
      → length (list_of (dict_get rec.session_id left)) ≤ session_order_cap
  unfolding first left
  length-left f =
      rw (length-left-same f (dict_get prev.session_id first) refl)
        (length-inserted_trimmed rec by_id (dict_get rec.session_id d) false)
    where
      length-left-same :
          str_eq prev.session_id rec.session_id ≡ false
          → (o : Option (List String)) → dict_get prev.session_id first ≡ o
          → list_of (dict_get rec.session_id (without prev.session_id rec.job_id o first))
            ≡ inserted_trimmed (dict_get rec.session_id d) rec by_id false
      length-left-same f none e = rw (list_of-dict_set, eq_refl rec.session_id) refl
      length-left-same f (some list) e =
          rw (list_of-set_or_delete, f, list_of-dict_set, eq_refl rec.session_id) refl

  pub length-update_session :
      (s : String)
      → ((t : String) → length (list_of (dict_get t d)) ≤ suc session_order_cap)
      → length (list_of (dict_get s (update_session by_id prev rec d))) ≤ suc session_order_cap
  unfolding update_session first left
  length-update_session s h = elim (Bool-cases (str_eq prev.session_id rec.session_id)) [
    | inl t ↦ rw t (
        if_cases (λ z. length (list_of (dict_get s z)) ≤ suc session_order_cap)
          (not (str_eq prev.started_at rec.started_at))
          (λ g.
            length-moved by_id rec s (suc session_order_cap) (dict_get rec.session_id first) first
              (length-first rec.session_id (h rec.session_id)) (length-first s (h s)))
          (λ g. length-first s (h s)))
    | inr f ↦ rw f (
        length-put rec.session_id s (suc session_order_cap)
          (inserted (dict_get rec.session_id left) rec by_id false) left
          (omega (arith, length-inserted rec by_id (dict_get rec.session_id left), length-left f))
          (length-without prev.session_id rec.job_id s (suc session_order_cap)
            (dict_get prev.session_id first) first refl
            (length-first prev.session_id (h prev.session_id)) (length-first s (h s))))
  ]
