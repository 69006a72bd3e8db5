-- ===== src/JobIndex/Listed.antt =====
-- src/job-index.ts: what the updates of `applyIndexedJob` do to the lists of the sessions.
use codex_job_orchestrator.Common.{
  dict_get, dict_set, ℕ, suc, ◌-◌, ◌≤◌, max, String, ◌≡◌, refl, subst, inl, inr, Bool, true, false,
  not, ◌&&◌, Option, none, some, List, arith, str_eq, eq_iff, eq_refl, Dict, one_if, length,
  count_if-le, ltb, if◌then◌else◌, ltb→lt, Bool-cases, if_cases,
}
use codex_job_orchestrator.JobIndex.Types.{IndexedJob}
use codex_job_orchestrator.JobIndex.Sessions.{
  contains, insert_at, remove_first, find_place, sorted_insert, session_order_cap, inserted,
  inserted_trimmed, without, moved,
}
use codex_job_orchestrator.JobIndex.Shape.{
  list_of, occurrences, occurrences-insert_at, occurrences-remove_first, occurrences-drop,
  contains-occurrences, length-drop, length-insert_at, length-remove_first, list_of-dict_set,
  list_of-set_or_delete,
}

module _ (c : String) (job : IndexedJob) (by_id : Dict IndexedJob) where
  occurrences-sorted_insert :
      (list : List String) (known_absent : Bool)
      → (known_absent ≡ true → contains job.job_id list ≡ false)
      → occurrences c (sorted_insert list job by_id known_absent)
        ≡ (if str_eq c job.job_id then max 1 (occurrences c list) else occurrences c list)
  unfolding sorted_insert
  occurrences-sorted_insert list ka absent = elim (Bool-cases (str_eq c job.job_id)) [
    | inl e ↦ by_test ka absent e (
        subst (λ z. contains z list ≡ ltb 0 (occurrences c list)) ((eq_iff c job.job_id).0 e)
          (contains-occurrences c list))
    | inr e ↦
        if_cases
          (λ z.
            occurrences c z
            ≡ (if str_eq c job.job_id then max 1 (occurrences c list) else occurrences c list))
          (not ka && contains job.job_id list) (λ t. rw e refl)
          (λ f. rw (occurrences-insert_at, e) (omega arith))
  ]
    where
      place : ℕ
      place = find_place (length list) job list by_id 0 (length list)

      by_test :
          (ka : Bool)
          → (ka ≡ true → contains job.job_id list ≡ false)
          → str_eq c job.job_id ≡ true
          → contains job.job_id list ≡ ltb 0 (occurrences c list)
          → occurrences c (sorted_insert list job by_id ka)
            ≡ (if str_eq c job.job_id then max 1 (occurrences c list) else occurrences c list)
      by_test true absent e h = rw (occurrences-insert_at, e) (ground (arith, absent refl))
      by_test false absent e h = rw e (
          if_cases (λ z. occurrences c z ≡ max 1 (occurrences c list)) (contains job.job_id list)
            (λ t. ground arith) (λ f. rw (occurrences-insert_at, e) (ground arith)))

  pub occurrences-inserted :
      (o : Option (List String))
      → occurrences c (inserted o job by_id false) ≡ (
          if str_eq c job.job_id
          then max 1 (occurrences c (list_of o))
          else occurrences c (list_of o))
  occurrences-inserted none = ground arith
  occurrences-inserted (some list) = occurrences-sorted_insert list false (λ e. cc)

  pub occurrences-inserted_trimmed :
      (o : Option (List String)) (known_absent : Bool)
      → (known_absent ≡ true → contains job.job_id (list_of o) ≡ false)
      → occurrences c (inserted_trimmed o job by_id known_absent) ≤ (
          if str_eq c job.job_id
          then max 1 (occurrences c (list_of o))
          else occurrences c (list_of o))
  occurrences-inserted_trimmed none ka absent = ground arith
  occurrences-inserted_trimmed (some list) ka absent =
      let kept = sorted_insert list job by_id ka in
      omega (
        arith,
        occurrences-drop c (length kept - session_order_cap) kept,
        occurrences-sorted_insert list ka absent,
      )

module _ (job : IndexedJob) (by_id : Dict IndexedJob) where
  length-sorted_insert :
      (list : List String) (known_absent : Bool)
      → length (sorted_insert list job by_id known_absent) ≤ suc (length list)
  unfolding sorted_insert
  length-sorted_insert list ka =
      if_cases (λ z. length z ≤ suc (length list)) (not ka && contains job.job_id list) {x = list}
        {y = insert_at (find_place (length list) job list by_id 0 (length list)) job.job_id list}
        (λ t. omega arith) (λ f. rw length-insert_at (omega arith))

  pub length-inserted :
      (o : Option (List String)) → length (inserted o job by_id false) ≤ suc (length (list_of o))
  length-inserted none = omega arith
  length-inserted (some list) = length-sorted_insert list false

  pub length-inserted_trimmed :
      (o : Option (List String)) (known_absent : Bool)
      → length (inserted_trimmed o job by_id known_absent) ≤ session_order_cap
  length-inserted_trimmed none ka = omega arith
  length-inserted_trimmed (some list) ka =
      let kept = sorted_insert list job by_id ka in
      omega (arith, length-drop (length kept - session_order_cap) kept)

-- The list at s after the list at k is replaced by one that has gained the job at most.
pub occurrences-put :
    (c : String) (hit : Bool) (k s : String) (v : List String) (d : Dict (List String))
    → occurrences c v ≤ (
        if hit
        then max 1 (occurrences c (list_of (dict_get k d)))
        else occurrences c (list_of (dict_get k d)))
    → occurrences c (list_of (dict_get s (dict_set k v d))) ≤ (
        if str_eq k s && hit
        then max 1 (occurrences c (list_of (dict_get s d)))
        else occurrences c (list_of (dict_get s d)))
occurrences-put c hit k s v d h = elim (Bool-cases (str_eq k s)) [
  | inl e ↦
      rw (list_of-dict_set k s v d, e)
        (subst
          (λ t. occurrences c v ≤ (
            if hit
            then max 1 (occurrences c (list_of (dict_get t d)))
            else occurrences c (list_of (dict_get t d))))
          ((eq_iff k s).0 e) h)
  | inr e ↦ rw (list_of-dict_set k s v d, e) (omega arith)
]

-- On numbers, as for the replies.
pub sessions_arith :
    (p r hit : Bool) (m q u v : ℕ) (b : Bool)
    → m ≤ one_if b
    → q ≤ (if r && hit then max 1 m else m)
    → u ≡ q - one_if (p && hit)
    → v ≤ (if r && hit then max 1 u else u)
    → (hit ≡ true → b ≡ p)
    → v ≤ one_if (if hit then r else b)
sessions_arith p r true m q u v b h i j k e = ground arith
sessions_arith p r false m q u v b h i j k e = ground arith

pub stay_arith :
    (p r hit : Bool) (m q v : ℕ) (b : Bool)
    → m ≤ one_if b
    → q ≤ (if r && hit then max 1 m else m)
    → v ≤ (if r && hit then max 1 q else q)
    → (hit ≡ true → b ≡ p)
    → p ≡ r
    → v ≤ one_if (if hit then r else b)
stay_arith p r true m q v b h i j e f = ground arith
stay_arith p r false m q v b h i j e f = ground arith

pub length-put :
    (k s : String) (n : ℕ) (v : List String) (d : Dict (List String))
    → length v ≤ n
    → length (list_of (dict_get s d)) ≤ n
    → length (list_of (dict_get s (dict_set k v d))) ≤ n
length-put k s n v d h i =
    rw (list_of-dict_set k s v d) (if_cases (λ z. length z ≤ n) (str_eq k s) (λ t. h) (λ f. i))

pub length-without :
    (k x s : String) (n : ℕ) (o : Option (List String)) (d : Dict (List String))
    → dict_get k d ≡ o
    → length (list_of (dict_get k d)) ≤ n
    → length (list_of (dict_get s d)) ≤ n
    → length (list_of (dict_get s (without k x o d))) ≤ n
length-without k x s n none d e h i = i
length-without k x s n (some list) d e h i =
    rw (list_of-set_or_delete k s (remove_first x list) d) (
      if_cases (λ z. length z ≤ n) (str_eq k s)
        (λ t. omega (arith, length-remove_first x list, subst (λ z. length (list_of z) ≤ n) e h))
        (λ f. i))

module _ (by_id : Dict IndexedJob) (rec : IndexedJob) where
  pub occurrences-moved :
      (c s : String) (o : Option (List String)) (d : Dict (List String))
      → dict_get rec.session_id d ≡ o
      → occurrences rec.job_id (list_of o) ≤ 1
      → occurrences c (list_of (dict_get s (moved rec o by_id d))) ≤ (
          if str_eq rec.session_id s && str_eq c rec.job_id
          then max 1 (occurrences c (list_of (dict_get s d)))
          else occurrences c (list_of (dict_get s d)))
  occurrences-moved c s none d e h = ground arith
  occurrences-moved c s (some list) d e h =
      if_cases
        (λ z. occurrences c (list_of (dict_get s z)) ≤ (
          if str_eq rec.session_id s && str_eq c rec.job_id
          then max 1 (occurrences c (list_of (dict_get s d)))
          else occurrences c (list_of (dict_get s d))))
        (contains rec.job_id list)
        (λ t.
          occurrences-put c (str_eq c rec.job_id) rec.session_id s
            (sorted_insert (remove_first rec.job_id list) rec by_id true) d (rw e (put_back t)))
        (λ f. ground arith)
    where
      gone : contains rec.job_id (remove_first rec.job_id list) ≡ false
      gone =
          rw contains-occurrences (
            ground (arith, occurrences-remove_first rec.job_id rec.job_id list, eq_refl rec.job_id))

      put_back :
          contains rec.job_id list ≡ true
          → occurrences c (sorted_insert (remove_first rec.job_id list) rec by_id true)
            ≤ (if str_eq c rec.job_id then max 1 (occurrences c list) else occurrences c list)
      put_back t =
          rw (occurrences-sorted_insert c rec by_id (remove_first rec.job_id list) true (λ _. gone))
            (ground (arith, occurrences-remove_first c rec.job_id list))

  pub length-moved :
      (s : String) (n : ℕ) (o : Option (List String)) (d : Dict (List String))
      → length (list_of o) ≤ n
      → length (list_of (dict_get s d)) ≤ n
      → length (list_of (dict_get s (moved rec o by_id d))) ≤ n
  length-moved s n none d h i = i
  length-moved s n (some list) d h i =
      if_cases (λ z. length (list_of (dict_get s z)) ≤ n) (contains rec.job_id list)
        (λ t.
          length-put rec.session_id s n
            (sorted_insert (remove_first rec.job_id list) rec by_id true) d (same_length t) i)
        (λ f. i)
    where
      some_there : contains rec.job_id list ≡ true → 1 ≤ length list
      some_there t = omega (
        arith,
        count_if-le (str_eq rec.job_id) list,
        ltb→lt 0 (occurrences rec.job_id list)
            (subst (λ b. b ≡ true) (contains-occurrences rec.job_id list) t),
      )

      same_length :
          contains rec.job_id list ≡ true
          → length (sorted_insert (remove_first rec.job_id list) rec by_id true) ≤ n
      same_length t = omega (
        arith,
        length-sorted_insert rec by_id (remove_first rec.job_id list) true,
        subst (λ b. length (remove_first rec.job_id list) ≡ length list - one_if b) t
            (length-remove_first rec.job_id list),
        some_there t,
        h,
      )
