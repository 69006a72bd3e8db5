-- ===== src/JobIndex/Replies.antt =====
-- src/job-index.ts: what the updates of `applyIndexedJob` do to the lists of replies.
use codex_job_orchestrator.Common.{
  dict_get, ℕ, ◌+◌, ◌-◌, max, String, ◌≡◌, refl, sym, ap, subst, ◌⊎◌, inl, inr, Bool, true, false,
  not, ◌&&◌, Option, none, some, List, [], ◌∷◌, ◌++◌, arith, str_eq, eq_iff, eq_refl, Dict,
  str_eq_sym, one_if, count_if-append, ltb, if◌then◌else◌, Bool-cases, Option-cases, if_cases,
}
use codex_job_orchestrator.JobIndex.Types.{IndexedJob, same_text}
use codex_job_orchestrator.JobIndex.Sessions.{contains}
use codex_job_orchestrator.JobIndex.Apply.{add_to, add_child, drop_child, update_children}
use codex_job_orchestrator.JobIndex.Shape.{
  list_of, occurrences, contains-occurrences, list_of-dict_set, occurrences-without,
}

abbrev pub answers : String → IndexedJob → Bool
answers p r = same_text r.reply_to_job_id (some p)

-- Adding a reply.
occurrences-add_to :
    (c p id s : String) (d : Dict (List String))
    → occurrences c (list_of (dict_get s (add_to p id (dict_get p d) d)))
      ≡ occurrences c (list_of (dict_get s d))
        + one_if (str_eq p s && not (contains id (list_of (dict_get s d))) && str_eq c id)
occurrences-add_to c p id s d = elim (Bool-cases (str_eq p s)) [
  | inl e ↦
      subst
        (λ t.
          occurrences c (list_of (dict_get t (add_to p id (dict_get p d) d)))
          ≡ occurrences c (list_of (dict_get t d))
            + one_if (str_eq p t && not (contains id (list_of (dict_get t d))) && str_eq c id))
        ((eq_iff p s).0 e) (here (Option-cases (dict_get p d)))
  | inr e ↦ rw (e, there e (dict_get p d)) (omega arith)
]
  where
    there :
        str_eq p s ≡ false
        → (o : Option (List String))
        → list_of (dict_get s (add_to p id o d)) ≡ list_of (dict_get s d)
    there e none = rw (list_of-dict_set p s (id ∷ []) d, e) refl
    there e (some cs) =
        if_cases (λ z. list_of (dict_get s z) ≡ list_of (dict_get s d)) (contains id cs) (λ h. refl)
          (λ h. rw (list_of-dict_set p s (cs ++ (id ∷ [])) d, e) refl)

    here :
        (dict_get p d ≡ none) ⊎ ((a : List String) × (dict_get p d ≡ some a))
        → occurrences c (list_of (dict_get p (add_to p id (dict_get p d) d)))
          ≡ occurrences c (list_of (dict_get p d))
            + one_if (str_eq p p && not (contains id (list_of (dict_get p d))) && str_eq c id)
    here (inl e) = rw (e, list_of-dict_set p p (id ∷ []) d, eq_refl p) (ground arith)
    here (inr (a, e)) = elim (Bool-cases (contains id a)) [
      | inl h ↦ rw (e, h, e, eq_refl p) (omega arith)
      | inr h ↦
          rw (e, h, list_of-dict_set p p (a ++ (id ∷ [])) d, eq_refl p)
            (ground (arith, count_if-append (str_eq c) a (id ∷ [])))
    ]

pub str_eq_comm : (a b : String) → str_eq a b ≡ str_eq b a
str_eq_comm a b = elim (Bool-cases (str_eq a b)) [
  | inl e ↦ rw e (subst (λ z. true ≡ str_eq z a) ((eq_iff a b).0 e) (sym (eq_refl a)))
  | inr e ↦ rw (e, str_eq_sym a b e) refl
]

pub occurrences-add_child :
    (c : String) (r : Option String) (id s : String) (d : Dict (List String))
    → occurrences c (list_of (dict_get s (add_child r id d))) ≡ (
        if same_text r (some s) && str_eq c id
        then max 1 (occurrences c (list_of (dict_get s d)))
        else occurrences c (list_of (dict_get s d)))
occurrences-add_child c none id s d = refl
occurrences-add_child c (some p) id s d = elim (Bool-cases (str_eq c id)) [
  | inl e ↦
      rw
        (
          occurrences-add_to c p id s d,
          e,
          subst
              (λ z.
                contains z (list_of (dict_get s d))
                ≡ ltb 0 (occurrences c (list_of (dict_get s d))))
              ((eq_iff c id).0 e) (contains-occurrences c (list_of (dict_get s d))),
        )
        (ground arith)
  | inr e ↦ rw (occurrences-add_to c p id s d, e) (ground arith)
]

occurrences-drop_child :
    (c : String) (r : Option String) (id s : String) (d : Dict (List String))
    → occurrences c (list_of (dict_get s (drop_child r id d)))
      ≡ occurrences c (list_of (dict_get s d)) - one_if (same_text r (some s) && str_eq c id)
occurrences-drop_child c none id s d = omega arith
occurrences-drop_child c (some p) id s d = occurrences-without c p id s d

same_text-some :
    (a b : Option String) (s : String)
    → same_text a b ≡ true
    → same_text a (some s) ≡ same_text b (some s)
same_text-some none none s h = refl
same_text-some none (some b) s h = cc
same_text-some (some a) none s h = cc
same_text-some (some a) (some b) s h = ap (λ z. str_eq z s) ((eq_iff a b).0 h)

-- The replies after an update, on numbers: m is what they were, p and r say whether the job
-- answered and answers this parent.
replies_arith :
    (same p r hit : Bool) (m : ℕ) (b : Bool)
    → m ≡ one_if b
    → (hit ≡ true → b ≡ p)
    → (same ≡ true → p ≡ r)
    → (if same
        then (if r && hit then max 1 m else m)
        else (if r && hit
            then max 1 ((if r && hit then max 1 m else m) - one_if (p && hit))
            else (if r && hit then max 1 m else m) - one_if (p && hit)))
      ≡ one_if (if hit then r else b)
replies_arith same p r true m b h e f = ground arith
replies_arith same p r false m b h e f = ground arith

module _ (prev rec : IndexedJob) (d : Dict (List String)) (c s : String) (b : Bool) where
  pub occurrences-update_children :
      occurrences c (list_of (dict_get s d)) ≡ one_if b
      → (str_eq c rec.job_id ≡ true → b ≡ answers s prev)
      → occurrences c (list_of (dict_get s (update_children prev rec d)))
        ≡ one_if (if str_eq c rec.job_id then answers s rec else b)
  unfolding update_children
  occurrences-update_children h e =
      elim (Bool-cases (same_text prev.reply_to_job_id rec.reply_to_job_id)) [
        | inl t ↦
            rw (t, occurrences-add_child c rec.reply_to_job_id rec.job_id s d)
              (replies_arith true (answers s prev) (answers s rec) (str_eq c rec.job_id)
                (occurrences c (list_of (dict_get s d))) b h e
                (λ _. same_text-some prev.reply_to_job_id rec.reply_to_job_id s t))
        | inr f ↦
            rw
              (
                f,
                occurrences-add_child c rec.reply_to_job_id rec.job_id s (
                    drop_child prev.reply_to_job_id rec.job_id
                      (add_child rec.reply_to_job_id rec.job_id d)),
                occurrences-drop_child c prev.reply_to_job_id rec.job_id s
                    (add_child rec.reply_to_job_id rec.job_id d),
                occurrences-add_child c rec.reply_to_job_id rec.job_id s d,
              )
              (replies_arith false (answers s prev) (answers s rec) (str_eq c rec.job_id)
                (occurrences c (list_of (dict_get s d))) b h e (λ x. cc))
      ]
