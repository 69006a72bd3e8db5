-- ===== src/Retention/Totals.antt =====
-- src/retention.ts: the totals of a plan are those of its items.
use codex_job_orchestrator.Common.{
  ℕ, ◌+◌, ◌≡◌, refl, sym, ◌∙◌, Bool, Option, none, some, List, [], ◌∷◌, ◌++◌, arith, count_if,
  count_if-append, if◌then◌else◌, if_cases,
}
use codex_job_orchestrator.Retention.Policy.{RetentionAction}
use codex_job_orchestrator.Retention.Scan.{RetentionPlanItem}
use codex_job_orchestrator.Retention.Plan.{
  Dirs, PlanOptions, RetentionPlanTotals, RetentionPlan, same_action, empty_plan, add, add_all,
  item_before, insert_item, sort_items, scanned, plan_retention,
}

abbrev pub is_action : RetentionAction → RetentionPlanItem → Bool
is_action a it = same_action it.action a

unfoldable pub total : (RetentionPlanItem → ℕ) → List RetentionPlanItem → ℕ
total w [] = 0
total w (it ∷ its) = w it + total w its

abbrev pub action_bytes : RetentionAction → RetentionPlanItem → ℕ
action_bytes a it = if same_action it.action a then it.bytes else 0

abbrev pub bytes_of : RetentionAction → List RetentionPlanItem → ℕ
bytes_of a its = total (action_bytes a) its

-- For each action, the number of the items and their bytes.
abbrev pub Tallies : List RetentionPlanItem → RetentionPlanTotals → Type 0
Tallies its t =
    (a : RetentionAction) → (t.counts a ≡ count_if (is_action a) its) × (t.bytes a ≡ bytes_of a its)

total-append :
    (w : RetentionPlanItem → ℕ) (xs ys : List RetentionPlanItem)
    → total w (xs ++ ys) ≡ total w xs + total w ys
unfolding total
total-append w [] ys = omega arith
total-append w (x ∷ xs) ys = omega (arith, total-append w xs ys)

add-Tallies :
    (o : Option RetentionPlanItem) (p : RetentionPlan)
    → Tallies p.items p.totals
    → Tallies (add o p).items (add o p).totals
unfolding add total
add-Tallies none p t = t
add-Tallies (some it) p t = λ a.
    let (c, b) = t a in
    (
      ground (arith, count_if-append (is_action a) p.items (it ∷ [])),
      ground (arith, total-append (action_bytes a) p.items (it ∷ [])),
    )

add_all-Tallies :
    (os : List (Option RetentionPlanItem)) (p : RetentionPlan)
    → Tallies p.items p.totals
    → Tallies (add_all os p).items (add_all os p).totals
add_all-Tallies [] p t = t
add_all-Tallies (o ∷ os) p t = add_all-Tallies os (add o p) (add-Tallies o p t)

insert_item-count :
    (p : RetentionPlanItem → Bool) (x : RetentionPlanItem) (ys : List RetentionPlanItem)
    → count_if p (insert_item x ys) ≡ count_if p (x ∷ ys)
insert_item-count p x [] = refl
insert_item-count p x (y ∷ ys) =
    let c = insert_item-count p x ys in
    if_cases {A = List RetentionPlanItem} (λ zs. count_if p zs ≡ count_if p (x ∷ y ∷ ys))
      (item_before x y) (λ t. refl) (λ f. ground arith)

insert_item-total :
    (w : RetentionPlanItem → ℕ) (x : RetentionPlanItem) (ys : List RetentionPlanItem)
    → total w (insert_item x ys) ≡ total w (x ∷ ys)
unfolding total
insert_item-total w x [] = refl
insert_item-total w x (y ∷ ys) =
    let c = insert_item-total w x ys in
    if_cases {A = List RetentionPlanItem} (λ zs. total w zs ≡ total w (x ∷ y ∷ ys))
      (item_before x y) (λ t. refl) (λ f. omega arith)

sort_items-count :
    (p : RetentionPlanItem → Bool) (xs : List RetentionPlanItem)
    → count_if p (sort_items xs) ≡ count_if p xs
sort_items-count p [] = refl
sort_items-count p (x ∷ xs) =
    let c = sort_items-count p xs in let d = insert_item-count p x (sort_items xs) in ground arith

sort_items-total :
    (w : RetentionPlanItem → ℕ) (xs : List RetentionPlanItem) → total w (sort_items xs) ≡ total w xs
unfolding total
sort_items-total w [] = refl
sort_items-total w (x ∷ xs) =
    omega (arith, sort_items-total w xs, insert_item-total w x (sort_items xs))

no_bytes : (a : RetentionAction) → 0 ≡ bytes_of a []
unfolding total
no_bytes a = refl

-- The totals of a plan are, action by action, the number and the bytes of the items listed.
pub plan_retention-Tallies :
    (o : PlanOptions) (d : Dirs) → Tallies (plan_retention o d).items (plan_retention o d).totals
unfolding plan_retention
plan_retention-Tallies o d = λ a.
    let its = (add_all (scanned o d) empty_plan).items in
    let (c, b) = add_all-Tallies (scanned o d) empty_plan (λ x. (refl, no_bytes x)) a in
    (c ∙ sym (sort_items-count (is_action a) its), b ∙ sym (sort_items-total (action_bytes a) its))
