-- ===== src/Api/Finalizer/Once.antt =====
-- A record that waits is finalized once.
use browser_agent.Common.{
  String, ◌≡◌, ◌≢◌, refl, sym, ap, ◌∙◌, true, false, Option, some, List, [], ◌∷◌, All, map, str_eq,
  eq_iff, lookup, lookup-insert, Bool-cases, Option-cases, inl, inr, ◌⊎◌, arith,
}
use browser_agent.Api.Registry.{RunRecord, RunRegistry, register, pending_finalization}
use browser_agent.Api.Finalizer.{Workflow, tick, Event, ticks, registers, works, work, step, run}
use browser_agent.Api.Finalizer.Visits.{
  Completed, Waiting, IsValid, Fate, insert-IsValid, lookup-id, at_state, not_pending,
  visit_all-IsValid, visit_all_ne, visit_all-Fate,
}

module _ {V : Type 0} (workflow : Workflow V) where
  -- Events that do not register anew under an id.
  abbrev pub Unregistered : String → Event workflow → Type 0
  Unregistered id ticks = Unit {0}
  Unregistered id (registers rec) = rec.run_id ≢ id
  Unregistered id (works i f) = Unit {0}

  step-IsValid :
      (e : Event workflow) (runs : RunRegistry V)
      → IsValid workflow runs
      → IsValid workflow (step workflow e runs)
  unfolding step tick register
  step-IsValid ticks runs w =
      visit_all-IsValid workflow (map (λ rec. rec.run_id) (pending_finalization runs)) runs w
  step-IsValid (registers rec) runs w = insert-IsValid workflow rec.run_id rec runs refl w
  step-IsValid (works i f) runs w = elim (Option-cases (lookup i runs)) [
    | inl e ↦ rw (step, e) w
    | inr (rec, e) ↦
        rw (step, e) (insert-IsValid workflow i _ runs (sym (lookup-id workflow i rec runs w e)) w)
  ]

  -- What work does to the record under an id.
  lookup-works :
      (id i : String) (f : V → V) (rec : RunRecord V) (runs : RunRegistry V)
      → lookup id runs ≡ some rec
      → (o : Option V) × (lookup id (step workflow (works i f) runs)
          ≡ some (record rec { workflow = o }))
  unfolding step
  lookup-works id i f rec runs found = elim (Option-cases (lookup i runs)) [
    | inl e ↦ (rec.workflow, rw (step, e) found)
    | inr (other, e) ↦ elim (Bool-cases (str_eq i id)) [
      | inl eq ↦
          let same : lookup i runs ≡ some rec =
            ap (λ x. lookup x runs) ((eq_iff i id).0 eq) ∙ found in
          ((work workflow f rec).workflow, rw (step, same) (lookup-insert i id _ runs ∙ rw eq refl))
      | inr ne ↦ (rec.workflow, rw (step, e) (lookup-insert i id _ runs ∙ rw ne found))
    ]
  ]

  step-Fate :
      (before rec : RunRecord V) (id : String) (e : Event workflow) (runs : RunRegistry V)
      → IsValid workflow runs
      → Unregistered id e
      → lookup id runs ≡ some rec
      → Fate workflow before rec
      → (rec' : RunRecord V) × (lookup id (step workflow e runs) ≡ some rec')
        × Fate workflow before rec'
  unfolding step tick register
  step-Fate before rec id ticks runs w u found f =
      visit_all-Fate workflow before rec id (map (λ rec. rec.run_id) (pending_finalization runs))
        runs w found f
  step-Fate before rec id (registers r) runs w u found f =
      (rec, lookup-insert r.run_id id r runs ∙ ground (arith, eq_iff r.run_id id, u, found), f)
  step-Fate before rec id (works i g) runs w u found f =
      let (o, found') = lookup-works id i g rec runs found in
      (record rec { workflow = o }, found', at_state workflow before rec o f)

  step-Kept :
      (rec : RunRecord V) (id : String) (e : Event workflow) (runs : RunRegistry V)
      → IsValid workflow runs
      → Unregistered id e
      → lookup id runs ≡ some rec
      → rec.awaits_finalization ≡ false
      → (o : Option V) × (lookup id (step workflow e runs) ≡ some (record rec { workflow = o }))
  unfolding step tick register
  step-Kept rec id ticks runs w u found settled = (
    rec.workflow,
    visit_all_ne workflow id (map (λ rec. rec.run_id) (pending_finalization runs)) runs w
          (not_pending workflow id runs w (λ r q. ground (arith, found, q, settled)))
        ∙ found,
  )
  step-Kept rec id (registers r) runs w u found settled = (
    rec.workflow,
    lookup-insert r.run_id id r runs ∙ ground (arith, eq_iff r.run_id id, u, found),
  )
  step-Kept rec id (works i g) runs w u found settled = lookup-works id i g rec runs found

  run-IsValid :
      (es : List (Event workflow)) (runs : RunRegistry V)
      → IsValid workflow runs
      → IsValid workflow (run workflow es runs)
  unfolding run
  run-IsValid [] runs w = w
  run-IsValid (e ∷ es) runs w = run-IsValid es _ (step-IsValid e runs w)

  run-Fate :
      (before rec : RunRecord V) (id : String) (es : List (Event workflow)) (runs : RunRegistry V)
      → IsValid workflow runs
      → All (Unregistered id) es
      → lookup id runs ≡ some rec
      → Fate workflow before rec
      → (rec' : RunRecord V) × (lookup id (run workflow es runs) ≡ some rec')
        × Fate workflow before rec'
  unfolding run
  run-Fate before rec id [] runs w u found f = (rec, found, f)
  run-Fate before rec id (e ∷ es) runs w u found f =
      let (rec', found', f') = step-Fate before rec id e runs w u.0 found f in
      run-Fate before rec' id es (step workflow e runs) (step-IsValid e runs w) u.1 found' f'

  run-Kept :
      (rec : RunRecord V) (id : String) (es : List (Event workflow)) (runs : RunRegistry V)
      → IsValid workflow runs
      → All (Unregistered id) es
      → lookup id runs ≡ some rec
      → rec.awaits_finalization ≡ false
      → (o : Option V) × (lookup id (run workflow es runs) ≡ some (record rec { workflow = o }))
  unfolding run
  run-Kept rec id [] runs w u found settled = (rec.workflow, found)
  run-Kept rec id (e ∷ es) runs w u found settled =
      let (o, found') = step-Kept rec id e runs w u.0 found settled in
      run-Kept (record rec { workflow = o }) id es (step workflow e runs) (step-IsValid e runs w)
        u.1 found' settled

  -- The record after the first events and after the others: it still waits after the first, or finalize has
  -- returned on a queue that was drained and the others change nothing but the state of its workflow.
  abbrev pub Once : String → RunRecord V → RunRegistry V → RunRegistry V → Type 0
  Once id before runs runs' =
      (rec : RunRecord V) × (lookup id runs ≡ some rec)
      × (Waiting workflow before rec
          ⊎ (Completed workflow rec
              × ((o : Option V) × (lookup id runs' ≡ some (record rec { workflow = o })))))

  -- Whatever ticks of the finalizer, registrations of other runs and work of agents there are, in any
  -- order, a record that waits in a valid registry waits on as it is, or is completed with the totals that
  -- finalize returned on a drained queue, and then nothing finalizes it again.
  pub run-Once :
      (id : String) (before : RunRecord V) (es es' : List (Event workflow)) (runs : RunRegistry V)
      → IsValid workflow runs
      → lookup id runs ≡ some before
      → before.awaits_finalization ≡ true
      → All (Unregistered id) es
      → All (Unregistered id) es'
      → Once id before (run workflow es runs) (run workflow es' (run workflow es runs))
  run-Once id before es es' runs w found waits u u' =
      let start : Waiting workflow before before = record {
        status = refl;
        total = refl;
        passed = refl;
        failed = refl;
        run_root = refl;
        waits = waits;
      } in
      let (rec, found', f) = run-Fate before before id es runs w u found (inl start) in
      (rec, found', onwards rec found' f)
    where
      onwards :
          (rec : RunRecord V)
          → lookup id (run workflow es runs) ≡ some rec
          → Fate workflow before rec
          → Waiting workflow before rec
            ⊎ (Completed workflow rec
                × ((o : Option V) × (lookup id (run workflow es' (run workflow es runs))
                      ≡ some (record rec { workflow = o }))))
      onwards rec found' (inl waiting) = inl waiting
      onwards rec found' (inr c) = inr (
        c,
        run-Kept rec id es' (run workflow es runs) (run-IsValid es runs w) u' found' c.settled,
      )
