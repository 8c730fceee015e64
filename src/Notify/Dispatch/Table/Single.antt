-- ===== src/Notify/Dispatch/Table/Single.antt =====
-- firemex/notify/dispatcher.py: one escalation for an incident.
use fireme_x.Base.{
  ==_iff, ℕ, ◌≡◌, refl, ◌≢◌, true, false, Option, none, some, List, [], ◌∷◌, arith, ◌==◌,
  if◌then◌else◌, Bool-cases, Option-cases, inl, inr,
}
use mathlib.Core.Path.{subst}
use fireme_x.Base.Dict.{Dict, lookup, lookup-insert, lookup-insert_ne}
use fireme_x.Notify.Dispatch.Types.{DispatchRun}
use fireme_x.Notify.Dispatch.Table.{
  Task, Board, is_live, dispatch, file_run, change_run, cancelled_run, cancel_task, cancel_run,
  acknowledge_run,
}

-- what another part asks of the dispatcher between the end of an incident's task and its next one
pub data Request : Type 0 where
  dispatch_request : ℕ → Request
  cancel_request : ℕ → ℕ → ℕ → Request
  acknowledge_request : ℕ → ℕ → Request
  file_request : DispatchRun → Request

abbrev pub serve : Request → Board → Board
serve (dispatch_request i) b = dispatch i b
serve (cancel_request i why now) b = (cancel_run i why now b).1
serve (acknowledge_request i contact) b = (acknowledge_run i contact b).1
serve (file_request run) b = file_run run b

abbrev pub serve_all : List Request → Board → Board
serve_all [] b = b
serve_all (r ∷ rs) b = serve_all rs (serve r b)

-- the number of the live task of an incident
abbrev pub live_number : Option Task → Option ℕ
live_number none = none
live_number (some t) = if t.is_done then none else some t.number

still_live : (o : Option Task) (n : ℕ) → live_number o ≡ some n → is_live o ≡ false → ⊥
still_live none n e f = ground arith
still_live (some t) n e f = ground arith

dispatch_keeps :
    (j i n : ℕ) (b : Board)
    → live_number (lookup i b.tasks) ≡ some n
    → live_number (lookup i (dispatch j b).tasks) ≡ some n
unfolding dispatch
dispatch_keeps j i n b e = elim (Bool-cases (is_live (lookup j b.tasks))) [
  | inl live ↦ rw live e
  | inr free ↦ elim (Bool-cases (j == i)) [
    | inl same ↦ absurd (still_live (lookup i b.tasks) n e (rw ((==_iff j i).0 same) at free))
    | inr other ↦ rw free (
        ground (
          arith,
          lookup-insert i j (record { number = b.started; is_done = false; is_cancelling = false })
              b.tasks,
        ))
  ]
]

cancel_task_keeps :
    (j why now i n : ℕ) (o : Option Task) (b : Board)
    → lookup j b.tasks ≡ o
    → live_number (lookup i b.tasks) ≡ some n
    → live_number (lookup i (cancel_task j why now o b).1.tasks) ≡ some n
unfolding cancel_task
cancel_task_keeps j why now i n none b found e = e
cancel_task_keeps j why now i n (some t) b found e = elim (Bool-cases t.is_done) [
  | inl over ↦ rw over e
  | inr live ↦ elim (Bool-cases (j == i)) [
    | inl same ↦
        let mine : lookup i b.tasks ≡ some t =
          subst (λ k. lookup k b.tasks ≡ some t) ((==_iff j i).0 same) found in
        rw live
          (ground (arith, mine, lookup-insert i j (record t { is_cancelling = true }) b.tasks))
    | inr other ↦
        rw live (ground (arith, lookup-insert i j (record t { is_cancelling = true }) b.tasks))
  ]
]

serve_keeps :
    (r : Request) (i n : ℕ) (b : Board)
    → live_number (lookup i b.tasks) ≡ some n
    → live_number (lookup i (serve r b).tasks) ≡ some n
unfolding cancel_run acknowledge_run file_run
serve_keeps (dispatch_request j) i n b e = dispatch_keeps j i n b e
serve_keeps (cancel_request j why now) i n b e =
    cancel_task_keeps j why now i n (lookup j b.tasks) b refl e
serve_keeps (acknowledge_request j contact) i n b e = e
serve_keeps (file_request run) i n b e = e

-- While the task of an incident's escalation is live, no sequence of dispatches, cancellations,
-- acknowledgements and new runs, of this incident or of others, puts another task in its place: an
-- incident has one escalation at a time.
pub serve_all_keeps :
    (rs : List Request) (i n : ℕ) (b : Board)
    → live_number (lookup i b.tasks) ≡ some n
    → live_number (lookup i (serve_all rs b).tasks) ≡ some n
serve_all_keeps [] i n b e = e
serve_all_keeps (r ∷ rs) i n b e = serve_all_keeps rs i n (serve r b) (serve_keeps r i n b e)

change_run_other :
    (i j : ℕ) (f : DispatchRun → DispatchRun) (o : Option DispatchRun) (runs : Dict DispatchRun)
    → j ≢ i
    → lookup j (change_run i f o runs) ≡ lookup j runs
unfolding change_run
change_run_other i j f none runs ne = refl
change_run_other i j f (some run) runs ne = lookup-insert_ne j i (f run) runs ne

-- A cancellation is accepted exactly when the incident has a live task; then the incident's run, if there
-- is one, is marked cancelled with the reason, and no other incident's run changes.
pub cancel_run_lem :
    (i why now : ℕ) (b : Board)
    → let (accepted, b') = cancel_run i why now b in
      (accepted ≡ is_live (lookup i b.tasks))
      × (accepted ≡ false → b' ≡ b)
      × ((run : DispatchRun)
          → accepted ≡ true
          → lookup i b.runs ≡ some run
          → lookup i b'.runs ≡ some (cancelled_run why now run))
      × ((j : ℕ) → j ≢ i → lookup j b'.runs ≡ lookup j b.runs)
unfolding cancel_run cancel_task change_run
cancel_run_lem i why now b = elim (Option-cases (lookup i b.tasks)) [
  | inl missing ↦ (
    ground arith,
    λ refused. ground arith,
    λ run accepted found. absurd (ground arith),
    λ j ne. ground arith,
  )
  | inr (t, there) ↦ elim (Bool-cases t.is_done) [
    | inl over ↦ (
      ground arith,
      λ refused. ground arith,
      λ run accepted found. absurd (ground arith),
      λ j ne. ground arith,
    )
    | inr live ↦ (
      ground arith,
      λ refused. absurd (ground arith),
      λ run accepted found. ground (arith, lookup-insert i i (cancelled_run why now run) b.runs),
      λ j ne.
          ground (
            arith,
            there,
            change_run_other i j (cancelled_run why now) (lookup i b.runs) b.runs ne,
          ),
    )
  ]
]

-- a live task is asked to stop
pub cancel_run-task :
    (i why now : ℕ) (b : Board) (t : Task)
    → lookup i b.tasks ≡ some t
    → t.is_done ≡ false
    → ((cancel_run i why now b).0 ≡ true)
      × (lookup i (cancel_run i why now b).1.tasks ≡ some (record t { is_cancelling = true }))
unfolding cancel_run cancel_task
cancel_run-task i why now b t there live =
    (ground arith, ground (arith, lookup-insert i i (record t { is_cancelling = true }) b.tasks))
