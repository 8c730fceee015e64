-- ===== src/Notify/Dispatch/Table.antt =====
-- firemex/notify/dispatcher.py: the tables of tasks and runs that `AlertDispatcher` keeps. A task is live
-- or done; the coroutine that it runs is modelled by the sibling modules.
use fireme_x.Base.{
  ℕ, ◌+◌, Bool, true, false, Option, none, some, List, [], ◌∷◌, ◌==◌, if◌then◌else◌,
}
use fireme_x.Base.Dict.{Dict, lookup, insert}
use fireme_x.Notify.Acks.{AckBus, acknowledge}
use fireme_x.Notify.Dispatch.Types.{RunStatus, Detail, reason, DispatchRun}
pub mod Single

-- a task: its number, whether it is done, and whether its cancellation was asked for
pub record Task : Type 0 where
  pub number : ℕ
  pub is_done : Bool
  pub is_cancelling : Bool

-- the dispatcher's tables and the bus; `started` counts the tasks that were created
pub record Board : Type 0 where
  pub tasks : Dict Task
  pub runs : Dict DispatchRun
  pub bus : AckBus
  pub started : ℕ

-- a live task of an option
abbrev pub is_live : Option Task → Bool
is_live none = false
is_live (some t) = if t.is_done then false else true

-- a new task for an incident
abbrev pub start_task : ℕ → Board → Board
start_task i b = record b {
  tasks = insert i (record { number = b.started; is_done = false; is_cancelling = false }) b.tasks;
  started = b.started + 1;
}

-- `dispatch`: an incident whose task is live gets no second one
unfoldable pub dispatch : ℕ → Board → Board
dispatch i b = if is_live (lookup i b.tasks) then b else start_task i b

-- the start of `run`: the new record is filed under the incident
unfoldable pub file_run : DispatchRun → Board → Board
file_run run b = record b { runs = insert run.incident_id run b.runs }

-- the run of an incident, changed, if there is one
change_run :
    ℕ → (DispatchRun → DispatchRun) → Option DispatchRun → Dict DispatchRun → Dict DispatchRun
change_run i f none runs = runs
change_run i f (some run) runs = insert i (f run) runs

abbrev pub cancelled_run : ℕ → ℕ → DispatchRun → DispatchRun
cancelled_run why now run = record run {
  status = RunStatus.cancelled;
  detail = some (reason why);
  finished_wall = some now;
}

cancel_task : ℕ → ℕ → ℕ → Option Task → Board → Bool × Board
unfolding change_run
cancel_task i why now none b = (false, b)
cancel_task i why now (some t) b = if t.is_done then (false, b) else (
  true,
  record b {
    tasks = insert i (record t { is_cancelling = true }) b.tasks;
    runs = change_run i (cancelled_run why now) (lookup i b.runs) b.runs;
  },
)

-- `cancel`
unfoldable pub cancel_run : ℕ → ℕ → ℕ → Board → Bool × Board
unfolding cancel_task
cancel_run i why now b = cancel_task i why now (lookup i b.tasks) b

-- `acknowledge`
unfoldable pub acknowledge_run : ℕ → ℕ → Board → Bool × Board
unfolding acknowledge change_run
acknowledge_run i contact b =
    let (accepted, bus) = acknowledge i contact b.bus in
    (
      accepted,
      record b {
        bus = bus;
        runs =
            if accepted
            then change_run i (λ run. record run { acknowledged_by = some contact })
                (lookup i b.runs) b.runs
            else b.runs;
      },
    )

-- the task of an incident ends
end_task : ℕ → Option Task → Dict Task → Dict Task
end_task i none tasks = tasks
end_task i (some t) tasks = insert i (record t { is_done = true }) tasks

unfoldable pub finish_task : ℕ → Board → Board
unfolding end_task
finish_task i b = record b { tasks = end_task i (lookup i b.tasks) b.tasks }

-- `shutdown`, once its cancelled tasks have ended
abbrev pub shut_down : Board → Board
shut_down b = record b { tasks = [] }
