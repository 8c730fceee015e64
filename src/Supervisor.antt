-- ===== src/Supervisor.antt =====
-- firemex/supervisor.py: the operator's actions, `cancel_incident` and `acknowledge_incident`, over the
-- incident engines, the dispatcher's tables and the incidents of the store. What is published to the
-- dashboards is left out. Of a stored incident the columns that these actions set are modelled.
use fireme_x.Base.{
  ℕ, Bool, true, false, not, ◌&&◌, ◌||◌, Option, none, some, List, [], ◌∷◌, if◌then◌else◌, is_some,
}
use fireme_x.Base.Dict.{Dict, lookup, insert}
use fireme_x.Base.Ratio.{Ratio}
use fireme_x.Incident.Types.{Incident, IncidentEvent, Severity, Labels}
use fireme_x.Incident.Engine.{Engine, cancel}
use fireme_x.Incident.Fleet.{Fleet, has_incident}
use fireme_x.Notify.Acks.{acknowledge}
use fireme_x.Notify.Dispatch.Table.{Board, cancel_run, acknowledge_run}
pub mod Cancellation
pub mod Events
pub mod Results
pub mod Bus
pub mod Routes
pub mod Settings
pub mod Pipeline

pub record Row : Type 0 where
  pub closed_at : Option ℕ
  pub severity : Severity
  pub labels : Labels
  pub peak_confidence : ℕ
  pub growth_ratio : Ratio
  pub false_positive : Bool
  pub review_reason : Option ℕ
  pub acknowledged_by : Option ℕ
  pub acknowledged_at : Option ℕ

pub record Supervisor : Type 0 where
  pub engine : Fleet
  pub has_dispatcher : Bool
  pub board : Board
  pub store : Dict Row

-- `self.engine.find_incident(incident_id)`, with the camera under which that engine stands
unfoldable pub locate : ℕ → Fleet → Option (ℕ × Engine)
unfolding has_incident
locate i [] = none
locate i ((k, e) ∷ f) =
    let rest = locate i f in if has_incident i e.incident then some (k, e) else rest

-- `store.update_incident`: whether there is such an incident, and the table
update_row : ℕ → (Row → Row) → Option Row → Dict Row → Bool × Dict Row
update_row i f none rows = (false, rows)
update_row i f (some r) rows = (true, insert i (f r) rows)

unfoldable pub update_incident : ℕ → (Row → Row) → Dict Row → Bool × Dict Row
unfolding update_row
update_incident i f rows = update_row i f (lookup i rows) rows

-- `camera_engine.cancel(reason) if camera_engine else None`, on the engine where it stands
cancel_engine : Option (ℕ × Engine) → Fleet → Option IncidentEvent × Fleet
unfolding cancel
cancel_engine none f = (none, f)
cancel_engine (some (k, e)) f = let (e', event) = cancel e in (event, insert k e' f)

-- `incident.closed_wall or incident.opened_wall`
abbrev or_opened : Option ℕ → ℕ → ℕ
or_opened none opened = opened
or_opened (some closed) opened = closed

-- what `store.close_incident` sets
abbrev pub closed_row : Incident → Row → Row
closed_row i r = record r {
  closed_at = some (or_opened i.closed_wall i.opened_wall);
  severity = i.severity;
  labels = i.labels;
  peak_confidence = i.peak_confidence;
  growth_ratio = i.growth_ratio;
}

-- `store.close_incident(event.incident)`, if there was an event
close_row : Option IncidentEvent → Dict Row → Dict Row
unfolding update_incident
close_row none rows = rows
close_row (some event) rows = (update_incident event.incident.id (closed_row event.incident) rows).1

abbrev pub reviewed : ℕ → Row → Row
reviewed why r = record r { false_positive = true; review_reason = some why }

-- `self.dispatcher.cancel(incident_id, reason) if self.dispatcher else False`
abbrev cancel_dispatch : Bool → ℕ → ℕ → ℕ → Board → Bool × Board
unfolding cancel_run
cancel_dispatch has i why now b = if has then cancel_run i why now b else (false, b)

-- `cancel_incident`
unfoldable pub cancel_incident : ℕ → ℕ → ℕ → Supervisor → Bool × Supervisor
unfolding locate cancel_engine close_row update_incident cancel_dispatch
cancel_incident i why now s =
    let (stopped, board) = cancel_dispatch s.has_dispatcher i why now s.board in
    let (event, engine) = cancel_engine (locate i s.engine) s.engine in
    let (updated, store) = update_incident i (reviewed why) (close_row event s.store) in
    (
      updated || is_some event || stopped,
      record s { engine = engine; board = board; store = store },
    )

-- the dispatcher's `acknowledge`, or the bus where there is no dispatcher
abbrev acknowledge_by : Bool → ℕ → ℕ → Board → Bool × Board
unfolding acknowledge_run acknowledge
acknowledge_by has i contact b =
    if has
    then acknowledge_run i contact b
    else (let (accepted, bus) = acknowledge i contact b.bus in (accepted, record b { bus = bus }))

-- `acknowledge_incident`
unfoldable pub acknowledge_incident : ℕ → ℕ → ℕ → Supervisor → Bool × Supervisor
unfolding acknowledge_by update_incident
acknowledge_incident i contact now s =
    let (accepted, board) = acknowledge_by s.has_dispatcher i contact s.board in
    (
      accepted,
      record s {
        board = board;
        store =
            if accepted
            then (update_incident i
                (λ r. record r { acknowledged_by = some contact; acknowledged_at = some now })
                s.store).1
            else s.store;
      },
    )
