-- ===== src/Supervisor/Events.antt =====
-- firemex/supervisor.py: `_handle_event`. The snapshot, the clip and what is published are left out.
use fireme_x.Base.{
  ℕ, ◌≡◌, refl, Bool, true, false, Option, none, some, arith, is_some, if◌then◌else◌,
}
use fireme_x.Base.Dict.{Dict, lookup, insert, lookup-insert, lookup-erase}
use fireme_x.Config.Types.{SiteConfig, CameraConfig}
use fireme_x.Config.Site.{camera}
use fireme_x.Incident.Types.{Incident, IncidentEvent, EventKind}
use fireme_x.Notify.Acks.{acknowledged_by, forget}
use fireme_x.Notify.Dispatch.Table.{Board, dispatch, is_live}
use fireme_x.Supervisor.{Supervisor, Row, closed_row, update_incident}

abbrev saved_row : Incident → Row → Row
saved_row i r = record r {
  severity = i.severity;
  labels = i.labels;
  peak_confidence = i.peak_confidence;
  growth_ratio = i.growth_ratio;
}

abbrev blank_row : Incident → Row
blank_row i = record {
  closed_at = none;
  severity = i.severity;
  labels = i.labels;
  peak_confidence = i.peak_confidence;
  growth_ratio = i.growth_ratio;
  false_positive = false;
  review_reason = none;
  acknowledged_by = none;
  acknowledged_at = none;
}

-- `store.save_incident`: a new row, or the row of that id
save_incident : Incident → Option Row → Dict Row → Dict Row
save_incident i none rows = insert i.id (blank_row i) rows
save_incident i (some r) rows = insert i.id (saved_row i r) rows

dispatch_if : Bool → ℕ → Board → Board
unfolding dispatch
dispatch_if has i b = if has then dispatch i b else b

handle_kind : EventKind → Incident → Supervisor → Supervisor
unfolding save_incident dispatch_if update_incident forget
handle_kind EventKind.opened i s = record s {
  store = save_incident i (lookup i.id s.store) s.store;
  board = dispatch_if s.has_dispatcher i.id s.board;
}
handle_kind EventKind.escalated i s = record s {
  store = (update_incident i.id (saved_row i) s.store).1;
}
handle_kind EventKind.closed i s = record s {
  store = (update_incident i.id (closed_row i) s.store).1;
  board = record (s.board) { bus = forget i.id s.board.bus };
}

handle_known : Option CameraConfig → IncidentEvent → Supervisor → Supervisor
unfolding handle_kind
handle_known none event s = s
handle_known (some c) event s = handle_kind event.kind event.incident s

-- `_handle_event`: the events of a camera that is no longer configured are dropped
unfoldable pub handle_event : SiteConfig → IncidentEvent → Supervisor → Supervisor
unfolding handle_known camera
handle_event site event s = handle_known (camera site event.incident.camera_id) event s

save_incident_stored :
    (i : Incident) (o : Option Row) (rows : Dict Row)
    → is_some (lookup i.id (save_incident i o rows)) ≡ true
unfolding save_incident
save_incident_stored i none rows = ground (arith, lookup-insert i.id i.id (blank_row i) rows)
save_incident_stored i (some r) rows = ground (arith, lookup-insert i.id i.id (saved_row i r) rows)

dispatch_live : (i : ℕ) (b : Board) → is_live (lookup i (dispatch i b).tasks) ≡ true
unfolding dispatch
dispatch_live i b = ground (
  arith,
  lookup-insert i i (record { number = b.started; is_done = false; is_cancelling = false }) b.tasks,
)

-- what `_handle_event` leaves, for each kind of event
abbrev pub Handled : EventKind → ℕ → Supervisor → Supervisor → Type 0
Handled EventKind.opened i s s' =
    (is_some (lookup i s'.store) ≡ true)
    × (s.has_dispatcher ≡ true → is_live (lookup i s'.board.tasks) ≡ true)
Handled EventKind.escalated i s s' = s'.board ≡ s.board
Handled EventKind.closed i s s' =
    (acknowledged_by i s'.board.bus ≡ none) × (s'.board.tasks ≡ s.board.tasks)

handle_kind-Handled :
    (kind : EventKind) (i : Incident) (s : Supervisor) → Handled kind i.id s (handle_kind kind i s)
unfolding handle_kind dispatch_if forget
handle_kind-Handled EventKind.opened i s = (
  save_incident_stored i (lookup i.id s.store) s.store,
  λ has. rw has (dispatch_live i.id s.board),
)
handle_kind-Handled EventKind.escalated i s = refl
handle_kind-Handled EventKind.closed i s =
    (ground (arith, lookup-erase i.id i.id s.board.bus.acked_by), refl)

-- An event of a configured camera: once its opening is handled the incident is stored and, where there is
-- a dispatcher, has a live escalation; an escalation leaves the dispatcher alone; a closing forgets the
-- incident's acknowledgement and leaves its escalation running.
pub handle_event-Handled :
    (site : SiteConfig) (event : IncidentEvent) (c : CameraConfig) (s : Supervisor)
    → camera site event.incident.camera_id ≡ some c
    → Handled event.kind event.incident.id s (handle_event site event s)
unfolding handle_event handle_known
handle_event-Handled site event c s known =
    rw known (handle_kind-Handled event.kind event.incident s)
