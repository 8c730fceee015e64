-- ===== src/Notify/Records.antt =====
-- firemex/store.py: `_record_run`, which writes the progress of an escalation run to the database. Of an
-- incident's row the columns that a run sets are modelled; a table is the list of its rows.
use fireme_x.Base.{
  ℕ, Bool, true, false, not, ◌&&◌, ◌||◌, Option, none, some, List, [], ◌∷◌, ◌++◌, ◌==◌,
  if◌then◌else◌, keep, any, map, is_some,
}
use fireme_x.Config.Types.{Channel}
use fireme_x.Notify.Dispatch.Types.{AlertResult, Outcome, RunStatus, DispatchRun}
pub mod Repeats

pub record IncidentRow : Type 0 where
  pub id : ℕ
  pub alert_status : Option RunStatus
  pub acknowledged_by : Option ℕ
  pub acknowledged_at : Option ℕ

pub record AlertRow : Type 0 where
  pub incident_id : ℕ
  pub channel : Channel
  pub contact_id : ℕ
  pub outcome : Outcome
  pub provider_id : Option ℕ
  pub error : Option ℕ

pub record Tables : Type 0 where
  pub incidents : List IncidentRow
  pub alerts : List AlertRow

-- the key of an attempt: channel, contact and the provider's id
abbrev pub Key : Type 0
Key = Channel × ℕ × Option ℕ

abbrev same_channel : Channel → Channel → Bool
same_channel Channel.call Channel.call = true
same_channel Channel.sms Channel.sms = true
same_channel _ _ = false

abbrev same_provider : Option ℕ → Option ℕ → Bool
same_provider none none = true
same_provider (some a) (some b) = a == b
same_provider _ _ = false

unfoldable pub same_key : Key → Key → Bool
same_key k j = same_channel k.0 j.0 && k.1 == j.1 && same_provider k.2 j.2

abbrev pub row_key : AlertRow → Key
row_key r = (r.channel, r.contact_id, r.provider_id)

abbrev pub attempt_key : AlertResult → Key
attempt_key a = (a.channel, a.contact_id, a.provider_id)

-- `key in existing`
abbrev pub has_key : Key → List Key → Bool
has_key k ks = any (same_key k) ks

abbrev pub alert_row : ℕ → AlertResult → AlertRow
alert_row incident a = record {
  incident_id = incident;
  channel = a.channel;
  contact_id = a.contact_id;
  outcome = a.outcome;
  provider_id = a.provider_id;
  error = a.error;
}

-- the loop over the attempts: the rows that it adds
unfoldable pub new_rows : ℕ → List AlertResult → List Key → List AlertRow
unfolding same_key
new_rows incident [] existing = []
new_rows incident (a ∷ attempts) existing =
    let skipped = new_rows incident attempts existing in
    let added = new_rows incident attempts (attempt_key a ∷ existing) in
    if has_key (attempt_key a) existing && is_some a.provider_id
    then skipped
    else alert_row incident a ∷ added

-- the keys of the rows of one incident
abbrev pub existing_keys : ℕ → List AlertRow → List Key
existing_keys incident rows = map row_key (keep (λ r. r.incident_id == incident) rows)

-- `record.acknowledged_at or _utcnow()`
abbrev or_now : Option ℕ → ℕ → Option ℕ
or_now none now = some now
or_now (some at) now = some at

abbrev acknowledge_row : Option ℕ → ℕ → IncidentRow → IncidentRow
acknowledge_row none now r = r
acknowledge_row (some contact) now r = record r {
  acknowledged_by = some contact;
  acknowledged_at = or_now r.acknowledged_at now;
}

unfoldable pub note_run : ℕ → DispatchRun → IncidentRow → IncidentRow
note_run now run r =
    acknowledge_row run.acknowledged_by now (record r { alert_status = some run.status })

-- the row of an id, changed
unfoldable pub change_incident :
    ℕ → (IncidentRow → IncidentRow) → List IncidentRow → List IncidentRow
change_incident k f [] = []
change_incident k f (r ∷ rows) =
    let rest = change_incident k f rows in if r.id == k then f r ∷ rows else r ∷ rest

-- `_record_run`
unfoldable pub record_run : ℕ → DispatchRun → Tables → Tables
unfolding new_rows note_run change_incident
record_run now run t = record {
  incidents = change_incident run.incident_id (note_run now run) t.incidents;
  alerts =
      t.alerts ++ new_rows run.incident_id run.attempts (existing_keys run.incident_id t.alerts);
}
