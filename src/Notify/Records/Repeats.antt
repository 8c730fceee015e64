-- ===== src/Notify/Records/Repeats.antt =====
-- firemex/store.py: what `_record_run` does to a run that it has recorded before.
use fireme_x.Base.{
  Option-cases, ℕ, ◌+◌, ◌≡◌, refl, sym, ap, ◌∙◌, Bool, true, false, not, ◌&&◌, ◌||◌, Option, none,
  some, List, [], ◌∷◌, ◌++◌, arith, map, is_some, All, count_if, Bool-cases, inl, inr,
}
use mathlib.Core.Path.{ap₂, subst}
use mathlib.Core.List.{append-nil}
use fireme_x.Config.Types.{Channel}
use fireme_x.Notify.Dispatch.Types.{AlertResult, DispatchRun}
use fireme_x.Notify.Records.{
  same_provider, same_channel, IncidentRow, AlertRow, Tables, Key, same_key, row_key, attempt_key,
  has_key, alert_row, new_rows, existing_keys, note_run, change_incident, record_run,
}

-- an attempt that the provider gave no id, and a row of one
abbrev pub is_blank : AlertResult → Bool
is_blank a = not (is_some a.provider_id)

abbrev pub is_blank_row : AlertRow → Bool
is_blank_row r = not (is_some r.provider_id)

count_if-append :
    (p : AlertRow → Bool) (xs ys : List AlertRow)
    → count_if p (xs ++ ys) ≡ count_if p xs + count_if p ys
count_if-append p [] ys = omega arith
count_if-append p (x ∷ xs) ys = ground (arith, count_if-append p xs ys)

count_if-new_rows :
    (i : ℕ) (attempts : List AlertResult) (existing : List Key)
    → count_if is_blank_row (new_rows i attempts existing) ≡ count_if is_blank attempts
unfolding new_rows
count_if-new_rows i [] existing = refl
count_if-new_rows i (a ∷ attempts) existing = ground (
  arith,
  count_if-new_rows i attempts existing,
  count_if-new_rows i attempts (attempt_key a ∷ existing),
)

-- Each time that a run is recorded, all its attempts without a provider's id are stored once more,
-- whether or not they were stored before: the rows of this kind grow by their number.
pub record_run_repeats :
    (now : ℕ) (run : DispatchRun) (t : Tables)
    → count_if is_blank_row (record_run now run t).alerts
      ≡ count_if is_blank_row t.alerts + count_if is_blank run.attempts
unfolding record_run
record_run_repeats now run t = omega (
  arith,
  count_if-append is_blank_row t.alerts
      (new_rows run.incident_id run.attempts (existing_keys run.incident_id t.alerts)),
  count_if-new_rows run.incident_id run.attempts (existing_keys run.incident_id t.alerts),
)

same_channel_refl : (c : Channel) → same_channel c c ≡ true
same_channel_refl Channel.call = refl
same_channel_refl Channel.sms = refl

same_provider_refl : (o : Option ℕ) → same_provider o o ≡ true
same_provider_refl none = refl
same_provider_refl (some n) = ground arith

same_key_refl : (k : Key) → same_key k k ≡ true
unfolding same_key
same_key_refl k = ground (arith, same_channel_refl k.0, same_provider_refl k.2)

-- the key of the attempt is there already, or new
Covered : List Key → List AlertRow → AlertResult → Type 0
Covered existing rows a =
    (has_key (attempt_key a) existing || has_key (attempt_key a) (map row_key rows)) ≡ true

Covered-cons :
    (i : ℕ) (a : AlertResult) (existing : List Key) (rows : List AlertRow)
    (attempts : List AlertResult)
    → All (Covered (attempt_key a ∷ existing) rows) attempts
    → All (Covered existing (alert_row i a ∷ rows)) attempts
unfolding Covered
Covered-cons i a existing rows [] h = tt
Covered-cons i a existing rows (b ∷ attempts) h =
    (ground (arith, h.0), Covered-cons i a existing rows attempts h.1)

new_rows_old :
    (i : ℕ) (a : AlertResult) (attempts : List AlertResult) (existing : List Key)
    → (has_key (attempt_key a) existing && is_some a.provider_id) ≡ true
    → new_rows i (a ∷ attempts) existing ≡ new_rows i attempts existing
unfolding new_rows
new_rows_old i a attempts existing e = ground arith

new_rows_new :
    (i : ℕ) (a : AlertResult) (attempts : List AlertResult) (existing : List Key)
    → (has_key (attempt_key a) existing && is_some a.provider_id) ≡ false
    → new_rows i (a ∷ attempts) existing
      ≡ alert_row i a ∷ new_rows i attempts (attempt_key a ∷ existing)
unfolding new_rows
new_rows_new i a attempts existing e = ground arith

new_rows-Covered :
    (i : ℕ) (attempts : List AlertResult) (existing : List Key)
    → All (Covered existing (new_rows i attempts existing)) attempts
unfolding Covered
new_rows-Covered i [] existing = tt
new_rows-Covered i (a ∷ attempts) existing =
    elim (Bool-cases (has_key (attempt_key a) existing && is_some a.provider_id)) [
      | inl old ↦
          subst (λ rows. All (Covered existing rows) (a ∷ attempts))
            (sym (new_rows_old i a attempts existing old))
            (ground arith, new_rows-Covered i attempts existing)
      | inr new ↦
          let added : List AlertRow = new_rows i attempts (attempt_key a ∷ existing) in
          subst (λ rows. All (Covered existing rows) (a ∷ attempts))
            (sym (new_rows_new i a attempts existing new))
            (
              ground (arith, same_key_refl (attempt_key a)),
              Covered-cons i a existing added attempts
                  (new_rows-Covered i attempts (attempt_key a ∷ existing)),
            )
    ]

-- where every attempt's key is there, attempts with a provider's id add nothing
new_rows-none :
    (i : ℕ) (attempts : List AlertResult) (existing : List Key)
    → All (λ a. has_key (attempt_key a) existing ≡ true) attempts
    → All (λ a. is_blank a ≡ false) attempts
    → new_rows i attempts existing ≡ []
unfolding new_rows
new_rows-none i [] existing h k = refl
new_rows-none i (a ∷ attempts) existing h k =
    ground (arith, h.0, k.0, new_rows-none i attempts existing h.1 k.1)

has_key-append :
    (k : Key) (xs ys : List Key) → has_key k (xs ++ ys) ≡ (has_key k xs || has_key k ys)
has_key-append k [] ys = refl
has_key-append k (x ∷ xs) ys = ground (arith, has_key-append k xs ys)

existing_keys-new_rows :
    (i : ℕ) (attempts : List AlertResult) (existing : List Key)
    → existing_keys i (new_rows i attempts existing) ≡ map row_key (new_rows i attempts existing)
unfolding new_rows
existing_keys-new_rows i [] existing = refl
existing_keys-new_rows i (a ∷ attempts) existing = ground (
  arith,
  existing_keys-new_rows i attempts existing,
  existing_keys-new_rows i attempts (attempt_key a ∷ existing),
)

existing_keys-append :
    (i : ℕ) (xs ys : List AlertRow)
    → existing_keys i (xs ++ ys) ≡ existing_keys i xs ++ existing_keys i ys
existing_keys-append i [] ys = refl
existing_keys-append i (x ∷ xs) ys = ground (arith, existing_keys-append i xs ys)

Covered-existing :
    (i : ℕ) (rows added : List AlertRow) (attempts : List AlertResult)
    → existing_keys i added ≡ map row_key added
    → All (Covered (existing_keys i rows) added) attempts
    → All (λ a. has_key (attempt_key a) (existing_keys i (rows ++ added)) ≡ true) attempts
unfolding Covered
Covered-existing i rows added [] e h = tt
Covered-existing i rows added (a ∷ attempts) e h = (
  ap (has_key (attempt_key a)) (existing_keys-append i rows added)
      ∙ has_key-append (attempt_key a) (existing_keys i rows) (existing_keys i added)
      ∙ rw e h.0,
  Covered-existing i rows added attempts e h.1,
)

note_run_twice :
    (now now' : ℕ) (run : DispatchRun) (r : IncidentRow)
    → note_run now' run (note_run now run r) ≡ note_run now run r
unfolding note_run
note_run_twice now now' run r = elim (Option-cases run.acknowledged_by) [
  | inl quiet ↦ ground arith
  | inr (c, by) ↦ elim (Option-cases r.acknowledged_at) [
    | inl first ↦ ground arith
    | inr (at, again) ↦ ground arith
  ]
]

note_run-id : (now : ℕ) (run : DispatchRun) (r : IncidentRow) → (note_run now run r).id ≡ r.id
unfolding note_run
note_run-id now run r = ground arith

change_incident_twice :
    (k now now' : ℕ) (run : DispatchRun) (rows : List IncidentRow)
    → change_incident k (note_run now' run) (change_incident k (note_run now run) rows)
      ≡ change_incident k (note_run now run) rows
unfolding change_incident
change_incident_twice k now now' run [] = refl
change_incident_twice k now now' run (r ∷ rows) = ground (
  arith,
  note_run-id now run r,
  note_run_twice now now' run r,
  change_incident_twice k now now' run rows,
)

-- Where the provider gave every attempt of a run an id, recording the run again, at any later time,
-- changes nothing: no attempt is stored twice, and the first time of the acknowledgement stays.
pub record_run_twice :
    (now now' : ℕ) (run : DispatchRun) (t : Tables)
    → All (λ a. is_blank a ≡ false) run.attempts
    → record_run now' run (record_run now run t) ≡ record_run now run t
unfolding record_run
record_run_twice now now' run t named =
    let i : ℕ = run.incident_id in
    let before : List Key = existing_keys i t.alerts in
    let added : List AlertRow = new_rows i run.attempts before in
    let none_new : new_rows i run.attempts (existing_keys i (t.alerts ++ added)) ≡ [] =
      new_rows-none i run.attempts (existing_keys i (t.alerts ++ added))
        (Covered-existing i t.alerts added run.attempts
          (existing_keys-new_rows i run.attempts before) (new_rows-Covered i run.attempts before))
        named in
    ap₂
      (λ (rows : List IncidentRow) (alerts : List AlertRow). record {
        incidents = rows;
        alerts = alerts;
      })
      (change_incident_twice i now now' run t.incidents)
      (ap (λ rows. (t.alerts ++ added) ++ rows) none_new ∙ append-nil (t.alerts ++ added))
