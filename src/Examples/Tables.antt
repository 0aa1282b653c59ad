-- ===== src/Examples/Tables.antt =====
-- Three monitors, a channel for all of them, a deletion, and a reconciliation a month later.
use uptime_mesh.Prelude.{
  ℕ, ◌≡◌, refl, arith, true, false, not, ◌&&◌, ◌||◌, leb, keep, List, [], ◌∷◌, none, some, String,
  str_eq, if◌then◌else◌, map, mem?, count_if, ◌==◌,
}
use uptime_mesh.Store.{unix_sec}
use uptime_mesh.Store.States.{hour_bucket}
use uptime_mesh.Store.Rounds.{is_open, Round, RowState}
use uptime_mesh.Store.Monitors.{
  MonitorRow, Database, attach_channel_to_monitors, detach_channel_from_monitors,
  delete_monitor_cascade, delete_monitors_cascade,
}
use uptime_mesh.Store.Monitors.Channels.{
  with_channel, channel_lists, others, no_faults, attach_channel_to_monitors_lem,
  detach_channel-attach_channel,
}
use uptime_mesh.Store.Monitors.Cascade.{
  is_success, belongings, nothing_left, delete_each, delete_monitor_cascade_lem,
  delete_monitors_cascade-each,
}
use uptime_mesh.Retention.{
  Reading, Reconciliation, cutoff_of, hourly_stats_retention_days, since, once, once_lem,
}
use uptime_mesh.Examples.Data.{open_row}

abbrev monitor : String → List String → MonitorRow
monitor id channels = record {
  id = id;
  enabled = true;
  channel_ids = some channels;
  updated_at = 1;
}

abbrev three : List MonitorRow
three = monitor "m1" [] ∷ monitor "m2" ("mail" ∷ "sms" ∷ []) ∷ monitor "m3" ("sms" ∷ []) ∷ []

attach_channel_to_monitors_lem_example :
    let once = (attach_channel_to_monitors no_faults three "mail" 8_000_000_000).0 in
    (once ≡ map (with_channel "mail" 8_000_000_000) three)
    × ((attach_channel_to_monitors no_faults once "mail" 9_000_000_000).0 ≡ once)
unfolding mem?
attach_channel_to_monitors_lem_example =
    attach_channel_to_monitors_lem "mail" three 8_000_000_000 9_000_000_000
      (refl, (refl, (refl, omega arith))) (refl, (refl, (refl, omega arith)))

detach_channel-attach_channel_example :
    let once = (attach_channel_to_monitors no_faults three "mail" 8_000_000_000).0 in
    channel_lists "mail" (detach_channel_from_monitors no_faults once "mail" 9_000_000_000).0
    ≡ map (others "mail") three
unfolding mem?
detach_channel-attach_channel_example =
    detach_channel-attach_channel "mail" three 8_000_000_000 9_000_000_000
      (refl, (refl, (refl, omega arith))) (refl, (refl, (refl, omega arith)))

abbrev round_of : String → String → RowState → Round ℕ
round_of id monitor_id state = record open_row {
  id = id;
  monitor_id = monitor_id;
  state = state;
  scheduled_at = 100;
}

abbrev tables : Database ℕ
tables = record {
  monitors = three;
  rounds =
      round_of "r1" "m1" RowState.closed
      ∷ round_of "r2" "m2" RowState.closed
      ∷ round_of "r3" "m1" RowState.opened
      ∷ [];
  results = [];
  hourly_stats = [];
  monitor_state_changes = [];
  monitor_states = [];
}

delete_monitor_cascade_lem_example :
    let gone = delete_monitor_cascade false tables "m1" in
    (is_success gone.1 ≡ not false && not (count_if (λ m. str_eq "m1" m.id) tables.monitors == 0))
    × (belongings (str_eq "m2") gone.0 ≡ (
        if is_success gone.1 && str_eq "m1" "m2"
        then nothing_left
        else belongings (str_eq "m2") tables))
delete_monitor_cascade_lem_example = delete_monitor_cascade_lem false tables "m1" "m2"

delete_monitors_cascade-each_example :
    (delete_monitors_cascade false tables ("m3" ∷ "m1" ∷ [])).0
    ≡ delete_each tables ("m3" ∷ "m1" ∷ [])
unfolding mem?
delete_monitors_cascade-each_example =
    delete_monitors_cascade-each ("m3" ∷ "m1" ∷ []) tables (refl, (refl, omega arith))
      (refl, (refl, omega arith))

abbrev a_month : Reading
a_month = record { result_retention_days = some 0; days_ago = λ days. 200_000_000_000 }

abbrev reconciles : Reconciliation
reconciles = record {
  for_results = record a_month { result_retention_days = none };
  for_rounds = a_month;
  for_changes = a_month;
  days_ago = λ days. 200_000_000_000;
  results_fail = λ i. false;
  rounds_fail = λ i. false;
  changes_fail = false;
  hours_fail = λ i. false;
}

-- The open round stays.
rounds_left :
    since
      (λ cutoff r. is_open r.state || leb (unix_sec cutoff) r.scheduled_at)
      (cutoff_of reconciles.for_rounds)
      tables.rounds
    ≡ round_of "r3" "m1" RowState.opened ∷ []
rounds_left = refl

once_lem_example :
    let hour = hour_bucket (reconciles.days_ago hourly_stats_retention_days) in
    ((once reconciles tables).rounds
      ≡ since
          (λ cutoff r. is_open r.state || leb (unix_sec cutoff) r.scheduled_at)
          (cutoff_of reconciles.for_rounds)
          tables.rounds)
    × ((once reconciles tables).results
        ≡ since
            (λ cutoff r. leb (unix_sec cutoff) r.created_at)
            (cutoff_of reconciles.for_results)
            tables.results)
    × ((once reconciles tables).monitor_state_changes
        ≡ since
            (λ cutoff c. leb (unix_sec cutoff) c.changed_at)
            (cutoff_of reconciles.for_changes)
            tables.monitor_state_changes)
    × ((once reconciles tables).hourly_stats ≡ keep (λ h. leb hour h.hour) tables.hourly_stats)
once_lem_example =
    once_lem reconciles tables (omega arith) (omega arith) (omega arith) refl refl refl refl
