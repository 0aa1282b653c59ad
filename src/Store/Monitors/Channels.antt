-- ===== src/Store/Monitors/Channels.antt =====
-- The channels of all monitors, `AttachChannelToMonitors` and `DetachChannelFromMonitors` of
-- dashboard/internal/store/monitors.go.
use mathlib.Core.Path.{subst}
use uptime_mesh.Prelude.{
  ℕ, ◌≡◌, refl, sym, ap, ◌∙◌, true, false, not, List, [], ◌∷◌, ◌++◌, Option, none, some, String,
  str_eq, eq_iff, arith, keep, map, mem?, Distinct, if◌then◌else◌, Option-cases, inl, inr,
}
use uptime_mesh.Store.{unix_sec}
use uptime_mesh.Store.Monitors.{
  MonitorRow, Pending, ChannelFaults, has_string, collect, write_channels, attached, detached,
  attach_channel_to_monitors, detach_channel_from_monitors,
}
use uptime_mesh.Store.Monitors.Changes.{
  row_ids, changed_row, AllReadable, write-collect, collect-readable, changed-row_ids,
  changed-AllReadable,
}

-- Nothing that these operations do fails.
abbrev pub no_faults : ChannelFaults
no_faults = record { read_fails = false; write_fails = false; reload_fails = false }

module _ (channel : String) where
  attach-map-todo :
      (rows : List MonitorRow) (now : ℕ) (todo : List Pending)
      → collect (attached channel) rows ≡ some todo
      → write_channels now todo rows ≡ map (changed_row (attached channel) now) rows
      → (attach_channel_to_monitors no_faults rows channel now).0
        ≡ map (changed_row (attached channel) now) rows
  unfolding attach_channel_to_monitors write_channels
  attach-map-todo rows now [] n w = ground (arith, n, w)
  attach-map-todo rows now (item ∷ todo) n w = rw (n, attach_channel_to_monitors) w

  attach-map :
      (rows : List MonitorRow) (now : ℕ)
      → Distinct (row_ids rows)
      → AllReadable rows
      → (attach_channel_to_monitors no_faults rows channel now).0
        ≡ map (changed_row (attached channel) now) rows
  unfolding attach_channel_to_monitors
  attach-map rows now d r = elim (Option-cases (collect (attached channel) rows)) [
    | inl n ↦ absurd (ground (arith, collect-readable (attached channel) now rows r))
    | inr (todo, n) ↦
        attach-map-todo rows now todo n (write-collect (attached channel) now rows todo d n)
  ]

  detach-map :
      (rows : List MonitorRow) (now : ℕ)
      → Distinct (row_ids rows)
      → AllReadable rows
      → (detach_channel_from_monitors no_faults rows channel now).0
        ≡ map (changed_row (detached channel) now) rows
  unfolding detach_channel_from_monitors
  detach-map rows now d r = elim (Option-cases (collect (detached channel) rows)) [
    | inl n ↦ absurd (ground (arith, collect-readable (detached channel) now rows r))
    | inr (todo, n) ↦ ground (arith, n, write-collect (detached channel) now rows todo d n)
  ]

  has_string-append : (ids : List String) → has_string (ids ++ (channel ∷ [])) channel ≡ true
  unfolding has_string
  has_string-append [] = ground (arith, eq_iff channel channel)
  has_string-append (v ∷ ids) = ground (arith, has_string-append ids)

  attach_row-twice :
      (now later : ℕ) (rows : List MonitorRow)
      → let once = map (changed_row (attached channel) now) rows in
        map (changed_row (attached channel) later) once ≡ once
  unfolding changed_row
  attach_row-twice now later [] = refl
  attach_row-twice now later (m ∷ rows) = elim (Option-cases m.channel_ids) [
    | inl n ↦ ground (arith, attach_row-twice now later rows)
    | inr (ids, n) ↦ ground (arith, n, attach_row-twice now later rows, has_string-append ids)
  ]

  abbrev pub channel_lists : List MonitorRow → List (Option (List String))
  channel_lists [] = []
  channel_lists (m ∷ rows) = m.channel_ids ∷ channel_lists rows

  -- The other channels of a row.
  abbrev pub others : MonitorRow → Option (List String)
  others m = elim m.channel_ids [
    | none ↦ none
    | some ids ↦ some (keep (λ v. not (str_eq v channel)) ids)
  ]

  keep-append :
      (ids : List String)
      → keep (λ v. not (str_eq v channel)) (ids ++ (channel ∷ []))
        ≡ keep (λ v. not (str_eq v channel)) ids
  keep-append [] = ground (arith, eq_iff channel channel)
  keep-append (v ∷ ids) = ground (arith, keep-append ids)

  detach_row-attach_row :
      (now later : ℕ) (rows : List MonitorRow)
      → channel_lists (
          map
            (changed_row (detached channel) later)
            (map (changed_row (attached channel) now) rows))
        ≡ map others rows
  unfolding changed_row
  detach_row-attach_row now later [] = refl
  detach_row-attach_row now later (m ∷ rows) = elim (Option-cases m.channel_ids) [
    | inl n ↦ ground (arith, detach_row-attach_row now later rows)
    | inr (ids, n) ↦
        ground
          (arith, n, detach_row-attach_row now later rows, has_string-append ids, keep-append ids)
  ]

  -- A row that has the channel in it, at the end if it was not there; `none` is a text that is no
  -- list.
  abbrev pub with_channel : ℕ → MonitorRow → MonitorRow
  with_channel now m = elim m.channel_ids [
    | none ↦ m
    | some ids ↦
        if mem? channel ids
        then m
        else record m { channel_ids = some (ids ++ (channel ∷ [])); updated_at = unix_sec now }
  ]

  has_string-mem? : (ids : List String) → has_string ids channel ≡ mem? channel ids
  unfolding has_string mem?
  has_string-mem? [] = refl
  has_string-mem? (v ∷ ids) =
      ground (arith, eq_iff v channel, eq_iff channel v, has_string-mem? ids)

  attached-with_channel :
      (now : ℕ) (rows : List MonitorRow)
      → map (changed_row (attached channel) now) rows ≡ map (with_channel now) rows
  unfolding changed_row
  attached-with_channel now [] = refl
  attached-with_channel now (m ∷ rows) = elim (Option-cases m.channel_ids) [
    | inl n ↦ ground (arith, n, attached-with_channel now rows)
    | inr (ids, n) ↦ ground (arith, n, has_string-mem? ids, attached-with_channel now rows)
  ]

  -- Let the ids of the monitors differ, the channels of each be a list, and nothing fail. Setting a
  -- channel for all monitors appends it, once, to the channels of exactly those that do not have it,
  -- whose time of the last change becomes the time of the request, and leaves the others as they
  -- are. Doing it again changes nothing.
  pub attach_channel_to_monitors_lem :
      (rows : List MonitorRow) (now later : ℕ)
      → Distinct (row_ids rows)
      → AllReadable rows
      → let once = (attach_channel_to_monitors no_faults rows channel now).0 in
        (once ≡ map (with_channel now) rows)
        × ((attach_channel_to_monitors no_faults once channel later).0 ≡ once)
  attach_channel_to_monitors_lem rows now later d r =
      let f = changed_row (attached channel) now in
      let e = attach-map rows now d r in
      let d' = subst Distinct (sym (changed-row_ids (attached channel) now rows)) d in
      let r' = changed-AllReadable (attached channel) now rows r in
      (
        e ∙ attached-with_channel now rows,
        rw e (attach-map (map f rows) later d' r' ∙ attach_row-twice now later rows),
      )

  -- Let the ids of the monitors differ, the channels of each be a list, and nothing fail. Setting a
  -- channel for all monitors and then removing it from all leaves each monitor its other channels,
  -- in their order, and those alone.
  pub detach_channel-attach_channel :
      (rows : List MonitorRow) (now later : ℕ)
      → Distinct (row_ids rows)
      → AllReadable rows
      → let once = (attach_channel_to_monitors no_faults rows channel now).0 in
        channel_lists (detach_channel_from_monitors no_faults once channel later).0
        ≡ map others rows
  detach_channel-attach_channel rows now later d r =
      let f = changed_row (attached channel) now in
      let e = attach-map rows now d r in
      let d' = subst Distinct (sym (changed-row_ids (attached channel) now rows)) d in
      let r' = changed-AllReadable (attached channel) now rows r in
      rw e (
        ap channel_lists (detach-map (map f rows) later d' r')
        ∙ detach_row-attach_row now later rows)
