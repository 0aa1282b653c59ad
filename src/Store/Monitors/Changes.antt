-- ===== src/Store/Monitors/Changes.antt =====
-- Changes of the channels of all monitors at once, as `AttachChannelToMonitors` and
-- `DetachChannelFromMonitors` of dashboard/internal/store/monitors.go make them.
use uptime_mesh.Prelude.{
  ℕ, ◌≡◌, refl, Bool, true, false, List, [], ◌∷◌, Option, none, some, String, str_eq, eq_iff, arith,
  is_some, map, mem?, Distinct, Option-cases, inl, inr,
}
use uptime_mesh.Store.{unix_sec}
use uptime_mesh.Store.Monitors.{
  MonitorRow, Pending, update_monitors, collect, write_channels, pending_ids,
}

abbrev pub row_ids : List MonitorRow → List String
row_ids [] = []
row_ids (m ∷ rows) = m.id ∷ row_ids rows

-- One row after its channels were changed, if they are.
unfoldable pub changed_row : (List String → Option (List String)) → ℕ → MonitorRow → MonitorRow
changed_row change now m = elim m.channel_ids [
  | none ↦ m
  | some ids ↦ elim (change ids) [
    | none ↦ m
    | some channels ↦ record m { channel_ids = some channels; updated_at = unix_sec now }
  ]
]

-- The text of the row is a list.
abbrev pub is_readable : MonitorRow → Bool
is_readable m = is_some m.channel_ids

abbrev pub AllReadable : List MonitorRow → Type 0
AllReadable [] = Unit
AllReadable (m ∷ rows) = (is_readable m ≡ true) × AllReadable rows

update-absent :
    (id : String) (f : MonitorRow → MonitorRow) (rows : List MonitorRow)
    → mem? id (row_ids rows) ≡ false
    → update_monitors (str_eq id) f rows ≡ rows
unfolding mem?
update-absent id f [] h = refl
update-absent id f (m ∷ rows) h =
    ground (arith, eq_iff id m.id, eq_iff m.id id, update-absent id f rows)

write_channels-absent :
    (now : ℕ) (todo : List Pending) (m : MonitorRow) (rows : List MonitorRow)
    → mem? m.id (pending_ids todo) ≡ false
    → write_channels now todo (m ∷ rows) ≡ m ∷ write_channels now todo rows
unfolding write_channels mem?
write_channels-absent now [] m rows h = refl
write_channels-absent now (item ∷ todo) m rows h =
    let f : MonitorRow → MonitorRow =
      λ r. record r { channel_ids = some item.channels; updated_at = unix_sec now } in
    let next = update_monitors (str_eq item.id) f rows in
    ground (arith, eq_iff item.id m.id, write_channels-absent now todo m next)

module _ (change : List String → Option (List String)) (now : ℕ) where
  collect-ids :
      (rows : List MonitorRow) (todo : List Pending) (id : String)
      → collect change rows ≡ some todo
      → mem? id (row_ids rows) ≡ false
      → mem? id (pending_ids todo) ≡ false
  unfolding collect mem?
  collect-ids [] todo id e h = ground arith
  collect-ids (m ∷ rows) todo id e h = elim (Option-cases (collect change rows)) [
    | inl n ↦ absurd (ground arith)
    | inr (rest, n) ↦ ground (arith, collect-ids rows rest id n)
  ]

  write-nothing : (rows : List MonitorRow) → write_channels now [] rows ≡ rows
  unfolding write_channels
  write-nothing rows = refl

  -- The row that is written first is not met again.
  write-item :
      (m : MonitorRow) (rows : List MonitorRow) (todo : List Pending) (channels : List String)
      → mem? m.id (row_ids rows) ≡ false
      → mem? m.id (pending_ids todo) ≡ false
      → write_channels now ((record { id = m.id; channels = channels }) ∷ todo) (m ∷ rows)
        ≡ (record m { channel_ids = some channels; updated_at = unix_sec now })
          ∷ write_channels now todo rows
  unfolding write_channels
  write-item m rows todo channels n k =
      let f : MonitorRow → MonitorRow =
        λ r. record r { channel_ids = some channels; updated_at = unix_sec now } in
      ground (
        arith,
        eq_iff m.id m.id,
        update-absent m.id f rows n,
        write_channels-absent now todo (f m) rows k,
      )

  -- The writes, one after the other, against all rows changed at once.
  pub write-collect :
      (rows : List MonitorRow) (todo : List Pending)
      → Distinct (row_ids rows)
      → collect change rows ≡ some todo
      → write_channels now todo rows ≡ map (changed_row change now) rows
  unfolding collect changed_row
  write-collect [] todo d e = let t : todo ≡ [] = ground arith in rw t (write-nothing [])
  write-collect (m ∷ rows) todo (n, d) e = elim (Option-cases (collect change rows)) [
    | inl k ↦ absurd (ground arith)
    | inr (rest, k) ↦
        let ih = write-collect rows rest d k in
        let fresh = collect-ids rows rest m.id k n in
        elim (Option-cases m.channel_ids) [
          | inl a ↦ absurd (ground arith)
          | inr (ids, a) ↦ elim (Option-cases (change ids)) [
            | inl b ↦
                let t : todo ≡ rest = ground arith in
                ground (arith, t, ih, write_channels-absent now rest m rows fresh)
            | inr (channels, b) ↦
                let item : Pending = record { id = m.id; channels = channels } in
                let t : todo ≡ item ∷ rest = ground arith in
                ground (arith, t, ih, write-item m rows rest channels n fresh)
          ]
        ]
  ]

  pub collect-readable :
      (rows : List MonitorRow) → AllReadable rows → is_some (collect change rows) ≡ true
  unfolding collect
  collect-readable [] r = refl
  collect-readable (m ∷ rows) (r, rs) = ground (arith, r, collect-readable rows rs)

  pub changed-row_ids :
      (rows : List MonitorRow) → row_ids (map (changed_row change now) rows) ≡ row_ids rows
  unfolding changed_row
  changed-row_ids [] = refl
  changed-row_ids (m ∷ rows) = ground (arith, changed-row_ids rows)

  pub changed-AllReadable :
      (rows : List MonitorRow) → AllReadable rows → AllReadable (map (changed_row change now) rows)
  unfolding changed_row
  changed-AllReadable [] r = r
  changed-AllReadable (m ∷ rows) (r, rs) = (ground (arith, r), changed-AllReadable rows rs)
