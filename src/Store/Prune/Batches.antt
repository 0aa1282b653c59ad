-- ===== src/Store/Prune/Batches.antt =====
-- What the batches of dashboard/internal/store/stats.go delete, and that there are enough of them.
use uptime_mesh.Prelude.{
  ℕ, zero, suc, ◌+◌, ◌-◌, ◌*◌, ◌≤◌, ◌≡◌, refl, sym, ◌∙◌, Bool, true, false, not, List, [], ◌∷◌,
  arith, if◌then◌else◌, keep, count_if,
}
use uptime_mesh.Store.Prune.{
  delete_batch, affected, prune_loop, prune, prune_batch_size, prune_max_batches,
}

module _ {A : Type 0} (old : A → Bool) where
  delete_batch-kept :
      (p : A → Bool) (limit : ℕ) (rows : List A)
      → ((x : A) → p x ≡ true → old x ≡ false)
      → keep p (delete_batch old limit rows) ≡ keep p rows
  unfolding delete_batch
  delete_batch-kept p limit [] h = refl
  delete_batch-kept p limit (x ∷ rows) h =
      ground (arith, h x, delete_batch-kept p (if old x then limit - 1 else limit) rows h)

  delete_batch-count :
      (limit : ℕ) (rows : List A)
      → count_if old (delete_batch old limit rows) ≡ count_if old rows - limit
  unfolding delete_batch
  delete_batch-count limit [] = ground arith
  delete_batch-count limit (x ∷ rows) =
      ground (arith, delete_batch-count (if old x then limit - 1 else limit) rows)

  -- Rows none of which is old.
  pub keep-none_old : (rows : List A) → count_if old rows ≡ 0 → keep (λ x. not (old x)) rows ≡ rows
  keep-none_old [] h = refl
  keep-none_old (x ∷ rows) h = ground (arith, keep-none_old rows)

  prune_loop-kept :
      (p : A → Bool) (fails : ℕ → Bool) (size left : ℕ) (rows : List A) (total : ℕ)
      → ((x : A) → p x ≡ true → old x ≡ false)
      → keep p (prune_loop fails old size left rows total).rows ≡ keep p rows
  unfolding prune_loop
  prune_loop-kept p fails size zero rows total h = refl
  prune_loop-kept p fails size (suc left) rows total h = ground (
    arith,
    delete_batch-kept p size rows h,
    prune_loop-kept p fails size left (delete_batch old size rows) (total + affected old size rows)
        h,
  )

  prune_loop-total :
      (fails : ℕ → Bool) (size left : ℕ) (rows : List A) (total : ℕ)
      → let t = prune_loop fails old size left rows total in
        t.total + count_if old t.rows ≡ total + count_if old rows
  unfolding prune_loop
  prune_loop-total fails size zero rows total = refl
  prune_loop-total fails size (suc left) rows total = ground (
    arith,
    delete_batch-count size rows,
    prune_loop-total fails size left (delete_batch old size rows) (total + affected old size rows),
  )

  prune_loop-empty :
      (size left : ℕ) (rows : List A) (total : ℕ)
      → count_if old rows ≤ size * left
      → let t = prune_loop (λ i. false) old size left rows total in
        (count_if old t.rows ≡ 0) × (t.failed ≡ false)
  unfolding prune_loop
  prune_loop-empty size zero rows total h = (ground arith, refl)
  prune_loop-empty size (suc left) rows total h =
      let n = delete_batch-count size rows in
      let rest =
        prune_loop-empty size left (delete_batch old size rows) (total + affected old size rows)
          (omega (arith, n)) in
      (ground (arith, n, rest), ground (arith, n, rest))

  -- Whatever fails, rows that pass a test which no old row passes are all kept, in their order.
  pub prune-kept :
      (p : A → Bool) (fails : ℕ → Bool) (rows : List A)
      → ((x : A) → p x ≡ true → old x ≡ false)
      → keep p (prune fails old rows).rows ≡ keep p rows
  unfolding prune
  prune-kept p fails rows h = prune_loop-kept p fails prune_batch_size prune_max_batches rows 0 h

  -- If nothing fails and no more than a million rows are old, exactly those go.
  pub prune_complete :
      (rows : List A)
      → count_if old rows ≤ 1_000_000
      → let t = prune (λ i. false) old rows in
        (t.rows ≡ keep (λ x. not (old x)) rows) × (t.total ≡ count_if old rows) × (t.failed ≡ false)
  unfolding prune
  prune_complete rows h =
      let never = λ (i : ℕ). false in
      let done = prune_loop-empty prune_batch_size prune_max_batches rows 0 h in
      let t = prune_loop never old prune_batch_size prune_max_batches rows 0 in
      (
        sym (keep-none_old t.rows done.0)
            ∙ prune_loop-kept (λ x. not (old x)) never prune_batch_size prune_max_batches rows 0
                (λ x e. ground (arith, e)),
        omega (arith, done.0, prune_loop-total never prune_batch_size prune_max_batches rows 0),
        done.1,
      )
