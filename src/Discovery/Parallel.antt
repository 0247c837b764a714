-- ===== src/Discovery/Parallel.antt =====
-- Running the probes on threads gives what running them in place gives: the order of the results
-- does not depend on the number of workers.
use lemnos.Prelude.{
  All, Bool-cases, List, Ordering, [], ap, append-nil, append_assoc, arith, false, inl, inr,
  insert_sorted, leb, length, map, map-append, max, min, refl, sort_by, sort_by-All, subst, suc,
  sym, text_ord, zero, ℕ, ◌%◌, ◌++◌, ◌<◌, ◌∙◌, ◌∷◌, ◌≡◌, ◌≢◌, ◌≤◌, ◌⊎◌,
}
use lemnos.Core.Interface.{interface_ord}
use lemnos.Discovery.Run.{
  DiscoveryContext, Host, IndexedSelectedProbe, ProbeRunResult, SelectedProbe, build_probe_batches,
  compare_index, default_inline_probe_threshold, default_max_parallel_probe_workers, distribute,
  empty_batches, enumerate_from, or_number, parallel_worker_count, push_at, run_batches,
  run_indexed, run_inline, run_parallel, run_selected_probes,
}

abbrev Below : ℕ → List ProbeRunResult → Type 0
Below n l = All (λ w. w.0 < n) l

compare_gt : (a b : ProbeRunResult) → b.0 < a.0 → compare_index a b ≡ Ordering.gt
compare_gt a b h = ground arith

insert_swap :
    (x y : ProbeRunResult) (l : List ProbeRunResult)
    → x.0 ≢ y.0
    → insert_sorted compare_index x (insert_sorted compare_index y l)
      ≡ insert_sorted compare_index y (insert_sorted compare_index x l)
insert_swap x y [] h = ground arith
insert_swap x y (z ∷ zs) h = ground (arith, insert_swap x y zs h)

sort_middle :
    (xs : List ProbeRunResult) (x : ProbeRunResult) (ys : List ProbeRunResult)
    → Below x.0 xs
    → sort_by compare_index (xs ++ x ∷ ys)
      ≡ insert_sorted compare_index x (sort_by compare_index (xs ++ ys))
unfolding sort_by
sort_middle [] x ys h = refl
sort_middle (w ∷ xs) x ys h =
    ap (insert_sorted compare_index w) (sort_middle xs x ys h.1)
    ∙ insert_swap w x (sort_by compare_index (xs ++ ys)) (omega (arith, h.0))

insert_last :
    (x : ProbeRunResult) (l : List ProbeRunResult)
    → Below x.0 l
    → insert_sorted compare_index x l ≡ l ++ x ∷ []
insert_last x [] h = refl
insert_last x (w ∷ l) h = rw (insert_sorted, compare_gt x w h.0) (ap (◌∷◌ w) (insert_last x l h.1))

Below-before : (n : ℕ) (xs ys : List ProbeRunResult) → Below n (xs ++ ys) → Below n xs
Below-before n [] ys h = tt
Below-before n (x ∷ xs) ys h = (h.0, Below-before n xs ys h.1)

Below-insert :
    (n : ℕ) (xs ys : List ProbeRunResult) (x : ProbeRunResult)
    → x.0 ≡ n
    → Below n (xs ++ ys)
    → Below (suc n) (xs ++ x ∷ ys)
Below-insert n [] [] x e h = (omega (arith, e), tt)
Below-insert n [] (y ∷ ys) x e h =
    (omega (arith, e), (omega (arith, h.0), (Below-insert n [] ys x e h.1).1))
Below-insert n (w ∷ xs) ys x e h = (omega (arith, h.0), Below-insert n xs ys x e h.1)

length-empty_batches : (n : ℕ) → length (empty_batches n) ≡ n
length-empty_batches zero = refl
length-empty_batches (suc n) = ap suc (length-empty_batches n)

module _ (c : DiscoveryContext) where
  -- A push to a batch puts the result somewhere in the joined results.
  run_batches-push_at :
      (k : ℕ) (p : IndexedSelectedProbe) (bs : List (List IndexedSelectedProbe))
      → k < length bs
      → (before : List ProbeRunResult) × (after : List ProbeRunResult) × (run_batches c bs
          ≡ before ++ after)
        × (run_batches c (push_at k p bs) ≡ before ++ run_indexed c p ∷ after)
  unfolding run_batches
  run_batches-push_at k p [] h = absurd (omega arith)
  run_batches-push_at zero p (b ∷ bs) h = (
    map (run_indexed c) b,
    run_batches c bs,
    refl,
    ap (λ l. l ++ run_batches c bs) (map-append (run_indexed c) b (p ∷ []))
        ∙ append_assoc (map (run_indexed c) b) (run_indexed c p ∷ []) (run_batches c bs),
  )
  run_batches-push_at (suc k) p (b ∷ bs) h =
      let (before, after, e, e') = run_batches-push_at k p bs (omega arith) in
      (
        map (run_indexed c) b ++ before,
        after,
        ap (◌++◌ (map (run_indexed c) b)) e
            ∙ sym (append_assoc (map (run_indexed c) b) before after),
        ap (◌++◌ (map (run_indexed c) b)) e'
            ∙ sym (append_assoc (map (run_indexed c) b) before (run_indexed c p ∷ after)),
      )

  length-push_at :
      (k : ℕ) (p : IndexedSelectedProbe) (bs : List (List IndexedSelectedProbe))
      → length (push_at k p bs) ≡ length bs
  length-push_at k p [] = refl
  length-push_at zero p (b ∷ bs) = refl
  length-push_at (suc k) p (b ∷ bs) = ap suc (length-push_at k p bs)

  sorted-push_at :
      (workers n : ℕ) (x : IndexedSelectedProbe) (bs : List (List IndexedSelectedProbe))
      → 0 < workers
      → length bs ≡ workers
      → x.index ≡ n
      → Below n (run_batches c bs)
      → (sort_by compare_index (run_batches c (push_at (n % workers) x bs))
          ≡ sort_by compare_index (run_batches c bs) ++ run_indexed c x ∷ [])
        × Below (suc n) (run_batches c (push_at (n % workers) x bs))
  sorted-push_at workers n x bs pos len at below =
      let (before, after, e, e') = run_batches-push_at (n % workers) x bs (omega arith) in
      let joined = subst (Below n) e below in
      let below_x = subst (λ k. Below k (before ++ after)) (sym at) joined in
      (
        ap (sort_by compare_index) e'
            ∙ sort_middle before (run_indexed c x) after (Below-before x.index before after below_x)
            ∙ insert_last (run_indexed c x) (sort_by compare_index (before ++ after))
                (sort_by-All compare_index (λ w. w.0 < x.index) (before ++ after) below_x)
            ∙ ap (λ l. sort_by compare_index l ++ run_indexed c x ∷ []) (sym e),
        subst (Below (suc n)) (sym e') (Below-insert n before after (run_indexed c x) at joined),
      )

  sorted-distribute :
      (workers n : ℕ) (ps : List SelectedProbe) (bs : List (List IndexedSelectedProbe))
      → 0 < workers
      → length bs ≡ workers
      → Below n (run_batches c bs)
      → sort_by compare_index (run_batches c (distribute workers n ps bs))
        ≡ sort_by compare_index (run_batches c bs) ++ map (run_indexed c) (enumerate_from n ps)
  unfolding distribute
  sorted-distribute workers n [] bs pos len below = sym (append-nil _)
  sorted-distribute workers n (p ∷ ps) bs pos len below =
      let x : IndexedSelectedProbe = record { index = n; selected_probe = p } in
      let (pushed, below') = sorted-push_at workers n x bs pos len refl below in
      sorted-distribute workers (suc n) ps (push_at (n % workers) x bs) pos
        (length-push_at (n % workers) x bs ∙ len) below'
      ∙ ap (λ l. l ++ map (run_indexed c) (enumerate_from (suc n) ps)) pushed
      ∙ append_assoc (sort_by compare_index (run_batches c bs)) (run_indexed c x ∷ [])
          (map (run_indexed c) (enumerate_from (suc n) ps))

  run_batches-empty : (n : ℕ) → run_batches c (empty_batches n) ≡ []
  unfolding run_batches
  run_batches-empty zero = refl
  run_batches-empty (suc n) = run_batches-empty n

  -- With one worker or more, the results of the parallel run, sorted by the index of the probe, are
  -- those of running the probes one after the other.
  run_parallel-run_inline :
      (ps : List SelectedProbe) (workers : ℕ)
      → 0 < workers
      → run_parallel c ps workers ≡ run_inline c ps
  unfolding run_parallel run_inline build_probe_batches sort_by
  run_parallel-run_inline ps workers pos =
      sorted-distribute workers 0 ps (empty_batches workers) pos (length-empty_batches workers)
        (subst (Below 0) (sym (run_batches-empty workers)) tt)
      ∙ ap (λ l. sort_by compare_index l ++ map (run_indexed c) (enumerate_from 0 ps))
          (run_batches-empty workers)

-- A run of at most as many probes as the inline threshold has one worker. Another one has at most as
-- many workers as there are probes and processors and as the configured limit allows, which counts
-- as one if it is zero, and it has one at least if there is a processor.
pub parallel_worker_count-bounds :
    (available : ℕ) (c : DiscoveryContext) (count : ℕ)
    → ((count ≤ or_number c.inline_probe_threshold default_inline_probe_threshold)
        × (parallel_worker_count available c count ≡ 1))
      ⊎ ((parallel_worker_count available c count ≤ count)
          × (parallel_worker_count available c count ≤ available)
          × (parallel_worker_count available c count
              ≤ max (or_number c.max_parallel_probe_workers default_max_parallel_probe_workers) 1)
          × (or_number c.inline_probe_threshold default_inline_probe_threshold < count)
          × (min available 1 ≤ parallel_worker_count available c count))
unfolding parallel_worker_count
parallel_worker_count-bounds available c count = ground arith

worker_pos :
    (available : ℕ) (c : DiscoveryContext) (count : ℕ)
    → leb (parallel_worker_count available c count) 1 ≡ false
    → 0 < parallel_worker_count available c count
worker_pos available c count e = ground arith

-- Whatever the number of processors, the threshold and the limit on workers, running the selected
-- probes gives the results of running them one after the other, in the same order.
pub run_selected_probes-run_inline :
    (host : Host) (c : DiscoveryContext) (ps : List SelectedProbe)
    → run_selected_probes host c ps ≡ run_inline c ps
unfolding run_selected_probes
run_selected_probes-run_inline host c ps =
    let workers = parallel_worker_count host.available_parallelism c (length ps) in
    elim (Bool-cases (leb workers 1)) [
      | inl e ↦ rw e refl
      | inr e ↦ rw e (
          run_parallel-run_inline c ps workers
            (worker_pos host.available_parallelism c (length ps) e))
    ]
