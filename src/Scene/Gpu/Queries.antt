-- ===== src/Scene/Gpu/Queries.antt =====
-- Histories of the queries of the GPU's timer, in a context of WebGL 2.
use hackz_megalo.Base.{
  ℕ, true, not, ◌+◌, ◌≡◌, refl, Option, none, some, List, [], ◌∷◌, ◌++◌, count_if, if_cases, arith,
  ◌||◌,
}
use hackz_megalo.Scene.{Numbers}
use hackz_megalo.Scene.Gpu.{
  GpuReading, FrameStats, begin_gpu_timer_query, end_gpu_timer_query, drop_last, delete_active,
  dispose_gpu_timer_queries, take_results, measured, poll_gpu_timer_queries, record_frame_stats,
  reset_frame_stats, finished, smooth_from, frame_rate,
}
use hackz_megalo.Scene.Anchors.Histories.{times, kept, times-append_one}

module _ ⦃n : Numbers⦄ where
  pub data GpuCall : Type 0 where
    begins : (query : Option ℕ) → GpuCall
    finishes polls clears : GpuCall
    records : (delta cpu_ms : n.F) → GpuCall

  unfoldable pub gpu_step : GpuReading → GpuCall → FrameStats → FrameStats
  unfolding begin_gpu_timer_query end_gpu_timer_query poll_gpu_timer_queries record_frame_stats
      reset_frame_stats
  gpu_step r (begins query) s = begin_gpu_timer_query r query s
  gpu_step r finishes s = end_gpu_timer_query r s
  gpu_step r polls s = poll_gpu_timer_queries r s
  gpu_step r clears s = reset_frame_stats r s
  gpu_step r (records delta cpu_ms) s = record_frame_stats r delta cpu_ms s

  -- Each call with what it reads; the context is one of WebGL 2.
  unfoldable pub gpu_steps : List (GpuReading × GpuCall) → FrameStats → FrameStats
  gpu_steps [] s = s
  gpu_steps ((r, c) ∷ cs) s = gpu_steps cs (gpu_step (record r { webgl2 = true }) c s)

  -- The query `k` was made as often as it was deleted, waits, or runs.
  abbrev pub IsSettled : ℕ → FrameStats → Type 0
  IsSettled k s = times k s.made ≡ times k s.deleted + times k s.pending + kept k s.active

  times-drop_last : (k : ℕ) (qs ks : List ℕ) → times k (drop_last qs ks) ≡ times k ks + times k qs
  unfolding count_if
  times-drop_last k [] ks = omega arith
  times-drop_last k (q ∷ qs) ks =
      ground (arith, times-append_one k q (drop_last qs ks), times-drop_last k qs ks)

  times-delete_active :
      (k : ℕ) (o : Option ℕ) (ks : List ℕ) → times k (delete_active o ks) ≡ times k ks + kept k o
  times-delete_active k none ks = omega arith
  times-delete_active k (some q) ks = times-append_one k q ks

  dispose-IsSettled :
      (k : ℕ) (r : GpuReading) (s : FrameStats)
      → r.webgl2 ≡ true
      → IsSettled k s
      → IsSettled k (dispose_gpu_timer_queries r s)
  unfolding dispose_gpu_timer_queries count_if
  dispose-IsSettled k r s e w = ground (
    arith,
    e,
    w,
    times-drop_last k s.pending (delete_active s.active s.deleted),
    times-delete_active k s.active s.deleted,
  )

  take-IsSettled :
      (k : ℕ) (r : GpuReading) (qs : List ℕ) (s : FrameStats)
      → times k s.made ≡ times k s.deleted + times k qs + kept k s.active
      → IsSettled k (take_results r qs s)
  unfolding take_results count_if
  take-IsSettled k r [] s w = w
  take-IsSettled k r (q ∷ qs) s w =
      let t = record s { deleted = s.deleted ++ q ∷ []; gpu_ms = measured r q s.gpu_ms } in
      if_cases (IsSettled k) (not (r.available q)) (record s { pending = q ∷ qs })
        (take_results r qs t) (λ e. w)
        (λ e. take-IsSettled k r qs t (ground (arith, w, times-append_one k q s.deleted)))

  poll-IsSettled :
      (k : ℕ) (r : GpuReading) (s : FrameStats)
      → r.webgl2 ≡ true
      → IsSettled k s
      → IsSettled k (poll_gpu_timer_queries r s)
  unfolding poll_gpu_timer_queries
  poll-IsSettled k r s e w =
      if_cases (IsSettled k) (not r.webgl2 || not s.extension) s _ (λ p. w)
        (λ p.
          if_cases (IsSettled k) r.disjoint
            (dispose_gpu_timer_queries r (record s { gpu_ms = none })) (take_results r s.pending s)
            (λ q. dispose-IsSettled k r (record s { gpu_ms = none }) e w)
            (λ q. take-IsSettled k r s.pending s w))

  begin-IsSettled :
      (k : ℕ) (r : GpuReading) (query : Option ℕ) (s : FrameStats)
      → IsSettled k s
      → IsSettled k (begin_gpu_timer_query r query s)
  unfolding begin_gpu_timer_query
  begin-IsSettled k r none s w = ground (arith, w)
  begin-IsSettled k r (some q) s w = ground (arith, w, times-append_one k q s.made)

  finished-IsSettled :
      (k : ℕ) (r : GpuReading) (o : Option ℕ) (s : FrameStats)
      → r.webgl2 ≡ true
      → s.active ≡ o
      → IsSettled k s
      → IsSettled k (finished r o s)
  unfolding finished
  finished-IsSettled k r none s e f w = w
  finished-IsSettled k r (some q) s e f w =
      poll-IsSettled k r (record s { pending = s.pending ++ q ∷ []; active = none }) e
        (ground (arith, w, f, times-append_one k q s.pending))

  end-IsSettled :
      (k : ℕ) (r : GpuReading) (s : FrameStats)
      → r.webgl2 ≡ true
      → IsSettled k s
      → IsSettled k (end_gpu_timer_query r s)
  unfolding end_gpu_timer_query
  end-IsSettled k r s e w =
      if_cases (IsSettled k) (not r.webgl2 || not s.extension) s (finished r s.active s) (λ p. w)
        (λ p. finished-IsSettled k r s.active s e refl w)

  step-IsSettled :
      (k : ℕ) (r : GpuReading) (c : GpuCall) (s : FrameStats)
      → r.webgl2 ≡ true
      → IsSettled k s
      → IsSettled k (gpu_step r c s)
  unfolding gpu_step record_frame_stats reset_frame_stats
  step-IsSettled k r (begins query) s e w = begin-IsSettled k r query s w
  step-IsSettled k r finishes s e w = end-IsSettled k r s e w
  step-IsSettled k r polls s e w = poll-IsSettled k r s e w
  step-IsSettled k r clears s e w =
      dispose-IsSettled k r (record s { fps = n.of 0; cpu_ms = n.of 0; gpu_ms = none }) e w
  step-IsSettled k r (records delta cpu_ms) s e w =
      poll-IsSettled k r
        (record s {
          fps = smooth_from s.fps (frame_rate delta);
          cpu_ms = smooth_from s.cpu_ms cpu_ms;
        })
        e w

  -- In a context of WebGL 2, through any history of the frames' queries, each query that the context
  -- made was deleted once for each time that it was made, but for those that still wait and the one
  -- that runs: none is lost and none is deleted twice, where that was so at first.
  pub gpu_steps-IsSettled :
      (k : ℕ) (cs : List (GpuReading × GpuCall)) (s : FrameStats)
      → IsSettled k s
      → IsSettled k (gpu_steps cs s)
  unfolding gpu_steps
  gpu_steps-IsSettled k [] s w = w
  gpu_steps-IsSettled k ((r, c) ∷ cs) s w =
      let q = record r { webgl2 = true } in
      gpu_steps-IsSettled k cs (gpu_step q c s) (step-IsSettled k q c s refl w)
