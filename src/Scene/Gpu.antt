-- ===== src/Scene/Gpu.antt =====
-- apps/frontend-webxr/src/scene.ts: the statistics of frames and the queries of the GPU's timer,
-- `recordFrameStats` to `disposeGpuTimerQueries`. A query is known by a number.
pub mod Queries
use hackz_megalo.Base.{
  ℕ, Bool, true, false, not, ◌&&◌, ◌||◌, Option, none, some, List, [], ◌∷◌, ◌++◌, if◌then◌else◌,
  is_some,
}
use hackz_megalo.Scene.{Numbers, frac, lerp}

module _ ⦃n : Numbers⦄ where
  -- What is read: whether the context is one of WebGL 2, whether it offers the extension, whether the
  -- GPU's clock was disjoint, and of each query whether its result is there and what it is, in
  -- nanoseconds.
  pub record GpuReading : Type 0 where
    pub webgl2 : Bool
    pub offers : Bool
    pub disjoint : Bool
    pub available : ℕ → Bool
    pub elapsed : ℕ → n.F
    pub is_finite : n.F → Bool

  -- `made` and `deleted` are the queries that the context made and deleted.
  pub record FrameStats : Type 0 where
    pub fps : n.F
    pub cpu_ms : n.F
    pub gpu_ms : Option n.F
    pub extension : Bool
    pub active : Option ℕ
    pub pending : List ℕ
    pub made : List ℕ
    pub deleted : List ℕ

  -- `lerp` by `FRAME_STATS_SMOOTHING`
  abbrev pub smoothed : n.F → n.F → n.F
  smoothed before now = lerp before now (frac 18 100)

  -- `query` is what `createQuery` gives.
  unfoldable pub begin_gpu_timer_query : GpuReading → (query : Option ℕ) → FrameStats → FrameStats
  begin_gpu_timer_query r query s =
      if not r.webgl2
      then s
      else let t = record s { extension = s.extension || r.offers } in
        if not t.extension || is_some t.active then t else elim query [
          | none ↦ t
          | some q ↦ record t { active = some q; made = t.made ++ q ∷ [] }
        ]

  abbrev pub drop_last : List ℕ → List ℕ → List ℕ
  drop_last [] deleted = deleted
  drop_last (q ∷ qs) deleted = drop_last qs deleted ++ q ∷ []

  abbrev pub delete_active : Option ℕ → List ℕ → List ℕ
  delete_active none deleted = deleted
  delete_active (some q) deleted = deleted ++ q ∷ []

  -- The last query that waits is deleted first.
  unfoldable pub dispose_gpu_timer_queries : GpuReading → FrameStats → FrameStats
  dispose_gpu_timer_queries r s = record s {
    pending = [];
    active = none;
    deleted =
        if not r.webgl2 then s.deleted else drop_last s.pending (delete_active s.active s.deleted);
  }

  abbrev pub measured : GpuReading → ℕ → Option n.F → Option n.F
  measured r q before =
      let ms = n.div (r.elapsed q) (n.of 1000000) in
      if not (r.is_finite (r.elapsed q)) || n.ge (n.of 0) (r.elapsed q)
      then before
      else some (elim before [ none ↦ ms | some b ↦ smoothed b ms ])

  -- The loop over the queries that wait, `pending`.
  unfoldable pub take_results : GpuReading → (pending : List ℕ) → FrameStats → FrameStats
  take_results r [] s = record s { pending = [] }
  take_results r (q ∷ qs) s =
      if not (r.available q)
      then record s { pending = q ∷ qs }
      else take_results r qs
          (record s { deleted = s.deleted ++ q ∷ []; gpu_ms = measured r q s.gpu_ms })

  unfoldable pub poll_gpu_timer_queries : GpuReading → FrameStats → FrameStats
  unfolding dispose_gpu_timer_queries take_results
  poll_gpu_timer_queries r s =
      if not r.webgl2 || not s.extension
      then s
      else if r.disjoint
      then dispose_gpu_timer_queries r (record s { gpu_ms = none })
      else take_results r s.pending s

  -- `query` is the one that runs.
  unfoldable pub finished : GpuReading → (query : Option ℕ) → FrameStats → FrameStats
  unfolding poll_gpu_timer_queries
  finished r none s = s
  finished r (some q) s =
      poll_gpu_timer_queries r (record s { pending = s.pending ++ q ∷ []; active = none })

  unfoldable pub end_gpu_timer_query : GpuReading → FrameStats → FrameStats
  unfolding finished
  end_gpu_timer_query r s = if not r.webgl2 || not s.extension then s else finished r s.active s

  abbrev pub frame_rate : n.F → n.F
  frame_rate delta = if n.gt delta (frac 1 1000000) then n.div (n.of 1) delta else n.of 0

  abbrev pub smooth_from : n.F → n.F → n.F
  smooth_from before now = if n.gt before (n.of 0) then smoothed before now else now

  unfoldable pub record_frame_stats : GpuReading → (delta cpu_ms : n.F) → FrameStats → FrameStats
  unfolding poll_gpu_timer_queries
  record_frame_stats r delta cpu_ms s = poll_gpu_timer_queries r (record s {
    fps = smooth_from s.fps (frame_rate delta);
    cpu_ms = smooth_from s.cpu_ms cpu_ms;
  })

  unfoldable pub reset_frame_stats : GpuReading → FrameStats → FrameStats
  unfolding dispose_gpu_timer_queries
  reset_frame_stats r s =
      dispose_gpu_timer_queries r (record s { fps = n.of 0; cpu_ms = n.of 0; gpu_ms = none })
