-- ===== src/Scene/Gusts.antt =====
-- apps/frontend-webxr/src/scene.ts: gusts of wind, from `launchGust` to `removeGust`, and what they do
-- to pods. A gust is known by the handle of its collider.
pub mod Cooldowns
pub mod Histories
pub mod Pool
pub mod Rounds
pub mod Triggers
use hackz_megalo.Base.{
  ℕ, Bool, true, false, not, ◌&&◌, ◌||◌, Option, none, some, List, [], ◌∷◌, ◌++◌, map, Text,
  if◌then◌else◌, nat_eq, lookup, eq_Text, keep_if, includes, has, is_some,
}
use hackz_megalo.Scene.{
  Numbers, Handedness, dynamic, Vector, origin, add_scaled, scaled, length_sq, normalized, frac,
  clamp, Call, wakes, sets_linvel, sets_translation, sets_next_translation, applies_impulse,
  PodPhysics, Hand, Gust, GustSource, by_hand, Scene, hand_of, put_hand,
}
use hackz_megalo.Scene.Grabs.{tell, named, update_physics}
use hackz_megalo.Scene.Pods.{is_pod_interactable, collect_pod_intersections}

module _ ⦃n : Numbers⦄ where
  -- What a frame reads: its time and length, the random numbers that it draws for a body, the velocity
  -- of a body before the step of the engine, after the calls it has received, the bodies' velocities
  -- and poses after the step, and where the bodies of the gusts are and which colliders they meet.
  pub record Frame : Type 0 where
    pub now : n.F
    pub delta : n.F
    pub random : PodPhysics → (draw : ℕ) → n.F
    pub velocity_before : PodPhysics → Vector
    pub velocity : ℕ → Vector
    pub position : ℕ → Vector
    pub rotation : ℕ → n.Quaternion
    pub gust_position : ℕ → Vector
    pub meets : ℕ → List ℕ

  abbrev pub board_top_y : n.F
  board_top_y = frac 25 1000

  abbrev pub is_flat : Vector → Bool
  is_flat v = n.ge (frac 1 1000000) (length_sq v)

  abbrev pub ahead : Vector
  ahead = record { x = n.of 0; y = n.of 0; z = n.neg (n.of 1) }

  abbrev pub level_direction : Vector → Vector
  level_direction v = if is_flat v then ahead else normalized v

  unfoldable pub normalize_gust_direction : Vector → Vector
  normalize_gust_direction d =
      let v = level_direction (record { x = d.x; y = n.of 0; z = d.z }) in
      normalized (record v { y = frac 14 100 })

  abbrev pub gust_start : Vector → Vector → Vector
  gust_start source direction =
      let v = add_scaled source direction (frac 35 1000) in
      record v {
        y = clamp v.y (n.add board_top_y (frac 45 1000)) (n.add board_top_y (frac 18 100));
      }

  -- `handle` is the collider that the engine makes, if it makes one.
  abbrev pub new_gust : ℕ → Gust
  new_gust handle = record {
    handle = handle;
    calls = [];
    direction_local = record { x = n.of 0; y = n.of 0; z = n.of 1 };
    remaining = n.of 0;
    hit_pod_ids = [];
  }

  -- `acquireGust`, when there is a world: the gust, and the pool that it leaves.
  abbrev pub acquire_gust : ℕ → List Gust → Gust × List Gust
  acquire_gust handle [] = (new_gust handle, [])
  acquire_gust handle (g ∷ pool) = (g, pool)

  abbrev pub started : Vector → Vector → Gust → Gust
  started start direction g = record g {
    direction_local = direction;
    remaining = frac 28 100;
    hit_pod_ids = [];
    calls = g.calls ++ sets_translation start ∷ sets_next_translation start ∷ [];
  }

  abbrev pub launched_from :
      (handle : ℕ) → (source_local direction_local : Vector) → GustSource → Scene → Bool × Scene
  launched_from handle source_local direction_local source s =
      let direction = normalize_gust_direction direction_local in
      let acquired = acquire_gust handle s.gust_pool in
      (
        true,
        record s {
          gusts = s.gusts ++ started (gust_start source_local direction) direction acquired.0 ∷ [];
          gust_pool = acquired.1;
          last_gust_source = some source;
        },
      )

  -- The scene after `launchGust`, and its answer.
  unfoldable pub launch_gust :
      (handle : ℕ) → (source_local direction_local : Vector) → GustSource → Scene → Bool × Scene
  launch_gust handle source_local direction_local source s =
      if not s.has_world
      then (false, s)
      else launched_from handle source_local direction_local source s

  abbrev parking_place : Vector
  parking_place = record { x = n.of 0; y = n.neg (n.of 9); z = n.of 0 }

  abbrev pub put_back : Gust → Gust
  put_back g = record g {
    remaining = n.of 0;
    hit_pod_ids = [];
    calls = g.calls ++ sets_translation parking_place ∷ sets_next_translation parking_place ∷ [];
  }

  -- `this.gusts.splice(index, 1)` at the gust's index, if it has one.
  unfoldable pub splice_gust : ℕ → List Gust → List Gust
  splice_gust handle [] = []
  splice_gust handle (g ∷ gs) =
      let rest = splice_gust handle gs in if nat_eq g.handle handle then gs else g ∷ rest

  unfoldable pub remove_gust : Gust → Scene → Scene
  unfolding splice_gust
  remove_gust g s = record s {
    gusts = splice_gust g.handle s.gusts;
    gust_pool = put_back g ∷ s.gust_pool;
  }

  -- `clearGusts` removes the last gust until there is none.
  unfoldable pub clear_from : List Gust → Scene → Scene
  clear_from [] s = s
  clear_from (g ∷ gs) s = remove_gust g (clear_from gs s)

  unfoldable pub clear_gusts : Scene → Scene
  clear_gusts s = clear_from s.gusts s

  abbrev pub is_over : Gust → Bool
  is_over g = n.ge (n.of 0) g.remaining

  -- One round of the first loop of `advanceGusts`.
  abbrev pub advanced : Frame → Gust → Gust
  advanced f g =
      let h = record g { remaining = n.sub g.remaining f.delta } in
      if is_over h then h else record h {
        calls =
            h.calls
            ++ sets_translation (
                add_scaled (f.gust_position h.handle) h.direction_local
                  (n.mul (frac 12 10) f.delta))
              ∷ [];
      }

  abbrev pub pushed_velocity : Vector → Vector → Vector
  pushed_velocity v push = record {
    x = n.add v.x push.x;
    y = n.max (n.add v.y (n.mul (frac 66 100) (frac 45 100))) (frac 66 100);
    z = n.add v.z push.z;
  }

  abbrev pub blown : Frame → Vector → PodPhysics → PodPhysics
  blown f direction p =
      let push = scaled direction (frac 144 100) in
      record (tell
        (wakes
          ∷ sets_linvel (pushed_velocity (f.velocity_before p) push)
          ∷ applies_impulse (record {
            x = n.mul push.x (frac 14 100);
            y = n.mul (frac 66 100) (frac 22 100);
            z = n.mul push.z (frac 14 100);
          })
          ∷ [])
        p) {
          gust_boost_until = n.add f.now (n.of 420);
          next_impulse_at = n.add (n.add f.now (n.of 1200)) (n.mul (f.random p 3) (n.of 1800));
        }

  abbrev pub is_dynamic : PodPhysics → Bool
  is_dynamic p = elim p.kind [ dynamic ↦ true | other ↦ false ]

  -- `!this.isPodInteractable(slaveId) || this.podGrabOwnerById.has(slaveId)`
  abbrev pub is_sheltered : Text → Scene → Bool
  is_sheltered id s = not (is_pod_interactable id s) || has s.pod_grab_owner_by_id id

  unfoldable pub apply_gust_to_pod : Frame → Vector → Text → Scene → Scene
  unfolding lookup
  apply_gust_to_pod f direction id s =
      if is_sheltered id s then s else elim (lookup id s.pod_physics_by_id) [
        | none ↦ s
        | some p ↦ if is_dynamic p then update_physics id (blown f direction) s else s
      ]

  -- The inner loop of the second loop: the pods that a gust meets.
  unfoldable pub blow_pods : Frame → List Text → Gust → Scene → Gust × Scene
  unfolding includes
  blow_pods f [] g s = (g, s)
  blow_pods f (id ∷ ids) g s = elim (includes g.hit_pod_ids id) [
    | true ↦ blow_pods f ids g s
    | false ↦
        blow_pods f ids (record g { hit_pod_ids = g.hit_pod_ids ++ id ∷ [] })
          (apply_gust_to_pod f g.direction_local id s)
  ]

  abbrev pub blow : Frame → Gust → Scene → Gust × Scene
  blow f g s =
      if is_over g
      then (g, s)
      else blow_pods f (collect_pod_intersections (f.meets g.handle) [] s) g s

  unfoldable pub blow_all : Frame → List Gust → Scene → List Gust × Scene
  unfolding blow_pods
  blow_all f [] s = ([], s)
  blow_all f (g ∷ gs) s =
      let here = blow f g s in let rest = blow_all f gs here.1 in (here.0 ∷ rest.0, rest.1)

  -- The third loop.
  unfoldable pub remove_all : List Gust → Scene → Scene
  remove_all [] s = s
  remove_all (g ∷ gs) s = remove_all gs (remove_gust g s)

  -- The three loops.
  unfoldable pub gust_round : Frame → Scene → Scene
  unfolding keep_if
  gust_round f s =
      let moved = map (advanced f) s.gusts in
      let after = blow_all f moved s in
      remove_all (keep_if is_over moved) (record (after.1) { gusts = after.0 })

  unfoldable pub advance_gusts : Frame → Scene → Scene
  advance_gusts f s = if not s.has_world then s else gust_round f s
