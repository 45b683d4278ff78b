-- ===== src/Scene/Pods/Removal.antt =====
-- What is left of a pod that is removed, and of one that is crushed twice.
use hackz_megalo.Base.{
  true, false, not, ◌≡◌, ◌≢◌, ◌∙◌, subst, refl, ap, Option, none, some, ◌++◌, Text, text,
  Option-cases, Bool-cases, arith, lookup, remove, lookup-remove, if◌then◌else◌, eq_Text, eq_ℕ,
  text_eq_iff, option_beq, eq_Option, inl, inr, includes, includes-keep_if, ends_with,
}
use hackz_megalo.Scene.{Numbers, Handedness, left, right, Scene, Hand, Mesh}
use hackz_megalo.Scene.Grabs.{Reading, release_grab}
use hackz_megalo.Scene.Meshes.{recycle_pod_entry}
use hackz_megalo.Scene.Pods.{
  remove_pod_entry, forget_pod, remove_pod_physics, release_owner, forget_targets,
  clear_palm_contacts_by_slave_id, without_candidate, is_pod_interactable,
}

none_not_some : {id : Text} → none ≢ some id
none_not_some p = ground (arith, p)

unequal : (id : Text) (o : Option Text) → option_beq o (some id) ≡ false → o ≢ some id
unequal id none e p = none_not_some p
unequal id (some x) e p = ground (arith, e, p, text_eq_iff x id)

cleared : (id : Text) (o : Option Text) → (if option_beq o (some id) then none else o) ≢ some id
cleared id none p = none_not_some p
cleared id (some x) p = ground (arith, p, text_eq_iff x id)

module _ ⦃n : Numbers⦄ where
  abbrev pub candidate_of : Option Hand → Option Text
  candidate_of none = none
  candidate_of (some h) = h.pinch_candidate_id

  abbrev pub fingertip_in : Option Hand → Option Text
  fingertip_in none = none
  fingertip_in (some h) = h.fingertip_target_id

  -- The maps, the pinch candidates, the desktop's target and the contacts do not speak of the pod `id`,
  -- and it is not interactable. What the fingers point at is left as it was `before`.
  pub record IsForgotten (id : Text) (before s : Scene) : Type 0 where
    pub mesh : lookup id s.mesh_by_id ≡ none
    pub body : lookup id s.pod_physics_by_id ≡ none
    pub owner : lookup id s.pod_grab_owner_by_id ≡ none
    pub left_candidate : candidate_of s.left_hand ≢ some id
    pub right_candidate : candidate_of s.right_hand ≢ some id
    pub target : s.desktop_target_pod_id ≢ some id
    pub unusable : is_pod_interactable id s ≡ false
    pub left_finger : fingertip_in s.left_hand ≡ fingertip_in before.left_hand
    pub right_finger : fingertip_in s.right_hand ≡ fingertip_in before.right_hand
    pub contacts :
        (key : Text)
        → ends_with key (text ":" ++ id) ≡ true
        → includes s.active_palm_contacts key ≡ false

  no_candidate : (id : Text) (o : Option Hand) → candidate_of (without_candidate id o) ≢ some id
  no_candidate id none p = ground (arith, p)
  no_candidate id (some h) p = elim (Bool-cases (option_beq h.pinch_candidate_id (some id))) [
    | inl e ↦ none_not_some (
        subst
          (λ b.
            candidate_of (if b then some (record h { pinch_candidate_id = none }) else some h)
            ≡ some id)
          e p)
    | inr e ↦ unequal id h.pinch_candidate_id e (
        subst
          (λ b.
            candidate_of (if b then some (record h { pinch_candidate_id = none }) else some h)
            ≡ some id)
          e p)
  ]

  bodiless : (id : Text) (s : Scene) → lookup id (remove_pod_physics id s).pod_physics_by_id ≡ none
  unfolding remove_pod_physics
  bodiless id s = elim (Option-cases (lookup id s.pod_physics_by_id)) [
    | inl e ↦ rw (e, remove_pod_physics) e
    | inr (p, e) ↦
        rw (e, remove_pod_physics)
          (lookup-remove id id s.pod_physics_by_id ∙ ground (arith, text_eq_iff id id))
  ]

  meshes_kept : (id : Text) (s : Scene) → (remove_pod_physics id s).mesh_by_id ≡ s.mesh_by_id
  unfolding remove_pod_physics
  meshes_kept id s = ground arith

  meshless :
      (id : Text) (s : Scene) → lookup id s.mesh_by_id ≡ none → is_pod_interactable id s ≡ false
  unfolding is_pod_interactable
  meshless id s e = rw (e, is_pod_interactable) refl

  without-finger :
      (id : Text) (o : Option Hand) → fingertip_in (without_candidate id o) ≡ fingertip_in o
  without-finger id none = refl
  without-finger id (some h) = ground arith

  -- The release of a pod and the end of its body leave what the fingers point at.
  abbrev fingers : Scene → Option Text × Option Text
  fingers s = (fingertip_in s.left_hand, fingertip_in s.right_hand)

  release_grab-fingers :
      (r : Reading) (hand : Handedness) (s : Scene) → fingers (release_grab r hand s) ≡ fingers s
  unfolding release_grab
  release_grab-fingers r left s = ground arith
  release_grab-fingers r right s = ground arith

  release_owner-fingers :
      (r : Reading) (id : Text) (s : Scene) → fingers (release_owner r id s) ≡ fingers s
  unfolding release_owner
  release_owner-fingers r id s = elim (Option-cases (lookup id s.pod_grab_owner_by_id)) [
    | inl e ↦ rw (e, release_owner) refl
    | inr (hand, e) ↦ rw (e, release_owner) (release_grab-fingers r hand s)
  ]

  fingers_kept : (id : Text) (s : Scene) → fingers (remove_pod_physics id s) ≡ fingers s
  unfolding remove_pod_physics
  fingers_kept id s = ground arith

  -- A pod that is removed is forgotten: it has no mesh, no body and no owner, it is no pinch candidate
  -- of a hand and not the desktop's target, no palm is in contact with it, and it is not interactable.
  -- What the fingers of the hands point at is left, also where that is this pod.
  pub remove_pod_entry-IsForgotten :
      (r : Reading) (id : Text) (entry : Mesh) (s : Scene)
      → IsForgotten id s (remove_pod_entry r id entry s)
  unfolding remove_pod_entry forget_pod recycle_pod_entry forget_targets
      clear_palm_contacts_by_slave_id
  remove_pod_entry-IsForgotten r id entry s =
      let released = release_owner r id s in
      let b = record released { mesh_by_id = remove id released.mesh_by_id } in
      let gone : lookup id (remove_pod_physics id b).mesh_by_id ≡ none =
        rw (meshes_kept id b)
          (lookup-remove id id released.mesh_by_id ∙ ground (arith, text_eq_iff id id)) in
      let same = fingers_kept id b ∙ release_owner-fingers r id s in
      record {
        mesh = gone;
        unusable = meshless id (remove_pod_entry r id entry s) gone;
        left_finger = without-finger id (remove_pod_physics id b).left_hand ∙ ap (λ x. x.0) same;
        right_finger = without-finger id (remove_pod_physics id b).right_hand ∙ ap (λ x. x.1) same;
        body = bodiless id b;
        owner = lookup-remove id id _ ∙ ground (arith, text_eq_iff id id);
        left_candidate = no_candidate id _;
        right_candidate = no_candidate id _;
        target = cleared id (remove_pod_physics id b).desktop_target_pod_id;
        contacts = λ key e.
            includes-keep_if (λ x. not (ends_with x (text ":" ++ id)))
              (remove_pod_physics id b).active_palm_contacts key
            ∙ ground (arith, e);
      }
