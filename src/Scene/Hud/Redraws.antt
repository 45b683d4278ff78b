-- ===== src/Scene/Hud/Redraws.antt =====
-- What the HUD shows.
use hackz_megalo.Base.{
  Bool, true, false, not, ◌&&◌, ◌≡◌, ◌≢◌, refl, sym, ap, ◌∙◌, Option, none, some, List, [], ◌∷◌,
  Text, if_cases, arith, text_eq, eq_Text,
}
use hackz_megalo.Scene.{Numbers}
use hackz_megalo.Scene.Gpu.{FrameStats}
use hackz_megalo.Scene.Xr.{Xr}
use hackz_megalo.Scene.Hud.Debug.{
  HudData, HudDebugData, Formats, Hud, refresh_hud, set_hud_data, update_hud_debug_state,
  reset_hud_debug_data,
}

same_text : (a b : Text) → text_eq a b ≡ true → a ≡ b
same_text a b e = ground (arith, eq_Text.beq_iff a b, e)

module _ ⦃n : Numbers⦄ (signature : HudData → HudDebugData → Text) where
  pub data HudCall : Type 0 where
    tells : (now : n.F) → HudData → HudCall
    updates :
        Formats → (now : n.F) → (wrist_tracked right_tracked : Bool) → FrameStats → Xr → HudCall
    resets : Formats → (now : n.F) → Xr → HudCall
    refreshes : (now : n.F) → (immediate : Bool) → HudCall

  unfoldable pub hud_step : HudCall → Hud → Hud
  unfolding refresh_hud set_hud_data update_hud_debug_state reset_hud_debug_data
  hud_step (tells now to) h = set_hud_data signature now to h
  hud_step (updates w now wrist_tracked right_tracked stats x) h =
      update_hud_debug_state signature w now wrist_tracked right_tracked stats x h
  hud_step (resets w now x) h = reset_hud_debug_data signature w now x h
  hud_step (refreshes now immediate) h = refresh_hud signature now immediate h

  unfoldable pub hud_steps : List HudCall → Hud → Hud
  hud_steps [] h = h
  hud_steps (c ∷ cs) h = hud_steps cs (hud_step c h)

  -- The signature that is kept is that of what was drawn last, or the first one, which is empty.
  abbrev pub IsShown : Hud → Type 0
  IsShown h = elim h.drawn [
    | [] ↦ h.last_signature ≡ []
    | d ∷ ds ↦ h.last_signature ≡ signature d.0 d.1
  ]

  refresh-IsShown :
      (now : n.F) (immediate : Bool) (h : Hud)
      → IsShown h
      → IsShown (refresh_hud signature now immediate h)
  unfolding refresh_hud
  refresh-IsShown now immediate h w =
      if_cases IsShown (text_eq (signature h.hud_data h.hud_debug_data) h.last_signature) h _
        (λ e. w)
        (λ e.
          if_cases IsShown (not immediate && n.gt (n.of 80) (n.sub now h.last_draw_at)) h _ (λ f. w)
            (λ f. refl))

  step-IsShown : (c : HudCall) (h : Hud) → IsShown h → IsShown (hud_step c h)
  unfolding hud_step set_hud_data update_hud_debug_state reset_hud_debug_data
  step-IsShown (tells now to) h w = refresh-IsShown now true _ w
  step-IsShown (updates v now a b stats x) h w = refresh-IsShown now false _ w
  step-IsShown (resets v now x) h w = refresh-IsShown now true _ w
  step-IsShown (refreshes now immediate) h w = refresh-IsShown now immediate h w

  steps-IsShown : (cs : List HudCall) (h : Hud) → IsShown h → IsShown (hud_steps cs h)
  unfolding hud_steps
  steps-IsShown [] h w = w
  steps-IsShown (c ∷ cs) h w = steps-IsShown cs (hud_step c h) (step-IsShown c h w)

  -- The signature of what the HUD shows, where it has drawn.
  abbrev pub drawn_signature : Hud → Option Text
  drawn_signature h = elim h.drawn [ [] ↦ none | d ∷ ds ↦ some (signature d.0 d.1) ]

  kept-drawn_signature :
      (h : Hud) (t : Text) → IsShown h → h.last_signature ≡ t → t ≢ [] → drawn_signature h ≡ some t
  kept-drawn_signature h t w e filled =
      elim h.drawn
          as (λ ds.
            (IsShown (record h { drawn = ds })
              → drawn_signature (record h { drawn = ds }) ≡ some t)) [
                | [] ↦ λ v. absurd (filled (sym e ∙ v))
                | d ∷ ds ↦ λ v. ap (λ s. some s) (sym v ∙ e)
              ]
        w

  -- Where no signature is empty, and at first the signature that is kept is that of what was drawn
  -- last, or empty where nothing was drawn: after any history of the HUD's calls, a refresh at once
  -- leaves the HUD with a picture that has the signature of its data.
  pub hud_steps-shows :
      (cs : List HudCall) (now : n.F) (h : Hud)
      → ((d : HudData) (b : HudDebugData) → signature d b ≢ [])
      → IsShown h
      → let g = hud_steps cs h in
        drawn_signature (refresh_hud signature now true g)
        ≡ some (signature g.hud_data g.hud_debug_data)
  unfolding refresh_hud
  hud_steps-shows cs now h filled w =
      let g = hud_steps cs h in
      let t = signature g.hud_data g.hud_debug_data in
      if_cases (λ k. drawn_signature k ≡ some t) (text_eq t g.last_signature) g _
        (λ e.
          kept-drawn_signature g t (steps-IsShown cs h w) (sym (same_text t g.last_signature e))
            (filled g.hud_data g.hud_debug_data))
        (λ e. refl)
