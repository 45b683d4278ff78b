-- ===== src/View/Page.antt =====
-- apps/frontend-webxr/src/main.ts: what the subscriber of the store writes to the page and hands to
-- the scene after each change, lines 241 to 279.
use hackz_megalo.Base.{
  ℕ, Bool, true, false, not, ◌&&◌, ◌||◌, List, ◌++◌, Option, none, some, Text, text, truthy,
  if◌then◌else◌, or_else, on_some, lookup, eq_Text,
}
use hackz_megalo.Types.{SlaveState}
use hackz_megalo.Store.{GameState, GamePhase, connecting, playing}
use hackz_megalo.Store.Pods.{Collation, get_pods, get_effective_counts}
use hackz_megalo.View.{decimal}
use hackz_megalo.View.Markup.{
  Panel, Chip, Item, render_selected_panel, render_pod_strip, render_activity,
}

pub record HudData : Type 0 where
  pub session_id : Text
  pub live : ℕ
  pub gone : ℕ
  pub connection : Text
  pub xr_active : Bool

pub record Page : Type 0 where
  pub xr_badge : Text
  pub start_status : Text
  pub start_hidden : Bool
  pub game_hidden : Bool
  pub session_id : Text
  pub connection_pill : Text
  pub live_pill : Text
  pub gone_pill : Text
  pub mode_pill : Text
  pub pod_count : Text
  pub start_disabled : Bool
  pub enter_xr_hidden : Bool
  pub disconnect_text : Text
  pub desktop_active : Bool
  pub xr_frame_active : Bool
  pub panel : Panel
  pub strip : List Chip
  pub activity : List Item
  pub scene_pods : List SlaveState
  pub scene_selected : Option Text
  pub scene_hovered : Option Text
  pub scene_eliminated : List Text
  pub hud : HudData

abbrev pub is_playing : GamePhase → Bool
is_playing playing = true
is_playing _ = false

abbrev pub is_connecting : GamePhase → Bool
is_connecting connecting = true
is_connecting _ = false

-- `state.selectedPodId ? (state.podsById[state.selectedPodId] ?? null) : null`
unfoldable pub selected_pod : GameState → Option SlaveState
unfolding lookup
selected_pod g = elim g.selected_pod_id [
  | none ↦ none
  | some id ↦ if truthy id then lookup id g.pods_by_id else none
]

module _ ⦃c : Collation⦄ (locale_time : Text → Text) where
  unfoldable pub render : GameState → Page
  unfolding get_pods get_effective_counts selected_pod render_selected_panel render_pod_strip
      render_activity
  render g =
      let pods = get_pods g in
      let counts = get_effective_counts g in
      let name = or_else (on_some g.session (λ m. m.session_id)) (text "not connected") in
      let desktop = is_playing g.phase && not g.xr_active in
      record {
        xr_badge = if g.xr_supported then text "WebXR ready" else text "Desktop only";
        start_status = or_else g.error_message g.connection_message;
        start_hidden = is_playing g.phase;
        game_hidden = not (is_playing g.phase);
        session_id = name;
        connection_pill = g.connection_message;
        live_pill = text "Live " ++ decimal counts.live;
        gone_pill = text "Gone " ++ decimal counts.gone;
        mode_pill = if g.xr_active then text "WebXR" else text "Desktop 3D";
        pod_count =
            decimal counts.live ++ (text " live / " ++ (decimal counts.gone ++ text " gone"));
        start_disabled = is_connecting g.phase;
        enter_xr_hidden = not g.xr_supported || (g.xr_active || not (is_playing g.phase));
        disconnect_text = if g.xr_active then text "Disconnect + Exit XR" else text "Disconnect";
        desktop_active = desktop;
        xr_frame_active = g.xr_active;
        panel = render_selected_panel (selected_pod g);
        strip = render_pod_strip pods g.selected_pod_id g.hovered_pod_id;
        activity = render_activity locale_time g.activity;
        scene_pods = pods;
        scene_selected = g.selected_pod_id;
        scene_hovered = g.hovered_pod_id;
        scene_eliminated = g.xr_eliminated_pod_ids;
        hud = record {
          session_id = name;
          live = counts.live;
          gone = counts.gone;
          connection = g.connection_message;
          xr_active = g.xr_active;
        };
      }
