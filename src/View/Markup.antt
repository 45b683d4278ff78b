-- ===== src/View/Markup.antt =====
-- apps/frontend-webxr/src/main.ts: the elements that `renderSelectedPanel`, `renderPodStrip` and
-- `renderActivity` build. `locale_time` is the browser's `toLocaleTimeString` of a date.
use hackz_megalo.Base.{
  Bool, List, [], ◌∷◌, ◌++◌, map, Option, none, some, Text, text, if◌then◌else◌, eq_Text,
  option_beq,
}
use hackz_megalo.Types.{SlaveState, ActivityEntry, ActivityKind, system, action, state, is_gone}
use hackz_megalo.View.{
  humanize_status, humanize_death_reason, status_tone_class, short_id, escape_html, decimal, join,
  avatar_classes,
}

unfoldable pub render_pod_avatar_markup : SlaveState → Text
render_pod_avatar_markup pod = join (
    text "\n"
    ∷ text "    <span class=\""
    ∷ avatar_classes pod
    ∷ text "\" aria-hidden=\"true\">\n"
    ∷ text "      <span class=\"pod-ear left\"></span>\n"
    ∷ text "      <span class=\"pod-ear right\"></span>\n"
    ∷ text "      <span class=\"pod-eye left\"><span class=\"pod-pupil\"></span></span>\n"
    ∷ text "      <span class=\"pod-eye right\"><span class=\"pod-pupil\"></span></span>\n"
    ∷ text "      <span class=\"pod-nose\"></span>\n"
    ∷ text "      <span class=\"pod-tooth left\"></span>\n"
    ∷ text "      <span class=\"pod-tooth right\"></span>\n"
    ∷ text "    </span>\n"
    ∷ text "  "
    ∷ [])

pub record Panel : Type 0 where
  pub class_name : Text
  pub inner_html : Text

unfoldable pub selected_markup : SlaveState → Text
selected_markup pod = join (
    text "\n"
    ∷ text "    <div class=\"selected-header\">\n"
    ∷ text "      "
    ∷ render_pod_avatar_markup pod
    ∷ text "\n"
    ∷ text "      <div>\n"
    ∷ text "        <h4>"
    ∷ escape_html pod.k8s_pod_name
    ∷ text "</h4>\n"
    ∷ text "        <p class=\"selected-meta\">"
    ∷ escape_html pod.slave_id
    ∷ text "</p>\n"
    ∷ text "      </div>\n"
    ∷ text "    </div>\n"
    ∷ text "    <div class=\"selected-tags\">\n"
    ∷ text "      <span class=\"mini-pill "
    ∷ status_tone_class pod
    ∷ text "\">"
    ∷ humanize_status pod.status
    ∷ text "</span>\n"
    ∷ text "      "
    ∷ (if pod.firewall then text "<span class=\"mini-pill tone-accent\">firewall</span>" else [])
    ∷ text "\n"
    ∷ text "      "
    ∷ (if pod.infected then text "<span class=\"mini-pill tone-muted\">infected</span>" else [])
    ∷ text "\n"
    ∷ text "    </div>\n"
    ∷ text "    <dl class=\"stat-grid\">\n"
    ∷ text "      <div><dt>Stress</dt><dd>"
    ∷ decimal pod.stress
    ∷ text "</dd></div>\n"
    ∷ text "      <div><dt>Fear</dt><dd>"
    ∷ decimal pod.fear
    ∷ text "</dd></div>\n"
    ∷ text "      <div><dt>Turns</dt><dd>"
    ∷ decimal pod.turns_lived
    ∷ text "</dd></div>\n"
    ∷ text "      <div><dt>Remain</dt><dd>"
    ∷ decimal pod.remaining_turns
    ∷ text "</dd></div>\n"
    ∷ text "      <div><dt>Reason</dt><dd>"
    ∷ humanize_death_reason pod.death_reason
    ∷ text "</dd></div>\n"
    ∷ text "      <div><dt>Source</dt><dd>"
    ∷ escape_html pod.source
    ∷ text "</dd></div>\n"
    ∷ text "    </dl>\n"
    ∷ text "  "
    ∷ [])

unfoldable pub render_selected_panel : Option SlaveState → Panel
unfolding selected_markup
render_selected_panel none = record {
  class_name = text "empty-panel";
  inner_html = text "No pod selected";
}
render_selected_panel (some pod) = record {
  class_name = text "selected-panel";
  inner_html = selected_markup pod;
}

-- A button of the strip. The three listeners that it gets act on `slave_id`.
pub record Chip : Type 0 where
  pub slave_id : Text
  pub is_selected : Bool
  pub is_hovered : Bool
  pub is_gone_chip : Bool
  pub inner_html : Text

unfoldable pub chip_markup : SlaveState → Text
chip_markup pod = join (
    text "\n"
    ∷ text "      <span class=\"pod-cell pod-cell-main\">\n"
    ∷ text "        "
    ∷ render_pod_avatar_markup pod
    ∷ text "\n"
    ∷ text "        <span class=\"pod-ident\">\n"
    ∷ text "          <strong>"
    ∷ escape_html pod.k8s_pod_name
    ∷ text "</strong>\n"
    ∷ text "          <small>"
    ∷ escape_html (short_id pod.slave_id 12)
    ∷ text "</small>\n"
    ∷ text "        </span>\n"
    ∷ text "      </span>\n"
    ∷ text "      <span class=\"pod-cell\" data-label=\"Status\">\n"
    ∷ text "        <span class=\"status-badge "
    ∷ status_tone_class pod
    ∷ text "\">"
    ∷ humanize_status pod.status
    ∷ text "</span>\n"
    ∷ text "      </span>\n"
    ∷ text "      <span class=\"pod-cell\" data-label=\"Stress\"><strong>"
    ∷ decimal pod.stress
    ∷ text "</strong></span>\n"
    ∷ text "      <span class=\"pod-cell\" data-label=\"Fear\"><strong>"
    ∷ decimal pod.fear
    ∷ text "</strong></span>\n"
    ∷ text "      <span class=\"pod-cell\" data-label=\"Turns\"><strong>"
    ∷ decimal pod.turns_lived
    ∷ text "</strong></span>\n"
    ∷ text "    "
    ∷ [])

unfoldable pub render_chip : Option Text → Option Text → SlaveState → Chip
unfolding chip_markup
render_chip selected hovered pod = record {
  slave_id = pod.slave_id;
  is_selected = option_beq (some pod.slave_id) selected;
  is_hovered = option_beq (some pod.slave_id) hovered;
  is_gone_chip = is_gone pod.status;
  inner_html = chip_markup pod;
}

unfoldable pub render_pod_strip : List SlaveState → Option Text → Option Text → List Chip
unfolding render_chip
render_pod_strip pods selected hovered = map (render_chip selected hovered) pods

unfoldable pub kind_class : ActivityKind → Text
kind_class system = text "system"
kind_class action = text "action"
kind_class state = text "state"

pub record Item : Type 0 where
  pub class_name : Text
  pub content : Text

module _ (locale_time : Text → Text) where
  unfoldable pub render_entry : ActivityEntry → Item
  unfolding join escape_html kind_class
  render_entry entry = record {
    class_name = text "activity-item is-" ++ kind_class entry.kind;
    content = join (
        text "\n"
        ∷ text "      <span>"
        ∷ escape_html entry.message
        ∷ text "</span>\n"
        ∷ text "      <time>"
        ∷ locale_time entry.created_at
        ∷ text "</time>\n"
        ∷ text "    "
        ∷ []);
  }

  unfoldable pub render_activity : List ActivityEntry → List Item
  unfolding render_entry
  render_activity [] =
      record { class_name = text "activity-empty"; content = text "No events" } ∷ []
  render_activity (e ∷ es) = map render_entry (e ∷ es)
