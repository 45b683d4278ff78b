-- ===== src/View/Tests.antt =====
-- The page's theorems at concrete inputs.
use hackz_megalo.Base.{◌≡◌, refl, Text, text, arith, inl}
use hackz_megalo.Types.{SlaveState}
use hackz_megalo.Store.Tests.{by_first, alpha}
use hackz_megalo.View.{escape_html}
use hackz_megalo.View.Markup.{selected_markup}
use hackz_megalo.View.Escape.{
  escape_each, escape_html-escape_each, count, read_html, read_html-escape_html,
}
use hackz_megalo.View.Tags.{count-selected_markup}

abbrev attack : Text
attack = text "<img src=\"x\">&amp;"

abbrev named_badly : SlaveState
named_badly = record alpha { k8s_pod_name = attack; slave_id = attack; source = attack }

escape_each_example : escape_html attack ≡ escape_each attack
escape_each_example = escape_html-escape_each attack

read_html_example : read_html 100 (escape_html attack) ≡ attack
read_html_example = read_html-escape_html 100 attack (omega arith)

count-selected_markup_example :
    count 60 (selected_markup alpha) ≡ count 60 (selected_markup named_badly)
count-selected_markup_example = count-selected_markup 60 (inl refl) alpha named_badly refl refl
