-- ===== src/Scene/Tests/Gusts.antt =====
-- The theorem on the gusts of one hand at a concrete input.
use hackz_megalo.Base.{◌≡◌, ◌≢◌, refl, true, some, List, [], ◌∷◌, text, arith, eq_Text}
use hackz_megalo.Scene.{left, right, origin}
use hackz_megalo.Scene.Tests.{natural, a_reading, frame, bearings}
use hackz_megalo.Scene.Tests.Rounds.{windy}
use hackz_megalo.Scene.Gusts.{launch_gust}
use hackz_megalo.Scene.Gusts.Triggers.{Bearings, try_trigger_hand_gust}
use hackz_megalo.Scene.Hands.{HandReading, skeleton_of}
use hackz_megalo.Scene.Calls.{SceneCall, clears, crushes, frames, gusts, grabs}
use hackz_megalo.Scene.Calls.Apart.{
  HandCall, calls, samples, run_hands, try_trigger_hand_gust-apart,
}

sent : (try_trigger_hand_gust bearings 9 left windy).gusts ≢ windy.gusts
unfolding try_trigger_hand_gust launch_gust
sent p = ground (arith, p)

abbrev soon : Bearings
soon = record bearings { now = 1200 }

abbrev later : Bearings
later = record bearings { now = 1500 }

abbrev told : SceneCall → HandCall
told c = calls (record { reading = a_reading; positions = λ h. origin; call = c })

-- The joints of a hand, all at one place.
abbrev joints : HandReading
joints = record {
  now = 1100;
  pose = λ j. some origin;
  wrist_rotation = natural.identity;
  turned = λ q v. v;
  of_basis = λ x y z. natural.identity;
  rotation_to_board = λ q. q;
  bearings = soon;
}

-- A frame: both hands are read, the right one is lost, both grab, and the left one sweeps again.
abbrev between : List HandCall
between =
    told (frames frame)
    ∷ samples joints a_reading left
    ∷ told (clears right true)
    ∷ told (grabs left)
    ∷ told (gusts soon 10 left)
    ∷ told (gusts soon 11 right)
    ∷ told (crushes (text "s1"))
    ∷ []

try_trigger_hand_gust-apart_example :
    (try_trigger_hand_gust later 12 left
      (run_hands between (try_trigger_hand_gust bearings 9 left windy))).gusts
    ≡ (run_hands between (try_trigger_hand_gust bearings 9 left windy)).gusts
unfolding skeleton_of
try_trigger_hand_gust-apart_example =
    try_trigger_hand_gust-apart bearings later 9 12 left between windy sent
      (refl, (refl, (refl, (refl, (refl, (refl, (refl, tt))))))) refl
