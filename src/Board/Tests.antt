-- ===== src/Board/Tests.antt =====
-- The board after a snapshot, at a concrete state.
use hackz_megalo.Base.{◌≡◌, text}
use hackz_megalo.Store.Tests.{by_first, hydrated, hydrated-IsWellFormed}
use hackz_megalo.Scene.Tests.{natural, supply_for, table}
use hackz_megalo.Scene.Update.Losses.{is_shown}
use hackz_megalo.Board.{show, is_on_board, show-shows}

show-shows_example :
    is_shown (show supply_for hydrated.state table) (text "s1")
    ≡ is_on_board hydrated.state (text "s1")
show-shows_example = show-shows supply_for hydrated.state table (text "s1") hydrated-IsWellFormed
