-- ===== src/Tests/Predictor.antt =====
-- The branch predictor with two tables of four entries.
use me_mo_tracer.Base.{◌≡◌, Bool, true, false, List, ◌∷◌, replicate}
use me_mo_tracer.Tage.Entry.{Tage, init}
use me_mo_tracer.Tage.Hash.{get_tage_index}
use me_mo_tracer.Tage.Hash.Blind.{get_tage_index_blind}
use me_mo_tracer.Tage.Predictor.{predict, get_tage_predictions}
use me_mo_tracer.Tage.Predictor.Providers.{IsOf, hits, get_tage_predictions-IsOf}
use me_mo_tracer.Tage.Predictor.Invariant.{IsValid, predict-IsValid, init-IsValid}

abbrev small : Tage
small = init 2 2

-- After a branch that was taken.
abbrev trained : Tage
trained = (predict small 37 true).0

abbrev history : List Bool
history = true ∷ replicate 63 false

get_tage_predictions-IsOf_example :
    IsOf trained 37 (hits trained 37 trained.table_num) (get_tage_predictions trained 37)
get_tage_predictions-IsOf_example = get_tage_predictions-IsOf trained 37

predict-IsValid_example : IsValid (predict small 37 true).0
predict-IsValid_example = predict-IsValid small 37 true (init-IsValid 2 2)

get_tage_index_blind_example :
    get_tage_index (record small { history_buffer = history }) 37 1 ≡ get_tage_index small 37 1
get_tage_index_blind_example = get_tage_index_blind small history 37 1
