-- ===== src/Tage/Hash/Blind.antt =====
-- What src/mybitset.h makes of `GetTageIndex`.
use me_mo_tracer.Base.{ℕ, ◌≡◌, refl, Bool, List}
use me_mo_tracer.Tage.BitSet.{set_bit}
use me_mo_tracer.Tage.Entry.{Tage}
use me_mo_tracer.Tage.Hash.{fold_index, get_tage_index}

-- `mybitset::set` writes a one whatever it is given, so the global history never reaches the index:
-- two histories give the same slot in every table.
pub get_tage_index_blind :
    (p : Tage) (history : List Bool) (pc table : ℕ)
    → get_tage_index (record p { history_buffer = history }) pc table ≡ get_tage_index p pc table
unfolding get_tage_index fold_index set_bit
get_tage_index_blind p history pc table = refl
