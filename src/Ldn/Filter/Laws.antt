-- ===== src/Ldn/Filter/Laws.antt =====
-- What a scan returns, against a plain description: the fitting results, cut to the caller's array.
use ldn_mitm.Base.{ℕ, zero, suc, ◌≡◌, refl, List, [], ◌∷◌, ◌&&◌, if◌then◌else◌, take, arith}
use ldn_mitm.Ldn.{NetworkInfo}
use ldn_mitm.Ldn.Filter.{ScanFilter, matches, has_host_name, select}

-- The results that a game may see.
unfoldable pub eligible : ScanFilter → List NetworkInfo → List NetworkInfo
eligible f [] = []
eligible f (info ∷ rest) =
    if matches f info && has_host_name info then info ∷ eligible f rest else eligible f rest

-- A scan hands out the results that pass the filter and have a named host, in their order, and the
-- first `room` of these where there are more.
pub select-eligible :
    (room : ℕ) (f : ScanFilter) (results : List NetworkInfo)
    → select room f results ≡ take room (eligible f results)
unfolding select eligible
select-eligible zero f [] = refl
select-eligible (suc room) f [] = refl
select-eligible zero f (info ∷ rest) = refl
select-eligible (suc room) f (info ∷ rest) =
    ground (arith, select-eligible room f rest, select-eligible (suc room) f rest)
