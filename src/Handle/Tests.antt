-- ===== src/Handle/Tests.antt =====
-- The names of src/starnet_handle.cpp on a concrete map.
use starnet.Common.{◌≡◌, ◌≢◌, ◌⊎◌, refl, some, [], ◌∷◌}
use starnet.Handle.{NameMap, find, starnet_handle_removename}
use starnet.Handle.Remove.{find-removename}

abbrev names : NameMap
names = ("gate", 3) ∷ ("login", 5) ∷ ("agent", 3) ∷ []

login_found : find "login" names ≡ some 5
unfolding find
login_found = refl

find-removename_example :
    (find "agent" (starnet_handle_removename 3 names) ≢ some 3)
    × ((find "agent" (starnet_handle_removename 3 names) ≡ find "agent" names)
        ⊎ (find "agent" names ≡ some 3))
find-removename_example = find-removename 3 "agent" names
