-- ===== src/Handle.antt =====
-- src/starnet_handle.cpp: the names of services.
-- The `unordered_map` is an association list with distinct names; a name is a `String`.
pub mod Remove
mod Tests
use Prim.Native.String.{String}
use text.Mathlib.Text.{◌==◌ as str_eq}
use starnet.Common.{ℕ, Bool, true, false, List, [], ◌∷◌, Option, none, some, ◌==◌, if◌then◌else◌}

abbrev pub NameMap : Type 0
NameMap = List (String × ℕ)

-- `nameMap.find`
unfoldable pub find : String → NameMap → Option ℕ
find name [] = none
find name ((k, h) ∷ m) = if str_eq k name then some h else find name m

-- The answer, and the map: a name that is taken is refused.
unfoldable pub starnet_handle_namehandle : ℕ → String → NameMap → Bool × NameMap
unfolding find
starnet_handle_namehandle handle name m = elim (find name m) [
  | some h ↦ (false, m)
  | none ↦ (true, (name, handle) ∷ m)
]

-- 0 stands for a name that is not found.
unfoldable pub starnet_handle_findname : String → NameMap → ℕ
unfolding find
starnet_handle_findname name m = elim (find name m) [ some h ↦ h | none ↦ 0 ]

unfoldable pub starnet_handle_removename : ℕ → NameMap → NameMap
starnet_handle_removename handle [] = []
starnet_handle_removename handle ((k, h) ∷ m) =
    let rest = starnet_handle_removename handle m in if h == handle then rest else (k, h) ∷ rest
