-- ===== src/Capabilities/Examples.antt =====
-- A board after a lite setup, on which the statement about capabilities/routing.py is exercised, and
-- the consistency of the inventory.
use byo_firmware_mcp.Prelude.{
  String, ◌≡◌, refl, Bool, true, false, Option, none, some, all, map, string_eq,
}
use byo_firmware_mcp.Prelude.Dict.{get}
use byo_firmware_mcp.Prelude.Sorting.{dedup, contains}
use byo_firmware_mcp.Capabilities.Matrix.{TierRoute, raw, tier_route_matrix, route_by_name}
use byo_firmware_mcp.Capabilities.Routing.{CapabilityState, setup_lite}
use byo_firmware_mcp.Capabilities.Routing.Split.{IsSplit, routes-IsSplit}

abbrev lite_board : String → CapabilityState
lite_board board = record {
  board_id = board;
  tier = some setup_lite;
  status = "committed";
  setup_incomplete = false;
}

routes-IsSplit_example : IsSplit lite_board "flash_application" "nucleo"
routes-IsSplit_example = routes-IsSplit lite_board "flash_application" "nucleo"

abbrev is_raw : Option TierRoute → Bool
is_raw none = false
is_raw (some row) = elim row.guard [ raw ↦ true | _ ↦ false ]

abbrev names_raw_tool : TierRoute → Bool
names_raw_tool row = elim row.raw_tool [ none ↦ true | some tool ↦ is_raw (get route_by_name tool) ]

-- Each raw tool that a row names is a raw row, and no name stands twice.
raw_tools_listed : all names_raw_tool tier_route_matrix ≡ true
unfolding all tier_route_matrix route_by_name get
raw_tools_listed = refl

names_once :
    dedup (map (λ row. row.name) tier_route_matrix) ≡ map (λ row. row.name) tier_route_matrix
unfolding dedup contains tier_route_matrix
names_once = refl
