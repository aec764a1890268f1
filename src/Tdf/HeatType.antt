-- ===== src/Tdf/HeatType.antt =====
-- Fire2Decoder.go: `GetTypeByID`.
use hp_server.Prelude.{ℕ, ◌==◌, if◌then◌else◌}

-- The names that `GetTypeByID` gives, as constructors.
pub data HeatType : Type 0 where
  integer string blob tdf list map union variable object_type object_id float time_value : HeatType
  generic_type invalid : HeatType

unfoldable pub get_type_by_id : ℕ → HeatType
get_type_by_id id =
    if id == 0
    then HeatType.integer
    else if id == 1
    then HeatType.string
    else if id == 2
    then HeatType.blob
    else if id == 3
    then HeatType.tdf
    else if id == 4
    then HeatType.list
    else if id == 5
    then HeatType.map
    else if id == 6
    then HeatType.union
    else if id == 7
    then HeatType.variable
    else if id == 8
    then HeatType.object_type
    else if id == 9
    then HeatType.object_id
    else if id == 10
    then HeatType.float
    else if id == 11
    then HeatType.time_value
    else if id == 12
    then HeatType.generic_type
    else HeatType.invalid
