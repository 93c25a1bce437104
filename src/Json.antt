-- ===== src/Json.antt =====
-- The JSON documents of src/common/json.cc, include/xgboost/json.h and include/xgboost/json_io.h, one
-- module for the values, the writer and the reader each.
pub mod Value
pub mod Equal
pub mod Writer
pub mod Cursor
pub mod Number
pub mod Reader
pub mod Escapes
pub mod Strings
pub mod Scan
pub mod Floats
pub mod Valid
pub mod Render
pub mod Order
pub mod Start
pub mod Lengths
pub mod Keys
pub mod Invariant
pub mod Sound
pub mod Fuel
pub mod Loops
pub mod RoundTrip
mod Tests
