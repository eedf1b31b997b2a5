-- ===== src/StatusReport.antt =====
-- The status struct of src/system/repoData.c: `dat_status_to_struct` and `dat_print_status`. The
-- conversions between `int` and `float` are the language's and are parameters, on 32-bit patterns:
-- `of_int` gives the float of an integer, `to_int` the `int` that a
-- float is converted to, and `to_ulong` the `unsigned long`.
pub mod Struct
pub mod Pack
pub mod Send
mod Tests
