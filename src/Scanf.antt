-- ===== src/Scanf.antt =====
-- The scanf overrides of src/scanf_overrides.c: the parser of formats, which notes the `%m`
-- conversions, and the moves of what they allocate from the C library's heap to the tracked one.
pub mod Ascii
pub mod Chars
pub mod Plan
pub mod Parse
pub mod Numbers
pub mod Lengths
pub mod Ordinals
pub mod Loops
pub mod Rehome
pub mod Homes
pub mod Printed
pub mod Scansets
pub mod Formats
pub mod Growth
pub mod Wrap
pub mod First
