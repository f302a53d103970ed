-- ===== src/Scanf/Ascii.antt =====
-- The characters that the parser of src/scanf_overrides.c tells apart.
use libc_override.Base.{ℕ}

abbrev pub percent : ℕ
percent = 37

abbrev pub dollar : ℕ
dollar = 36

abbrev pub star : ℕ
star = 42

abbrev pub digit_zero : ℕ
digit_zero = 48

abbrev pub digit_nine : ℕ
digit_nine = 57

abbrev pub upper_l : ℕ
upper_l = 76

abbrev pub open_bracket : ℕ
open_bracket = 91

abbrev pub close_bracket : ℕ
close_bracket = 93

abbrev pub caret : ℕ
caret = 94

abbrev pub lower_c : ℕ
lower_c = 99

abbrev pub lower_h : ℕ
lower_h = 104

abbrev pub lower_j : ℕ
lower_j = 106

abbrev pub lower_l : ℕ
lower_l = 108

abbrev pub lower_m : ℕ
lower_m = 109

abbrev pub lower_n : ℕ
lower_n = 110

abbrev pub lower_s : ℕ
lower_s = 115

abbrev pub lower_t : ℕ
lower_t = 116

abbrev pub lower_z : ℕ
lower_z = 122
