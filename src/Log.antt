-- ===== src/Log.antt =====
-- private_libary/log_type/log_type.h and console_color.h: `printc`, which prints a line in the colour of its
-- level. A text is the list of its bytes; what `fmt` and the arguments give is a text of its own here.
pub mod Reading
mod Demo
mod Tests
use Prim.Native.Char.{code}
use Prim.Native.String.{String}
use itrace.Prelude.{ℕ, ◌==◌, not, if◌then◌else◌, List, [], ◌∷◌, ◌++◌, Bool}

abbrev pub codes : String → List ℕ
codes String.[] = []
codes (String.◌∷◌ c s) = code c ∷ codes s

-- "\e[" and what follows
abbrev escape : String → List ℕ
escape s = 0x1b ∷ 0x5b ∷ codes s

abbrev pub color_none : List ℕ
color_none = escape "0m"

abbrev f_red : List ℕ
f_red = escape "0;31m"

abbrev f_b_red : List ℕ
f_b_red = escape "1;31m"

abbrev f_green : List ℕ
f_green = escape "0;32m"

abbrev f_yello : List ℕ
f_yello = escape "0;33m"

abbrev f_blue : List ℕ
f_blue = escape "0;34m"

abbrev f_bg_reverse : List ℕ
f_bg_reverse = escape "7m"

abbrev pub msg_fatal : ℕ
msg_fatal = 0

abbrev pub msg_error : ℕ
msg_error = 1

abbrev pub msg_warn : ℕ
msg_warn = 2

abbrev pub msg_info : ℕ
msg_info = 3

abbrev pub msg_debug : ℕ
msg_debug = 4

abbrev pub msg_trace : ℕ
msg_trace = 5

abbrev pub msg_none : ℕ
msg_none = 6

-- What stands for `MSG_LEVEL`: a number, or `(test) ? a : b`, which the macro does not put in
-- parentheses.
pub data Level : Type 0 where
  level : ℕ → Level
  choice : (test : Bool) → (a b : ℕ) → Level

-- `MSG_LEVEL == m`; of a choice it is `(test) ? a : (b == m)`.
unfoldable pub is_level : Level → ℕ → Bool
is_level (level l) m = l == m
is_level (choice test a b) m = if test then not (a == 0) else b == m

-- What is printed before the text, and behind it `COLOR_NONE`.
abbrev pub info_head : List ℕ
info_head = f_green ++ (f_bg_reverse ++ (codes "[Info]" ++ (f_green ++ codes ": ")))

abbrev pub warn_head : List ℕ
warn_head = f_yello ++ (f_bg_reverse ++ (codes "[Warning]" ++ (f_yello ++ codes ": ")))

abbrev pub error_head : List ℕ
error_head = f_red ++ (f_bg_reverse ++ (codes "[Error]" ++ (f_red ++ codes ": ")))

abbrev pub fatal_head : List ℕ
fatal_head =
    f_b_red ++ (f_bg_reverse ++ (codes "[Fatal]" ++ (color_none ++ (codes ": " ++ f_b_red))))

abbrev pub trace_head : List ℕ
trace_head = f_blue ++ (f_bg_reverse ++ (codes "[Trace]" ++ (f_blue ++ codes ": ")))

abbrev pub none_head : List ℕ
none_head = f_blue ++ (f_bg_reverse ++ f_blue)

unfoldable pub printc : Level → (text : List ℕ) → List ℕ
unfolding is_level
printc l text =
    if is_level l msg_info
    then info_head ++ (text ++ color_none)
    else if is_level l msg_debug
    then []
    else if is_level l msg_warn
    then warn_head ++ (text ++ color_none)
    else if is_level l msg_error
    then error_head ++ (text ++ color_none)
    else if is_level l msg_fatal
    then fatal_head ++ (text ++ color_none)
    else if is_level l msg_trace
    then trace_head ++ (text ++ color_none)
    else if is_level l msg_none
    then none_head ++ (text ++ color_none)
    else []
