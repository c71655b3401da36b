-- ===== src/Strings/Case.antt =====
-- private_libary/cstring_extern_lib/cstring_extern_lib.c, `str2upper` and `str2lower`. They work in
-- place: a `char *` is the bytes of its array from where it points, the terminator and what follows
-- it included.
pub mod Laws
mod Tests
use itrace.Prelude.{
  ℕ, zero, suc, ◌+◌, ◌-◌, ◌==◌, ◌&&◌, leb, if◌then◌else◌, Bool, true, false, Option, none, some,
  List, [], ◌∷◌, get_or,
}

-- <ctype.h>'s `toupper` and `tolower` in the "C" locale.
abbrev pub toupper : ℕ → ℕ
toupper c = if leb 97 c && leb c 122 then c - 32 else c

abbrev pub tolower : ℕ → ℕ
tolower c = if leb 65 c && leb c 90 then c + 32 else c

-- The bytes before the first zero.
abbrev pub strlen : List ℕ → ℕ
strlen [] = 0
strlen (c ∷ s) = let rest = strlen s in if c == 0 then 0 else suc rest

-- `*(src + i) = v`
abbrev pub put : ℕ → ℕ → List ℕ → List ℕ
put i v [] = []
put zero v (c ∷ s) = v ∷ s
put (suc i) v (c ∷ s) = c ∷ put i v s

-- The loop of `str2upper`, with `i` + 1 for `i`.
unfoldable pub upper_loop : ℕ → List ℕ → List ℕ
upper_loop zero src = src
upper_loop (suc i) src = upper_loop i (put i (toupper (get_or src i 0)) src)

-- `none` for the null pointer; the array is as it was then.
unfoldable pub str2upper : List ℕ → Option (List ℕ)
str2upper src = if strlen src == 0 then none else some (upper_loop (strlen src) src)

-- The loop goes up, to the terminator.
unfoldable pub str2lower : List ℕ → List ℕ
str2lower [] = []
str2lower (c ∷ src) = let rest = str2lower src in if c == 0 then c ∷ src else tolower c ∷ rest
