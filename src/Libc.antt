-- ===== src/Libc.antt =====
-- What the source uses of the C library: character classes, comparison and conversion of text.
-- A C string is the list of its bytes without the NUL.
use dnsperf.Common.{
  ℕ, ◌+◌, ◌-◌, ◌*◌, ◌%◌, ◌^◌, Bool, true, false, ◌&&◌, ◌||◌, [], ◌∷◌, Bytes, zero, suc, ltb, leb,
  ◌==◌, is_digit, if◌then◌else◌, Option, none, some,
}
use Prim.Native.Char.{code}
use Prim.Native.String.{String}

-- The code points of a literal, all ASCII here.
abbrev pub codes : String → Bytes
codes String.[] = []
codes (String.◌∷◌ c s) = code c ∷ codes s

-- isspace: space, and \t \n \v \f \r.
unfoldable pub is_space : ℕ → Bool
is_space c = c == b' ' || (leb 9 c && leb c 13)

-- tolower in the C locale.
unfoldable pub to_lower : ℕ → ℕ
to_lower c = if leb b'A' c && leb c b'Z' then c + 32 else c

-- The bytes of memory up to the first NUL.
unfoldable pub c_string : Bytes → Bytes
c_string [] = []
c_string (c ∷ cs) = let rest = c ∷ c_string cs in if c == 0 then [] else rest

-- strncasecmp(a, b, n) == 0
unfoldable pub strncasecmp_eq : ℕ → Bytes → Bytes → Bool
unfolding to_lower
strncasecmp_eq zero a b = true
strncasecmp_eq (suc n) [] [] = true
strncasecmp_eq (suc n) (x ∷ xs) (y ∷ ys) = to_lower x == to_lower y && strncasecmp_eq n xs ys
strncasecmp_eq (suc n) _ _ = false

-- The value of a digit in a base of at most 16.
unfoldable pub digit_value : ℕ → ℕ → Option ℕ
unfolding to_lower
digit_value base c =
    let v =
      if is_digit c
      then c - b'0'
      else if leb b'a' (to_lower c) && leb (to_lower c) b'f'
      then to_lower c - 87
      else 16 in
    if ltb v base then some v else none

-- The digits at the front of a text: their value, how many they are, and the rest.
unfoldable pub read_digits : ℕ → Bytes → ℕ → ℕ → ℕ × ℕ × Bytes
unfolding digit_value
read_digits base [] acc n = (acc, n, [])
read_digits base (c ∷ cs) acc n = elim (digit_value base c) [
  | none ↦ (acc, n, c ∷ cs)
  | some v ↦ read_digits base cs (acc * base + v) (n + 1)
]

unfoldable pub skip_spaces : Bytes → Bytes
unfolding is_space
skip_spaces [] = []
skip_spaces (c ∷ cs) = let rest = skip_spaces cs in if is_space c then rest else c ∷ cs

abbrev pub ulong_max : ℕ
ulong_max = 2 ^ 64 - 1

unfoldable pub read_sign : Bytes → Bool × Bytes
read_sign [] = (false, [])
read_sign (c ∷ cs) =
    if c == b'-' then (true, cs) else if c == b'+' then (false, cs) else (false, c ∷ cs)

-- strtoul(str, &endptr, base) with a 64-bit unsigned long, for base 10, and for base 16 on text of
-- at most two characters (where no prefix "0x" counts): the value and what `endptr` points to.
-- With no digit `endptr` is the start; an overflow gives ULONG_MAX; a minus sign negates mod 2^64.
unfoldable pub strtoul : ℕ → Bytes → ℕ × Bytes
unfolding read_digits skip_spaces read_sign
strtoul base str =
    let (negative, digits) = read_sign (skip_spaces str) in
    let (value, count, rest) = read_digits base digits 0 0 in
    if count == 0
    then (0, str)
    else if ltb ulong_max value
    then (ulong_max, rest)
    else (if negative then (2 ^ 64 - value) % 2 ^ 64 else value, rest)

-- WHITESPACE is " \t\n"; strcspn(s, WHITESPACE) splits `s` here.
unfoldable pub is_separator : ℕ → Bool
is_separator c = c == b' ' || (c == 9 || c == 10)

unfoldable pub token : Bytes → Bytes
unfolding is_separator
token [] = []
token (c ∷ cs) = let rest = c ∷ token cs in if is_separator c then [] else rest

unfoldable pub behind_token : Bytes → Bytes
unfolding is_separator
behind_token [] = []
behind_token (c ∷ cs) = let rest = behind_token cs in if is_separator c then c ∷ cs else rest
