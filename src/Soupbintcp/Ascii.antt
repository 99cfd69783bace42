-- ===== src/Soupbintcp/Ascii.antt =====
-- The text fields of crates/clients/soupbintcp/src/session.rs: justified fields of the login request,
-- and the fields of the login answer. A `str` is its characters.
use polaris_trade.Base.{
  ℕ, zero, suc, ◌+◌, ◌-◌, ◌*◌, ◌/◌, ◌%◌, Bool, ◌&&◌, ◌||◌, Option, none, some, List, [], ◌∷◌, ◌++◌,
  ltb, leb, ◌==◌, if◌then◌else◌, length, take, drop, replicate, min, u64_max, split_first_chunk,
}
use polaris_trade.Base.Result.{Result, ok, err, ◌>>=◌, ok_or}
use polaris_trade.Soupbintcp.Error.{
  SoupBinError, protocol_violation, login_accepted_short, non_ascii_field, bad_numeric_field,
}

abbrev pub space : ℕ
space = 0x20

-- `ascii_left_justify`
unfoldable pub ascii_left_justify : List ℕ → List ℕ → ℕ → List ℕ
ascii_left_justify out s width =
    let bytes = take (min (length s) width) s in
    out ++ (bytes ++ replicate (width - length bytes) space)

-- `ascii_right_justify`
unfoldable pub ascii_right_justify : List ℕ → List ℕ → ℕ → List ℕ
ascii_right_justify out s width =
    let bytes = drop (length s - width) s in
    out ++ (replicate (width - length bytes) space ++ bytes)

-- `u64::to_string`: a number of u64 has at most 20 digits.
unfoldable pub digits : ℕ → ℕ → List ℕ → List ℕ
digits zero n acc = acc
digits (suc fuel) n acc =
    let rest = digits fuel (n / 10) ((0x30 + n % 10) ∷ acc) in
    if ltb n 10 then (0x30 + n % 10) ∷ acc else rest

abbrev pub decimal : ℕ → List ℕ
decimal n = digits 20 n []

-- A continuation byte of UTF-8.
abbrev is_continuation : ℕ → Bool
is_continuation b = leb 0x80 b && ltb b 0xc0

-- Whether the second byte may follow the first: no character is spelt longer than it need be, none is
-- a surrogate, and none is above the last.
abbrev is_second : ℕ → ℕ → Bool
is_second a b =
    if a == 0xe0
    then leb 0xa0 b && ltb b 0xc0
    else if a == 0xed
    then leb 0x80 b && ltb b 0xa0
    else if a == 0xf0
    then leb 0x90 b && ltb b 0xc0
    else if a == 0xf4
    then leb 0x80 b && ltb b 0x90
    else is_continuation b

-- The first character of bytes in UTF-8, and how many bytes it takes.
unfoldable pub first_char : List ℕ → Option (ℕ × ℕ)
first_char [] = none
first_char (a ∷ bs) =
    if ltb a 0x80
    then some (a, 1)
    else if ltb a 0xc2
    then none
    else if ltb a 0xe0
    then elim bs [
      | [] ↦ none
      | b ∷ _ ↦ if is_second a b then some (a % 32 * 64 + b % 64, 2) else none
    ]
    else if ltb a 0xf0
    then elim bs [
      | b ∷ c ∷ _ ↦
          if is_second a b && is_continuation c
          then some ((a % 16 * 64 + b % 64) * 64 + c % 64, 3)
          else none
      | _ ↦ none
    ]
    else if ltb a 0xf5
    then elim bs [
      | b ∷ c ∷ d ∷ _ ↦
          if is_second a b && is_continuation c && is_continuation d
          then some (((a % 8 * 64 + b % 64) * 64 + c % 64) * 64 + d % 64, 4)
          else none
      | _ ↦ none
    ]
    else none

-- `str::from_utf8`. Each round takes a byte at least.
unfoldable pub from_utf8 : ℕ → List ℕ → Option (List ℕ)
from_utf8 fuel [] = some []
from_utf8 zero (b ∷ bs) = none
from_utf8 (suc fuel) (b ∷ bs) = elim (first_char (b ∷ bs)) [
  | none ↦ none
  | some (c, n) ↦ elim (from_utf8 fuel (drop n (b ∷ bs))) [ none ↦ none | some cs ↦ some (c ∷ cs) ]
]

-- `char::is_whitespace`
abbrev pub is_whitespace : ℕ → Bool
is_whitespace c =
    (leb 9 c && leb c 13)
    || (c == 0x20)
    || (c == 0x85)
    || (c == 0xa0)
    || (c == 0x1680)
    || (leb 0x2000 c && leb c 0x200a)
    || (c == 0x2028)
    || (c == 0x2029)
    || (c == 0x202f)
    || (c == 0x205f)
    || (c == 0x3000)

-- `str::trim`
unfoldable pub trim_start : List ℕ → List ℕ
trim_start [] = []
trim_start (c ∷ cs) = if is_whitespace c then trim_start cs else c ∷ cs

unfoldable pub trim_end : List ℕ → List ℕ
trim_end [] = []
trim_end (c ∷ cs) = elim (trim_end cs) [
  | [] ↦ if is_whitespace c then [] else c ∷ []
  | d ∷ ds ↦ c ∷ d ∷ ds
]

unfoldable pub parse_ascii_field : List ℕ → Result SoupBinError (List ℕ)
parse_ascii_field bytes = elim (from_utf8 (length bytes) bytes) [
  | none ↦ err (protocol_violation non_ascii_field)
  | some s ↦ ok (trim_end (trim_start s))
]

-- `str::parse::<u64>`: digits behind a value so far, `none` at anything else and past the last of u64.
unfoldable pub parse_digits : ℕ → List ℕ → Option ℕ
parse_digits acc [] = some acc
parse_digits acc (c ∷ cs) =
    let v = acc * 10 + (c - 0x30) in
    let rest = parse_digits v cs in if leb 0x30 c && leb c 0x39 && leb v u64_max then rest else none

unfoldable pub parse_u64 : List ℕ → Option ℕ
parse_u64 [] = none
parse_u64 (c ∷ cs) =
    if c == 0x2b
    then elim cs [ [] ↦ none | d ∷ ds ↦ parse_digits 0 (d ∷ ds) ]
    else parse_digits 0 (c ∷ cs)

unfoldable pub parse_ascii_numeric : List ℕ → Result SoupBinError ℕ
parse_ascii_numeric bytes = parse_ascii_field bytes >>= λ s. elim s [
  | [] ↦ ok 0
  | c ∷ cs ↦ ok_or (parse_u64 (c ∷ cs)) (protocol_violation (bad_numeric_field (c ∷ cs)))
]

-- `rest.get(..20)`
unfoldable pub parse_login_accepted : List ℕ → Result SoupBinError (List ℕ × ℕ)
parse_login_accepted bytes = do
  (session, rest) ← ok_or (split_first_chunk 10 bytes) (protocol_violation login_accepted_short)
  (sequence, tail) ← ok_or (split_first_chunk 20 rest) (protocol_violation login_accepted_short)
  number ← parse_ascii_numeric sequence
  ok (session, number)
