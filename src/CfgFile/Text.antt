-- ===== src/CfgFile/Text.antt =====
-- server/natserver/src/CfgFile.cpp, the text of a value: trim, valid_ip, split_ip_port, the numbers
-- that atoi reads, and lists between commas.
use p2p_server.Prelude.{
  ℕ, ◌+◌, ◌-◌, ◌*◌, ◌%◌, ◌^◌, ◌==◌, ltb, leb, if◌then◌else◌, Bool, false, ◌&&◌, ◌||◌, List, [], ◌∷◌,
  ◌++◌, Option, none, some, Bytes, bytes_eq, length, is_empty, codes, take,
}

abbrev pub is_blank : ℕ → Bool
is_blank b = b == 32 || b == 9 || b == 13 || b == 10

unfoldable pub trim_back : Bytes → Bytes
trim_back [] = []
trim_back (b ∷ bs) = let rest = trim_back bs in if is_empty rest && is_blank b then [] else b ∷ rest

unfoldable pub trim_front : Bytes → Bytes
trim_front [] = []
trim_front (b ∷ bs) = if is_blank b then trim_front bs else b ∷ bs

abbrev pub trim : Bytes → Bytes
trim s = trim_front (trim_back s)

-- The loop of `valid_ip`, with the digits and the value of the segment and the dots so far.
unfoldable pub valid_ip_loop : ℕ → ℕ → ℕ → Bytes → Bool
valid_ip_loop seg num dots [] = dots == 3 && ltb 0 seg
valid_ip_loop seg num dots (c ∷ cs) =
    let value = num * 10 + (c - 48) in
    if c == b'.'
    then valid_ip_loop 0 0 (dots + 1) cs
    else if leb 48 c && leb c 57
    then if ltb 255 value || ltb 3 (seg + 1) then false else valid_ip_loop (seg + 1) value dots cs
    else false

unfoldable pub valid_ip : Bytes → Bool
valid_ip ip = if is_empty ip || ltb 15 (length ip) then false else valid_ip_loop 0 0 0 ip

-- The text before and after the first `c`, if there is one.
unfoldable pub split_first : ℕ → Bytes → Option (Bytes × Bytes)
split_first c [] = none
split_first c (b ∷ bs) =
    if b == c
    then some ([], bs)
    else elim (split_first c bs) [ none ↦ none | some (before, after) ↦ some (b ∷ before, after) ]

-- The address part of `ip[:port]`; no caller uses the port.
unfoldable pub ip_part : Bytes → Bytes
ip_part input = elim (split_first b':' (trim input)) [
  | none ↦ trim input
  | some (before, _) ↦ trim before
]

abbrev pub is_digit : ℕ → Bool
is_digit c = leb 48 c && leb c 57

unfoldable pub atoi_digits : ℕ → Bytes → ℕ
atoi_digits n [] = n
atoi_digits n (c ∷ cs) = if is_digit c then atoi_digits (n * 10 + (c - 48)) cs else n

-- The 32 bits of a `long` of 64 bits, at which `strtol` stops.
abbrev low_bits : ℕ → ℕ
low_bits n = if leb (2 ^ 63) n then 2 ^ 32 - 1 else n % 2 ^ 32

abbrev low_bits_negated : ℕ → ℕ
low_bits_negated n = if leb (2 ^ 63) n then 0 else (2 ^ 32 - n % 2 ^ 32) % 2 ^ 32

unfoldable pub atoi_sign : Bytes → ℕ
atoi_sign [] = 0
atoi_sign (c ∷ cs) =
    if c == b'-'
    then low_bits_negated (atoi_digits 0 cs)
    else if c == b'+'
    then low_bits (atoi_digits 0 cs)
    else low_bits (atoi_digits 0 (c ∷ cs))

unfoldable pub atoi_skip : Bytes → Bytes
atoi_skip [] = []
atoi_skip (c ∷ cs) = if c == 32 || (leb 9 c && leb c 13) then atoi_skip cs else c ∷ cs

-- The C library's `atoi`, as the 32 bits of its result.
abbrev pub atoi : Bytes → ℕ
atoi s = atoi_sign (atoi_skip s)

unfoldable pub starts_with : Bytes → Bytes → Bool
starts_with prefix key = bytes_eq (take (length prefix) key) prefix

abbrev pub is_yes : Bytes → Bool
is_yes val = bytes_eq val (codes "1") || bytes_eq val (codes "true") || bytes_eq val (codes "yes")

-- The parts between commas, without the empty ones; `cur` is the part being read.
unfoldable pub split_commas : Bytes → Bytes → List Bytes
split_commas cur [] = if is_empty cur then [] else cur ∷ []
split_commas cur (c ∷ cs) =
    let rest = split_commas [] cs in
    let more = split_commas (cur ++ c ∷ []) cs in
    if c == b',' then (if is_empty cur then rest else cur ∷ rest) else more
