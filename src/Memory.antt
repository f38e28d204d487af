-- ===== src/Memory.antt =====
-- Bytes in memory: the C string and integer accesses that the packages, the rooms and Util/util.cpp
-- make. A memory is total, so a write past the end of an object is a write to what lies behind it.
pub mod Laws
pub mod Words
use chat_service_socket_cpp.Common.{
  ℕ, zero, suc, ◌+◌, ◌-◌, ◌*◌, ◌/◌, ◌%◌, ◌<◌, ◌≡◌, Text, [], ◌∷◌, All, ◌==◌, ltb, if◌then◌else◌,
}
use chat_service_socket_cpp.Common.Int.{ℤ, pos, negsuc}

abbrev pub Memory : Type 0
Memory = ℕ → ℕ

unfoldable pub poke : ℕ → ℕ → Memory → Memory
poke a c m b = if b == a then c else m b

-- `strcpy(p + o, t)`: up to the first NUL of `t`, and a NUL.
unfoldable pub strcpy : ℕ → Text → Memory → Memory
strcpy o [] m = poke o 0 m
strcpy o (c ∷ t) m = let rest = poke o c (strcpy (o + 1) t m) in if c == 0 then poke o 0 m else rest

-- The C string at `o`, of which at most `n` bytes are read.
unfoldable pub cstr : ℕ → ℕ → Memory → Text
cstr zero o m = []
cstr (suc n) o m = let rest = cstr n (o + 1) m in if m o == 0 then [] else m o ∷ rest

-- `strToChar`: a copy of the text up to its first NUL.
unfoldable pub str_to_char : Text → Text
str_to_char [] = []
str_to_char (c ∷ t) = let rest = c ∷ str_to_char t in if c == 0 then [] else rest

-- An integer of `k` bytes, the lowest first.
unfoldable pub write_word : ℕ → ℕ → ℕ → Memory → Memory
write_word zero o w m = m
write_word (suc k) o w m = poke o (w % 256) (write_word k (o + 1) (w / 256) m)

unfoldable pub read_word : ℕ → ℕ → Memory → ℕ
read_word zero o m = 0
read_word (suc k) o m = m o + 256 * read_word k (o + 1) m

-- The two's complement of an `int`.
unfoldable pub word_of_int : ℤ → ℕ
word_of_int (pos n) = n % 4294967296
word_of_int (negsuc n) = 4294967295 - n % 4294967296

unfoldable pub int_of_word : ℕ → ℤ
int_of_word w = if ltb w 2147483648 then pos w else negsuc (4294967295 - w)

-- The texts that a C string can hold.
abbrev pub NoNul : Text → Type 0
NoNul t = All (λ c. 0 < c) t

-- The C string at `o` is `t`.
abbrev pub Stored : ℕ → Text → Memory → Type 0
Stored o [] m = m o ≡ 0
Stored o (c ∷ t) m = (m o ≡ c) × (0 < c) × Stored (o + 1) t m

-- The values that an `int` holds.
abbrev pub IsInt : ℤ → Type 0
IsInt (pos n) = n < 2147483648
IsInt (negsuc n) = n < 2147483648
