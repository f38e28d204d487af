-- ===== src/Client/Text.antt =====
-- What the client does with the lines it reads: commands, `strstr`, `atoi`, and the copies of lines
-- into `char` arrays.
pub mod Numbers
use chat_service_socket_cpp.Common.{
  ℕ, zero, suc, ◌+◌, ◌-◌, ◌*◌, Bool, true, false, ◌&&◌, ◌||◌, Text, [], ◌∷◌, text_eq, ltb, leb,
  ◌==◌, if◌then◌else◌,
}
use chat_service_socket_cpp.Common.Int.{ℤ, pos, negsuc}
use chat_service_socket_cpp.Memory.{Memory, poke, word_of_int, int_of_word}

-- `cmd.substr(0, cmd.find(" "))`
unfoldable pub before_space : Text → Text
before_space [] = []
before_space (c ∷ t) = let rest = c ∷ before_space t in if c == 32 then [] else rest

unfoldable pub has_space : Text → Bool
has_space [] = false
has_space (c ∷ t) = c == 32 || has_space t

unfoldable pub behind_space : Text → Text
behind_space [] = []
behind_space (c ∷ t) = let rest = behind_space t in if c == 32 then t else rest

-- `cmd.substr(cmd.find(" ")+1, cmd.size())`: without a blank, `npos + 1` is 0.
unfoldable pub after_space : Text → Text
unfolding has_space behind_space
after_space t = if has_space t then behind_space t else t

unfoldable pub starts_with : Text → Text → Bool
starts_with [] t = true
starts_with (a ∷ s) [] = false
starts_with (a ∷ s) (b ∷ t) = a == b && starts_with s t

-- `strstr(t, s) != NULL`
unfoldable pub contains : Text → Text → Bool
unfolding starts_with
contains s [] = starts_with s []
contains s (c ∷ t) = starts_with s (c ∷ t) || contains s t

-- `mes[strlen(mes)-1] = '\0'`; of an empty line, it writes before the array.
unfoldable pub drop_last : Text → Text
drop_last [] = []
drop_last (c ∷ []) = []
drop_last (c ∷ d ∷ t) = c ∷ drop_last (d ∷ t)

-- `copy(s.begin(), s.begin()+SIZE, array)` at `o`: the string ends with a NUL, and what stands behind
-- it is as unknown as what stood in the array.
unfoldable pub copy_line : ℕ → ℕ → Text → Memory → Memory
unfolding poke
copy_line zero o s m = m
copy_line (suc n) o [] m = poke o 0 m
copy_line (suc n) o (c ∷ s) m = poke o c (copy_line n (o + 1) s m)

unfoldable pub is_digit : ℕ → Bool
is_digit c = leb 48 c && leb c 57

-- The digits at the front of a text, behind those with the value `acc`.
unfoldable pub read_digits : ℕ → Text → ℕ
unfolding is_digit
read_digits acc [] = acc
read_digits acc (c ∷ t) =
    let rest = read_digits (acc * 10 + (c - 48)) t in if is_digit c then rest else acc

unfoldable pub negated : ℕ → ℤ
negated zero = pos 0
negated (suc n) = negsuc n

unfoldable pub read_sign : Text → ℤ
unfolding read_digits negated
read_sign [] = pos 0
read_sign (c ∷ t) =
    if c == 45
    then negated (read_digits 0 t)
    else if c == 43
    then pos (read_digits 0 t)
    else pos (read_digits 0 (c ∷ t))

unfoldable pub skip_blanks : Text → Text
skip_blanks [] = []
skip_blanks (c ∷ t) =
    let rest = skip_blanks t in if c == 32 || leb 9 c && leb c 13 then rest else c ∷ t

-- `atoi`: the standard leaves a value open that is no `int`; here it wraps around.
unfoldable pub atoi : Text → ℤ
unfolding read_sign skip_blanks word_of_int int_of_word
atoi t = int_of_word (word_of_int (read_sign (skip_blanks t)))
