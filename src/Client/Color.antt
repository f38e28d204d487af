-- ===== src/Client/Color.antt =====
-- The colours of client/service/config.h, and `changeColor`, `Clear_opt` and `detectmess` of
-- client/service/client.cpp. They work on copies that `strToChar` makes, given as C strings.
pub mod Shift
pub mod Bounds
use chat_service_socket_cpp.Common.{
  ℕ, zero, suc, ◌+◌, Bool, ◌&&◌, ◌||◌, Text, [], ◌∷◌, ◌++◌, txt, text_eq, length, leb, ◌==◌,
  if◌then◌else◌,
}
use chat_service_socket_cpp.Memory.{Memory, poke, strcpy, cstr, str_to_char}

pub data Color : Type 0 where
  red green blue yellow default : Color

-- The array that `changeColor` allocates.
abbrev pub color_size : ℕ
color_size = 1024

-- `changeColor`
unfoldable pub change_color : Text → Color → Text
unfolding txt
change_color mess Color.red = txt "\u{1b}[0;31m" ++ mess ++ txt "\u{1b}[0m"
change_color mess Color.green = txt "\u{1b}[0;32m" ++ mess ++ txt "\u{1b}[0m"
change_color mess Color.blue = txt "\u{1b}[0;34m" ++ mess ++ txt "\u{1b}[0m"
change_color mess Color.yellow = txt "\u{1b}[0;33m" ++ mess ++ txt "\u{1b}[0m"
change_color mess Color.default = mess

-- `mess[i]`, where the NUL stands behind the text.
unfoldable pub byte_at : ℕ → Text → ℕ
byte_at i [] = 0
byte_at zero (c ∷ t) = c
byte_at (suc i) (c ∷ t) = byte_at i t

-- The loop of `Clear_opt` from `j` in a text of at most `n` bytes, with `fuel` rounds left. The length
-- is computed anew in every round.
unfoldable pub shift_left : ℕ → ℕ → ℕ → Memory → Memory
unfolding cstr poke
shift_left zero n j m = m
shift_left (suc fuel) n j m =
    let rest = shift_left fuel n (j + 1) (poke j (m (j + 3)) m) in
    if leb j (length (cstr n 0 m)) then rest else m

-- `Clear_opt` on an array that holds a text of length `l`.
unfoldable pub clear_array : ℕ → Memory → Memory
unfolding poke shift_left
clear_array l m =
    if l == 2
    then poke 1 0 (poke 0 0 m)
    else if l == 3
    then poke 1 0 (poke 0 (m 2) m)
    else if m 2 == 32
    then shift_left l (l + 1) 2 (poke 1 (m 4) (poke 0 (m 3) m))
    else m

-- `Clear_opt(strToChar(mess))`: the copy has one byte more than the text.
unfoldable pub clear_opt : Text → Text
unfolding clear_array strcpy cstr
clear_opt t = cstr (length t + 1) 0 (clear_array (length t) (strcpy 0 t (λ b. 0)))

-- `mess[0] == '?' && (mess[1] == upper || mess[1] == lower) && (mess[2] == ' ' || ...)`
unfoldable pub has_opt : ℕ → ℕ → Text → Bool
unfolding byte_at
has_opt upper lower t =
    byte_at 0 t == 63
    && (byte_at 1 t == upper || byte_at 1 t == lower)
    && (byte_at 2 t == 32 || byte_at 2 t == 0 || byte_at 2 t == 10)

-- The new colour of `detectmess`, and whether the text has an option.
unfoldable pub option_of : Text → Color → Bool × Color
unfolding has_opt
option_of t option =
    if has_opt 82 114 t
    then (Bool.true, Color.red)
    else if has_opt 71 103 t
    then (Bool.true, Color.green)
    else if has_opt 66 98 t
    then (Bool.true, Color.blue)
    else if has_opt 89 121 t
    then (Bool.true, Color.yellow)
    else if has_opt 68 100 t
    then (Bool.true, Color.default)
    else (Bool.false, option)

-- `detectmess`: the text to be sent, and the colour.
unfoldable pub detectmess : Text → Color → Text × Color
unfolding option_of clear_opt change_color
detectmess t option =
    let (is_opt, option') = option_of t option in
    let t' = if is_opt then clear_opt t else t in
    (if byte_at 0 t' == 0 then t' else change_color t' option', option')
