-- ===== src/Client/Color/Bounds.antt =====
-- The array of `changeColor`.
use chat_service_socket_cpp.Common.{
  ◌+◌, ◌≤◌, ◌↔◌, Text, txt, ℕ, arith, length, length-append, [], ◌∷◌,
}
use chat_service_socket_cpp.Client.Color.{Color, color_size, change_color}

-- The longest message that the array holds: with a colour 11 bytes and the NUL come to it, and without
-- one only the NUL.
abbrev pub longest : Color → ℕ
longest Color.default = 1023
longest _ = 1012

-- What `changeColor` stores, its NUL included, lies within its array of 1024 bytes exactly for messages
-- of at most 1012 bytes, or, with the default colour, of at most 1023.
pub change_color_size :
    (t : Text) (o : Color) → (length (change_color t o) + 1 ≤ color_size) ↔ (length t ≤ longest o)
unfolding change_color txt
change_color_size t Color.red = ground (arith, length-append {0} t (27 ∷ 91 ∷ 48 ∷ 109 ∷ []))
change_color_size t Color.green = ground (arith, length-append {0} t (27 ∷ 91 ∷ 48 ∷ 109 ∷ []))
change_color_size t Color.blue = ground (arith, length-append {0} t (27 ∷ 91 ∷ 48 ∷ 109 ∷ []))
change_color_size t Color.yellow = ground (arith, length-append {0} t (27 ∷ 91 ∷ 48 ∷ 109 ∷ []))
change_color_size t Color.default = ground arith
