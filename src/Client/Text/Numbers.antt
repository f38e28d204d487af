-- ===== src/Client/Text/Numbers.antt =====
-- `atoi` against the decimal numerals that the server prints.
use chat_service_socket_cpp.Common.{
  ℕ, zero, suc, ◌+◌, ◌-◌, ◌*◌, ◌/◌, ◌%◌, ◌≤◌, ◌<◌, ◌≡◌, refl, Bool-cases, inl, inr, ap, ◌∙◌, arith,
  Text, txt, text_eq, false, [], ◌∷◌, ltb,
}
use chat_service_socket_cpp.Common.Int.{ℤ, pos, negsuc}
use chat_service_socket_cpp.Memory.{IsInt, NoNul, str_to_char, word_of_int, int_of_word}
use chat_service_socket_cpp.Memory.Laws.{str_to_char-eq}
use chat_service_socket_cpp.Memory.Words.{int_of_word-word_of_int}
use chat_service_socket_cpp.Database.RolesDa.{digits, to_string}
use chat_service_socket_cpp.Client.Text.{
  is_digit, read_digits, negated, read_sign, skip_blanks, atoi,
}

read_digits-cons :
    (a d : ℕ) (t : Text) → d < 10 → read_digits a ((48 + d) ∷ t) ≡ read_digits (a * 10 + d) t
unfolding read_digits is_digit
read_digits-cons a d t h =
    let value : a * 10 + (48 + d - 48) ≡ a * 10 + d = omega arith in
    ground (arith, ap (λ (n : ℕ). read_digits n t) value)

-- With enough fuel, the digits of `n` are read as `n`.
read_digits-digits :
    (fuel n : ℕ) (t : Text) → n < fuel → read_digits 0 (digits fuel n t) ≡ read_digits n t
unfolding digits
read_digits-digits zero n t h = elim h [ ]
read_digits-digits (suc fuel) n t h =
    let value : n / 10 * 10 + n % 10 ≡ n = omega arith in
    ground (
      arith,
      read_digits-cons 0 n t,
      read_digits-digits fuel (n / 10) ((48 + n % 10) ∷ t),
      read_digits-cons (n / 10) (n % 10) t (omega arith),
      ap (λ (k : ℕ). read_digits k t) value,
    )

read-digits : (fuel n : ℕ) → n < fuel → read_digits 0 (digits fuel n []) ≡ n
unfolding read_digits
read-digits fuel n h = read_digits-digits fuel n [] h

-- A text that begins with a digit.
abbrev pub Begins : Text → Type 0
Begins [] = ⊥
Begins (c ∷ t) = (48 ≤ c) × (c ≤ 57)

pub Begins-digits : (fuel n : ℕ) (t : Text) → n < fuel → Begins (digits fuel n t)
unfolding digits
Begins-digits zero n t h = elim h [ ]
Begins-digits (suc fuel) n t h =
    let ih = λ (k : n / 10 < fuel). Begins-digits fuel (n / 10) ((48 + n % 10) ∷ t) k in
    elim (Bool-cases (ltb n 10)) [
      | inl q ↦ rw (q, digits) (ground (arith, q))
      | inr q ↦ rw (q, digits) (ih (ground (arith, q)))
    ]

atoi-Begins : (t : Text) → Begins t → read_sign (skip_blanks t) ≡ pos (read_digits 0 t)
unfolding read_sign skip_blanks
atoi-Begins [] h = elim h [ ]
atoi-Begins (c ∷ t) h = ground arith

minus-digits : (t : Text) → read_sign (skip_blanks (45 ∷ t)) ≡ negated (read_digits 0 t)
unfolding read_sign skip_blanks
minus-digits t = refl

negated-suc : (n : ℕ) → negated (n + 1) ≡ negsuc n
unfolding negated
negated-suc n = ground arith

read_sign-to_string : (x : ℤ) → read_sign (skip_blanks (to_string x)) ≡ x
unfolding to_string
read_sign-to_string (pos n) =
    atoi-Begins (digits (n + 1) n []) (Begins-digits (n + 1) n [] (omega arith))
    ∙ ap pos (read-digits (n + 1) n (omega arith))
read_sign-to_string (negsuc n) =
    minus-digits (digits (n + 2) (n + 1) [])
    ∙ ap negated (read-digits (n + 2) (n + 1) (omega arith))
    ∙ negated-suc n

-- `atoi` gives every `int` back from the decimal numeral that the server prints for it.
pub atoi-to_string : (x : ℤ) → IsInt x → atoi (to_string x) ≡ x
unfolding atoi
atoi-to_string x i =
    ap (λ (y : ℤ). int_of_word (word_of_int y)) (read_sign-to_string x)
    ∙ int_of_word-word_of_int x i

NoNul-digits : (fuel n : ℕ) (t : Text) → NoNul t → NoNul (digits fuel n t)
unfolding digits
NoNul-digits zero n t h = h
NoNul-digits (suc fuel) n t h =
    ground (arith, h, NoNul-digits fuel (n / 10) ((48 + n % 10) ∷ t) (omega arith, h))

Begins-ignore : (t : Text) → Begins t → text_eq t (txt "?ignore") ≡ false
unfolding text_eq txt
Begins-ignore [] h = elim h [ ]
Begins-ignore (c ∷ t) h = ground arith

-- A numeral is neither cut by a NUL nor the word that ends the form.
pub to_string-numeral :
    (n : ℕ)
    → (str_to_char (to_string (pos n)) ≡ to_string (pos n))
      × (text_eq (to_string (pos n)) (txt "?ignore") ≡ false)
unfolding to_string
to_string-numeral n = (
  str_to_char-eq (digits (n + 1) n []) (NoNul-digits (n + 1) n [] tt),
  Begins-ignore (digits (n + 1) n []) (Begins-digits (n + 1) n [] (omega arith)),
)
