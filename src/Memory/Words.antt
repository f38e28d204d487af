-- ===== src/Memory/Words.antt =====
-- Integers written to memory and read back.
use chat_service_socket_cpp.Common.{
  ℕ, zero, suc, ◌+◌, ◌*◌, ◌/◌, ◌%◌, ◌≤◌, ◌<◌, ◌≡◌, refl, Text, [], ◌∷◌, arith, length,
}
use chat_service_socket_cpp.Common.Int.{ℤ, pos, negsuc}
use chat_service_socket_cpp.Memory.{
  Memory, poke, strcpy, write_word, read_word, word_of_int, int_of_word, IsInt, Stored,
}
use chat_service_socket_cpp.Memory.Laws.{Stored-poke_after}

-- `w` has at most `k` bytes.
abbrev pub Fits : ℕ → ℕ → Type 0
Fits zero w = w ≡ 0
Fits (suc k) w = Fits k (w / 256)

pub read_word-poke_before :
    (k a c o : ℕ) (m : Memory) → a < o → read_word k o (poke a c m) ≡ read_word k o m
unfolding read_word poke
read_word-poke_before zero a c o m h = refl
read_word-poke_before (suc k) a c o m h = ground (arith, read_word-poke_before k a c (o + 1) m)

pub read_word-poke_after :
    (k a c o : ℕ) (m : Memory) → o + k ≤ a → read_word k o (poke a c m) ≡ read_word k o m
unfolding read_word poke
read_word-poke_after zero a c o m h = refl
read_word-poke_after (suc k) a c o m h = ground (arith, read_word-poke_after k a c (o + 1) m)

read_word-poke_self :
    (k o c : ℕ) (m : Memory) → read_word (suc k) o (poke o c m) ≡ c + 256 * read_word k (o + 1) m
unfolding read_word poke
read_word-poke_self k o c m = ground (arith, read_word-poke_before k o c (o + 1) m)

pub read_word-write_word :
    (k o w : ℕ) (m : Memory) → Fits k w → read_word k o (write_word k o w m) ≡ w
unfolding write_word
read_word-write_word zero o w m h = unfold read_word in h_sym
  where
    h_sym : 0 ≡ w
    h_sym = omega arith
read_word-write_word (suc k) o w m h = omega (
  arith,
  read_word-poke_self k o (w % 256) (write_word k (o + 1) (w / 256) m),
  read_word-write_word k (o + 1) (w / 256) m h,
)

pub read_word-strcpy_before :
    (k p : ℕ) (s : Text) (o : ℕ) (m : Memory)
    → p + length s < o
    → read_word k o (strcpy p s m) ≡ read_word k o m
unfolding strcpy
read_word-strcpy_before k p [] o m h = read_word-poke_before k p 0 o m (omega arith)
read_word-strcpy_before k p (c ∷ s) o m h = ground (
  arith,
  read_word-poke_before k p 0 o m,
  read_word-poke_before k p c o (strcpy (p + 1) s m),
  read_word-strcpy_before k (p + 1) s o m,
)

pub Stored-write_word_after :
    (k p w o : ℕ) (t : Text) (m : Memory)
    → o + length t < p
    → Stored o t m
    → Stored o t (write_word k p w m)
unfolding write_word
Stored-write_word_after zero p w o t m h s = s
Stored-write_word_after (suc k) p w o t m h s =
    Stored-poke_after p (w % 256) o t (write_word k (p + 1) (w / 256) m) h
      (Stored-write_word_after k (p + 1) (w / 256) o t m (omega arith) s)

pub word_of_int-Fits : (x : ℤ) → Fits 4 (word_of_int x)
unfolding word_of_int
word_of_int-Fits (pos n) = omega arith
word_of_int-Fits (negsuc n) = omega arith

pub int_of_word-word_of_int : (x : ℤ) → IsInt x → int_of_word (word_of_int x) ≡ x
unfolding word_of_int int_of_word
int_of_word-word_of_int (pos n) h = ground arith
int_of_word-word_of_int (negsuc n) h = ground arith
