-- ===== src/Memory/Laws.antt =====
-- What is read back after a write, and what a write leaves alone.
use chat_service_socket_cpp.Common.{
  ℕ, zero, suc, ◌+◌, ◌≤◌, ◌<◌, ◌≡◌, refl, subst, Text, [], ◌∷◌, ◌++◌, arith, length,
}
use chat_service_socket_cpp.Memory.{Memory, poke, strcpy, cstr, str_to_char, NoNul, Stored}

pub str_to_char-NoNul : (t : Text) → NoNul (str_to_char t)
unfolding str_to_char
str_to_char-NoNul [] = tt
str_to_char-NoNul (c ∷ t) = ground (arith, str_to_char-NoNul t)

pub str_to_char-eq : (t : Text) → NoNul t → str_to_char t ≡ t
unfolding str_to_char
str_to_char-eq [] h = refl
str_to_char-eq (c ∷ t) h = ground (arith, str_to_char-eq t h.1)

-- What is read from a buffer is a C string.
pub cstr-NoNul : (n o : ℕ) (m : Memory) → NoNul (cstr n o m)
unfolding cstr
cstr-NoNul zero o m = tt
cstr-NoNul (suc n) o m = ground (arith, cstr-NoNul n (o + 1) m)

pub cstr-Stored : (n o : ℕ) (t : Text) (m : Memory) → Stored o t m → length t < n → cstr n o m ≡ t
unfolding cstr
cstr-Stored zero o t m s h = elim h [ ]
cstr-Stored (suc n) o [] m s h = ground arith
cstr-Stored (suc n) o (c ∷ t) m s h = ground (arith, cstr-Stored n (o + 1) t m s.2)

pub Stored-poke_before :
    (a c o : ℕ) (t : Text) (m : Memory) → a < o → Stored o t m → Stored o t (poke a c m)
unfolding poke
Stored-poke_before a c o [] m h s = ground arith
Stored-poke_before a c o (x ∷ t) m h s =
    (ground arith, s.1, Stored-poke_before a c (o + 1) t m (omega arith) s.2)

pub Stored-poke_after :
    (a c o : ℕ) (t : Text) (m : Memory) → o + length t < a → Stored o t m → Stored o t (poke a c m)
unfolding poke
Stored-poke_after a c o [] m h s = ground arith
Stored-poke_after a c o (x ∷ t) m h s =
    (ground arith, s.1, Stored-poke_after a c (o + 1) t m (omega arith) s.2)

pub Stored-strcpy : (o : ℕ) (t : Text) (m : Memory) → NoNul t → Stored o t (strcpy o t m)
unfolding strcpy poke
Stored-strcpy o [] m h = ground arith
Stored-strcpy o (c ∷ t) m h = ground (
  arith,
  Stored-poke_before o c (o + 1) t (strcpy (o + 1) t m) (omega arith)
      (Stored-strcpy (o + 1) t m h.1),
)

-- A string stays stored under a `strcpy` that starts behind its NUL.
pub Stored-strcpy_after :
    (p : ℕ) (s : Text) (o : ℕ) (t : Text) (m : Memory)
    → o + length t < p
    → Stored o t m
    → Stored o t (strcpy p s m)
unfolding strcpy
Stored-strcpy_after p [] o t m h k = Stored-poke_after p 0 o t m h k
Stored-strcpy_after p (c ∷ s) o t m h k = ground (
  arith,
  Stored-poke_after p 0 o t m h k,
  Stored-poke_after p c o t (strcpy (p + 1) s m) h
      (Stored-strcpy_after (p + 1) s o t m (omega arith) k),
)

-- And under one that ends before it.
pub Stored-strcpy_before :
    (p : ℕ) (s : Text) (o : ℕ) (t : Text) (m : Memory)
    → p + length s < o
    → Stored o t m
    → Stored o t (strcpy p s m)
unfolding strcpy
Stored-strcpy_before p [] o t m h k = Stored-poke_before p 0 o t m (omega arith) k
Stored-strcpy_before p (c ∷ s) o t m h k = ground (
  arith,
  Stored-poke_before p 0 o t m (omega arith) k,
  Stored-poke_before p c o t (strcpy (p + 1) s m) (omega arith)
      (Stored-strcpy_before (p + 1) s o t m (omega arith) k),
)

-- The bytes of a text at `o`, with or without a NUL behind them.
abbrev Bytes : ℕ → Text → Memory → Type 0
Bytes o [] m = Unit
Bytes o (c ∷ t) m = (m o ≡ c) × (0 < c) × Bytes (o + 1) t m

Bytes-Stored : (o : ℕ) (t : Text) (m : Memory) → Stored o t m → Bytes o t m
Bytes-Stored o [] m s = tt
Bytes-Stored o (c ∷ t) m s = (s.0, s.1, Bytes-Stored (o + 1) t m s.2)

Bytes-poke_after :
    (a c o : ℕ) (t : Text) (m : Memory) → o + length t ≤ a → Bytes o t m → Bytes o t (poke a c m)
unfolding poke
Bytes-poke_after a c o [] m h s = tt
Bytes-poke_after a c o (x ∷ t) m h s =
    (ground arith, s.1, Bytes-poke_after a c (o + 1) t m (omega arith) s.2)

Bytes-strcpy_after :
    (p : ℕ) (s : Text) (o : ℕ) (t : Text) (m : Memory)
    → o + length t ≤ p
    → Bytes o t m
    → Bytes o t (strcpy p s m)
unfolding strcpy
Bytes-strcpy_after p [] o t m h k = Bytes-poke_after p 0 o t m h k
Bytes-strcpy_after p (c ∷ s) o t m h k = ground (
  arith,
  Bytes-poke_after p 0 o t m h k,
  Bytes-poke_after p c o t (strcpy (p + 1) s m) h
      (Bytes-strcpy_after (p + 1) s o t m (omega arith) k),
)

Stored-join :
    (o : ℕ) (s t : Text) (m : Memory)
    → Bytes o s m
    → Stored (o + length s) t m
    → Stored o (s ++ t) m
Stored-join o [] t m b k = subst (λ p. Stored p t m) (omega arith) k
Stored-join o (c ∷ s) t m b k =
    (b.0, b.1, Stored-join (o + 1) s t m b.2 (subst (λ p. Stored p t m) (omega arith) k))

-- A string whose NUL is overwritten by the next one runs on into it.
pub Stored-strcpy_over :
    (o p : ℕ) (s t : Text) (m : Memory)
    → p ≡ o + length s
    → NoNul s
    → NoNul t
    → Stored o (s ++ t) (strcpy p t (strcpy o s m))
Stored-strcpy_over o p s t m e h k =
    let m₀ : Memory = strcpy o s m in
    Stored-join o s t (strcpy p t m₀)
      (Bytes-strcpy_after p t o s m₀ (omega arith) (Bytes-Stored o s m₀ (Stored-strcpy o s m h)))
      (subst (λ q. Stored q t (strcpy p t m₀)) e (Stored-strcpy p t m₀ k))
