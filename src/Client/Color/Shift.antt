-- ===== src/Client/Color/Shift.antt =====
-- `Clear_opt` and its loop.
use chat_service_socket_cpp.Common.{
  fun_ext, ℕ, zero, suc, ◌+◌, ◌-◌, ◌≤◌, ◌<◌, ◌≡◌, ap, subst, false, true, Bool-cases, inl, inr,
  Text, [], ◌∷◌, arith, length, leb, ◌==◌,
}
use chat_service_socket_cpp.Memory.{Memory, poke, strcpy, cstr, NoNul, Stored}
use chat_service_socket_cpp.Memory.Laws.{Stored-strcpy, cstr-Stored}
use chat_service_socket_cpp.Client.Color.{shift_left, clear_array, clear_opt}

-- A text of exactly `l` bytes stands at `o`.
abbrev Spans : ℕ → ℕ → Memory → Type 0
Spans o l m = ((i : ℕ) → i < l → 0 < m (o + i)) × (m (o + l) ≡ 0)

length-cstr : (n o l : ℕ) (m : Memory) → Spans o l m → l < n → length (cstr n o m) ≡ l
unfolding cstr
length-cstr zero o l m s h = elim h [ ]
length-cstr (suc n) o zero m s h = ground (arith, s.1)
length-cstr (suc n) o (suc l) m s h = ground (
  arith,
  s.0 0,
  length-cstr n (o + 1) l m (λ i k. ground (arith, s.0 (i + 1)), ground (arith, s.1)) (omega arith),
)

-- After the rounds before `j`, in a text of `l` bytes at first: the bytes before `j` come from three
-- places further on, the others are as they were.
record Shifted (l j : ℕ) (m₀ m : Memory) : Type 0 where
  moved : (i : ℕ) → i < j → m i ≡ m₀ (i + 3)
  kept : (i : ℕ) → j ≤ i → m i ≡ m₀ i

Shifted-step :
    (l j : ℕ) (m₀ m : Memory) → Shifted l j m₀ m → Shifted l (j + 1) m₀ (poke j (m (j + 3)) m)
unfolding poke
Shifted-step l j m₀ m s = record {
  moved = λ i h. ground (arith, s.moved i, s.kept (j + 3));
  kept = λ i h. ground (arith, s.kept i);
}

Shifted-Spans :
    (l j : ℕ) (m₀ m : Memory) → Spans 0 l m₀ → Shifted l j m₀ m → j < l - 2 → Spans 0 l m
Shifted-Spans l j m₀ m t s h =
    (λ i k. ground (arith, s.moved i, s.kept i, t.0 i, t.0 (i + 3)), ground (arith, s.kept l, t.1))

Shifted-end :
    (l j : ℕ) (m₀ m : Memory)
    → Spans 0 l m₀
    → Shifted l j m₀ m
    → 2 ≤ j
    → j ≡ l - 2
    → Spans 0 (j - 1) m
Shifted-end l j m₀ m t s b h =
    let last : j - 1 + 3 ≡ l = omega arith in
    (
      λ i k. ground (arith, s.moved i, t.0 (i + 3)),
      ground (arith, s.moved (j - 1), t.1, ap m₀ last),
    )

-- With `l - 2 - j` rounds or more, the loop ends with the bytes up to the NUL moved.
shift_left_lem :
    (fuel n l j : ℕ) (m₀ m : Memory)
    → Spans 0 l m₀
    → Shifted l j m₀ m
    → l < n
    → 2 ≤ j
    → j ≤ l - 2
    → l ≤ j + 2 + fuel
    → Shifted l (l - 2) m₀ (shift_left fuel n j m)
unfolding shift_left
shift_left_lem zero n l j m₀ m t s a b c d =
    let at_end : j ≡ l - 2 = omega arith in subst (λ k. Shifted l k m₀ m) at_end s
shift_left_lem (suc fuel) n l j m₀ m t s a b c d = elim (Bool-cases (j == l - 2)) [
  | inl q ↦
      let at_end : j ≡ l - 2 = ground (arith, q) in
      let len = length-cstr n 0 (j - 1) m (Shifted-end l j m₀ m t s b at_end) (omega arith) in
      let stops : leb j (length (cstr n 0 m)) ≡ false = ground (arith, len) in
      rw (stops, shift_left) (subst (λ k. Shifted l k m₀ m) at_end s)
  | inr q ↦
      let before : j < l - 2 = ground (arith, q) in
      let len = length-cstr n 0 l m (Shifted-Spans l j m₀ m t s before) a in
      let goes : leb j (length (cstr n 0 m)) ≡ true = ground (arith, len) in
      rw (goes, shift_left)
        (shift_left_lem fuel n l (j + 1) m₀ (poke j (m (j + 3)) m) t (Shifted-step l j m₀ m s) a
          (omega arith) (omega arith) (omega arith))
]

Shifted-start : (l : ℕ) (m₀ : Memory) → Shifted l 2 m₀ (poke 1 (m₀ 4) (poke 0 (m₀ 3) m₀))
unfolding poke
Shifted-start l m₀ = record { moved = λ i h. ground arith; kept = λ i h. ground arith }

Spans-Stored : (o : ℕ) (t : Text) (m : Memory) → Stored o t m → Spans o (length t) m
Spans-Stored o [] m s = (λ i h. elim h [ ], ground (arith, s))
Spans-Stored o (c ∷ t) m s =
    let ih = Spans-Stored (o + 1) t m s.2 in
    (λ i h. ground (arith, s.0, s.1, ih.0 (i - 1)), ground (arith, ih.1))

-- A text that stands three places further on in `m₀` stands at `o` in `m`.
Stored-moved :
    (o : ℕ) (t : Text) (m₀ m : Memory)
    → ((i : ℕ) → i < o + length t + 1 → m i ≡ m₀ (i + 3))
    → Stored (o + 3) t m₀
    → Stored o t m
Stored-moved o [] m₀ m h s = ground (arith, h o)
Stored-moved o (c ∷ t) m₀ m h s = (
  ground (arith, h o, s.0),
  s.1,
  Stored-moved (o + 1) t m₀ m (λ i k. h i (omega arith))
      (subst (λ p. Stored p t m₀) (omega arith) s.2),
)

clear_array-long :
    (l : ℕ) (m : Memory)
    → 4 ≤ l
    → (m 2 == 32) ≡ true
    → clear_array l m ≡ shift_left l (l + 1) 2 (poke 1 (m 4) (poke 0 (m 3) m))
unfolding clear_array
clear_array-long l m h q = ground (arith, q)

-- The loop determines the memory.
Shifted-unique : (l j : ℕ) (m₀ m n : Memory) → Shifted l j m₀ m → Shifted l j m₀ n → m ≡ n
Shifted-unique l j m₀ m n s t =
    fun_ext (λ i. ground (arith, s.moved i, s.kept i, t.moved i, t.kept i))

-- The loop of `Clear_opt` in the array of a text of at least four bytes.
shift_left-Shifted :
    (fuel : ℕ) (s : Text)
    → NoNul s
    → 4 ≤ length s
    → length s ≤ fuel
    → let m = strcpy 0 s (λ b. 0) in
      Shifted
        (length s)
        (length s - 2)
        m
        (shift_left fuel (length s + 1) 2 (poke 1 (m 4) (poke 0 (m 3) m)))
shift_left-Shifted fuel s h k f =
    let m : Memory = strcpy 0 s (λ b. 0) in
    shift_left_lem fuel (length s + 1) (length s) 2 m (poke 1 (m 4) (poke 0 (m 3) m))
      (Spans-Stored 0 s m (Stored-strcpy 0 s (λ b. 0) h)) (Shifted-start (length s) m) (omega arith)
      (omega arith) (omega arith) (omega arith)

-- The option is dropped with the blank behind it: of a text without a NUL that has two bytes, a blank
-- and more, `Clear_opt` gives what stands behind the blank. Its loop ends within as many rounds as the
-- text has bytes: with more rounds at hand, it leaves the same memory.
pub clear_opt-drop :
    (a b c fuel : ℕ) (t : Text)
    → NoNul (a ∷ b ∷ 32 ∷ c ∷ t)
    → length (a ∷ b ∷ 32 ∷ c ∷ t) ≤ fuel
    → let s = a ∷ b ∷ 32 ∷ c ∷ t in
      let m = strcpy 0 s (λ b. 0) in
      let begun = poke 1 (m 4) (poke 0 (m 3) m) in
      (clear_opt s ≡ c ∷ t)
      × (shift_left fuel (length s + 1) 2 begun ≡ shift_left (length s) (length s + 1) 2 begun)
unfolding clear_opt
clear_opt-drop a b c fuel t h f =
    let s : Text = a ∷ b ∷ 32 ∷ c ∷ t in
    let l : ℕ = length s in
    let m : Memory = strcpy 0 s (λ b. 0) in
    let begun : Memory = poke 1 (m 4) (poke 0 (m 3) m) in
    let at₀ : Stored 0 s m = Stored-strcpy 0 s (λ b. 0) h in
    let done = shift_left-Shifted l s h (omega arith) (omega arith) in
    let ended : Memory = shift_left l (l + 1) 2 begun in
    let blank : (m 2 == 32) ≡ true = ground (arith, at₀) in
    let stored : Stored 0 (c ∷ t) ended =
      Stored-moved 0 (c ∷ t) m ended (λ i k. done.moved i (omega arith)) at₀.2.2.2 in
    (
      rw (clear_array-long l m (omega arith) blank)
          (cstr-Stored (l + 1) 0 (c ∷ t) ended stored (omega arith)),
      Shifted-unique l (l - 2) m (shift_left fuel (l + 1) 2 begun) ended
          (shift_left-Shifted fuel s h (omega arith) f) done,
    )
