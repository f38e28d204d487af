-- ===== src/Room/Members.antt =====
-- The array of a room as the list of its members: the loops of Room.cpp against list operations.
use chat_service_socket_cpp.Common.{
  ℕ, zero, suc, ◌+◌, ◌≤◌, ◌<◌, ◌≡◌, refl, ap, Bool, true, false, List, [], ◌∷◌, ◌++◌, length, arith,
  ltb, if◌then◌else◌,
}
use chat_service_socket_cpp.Common.Int.{ℤ, int_eq, int_eq_iff}
use chat_service_socket_cpp.Room.{store, search_fd, shift_down, copy_fds, read_fds}

-- Is `fd` in the list?
unfoldable pub contains : ℤ → List ℤ → Bool
contains fd [] = false
contains fd (x ∷ xs) = let rest = contains fd xs in if int_eq x fd then true else rest

-- The list without its first `fd`.
unfoldable pub remove : ℤ → List ℤ → List ℤ
remove fd [] = []
remove fd (x ∷ xs) = let rest = x ∷ remove fd xs in if int_eq x fd then xs else rest

-- No value stands twice.
abbrev pub IsDistinct : List ℤ → Type 0
IsDistinct [] = Unit
IsDistinct (x ∷ xs) = (contains x xs ≡ false) × IsDistinct xs

pub length-read_fds : (n i : ℕ) (a : ℕ → ℤ) → length (read_fds n i a) ≡ n
unfolding read_fds
length-read_fds zero i a = refl
length-read_fds (suc n) i a = ap suc (length-read_fds n (i + 1) a)

-- The loop stops before its end exactly if the list holds `fd`.
pub search_fd-contains :
    (fd : ℤ) (a : ℕ → ℤ) (k i : ℕ) → ltb (search_fd fd a k i) (i + k) ≡ contains fd (read_fds k i a)
unfolding search_fd contains read_fds
search_fd-contains fd a zero i = ground arith
search_fd-contains fd a (suc k) i = ground (arith, search_fd-contains fd a k (i + 1))

pub search_fd-ge : (fd : ℤ) (a : ℕ → ℤ) (k i : ℕ) → i ≤ search_fd fd a k i
unfolding search_fd
search_fd-ge fd a zero i = omega arith
search_fd-ge fd a (suc k) i = ground (arith, search_fd-ge fd a k (i + 1))

pub search_fd-le : (fd : ℤ) (a : ℕ → ℤ) (k i : ℕ) → search_fd fd a k i ≤ i + k
unfolding search_fd
search_fd-le fd a zero i = omega arith
search_fd-le fd a (suc k) i = ground (arith, search_fd-le fd a k (i + 1))

-- A write behind what is read changes nothing.
read_fds-store_after :
    (n i j : ℕ) (x : ℤ) (a : ℕ → ℤ) → i + n ≤ j → read_fds n i (store j x a) ≡ read_fds n i a
unfolding read_fds store
read_fds-store_after zero i j x a h = refl
read_fds-store_after (suc n) i j x a h = ground (arith, read_fds-store_after n (i + 1) j x a)

-- Storing at the end appends.
pub read_fds-store :
    (n i : ℕ) (x : ℤ) (a : ℕ → ℤ)
    → read_fds (n + 1) i (store (i + n) x a) ≡ read_fds n i a ++ x ∷ []
unfolding read_fds store
read_fds-store zero i x a = ground arith
read_fds-store (suc n) i x a = ground (arith, read_fds-store n (i + 1) x a)

-- What the shifting loop leaves at each index.
pub shift_down_lem :
    (k j : ℕ) (a : ℕ → ℤ) (b : ℕ)
    → shift_down k j a b ≡ (if ltb b j then a b else if ltb b (j + k) then a (b + 1) else a b)
unfolding shift_down store
shift_down_lem zero j a b = ground arith
shift_down_lem (suc k) j a b = ground (arith, shift_down_lem k (j + 1) (store j (a (j + 1)) a) b)

-- Arrays that agree on a range are read alike.
pub read_fds-ext :
    (n i d : ℕ) (a b : ℕ → ℤ)
    → ((k : ℕ) → i ≤ k → k < i + n → a k ≡ b (k + d))
    → read_fds n i a ≡ read_fds n (i + d) b
unfolding read_fds
read_fds-ext zero i d a b h = refl
read_fds-ext (suc n) i d a b h =
    ground (arith, h i, read_fds-ext n (i + 1) d a b (λ k p q. h k (omega arith) (omega arith)))

pub read_fds-copy_fds : (n : ℕ) (a b : ℕ → ℤ) → read_fds n 0 (copy_fds n a b) ≡ read_fds n 0 a
unfolding copy_fds
read_fds-copy_fds n a b = read_fds-ext n 0 0 (copy_fds n a b) a (λ k p q. ground arith)

pub contains-append :
    (fd : ℤ) (xs : List ℤ) (y : ℤ)
    → contains fd (xs ++ y ∷ []) ≡ (if contains fd xs then true else int_eq y fd)
unfolding contains
contains-append fd [] y = ground arith
contains-append fd (x ∷ xs) y = ground (arith, contains-append fd xs y)

pub contains-remove :
    (fd y : ℤ) (xs : List ℤ) → contains y (remove fd xs) ≡ true → contains y xs ≡ true
unfolding contains remove
contains-remove fd y [] h = h
contains-remove fd y (x ∷ xs) h = ground (arith, contains-remove fd y xs)

pub append-IsDistinct :
    (xs : List ℤ) (y : ℤ) → IsDistinct xs → contains y xs ≡ false → IsDistinct (xs ++ y ∷ [])
unfolding contains
append-IsDistinct [] y d h = (refl, tt)
append-IsDistinct (x ∷ xs) y d h =
    ground
      (arith, append-IsDistinct xs y d.1, contains-append x xs y, int_eq_iff x y, int_eq_iff y x)

pub remove-IsDistinct : (fd : ℤ) (xs : List ℤ) → IsDistinct xs → IsDistinct (remove fd xs)
unfolding remove
remove-IsDistinct fd [] d = tt
remove-IsDistinct fd (x ∷ xs) d =
    ground (arith, remove-IsDistinct fd xs d.1, contains-remove fd x xs)

pub remove-gone : (fd : ℤ) (xs : List ℤ) → IsDistinct xs → contains fd (remove fd xs) ≡ false
unfolding contains remove
remove-gone fd [] d = refl
remove-gone fd (x ∷ xs) d = ground (arith, remove-gone fd xs d.1, int_eq_iff x fd)

pub contains-remove_ne :
    (fd y : ℤ) (xs : List ℤ) → int_eq fd y ≡ false → contains y (remove fd xs) ≡ contains y xs
unfolding contains remove
contains-remove_ne fd y [] h = refl
contains-remove_ne fd y (x ∷ xs) h =
    ground (arith, contains-remove_ne fd y xs h, int_eq_iff x fd, int_eq_iff x y, int_eq_iff fd y)

pub remove-absent : (fd : ℤ) (xs : List ℤ) → contains fd xs ≡ false → remove fd xs ≡ xs
unfolding contains remove
remove-absent fd [] h = refl
remove-absent fd (x ∷ xs) h = ground (arith, h, remove-absent fd xs)
