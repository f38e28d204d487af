-- ===== src/StdMap/Laws.antt =====
-- Lookup after each update of a `std::map`, and that updates keep the order.
use chat_service_socket_cpp.Common.{
  Text, text_eq, text_lt, text_eq_iff, text_lt_trans, text_lt_total, text_lt_irrefl, Option, none,
  some, List, [], ◌∷◌, true, ◌≡◌, refl, All, if◌then◌else◌, arith, inl, inr, Bool-cases,
  text_eq_comm, subst, ap, is_some,
}
use chat_service_socket_cpp.StdMap.{find, insert, erase, assign, IsSorted, Above}

module _ {ℓ κ} {K : Type ℓ} {V : Type κ} (key : K → Text) where
  pub find-key :
      (t : Text) (m : List (K × V)) (k : K) (v : V) → find key t m ≡ some (k, v) → key k ≡ t
  unfolding find
  find-key t [] k v h = ground arith
  find-key t ((j, w) ∷ m) k v h = ground (arith, text_eq_iff (key j) t, find-key t m k v)

  pub find-erase :
      (s t : Text) (m : List (K × V))
      → find key t (erase key s m) ≡ (if text_eq s t then none else find key t m)
  unfolding find erase
  find-erase s t [] = ground arith
  find-erase s t ((k, v) ∷ m) =
      ground
        (arith, find-erase s t m, text_eq_iff s t, text_eq_iff (key k) s, text_eq_iff (key k) t)

  pub find-insert :
      (k : K) (v : V) (t : Text) (m : List (K × V))
      → find key (key k) m ≡ none
      → find key t (insert key k v m) ≡ (if text_eq (key k) t then some (k, v) else find key t m)
  unfolding find insert
  find-insert k v t [] h = refl
  find-insert k v t ((j, w) ∷ m) h = ground (
    arith,
    find-insert k v t m,
    text_eq_iff (key j) (key k),
    text_eq_iff (key j) t,
    text_eq_iff (key k) t,
  )

  pub find-assign :
      (s t : Text) (v : V) (m : List (K × V)) (k : K) (w : V)
      → find key t m ≡ some (k, w)
      → find key t (assign key s v m) ≡ (if text_eq s t then some (k, v) else some (k, w))
  unfolding find assign
  find-assign s t v [] k w h = ground arith
  find-assign s t v ((j, x) ∷ m) k w h = ground (
    arith,
    find-assign s t v m k w,
    text_eq_iff s t,
    text_eq_iff (key j) s,
    text_eq_iff (key j) t,
  )

  pub find-assign-none :
      (s t : Text) (v : V) (m : List (K × V))
      → find key t m ≡ none
      → find key t (assign key s v m) ≡ none
  unfolding find assign
  find-assign-none s t v [] h = refl
  find-assign-none s t v ((j, x) ∷ m) h = ground (arith, find-assign-none s t v m)

  pub All-erase :
      (P : K × V → Type 0) (t : Text) (m : List (K × V)) → All P m → All P (erase key t m)
  unfolding erase
  All-erase P t [] h = tt
  All-erase P t ((k, v) ∷ m) h = elim (Bool-cases (text_eq (key k) t)) [
    | inl e ↦ rw e (All-erase P t m h.1)
    | inr e ↦ rw e (h.0, All-erase P t m h.1)
  ]

  pub erase-IsSorted : (t : Text) (m : List (K × V)) → IsSorted key m → IsSorted key (erase key t m)
  unfolding erase
  erase-IsSorted t [] h = tt
  erase-IsSorted t ((k, v) ∷ m) h = elim (Bool-cases (text_eq (key k) t)) [
    | inl e ↦ rw e (erase-IsSorted t m h.1)
    | inr e ↦ rw e (All-erase (Above key (key k)) t m h.0, erase-IsSorted t m h.1)
  ]

  Above-trans :
      (s t : Text) (m : List (K × V))
      → text_lt s t ≡ true
      → All (Above key t) m
      → All (Above key s) m
  Above-trans s t [] h a = tt
  Above-trans s t ((k, v) ∷ m) h a = (text_lt_trans s t (key k) h a.0, Above-trans s t m h a.1)

  Above-insert :
      (s : Text) (k : K) (v : V) (m : List (K × V))
      → text_lt s (key k) ≡ true
      → All (Above key s) m
      → All (Above key s) (insert key k v m)
  unfolding insert
  Above-insert s k v [] h a = (h, tt)
  Above-insert s k v ((j, w) ∷ m) h a = ground (arith, Above-insert s k v m h a.1)

  pub insert-IsSorted :
      (k : K) (v : V) (m : List (K × V)) → IsSorted key m → IsSorted key (insert key k v m)
  unfolding insert
  insert-IsSorted k v [] h = (tt, tt)
  insert-IsSorted k v ((j, w) ∷ m) h = ground (
    arith,
    insert-IsSorted k v m h.1,
    Above-insert (key j) k v m,
    Above-trans (key k) (key j) m,
    text_lt_total (key k) (key j),
    text_eq_comm (key k) (key j),
  )

  All-assign :
      (s t : Text) (v : V) (m : List (K × V))
      → All (Above key s) m
      → All (Above key s) (assign key t v m)
  unfolding assign
  All-assign s t v [] h = tt
  All-assign s t v ((j, w) ∷ m) h = ground (arith, All-assign s t v m h.1)

  pub assign-IsSorted :
      (t : Text) (v : V) (m : List (K × V)) → IsSorted key m → IsSorted key (assign key t v m)
  unfolding assign
  assign-IsSorted t v [] h = tt
  assign-IsSorted t v ((j, w) ∷ m) h =
      ground (arith, assign-IsSorted t v m h.1, All-assign (key j) t v m h.0)

  -- In a sorted map, what stands above a text is not found at it.
  pub find-Above : (t : Text) (m : List (K × V)) → All (Above key t) m → find key t m ≡ none
  unfolding find
  find-Above t [] a = refl
  find-Above t ((k, v) ∷ m) a =
      ground (arith, find-Above t m a.1, text_eq_iff (key k) t, text_lt_irrefl t)

-- The idiom `erase` and `insert` of the server replaces the entry of a key.
pub find-replace {ℓ κ} :
    {K : Type ℓ} {V : Type κ} (key : K → Text) (k : K) (v : V) (t : Text) (m : List (K × V))
    → find key t (insert key k v (erase key (key k) m))
      ≡ (if text_eq (key k) t then some (k, v) else find key t m)
find-replace key k v t m = ground (
  arith,
  find-insert key k v t (erase key (key k) m),
  find-erase key (key k) t m,
  find-erase key (key k) (key k) m,
  text_eq_iff (key k) (key k),
)

find-below {ℓ κ} :
    {K : Type ℓ} {V : Type κ} (key : K → Text) (s t : Text) (m : List (K × V))
    → text_lt s t ≡ true
    → All (Above key t) m
    → find key s m ≡ none
find-below key s t m h a = find-Above key s m (Above-trans key s t m h a)

-- In a sorted map, `insert` adds an entry exactly if its key is new.
pub find-insert_sorted {ℓ κ} :
    {K : Type ℓ} {V : Type κ} (key : K → Text) (k : K) (v : V) (t : Text) (m : List (K × V))
    → IsSorted key m
    → find key t (insert key k v m) ≡ (
        if is_some (find key t m)
        then find key t m
        else if text_eq (key k) t
        then some (k, v)
        else none)
unfolding find insert
find-insert_sorted key k v t [] s = ground arith
find-insert_sorted key k v t ((j, w) ∷ m) s = ground (
  arith,
  find-insert_sorted key k v t m s.1,
  text_eq_iff (key j) (key k),
  text_eq_iff (key j) t,
  text_eq_iff (key k) t,
  find-below key (key k) (key j) m,
)

-- The value of an entry that was found.
abbrev second {ℓ κ} : {K : Type ℓ} {V : Type κ} → Option (K × V) → V → V
second none d = d
second (some (k, v)) d = v

-- Predicates on the entries of a map.
module _ {ℓ κ} {K : Type ℓ} {V : Type κ} (key : K → Text) (P : V → Type 0) where
  abbrev pub Values : List (K × V) → Type 0
  Values m = All (λ (x : K × V). P x.1) m

  pub Values-find :
      (t : Text) (m : List (K × V)) (k : K) (v : V) → Values m → find key t m ≡ some (k, v) → P v
  unfolding find
  Values-find t [] k v a h = ground arith
  Values-find t ((j, w) ∷ m) k v a h = elim (Bool-cases (text_eq (key j) t)) [
    | inl e ↦ subst P (ap (λ (o : Option (K × V)). second o w) (rw e at h)) a.0
    | inr e ↦ Values-find t m k v a.1 (rw e at h)
  ]

  pub Values-erase : (t : Text) (m : List (K × V)) → Values m → Values (erase key t m)
  unfolding erase
  Values-erase t [] a = tt
  Values-erase t ((j, w) ∷ m) a = elim (Bool-cases (text_eq (key j) t)) [
    | inl e ↦ rw e (Values-erase t m a.1)
    | inr e ↦ rw e (a.0, Values-erase t m a.1)
  ]

  pub Values-insert :
      (k : K) (v : V) (m : List (K × V)) → P v → Values m → Values (insert key k v m)
  unfolding insert
  Values-insert k v [] p a = (p, tt)
  Values-insert k v ((j, w) ∷ m) p a = elim (Bool-cases (text_eq (key j) (key k))) [
    | inl e ↦ rw e a
    | inr e ↦ rw e (elim (Bool-cases (text_lt (key k) (key j))) [
      | inl f ↦ rw f (p, a)
      | inr f ↦ rw f (a.0, Values-insert k v m p a.1)
    ])
  ]

  pub Values-assign :
      (t : Text) (v : V) (m : List (K × V)) → P v → Values m → Values (assign key t v m)
  unfolding assign
  Values-assign t v [] p a = tt
  Values-assign t v ((j, w) ∷ m) p a = elim (Bool-cases (text_eq (key j) t)) [
    | inl e ↦ rw e (p, Values-assign t v m p a.1)
    | inr e ↦ rw e (a.0, Values-assign t v m p a.1)
  ]
