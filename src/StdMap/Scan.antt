-- ===== src/StdMap/Scan.antt =====
-- What a loop over the map finds, against lookup by key.
use chat_service_socket_cpp.Common.{
  Text, text_eq_iff, Option, none, some, List, [], ◌∷◌, Bool, ◌≡◌, ◌≢◌, ◌⊎◌, if◌then◌else◌, arith,
  refl, true, All, text_lt, text_lt_irrefl, text_lt_trans, Bool-cases, inl, inr, subst,
}
use chat_service_socket_cpp.StdMap.{find, first, last, insert, erase, IsSorted, Above}
use chat_service_socket_cpp.StdMap.Laws.{find-Above, All-erase}

module _ {ℓ κ} {K : Type ℓ} {V : Type κ} (key : K → Text) where
  -- An entry that the loop stops at is the entry of its own key, and passes the test.
  pub first-find :
      (p : V → Bool) (m : List (K × V)) (k : K) (v : V)
      → IsSorted key m
      → first key p m ≡ some (k, v)
      → (find key (key k) m ≡ some (k, v)) × (p v ≡ true)
  unfolding find first
  first-find p [] k v s h = ground arith
  first-find p ((j, w) ∷ m) k v s h =
      ground
        (arith, first-find p m k v s.1, text_eq_iff (key j) (key k), find-Above key (key j) m s.0)

  -- If an entry passes the test, then the loop stops.
  pub find-first :
      (p : V → Bool) (m : List (K × V)) (t : Text) (k : K) (v : V)
      → find key t m ≡ some (k, v)
      → p v ≡ true
      → first key p m ≢ none
  unfolding find first
  find-first p [] t k v h q = ground arith
  find-first p ((j, w) ∷ m) t k v h q = ground (arith, find-first p m t k v)

  pub last-find :
      (p : V → Bool) (m : List (K × V)) (o : Option (K × V)) (k : K) (v : V)
      → IsSorted key m
      → last key p m o ≡ some (k, v)
      → ((find key (key k) m ≡ some (k, v)) × (p v ≡ true)) ⊎ (o ≡ some (k, v))
  unfolding find last
  last-find p [] o k v s h = ground arith
  last-find p ((j, w) ∷ m) o k v s h = ground (
    arith,
    last-find p m (if p w then some (j, w) else o) k v s.1,
    text_eq_iff (key j) (key k),
    find-Above key (key j) m s.0,
  )

  insert-Above :
      (k : K) (v : V) (m : List (K × V)) → All (Above key (key k)) m → insert key k v m ≡ (k, v) ∷ m
  unfolding insert
  insert-Above k v [] a = refl
  insert-Above k v ((j, w) ∷ m) a =
      ground (arith, text_eq_iff (key j) (key k), text_lt_irrefl (key k), a.0)

  first-Above :
      (p : V → Bool) (t : Text) (m : List (K × V)) (k : K) (v : V)
      → All (Above key t) m
      → first key p m ≡ some (k, v)
      → text_lt t (key k) ≡ true
  unfolding first
  first-Above p t [] k v a h = ground arith
  first-Above p t ((j, w) ∷ m) k v a h = ground (arith, a.0, first-Above p t m k v a.1)

  -- An entry at which the loop stops is put back under its key: the loop stops there again.
  pub first-replace :
      (p : V → Bool) (m : List (K × V)) (k k' : K) (v v' : V)
      → IsSorted key m
      → first key p m ≡ some (k, v)
      → key k' ≡ key k
      → p v' ≡ true
      → first key p (insert key k' v' (erase key (key k') m)) ≡ some (k', v')
  unfolding first insert erase
  first-replace p [] k k' v v' s h e q = ground arith
  first-replace p ((j, w) ∷ m) k k' v v' s h e q = elim (Bool-cases (p w)) [
    | inl stop ↦
        let same : key j ≡ key k' = ground (arith, stop, h, e) in
        let above : All (Above key (key k')) (erase key (key k') m) =
          All-erase key (Above key (key k')) (key k') m
            (subst (λ t. All (Above key t) m) same s.0) in
        ground
          (arith, q, text_eq_iff (key j) (key k'), insert-Above k' v' (erase key (key k') m) above)
    | inr on ↦
        let later : first key p m ≡ some (k, v) = ground (arith, on, h) in
        ground (
          arith,
          on,
          e,
          q,
          text_eq_iff (key j) (key k),
          text_lt_irrefl (key k),
          first-Above p (key j) m k v s.0,
          text_lt_trans (key j) (key k) (key j),
          first-replace p m k k' v v' s.1 later e q,
        )
  ]
