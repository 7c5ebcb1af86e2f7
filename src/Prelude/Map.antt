-- ===== src/Prelude/Map.antt =====
-- `HashMap`, `HashSet` and `DashMap` as association lists: the first entry with a key counts.
use the_block.Prelude.Lists.{All, AllApart}
use Prim.Native.Nat.{ℕ, ◌+◌, ◌≤◌}
use mathlib.Core.Path.{◌≡◌, refl, sym, ap, ◌∙◌}
use mathlib.Core.Logic.{◌≢◌, ◌⊎◌, inl, inr, ite, if_pos, if_neg}
use mathlib.Core.Option.{Option, none, some}
use mathlib.Core.List.{List, [], ◌∷◌}
use native.Mathlib.Omega.{arith}

abbrev pub HashMap {ℓ} : Type ℓ → Type ℓ → Type ℓ
HashMap K V = List (K × V)

module _ {ℓ} {K V : Type ℓ} where
  -- The values, in the order in which the map is walked.
  abbrev pub values : HashMap K V → List V
  values [] = []
  values ((k, v) ∷ m) = v ∷ values m

-- The sum of a number over a list.
abbrev pub total {ℓ} : {A : Type ℓ} → (A → ℕ) → List A → ℕ
total f [] = 0
total f (x ∷ xs) = f x + total f xs

module _ {ℓ} {K V : Type ℓ} (dec : Discrete K) where
  unfoldable pub get : K → HashMap K V → Option V
  get k [] = none
  get k ((j, v) ∷ m) = ite (dec k j) (some v) (get k m)

  unfoldable pub insert : K → V → HashMap K V → HashMap K V
  insert k v [] = (k, v) ∷ []
  insert k v ((j, w) ∷ m) = ite (dec k j) ((j, v) ∷ m) ((j, w) ∷ insert k v m)

  unfoldable pub remove : K → HashMap K V → HashMap K V
  remove k [] = []
  remove k ((j, w) ∷ m) = ite (dec k j) m ((j, w) ∷ remove k m)

  -- `entry(k).or_insert(d)`, as the value that the entry then holds.
  unfoldable pub entry_or : K → V → HashMap K V → V
  unfolding get
  entry_or k d m = elim (get k m) [ none ↦ d | some v ↦ v ]

  pub entry_or-none : (k : K) (d : V) (m : HashMap K V) → get k m ≡ none → entry_or k d m ≡ d
  unfolding entry_or
  entry_or-none k d m e = ground arith

  pub entry_or-some : (k : K) (d v : V) (m : HashMap K V) → get k m ≡ some v → entry_or k d m ≡ v
  unfolding entry_or
  entry_or-some k d v m e = ground arith

  pub get-insert_self : (k : K) (v : V) (m : HashMap K V) → get k (insert k v m) ≡ some v
  unfolding get insert
  get-insert_self k v [] = ground arith
  get-insert_self k v (e ∷ m) = ground (arith, get-insert_self k v m)

  pub get-insert_ne : (j k : K) (v : V) (m : HashMap K V) → j ≢ k → get j (insert k v m) ≡ get j m
  unfolding get insert
  get-insert_ne j k v [] h = ground arith
  get-insert_ne j k v (e ∷ m) h = ground (arith, get-insert_ne j k v m h)

  pub entry_or-insert_self : (k : K) (d v : V) (m : HashMap K V) → entry_or k d (insert k v m) ≡ v
  unfolding entry_or
  entry_or-insert_self k d v m = ground (arith, get-insert_self k v m)

  pub entry_or-insert_ne :
      (j k : K) (d v : V) (m : HashMap K V) → j ≢ k → entry_or j d (insert k v m) ≡ entry_or j d m
  unfolding entry_or
  entry_or-insert_ne j k d v m h = ground (arith, get-insert_ne j k v m h)

  pub get-remove_ne : (j k : K) (m : HashMap K V) → j ≢ k → get j (remove k m) ≡ get j m
  unfolding get remove
  get-remove_ne j k [] h = refl
  get-remove_ne j k (e ∷ m) h = ground (arith, get-remove_ne j k m h)

  pub remove-insert_new :
      (k : K) (v : V) (m : HashMap K V) → get k m ≡ none → remove k (insert k v m) ≡ m
  unfolding get insert remove
  remove-insert_new k v [] h = ground arith
  remove-insert_new k v (e ∷ m) h = ground (arith, remove-insert_new k v m)

  pub total-insert :
      (f : V → ℕ) (k : K) (v old : V) (m : HashMap K V)
      → get k m ≡ some old
      → total f (values (insert k v m)) + f old ≡ total f (values m) + f v
  unfolding get insert
  total-insert f k v old [] h = ground arith
  total-insert f k v old (e ∷ m) h = ground (arith, total-insert f k v old m)

  pub total-insert_new :
      (f : V → ℕ) (k : K) (v : V) (m : HashMap K V)
      → get k m ≡ none
      → total f (values (insert k v m)) ≡ total f (values m) + f v
  unfolding get insert
  total-insert_new f k v [] h = ground arith
  total-insert_new f k v (e ∷ m) h = ground (arith, total-insert_new f k v m)

  pub total-remove :
      (f : V → ℕ) (k : K) (old : V) (m : HashMap K V)
      → get k m ≡ some old
      → total f (values (remove k m)) + f old ≡ total f (values m)
  unfolding get remove
  total-remove f k old [] h = ground arith
  total-remove f k old (e ∷ m) h = ground (arith, total-remove f k old m)

  pub le-total :
      (f : V → ℕ) (k : K) (v : V) (m : HashMap K V) → get k m ≡ some v → f v ≤ total f (values m)
  unfolding get
  le-total f k v [] h = ground arith
  le-total f k v (e ∷ m) h = ground (arith, le-total f k v m)

  pub All-insert {μ} :
      (P : V → Type μ) (k : K) (v : V) (m : HashMap K V)
      → P v
      → All P (values m)
      → All P (values (insert k v m))
  unfolding insert
  All-insert P k v [] p h = (p, tt)
  All-insert P k v (e ∷ m) p h = elim (dec k e.0) [
    | yes q ↦ rw (if_pos _ q) (p, h.1)
    | no q ↦ rw (if_neg _ q) (h.0, All-insert P k v m p h.1)
  ]

  pub All-remove {μ} :
      (P : V → Type μ) (k : K) (m : HashMap K V) → All P (values m) → All P (values (remove k m))
  unfolding remove
  All-remove P k [] h = h
  All-remove P k (e ∷ m) h = elim (dec k e.0) [
    | yes q ↦ rw (if_pos _ q) h.1
    | no q ↦ rw (if_neg _ q) (h.0, All-remove P k m h.1)
  ]

  pub All-get {μ} :
      (P : V → Type μ) (k : K) (v : V) (m : HashMap K V) → get k m ≡ some v → All P (values m) → P v
  unfolding get
  All-get P k v [] e h = cc
  All-get P k v (x ∷ m) e h = elim (dec k x.0) [
    | yes q ↦ let same : x.1 ≡ v = ground arith in rw same at (h.0)
    | no q ↦ All-get P k v m (ground arith) h.1
  ]

module _ {ℓ} {K V : Type ℓ} (dec : Discrete K) where
  -- No key stands twice, as in a real hash map.
  abbrev pub IsUnique : HashMap K V → Type ℓ
  IsUnique [] = Unit
  IsUnique ((k, v) ∷ m) = (get dec k m ≡ none) × IsUnique m

  -- What holds of every lookup holds of every value.
  pub All-values {μ} :
      (P : V → Type μ) (m : HashMap K V)
      → IsUnique m
      → ((k : K) (v : V) → get dec k m ≡ some v → P v)
      → All P (values m)
  unfolding get
  All-values P [] u h = tt
  All-values P ((j, w) ∷ m) u h = (
    h j w (if_pos (dec j j) refl (some w) (get dec j m)),
    All-values P m u.1 (λ k v g.
        let n : k ≢ j = λ p. cc (g, ap (λ q. get dec q m) p, u.0) in
        h k v (if_neg (dec k j) n (some w) (get dec k m) ∙ g)),
  )

  -- Values that know their keys are apart.
  pub AllApart-values :
      (f : V → K) (m : HashMap K V)
      → IsUnique m
      → ((k : K) (v : V) → get dec k m ≡ some v → k ≡ f v)
      → AllApart f (values m)
  unfolding get
  AllApart-values f [] u h = tt
  AllApart-values f ((j, w) ∷ m) u h =
      let own : j ≡ f w = h j w (if_pos (dec j j) refl (some w) (get dec j m)) in
      let apart : (k : K) (v : V) → get dec k m ≡ some v → k ≢ j =
        λ k v g p. cc (g, ap (λ q. get dec q m) p, u.0) in
      let tail : (k : K) (v : V) → get dec k m ≡ some v → k ≡ f v =
        λ k v g. h k v (if_neg (dec k j) (apart k v g) (some w) (get dec k m) ∙ g) in
      (
        All-values (λ v. f v ≢ f w) m u.1 (λ k v g p. apart k v g (tail k v g ∙ p ∙ sym own)),
        AllApart-values f m u.1 tail,
      )

  pub insert-IsUnique : (k : K) (v : V) (m : HashMap K V) → IsUnique m → IsUnique (insert dec k v m)
  unfolding get insert
  insert-IsUnique k v [] h = (refl, tt)
  insert-IsUnique k v (e ∷ m) h = elim (dec k e.0) [
    | yes q ↦ rw (if_pos _ q) h
    | no q ↦
        rw (if_neg _ q)
          (get-insert_ne dec e.0 k v m (λ p. q (sym p)) ∙ h.0, insert-IsUnique k v m h.1)
  ]

  pub get-remove_self : (k : K) (m : HashMap K V) → IsUnique m → get dec k (remove dec k m) ≡ none
  unfolding get remove
  get-remove_self k [] h = refl
  get-remove_self k (e ∷ m) h = ground (arith, get-remove_self k m h.1)

  get-remove-none :
      (j k : K) (m : HashMap K V) → get dec j m ≡ none → get dec j (remove dec k m) ≡ none
  unfolding get remove
  get-remove-none j k [] h = refl
  get-remove-none j k (e ∷ m) h = ground (arith, get-remove-none j k m)

  pub remove-IsUnique : (k : K) (m : HashMap K V) → IsUnique m → IsUnique (remove dec k m)
  unfolding get remove
  remove-IsUnique k [] h = h
  remove-IsUnique k (e ∷ m) h = elim (dec k e.0) [
    | yes q ↦ rw (if_pos _ q) h.1
    | no q ↦ rw (if_neg _ q) (get-remove-none e.0 k m h.0, remove-IsUnique k m h.1)
  ]

  pub get-insert-ne-none :
      (j k : K) (v : V) (m : HashMap K V) → get dec j m ≢ none → get dec j (insert dec k v m) ≢ none
  get-insert-ne-none j k v m h = elim (dec j k) [
    | yes p ↦ ground (arith, get-insert_self dec k v m)
    | no p ↦ ground (arith, get-insert_ne dec j k v m p)
  ]

  -- What a lookup after an insertion has found.
  pub get-insert_inv :
      (j k : K) (v w : V) (m : HashMap K V)
      → get dec j (insert dec k v m) ≡ some w
      → ((j ≡ k) × (v ≡ w)) ⊎ ((j ≢ k) × (get dec j m ≡ some w))
  get-insert_inv j k v w m e = elim (dec j k) [
    | yes p ↦ inl (p, ground (arith, get-insert_self dec k v m))
    | no p ↦ inr (p, ground (arith, get-insert_ne dec j k v m p))
  ]

  -- What a lookup after a removal has found.
  pub get-remove_inv :
      (j k : K) (w : V) (m : HashMap K V)
      → IsUnique m
      → get dec j (remove dec k m) ≡ some w
      → (j ≢ k) × (get dec j m ≡ some w)
  get-remove_inv j k w m u e = elim (dec j k) [
    | yes p ↦ absurd (ground (arith, get-remove_self k m u))
    | no p ↦ (p, ground (arith, get-remove_ne dec j k m p))
  ]

  pub insert_same : (k : K) (v : V) (m : HashMap K V) → get dec k m ≡ some v → insert dec k v m ≡ m
  unfolding get insert
  insert_same k v [] e = cc
  insert_same k v (x ∷ m) e = ground (arith, insert_same k v m)

  pub insert-insert_self :
      (k : K) (v w : V) (m : HashMap K V) → insert dec k v (insert dec k w m) ≡ insert dec k v m
  unfolding insert
  insert-insert_self k v w [] = ground arith
  insert-insert_self k v w (x ∷ m) = ground (arith, insert-insert_self k v w m)
