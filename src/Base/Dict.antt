-- ===== src/Base/Dict.antt =====
-- Python's `dict` with text keys, as a list of items in insertion order.
use icechest.Base.{
  String, ◌≡◌, refl, Bool, Option, none, some, List, [], ◌∷◌, ◌++◌, arith, ◌==◌, eq_iff,
  Option-cases, inl, inr, if◌then◌else◌, is_some, or_else, all, all-append, true,
}

abbrev pub Dict {ℓ} : Type ℓ → Type ℓ
Dict V = List (String × V)

module _ {ℓ} {V : Type ℓ} where
  -- `d.get(k)`
  unfoldable pub get : String → Dict V → Option V
  get k [] = none
  get k ((j, v) ∷ d) = if j == k then some v else get k d

  -- `k in d`
  abbrev pub contains : String → Dict V → Bool
  contains k d = is_some (get k d)

  -- `d[k] = v`
  unfoldable pub insert : String → V → Dict V → Dict V
  insert k v [] = (k, v) ∷ []
  insert k v ((j, w) ∷ d) = if j == k then (j, v) ∷ d else (j, w) ∷ insert k v d

  unfoldable pub keys : Dict V → List String
  keys [] = []
  keys ((k, v) ∷ d) = k ∷ keys d

  value_or : Option V → V → V
  value_or none v = v
  value_or (some w) v = w

  -- The items of `d`, with the values that `e` gives to their keys.
  override : Dict V → Dict V → Dict V
  unfolding value_or get
  override e [] = []
  override e ((k, v) ∷ d) = (k, value_or (get k e) v) ∷ override e d

  -- The items of `e` whose keys `d` lacks.
  fresh : Dict V → Dict V → Dict V
  unfolding get
  fresh d [] = []
  fresh d ((k, v) ∷ e) = if contains k d then fresh d e else (k, v) ∷ fresh d e

  -- `{**d, **e}`, `d.update(e)`: old keys keep their places, new ones follow in their order.
  unfoldable pub update : Dict V → Dict V → Dict V
  unfolding override fresh
  update d e = override e d ++ fresh d e

  pub get-insert :
      (j k : String) (v : V) (d : Dict V)
      → get j (insert k v d) ≡ (if k == j then some v else get j d)
  unfolding get insert
  get-insert j k v [] = refl
  get-insert j k v ((i, w) ∷ d) =
      ground (arith, eq_iff k j, eq_iff i k, eq_iff i j, get-insert j k v d)

  pub insert_same : (k : String) (v : V) (d : Dict V) → get k d ≡ some v → insert k v d ≡ d
  unfolding get insert
  insert_same k v [] h = ground arith
  insert_same k v ((i, w) ∷ d) h = ground (arith, insert_same k v d)

  get-append : (j : String) (d e : Dict V) → get j (d ++ e) ≡ or_else (get j d) (get j e)
  unfolding get
  get-append j [] e = refl
  get-append j ((i, w) ∷ d) e = ground (arith, get-append j d e)

  get-override :
      (j : String) (e d : Dict V)
      → get j (override e d) ≡ (if contains j d then or_else (get j e) (get j d) else none)
  unfolding override get
  get-override j e [] = refl
  get-override j e ((i, w) ∷ d) = ground (arith, get-override j e d, eq_iff i j)

  get-fresh :
      (j : String) (d e : Dict V) → get j (fresh d e) ≡ (if contains j d then none else get j e)
  unfolding fresh get
  get-fresh j d [] = ground arith
  get-fresh j d ((i, w) ∷ e) = ground (arith, get-fresh j d e, eq_iff i j)

  pub get-update : (j : String) (d e : Dict V) → get j (update d e) ≡ or_else (get j e) (get j d)
  unfolding update
  get-update j d e =
      ground (arith, get-append j (override e d) (fresh d e), get-override j e d, get-fresh j d e)

module _ {ℓ} {V : Type ℓ} where
  -- What holds of all items holds of the one that `get` finds.
  pub all-get :
      (p : String × V → Bool) (j : String) {v : V} (d : Dict V)
      → all p d ≡ true
      → get j d ≡ some v
      → p (j, v) ≡ true
  unfolding get
  all-get p j [] h found = cc
  all-get p j {v} ((i, w) ∷ d) h found = ground (arith, all-get p j {v = v} d, eq_iff i j)

  all-override :
      (p : V → Bool) (e d : Dict V)
      → all (λ (_, v). p v) e ≡ true
      → all (λ (_, v). p v) d ≡ true
      → all (λ (_, v). p v) (override e d) ≡ true
  unfolding override value_or
  all-override p e [] he hd = refl
  all-override p e ((i, w) ∷ d) he hd = elim (Option-cases (get i e)) [
    | inl missing ↦ ground (arith, all-override p e d)
    | inr (v, found) ↦
        ground (arith, all-override p e d, all-get (λ (_, v). p v) i {v = v} e he found)
  ]

  all-fresh :
      (p : V → Bool) (d e : Dict V)
      → all (λ (_, v). p v) e ≡ true
      → all (λ (_, v). p v) (fresh d e) ≡ true
  unfolding fresh
  all-fresh p d [] h = refl
  all-fresh p d ((i, w) ∷ e) h = ground (arith, all-fresh p d e)

  pub all-update :
      (p : V → Bool) (d e : Dict V)
      → all (λ (_, v). p v) d ≡ true
      → all (λ (_, v). p v) e ≡ true
      → all (λ (_, v). p v) (update d e) ≡ true
  unfolding update
  all-update p d e hd he = ground (
    arith,
    all-append (λ (_, v). p v) (override e d) (fresh d e),
    all-override p e d he hd,
    all-fresh p d e he,
  )

pub get-nil {ℓ} : {V : Type ℓ} (j : String) → get {V = V} j [] ≡ none
unfolding get
get-nil j = refl
