-- ===== src/Base/BTreeMap.antt =====
-- `std::collections::BTreeMap` as the list of its entries in the order of the keys.
use Prim.Native.Nat.{Ordering}
use Prim.Native.Nat.Ordering.{lt, eq, gt}
use mathlib.Core.Path.{◌≡◌, refl}
use mathlib.Core.Logic.{◌≢◌}
use mathlib.Core.Bool.{Bool}
use mathlib.Core.Option.{Option, none, some}
use mathlib.Core.List.{List, [], ◌∷◌, map}
use native.Mathlib.Omega.{arith}
use ormpindexer.Base.Tests.{if◌then◌else◌}
use ormpindexer.Base.Lists.{All, Among, here, later, filter}
use ormpindexer.Base.Order.{Order}

abbrev pub BTreeMap {ℓ κ} : Type ℓ → Type κ → Type (ℓ ⊔ κ)
BTreeMap K V = List (K × V)

module _ {ℓ κ} {K : Type ℓ} {V : Type κ} ⦃o : Order K⦄ where
  abbrev pub get : K → BTreeMap K V → Option V
  get k [] = none
  get k ((j, w) ∷ m) = elim (o.cmp k j) [ lt ↦ get k m | eq ↦ some w | gt ↦ get k m ]

  abbrev pub insert : K → V → BTreeMap K V → BTreeMap K V
  insert k v [] = (k, v) ∷ []
  insert k v ((j, w) ∷ m) = elim (o.cmp k j) [
    | lt ↦ (k, v) ∷ (j, w) ∷ m
    | eq ↦ (k, v) ∷ m
    | gt ↦ (j, w) ∷ insert k v m
  ]

  -- `.entry(k).or_insert(v)`
  abbrev pub or_insert : K → V → BTreeMap K V → BTreeMap K V
  or_insert k v m = elim (get k m) [ none ↦ insert k v m | some w ↦ m ]

  abbrev pub retain : (K → Bool) → BTreeMap K V → BTreeMap K V
  retain p = filter (λ e. p e.0)

  abbrev pub values : BTreeMap K V → List V
  values = map (λ e. e.1)

  -- `.collect()` of the pairs of a list: a later pair replaces an earlier one with its key.
  abbrev pub collect_from : BTreeMap K V → List (K × V) → BTreeMap K V
  collect_from m [] = m
  collect_from m ((k, v) ∷ es) = collect_from (insert k v m) es

  pub get-insert :
      (k j : K) (v : V) (m : BTreeMap K V)
      → get j (insert k v m) ≡ elim (o.cmp j k) [ lt ↦ get j m | eq ↦ some v | gt ↦ get j m ]
  get-insert k j v [] = refl
  get-insert k j v ((i, w) ∷ m) =
      ground
        (arith, o.eq_of_cmp k i, o.eq_of_cmp j i, o.cmp_flip k i, o.cmp_self j, get-insert k j v m)

  pub get-insert_self : (k : K) (v : V) (m : BTreeMap K V) → get k (insert k v m) ≡ some v
  get-insert_self k v m = ground (arith, get-insert k k v m, o.cmp_self k)

  pub get-insert_ne : (k j : K) (v : V) (m : BTreeMap K V) → j ≢ k → get j (insert k v m) ≡ get j m
  get-insert_ne k j v m ne = ground (arith, get-insert k j v m, o.eq_of_cmp j k)

  pub get-retain :
      (p : K → Bool) (k : K) (m : BTreeMap K V)
      → get k (retain p m) ≡ (if p k then get k m else none)
  get-retain p k [] = ground arith
  get-retain p k ((j, w) ∷ m) = ground (arith, o.eq_of_cmp k j, get-retain p k m)

  -- Every key of the rest stands above the first.
  abbrev pub Above : K → BTreeMap K V → Type ℓ
  Above k [] = Unit
  Above k ((j, w) ∷ m) = (o.cmp k j ≡ lt) × Above k m

  abbrev pub IsSorted : BTreeMap K V → Type ℓ
  IsSorted [] = Unit
  IsSorted ((k, v) ∷ m) = Above k m × IsSorted m

  pub Above-trans : (i k : K) (m : BTreeMap K V) → o.cmp i k ≡ lt → Above k m → Above i m
  Above-trans i k [] h a = tt
  Above-trans i k ((j, w) ∷ m) h (l, a) = (o.cmp_trans i k j h l, Above-trans i k m h a)

  Above-insert :
      (i k : K) (v : V) (m : BTreeMap K V) → o.cmp i k ≡ lt → Above i m → Above i (insert k v m)
  Above-insert i k v [] h a = (h, tt)
  Above-insert i k v ((j, w) ∷ m) h a = ground (arith, Above-insert i k v m h a.1)

  pub insert-IsSorted : (k : K) (v : V) (m : BTreeMap K V) → IsSorted m → IsSorted (insert k v m)
  insert-IsSorted k v [] s = (tt, tt)
  insert-IsSorted k v ((j, w) ∷ m) s = ground (
    arith,
    o.cmp_flip k j,
    o.eq_of_cmp k j,
    Above-trans k j m,
    Above-insert j k v m,
    insert-IsSorted k v m s.1,
  )

  Above-retain : (i : K) (p : K → Bool) (m : BTreeMap K V) → Above i m → Above i (retain p m)
  Above-retain i p [] a = tt
  Above-retain i p ((j, w) ∷ m) a = ground (arith, Above-retain i p m a.1)

  pub retain-IsSorted : (p : K → Bool) (m : BTreeMap K V) → IsSorted m → IsSorted (retain p m)
  retain-IsSorted p [] s = tt
  retain-IsSorted p ((k, v) ∷ m) s = ground (arith, Above-retain k p m s.0, retain-IsSorted p m s.1)

  pub collect_from-IsSorted :
      (m : BTreeMap K V) (es : List (K × V)) → IsSorted m → IsSorted (collect_from m es)
  collect_from-IsSorted m [] s = s
  collect_from-IsSorted m ((k, v) ∷ es) s =
      collect_from-IsSorted (insert k v m) es (insert-IsSorted k v m s)

  -- A property of all entries, case by case of the comparison that `insert` makes.
  All-placed {μ} :
      (P : K × V → Type μ) (k j : K) (v w : V) (m rest : BTreeMap K V) (c : Ordering)
      → P (k, v)
      → P (j, w)
      → All P m
      → All P rest
      → All P (elim c [ lt ↦ (k, v) ∷ (j, w) ∷ m | eq ↦ (k, v) ∷ m | gt ↦ (j, w) ∷ rest ])
  All-placed P k j v w m rest lt p q h r = (p, (q, h))
  All-placed P k j v w m rest eq p q h r = (p, h)
  All-placed P k j v w m rest gt p q h r = (q, r)

  pub All-insert {μ} :
      (P : K × V → Type μ) (k : K) (v : V) (m : BTreeMap K V)
      → P (k, v)
      → All P m
      → All P (insert k v m)
  All-insert P k v [] p h = (p, tt)
  All-insert P k v ((j, w) ∷ m) p (q, h) =
      All-placed P k j v w m (insert k v m) (o.cmp k j) p q h (All-insert P k v m p h)

  Above-Among : (i : K) (e : K × V) (m : BTreeMap K V) → Above i m → Among e m → o.cmp i e.0 ≡ lt
  Above-Among i e [] a m = elim m [ ]
  Above-Among i e ((j, w) ∷ m) (l, a) (here same) = rw same l
  Above-Among i e ((j, w) ∷ m) (l, a) (later rest) = Above-Among i e m a rest

  -- In a sorted map every entry is the one that its key finds, and the other way round.
  pub get-Among :
      (k : K) (v : V) (m : BTreeMap K V) → IsSorted m → Among (k, v) m → get k m ≡ some v
  get-Among k v [] s m = elim m [ ]
  get-Among k v ((j, w) ∷ m) (a, s) (here e) = ground (arith, o.cmp_self k)
  get-Among k v ((j, w) ∷ m) (a, s) (later rest) =
      ground (arith, get-Among k v m s rest, Above-Among j (k, v) m a rest, o.cmp_flip j k)

  Among-found :
      (k j : K) (v w : V) (m : BTreeMap K V) (c : Ordering)
      → (get k m ≡ some v → Among (k, v) m)
      → o.cmp k j ≡ c
      → elim c [ lt ↦ get k m | eq ↦ some w | gt ↦ get k m ] ≡ some v
      → Among (k, v) ((j, w) ∷ m)
  Among-found k j v w m lt ih e g = later (ih g)
  Among-found k j v w m eq ih e g = here (ground (arith, o.eq_of_cmp k j e))
  Among-found k j v w m gt ih e g = later (ih g)

  pub Among-of_get : (k : K) (v : V) (m : BTreeMap K V) → get k m ≡ some v → Among (k, v) m
  Among-of_get k v [] h = cc
  Among-of_get k v ((j, w) ∷ m) h = Among-found k j v w m (o.cmp k j) (Among-of_get k v m) refl h
