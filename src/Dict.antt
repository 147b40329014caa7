-- ===== src/Dict.antt =====
-- A Go map with string keys: an association list in which no key is listed twice. The program
-- ranges over a map only to delete from it, so the order of the entries does not matter.
use lapis_archive_file_servi.Prelude.{
  suc, ◌≤◌, List, [], ◌∷◌, Bytes, Bool, true, false, Option, none, some, ◌≟◌, ≟_iff, if◌then◌else◌,
  length, ◌≡◌, refl, arith,
}

abbrev pub Dict : Type 0 → Type 0
Dict V = List (Bytes × V)

module _ {V : Type 0} where
  unfoldable pub lookup : Bytes → Dict V → Option V
  lookup k [] = none
  lookup k (e ∷ m) = if e.0 ≟ k then some e.1 else lookup k m

  -- `m[k] = v`
  unfoldable pub put : Bytes → V → Dict V → Dict V
  put k v [] = (k, v) ∷ []
  put k v (e ∷ m) = if e.0 ≟ k then (k, v) ∷ m else e ∷ put k v m

  -- `for k, v := range m { if p(v) { delete(m, k) } }`
  unfoldable pub delete_where : (V → Bool) → Dict V → Dict V
  delete_where p [] = []
  delete_where p (e ∷ m) = let rest = delete_where p m in if p e.1 then rest else e ∷ rest

  abbrev pub has : Bytes → Dict V → Bool
  has k m = elim (lookup k m) [ none ↦ false | some v ↦ true ]

  pub lookup-put :
      (k j : Bytes) (v : V) (m : Dict V)
      → lookup j (put k v m) ≡ (if k ≟ j then some v else lookup j m)
  unfolding lookup put
  lookup-put k j v [] = refl
  lookup-put k j v (e ∷ m) = ground (arith, ≟_iff k j, ≟_iff e.0 k, ≟_iff e.0 j, lookup-put k j v m)

  pub length-put :
      (k : Bytes) (v : V) (m : Dict V)
      → length (put k v m) ≡ (if has k m then length m else suc (length m))
  unfolding lookup put
  length-put k v [] = refl
  length-put k v (e ∷ m) = ground (arith, length-put k v m)

  pub length-delete_where-le : (p : V → Bool) (m : Dict V) → length (delete_where p m) ≤ length m
  unfolding delete_where
  length-delete_where-le p [] = omega arith
  length-delete_where-le p (e ∷ m) = ground (arith, length-delete_where-le p m)

  -- No key is listed twice.
  abbrev pub IsDict : Dict V → Type 0
  IsDict [] = Unit
  IsDict (e ∷ m) = (lookup e.0 m ≡ none) × IsDict m

  pub put-IsDict : (k : Bytes) (v : V) (m : Dict V) → IsDict m → IsDict (put k v m)
  unfolding lookup put
  put-IsDict k v [] h = (refl, tt)
  put-IsDict k v (e ∷ m) h =
      ground (arith, put-IsDict k v m h.1, lookup-put k e.0 v m, ≟_iff k e.0, ≟_iff e.0 k)

  lookup-delete_where-none :
      (p : V → Bool) (k : Bytes) (m : Dict V)
      → lookup k m ≡ none
      → lookup k (delete_where p m) ≡ none
  unfolding lookup delete_where
  lookup-delete_where-none p k [] h = refl
  lookup-delete_where-none p k (e ∷ m) h = ground (arith, lookup-delete_where-none p k m)

  pub delete_where-IsDict : (p : V → Bool) (m : Dict V) → IsDict m → IsDict (delete_where p m)
  unfolding delete_where
  delete_where-IsDict p [] h = tt
  delete_where-IsDict p (e ∷ m) h =
      ground (arith, delete_where-IsDict p m h.1, lookup-delete_where-none p e.0 m h.0)

  -- A key is still there exactly if its value did not meet the condition.
  pub lookup-delete_where :
      (p : V → Bool) (k : Bytes) (m : Dict V)
      → IsDict m
      → lookup k (delete_where p m)
        ≡ elim (lookup k m) [ none ↦ none | some v ↦ if p v then none else some v ]
  unfolding lookup delete_where
  lookup-delete_where p k [] h = refl
  lookup-delete_where p k (e ∷ m) h = ground (
    arith,
    ≟_iff e.0 k,
    lookup-delete_where p k m h.1,
    lookup-delete_where-none p k m,
    lookup-delete_where-none p e.0 m h.0,
  )
