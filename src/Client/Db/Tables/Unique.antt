-- ===== src/Client/Db/Tables/Unique.antt =====
-- UNIQUE in a table, and the statements that keep it.
use nova_chat.Prelude.{
  ◌≡◌, refl, ◌∙◌, inl, inr, Bool, true, false, not, List, [], ◌∷◌, ◌++◌, if◌then◌else◌, filter,
  arith, Bool-cases,
}
use nova_chat.Client.Db.Tables.{update_where, delete_where, exists_where, upsert, insert_or_ignore}

module _ {ℓ} {R : Type ℓ} where
  -- No row has the key of an earlier one; `has_key r s` says that `s` has the key of `r`.
  abbrev pub IsUniqueBy : (R → R → Bool) → List R → Type 0
  IsUniqueBy has_key [] = Unit
  IsUniqueBy has_key (r ∷ rows) = (exists_where (has_key r) rows ≡ false) × IsUniqueBy has_key rows

  exists-append :
      (p : R → Bool) (rows : List R) (m : R)
      → exists_where p (rows ++ m ∷ []) ≡ (if exists_where p rows then true else p m)
  unfolding exists_where
  exists-append p [] m = ground arith
  exists-append p (r ∷ rows) m = ground (arith, exists-append p rows m)

  pub exists-filter :
      (p q : R → Bool) (rows : List R)
      → exists_where p rows ≡ false
      → exists_where p (filter q rows) ≡ false
  unfolding exists_where
  exists-filter p q [] h = refl
  exists-filter p q (r ∷ rows) h = ground (arith, exists-filter p q rows)

  module _ (has_key : R → R → Bool) where
    pub delete-IsUniqueBy :
        (p : R → Bool) (rows : List R)
        → IsUniqueBy has_key rows
        → IsUniqueBy has_key (delete_where p rows)
    unfolding delete_where
    delete-IsUniqueBy p [] v = tt
    delete-IsUniqueBy p (r ∷ rows) (free, v) = elim (Bool-cases (not (p r))) [
      | inl stays ↦
          rw stays
            (exists-filter (has_key r) (λ s. not (p s)) rows free, delete-IsUniqueBy p rows v)
      | inr goes ↦ rw goes (delete-IsUniqueBy p rows v)
    ]

    -- an update that leaves the keys of the rows that it touches
    module _ (p : R → Bool) (f : R → R)
        (keep : (r s : R) → p r ≡ true → has_key (f r) s ≡ has_key r s)
        (kept : (r s : R) → p s ≡ true → has_key r (f s) ≡ has_key r s) where
      exists-kept :
          (r : R) (rows : List R)
          → exists_where (has_key r) (update_where p f rows) ≡ exists_where (has_key r) rows
      unfolding exists_where update_where
      exists-kept r [] = refl
      exists-kept r (s ∷ rows) = ground (arith, exists-kept r rows, kept r s)

      exists-keep :
          (r : R) (rows : List R)
          → p r ≡ true
          → exists_where (has_key (f r)) rows ≡ exists_where (has_key r) rows
      unfolding exists_where
      exists-keep r [] h = refl
      exists-keep r (s ∷ rows) h = ground (arith, exists-keep r rows h, keep r s h)

      pub update-IsUniqueBy :
          (rows : List R) → IsUniqueBy has_key rows → IsUniqueBy has_key (update_where p f rows)
      unfolding update_where
      update-IsUniqueBy [] v = tt
      update-IsUniqueBy (r ∷ rows) (free, v) = elim (Bool-cases (p r)) [
        | inl hit ↦ rw hit (
          exists-keep r (update_where p f rows) hit ∙ exists-kept r rows ∙ free,
          update-IsUniqueBy rows v,
        )
        | inr miss ↦ rw miss (exists-kept r rows ∙ free, update-IsUniqueBy rows v)
      ]

    -- a new row
    module _ (flip : (r s : R) → has_key r s ≡ has_key s r) where
      pub append-IsUniqueBy :
          (rows : List R) (m : R)
          → exists_where (has_key m) rows ≡ false
          → IsUniqueBy has_key rows
          → IsUniqueBy has_key (rows ++ m ∷ [])
      unfolding exists_where
      append-IsUniqueBy [] m h v = (refl, tt)
      append-IsUniqueBy (r ∷ rows) m h (free, v) = (
        ground (arith, exists-append (has_key r) rows m, flip r m),
        append-IsUniqueBy rows m (ground arith) v,
      )

      pub insert-IsUniqueBy :
          (m : R) (rows : List R)
          → IsUniqueBy has_key rows
          → IsUniqueBy has_key (insert_or_ignore (has_key m) m rows)
      unfolding insert_or_ignore
      insert-IsUniqueBy m rows v = elim (Bool-cases (exists_where (has_key m) rows)) [
        | inl old ↦ rw old v
        | inr new ↦ rw new (append-IsUniqueBy rows m new v)
      ]

      pub upsert-IsUniqueBy :
          (f : R → R)
          → ((r s : R) → has_key (f r) s ≡ has_key r s)
          → ((r s : R) → has_key r (f s) ≡ has_key r s)
          → (m : R) (rows : List R) → IsUniqueBy has_key rows
          → IsUniqueBy has_key (upsert (has_key m) f m rows)
      unfolding upsert
      upsert-IsUniqueBy f keep kept m rows v = elim (Bool-cases (exists_where (has_key m) rows)) [
        | inl old ↦
            rw old (update-IsUniqueBy (has_key m) f (λ r s h. keep r s) (λ r s h. kept r s) rows v)
        | inr new ↦ rw new (append-IsUniqueBy rows m new v)
      ]
