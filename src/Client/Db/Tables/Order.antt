-- ===== src/Client/Db/Tables/Order.antt =====
-- What ORDER BY … DESC gives, for a column that holds integers.
use nova_chat.Prelude.{◌≡◌, refl, ap, ◌∙◌, suc, length, inl, inr, false, List, [], ◌∷◌, Bool-cases}
use nova_chat.Prelude.Int.{ℤ, lt_int, lt_int_asym, lt_int_trans}
use nova_chat.Client.Db.Tables.{insert_sorted, order_by}
use mathlib.Core.List.{Perm}
use mathlib.Core.List.Perm

module _ {ℓ} {R : Type ℓ} (column : R → ℤ) where
  -- No row of the list is above `t`.
  abbrev pub AllUpTo : ℤ → List R → Type 0
  AllUpTo t [] = Unit
  AllUpTo t (r ∷ rows) = (lt_int t (column r) ≡ false) × AllUpTo t rows

  -- Each row is followed by none that is above it.
  abbrev pub IsFalling : List R → Type 0
  IsFalling [] = Unit
  IsFalling (r ∷ rows) = AllUpTo (column r) rows × IsFalling rows

  insert_sorted-AllUpTo :
      (t : ℤ) (r : R) (rows : List R)
      → lt_int t (column r) ≡ false
      → AllUpTo t rows
      → AllUpTo t (insert_sorted (λ a b. lt_int (column b) (column a)) r rows)
  unfolding insert_sorted
  insert_sorted-AllUpTo t r [] h b = (h, tt)
  insert_sorted-AllUpTo t r (s ∷ rows) h (hs, b) =
      elim (Bool-cases (lt_int (column r) (column s))) [
        | inl above ↦ rw above (hs, insert_sorted-AllUpTo t r rows h b)
        | inr not_above ↦ rw not_above (h, (hs, b))
      ]

  AllUpTo-trans : (t u : ℤ) (rows : List R) → lt_int t u ≡ false → AllUpTo u rows → AllUpTo t rows
  AllUpTo-trans t u [] h b = tt
  AllUpTo-trans t u (s ∷ rows) h (hs, b) =
      (lt_int_trans (column s) u t hs h, AllUpTo-trans t u rows h b)

  insert_sorted-IsFalling :
      (r : R) (rows : List R)
      → IsFalling rows
      → IsFalling (insert_sorted (λ a b. lt_int (column b) (column a)) r rows)
  unfolding insert_sorted
  insert_sorted-IsFalling r [] v = (tt, tt)
  insert_sorted-IsFalling r (s ∷ rows) (b, v) = elim (Bool-cases (lt_int (column r) (column s))) [
    | inl above ↦ rw above (
      insert_sorted-AllUpTo (column s) r rows (lt_int_asym (column r) (column s) above) b,
      insert_sorted-IsFalling r rows v,
    )
    | inr not_above ↦
        rw not_above ((not_above, AllUpTo-trans (column r) (column s) rows not_above b), (b, v))
  ]

  pub order_by-IsFalling :
      (rows : List R) → IsFalling (order_by (λ a b. lt_int (column b) (column a)) rows)
  unfolding order_by
  order_by-IsFalling [] = tt
  order_by-IsFalling (r ∷ rows) = insert_sorted-IsFalling r _ (order_by-IsFalling rows)

  insert_sorted-perm :
      (r : R) (rows : List R)
      → Perm (insert_sorted (λ a b. lt_int (column b) (column a)) r rows) (r ∷ rows)
  unfolding insert_sorted
  insert_sorted-perm r [] = Perm.refl (r ∷ [])
  insert_sorted-perm r (s ∷ rows) = elim (Bool-cases (lt_int (column r) (column s))) [
    | inl above ↦
        rw above (Perm.trans (Perm.cons s (insert_sorted-perm r rows)) (Perm.swap r s rows))
    | inr not_above ↦ rw not_above (Perm.refl (r ∷ s ∷ rows))
  ]

  pub order_by-perm :
      (rows : List R) → Perm (order_by (λ a b. lt_int (column b) (column a)) rows) rows
  unfolding order_by
  order_by-perm [] = Perm.refl []
  order_by-perm (r ∷ rows) = Perm.trans (insert_sorted-perm r _) (Perm.cons r (order_by-perm rows))

  length-insert_sorted :
      (r : R) (rows : List R)
      → length (insert_sorted (λ a b. lt_int (column b) (column a)) r rows) ≡ suc (length rows)
  unfolding insert_sorted
  length-insert_sorted r [] = refl
  length-insert_sorted r (s ∷ rows) = elim (Bool-cases (lt_int (column r) (column s))) [
    | inl above ↦ rw above (ap suc (length-insert_sorted r rows))
    | inr not_above ↦ rw not_above refl
  ]

  pub length-order_by :
      (rows : List R) → length (order_by (λ a b. lt_int (column b) (column a)) rows) ≡ length rows
  unfolding order_by
  length-order_by [] = refl
  length-order_by (r ∷ rows) = length-insert_sorted r _ ∙ ap suc (length-order_by rows)
