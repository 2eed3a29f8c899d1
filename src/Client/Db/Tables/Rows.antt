-- ===== src/Client/Db/Tables/Rows.antt =====
-- What SELECT … LIMIT 1 finds after an UPDATE.
use nova_chat.Prelude.{◌≡◌, refl, inl, inr, Bool, true, false, List, [], ◌∷◌, Bool-cases}
use mathlib.Core.Option
use nova_chat.Client.Db.Tables.{select_one, update_where}

module _ {ℓ} {R : Type ℓ} (p : R → Bool) (f : R → R) where
  -- The row that is updated is found by the same test, if the update leaves the test true.
  pub select-update_same :
      (rows : List R)
      → ((r : R) → p r ≡ true → p (f r) ≡ true)
      → select_one p (update_where p f rows) ≡ Option.map f (select_one p rows)
  unfolding select_one update_where
  select-update_same [] keep = refl
  select-update_same (r ∷ rows) keep = elim (Bool-cases (p r)) [
    | inl hit ↦ rw hit (rw (keep r hit) refl)
    | inr miss ↦ rw miss (rw miss (select-update_same rows keep))
  ]

  -- A row that meets another test is found as before, if the update never touches that test's rows.
  pub select-update_other :
      (q : R → Bool) (rows : List R)
      → ((r : R) → p r ≡ true → (q r ≡ false) × (q (f r) ≡ false))
      → select_one q (update_where p f rows) ≡ select_one q rows
  unfolding select_one update_where
  select-update_other q [] apart = refl
  select-update_other q (r ∷ rows) apart = elim (Bool-cases (p r)) [
    | inl hit ↦ rw hit (rw (apart r hit).0 (rw (apart r hit).1 (select-update_other q rows apart)))
    | inr miss ↦ rw miss (rw (select-update_other q rows apart) refl)
  ]
