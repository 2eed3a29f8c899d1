-- ===== src/Server/Storage/Search.antt =====
-- searchUsers of ServerStorage.
use nova_chat.Prelude.{
  ◌+◌, ◌-◌, ◌<◌, ◌≡◌, refl, ◌↔◌, inl, inr, Bool, true, List, [], ◌∷◌, ◌++◌, append_assoc,
  append-nil, arith, leb, Bool-cases, length, length-append, take, take-nil, take-cons, filter,
}
use nova_chat.Prelude.Text.{Text, contains, Occurs, contains_iff}
use nova_chat.Prelude.Dict.{Dict}
use nova_chat.Server.Storage.{Storage, UserRecord, to_lower, search_loop, search_users}

-- The records of the store, in its order.
abbrev pub records : Dict UserRecord → List UserRecord
records [] = []
records ((id, rec) ∷ users) = rec ∷ records users

abbrev pub name_matches : Text → UserRecord → Bool
name_matches keyword rec = contains (to_lower keyword) (to_lower rec.username)

search_loop-take :
    (keyword : Text) (users : Dict UserRecord) (found : List UserRecord)
    → length found < 20
    → search_loop (to_lower keyword) users found
      ≡ found ++ take (20 - length found) (filter (name_matches keyword) (records users))
unfolding search_loop
search_loop-take keyword [] found h = rw (take-nil (20 - length found), append-nil)
search_loop-take keyword ((id, rec) ∷ users) found h =
    elim (Bool-cases (contains (to_lower keyword) (to_lower rec.username))) [
      | inr miss ↦ rw miss (search_loop-take keyword users found h)
      | inl hit ↦
          (let others : List UserRecord = filter (name_matches keyword) (records users) in
            let l : length (found ++ rec ∷ []) ≡ length found + 1 =
              length-append found (rec ∷ []) in
            let t : take (20 - length found) (rec ∷ others)
                ≡ rec ∷ take (20 - length found - 1) others =
              take-cons (20 - length found) rec others (omega arith) in
            rw hit (
              rw t (elim (Bool-cases (leb 20 (length (found ++ rec ∷ [])))) [
                | inl full ↦
                    (let z : 20 - length found - 1 ≡ 0 = ground arith in rw full (rw z refl))
                | inr room ↦
                    (let n : 20 - length found - 1 ≡ 20 - length (found ++ rec ∷ []) =
                        omega (arith, l) in
                      rw room (
                        rw (
                          n,
                          search_loop-take keyword users (found ++ rec ∷ []) (ground arith),
                          append_assoc found (rec ∷ [])
                              (take (20 - length (found ++ rec ∷ [])) others),
                        )))
              ])))
    ]

-- searchUsers returns the first twenty, in the store's order, of the users whose username holds the
-- keyword when both are in lower case.
pub search_users_lem :
    (s : Storage) (keyword : Text)
    → (search_users s keyword ≡ take 20 (filter (name_matches keyword) (records s.users_by_id)))
      × ((rec : UserRecord)
          → (name_matches keyword rec ≡ true) ↔ Occurs (to_lower keyword) (to_lower rec.username))
unfolding search_users
search_users_lem s keyword = (
  search_loop-take keyword s.users_by_id [] (omega arith),
  λ rec. contains_iff (to_lower keyword) (to_lower rec.username),
)
