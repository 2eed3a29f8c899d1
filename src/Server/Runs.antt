-- ===== src/Server/Runs.antt =====
-- Runs of the server: any sequence of accepted connections, reads and waits.
use nova_chat.Prelude.{
  ℕ, ◌≡◌, sym, ap, ◌∙◌, subst, false, inl, inr, Option, none, some, List, All, [], ◌∷◌,
}
use nova_chat.Prelude.Text.{Text}
use nova_chat.Prelude.Dict.{get}
use nova_chat.Prelude.Int.{ℤ}
use nova_chat.Server.Hex.{Rng}
use nova_chat.Codec.{Bytes, Packet, feed}
use nova_chat.Proto.{Wire}
use nova_chat.Server.Storage.{Storage, conversation, Outcome, returned, thrown}
use nova_chat.Server.Storage.Accounts.{IsFresh}
use nova_chat.Server.Persist.{JsonLib}
use nova_chat.Server.World.{World, put_session}
use nova_chat.Server.Dispatch.{dispatch, dispatch_all, on_read}
use nova_chat.Server.Soundness.{IsSafe, Returns, Outcome-cases}
use nova_chat.Server.Safety.{dispatch-IsSafe}
use nova_chat.Server.Restart.{start-are_friends}
use nova_chat.Server.Effects.{Change, dispatch-Change}
use nova_chat.Server.Archive.{
  Grown, Grown-refl, Grown-trans, Change-Grown, KeepsNames, Change-KeepsNames, Change-IsMutual,
}
use nova_chat.Server.Authors.{IsAuthored, HasAuthors, Change-HasAuthors}
use nova_chat.Server.Authors.Start.{start-HasAuthors}
use nova_chat.Server.Storage.Friends.{IsMutual, are_friends}
use nova_chat.Server.Process.{start, accept, Step, accepted, has_read, waited, Run, done, more}

-- the world that was returned, or `w`
value : World → Outcome World → World
value w thrown = w
value w (returned v) = v

module _ (wire : Wire) (json : JsonLib) where
  -- For each packet in turn the id that a registration would draw belongs to nobody.
  pub data FreshAlong (i : ℕ) : List Packet → World → Type 0 where
    none_left : {w : World} → FreshAlong i [] w
    fresh_for :
        {w : World} {pkt : Packet} {pkts : List Packet}
        → IsFresh w.storage
        → ((w' : World) → dispatch wire json i pkt w ≡ returned w' → FreshAlong i pkts w')
        → FreshAlong i (pkt ∷ pkts) w

  -- the ids, for the packets that a read gives to the handler
  abbrev pub IsFreshRead : ℕ → Bytes → World → Type 0
  IsFreshRead i incoming w =
      let (pkts, left) = feed (w.session i).buffer incoming in
      FreshAlong i pkts (put_session w i (record (w.session i) { buffer = left }))

  dispatch_all-IsSafe :
      (i : ℕ) (pkts : List Packet) (w : World)
      → FreshAlong i pkts w
      → IsSafe w
      → Returns IsSafe (dispatch_all wire json i pkts w)
  unfolding dispatch_all
  dispatch_all-IsSafe i [] w fresh v = v
  dispatch_all-IsSafe i (pkt ∷ pkts) w (fresh_for fresh later) v =
      let safe = dispatch-IsSafe wire json i pkt w fresh v in
      elim (Outcome-cases (dispatch wire json i pkt w)) [
        | inl threw ↦ absurd (subst (Returns IsSafe) threw safe)
        | inr (w', ran) ↦
            rw (ran, dispatch_all)
              (dispatch_all-IsSafe i pkts w' (later w' ran) (subst (Returns IsSafe) ran safe))
      ]

  -- From a sound store a read, of any bytes, ends without an exception and leaves the store sound,
  -- if at each packet that it completes the id that a registration would draw belongs to nobody.
  pub on_read-IsSafe :
      (i : ℕ) (incoming : Bytes) (w : World)
      → IsFreshRead i incoming w
      → IsSafe w
      → Returns IsSafe (on_read wire json i (some incoming) w)
  unfolding on_read put_session
  on_read-IsSafe i incoming w fresh v = dispatch_all-IsSafe i _ _ fresh v

  -- What each effect of a packet keeps, a run of the server keeps.
  module _ (Keeps : Storage → Storage → Type 0) (same : (s : Storage) → Keeps s s)
      (both : (s t u : Storage) → Keeps s t → Keeps t u → Keeps s u)
      (one : (i : ℕ) (s t : Storage) → Change i s t → Keeps s t) where
    dispatch_all-Keeps :
        (i : ℕ) (pkts : List Packet) (w w' : World)
        → dispatch_all wire json i pkts w ≡ returned w'
        → Keeps w.storage w'.storage
    unfolding dispatch_all value
    dispatch_all-Keeps i [] w w' e =
        subst (λ (v : World). Keeps w.storage v.storage) (ap (value w) e) (same w.storage)
    dispatch_all-Keeps i (pkt ∷ pkts) w w' e = elim (Outcome-cases (dispatch wire json i pkt w)) [
      | inl threw ↦ absurd (never (rw (threw, dispatch_all) at e))
      | inr (v, ran) ↦
          both w.storage v.storage w'.storage
            (one i w.storage v.storage (dispatch-Change wire json i pkt w v ran))
            (dispatch_all-Keeps i pkts v w' (rw (ran, dispatch_all) at e))
    ]
      where
        never : {v : World} → thrown ≡ returned v → ⊥
        never h = cc

    on_read-Keeps :
        (i : ℕ) (incoming : Option Bytes) (w w' : World)
        → on_read wire json i incoming w ≡ returned w'
        → Keeps w.storage w'.storage
    unfolding on_read put_session value
    on_read-Keeps i none w w' e =
        subst (λ (v : World). Keeps w.storage v.storage) (ap (value w) e) (same w.storage)
    on_read-Keeps i (some incoming) w w' e = dispatch_all-Keeps i _ _ w' e

    step-Keeps : (w w' : World) → Step wire json w w' → Keeps w.storage w'.storage
    unfolding accept put_session
    step-Keeps w w' (accepted i gone unknown) = same w.storage
    step-Keeps w w' (has_read i incoming there e) = on_read-Keeps i incoming w w' e
    step-Keeps w w' (waited now) = same w.storage

    Run-Keeps : (w w' : World) → Run wire json w w' → Keeps w.storage w'.storage
    Run-Keeps w w' done = same w.storage
    Run-Keeps w w' (more {v = v} s r) =
        both w.storage v.storage w'.storage (step-Keeps w v s) (Run-Keeps v w' r)

  -- In whatever order connections are accepted and lost, reads complete and time goes by, each
  -- conversation of the store afterwards begins with all its messages from before, in their order:
  -- no message is lost, changed or moved while the server runs.
  pub Run-Grown : (w w' : World) → Run wire json w w' → Grown w.storage w'.storage
  Run-Grown = Run-Keeps Grown Grown-refl Grown-trans Change-Grown

  -- However long the server runs, a username that a registration took goes on leading to the same
  -- user id.
  pub Run-username :
      (w w' : World) (username id : Text)
      → Run wire json w w'
      → get w.storage.username_to_id username ≡ some id
      → get w'.storage.username_to_id username ≡ some id
  Run-username w w' username id r =
      Run-Keeps KeepsNames (λ s name j h. h) (λ s t u f g name j h. g name j (f name j h))
        Change-KeepsNames w w' r username id

  -- Of two users each is the other's friend or neither is, at any moment after the server has been
  -- started, whatever its file holds.
  pub Run-IsMutual :
      (rng : Rng) (now : ℤ) (file : Option Text) (w : World) (a b : Text)
      → Run wire json (start json rng now file) w
      → are_friends w.storage a b ≡ are_friends w.storage b a
  Run-IsMutual rng now file w a b r =
      Run-Keeps (λ s t. IsMutual s → IsMutual t) (λ s m. m) (λ s t u f g m. g (f m)) Change-IsMutual
        (start json rng now file) w r (λ x y. nobody x y ∙ sym (nobody y x)) a b
    where
      nobody : (x y : Text) → are_friends (start json rng now file).storage x y ≡ false
      nobody = start-are_friends json rng now file

  -- At any moment after the server has been started, whatever its file holds, every message that
  -- stands in a conversation is from a user of the store, and the conversation's id is made of that
  -- user's id and another.
  pub Run-IsAuthored :
      (rng : Rng) (now : ℤ) (file : Option Text) (w : World) (id : Text)
      → Run wire json (start json rng now file) w
      → All (IsAuthored w.storage.users_by_id id) (conversation w.storage id)
  Run-IsAuthored rng now file w id r =
      (Run-Keeps (λ s t. HasAuthors s → HasAuthors t) (λ s v. v) (λ s t u f g v. g (f v))
          Change-HasAuthors (start json rng now file) w r
          (start-HasAuthors json rng now file)).authored
        id
