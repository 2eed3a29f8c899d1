-- ===== src/Client/Profiles.antt =====
-- Two processes of the client that run at once, each under its profile.
use nova_chat.Prelude.{
  ◌≡◌, ◌≢◌, refl, sym, ap, subst, ◌∙◌, inl, inr, Option, true, none, some, ◌∷◌, ◌++◌, Bool-cases,
  if◌then◌else◌,
}
use mathlib.Core.Option.{some-injective}
use mathlib.Core.List.{append_cancel_left, append_cancel_right}
use nova_chat.Prelude.Text.{Text, bytes, text_eq, text_eq_sound}
use nova_chat.Proto.{Wire}
use nova_chat.Client.Db.Tables.{Db}
use nova_chat.Client.App.{App}
use nova_chat.Client.Config.{AppConfig}
use nova_chat.Client.Ui.{Qt}
use nova_chat.Client.Start.{
  Desktop, Launch, already_running, no_database, running, profile_of, log_file, db_filename,
  server_name, LocalServers, start, acquire_single_instance_lock, run_main,
}

-- The names of both files: one for the default profile, and one with the profile's name.
abbrev file_name : Text → Text → Text
file_name rest p =
    if text_eq p (bytes "default")
    then bytes "novachat" ++ (b'.' ∷ rest)
    else bytes "novachat_" ++ (p ++ b'.' ∷ rest)

dot_line : (s t : Text) → b'.' ∷ s ≡ b'_' ∷ t → ⊥
dot_line s t e = cc

file_name_inj : (rest p q : Text) → file_name rest p ≡ file_name rest q → p ≡ q
file_name_inj rest p q e = elim (Bool-cases (text_eq p (bytes "default"))) [
  | inl dp ↦ elim (Bool-cases (text_eq q (bytes "default"))) [
    | inl dq ↦ text_eq_sound p (bytes "default") dp ∙ sym (text_eq_sound q (bytes "default") dq)
    | inr nq ↦ absurd (
        dot_line rest (q ++ b'.' ∷ rest) (
          append_cancel_left (bytes "novachat") (b'.' ∷ rest) (b'_' ∷ (q ++ b'.' ∷ rest))
            (rw (dp, nq) at e)))
  ]
  | inr np ↦ elim (Bool-cases (text_eq q (bytes "default"))) [
    | inl dq ↦ absurd (
        dot_line rest (p ++ b'.' ∷ rest) (
          append_cancel_left (bytes "novachat") (b'.' ∷ rest) (b'_' ∷ (p ++ b'.' ∷ rest))
            (sym (rw (np, dq) at e))))
    | inr nq ↦ append_cancel_right p q (b'.' ∷ rest) (
        append_cancel_left (bytes "novachat_") (p ++ b'.' ∷ rest) (q ++ b'.' ∷ rest)
          (rw (np, nq) at e))
  ]
]

db_filename_inj : (p q : Text) → db_filename p ≡ db_filename q → p ≡ q
unfolding db_filename
db_filename_inj p q e = file_name_inj (bytes "db") p q e

log_file_inj : (p q : Text) → log_file p ≡ log_file q → p ≡ q
unfolding log_file
log_file_inj p q e = file_name_inj (bytes "log") p q e

-- What a process that runs has done.
RunsIf : {S : Type 0} → LocalServers S → Text → S → Launch S → Type 0
RunsIf os profile servers already_running = Unit
RunsIf os profile servers no_database = Unit
RunsIf os profile servers (running d servers' db log) =
    (acquire_single_instance_lock os profile servers ≡ some servers')
    × (db ≡ db_filename profile)
    × (log ≡ log_file profile)

module _ {S : Type 0} (os : LocalServers S) where
  -- After a listen that succeeded its server answers.
  abbrev pub ListenAnswers : Type 0
  ListenAnswers =
      (name : Text) (servers : S)
      → (os.listen name servers).0 ≡ true
      → os.answers name (os.listen name servers).1 ≡ true

  -- The listen of this process succeeds.
  abbrev Listens : Text → S → Type 0
  Listens profile servers =
      (os.listen (server_name profile) (os.remove (server_name profile) servers)).0 ≡ true

  -- A name that was taken is found taken.
  locked_twice :
      (profile : Text) (servers servers' : S)
      → ListenAnswers
      → Listens profile servers
      → acquire_single_instance_lock os profile servers ≡ some servers'
      → acquire_single_instance_lock os profile servers' ≡ none
  unfolding acquire_single_instance_lock server_name
  locked_twice profile servers servers' answers listens e =
      elim (Bool-cases (os.answers (server_name profile) servers)) [
        | inl taken ↦ absurd (never (rw taken at e))
        | inr free ↦
            (let same : (os.listen (server_name profile)
                    (os.remove (server_name profile) servers)).1
                  ≡ servers' =
                some-injective _ _ (rw free at e) in
              subst (λ ns. acquire_single_instance_lock os profile ns ≡ none) same
                (rw
                  (answers (server_name profile) (os.remove (server_name profile) servers) listens)
                  refl))
      ]
    where
      never : {ns : S} → none ≡ some ns → ⊥
      never h = cc

module _ {S : Type 0} (os : LocalServers S) (qt : Qt) (wire : Wire) where
  run_main-RunsIf :
      (value : Text) (servers : S) (config : AppConfig) (open_db : Text → Option Db) (a : App)
      → RunsIf os (profile_of qt value) servers (run_main qt wire os value servers config open_db a)
  unfolding RunsIf run_main
  run_main-RunsIf value servers config open_db a =
      by_lock (acquire_single_instance_lock os (profile_of qt value) servers) refl
    where
      by_db :
          (servers' : S) (o : Option Db)
          → acquire_single_instance_lock os (profile_of qt value) servers ≡ some servers'
          → RunsIf os (profile_of qt value) servers (elim o [
            | none ↦ no_database
            | some db ↦
                running
                  (start qt wire config (record a { db = db }))
                  servers'
                  (db_filename (profile_of qt value))
                  (log_file (profile_of qt value))
          ])
      by_db servers' none got = tt
      by_db servers' (some db) got = (got, refl, refl)

      by_lock :
          (o : Option S)
          → acquire_single_instance_lock os (profile_of qt value) servers ≡ o
          → RunsIf os (profile_of qt value) servers (elim o [
            | none ↦ already_running
            | some servers' ↦ elim (open_db (db_filename (profile_of qt value))) [
              | none ↦ no_database
              | some db ↦
                  running
                    (start qt wire config (record a { db = db }))
                    servers'
                    (db_filename (profile_of qt value))
                    (log_file (profile_of qt value))
            ]
          ])
      by_lock none got = tt
      by_lock (some servers') got = by_db servers' (open_db (db_filename (profile_of qt value))) got

  -- Two processes that are started one after the other while the first runs on have different
  -- databases and different log files, if both of them come to run, if the first one's listen
  -- succeeded, and if a server whose listen succeeded answers the probe.
  pub run_main_apart :
      (value value' : Text) (servers servers₁ servers₂ : S) (config config' : AppConfig)
      (open_db open_db' : Text → Option Db) (a a' : App) (d d' : Desktop) (db log db' log' : Text)
      → ListenAnswers os
      → Listens os (profile_of qt value) servers
      → run_main qt wire os value servers config open_db a ≡ running d servers₁ db log
      → run_main qt wire os value' servers₁ config' open_db' a' ≡ running d' servers₂ db' log'
      → (db ≢ db') × (log ≢ log')
  unfolding RunsIf
  run_main_apart value value' servers servers₁ servers₂ config config' open_db open_db' a a' d d' db
        log db' log' answers listens e e' =
      let p = profile_of qt value in
      let q = profile_of qt value' in
      let (got, its_db, its_log) : RunsIf os p servers (running d servers₁ db log) =
        subst (RunsIf os p servers) e (run_main-RunsIf value servers config open_db a) in
      let (got', its_db', its_log') : RunsIf os q servers₁ (running d' servers₂ db' log') =
        subst (RunsIf os q servers₁) e' (run_main-RunsIf value' servers₁ config' open_db' a') in
      let apart : p ≢ q = λ same. never (
        sym (locked_twice os p servers servers₁ answers listens got)
        ∙ ap (λ r. acquire_single_instance_lock os r servers₁) same
        ∙ got') in
      (
        λ h. apart (db_filename_inj p q (sym its_db ∙ h ∙ its_db')),
        λ h. apart (log_file_inj p q (sym its_log ∙ h ∙ its_log')),
      )
    where
      never : {ns : S} → none ≡ some ns → ⊥
      never h = cc
