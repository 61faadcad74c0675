-- ===== src/Sqlite/Isolation.antt =====
-- What the requests of one app do to the databases of another.
use kunkka.Base.{
  String, ◌<>◌, ◌==◌, ◌≡◌, ◌≢◌, refl, sym, ap, ◌∙◌, inl, inr, true, Option, none, some, List, [],
  ◌∷◌, Bool-cases, Option-cases, eq-false_of_ne, if◌then◌else◌,
}
use kunkka.Base.Map
use kunkka.Base.Map.{get-insert, get-remove}
use kunkka.Base.Fallible.{Result, ok, err, >>=-eq-ok, Result-cases}
use kunkka.Ipc.{Bytes}
use kunkka.Manifest.{AppManifest}
use kunkka.Shell.Pipeline.{CapabilityError}
use kunkka.Sqlite.{
  SqliteHost, SqliteConnectionStore, SqlEvent, SqliteValue, create_dir, connect, pragma, fetch_all,
  execute, close_pool, Log, Answer, app_dir, path_starts_with, set_pragmas, pragmas,
  open_connection, open_in_dir, finish_open, open_path, handle_open, prepared, decode_from,
  not_open, run_query, run_execute, handle_query, handle_execute, close_found, handle_close,
  with_params, handle_sqlite_request,
}

err_ok :
    {A : Type 0} {e : CapabilityError} {a : A} → Path (Result CapabilityError A) (err e) (ok a) → ⊥
err_ok h = cc

pool_of :
    {P Q : Type 0} {p p1 : P} {q q1 : Q}
    → Path (Result CapabilityError (P × Q)) (ok (p, q)) (ok (p1, q1))
    → p ≡ p1
pool_of h = cc

module _ (h : SqliteHost) (manifest : AppManifest) (data_dir : String) where
  -- What an app may ask of SQLite: to open a path that passes the check against the app's directory, and
  -- to use the pool that is stored for the app.
  pub data IsOwn (store : SqliteConnectionStore h) : SqlEvent h.Pool h.F64 → Type 0 where
    own_dir :
        (path : String)
        → path_starts_with path (app_dir data_dir manifest.app_id) ≡ true
        → IsOwn store (create_dir path)
    own_connect :
        (path : String)
        → path_starts_with path (app_dir data_dir manifest.app_id) ≡ true
        → IsOwn store (connect path)
    own_pragma : (pool : h.Pool) (sql : String) → IsOwn store (pragma pool sql)
    own_query :
        (pool : h.Pool) (sql : String) (values : List (SqliteValue h.F64))
        → Map.get manifest.app_id store.connections ≡ some pool
        → IsOwn store (fetch_all pool sql values)
    own_execute :
        (pool : h.Pool) (sql : String) (values : List (SqliteValue h.F64))
        → Map.get manifest.app_id store.connections ≡ some pool
        → IsOwn store (execute pool sql values)
    own_close :
        (pool : h.Pool)
        → Map.get manifest.app_id store.connections ≡ some pool
        → IsOwn store (close_pool pool)

  -- The log after a request: that before it, and events of the app.
  pub data OwnLog (store : SqliteConnectionStore h) : Log h → Type 0 where
    unchanged : OwnLog store store.log
    one_more :
        (event : SqlEvent h.Pool h.F64) (log : Log h)
        → IsOwn store event
        → OwnLog store log
        → OwnLog store (event ∷ log)

  module _ (other : String) (is_other : other ≢ manifest.app_id)
      (store : SqliteConnectionStore h) where
    Isolated : SqliteConnectionStore h → Type 0
    Isolated later =
        (Map.get other later.connections ≡ Map.get other store.connections) × OwnLog store later.log

    set_pragmas-OwnLog :
        (pool : h.Pool) (list : List (String × String)) (log : Log h)
        → OwnLog store log
        → OwnLog store ((set_pragmas h pool list log).1)
    unfolding set_pragmas
    set_pragmas-OwnLog pool [] log own = own
    set_pragmas-OwnLog pool ((sql, failure) ∷ rest) log own =
        elim (Result-cases (h.pragma log pool sql)) [
          | inl (e, failed) ↦ rw (failed, set_pragmas) (one_more _ log (own_pragma pool sql) own)
          | inr (done, set) ↦
              rw (set, set_pragmas)
                (set_pragmas-OwnLog pool rest _ (one_more _ log (own_pragma pool sql) own))
        ]

    open_connection-OwnLog :
        (path : String) (log : Log h)
        → path_starts_with path (app_dir data_dir manifest.app_id) ≡ true
        → OwnLog store log
        → OwnLog store ((open_connection h path log).1)
    unfolding open_connection
    open_connection-OwnLog path log inside own =
        elim (Result-cases (h.connect log ("sqlite:" <> path <> "?mode=rwc"))) [
          | inl (e, failed) ↦
              rw (failed, open_connection) (one_more _ log (own_connect path inside) own)
          | inr (pool, found) ↦
              rw (found, open_connection)
                (set_pragmas-OwnLog pool pragmas _ (one_more _ log (own_connect path inside) own))
        ]

    open_in_dir-OwnLog :
        (path : String) (log : Log h)
        → path_starts_with path (app_dir data_dir manifest.app_id) ≡ true
        → OwnLog store log
        → OwnLog store ((open_in_dir h path log).1)
    unfolding open_in_dir
    open_in_dir-OwnLog path log inside own = elim (Result-cases (h.create_parent log path)) [
      | inl (e, failed) ↦ rw (failed, open_in_dir) (one_more _ log (own_dir path inside) own)
      | inr (done, made) ↦
          rw (made, open_in_dir)
            (open_connection-OwnLog path _ inside (one_more _ log (own_dir path inside) own))
    ]

    finish_open-Isolated :
        (path : String) (opened : Result CapabilityError h.Pool × Log h)
        → OwnLog store (opened.1)
        → Isolated ((finish_open h manifest.app_id path opened store).1)
    unfolding Isolated
    finish_open-Isolated path (err e, log) own = (refl, own)
    finish_open-Isolated path (ok pool, log) own = (
      get-insert manifest.app_id other pool store.connections
          ∙ ap (λ b. if b then some pool else Map.get other store.connections)
              (eq-false_of_ne manifest.app_id other (λ e. is_other (sym e))),
      own,
    )

    open_path-Isolated :
        (path : String)
        → Isolated ((open_path h manifest.app_id (app_dir data_dir manifest.app_id) path store).1)
    unfolding open_path Isolated
    open_path-Isolated path =
        elim (Bool-cases (path_starts_with path (app_dir data_dir manifest.app_id))) [
          | inl inside ↦
              rw (inside, open_path)
                (finish_open-Isolated path (open_in_dir h path store.log)
                  (open_in_dir-OwnLog path store.log inside unchanged))
          | inr outside ↦ rw (outside, open_path) (refl, unchanged)
        ]

    prepared-pool :
        (params : List Bytes) {pool : h.Pool} {values : List (SqliteValue h.F64)}
        → prepared h manifest.app_id params store ≡ ok (pool, values)
        → Map.get manifest.app_id store.connections ≡ some pool
    unfolding prepared
    prepared-pool params e = elim (Option-cases (Map.get manifest.app_id store.connections)) [
      | inl closed ↦ absurd (err_ok (rw (closed, prepared) at e))
      | inr (found, stored) ↦
          let (values, decoded, made) =
            >>=-eq-ok (decode_from h.value 0 params) (λ values. ok (found, values))
              (rw (stored, prepared) at e) in
          stored ∙ ap some (pool_of made)
    ]

    run_query-Isolated :
        (sql : String) (params : List Bytes)
        (answer : Result CapabilityError (h.Pool × List (SqliteValue h.F64)))
        → prepared h manifest.app_id params store ≡ answer
        → Isolated ((run_query h sql answer store).1)
    unfolding Isolated
    run_query-Isolated sql params (err e) same = (refl, unchanged)
    run_query-Isolated sql params (ok (pool, values)) same = (
      refl,
      one_more _ store.log (own_query pool sql values (prepared-pool params same)) unchanged,
    )

    run_execute-Isolated :
        (sql : String) (params : List Bytes)
        (answer : Result CapabilityError (h.Pool × List (SqliteValue h.F64)))
        → prepared h manifest.app_id params store ≡ answer
        → Isolated ((run_execute h sql answer store).1)
    unfolding Isolated
    run_execute-Isolated sql params (err e) same = (refl, unchanged)
    run_execute-Isolated sql params (ok (pool, values)) same = (
      refl,
      one_more _ store.log (own_execute pool sql values (prepared-pool params same)) unchanged,
    )

    close_found-Isolated :
        (found : Option h.Pool)
        → Map.get manifest.app_id store.connections ≡ found
        → Isolated (close_found h manifest.app_id found store)
    unfolding Isolated
    close_found-Isolated none same = (refl, unchanged)
    close_found-Isolated (some pool) same = (
      get-remove manifest.app_id other store.connections
          ∙ ap (λ b. if b then none else Map.get other store.connections)
              (eq-false_of_ne manifest.app_id other (λ e. is_other (sym e))),
      one_more _ store.log (own_close pool same) unchanged,
    )

    with_params-Isolated :
        {A : Type 0} (decoded : Result String A) (handle : A → SqliteConnectionStore h → Answer h)
        → ((p : A) → Isolated ((handle p store).1))
        → Isolated ((with_params h decoded handle store).1)
    unfolding Isolated
    with_params-Isolated (err e) handle each = (refl, unchanged)
    with_params-Isolated (ok p) handle each = each p

    request-Isolated :
        (method : String) (params : Bytes)
        → Isolated ((handle_sqlite_request h manifest method params data_dir store).1)
    unfolding handle_sqlite_request handle_open handle_query handle_execute handle_close Isolated
    request-Isolated method params = elim (Bool-cases (method == "open")) [
      | inl e ↦
          rw (e, handle_sqlite_request)
            (with_params-Isolated (h.open_params.from_bytes params) _ (λ p. open_path-Isolated _))
      | inr not_open ↦ elim (Bool-cases (method == "query")) [
        | inl e ↦
            rw (not_open, e, handle_sqlite_request)
              (with_params-Isolated (h.query_params.from_bytes params) _
                (λ p. run_query-Isolated p.sql p.params _ refl))
        | inr not_query ↦ elim (Bool-cases (method == "execute")) [
          | inl e ↦
              rw (not_open, not_query, e, handle_sqlite_request)
                (with_params-Isolated (h.execute_params.from_bytes params) _
                  (λ p. run_execute-Isolated p.sql p.params _ refl))
          | inr not_execute ↦ elim (Bool-cases (method == "close")) [
            | inl e ↦
                rw (not_open, not_query, not_execute, e, handle_sqlite_request)
                  (with_params-Isolated (h.close_params.from_bytes params) _
                    (λ p. close_found-Isolated _ refl))
            | inr not_close ↦
                rw (not_open, not_query, not_execute, not_close, handle_sqlite_request)
                  (refl, unchanged)
          ]
        ]
      ]
    ]

  -- A request of one app, with any method and parameters, leaves the pool of every other app as it is, and what it asks of SQLite is the app's own: queries, statements and a close go to the pool that is stored for the app, and a path that is opened has passed the check against the app's directory.
  pub handle_sqlite_request-OwnLog :
      (other : String)
      → other ≢ manifest.app_id
      → (store : SqliteConnectionStore h) (method : String) (params : Bytes)
      → (Map.get other
            ((handle_sqlite_request h manifest method params data_dir store).1.connections)
          ≡ Map.get other store.connections)
        × OwnLog store ((handle_sqlite_request h manifest method params data_dir store).1.log)
  unfolding Isolated
  handle_sqlite_request-OwnLog other is_other store method params =
      request-Isolated other is_other store method params
