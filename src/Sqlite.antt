-- ===== src/Sqlite.antt =====
-- crates/kunkka-core/src/capability/sqlite.rs: the `sqlite` capability, with one connection pool for each
-- app. sqlx, SQLite, postcard and the making of directories are the parameter `SqliteHost`, whose answers
-- may depend on all that was done before. `HashMap` is a map by key, since no order of it is read.
pub mod Isolation
pub mod Paths
use kunkka.Base.{
  ℕ, zero, suc, ◌+◌, String, ◌<>◌, ◌==◌, Bool, true, false, not, ◌&&◌, ◌||◌, Option, none, some,
  List, [], ◌∷◌, is_empty, map, if◌then◌else◌,
}
use kunkka.Base.Map
use kunkka.Base.Map.{Map}
use kunkka.Base.Text.Trim.{is_empty_text}
use kunkka.Base.Text.Decimal.{decimal}
use kunkka.Base.Fallible.{Result, ok, err, ◌>>=◌, ◌>>◌, ok_or, map_err}
use kunkka.Ipc.{Bytes, Postcard}
use kunkka.Manifest.{AppManifest}
use kunkka.Permissions.Paths.{
  Component, root_dir, cur_dir, parent_dir, normal, path_components, is_absolute, ends_with_slash,
}
use kunkka.Shell.{ℤ}
use kunkka.Shell.Pipeline.{CapabilityError}
use kunkka.Files.{capability_error, encode_result}

-- `f64` is the type `F`.
pub data SqliteValue (F : Type 0) : Type 0 where
  null : SqliteValue F
  integer : ℤ → SqliteValue F
  real : F → SqliteValue F
  text : String → SqliteValue F
  blob : Bytes → SqliteValue F

pub record SqliteOpenParams : Type 0 where
  pub path : Option String

pub record SqliteQueryParams : Type 0 where
  pub sql : String
  pub params : List Bytes

pub record SqliteExecuteParams : Type 0 where
  pub sql : String
  pub params : List Bytes

pub data SqliteResponse : Type 0 where
  opened : (path : String) → SqliteResponse
  queried : (columns : List String) (rows : List (List (Option Bytes))) → SqliteResponse
  executed : (rows_affected : ℕ) → SqliteResponse
  closed : SqliteResponse

-- What is asked of a pool `P`; the bound values are those of the request.
pub data SqlEvent (P F : Type 0) : Type 0 where
  create_dir connect : (path : String) → SqlEvent P F
  pragma : P → (sql : String) → SqlEvent P F
  fetch_all execute : P → (sql : String) → List (SqliteValue F) → SqlEvent P F
  close_pool : P → SqlEvent P F

-- A cell of a row: the name of its type, and what `get` reads at each type that the source asks for.
pub record RawCell (F : Type 0) : Type 0 where
  pub type_name : String
  pub as_integer : Option ℤ
  pub as_real : Option F
  pub as_text : Option String
  pub as_blob : Option Bytes

pub record Row (F : Type 0) : Type 0 where
  pub columns : List String
  pub cells : List (RawCell F)

pub record SqliteHost : Type 1 where
  pub Pool : Type 0
  pub F64 : Type 0
  pub open_params : Postcard SqliteOpenParams
  pub query_params : Postcard SqliteQueryParams
  pub execute_params : Postcard SqliteExecuteParams
  pub close_params : Postcard (Unit {0})
  pub value : Postcard (SqliteValue F64)
  pub response : Postcard SqliteResponse
  pub encode_i64 : ℤ → Result String Bytes
  pub encode_f64 : F64 → Result String Bytes
  pub encode_text : String → Result String Bytes
  pub create_parent : List (SqlEvent Pool F64) → String → Result String (Unit {0})
  pub connect : List (SqlEvent Pool F64) → (url : String) → Result String Pool
  pub pragma : List (SqlEvent Pool F64) → Pool → String → Result String (Unit {0})
  pub fetch_all :
      List (SqlEvent Pool F64)
      → Pool
      → String
      → List (SqliteValue F64)
      → Result String (List (Row F64))
  pub execute : List (SqlEvent Pool F64) → Pool → String → List (SqliteValue F64) → Result String ℕ

-- `Path::join`
unfoldable pub join : (base path : String) → String
join base path =
    if is_absolute path
    then path
    else if is_empty_text base || ends_with_slash base
    then base <> path
    else base <> "/" <> path

abbrev same_component : Component → Component → Bool
same_component root_dir root_dir = true
same_component cur_dir cur_dir = true
same_component parent_dir parent_dir = true
same_component (normal a) (normal b) = a == b
same_component _ _ = false

unfoldable pub is_prefix : List Component → List Component → Bool
is_prefix [] cs = true
is_prefix (d ∷ ds) [] = false
is_prefix (d ∷ ds) (c ∷ cs) = let rest = is_prefix ds cs in same_component d c && rest

-- `Path::starts_with`, which compares components and resolves none.
unfoldable pub path_starts_with : (path base : String) → Bool
unfolding is_prefix
path_starts_with path base = is_prefix (path_components base) (path_components path)

abbrev pub app_dir : (data_dir app_id : String) → String
app_dir data_dir app_id = join (join data_dir "app-data") app_id

unfoldable pub app_db_path : (data_dir app_id db_name : String) → String
app_db_path data_dir app_id db_name = join (app_dir data_dir app_id) db_name

-- `decode_param_values`
module _ {F : Type 0} (codec : Postcard (SqliteValue F)) where
  unfoldable pub decode_from : (i : ℕ) → List Bytes → Result CapabilityError (List (SqliteValue F))
  decode_from i [] = ok []
  decode_from i (bytes ∷ rest) = do
    value ←
        map_err
          (λ e.
            capability_error "invalid_params" ("invalid param at index " <> decimal i <> ": " <> e))
          (codec.from_bytes bytes)
    values ← decode_from (suc i) rest
    ok (value ∷ values)

abbrev pub pragmas : List (String × String)
pragmas =
    ("PRAGMA journal_mode=WAL", "failed to set WAL mode: ")
    ∷ ("PRAGMA synchronous=FULL", "failed to set synchronous mode: ")
    ∷ ("PRAGMA foreign_keys=ON", "failed to enable foreign keys: ")
    ∷ []

module _ (h : SqliteHost) where
  abbrev pub Log : Type 0
  Log = List (SqlEvent h.Pool h.F64)

  -- `SqliteConnectionStore`, with all that was asked of SQLite, the latest first.
  pub record SqliteConnectionStore : Type 0 where
    pub connections : Map h.Pool
    pub log : Log

  abbrev invalid_params : String → CapabilityError
  invalid_params e = capability_error "invalid_params" ("invalid params: " <> e)

  -- `postcard::to_stdvec(&v).unwrap_or_default()`
  abbrev or_default : Result String Bytes → Bytes
  or_default (ok bytes) = bytes
  or_default (err e) = []

  abbrev encoded : {A : Type 0} → (A → Result String Bytes) → Option A → Option Bytes
  encoded encode none = none
  encoded encode (some a) = some (or_default (encode a))

  unfoldable pub encode_cell_value : RawCell h.F64 → Option Bytes
  encode_cell_value cell =
      if cell.type_name == "NULL"
      then none
      else if cell.type_name == "INTEGER"
      then encoded h.encode_i64 cell.as_integer
      else if cell.type_name == "REAL"
      then encoded h.encode_f64 cell.as_real
      else if cell.type_name == "TEXT"
      then encoded h.encode_text cell.as_text
      else if cell.type_name == "BLOB"
      then cell.as_blob
      else encoded h.encode_text cell.as_text

  abbrev pub result_row : Row h.F64 → List (Option Bytes)
  result_row row = map encode_cell_value row.cells

  -- The columns are those of the first row.
  unfoldable pub read_rows : List (Row h.F64) → List String × List (List (Option Bytes))
  unfolding encode_cell_value
  read_rows [] = ([], [])
  read_rows (row ∷ rows) = (row.columns, map result_row (row ∷ rows))

  abbrev connection_error : String → CapabilityError
  connection_error message = capability_error "connection_error" message

  unfoldable pub set_pragmas :
      h.Pool → List (String × String) → Log → Result CapabilityError h.Pool × Log
  set_pragmas pool [] log = (ok pool, log)
  set_pragmas pool ((sql, failure) ∷ rest) log = elim (h.pragma log pool sql) [
    | err e ↦ (err (connection_error (failure <> e)), pragma pool sql ∷ log)
    | ok _ ↦ set_pragmas pool rest (pragma pool sql ∷ log)
  ]

  unfoldable pub open_connection : (db_path : String) → Log → Result CapabilityError h.Pool × Log
  unfolding set_pragmas
  open_connection db_path log = elim (h.connect log ("sqlite:" <> db_path <> "?mode=rwc")) [
    | err e ↦ (err (connection_error ("failed to open database: " <> e)), connect db_path ∷ log)
    | ok pool ↦ set_pragmas pool pragmas (connect db_path ∷ log)
  ]

  -- `ensure_db_dir(&db_path)?` before `open_connection`.
  unfoldable pub open_in_dir : (db_path : String) → Log → Result CapabilityError h.Pool × Log
  unfolding open_connection
  open_in_dir db_path log = elim (h.create_parent log db_path) [
    | err e ↦ (
      err (capability_error "io_error" ("failed to create database directory: " <> e)),
      create_dir db_path ∷ log,
    )
    | ok _ ↦ open_connection db_path (create_dir db_path ∷ log)
  ]

  abbrev pub Answer : Type 0
  Answer = Result CapabilityError Bytes × SqliteConnectionStore

  abbrev pub finish_open :
      (app_id db_path : String)
      → Result CapabilityError h.Pool × Log
      → SqliteConnectionStore
      → Answer
  finish_open app_id db_path (err e, log) store = (err e, record store { log = log })
  finish_open app_id db_path (ok pool, log) store = (
    encode_result h.response (opened db_path),
    record { connections = Map.insert app_id pool store.connections; log = log },
  )

  abbrev pub or_app_db : Option String → String
  or_app_db none = "app.db"
  or_app_db (some path) = path

  unfoldable pub open_path : (app_id app_data_dir db_path : String) → SqliteConnectionStore → Answer
  unfolding path_starts_with open_in_dir
  open_path app_id app_data_dir db_path store =
      if not (path_starts_with db_path app_data_dir)
      then (
        err (
            capability_error "permission_denied" "database path must be within app-data directory"),
        store,
      )
      else finish_open app_id db_path (open_in_dir db_path store.log) store

  unfoldable pub handle_open :
      AppManifest → (data_dir : String) → SqliteOpenParams → SqliteConnectionStore → Answer
  unfolding open_path app_db_path
  handle_open manifest data_dir p store =
      open_path manifest.app_id (app_dir data_dir manifest.app_id)
        (app_db_path data_dir manifest.app_id (or_app_db p.path)) store

  abbrev not_open : CapabilityError
  not_open = capability_error "not_open" "database is not open; call 'open' first"

  -- The pool of the app and the values, or the first failure.
  unfoldable pub prepared :
      (app_id : String)
      → List Bytes
      → SqliteConnectionStore
      → Result CapabilityError (h.Pool × List (SqliteValue h.F64))
  unfolding decode_from
  prepared app_id params store = do
    pool ← ok_or (Map.get app_id store.connections) not_open
    values ← decode_from h.value 0 params
    ok (pool, values)

  abbrev pub run_query :
      (sql : String)
      → Result CapabilityError (h.Pool × List (SqliteValue h.F64))
      → SqliteConnectionStore
      → Answer
  run_query sql (err e) store = (err e, store)
  run_query sql (ok (pool, values)) store = (
    (map_err (λ e. capability_error "query_error" ("query failed: " <> e))
          (h.fetch_all store.log pool sql values)
        >>= λ rows. encode_result h.response (queried ((read_rows rows).0) ((read_rows rows).1))),
    record store { log = fetch_all pool sql values ∷ store.log },
  )

  abbrev pub run_execute :
      (sql : String)
      → Result CapabilityError (h.Pool × List (SqliteValue h.F64))
      → SqliteConnectionStore
      → Answer
  run_execute sql (err e) store = (err e, store)
  run_execute sql (ok (pool, values)) store = (
    (map_err (λ e. capability_error "execute_error" ("execute failed: " <> e))
          (h.execute store.log pool sql values)
        >>= λ rows_affected. encode_result h.response (executed rows_affected)),
    record store { log = execute pool sql values ∷ store.log },
  )

  unfoldable pub handle_query : AppManifest → SqliteQueryParams → SqliteConnectionStore → Answer
  unfolding prepared read_rows
  handle_query manifest p store = run_query p.sql (prepared manifest.app_id p.params store) store

  unfoldable pub handle_execute : AppManifest → SqliteExecuteParams → SqliteConnectionStore → Answer
  unfolding prepared
  handle_execute manifest p store =
      run_execute p.sql (prepared manifest.app_id p.params store) store

  abbrev pub close_found :
      (app_id : String) → Option h.Pool → SqliteConnectionStore → SqliteConnectionStore
  close_found app_id none store = store
  close_found app_id (some pool) store = record {
    connections = Map.remove app_id store.connections;
    log = close_pool pool ∷ store.log;
  }

  unfoldable pub handle_close : AppManifest → SqliteConnectionStore → Answer
  handle_close manifest store = (
    encode_result h.response closed,
    close_found manifest.app_id (Map.get manifest.app_id store.connections) store,
  )

  -- `postcard::from_bytes(params)?` before the rest of an arm.
  abbrev pub with_params :
      {A : Type 0}
      → Result String A
      → (A → SqliteConnectionStore → Answer)
      → SqliteConnectionStore
      → Answer
  with_params (err e) handle store = (err (invalid_params e), store)
  with_params (ok p) handle store = handle p store

  unfoldable pub handle_sqlite_request :
      AppManifest
      → (method : String) (params : Bytes) (data_dir : String) → SqliteConnectionStore
      → Answer
  unfolding handle_open handle_query handle_execute handle_close
  handle_sqlite_request manifest method params data_dir store =
      if method == "open"
      then with_params (h.open_params.from_bytes params) (handle_open manifest data_dir) store
      else if method == "query"
      then with_params (h.query_params.from_bytes params) (handle_query manifest) store
      else if method == "execute"
      then with_params (h.execute_params.from_bytes params) (handle_execute manifest) store
      else if method == "close"
      then with_params (h.close_params.from_bytes params) (λ _. handle_close manifest) store
      else (err (capability_error "unknown_method" ("unknown sqlite method: " <> method)), store)
