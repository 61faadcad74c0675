-- ===== src/Tests/Databases.antt =====
-- Tests of crates/kunkka-core/src/capability/sqlite.rs.
use kunkka.Base.{ℕ, String, ◌≡◌, ◌≢◌, refl, true, some, [], ◌∷◌, arith, eq_iff}
use kunkka.Base.Map
use kunkka.Base.Text.Trim.{starts_with_char}
use kunkka.Base.Fallible.{Result, ok}
use kunkka.Ipc.{Bytes, Postcard}
use kunkka.Permissions.Paths.{ends_with_slash}
use kunkka.Sqlite.{
  SqliteHost, SqliteConnectionStore, SqliteValue, handle_sqlite_request, app_db_path, app_dir, join,
  path_starts_with, closed,
}
use kunkka.Sqlite.Isolation.{OwnLog, handle_sqlite_request-OwnLog}
use kunkka.Sqlite.Paths.{app_db_path-starts_with}
use kunkka.Tests.Samples.{notes}

abbrev written : {A : Type 0} → A → Result String Bytes
written a = ok (1 ∷ [])

abbrev codec : {A : Type 0} → A → Postcard A
codec value = record { to_stdvec = λ v. ok (1 ∷ []); from_bytes = λ bytes. ok value }

abbrev databases : SqliteHost
databases = record {
  Pool = String;
  F64 = ℕ;
  open_params = codec (record { path = some "../mail/app.db" });
  query_params = codec (record { sql = "SELECT 1"; params = [] });
  execute_params = codec (record { sql = "DELETE FROM notes"; params = [] });
  close_params = codec tt;
  value = codec SqliteValue.null;
  response = codec closed;
  encode_i64 = written;
  encode_f64 = written;
  encode_text = written;
  create_parent = λ log path. ok tt;
  connect = λ log url. ok url;
  pragma = λ log pool sql. ok tt;
  fetch_all = λ log pool sql values. ok [];
  execute = λ log pool sql values. ok 1;
}

abbrev store : SqliteConnectionStore databases
store = record { connections = ("mail", "mail.db") ∷ ("notes", "notes.db") ∷ []; log = [] }

mail-ne : "mail" ≢ notes.app_id
mail-ne e = ground (arith, eq_iff "mail" "notes", e)

handle_sqlite_request-OwnLog_example :
    (Map.get "mail" ((handle_sqlite_request databases notes "close" [] "/data" store).1.connections)
      ≡ some "mail.db")
    × OwnLog databases notes "/data" store
        ((handle_sqlite_request databases notes "close" [] "/data" store).1.log)
unfolding Map.get
handle_sqlite_request-OwnLog_example =
    handle_sqlite_request-OwnLog databases notes "/data" "mail" mail-ne store "close" []

-- The database of another app.
other_database :
    app_db_path "/data" "notes" "../mail/app.db" ≡ "/data/app-data/notes/../mail/app.db"
unfolding app_db_path join starts_with_char ends_with_slash
other_database = refl

app_db_path-starts_with_example :
    path_starts_with (app_db_path "/data" "notes" "../mail/app.db") (app_dir "/data" "notes") ≡ true
unfolding join starts_with_char ends_with_slash
app_db_path-starts_with_example =
    app_db_path-starts_with "/data" "notes" "../mail/app.db" refl refl refl
