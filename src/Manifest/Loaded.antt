-- ===== src/Manifest/Loaded.antt =====
-- What a registry that loads without an error holds.
use kunkka.Base.{
  suc, ◌+◌, String, ◌≡◌, refl, sym, ap, subst, ◌∙◌, inl, inr, Option, none, some, List, [], ◌∷◌,
  arith, ◌==◌, eq_iff, eq_refl, All, length, ◌<>◌, Bool-cases,
}
use kunkka.Base.Map
use kunkka.Base.Map.{Map, get-insert}
use kunkka.Base.Fallible.{Result, ok, ◌>>=◌, ◌>>◌, >>=-eq-ok, map_err}
use kunkka.CoreError.{CoreError, io, manifest_invalid}
use kunkka.Sdk.{AppId}
use kunkka.Manifest.{AppManifest, RawAppManifest, from_raw}
use kunkka.Manifest.Validate.{validate}
use kunkka.Manifest.WellFormed.{IsWellFormed, validate-eq-ok_iff}
use kunkka.Manifest.Loading.{ManifestSource, load_file, insert_new, load_paths}

-- Each manifest stands under its own app id, and is well formed.
abbrev pub IsSound : Map AppManifest → Type 0
IsSound m = (k : AppId) (e : AppManifest) → Map.get k m ≡ some e → (e.app_id ≡ k) × IsWellFormed e

ok_tt : (u : Unit {0}) (r : Result CoreError (Unit {0})) → r ≡ ok u → r ≡ ok tt
ok_tt u r h = h

insert_new-eq-ok :
    (o : Option AppManifest) (e : AppManifest) (path : String) (m next : Map AppManifest)
    → insert_new o e path m ≡ ok next
    → (o ≡ none) × (next ≡ Map.insert e.app_id e m)
unfolding insert_new
insert_new-eq-ok none e path m next h = (refl, cc)
insert_new-eq-ok (some d) e path m next h = cc

-- What `m` holds, `next` holds too.
abbrev Keeps : Map AppManifest → Map AppManifest → Type 0
Keeps m next = (k : AppId) (e : AppManifest) → Map.get k m ≡ some e → Map.get k next ≡ some e

insert-Keeps :
    (e : AppManifest) (m : Map AppManifest)
    → Map.get e.app_id m ≡ none
    → Keeps m (Map.insert e.app_id e m)
insert-Keeps e m fresh k d h = ground (arith, get-insert e.app_id k e m, eq_iff e.app_id k)

insert-IsSound :
    (e : AppManifest) (m : Map AppManifest)
    → IsWellFormed e
    → IsSound m
    → IsSound (Map.insert e.app_id e m)
insert-IsSound e m good sound k d h = elim (Bool-cases (e.app_id == k)) [
  | inl hit ↦
      let same : e ≡ d = ground (arith, get-insert e.app_id k e m) in
      (ap (λ x. x.app_id) (sym same) ∙ (eq_iff e.app_id k).0 hit, subst IsWellFormed same good)
  | inr miss ↦ sound k d (ground (arith, get-insert e.app_id k e m))
]

size-insert :
    (k : AppId) (e : AppManifest) (m : Map AppManifest)
    → Map.get k m ≡ none
    → Map.size (Map.insert k e m) ≡ suc (Map.size m)
unfolding Map.size Map.insert Map.get
size-insert k e [] h = refl
size-insert k e ((j, w) ∷ m) h = ground (arith, size-insert k e m)

module _ (source : ManifestSource) where
  -- The last steps of `load_file`, one from the other.
  abbrev valid_only : AppManifest → String → Result CoreError AppManifest
  valid_only manifest path = validate manifest path >> ok manifest

  abbrev convert_valid : RawAppManifest → String → Result CoreError AppManifest
  convert_valid raw path = from_raw raw path >>= λ manifest. valid_only manifest path

  abbrev parse_valid : String → String → Result CoreError AppManifest
  parse_valid bytes path =
      map_err (λ e. manifest_invalid (path <> ": " <> e)) (source.parse bytes) >>= λ raw.
      convert_valid raw path

  load_file-IsWellFormed :
      (path : String) (m : AppManifest) → load_file source path ≡ ok m → IsWellFormed m
  unfolding load_file
  load_file-IsWellFormed path m h =
      let (bytes, _, h₁) =
        >>=-eq-ok (map_err io (source.read path)) (λ bytes. parse_valid bytes path) h in
      let (raw, _, h₂) =
        >>=-eq-ok (map_err (λ e. manifest_invalid (path <> ": " <> e)) (source.parse bytes))
          (λ raw. convert_valid raw path) h₁ in
      let (manifest, _, h₃) =
        >>=-eq-ok (from_raw raw path) (λ manifest. valid_only manifest path) h₂ in
      let (u, valid, same) = >>=-eq-ok (validate manifest path) (λ _. ok manifest) h₃ in
      let equal : manifest ≡ m = cc in
      subst IsWellFormed equal ((validate-eq-ok_iff manifest path).0 (ok_tt u _ valid))

  -- The file's manifest is in the map, under its app id.
  abbrev pub Holds : Map AppManifest → String → Type 0
  Holds m path = (e : AppManifest) × (load_file source path ≡ ok e) × (Map.get e.app_id m ≡ some e)

  abbrev insert_rest :
      AppManifest → String → List String → Map AppManifest → Result CoreError (Map AppManifest)
  insert_rest e path paths m =
      insert_new (Map.get e.app_id m) e path m >>= λ next. load_paths source paths next

  -- What the loop over the files makes of the map it starts with.
  record Extends (paths : List String) (m final : Map AppManifest) : Type 0 where
    kept : Keeps m final
    sound : IsSound m → IsSound final
    held : All (Holds final) paths
    count : Map.size final ≡ Map.size m + length paths

  load_paths-Extends :
      (paths : List String) (m final : Map AppManifest)
      → load_paths source paths m ≡ ok final
      → Extends paths m final
  unfolding load_paths
  load_paths-Extends [] m final h =
      let same : m ≡ final = cc in
      subst (Extends [] m) same
        (record { kept = λ k e g. g; sound = λ s. s; held = tt; count = omega arith })
  load_paths-Extends (path ∷ paths) m final h =
      let (e, loaded, h₁) = >>=-eq-ok (load_file source path) (λ e. insert_rest e path paths m) h in
      let (next, inserted, h₂) =
        >>=-eq-ok (insert_new (Map.get e.app_id m) e path m) (λ next. load_paths source paths next)
          h₁ in
      let (fresh, grown) = insert_new-eq-ok _ e path m next inserted in
      let rest = load_paths-Extends paths next final h₂ in
      record {
        kept = λ k d g. rest.kept k d (rw grown (insert-Keeps e m fresh k d g));
        sound = λ s.
            rest.sound (rw grown (insert-IsSound e m (load_file-IsWellFormed path e loaded) s));
        held = (
          (
            e,
            loaded,
            rest.kept e.app_id e
                (rw grown (ground (arith, get-insert e.app_id e.app_id e m, eq_refl e.app_id))),
          ),
          rest.held,
        );
        count = omega (arith, rest.count, ap Map.size grown, size-insert e.app_id e m fresh);
      }

  -- Where loading the files in turn succeeds, starting from no manifest, each manifest of the result
  -- is well formed and stands under its own app id; each file's manifest is there; and there are as
  -- many manifests as files, so no two files name the same app.
  pub load_paths_complete :
      (paths : List String) (final : Map AppManifest)
      → load_paths source paths Map.empty ≡ ok final
      → IsSound final × All (Holds final) paths × (Map.size final ≡ length paths)
  unfolding Map.get Map.size
  load_paths_complete paths final h =
      let e = load_paths-Extends paths Map.empty final h in
      (e.sound (λ k d g. cc), e.held, omega (arith, e.count))
