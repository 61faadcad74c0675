-- ===== src/Manifest/WellFormed.antt =====
-- Which manifests `validate` accepts.
use mathlib.Core.List.{Memᴰ}
use kunkka.Base.{
  String, ◌<>◌, ◌≡◌, refl, ◌↔◌, ◌⊎◌, inl, inr, contains_iff, Bool, true, false, not, Option, none,
  some, List, [], ◌∷◌, arith, eq_iff, contains, All, Bool-cases,
}
use Prim.Native.Char.{code}
use Prim.Native.String.{[] as nil, ◌∷◌ as cons}
use kunkka.Base.Text.Trim.{
  trim, trim_start, trim_end, is_whitespace, is_empty_text, starts_with_char,
}
use kunkka.Base.Fallible.{ok, err, ◌>>◌}
use kunkka.Manifest.{AppManifest, ShellCapabilityConfig}
use kunkka.Manifest.Validate.{
  Check, for_each, for_config, fail_when, is_blank, check_method, check_fs_path, check_fs,
  check_allow, check_ask, check_not_asked, check_shell, check_domain, check_http, check_role,
  check_llm, validate,
}

-- The text has a character that is no white space.
abbrev pub HasText : String → Type 0
HasText nil = ⊥
HasText (cons c s) = (is_whitespace (code c) ≡ false) ⊎ HasText s

trim_end_iff : (s : String) → (is_empty_text (trim_end s) ≡ false) ↔ HasText s
unfolding trim_end
trim_end_iff nil = (λ h. cc, λ h. absurd h)
trim_end_iff (cons c s) = ground (arith, trim_end_iff s)

trim_start_iff : (s : String) → HasText (trim_start s) ↔ HasText s
unfolding trim_start
trim_start_iff nil = (λ h. h, λ h. h)
trim_start_iff (cons c s) = elim (Bool-cases (is_whitespace (code c))) [
  | inl space ↦
      let (to, from) = trim_start_iff s in rw space ((λ h. inr (to h)), (λ h. from (ground arith)))
  | inr other ↦ (λ h. inl other, λ h. rw other (inl other))
]

is_blank_iff : (s : String) → (is_blank s ≡ false) ↔ HasText s
unfolding trim
is_blank_iff s =
    let (a, b) = trim_end_iff (trim_start s) in
    let (c, d) = trim_start_iff s in (λ h. c (a h), λ h. b (d h))

then_iff :
    {P Q : Type 0} (m k : Check) → (m ≡ ok tt) ↔ P → (k ≡ ok tt) ↔ Q → ((m >> k) ≡ ok tt) ↔ (P × Q)
then_iff (ok tt) k p q = (λ h. (p.0 refl, q.0 h), λ (a, b). q.1 b)
then_iff (err e) k p q = (λ h. cc, λ (a, b). absurd_ok (p.1 a))
  where
    absurd_ok : err e ≡ ok tt → err e ≡ ok tt
    absurd_ok h = h

fail_when_iff :
    (bad : Bool) (path what : String) → (fail_when bad path what ≡ ok tt) ↔ (bad ≡ false)
fail_when_iff true path what = (λ h. cc, λ h. cc)
fail_when_iff false path what = (λ h. refl, λ h. refl)

for_each_iff :
    (check : String → Check) (P : String → Type 0) (xs : List String)
    → ((x : String) → (check x ≡ ok tt) ↔ P x)
    → (for_each check xs ≡ ok tt) ↔ All P xs
unfolding for_each
for_each_iff check P [] each = (λ h. tt, λ h. refl)
for_each_iff check P (x ∷ xs) each =
    then_iff (check x) (for_each check xs) (each x) (for_each_iff check P xs each)

-- A section that is absent asks nothing.
abbrev pub OnSome : {A : Type 0} → (A → Type 0) → Option A → Type 0
OnSome P none = Unit
OnSome P (some a) = P a

-- A command may be run at once or after an approval, and never both.
pub record ShellIsWellFormed (c : ShellCapabilityConfig) : Type 0 where
  pub allow : All HasText c.allow
  pub ask : All HasText c.ask
  pub disjoint : All (λ command. ¬ Memᴰ command c.ask) c.allow

pub record IsWellFormed (m : AppManifest) : Type 0 where
  pub app_id : HasText m.app_id
  pub program : HasText m.worker.program
  pub methods : All HasText m.permissions.frontend_dispatch.allowed_methods
  pub fs :
      OnSome
        (λ c. All (λ p. HasText p × (starts_with_char b'/' p ≡ true)) c.paths)
        m.capabilities.fs
  pub shell : OnSome ShellIsWellFormed m.capabilities.shell
  pub http : OnSome (λ c. All (λ d. HasText d × (trim d ≡ d)) c.domains) m.capabilities.http
  pub llm : OnSome (λ c. All HasText c.roles) m.capabilities.llm

HasText-iff : (s path what : String) → (fail_when (is_blank s) path what ≡ ok tt) ↔ HasText s
HasText-iff s path what =
    let (a, b) = fail_when_iff (is_blank s) path what in
    let (c, d) = is_blank_iff s in (λ h. c (a h), λ h. b (d h))

for_config_iff :
    {A : Type 0} (check : A → Check) (P : A → Type 0) (o : Option A)
    → ((a : A) → (check a ≡ ok tt) ↔ P a)
    → (for_config check o ≡ ok tt) ↔ OnSome P o
for_config_iff check P none each = (λ h. tt, λ h. refl)
for_config_iff check P (some a) each = each a

check_fs_path_iff :
    (path p : String)
    → (check_fs_path path p ≡ ok tt) ↔ (HasText p × (starts_with_char b'/' p ≡ true))
check_fs_path_iff path p = then_iff _ _ (HasText-iff p path _) (
    ground (
      arith,
      fail_when_iff (not (starts_with_char b'/' p)) path
          (": capabilities.fs.paths contains non-absolute path: " <> p),
    ))

check_domain_iff : (path d : String) → (check_domain path d ≡ ok tt) ↔ (HasText d × (trim d ≡ d))
check_domain_iff path d = then_iff _ _ (HasText-iff d path _) (ground (arith, eq_iff d (trim d)))

not_asked_iff :
    (path : String) (ask : List String) (c : String)
    → (check_not_asked path ask c ≡ ok tt) ↔ (¬ Memᴰ c ask)
not_asked_iff path ask c =
    let (to, from) = contains_iff ask c in
    (
      λ h m. ground (arith, from m),
      λ unasked. (elim (Bool-cases (contains ask c)) [
        | inl asked ↦ absurd (unasked (to asked))
        | inr e ↦ rw e
      ]),
    )

check_shell_iff :
    (path : String) (c : ShellCapabilityConfig) → (check_shell path c ≡ ok tt) ↔ ShellIsWellFormed c
check_shell_iff path c =
    let (to, from) =
      then_iff _ _ (for_each_iff (check_allow path) HasText c.allow (λ x. HasText-iff x path _)) (
        then_iff _ _ (for_each_iff (check_ask path) HasText c.ask (λ x. HasText-iff x path _)) (
          for_each_iff (check_not_asked path c.ask) (λ x. ¬ Memᴰ x c.ask) c.allow
            (not_asked_iff path c.ask))) in
    (
      λ h. let (a, (b, d)) = to h in record { allow = a; ask = b; disjoint = d },
      λ w. from (w.allow, (w.ask, w.disjoint)),
    )

-- `validate` accepts a manifest exactly when it is well formed.
pub validate-eq-ok_iff :
    (m : AppManifest) (path : String) → (validate m path ≡ ok tt) ↔ IsWellFormed m
unfolding validate
validate-eq-ok_iff m path =
    let (to, from) = then_iff _ _ (HasText-iff m.app_id path _) (
      then_iff _ _ (HasText-iff m.worker.program path _) (
        then_iff _ _
          (for_each_iff (check_method path) HasText m.permissions.frontend_dispatch.allowed_methods
            (λ x. HasText-iff x path _))
          (then_iff _ _
            (for_config_iff (check_fs path) _ m.capabilities.fs
              (λ c. for_each_iff (check_fs_path path) _ c.paths (check_fs_path_iff path)))
            (then_iff _ _
              (for_config_iff (check_shell path) ShellIsWellFormed m.capabilities.shell
                (check_shell_iff path))
              (then_iff _ _
                (for_config_iff (check_http path) _ m.capabilities.http
                  (λ c. for_each_iff (check_domain path) _ c.domains (check_domain_iff path)))
                (for_config_iff (check_llm path) _ m.capabilities.llm (λ c.
                  for_each_iff (check_role path) HasText c.roles
                    (λ x. HasText-iff x path _)))))))) in
    (
      λ h.
          let (a, (b, (c, (d, (e, (f, g)))))) = to h in
          record { app_id = a; program = b; methods = c; fs = d; shell = e; http = f; llm = g },
      λ w. from (w.app_id, (w.program, (w.methods, (w.fs, (w.shell, (w.http, w.llm)))))),
    )
