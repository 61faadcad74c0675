-- ===== src/Sqlite/Paths.antt =====
-- What the check of `open` against the app's directory lets through.
use Prim.Native.Char.{Char, code}
use Prim.Native.String.{[] as nil, ◌∷◌ as cons}
use Prim.Native.String.append
use text.Mathlib.TextPositions.{eq_refl}
use kunkka.Base.{
  String, ◌<>◌, ◌==◌, ◌≡◌, refl, sym, ap, ◌∙◌, inl, inr, true, false, ◌||◌, List, [], ◌∷◌, ◌++◌,
  nat_eq, Bool-cases,
}
use kunkka.Base.Text.Trim.{is_empty_text, starts_with_char}
use kunkka.Base.Text.Split.{split_on}
use kunkka.Permissions.Paths.{
  Component, root_dir, cur_dir, parent_dir, normal, inner_components, path_components, is_absolute,
  ends_with_slash,
}
use kunkka.Permissions.Paths.Segments.{slash, slash_first}
use kunkka.Sqlite.{is_prefix, path_starts_with, join, app_dir, app_db_path}

split_cons :
    (c : Char) (s : String) (x : String) (xs : List String)
    → split_on b'/' s ≡ x ∷ xs
    → nat_eq (code c) b'/' ≡ false
    → split_on b'/' (cons c s) ≡ cons c x ∷ xs
unfolding split_on
split_cons c s x xs e other = rw (other, e, split_on) refl

split_full : (s : String) → (x : String) × (xs : List String) × (split_on b'/' s ≡ x ∷ xs)
unfolding split_on
split_full nil = ("", [], refl)
split_full (cons c s) = elim (Bool-cases (nat_eq (code c) b'/')) [
  | inl separator ↦ ("", split_on b'/' s, rw (separator, split_on) refl)
  | inr other ↦ let (x, xs, e) = split_full s in (cons c x, xs, split_cons c s x xs e other)
]

split_on-append :
    (s t : String) → split_on b'/' (s <> cons slash t) ≡ split_on b'/' s ++ split_on b'/' t
unfolding split_on
split_on-append nil t = rw (append.nil (cons slash t)) refl
split_on-append (cons c s) t =
    ap (split_on b'/') (append.cons c s (cons slash t))
    ∙ (elim (Bool-cases (nat_eq (code c) b'/')) [
      | inl separator ↦ rw (separator, split_on) (ap (λ l. "" ∷ l) (split_on-append s t))
      | inr other ↦
          let (x, xs, e) = split_full s in
          split_cons c (s <> cons slash t) x (xs ++ split_on b'/' t)
            (split_on-append s t ∙ ap (λ l. l ++ split_on b'/' t) e) other
          ∙ ap (λ l. l ++ split_on b'/' t) (sym (split_cons c s x xs e other))
    ])

inner_components-append :
    (xs ys : List String) → inner_components (xs ++ ys) ≡ inner_components xs ++ inner_components ys
unfolding inner_components
inner_components-append [] ys = refl
inner_components-append (x ∷ xs) ys = elim (Bool-cases (is_empty_text x || x == ".")) [
  | inl skipped ↦ rw (skipped, inner_components) (inner_components-append xs ys)
  | inr kept ↦ elim (Bool-cases (x == "..")) [
    | inl up ↦
        rw (kept, up, inner_components) (ap (λ t. parent_dir ∷ t) (inner_components-append xs ys))
    | inr down ↦
        rw (kept, down, inner_components) (ap (λ t. normal x ∷ t) (inner_components-append xs ys))
  ]
]

is_prefix-append : (ds es : List Component) → is_prefix ds (ds ++ es) ≡ true
unfolding is_prefix
is_prefix-append [] es = refl
is_prefix-append (root_dir ∷ ds) es = is_prefix-append ds es
is_prefix-append (cur_dir ∷ ds) es = is_prefix-append ds es
is_prefix-append (parent_dir ∷ ds) es = is_prefix-append ds es
is_prefix-append (normal c ∷ ds) es = rw (eq_refl c) (is_prefix-append ds es)

absolute_append : (base t : String) → is_absolute base ≡ true → is_absolute (base <> t) ≡ true
unfolding starts_with_char
absolute_append nil t h = cc
absolute_append (cons c base) t h = rw (append.cons c base t) h

path_components-append :
    (base name : String)
    → is_absolute base ≡ true
    → path_components (base <> cons slash name)
      ≡ path_components base ++ inner_components (split_on b'/' name)
unfolding path_components
path_components-append base name absolute =
    rw
      (
        absolute,
        absolute_append base (cons slash name) absolute,
        split_on-append base name,
        inner_components-append (split_on b'/' base) (split_on b'/' name),
      )
      refl

absolute_full : (base : String) → is_absolute base ≡ true → is_empty_text base ≡ false
unfolding starts_with_char
absolute_full nil h = cc
absolute_full (cons c base) h = refl

join-starts_with :
    (base name : String)
    → is_absolute base ≡ true
    → ends_with_slash base ≡ false
    → is_absolute name ≡ false
    → path_starts_with (join base name) base ≡ true
unfolding path_starts_with join
join-starts_with base name absolute no_slash relative =
    rw
      (
        relative,
        no_slash,
        absolute_full base absolute,
        slash_first name,
        path_components-append base name absolute,
      )
      (is_prefix-append (path_components base) (inner_components (split_on b'/' name)))

-- For an app directory that is an absolute path without a slash at its end, the check of `open` lets every relative name through, with as many `..` as it likes: it compares the parts of the path as they are written and resolves none.
pub app_db_path-starts_with :
    (data_dir app_id db_name : String)
    → is_absolute (app_dir data_dir app_id) ≡ true
    → ends_with_slash (app_dir data_dir app_id) ≡ false
    → is_absolute db_name ≡ false
    → path_starts_with (app_db_path data_dir app_id db_name) (app_dir data_dir app_id) ≡ true
unfolding path_starts_with app_db_path
app_db_path-starts_with data_dir app_id db_name absolute no_slash relative =
    join-starts_with (app_dir data_dir app_id) db_name absolute no_slash relative
