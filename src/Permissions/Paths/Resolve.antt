-- ===== src/Permissions/Paths/Resolve.antt =====
-- What an absolute path names, segment by segment, and that `normalize_path` writes exactly that.
use Prim.Native.String.append
use text.Mathlib.TextLemmas.{append-nil}
use kunkka.Base.{
  String, ◌<>◌, ◌==◌, ◌≡◌, refl, sym, ap, ◌∙◌, inl, inr, true, false, not, ◌&&◌, ◌||◌, List, [],
  ◌∷◌, ◌++◌, All, All-append, Bool-cases, arith, if◌then◌else◌,
}
use kunkka.Base.Text.Trim.{is_empty_text}
use kunkka.Base.Text.Split.{split_on, split_on-Without}
use kunkka.Permissions.Paths.{
  parent_dir, inner_components, path_components, is_absolute, pop, push_component, push_components,
  join_rest, join_slash, ends_with_slash, finish_path, normalize_path,
}
use kunkka.Permissions.Paths.Segments.{NoSlash, IsSegment, IsTail, slash_first}

-- One part of a path, read from the directory that the parts before it name.
abbrev pub step : List String → String → List String
step stack part =
    if is_empty_text part || part == "."
    then stack
    else if part == ".."
    then pop stack
    else stack ++ part ∷ []

abbrev pub walk : List String → List String → List String
walk stack [] = stack
walk stack (part ∷ parts) = walk (step stack part) parts

-- The segments below the root that an absolute path names; `..` at the root stays there.
abbrev pub resolve : String → List String
resolve path = walk [] (split_on b'/' path)

pop_below_root : (stack : List String) → push_component ("" ∷ stack) parent_dir ≡ "" ∷ pop stack
unfolding push_component pop
pop_below_root [] = refl
pop_below_root (x ∷ stack) = ground arith

push_components-walk :
    (stack parts : List String)
    → push_components ("" ∷ stack) (inner_components parts) ≡ "" ∷ walk stack parts
unfolding push_components inner_components push_component
push_components-walk stack [] = refl
push_components-walk stack (part ∷ parts) = elim (Bool-cases (is_empty_text part || part == ".")) [
  | inl skipped ↦ rw (skipped, inner_components) (push_components-walk stack parts)
  | inr kept ↦ elim (Bool-cases (part == "..")) [
    | inl up ↦
        rw (kept, up, inner_components, push_components)
          (ap (λ v. push_components v (inner_components parts)) (pop_below_root stack)
            ∙ push_components-walk (pop stack) parts)
    | inr down ↦
        rw (kept, down, inner_components, push_components)
          (push_components-walk (stack ++ part ∷ []) parts)
  ]
]

pop-All : (stack : List String) → All IsSegment stack → All IsSegment (pop stack)
unfolding pop
pop-All [] h = tt
pop-All (x ∷ []) h = tt
pop-All (x ∷ y ∷ ys) (h, hs) = (h, pop-All (y ∷ ys) hs)

step-All :
    (stack : List String) (part : String)
    → All IsSegment stack
    → NoSlash part
    → All IsSegment (step stack part)
step-All stack part h free = elim (Bool-cases (is_empty_text part || part == ".")) [
  | inl skipped ↦ rw skipped h
  | inr kept ↦ elim (Bool-cases (part == "..")) [
    | inl up ↦ rw (kept, up) (pop-All stack h)
    | inr down ↦
        rw (kept, down)
          (All-append IsSegment stack (part ∷ []) h ((ground (arith, kept), free), tt))
  ]
]

walk-All :
    (stack parts : List String)
    → All IsSegment stack
    → All NoSlash parts
    → All IsSegment (walk stack parts)
walk-All stack [] h k = h
walk-All stack (part ∷ parts) h (free, k) =
    walk-All (step stack part) parts (step-All stack part h free) k

pub resolve-All : (path : String) → All IsSegment (resolve path)
resolve-All path = walk-All [] (split_on b'/' path) tt (split_on-Without b'/' path)

finish_full :
    (path result : String)
    → is_empty_text result ≡ false
    → (t : String) × (finish_path path result ≡ result <> t) × IsTail t
unfolding finish_path
finish_full path result full =
    elim (Bool-cases (ends_with_slash path && not (ends_with_slash result))) [
      | inl slash_added ↦ ("/", rw (full, slash_added, finish_path) refl, inr refl)
      | inr kept ↦ ("", rw (full, kept, finish_path) (sym (append-nil result)), inl refl)
    ]

finish_path-join_rest :
    (path : String) (ds : List String)
    → (t : String) × (finish_path path (join_rest ds) ≡ join_rest ds <> t) × IsTail t
unfolding finish_path join_rest
finish_path-join_rest path [] = ("/", sym (append.nil "/"), inr refl)
finish_path-join_rest path (d ∷ ds) =
    finish_full path (join_rest (d ∷ ds)) (ap is_empty_text (slash_first (d <> join_rest ds)))

-- An absolute path is written as its segments, with a slash behind them where it ends with one.
pub normalize_path-resolve :
    (path : String)
    → is_absolute path ≡ true
    → (t : String) × (normalize_path path ≡ join_rest (resolve path) <> t) × IsTail t
unfolding normalize_path path_components push_components push_component join_slash
normalize_path-resolve path absolute =
    let (t, e, tail) = finish_path-join_rest path (resolve path) in
    (
      t,
      rw (absolute, push_components-walk [] (split_on b'/' path))
          (ap (finish_path path) (append.nil (join_rest (resolve path))) ∙ e),
      tail,
    )
