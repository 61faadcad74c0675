-- ===== src/Permissions/Paths/Trimmed.antt =====
-- `trim_end_matches('/')` on texts of segments.
use Prim.Native.Char.{code}
use Prim.Native.String.{[] as nil, ◌∷◌ as cons}
use Prim.Native.String.append
use kunkka.Base.{
  String, ◌<>◌, ◌≡◌, refl, sym, ap, ◌∙◌, inl, inr, false, List, [], ◌∷◌, All, nat_eq, arith,
}
use kunkka.Base.Text.Trim.{is_empty_text, contains_char}
use kunkka.Permissions.Paths.{join_rest, trim_end_slashes}
use kunkka.Permissions.Paths.Segments.{
  NoSlash, IsSegment, IsTail, slash, slash_first, join_rest-cons, tail_NoSlash,
}

keep_head :
    (c : _) (s : String)
    → nat_eq (code c) b'/' ≡ false
    → trim_end_slashes (cons c s) ≡ cons c (trim_end_slashes s)
unfolding trim_end_slashes
keep_head c s other = ground (arith, other)

drop_slash :
    (s : String)
    → is_empty_text (trim_end_slashes s) ≡ false
    → trim_end_slashes (cons slash s) ≡ cons slash (trim_end_slashes s)
unfolding trim_end_slashes
drop_slash s full = rw full refl

trim_slash_free : (s x : String) → NoSlash s → trim_end_slashes (s <> x) ≡ s <> trim_end_slashes x
unfolding contains_char
trim_slash_free nil x free = rw (append.nil x, append.nil (trim_end_slashes x)) refl
trim_slash_free (cons c s) x free =
    rw (append.cons c s x, append.cons c s (trim_end_slashes x))
      (keep_head c (s <> x) (ground (arith, free))
        ∙ ap (λ t. cons c t) (trim_slash_free s x (tail_NoSlash c s free)))

is_full : (d s : String) → is_empty_text d ≡ false → is_empty_text (d <> s) ≡ false
is_full nil s full = cc
is_full (cons a d) s full = rw (append.cons a d s) refl

-- What is left are the segments.
pub trim_end_slashes-join_rest :
    (ds : List String) (t : String)
    → All IsSegment ds
    → IsTail t
    → trim_end_slashes (join_rest ds <> t) ≡ join_rest ds
unfolding join_rest trim_end_slashes
trim_end_slashes-join_rest [] t nd (inl e) = rw (append.nil t, e) refl
trim_end_slashes-join_rest [] t nd (inr e) = rw (append.nil t, e) refl
trim_end_slashes-join_rest (d ∷ ds) t ((full, free), nds) tail =
    let inner =
      trim_slash_free d (join_rest ds <> t) free
      ∙ ap (λ x. d <> x) (trim_end_slashes-join_rest ds t nds tail) in
    ap trim_end_slashes (join_rest-cons d ds t)
    ∙ drop_slash (d <> (join_rest ds <> t)) (ap is_empty_text inner ∙ is_full d (join_rest ds) full)
    ∙ ap (λ x. cons slash x) inner
    ∙ sym (slash_first (d <> join_rest ds))
