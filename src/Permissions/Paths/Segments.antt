-- ===== src/Permissions/Paths/Segments.antt =====
-- Texts of segments without a slash: which text is a prefix of which, up to a boundary.
use Prim.Native.Char.{Char, code}
use Prim.Native.String.{[] as nil, ◌∷◌ as cons}
use Prim.Native.String.append
use kunkka.Base.{
  String, ◌<>◌, ◌≡◌, ◌↔◌, ◌⊎◌, refl, sym, ap, ◌∙◌, subst, inl, inr, Bool, true, false, ◌&&◌, ◌||◌,
  List, [], ◌∷◌, ◌++◌, All, nat_eq, nat_eq_iff, arith,
}
use text.Mathlib.TextEquality.{codes_equal}
use text.Mathlib.TextLemmas.{append_assoc}
use kunkka.Base.Text.Trim.{is_empty_text, starts_with_char, contains_char}
use kunkka.Permissions.Paths.{join_rest, starts_with_whole}

abbrev pub NoSlash : String → Type 0
NoSlash c = contains_char b'/' c ≡ false

abbrev pub IsSegment : String → Type 0
IsSegment c = (is_empty_text c ≡ false) × NoSlash c

-- The end of a text, or a slash.
abbrev pub AtBoundary : String → Type 0
AtBoundary x = (is_empty_text x || starts_with_char b'/' x) ≡ true

pub tail_NoSlash : (a : Char) (d : String) → NoSlash (cons a d) → NoSlash d
unfolding contains_char
tail_NoSlash a d h = ground (arith, h)

-- A slash-free text does not start at a boundary.
meet : (b : Char) (c s : String) → NoSlash (cons b c) → AtBoundary (cons b s) → ⊥
unfolding contains_char starts_with_char
meet b c s slash_free slash = ground (arith, slash_free, slash)

cons-heads : {a b : Char} {s t : String} → cons a s ≡ cons b t → a ≡ b
cons-heads h = cc

cons-tails : {a b : Char} {s t : String} → cons a s ≡ cons b t → s ≡ t
cons-tails h = cc

cons_same : {a b : Char} {s t : String} → a ≡ b → s ≡ t → cons a s ≡ cons b t
cons_same h k = cc

cons_both :
    (a b : Char) (d c x y : String)
    → cons a (d <> x) ≡ cons b (c <> y)
    → (d <> x ≡ c <> y → (d ≡ c) × (x ≡ y))
    → (cons a d ≡ cons b c) × (x ≡ y)
cons_both a b d c x y h rest =
    let (same, left) = rest (cons-tails h) in (cons_same (cons-heads h) same, left)

-- Two slash-free texts that go on at a boundary are one.
cancel :
    (d c x y : String)
    → NoSlash d
    → NoSlash c
    → AtBoundary x
    → AtBoundary y
    → d <> x ≡ c <> y
    → (d ≡ c) × (x ≡ y)
unfolding contains_char starts_with_char
cancel nil nil x y nd nc bx by h = (refl, rw (append.nil x, append.nil y) at h)
cancel nil (cons b c) x y nd nc bx by h =
    absurd (meet b c (c <> y) nc (subst AtBoundary (rw (append.nil x, append.cons b c y) at h) bx))
cancel (cons a d) nil x y nd nc bx by h =
    absurd
      (meet a d (d <> x) nd (subst AtBoundary (sym (rw (append.nil y, append.cons a d x) at h)) by))
cancel (cons a d) (cons b c) x y nd nc bx by h =
    cons_both a b d c x y (rw (append.cons a d x, append.cons b c y) at h)
      (cancel d c x y (tail_NoSlash a d nd) (tail_NoSlash b c nc) bx by)

abbrev pub slash : Char
slash = "/"

pub slash_first : (s : String) → "/" <> s ≡ cons slash s
slash_first s = append.cons slash nil s ∙ ap (λ t. cons slash t) (append.nil s)

pub join_rest-cons :
    (d : String) (ds : List String) (x : String)
    → join_rest (d ∷ ds) <> x ≡ cons slash (d <> (join_rest ds <> x))
unfolding join_rest
join_rest-cons d ds x =
    ap (λ t. t <> x) (slash_first (d <> join_rest ds))
    ∙ append.cons slash (d <> join_rest ds) x
    ∙ ap (λ t. cons slash t) (append_assoc d (join_rest ds) x)

join_rest-AtBoundary :
    (ds : List String) (x : String) → AtBoundary x → AtBoundary (join_rest ds <> x)
unfolding join_rest starts_with_char
join_rest-AtBoundary [] x h = rw (append.nil x) h
join_rest-AtBoundary (d ∷ ds) x h = subst AtBoundary (sym (join_rest-cons d ds x)) refl

-- What may stand behind the segments of a normalized path.
abbrev pub IsTail : String → Type 0
IsTail t = (t ≡ "") ⊎ (t ≡ "/")

pub tail-AtBoundary : (t : String) → IsTail t → AtBoundary t
unfolding starts_with_char
tail-AtBoundary t (inl e) = subst AtBoundary (sym e) refl
tail-AtBoundary t (inr e) = subst AtBoundary (sym e) refl

same_head : {d c : String} {xs ys : List String} → d ≡ c → xs ≡ ys → d ∷ xs ≡ c ∷ ys
same_head h k = cc

nil-cons : {b : Char} {s : String} → nil ≡ cons b s → ⊥
nil-cons h = cc

pub append_full : (d s : String) → is_empty_text d ≡ false → d <> s ≡ nil → ⊥
append_full nil s full h = cc
append_full (cons a d) s full h = nil-cons (sym h ∙ append.cons a d s)

nothing_left : (d s t : String) → is_empty_text d ≡ false → IsTail t → t ≡ cons slash (d <> s) → ⊥
nothing_left d s t full (inl e) h = nil-cons (sym e ∙ h)
nothing_left d s t full (inr e) h = append_full d s full (sym (cons-tails (sym e ∙ h)))

join_rest-append : (ds more : List String) → join_rest (ds ++ more) ≡ join_rest ds <> join_rest more
unfolding join_rest
join_rest-append [] more = sym (append.nil (join_rest more))
join_rest-append (d ∷ ds) more =
    ap (λ t. "/" <> (d <> t)) (join_rest-append ds more)
    ∙ ap (λ t. "/" <> t) (sym (append_assoc d (join_rest ds) (join_rest more)))
    ∙ sym (append_assoc "/" (d <> join_rest ds) (join_rest more))

-- A shorter list of segments, up to a boundary, is a prefix of the list.
pub segments_of_text :
    (ds cs : List String) (t rest : String)
    → All IsSegment ds
    → All IsSegment cs
    → IsTail t
    → AtBoundary rest
    → join_rest cs <> t ≡ join_rest ds <> rest
    → (more : List String) × (ds ++ more ≡ cs)
unfolding join_rest
segments_of_text [] cs t rest nd nc tail b h = (cs, refl)
segments_of_text (d ∷ ds) [] t rest ((full, nd), nds) nc tail b h = absurd (
    nothing_left d (join_rest ds <> rest) t full tail
      (sym (append.nil t) ∙ h ∙ join_rest-cons d ds rest))
segments_of_text (d ∷ ds) (c ∷ cs) t rest ((_, nd), nds) ((_, nc), ncs) tail b h =
    let (same, left) =
      cancel c d (join_rest cs <> t) (join_rest ds <> rest) nc nd
        (join_rest-AtBoundary cs t (tail-AtBoundary t tail)) (join_rest-AtBoundary ds rest b)
        (cons-tails (sym (join_rest-cons c cs t) ∙ h ∙ join_rest-cons d ds rest)) in
    let (more, prefix) = segments_of_text ds cs t rest nds ncs tail b left in
    (more, same_head (sym same) prefix)

pub text_of_segments :
    (ds cs more : List String) (t : String)
    → ds ++ more ≡ cs
    → IsTail t
    → (rest : String) × (join_rest cs <> t ≡ join_rest ds <> rest) × AtBoundary rest
text_of_segments ds cs more t h tail = (
  join_rest more <> t,
  ap (λ l. join_rest l <> t) (sym h)
      ∙ ap (λ l. l <> t) (join_rest-append ds more)
      ∙ append_assoc (join_rest ds) (join_rest more) t,
  join_rest-AtBoundary more t (tail-AtBoundary t tail),
)

same_code : {c d : Char} → c ≡ d → nat_eq (code c) (code d) ≡ true
same_code {c} {d} h = (nat_eq_iff (code c) (code d)).1 (ap code h)

both_true : {a b : Bool} → a ≡ true → b ≡ true → (a && b) ≡ true
both_true h k = ground arith

longer :
    (c : Char) (p : String) (d : Char) (q : String)
    → c ≡ d
    → ((rest : String) × (p ≡ q <> rest) × AtBoundary rest)
    → (rest : String) × (cons c p ≡ cons d q <> rest) × AtBoundary rest
longer c p d q same (rest, e, b) = (rest, cons_same same e ∙ sym (append.cons d q rest), b)

pub starts_with_whole_iff :
    (p q : String)
    → (starts_with_whole p q ≡ true) ↔ ((rest : String) × (p ≡ q <> rest) × AtBoundary rest)
unfolding starts_with_whole
starts_with_whole_iff p nil = (
  λ h. (p, sym (append.nil p), h),
  λ (rest, e, h). subst AtBoundary (sym (e ∙ append.nil rest)) h,
)
starts_with_whole_iff nil (cons d q) =
    (λ h. cc, λ (rest, e, h). absurd (nil-cons (rw (append.cons d q rest) at e)))
starts_with_whole_iff (cons c p) (cons d q) = (
  λ h.
      longer c p d q (codes_equal c d (ground (arith, h)))
        ((starts_with_whole_iff p q).0 (ground (arith, h))),
  λ (rest, e, b).
      both_true (same_code (cons-heads (rw (append.cons d q rest) at e)))
        ((starts_with_whole_iff p q).1 (rest, cons-tails (rw (append.cons d q rest) at e), b)),
)

-- On texts of segments the test for a prefix is the test on the lists.
pub starts_with_whole-join_rest_iff :
    (ds cs : List String) (t : String)
    → All IsSegment ds
    → All IsSegment cs
    → IsTail t
    → (starts_with_whole (join_rest cs <> t) (join_rest ds) ≡ true)
      ↔ ((more : List String) × (ds ++ more ≡ cs))
starts_with_whole-join_rest_iff ds cs t nd nc tail = (
  λ h.
      let (rest, e, b) = (starts_with_whole_iff (join_rest cs <> t) (join_rest ds)).0 h in
      segments_of_text ds cs t rest nd nc tail b e,
  λ (more, h).
      (starts_with_whole_iff (join_rest cs <> t) (join_rest ds)).1
        (text_of_segments ds cs more t h tail),
)
