-- ===== src/Store/Kept.antt =====
-- What work on the store leaves alone: the refs, the bytes of every blob, and every layer.
use climate.Common.{
  Text, text_eq_iff, text_eq_refl, any, retain, not, some, List, [], ◌∷◌, Bool, true, false, ok,
  context, ◌≡◌, refl, ap, ap₂, sym, ◌∙◌, arith, Bool-cases, inl, inr, >>=-eq-ok, context-eq-ok,
}
use climate.Common.Error.{missing_blob}
use climate.Store.{Store, Path2, path_eq, find_blob, is_clean, digest_path, has_layer, read_blob}
use climate.Store.Names.{digest_path_sound}

pub path_eq_sound : (p q : Path2) → path_eq p q ≡ true → p ≡ q
path_eq_sound (a, x) (b, y) h =
    ap₂ (λ u v. (u, v)) ((text_eq_iff a b).0 (ground arith)) ((text_eq_iff x y).0 (ground arith))

pub path_eq_refl : (p : Path2) → path_eq p p ≡ true
path_eq_refl (a, x) = ground (arith, text_eq_refl a, text_eq_refl x)

abbrev pub has_path : List Path2 → Path2 → Bool
has_path layers p = any (λ q. path_eq q p) layers

pub record Kept (s s' : Store) : Type 0 where
  pub refs : s'.refs ≡ s.refs
  pub blobs :
      (p : Path2) (bytes : Text)
      → find_blob p s.blobs ≡ some bytes
      → find_blob p s'.blobs ≡ some bytes
  pub layers :
      (p : Path2) → is_clean p.1 ≡ true → has_path s.layers p ≡ true → has_path s'.layers p ≡ true

pub Kept-refl : (s : Store) → Kept s s
Kept-refl s = record { refs = refl; blobs = λ p bytes h. h; layers = λ p c h. h }

pub Kept-trans : {s s' s'' : Store} → Kept s s' → Kept s' s'' → Kept s s''
Kept-trans k l = record {
  refs = l.refs ∙ k.refs;
  blobs = λ p bytes h. l.blobs p bytes (k.blobs p bytes h);
  layers = λ p c h. l.layers p c (k.layers p c h);
}

-- The list of layers without a path, and with it.
pub has_path-without :
    (layers : List Path2) (x p : Path2)
    → path_eq x p ≡ false
    → has_path (retain (λ q. not (path_eq q x)) layers) p ≡ has_path layers p
has_path-without [] x p apart = refl
has_path-without (q ∷ layers) x p apart = elim (Bool-cases (path_eq q x)) [
  | inl same ↦
      let e : q ≡ x = path_eq_sound q x same in
      let away : path_eq q p ≡ false = ap (λ y. path_eq y p) e ∙ apart in
      ground (arith, has_path-without layers x p apart)
  | inr other ↦ ground (arith, has_path-without layers x p apart)
]

pub has_path-with :
    (layers : List Path2) (x p : Path2)
    → has_path layers p ≡ true
    → has_path (x ∷ retain (λ q. not (path_eq q x)) layers) p ≡ true
has_path-with layers x p h = elim (Bool-cases (path_eq x p)) [
  | inl same ↦ ground arith
  | inr apart ↦ ground (arith, has_path-without layers x p apart)
]

pub has_path-here : (layers : List Path2) (x : Path2) → has_path (x ∷ layers) x ≡ true
has_path-here layers x = ground (arith, path_eq_refl x)

-- A blob that is written where there was none.
pub find_blob-put :
    (blobs : List (Path2 × Text)) (x p : Path2) (bytes : Text)
    → path_eq x p ≡ false
    → find_blob p ((x, bytes) ∷ retain (λ b. not (path_eq b.0 x)) blobs) ≡ find_blob p blobs
unfolding find_blob
find_blob-put blobs x p bytes apart = rw apart (rest blobs)
  where
    rest :
        (blobs : List (Path2 × Text))
        → find_blob p (retain (λ b. not (path_eq b.0 x)) blobs) ≡ find_blob p blobs
    rest [] = refl
    rest ((q, b) ∷ blobs) = elim (Bool-cases (path_eq q x)) [
      | inl same ↦
          let e : q ≡ x = path_eq_sound q x same in
          let away : path_eq q p ≡ false = ap (λ y. path_eq y p) e ∙ apart in
          ground (arith, rest blobs)
      | inr other ↦ ground (arith, rest blobs)
    ]

pub find_blob-here :
    (blobs : List (Path2 × Text)) (x : Path2) (bytes : Text)
    → find_blob x ((x, bytes) ∷ blobs) ≡ some bytes
unfolding find_blob
find_blob-here blobs x bytes = rw (path_eq_refl x) refl

-- A blob that is written where there is none, or the same one.
pub find_blob-Kept :
    (blobs : List (Path2 × Text)) (x : Path2) (bytes : Text)
    → ((b : Text) → find_blob x blobs ≡ some b → b ≡ bytes)
    → (p : Path2) (b : Text) → find_blob p blobs ≡ some b
    → find_blob p ((x, bytes) ∷ retain (λ b. not (path_eq b.0 x)) blobs) ≡ some b
find_blob-Kept blobs x bytes agrees p b h = elim (Bool-cases (path_eq x p)) [
  | inl here ↦
      let e : x ≡ p = path_eq_sound x p here in
      let rest = retain (λ b. not (path_eq b.0 x)) blobs in
      rw (← e) (find_blob-here rest x bytes ∙ ap some (sym (agrees b (rw e h))))
  | inr away ↦ find_blob-put blobs x p bytes away ∙ h
]

-- What the store is asked stays true.
pub has_layer-Kept :
    {s s' : Store} (digest : Text)
    → Kept s s'
    → has_layer s digest ≡ ok true
    → has_layer s' digest ≡ ok true
unfolding has_layer
has_layer-Kept {s = s} {s' = s'} digest k h =
    let ((algo, hex), e, there) =
      >>=-eq-ok (digest_path digest) (λ path. ok (any (λ p. path_eq p path) s.layers)) h in
    let (sound, ca, ch) = digest_path_sound digest algo hex e in
    rw e (ap ok (k.layers (algo, hex) ch cc))

pub read_blob-Kept :
    {s s' : Store} (digest bytes : Text)
    → Kept s s'
    → read_blob s digest ≡ ok bytes
    → read_blob s' digest ≡ ok bytes
unfolding read_blob
read_blob-Kept {s = s} {s' = s'} digest bytes k h =
    let (path, e, there) =
      >>=-eq-ok (digest_path digest)
        (λ path. context (find_blob path s.blobs) (missing_blob digest)) h in
    let held =
      k.blobs path bytes (context-eq-ok (find_blob path s.blobs) (missing_blob digest) there) in
    rw e (rw held refl)
