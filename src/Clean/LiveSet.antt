-- ===== src/Clean/LiveSet.antt =====
-- What `live_set` holds: the manifest, the settings and the layers of every ref.
use climate.Common.{
  Text, text_in, text_in-In, text_in-append, text_eq_refl, is_whitespace, trim_end, is_empty, In,
  Bool-cases, inl, inr, List, [], ◌∷◌, true, false, ok, >>=-eq-ok, ◌≡◌, refl, ap, arith, Lacks,
}
use climate.Store.{Manifest, Formats, Store}
use climate.Clean.{trim_start_on, trim, LiveSets, manifest_of, add_manifest, live_ref, live_refs}

trim_start_on-Lacks : (s : Text) → Lacks is_whitespace s → trim_start_on is_whitespace s ≡ s
unfolding trim_start_on
trim_start_on-Lacks [] h = refl
trim_start_on-Lacks (c ∷ s) h = rw h.0

trim_end-Lacks : (s : Text) → Lacks is_whitespace s → trim_end is_whitespace s ≡ s
trim_end-Lacks [] h = refl
trim_end-Lacks (c ∷ s) h = rw (trim_end-Lacks s h.1) (ground (arith, h.0))

pub trim-Lacks : (s : Text) → Lacks is_whitespace s → trim s ≡ s
unfolding trim
trim-Lacks s h = rw (trim_start_on-Lacks s h) (trim_end-Lacks s h)

-- What is in use stays so as more refs are read.
pub record Extends (a b : LiveSets) : Type 0 where
  pub blobs : (t : Text) → text_in a.blobs t ≡ true → text_in b.blobs t ≡ true
  pub layers : (t : Text) → text_in a.layers t ≡ true → text_in b.layers t ≡ true

Extends-refl : (a : LiveSets) → Extends a a
Extends-refl a = record { blobs = λ t h. h; layers = λ t h. h }

Extends-trans : {a b c : LiveSets} → Extends a b → Extends b c → Extends a c
Extends-trans p q = record {
  blobs = λ t h. q.blobs t (p.blobs t h);
  layers = λ t h. q.layers t (p.layers t h);
}

-- The image of a manifest is in use.
pub record Covers (live : LiveSets) (digest : Text) (m : Manifest) : Type 0 where
  pub manifest : text_in live.blobs digest ≡ true
  pub config : text_in live.blobs m.config ≡ true
  pub layers : (l : Text) → In l m.layers → text_in live.layers l ≡ true

add_manifest-Extends :
    (live : LiveSets) (digest : Text) (m : Manifest) → Extends live (add_manifest live digest m)
add_manifest-Extends live digest m = record {
  blobs = λ t h. ground arith;
  layers = λ t h. ground (arith, text_in-append m.layers live.layers t);
}

add_manifest-Covers :
    (live : LiveSets) (digest : Text) (m : Manifest) → Covers (add_manifest live digest m) digest m
add_manifest-Covers live digest m = record {
  manifest = ground (arith, text_eq_refl digest);
  config = ground (arith, text_eq_refl m.config);
  layers = λ l i. ground (arith, text_in-append m.layers live.layers l, text_in-In m.layers l i);
}

Covers-Extends :
    {a b : LiveSets} (digest : Text) (m : Manifest)
    → Covers a digest m
    → Extends a b
    → Covers b digest m
Covers-Extends digest m c e = record {
  manifest = e.blobs digest c.manifest;
  config = e.blobs m.config c.config;
  layers = λ l i. e.layers l (c.layers l i);
}

module _ {C : Type 0} (formats : Formats C) (s : Store) where
  live_ref-Extends :
      (live live' : LiveSets) (contents : Text)
      → live_ref formats s live contents ≡ ok live'
      → Extends live live'
  unfolding live_ref
  live_ref-Extends live live' contents h = elim (Bool-cases (is_empty (trim contents))) [
    | inl empty ↦ let same : live ≡ live' = ground arith in rw (← same) (Extends-refl live)
    | inr full ↦
        let (m, e, made) =
          >>=-eq-ok (manifest_of formats s (trim contents))
            (λ m. ok (add_manifest live (trim contents) m)) (rw full at h) in
        let same : add_manifest live (trim contents) m ≡ live' = cc in
        rw (← same) (add_manifest-Extends live (trim contents) m)
  ]

  live_ref-Covers :
      (live live' : LiveSets) (contents : Text) (m : Manifest)
      → live_ref formats s live contents ≡ ok live'
      → is_empty (trim contents) ≡ false
      → manifest_of formats s (trim contents) ≡ ok m
      → Covers live' (trim contents) m
  unfolding live_ref
  live_ref-Covers live live' contents m h full e =
      let same : add_manifest live (trim contents) m ≡ live' = ground arith in
      rw (← same) (add_manifest-Covers live (trim contents) m)

  live_refs-Extends :
      (refs : List (Text × Text)) (live live' : LiveSets)
      → live_refs formats s refs live ≡ ok live'
      → Extends live live'
  unfolding live_refs
  live_refs-Extends [] live live' h =
      let same : live ≡ live' = cc in rw (← same) (Extends-refl live)
  live_refs-Extends ((name, contents) ∷ rest) live live' h =
      let (mid, e, more) =
        >>=-eq-ok (live_ref formats s live contents) (λ live. live_refs formats s rest live) h in
      Extends-trans (live_ref-Extends live mid contents e) (live_refs-Extends rest mid live' more)

  pub live_refs-Covers :
      (refs : List (Text × Text)) (live live' : LiveSets) (name contents : Text) (m : Manifest)
      → live_refs formats s refs live ≡ ok live'
      → In (name, contents) refs
      → is_empty (trim contents) ≡ false
      → manifest_of formats s (trim contents) ≡ ok m
      → Covers live' (trim contents) m
  unfolding live_refs
  live_refs-Covers [] live live' name contents m h i full e = elim i [ ]
  live_refs-Covers ((n, c) ∷ rest) live live' name contents m h i full e =
      let (mid, first, more) =
        >>=-eq-ok (live_ref formats s live c) (λ live. live_refs formats s rest live) h in
      elim i [
        | inl same ↦
            let at : contents ≡ c = ap (λ (p : Text × Text). p.1) same in
            Covers-Extends (trim contents) m
              (live_ref-Covers live mid contents m (rw at first) full e)
              (live_refs-Extends rest mid live' more)
        | inr j ↦ live_refs-Covers rest mid live' name contents m more j full e
      ]
