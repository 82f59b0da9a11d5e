-- ===== src/Fetch/Blobs.antt =====
-- The manifest and the settings of an image: blobs that are written where there are none, or the
-- same.
use climate.Common.{
  ◌>>=◌, Text, retain, not, some, none, ◌∷◌, true, false, ok, err, Result, codes, ◌≡◌, refl, ap,
  sym, ◌∙◌, Option-cases, Result-cases, inl, inr,
}
use climate.Common.Error.{Error, not_stored}
use climate.Store.{
  Writes, all_written, put_blob, put_ref, marker_name, record_ref, Store, Path2, path_eq, find_blob,
  digest_path, has_blob, read_blob, exists, write_blob,
}
use climate.Store.Action.{
  modify, modify-Promises, change, Promises, change-Promises, bind-Promises, Promises-weaken,
}
use climate.Store.Kept.{Kept, read_blob-Kept, find_blob-Kept, find_blob-here}
use climate.Fetch.{
  Remote, Descriptor, without_file, find_file, temp_path, download_blob, commit_blob, committed,
  fetch_config,
}
use climate.Fetch.Rules.{Stable, Stable-Apart}
use climate.Fetch.Layer.{download_blob-Promises}

abbrev pub HoldsBlob : Text → Store → Type 0
HoldsBlob digest s = (bytes : Text) × (read_blob s digest ≡ ok bytes)

pub HoldsBlob-Stable : (digest : Text) → Stable (HoldsBlob digest)
HoldsBlob-Stable digest = record { step = λ s s' h k. (h.0, read_blob-Kept digest h.0 k h.1) }

pub read_blob-Stable : (digest bytes : Text) → Stable (λ s. read_blob s digest ≡ ok bytes)
read_blob-Stable digest bytes = record { step = λ s s' h k. read_blob-Kept digest bytes k h }

put_blob-Kept :
    (temp digest : Text) (s s' : Store) (dest : Path2) (bytes : Text)
    → digest_path digest ≡ ok dest
    → exists (find_blob dest s.blobs) ≡ false
    → committed temp digest s dest (some bytes) ≡ ok s'
    → Kept s s' × HoldsBlob digest s'
unfolding read_blob
put_blob-Kept temp digest s s' dest bytes e gone put =
    let rest = retain (λ b. not (path_eq b.0 dest)) s.blobs in
    let new : Store = record (without_file temp s) { blobs = (dest, bytes) ∷ rest } in
    let same : new ≡ s' = cc in
    rw (← same) (
      record {
        refs = refl;
        blobs =
            find_blob-Kept s.blobs dest bytes
              (λ b there. let both : true ≡ false = sym (ap exists there) ∙ gone in cc);
        layers = λ p c h. h;
      },
      (bytes, rw e (rw (find_blob-here rest dest bytes) refl)),
    )

-- Committing a blob where there is none.
commit_blob-Kept :
    (temp digest : Text) (s s' : Store)
    → has_blob s digest ≡ ok false
    → commit_blob temp digest s ≡ ok s'
    → Kept s s' × HoldsBlob digest s'
unfolding commit_blob has_blob read_blob
commit_blob-Kept temp digest s s' absent h = elim (Result-cases (digest_path digest)) [
  | inr (e, bad) ↦ let failed : err e ≡ ok s' = rw bad at h in cc
  | inl (dest, e) ↦
      let made : committed temp digest s dest (find_file temp s.others) ≡ ok s' = rw e at h in
      let gone : exists (find_blob dest s.blobs) ≡ false = cc in
      elim (Option-cases (find_file temp s.others)) [
        | inl missing ↦ let failed : err (not_stored digest) ≡ ok s' = rw missing at made in cc
        | inr (bytes, f) ↦
            let put : committed temp digest s dest (some bytes) ≡ ok s' = rw f at made in
            put_blob-Kept temp digest s s' dest bytes e gone put
      ]
]

module _ (remote : Remote) {P : Store → Type 0} (stable : Stable P) where
  absent-download :
      (reference : Text) (config : Descriptor) (temp : Text)
      → Promises
          (λ s. P s × (has_blob s config.digest ≡ ok false))
          (download_blob remote reference config temp)
          (λ done s. P s × (has_blob s config.digest ≡ ok false))
          P
  absent-download reference config temp =
      Promises-weaken _
        (download_blob-Promises remote
          (record {
            step = λ s files p. ((Stable-Apart stable).step s files p.0, unfold has_blob in p.1);
          })
          reference config temp)
        (λ s a p. p) (λ s p. p.0)

  pub fetch_config-Promises :
      (reference : Text) (config : Descriptor)
      → Promises
          (λ s. P s × (has_blob s config.digest ≡ ok false))
          (fetch_config remote reference config)
          (λ done s. P s × HoldsBlob config.digest s)
          P
  unfolding fetch_config
  fetch_config-Promises reference config =
      let temp = temp_path remote (codes "config") 0 in
      bind-Promises (λ done s. P s × (has_blob s config.digest ≡ ok false)) _ _
        (absent-download reference config temp)
        (λ done.
          change-Promises _ (commit_blob temp config.digest) (λ s p. p.0)
            (λ s s' p committed.
              let (kept, held) = commit_blob-Kept temp config.digest s s' p.1 committed in
              (stable.step s s' p.0 kept, held)))

-- Where every write of a blob and of a ref goes to its end.
pub record IsWritten (writes : Writes) : Type 0 where
  pub blob : (path : Path2) → writes.blob path ≡ all_written
  pub marker : (name : Text) → writes.marker name ≡ all_written

abbrev pub stored_blob : Store → Text → Text → Result Error Store
stored_blob s digest bytes = do path ← digest_path digest; ok (put_blob path bytes s)

pub write_blob-change :
    (writes : Writes)
    → IsWritten writes
    → (digest bytes : Text) (s : Store)
    → write_blob writes digest bytes s ≡ change (λ s'. stored_blob s' digest bytes) s
unfolding write_blob
write_blob-change writes done digest bytes s = go (digest_path digest) refl
  where
    go :
        (r : Result Error Path2)
        → digest_path digest ≡ r
        → write_blob writes digest bytes s ≡ change (λ s'. stored_blob s' digest bytes) s
    go (ok path) e = rw (e, done.blob path) refl
    go (err x) e = rw e refl

pub record_ref-modify :
    (writes : Writes)
    → IsWritten writes
    → (reference digest : Text) (s : Store)
    → record_ref writes reference digest s ≡ modify (put_ref reference digest) s
unfolding record_ref
record_ref-modify writes done reference digest s = rw (done.marker (marker_name reference)) refl

module _ {P E : Store → Type 0} {Q : Unit {0} → Store → Type 0} (writes : Writes)
    (done : IsWritten writes) where
  pub write_blob-Promises :
      (digest bytes : Text)
      → Promises P (change (λ s. stored_blob s digest bytes)) Q E
      → Promises P (write_blob writes digest bytes) Q E
  write_blob-Promises digest bytes h = record {
    ends = λ s p. rw (write_blob-change writes done digest bytes s) (h.ends s p);
  }

  pub record_ref-Promises :
      (reference digest : Text)
      → ((s : Store) → P s → Q tt (put_ref reference digest s))
      → Promises P (record_ref writes reference digest) Q E
  record_ref-Promises reference digest h = record {
    ends = λ s p.
        rw (record_ref-modify writes done reference digest s)
          ((modify-Promises Q (put_ref reference digest) h).ends s p);
  }

-- A manifest that is written again is the same: a blob has the digest of its bytes.
pub stored_blob-Kept :
    (s s' : Store) (digest bytes : Text)
    → ((b : Text) → read_blob s digest ≡ ok b → b ≡ bytes)
    → stored_blob s digest bytes ≡ ok s'
    → Kept s s' × (read_blob s' digest ≡ ok bytes)
unfolding read_blob
stored_blob-Kept s s' digest bytes addressed h = elim (Result-cases (digest_path digest)) [
  | inr (e, bad) ↦ let failed : err e ≡ ok s' = rw bad at h in cc
  | inl (dest, e) ↦
      let rest = retain (λ b. not (path_eq b.0 dest)) s.blobs in
      let new : Store = record s { blobs = (dest, bytes) ∷ rest } in
      let made : Result.ok new ≡ ok s' = rw e at h in
      let same : new ≡ s' = cc in
      rw (← same) (
        record {
          refs = refl;
          blobs = find_blob-Kept s.blobs dest bytes (λ b there. addressed b (rw e (rw there refl)));
          layers = λ p c h. h;
        },
        rw e (rw (find_blob-here rest dest bytes) refl),
      )
]

pub has_blob-HoldsBlob :
    (digest : Text) (s : Store) → has_blob s digest ≡ ok true → HoldsBlob digest s
unfolding has_blob read_blob
has_blob-HoldsBlob digest s h = elim (Result-cases (digest_path digest)) [
  | inr (e, bad) ↦ let failed : err e ≡ Result.ok true = rw bad at h in cc
  | inl (path, e) ↦ elim (Option-cases (find_blob path s.blobs)) [
    | inl missing ↦ let none_there : Result.ok (exists none) ≡ ok true = rw (e, missing) at h in cc
    | inr (bytes, there) ↦ (bytes, rw e (rw there refl))
  ]
]
