-- ===== src/Fetch/Complete.antt =====
-- What `fetch_image` leaves: the whole image and its ref, or the store as it was but for what is not
-- recorded.
use climate.Common.{
  Text, text_eq_refl, if◌then◌else◌, some, List, [], ◌∷◌, Bool, true, false, ok, context-eq-ok, ◌≡◌,
  refl, All-In, inl, inr, In, ◌⊎◌, All,
}
use climate.Common.Error.{unresolved_image, manifest_not_fetched}
use climate.Store.{
  put_ref, Store, find_ref, has_layer, has_blob, read_blob, read_ref, record_ref, marker_name,
}
use climate.Store.Action.{
  Action, Promises, Ends, pure, asks, ◌>>=◌, ◌>>◌, pure-Promises, asks-Promises, lift-Promises,
  change-Promises, bind-Promises, Promises-weaken,
}
use climate.Store.Kept.{Kept, Kept-refl, has_layer-Kept}
use climate.Fetch.{
  Remote, Descriptor, ImageManifest, fetch_config, fetch_layers, missing_layers, fetch_image,
}
use climate.Fetch.Rules.{Stable, and-Stable, constant-Stable, Kept-Stable}
use climate.Fetch.Layer.{fetch_layers-Promises, missing_layers-Promises}
use climate.Fetch.Blobs.{
  HoldsBlob, HoldsBlob-Stable, read_blob-Stable, write_blob-Promises, record_ref-Promises,
  stored_blob, stored_blob-Kept, IsWritten, has_blob-HoldsBlob, fetch_config-Promises,
}

-- The image of a reference is in the store: its ref, its manifest, its settings and its layers.
pub record IsStored (s : Store) (reference digest raw : Text) (m : ImageManifest) : Type 0 where
  pub recorded : read_ref s reference ≡ some digest
  pub manifest : read_blob s digest ≡ ok raw
  pub config : HoldsBlob m.config.digest s
  pub layers : All (λ (l : Descriptor). has_layer s l.digest ≡ ok true) m.layers

pub record IsPulled (remote : Remote) (s : Store) (reference : Text) : Type 0 where
  pub manifest : ImageManifest
  pub digest : Text
  pub raw : Text
  pub resolved : remote.pull_image_manifest reference ≡ some (manifest, digest)
  pub fetched : remote.pull_manifest_raw reference digest ≡ some raw
  pub stored : IsStored s reference digest raw manifest

-- Bytes that are in the store under the digest of a manifest are that manifest.
unfoldable pub IsAddressed : Remote → Store → Text → Type 0
IsAddressed remote s reference =
    (m : ImageManifest) (digest raw bytes : Text)
    → remote.pull_image_manifest reference ≡ some (m, digest)
    → remote.pull_manifest_raw reference digest ≡ some raw
    → read_blob s digest ≡ ok bytes
    → bytes ≡ raw

-- Every download that was started completes.
unfoldable pub IsComplete : Remote → Type 0
IsComplete remote = (ls : List Descriptor) (l : Descriptor) → In l ls → In l (remote.completed ls)

pub read_ref-put_ref :
    (s : Store) (reference digest : Text)
    → read_ref (put_ref reference digest s) reference ≡ some digest
unfolding read_ref find_ref
read_ref-put_ref s reference digest = rw (text_eq_refl (marker_name reference)) refl

find_layers :
    (remote : Remote) (s : Store) (layers pending : List Descriptor)
    → IsComplete remote
    → ((l : Descriptor) → In l layers → In l pending ⊎ (has_layer s l.digest ≡ ok true))
    → All (λ (l : Descriptor). has_layer s l.digest ≡ ok true) (remote.completed pending)
    → All (λ (l : Descriptor). has_layer s l.digest ≡ ok true) layers
unfolding IsComplete
find_layers remote s [] pending complete found done = tt
find_layers remote s (l ∷ layers) pending complete found done = (
  elim (found l (inl refl)) [
    | inl i ↦
        All-In (λ (l : Descriptor). has_layer s l.digest ≡ ok true) (remote.completed pending) done
          l (complete pending l i)
    | inr there ↦ there
  ],
  find_layers remote s layers pending complete (λ m i. found m (inr i)) done,
)

recorded_image :
    (s : Store) (reference digest raw : Text) (m : ImageManifest)
    → read_blob s digest ≡ ok raw
    → HoldsBlob m.config.digest s
    → All (λ (l : Descriptor). has_layer s l.digest ≡ ok true) m.layers
    → IsStored (put_ref reference digest s) reference digest raw m
unfolding read_blob has_layer
recorded_image s reference digest raw m there config layers = record {
  recorded = read_ref-put_ref s reference digest;
  manifest = there;
  config = config;
  layers = layers;
}

module _ (remote : Remote) (complete : IsComplete remote) (done_writing : IsWritten remote.writes)
    (reference : Text) (s0 : Store) where
  config_step :
      {P : Store → Type 0} (stable : Stable P) (config : Descriptor) (there : Bool)
      → Promises
          (λ s. P s × (has_blob s config.digest ≡ ok there))
          (if there then pure tt else fetch_config remote reference config)
          (λ done s. P s × HoldsBlob config.digest s)
          P
  config_step stable config true =
      pure-Promises _ _ tt (λ s p. (p.0, has_blob-HoldsBlob config.digest s p.1))
  config_step stable config false = fetch_config-Promises remote stable reference config

  found-Stable :
      (layers pending : List Descriptor)
      → Stable
          (λ s. (l : Descriptor) → In l layers → In l pending ⊎ (has_layer s l.digest ≡ ok true))
  found-Stable layers pending = record {
    step = λ s s' h k l i. elim (h l i) [
      | inl j ↦ inl j
      | inr there ↦ inr (has_layer-Kept l.digest k there)
    ];
  }

  layers_step :
      {P E : Store → Type 0} {R : Unit {0} → Store → Type 0} (stable : Stable P) (m : ImageManifest)
      (next : Action (Unit {0}))
      → ((s : Store) → P s → E s)
      → Promises
          (λ s. P s × All (λ (l : Descriptor). has_layer s l.digest ≡ ok true) m.layers)
          next
          R
          E
      → Promises P
          (missing_layers m.layers >>= λ pending.
            fetch_layers remote reference 1 (remote.completed pending) >> next)
          R
          E
  layers_step {P = P} stable m next hurt rest =
      bind-Promises _ _ _
        (Promises-weaken _ (missing_layers-Promises m.layers {P = P}) (λ s a q. q) hurt)
        (λ pending.
          bind-Promises
            (λ done s. P s × All (λ (l : Descriptor). has_layer s l.digest ≡ ok true) m.layers) _ _
            (Promises-weaken _
              (fetch_layers-Promises remote reference (remote.completed pending) 1
                (and-Stable stable (found-Stable m.layers pending)))
              (λ s a q. (q.0.0, find_layers remote s m.layers pending complete q.0.1 q.1))
              (λ s q. hurt s q.0))
            (λ done. rest))

  -- The facts that hold once the manifest is in the store.
  abbrev ManifestFacts : ImageManifest × Text → Text → Store → Type 0
  ManifestFacts r raw s =
      (Kept s0 s × (read_blob s r.1 ≡ ok raw))
      × ((remote.pull_image_manifest reference ≡ some r)
          × (remote.pull_manifest_raw reference r.1 ≡ some raw))

  facts-Stable : (r : ImageManifest × Text) (raw : Text) → Stable (ManifestFacts r raw)
  facts-Stable r raw = and-Stable (and-Stable (Kept-Stable s0) (read_blob-Stable r.1 raw)) (
      constant-Stable (
        (remote.pull_image_manifest reference ≡ some r)
        × (remote.pull_manifest_raw reference r.1 ≡ some raw)))

  contents_step :
      (r : ImageManifest × Text) (raw : Text)
      → Promises
          (ManifestFacts r raw)
          (asks (λ s. has_blob s r.0.config.digest) >>= λ there.
            (if there then pure tt else fetch_config remote reference r.0.config)
            >> (missing_layers r.0.layers >>= λ pending.
                fetch_layers remote reference 1 (remote.completed pending)
                >> record_ref remote.writes reference r.1))
          (λ done s. IsPulled remote s reference)
          (Kept s0)
  contents_step r raw =
      let stable = facts-Stable r raw in
      let held = and-Stable stable (HoldsBlob-Stable r.0.config.digest) in
      bind-Promises (λ there s. ManifestFacts r raw s × (has_blob s r.0.config.digest ≡ ok there)) _
        _
        (asks-Promises _ (λ s. has_blob s r.0.config.digest) (λ s p. p.0.0) (λ s there p e. (p, e)))
        (λ there.
          bind-Promises _ _ _
            (Promises-weaken _ (config_step stable r.0.config there) (λ s a p. p) (λ s p. p.0.0))
            (λ done.
              layers_step held r.0 (record_ref remote.writes reference r.1) (λ s p. p.0.0.0)
                (record_ref-Promises remote.writes done_writing reference r.1
                  (λ s q. recorded s q))))
    where
      recorded :
          (s : Store)
          → (ManifestFacts r raw s × HoldsBlob r.0.config.digest s)
            × All (λ (l : Descriptor). has_layer s l.digest ≡ ok true) r.0.layers
          → IsPulled remote (put_ref reference r.1 s) reference
      recorded s q = record {
        manifest = r.0;
        digest = r.1;
        raw = raw;
        resolved = q.0.0.1.0;
        fetched = q.0.0.1.1;
        stored = recorded_image s reference r.1 raw r.0 q.0.0.0.1 q.0.1 q.1;
      }

  fetch_image-Promises :
      IsAddressed remote s0 reference
      → Promises
          (λ s. s ≡ s0)
          (fetch_image remote reference)
          (λ done s. IsPulled remote s reference)
          (Kept s0)
  unfolding fetch_image IsAddressed
  fetch_image-Promises addressed =
      bind-Promises (λ r s. (s ≡ s0) × (remote.pull_image_manifest reference ≡ some r)) _ _
        (lift-Promises _ _ (λ s p. rw p (Kept-refl s0))
          (λ s r p e. (
            p,
            context-eq-ok (remote.pull_image_manifest reference) (unresolved_image reference) e,
          )))
        (λ r.
          bind-Promises
            (λ raw s.
              ((s ≡ s0) × (remote.pull_image_manifest reference ≡ some r))
              × (remote.pull_manifest_raw reference r.1 ≡ some raw))
            _ _
            (lift-Promises _ _ (λ s p. rw p.0 (Kept-refl s0))
              (λ s raw p e. (
                p,
                context-eq-ok (remote.pull_manifest_raw reference r.1)
                    (manifest_not_fetched reference) e,
              )))
            (λ raw.
              bind-Promises (λ done s. ManifestFacts r raw s) _ _
                (write_blob-Promises remote.writes done_writing r.1 raw (
                  change-Promises _ (λ s. stored_blob s r.1 raw) (λ s p. rw p.0.0 (Kept-refl s0))
                    (λ s s' p written. (
                      stored_blob-Kept s0 s' r.1 raw (λ b h. addressed r.0 r.1 raw b p.0.1 p.1 h)
                          (rw p.0.0 at written),
                      (p.0.1, p.1),
                    ))))
                (λ done. contents_step r raw)))

-- A download that goes well leaves the whole image and its ref: what the registry names as its
-- manifest, its settings and every layer. One that fails leaves the refs, the blobs and the layers
-- that there were. The registry's manifest is what the store holds under its digest, if anything, every
-- download that is started completes, and no write of a manifest or a ref breaks off: that would leave a
-- torn file in the place of the one that was there.
pub fetch_image-Ends :
    (remote : Remote) (reference : Text) (s : Store)
    → IsComplete remote
    → IsWritten remote.writes
    → IsAddressed remote s reference
    → Ends (λ done s'. IsPulled remote s' reference) (Kept s) (fetch_image remote reference s)
fetch_image-Ends remote reference s complete written addressed =
    (fetch_image-Promises remote complete written reference s addressed).ends s refl
