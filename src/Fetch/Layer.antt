-- ===== src/Fetch/Layer.antt =====
-- One layer, and all that are missing: what `fetch_layer` and its loop leave, whichever way they end.
use climate.Common.{
  Text, if◌then◌else◌, List, [], ◌∷◌, Bool, true, false, ℕ, suc, ok, err, context, codes, ◌≡◌, ap,
  inl, inr, In, ◌⊎◌, All,
}
use climate.Common.Error.{layer_not_opened, not_extracted, blob_not_pulled}
use climate.Store.{Store, digest_path, has_layer}
use climate.Store.Action.{
  Promises, lift, modify, ◌>>◌, pure-Promises, asks-Promises, lift-Promises, modify-Promises,
  change-Promises, bind-Promises, finally-Promises, Promises-weaken,
}
use climate.Fetch.{
  Remote, Descriptor, Transfer, whole, broken, received, write_file, without_file, without_layer,
  with_layer, staging_of, finalise_layer, find_file, reader_of, temp_path, download_blob,
  extract_layer, fetch_layer, fetch_layers, missing_layers, keep_if,
}
use climate.Fetch.Rules.{
  Stable, Apart, Stable-Apart, lift-then, asks-then, kept-then, and-Stable, has_layer-Stable,
  without_file-Kept, without_layer-Kept, with_layer-Kept, finalise_layer-Kept,
}

module _ (remote : Remote) {P : Store → Type 0} (apart : Apart P) where
  write_file-Promises :
      (temp bytes : Text) → Promises P (modify (write_file temp bytes)) (λ done s. P s) P
  write_file-Promises temp bytes =
      modify-Promises (λ done s. P s) (write_file temp bytes)
        (λ s p. apart.step s (write_file temp bytes s).others p)

  received-Promises :
      (temp : Text) (descriptor : Descriptor) (t : Transfer)
      → Promises P (received remote temp descriptor t) (λ done s. P s) P
  received-Promises temp descriptor (whole bytes) = write_file-Promises temp bytes
  received-Promises temp descriptor (broken bytes) =
      bind-Promises (λ done s. P s) (modify (write_file temp bytes))
        (λ done. lift (err (blob_not_pulled descriptor.digest))) (write_file-Promises temp bytes)
        (λ done.
          lift-Promises (λ done s. P s) (err (blob_not_pulled descriptor.digest)) (λ s p. p)
            (λ s a p e. p))

  pub download_blob-Promises :
      (reference : Text) (descriptor : Descriptor) (temp : Text)
      → Promises P (download_blob remote reference descriptor temp) (λ done s. P s) P
  unfolding download_blob
  download_blob-Promises reference descriptor temp =
      bind-Promises (λ done s. P s) (modify (write_file temp []))
        (λ done. received remote temp descriptor (remote.pull_blob reference descriptor))
        (write_file-Promises temp [])
        (λ done. received-Promises temp descriptor (remote.pull_blob reference descriptor))

module _ (remote : Remote) {P : Store → Type 0} (stable : Stable P) where
  pub extract_layer-Promises :
      (temp digest media_type : Text)
      → Promises P
          (extract_layer remote temp digest media_type)
          (λ done s. P s × (has_layer s digest ≡ ok true))
          P
  unfolding extract_layer has_layer
  extract_layer-Promises temp digest media_type =
      lift-then (λ s p. p) (digest_path digest) _
        (λ dest e. kept-then stable (without_layer (staging_of dest)) _ (without_layer-Kept dest) (
          asks-then (λ s p. p) (λ s. context (find_file temp s.others) (layer_not_opened digest)) _
            (λ bytes.
              lift-then (λ s p. p) (reader_of remote media_type bytes) _
                (λ compression read.
                  kept-then stable (with_layer (staging_of dest)) _
                    (with_layer-Kept (staging_of dest))
                    (lift-then (λ s p. p)
                      (if remote.unpacks compression bytes
                        then ok tt
                        else err (not_extracted digest))
                      _
                      (λ done unpacked.
                        change-Promises _ (finalise_layer remote digest dest) (λ s p. p)
                          (λ s s' p renamed.
                            let (kept, there) =
                              finalise_layer-Kept remote digest dest s s' renamed in
                            (stable.step s s' p kept, rw e (ap ok there)))))))))

  pub fetch_layer-Promises :
      (reference : Text) (layer : Descriptor) (id : ℕ)
      → Promises P
          (fetch_layer remote reference layer id)
          (λ done s. P s × (has_layer s layer.digest ≡ ok true))
          P
  unfolding fetch_layer
  fetch_layer-Promises reference layer id =
      let temp = temp_path remote (codes "layer") id in
      let present = has_layer-Stable layer.digest in
      finally-Promises
        (download_blob remote reference layer temp
          >> extract_layer remote temp layer.digest layer.media_type)
        (without_file temp)
        (bind-Promises (λ done s. P s) (download_blob remote reference layer temp)
          (λ done. extract_layer remote temp layer.digest layer.media_type)
          (download_blob-Promises remote (Stable-Apart stable) reference layer temp)
          (λ done. extract_layer-Promises temp layer.digest layer.media_type))
        (λ s a q. (
          stable.step s (without_file temp s) q.0 (without_file-Kept temp s),
          present.step s (without_file temp s) q.1 (without_file-Kept temp s),
        ))
        (λ s p. stable.step s (without_file temp s) p (without_file-Kept temp s))

-- What the search for missing layers passes over is in the store.
pub missing_layers-Promises :
    (layers : List Descriptor) {P : Store → Type 0}
    → Promises P
        (missing_layers layers)
        (λ pending s.
          P s × ((l : Descriptor) → In l layers → In l pending ⊎ (has_layer s l.digest ≡ ok true)))
        P
unfolding missing_layers
missing_layers-Promises [] = pure-Promises _ _ [] (λ s p. (p, λ l i. elim i [ ]))
missing_layers-Promises (layer ∷ layers) {P = P} =
    bind-Promises (λ there s. P s × (has_layer s layer.digest ≡ ok there)) _ _
      (asks-Promises _ (λ s. has_layer s layer.digest) (λ s p. p) (λ s there p e. (p, e)))
      (λ there.
        bind-Promises
          (λ rest s.
            (P s × ((l : Descriptor) → In l layers → In l rest ⊎ (has_layer s l.digest ≡ ok true)))
            × (has_layer s layer.digest ≡ ok there))
          _ _
          (Promises-weaken _
            (missing_layers-Promises layers {P = λ s. P s × (has_layer s layer.digest ≡ ok there)})
            (λ s rest q. ((q.0.0, q.1), q.0.1)) (λ s q. q.0))
          (λ rest.
            pure-Promises _ _ (keep_if there layer rest)
              (λ s q. (q.0.0, found s there rest q.0.1 q.1))))
  where
    found :
        (s : Store) (there : Bool) (rest : List Descriptor)
        → ((l : Descriptor) → In l layers → In l rest ⊎ (has_layer s l.digest ≡ ok true))
        → has_layer s layer.digest ≡ ok there
        → (l : Descriptor) → In l (layer ∷ layers)
        → In l (keep_if there layer rest) ⊎ (has_layer s l.digest ≡ ok true)
    found s true rest h e l (inl same) = inr (rw same e)
    found s true rest h e l (inr i) = h l i
    found s false rest h e l (inl same) = inl (inl same)
    found s false rest h e l (inr i) = elim (h l i) [ inl j ↦ inl (inr j) | inr k ↦ inr k ]

pub fetch_layers-Promises :
    (remote : Remote) (reference : Text) (layers : List Descriptor) (id : ℕ) {P : Store → Type 0}
    (stable : Stable P)
    → Promises P
        (fetch_layers remote reference id layers)
        (λ done s. P s × All (λ (l : Descriptor). has_layer s l.digest ≡ ok true) layers)
        P
unfolding fetch_layers
fetch_layers-Promises remote reference [] id stable = pure-Promises _ _ tt (λ s p. (p, tt))
fetch_layers-Promises remote reference (layer ∷ layers) id {P = P} stable =
    let held = and-Stable stable (has_layer-Stable layer.digest) in
    bind-Promises (λ done s. P s × (has_layer s layer.digest ≡ ok true)) _ _
      (fetch_layer-Promises remote stable reference layer id)
      (λ done.
        Promises-weaken _ (fetch_layers-Promises remote reference layers (suc id) held)
          (λ s a q. (q.0.0, (q.0.1, q.1))) (λ s q. q.0))
