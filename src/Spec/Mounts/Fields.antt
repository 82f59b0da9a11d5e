-- ===== src/Spec/Mounts/Fields.antt =====
-- `parse_mount` on the four ways to write a share.
use climate.Common.{
  Text, codes, split, text_eq, Lacks, ◌==◌, some, [], ◌∷◌, ◌++◌, Bool, true, false, ok, ◌≡◌, refl,
  ℕ,
}
use climate.Spec.Mounts.{is_access, mount_fields, is_readonly, parse_mount}

abbrev pub is_colon : ℕ → Bool
is_colon c = c == b':'

split-Lacks : (s : Text) → Lacks is_colon s → split b':' s ≡ s ∷ []
split-Lacks [] h = refl
split-Lacks (c ∷ s) h = rw (split-Lacks s h.1, h.0) refl

split-append : (s t : Text) → Lacks is_colon s → split b':' (s ++ (b':' ∷ t)) ≡ s ∷ split b':' t
split-append [] t h = refl
split-append (c ∷ s) t h = rw (split-append s t h.1, h.0) refl

abbrev pub access_word : Bool → Text
access_word true = codes "ro"
access_word false = codes "rw"

word-Lacks : (b : Bool) → Lacks is_colon (access_word b)
word-Lacks true = (refl, (refl, tt))
word-Lacks false = (refl, (refl, tt))

word-is_access : (b : Bool) → is_access (access_word b) ≡ true
unfolding text_eq
word-is_access true = refl
word-is_access false = refl

is_readonly-word : (entry : Text) (b : Bool) → is_readonly entry (some (access_word b)) ≡ ok b
unfolding is_readonly text_eq
is_readonly-word entry true = refl
is_readonly-word entry false = refl

-- A path without a colon is shared read-write under its own name, with `:ro` or `:rw` behind it as
-- that says; with another path behind it, which is neither of the two words, it is shared there,
-- read-write, or with a third field as that says.
pub parse_mount_lem :
    (source destination : Text) (readonly : Bool)
    → Lacks is_colon source
    → Lacks is_colon destination
    → is_access destination ≡ false
    → (parse_mount source ≡ ok (record { source = source; destination = source; readonly = false }))
      × (parse_mount (source ++ (b':' ∷ access_word readonly))
          ≡ ok (record { source = source; destination = source; readonly = readonly }))
      × (parse_mount (source ++ (b':' ∷ destination))
          ≡ ok (record { source = source; destination = destination; readonly = false }))
      × (parse_mount (source ++ (b':' ∷ (destination ++ (b':' ∷ access_word readonly))))
          ≡ ok (record { source = source; destination = destination; readonly = readonly }))
unfolding parse_mount mount_fields
parse_mount_lem source destination readonly hs hd other = (
  rw (split-Lacks source hs) (unfold is_readonly in refl),
  rw
      (
        split-append source (access_word readonly) hs,
        split-Lacks (access_word readonly) (word-Lacks readonly),
      )
      (rw (word-is_access readonly, is_readonly-word _ readonly) refl),
  rw (split-append source destination hs, split-Lacks destination hd, other)
      (unfold is_readonly in refl),
  rw
      (
        split-append source (destination ++ (b':' ∷ access_word readonly)) hs,
        split-append destination (access_word readonly) hd,
        split-Lacks (access_word readonly) (word-Lacks readonly),
      )
      (rw (is_readonly-word _ readonly) refl),
)
