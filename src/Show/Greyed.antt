-- ===== src/Show/Greyed.antt =====
-- The lines of src/show.rs that are set apart by their colour.
use climate.Common.{
  Text, codes, starts_with, not, if◌then◌else◌, Option, none, some, List, [], ◌∷◌, ◌++◌, Bool, true,
  false, retain, ◌≡◌, refl, ap₂, ◌∙◌,
}
use climate.Config.{AppConfig, Entrypoint}
use climate.Config.Merge.{Table}
use climate.Show.{
  Display, Printer, gray, defaulted, key, limit, install_lines, image_lines, entrypoint_lines,
  run_lines, limit_lines,
}

abbrev pub plain_printer : Printer
plain_printer = record { color = true; defaults = false }

abbrev pub full_printer : Printer
full_printer = record { color = true; defaults = true }

abbrev pub is_stated : Text → Bool
is_stated line = not (starts_with line gray)

retain-append :
    (p : Text → Bool) (xs ys : List Text) → retain p (xs ++ ys) ≡ retain p xs ++ retain p ys
retain-append p [] ys = refl
retain-append p (x ∷ xs) ys = rw (retain-append p xs ys) (by_test (p x))
  where
    by_test :
        (b : Bool)
        → (if b then x ∷ (retain p xs ++ retain p ys) else retain p xs ++ retain p ys)
          ≡ (if b then x ∷ retain p xs else retain p xs) ++ retain p ys
    by_test true = refl
    by_test false = refl

-- What is printed, as a function of the printer, of which the grey lines are those that are left out.
record IsGreyed (f : Printer → List Text) : Type 0 where
  stated : retain is_stated (f full_printer) ≡ f plain_printer

join-IsGreyed : {f g : Printer → List Text} → IsGreyed f → IsGreyed g → IsGreyed (λ p. f p ++ g p)
join-IsGreyed {f = f} {g = g} hf hg = record {
  stated =
      retain-append is_stated (f full_printer) (g full_printer)
      ∙ ap₂ (λ s t. s ++ t) hf.stated hg.stated;
}

defaulted-IsGreyed : (line : Text) → IsGreyed (λ p. defaulted p line)
unfolding defaulted gray
defaulted-IsGreyed line = record { stated = refl }

-- Of a line that does not begin with an escape.
line-IsGreyed : (line : Text) → is_stated line ≡ true → IsGreyed (λ p. line ∷ [])
line-IsGreyed line h = record { stated = rw h refl }

key-IsGreyed :
    (name value : Text) (b : Bool)
    → ((rest : Text) → is_stated (name ++ rest) ≡ true)
    → IsGreyed (λ p. key p name value b)
unfolding key
key-IsGreyed name value true h = defaulted-IsGreyed _
key-IsGreyed name value false h = line-IsGreyed _ (h (codes " = " ++ value))

limit-IsGreyed :
    (name : Text) (value : Option Text) (unset : Text)
    → ((rest : Text) → is_stated (name ++ rest) ≡ true)
    → IsGreyed (λ p. limit p name value unset)
unfolding limit
limit-IsGreyed name none unset h = defaulted-IsGreyed _
limit-IsGreyed name (some value) unset h = key-IsGreyed name value false h

module _ {V F K : Type 0} (display : Display F K) (raw : Table V) (config : AppConfig F K) where
  install-IsGreyed : (install : Option Text) → IsGreyed (λ p. install_lines display p install)
  unfolding gray
  install-IsGreyed none = defaulted-IsGreyed _
  install-IsGreyed (some script) = line-IsGreyed _ refl

  entrypoint-IsGreyed : (e : Option Entrypoint) → IsGreyed (λ p. entrypoint_lines display p raw e)
  unfolding gray
  entrypoint-IsGreyed none = defaulted-IsGreyed _
  entrypoint-IsGreyed (some e) = key-IsGreyed _ _ false (λ rest. refl)

  image-IsGreyed : IsGreyed (λ p. image_lines display p raw config.image)
  unfolding image_lines gray
  image-IsGreyed = join-IsGreyed (line-IsGreyed _ refl) (
      join-IsGreyed (key-IsGreyed _ _ _ (λ rest. refl))
        (join-IsGreyed (key-IsGreyed _ _ _ (λ rest. refl)) (install-IsGreyed config.image.install)))

  run-IsGreyed : IsGreyed (λ p. run_lines display p raw config.run)
  unfolding run_lines gray
  run-IsGreyed = join-IsGreyed (entrypoint-IsGreyed config.run.entrypoint) (
      join-IsGreyed (key-IsGreyed _ _ _ (λ rest. refl)) (
        join-IsGreyed (key-IsGreyed _ _ _ (λ rest. refl)) (
          join-IsGreyed (key-IsGreyed _ _ _ (λ rest. refl)) (
            join-IsGreyed (key-IsGreyed _ _ _ (λ rest. refl)) (
              join-IsGreyed (key-IsGreyed _ _ _ (λ rest. refl)) (
                join-IsGreyed (key-IsGreyed _ _ _ (λ rest. refl)) (
                  join-IsGreyed (key-IsGreyed _ _ _ (λ rest. refl))
                    (key-IsGreyed _ _ _ (λ rest. refl)))))))))

  limits-IsGreyed : IsGreyed (λ p. limit_lines display p raw config.limits)
  unfolding limit_lines gray
  limits-IsGreyed = join-IsGreyed (limit-IsGreyed _ _ _ (λ rest. refl)) (
      join-IsGreyed (limit-IsGreyed _ _ _ (λ rest. refl)) (
        join-IsGreyed (limit-IsGreyed _ _ _ (λ rest. refl)) (
          join-IsGreyed (limit-IsGreyed _ _ _ (λ rest. refl)) (
            join-IsGreyed (limit-IsGreyed _ _ _ (λ rest. refl))
              (limit-IsGreyed _ _ _ (λ rest. refl))))))

  -- On a terminal, the lines of a section that are grey with the defaults shown are the ones that are
  -- left out with the defaults hidden: the others are the same lines in the same order.
  pub is_stated-lines :
      (retain is_stated (image_lines display full_printer raw config.image)
        ≡ image_lines display plain_printer raw config.image)
      × ((retain is_stated (run_lines display full_printer raw config.run)
            ≡ run_lines display plain_printer raw config.run)
          × (retain is_stated (limit_lines display full_printer raw config.limits)
              ≡ limit_lines display plain_printer raw config.limits))
  is_stated-lines = (image-IsGreyed.stated, (run-IsGreyed.stated, limits-IsGreyed.stated))
