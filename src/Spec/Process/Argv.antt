-- ===== src/Spec/Process/Argv.antt =====
-- What the container's command line and its environment are made of.
use climate.Common.{
  Text, contains, any, if◌then◌else◌, Bool-cases, inl, inr, ◌||◌, Option, none, some, List, [], ◌∷◌,
  ◌++◌, append_assoc, append-nil, Bool, true, false, ◌≡◌, refl, sym, ap, ◌∙◌, arith,
}
use climate.Config.{Entrypoint, string, list, RunConfig}
use climate.Spec.Process.{
  ImageExecConfig, and_then, words, no_words, entrypoint_words, argument_words, command,
  default_path, push_value, push_entry, push_env, sets_path, with_path, environment,
}

-- The words of the image itself, in front and behind.
abbrev pub image_words : Option ImageExecConfig → List Text
image_words image =
    words (and_then image (λ c. c.entrypoint)) ++ words (and_then image (λ c. c.cmd))

abbrev pub uses_default : Option Entrypoint → List Text → Bool
uses_default none extra = no_words extra
uses_default (some e) extra = false

-- If the definition sets no entrypoint, and neither it nor the user gives an argument, the command
-- line is the image's entrypoint and its default command. Otherwise it ends in the definition's
-- arguments and then the user's, all of them, behind nothing but the entrypoint.
pub command_lem :
    {K : Type 0} (run : RunConfig K) (image : Option ImageExecConfig) (user_args : List Text)
    → command run image user_args ≡ (
        if uses_default run.entrypoint (run.args ++ user_args)
        then image_words image
        else entrypoint_words run.entrypoint image ++ (run.args ++ user_args))
unfolding command
command_lem run image user_args = on_entrypoint run.entrypoint (run.args ++ user_args)
  where
    on_entrypoint :
        (e : Option Entrypoint) (extra : List Text)
        → entrypoint_words e image ++ argument_words e image extra
          ≡ (if uses_default e extra then image_words image else entrypoint_words e image ++ extra)
    on_entrypoint none [] = unfold entrypoint_words argument_words in refl
    on_entrypoint none (x ∷ extra) = unfold entrypoint_words argument_words in refl
    on_entrypoint (some (string s)) extra = unfold entrypoint_words argument_words in refl
    on_entrypoint (some (list ws)) extra = unfold entrypoint_words argument_words in refl

any-append : (p : Text → Bool) (a b : List Text) → any p (a ++ b) ≡ (any p a || any p b)
any-append p [] b = refl
any-append p (x ∷ a) b = ground (arith, any-append p a b)

with_path-any : (env : List Text) → any sets_path (with_path env) ≡ true
unfolding with_path
with_path-any env = elim (Bool-cases (any sets_path env)) [
  | inl there ↦ rw there there
  | inr missing ↦ rw missing (any-append sets_path env (default_path ∷ []) ∙ rw missing refl)
]

-- The variables that `push_env` adds stand behind those that are there.
push_env-behind :
    (var : Text → Option Text) (entries env : List Text)
    → (more : List Text) × (push_env var entries env ≡ env ++ more)
unfolding push_env
push_env-behind var [] env = ([], sym (append-nil env))
push_env-behind var (entry ∷ rest) env =
    let (more, e) = push_env-behind var rest (push_entry var entry env) in
    let (new, e') = entry-behind (contains entry b'=') (var entry) in
    (new ++ more, e ∙ ap (λ l. l ++ more) e' ∙ append_assoc env new more)
  where
    entry-behind :
        (b : Bool) (o : Option Text)
        → (new : List Text) × ((if b then env ++ entry ∷ [] else push_value entry o env)
            ≡ env ++ new)
    entry-behind true o = (entry ∷ [], refl)
    entry-behind false none = ([], sym (append-nil env))
    entry-behind false (some value) = ((entry ++ (b'=' ∷ value)) ∷ [], refl)

with_path-behind : (env : List Text) → (more : List Text) × (with_path env ≡ env ++ more)
unfolding with_path
with_path-behind env = elim (Bool-cases (any sets_path env)) [
  | inl there ↦ ([], rw there (sym (append-nil env)))
  | inr missing ↦ (default_path ∷ [], rw missing refl)
]

-- A PATH is always set, and the image's own variables come first, unchanged and in their order.
pub environment_lem :
    {K : Type 0} (var : Text → Option Text) (run : RunConfig K) (image : Option ImageExecConfig)
    → (any sets_path (environment var run image) ≡ true)
      × ((more : List Text) × (environment var run image
            ≡ words (and_then image (λ c. c.env)) ++ more))
unfolding environment
environment_lem var run image =
    let own = words (and_then image (λ c. c.env)) in
    let (added, e) = push_env-behind var run.env own in
    let (path, e') = with_path-behind (push_env var run.env own) in
    (
      with_path-any (push_env var run.env own),
      (added ++ path, e' ∙ ap (λ l. l ++ path) e ∙ append_assoc own added path),
    )
