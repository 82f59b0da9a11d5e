-- ===== src/Spec/Process.antt =====
-- `command` and `environment` of src/spec.rs. The host's variables are a parameter.
pub mod Argv
use climate.Common.{
  Text, codes, starts_with, contains, any, not, if◌then◌else◌, is_empty, Option, none, some, List,
  [], ◌∷◌, ◌++◌, Bool, true, false,
}
use climate.Config.{Entrypoint, string, list, RunConfig}

-- What the program reads of the image's own settings.
pub record ImageExecConfig : Type 0 where
  pub entrypoint : Option (List Text)
  pub cmd : Option (List Text)
  pub env : Option (List Text)
  pub working_dir : Option Text

abbrev pub and_then :
    Option ImageExecConfig → (ImageExecConfig → Option (List Text)) → Option (List Text)
and_then none f = none
and_then (some image) f = f image

abbrev pub words : Option (List Text) → List Text
words none = []
words (some ws) = ws

abbrev pub no_words : List Text → Bool
no_words [] = true
no_words (w ∷ ws) = false

unfoldable pub entrypoint_words : Option Entrypoint → Option ImageExecConfig → List Text
entrypoint_words (some (string s)) image = s ∷ []
entrypoint_words (some (list ws)) image = ws
entrypoint_words none image = words (and_then image (λ c. c.entrypoint))

-- Behind the entrypoint.
unfoldable pub argument_words : Option Entrypoint → Option ImageExecConfig → List Text → List Text
argument_words (some e) image extra = extra
argument_words none image extra =
    if no_words extra then words (and_then image (λ c. c.cmd)) else extra

unfoldable pub command : {K : Type 0} → RunConfig K → Option ImageExecConfig → List Text → List Text
command run image user_args =
    let extra = run.args ++ user_args in
    entrypoint_words run.entrypoint image ++ argument_words run.entrypoint image extra

abbrev pub default_path : Text
default_path = codes "PATH=/usr/local/sbin:/usr/local/bin:/usr/sbin:/usr/bin:/sbin:/bin"

abbrev pub push_value : Text → Option Text → List Text → List Text
push_value entry none env = env
push_value entry (some value) env = env ++ (entry ++ (b'=' ∷ value)) ∷ []

-- The round for one entry of `run.env`.
abbrev pub push_entry : (Text → Option Text) → Text → List Text → List Text
push_entry var entry env =
    if contains entry b'=' then env ++ entry ∷ [] else push_value entry (var entry) env

unfoldable pub push_env : (Text → Option Text) → List Text → List Text → List Text
push_env var [] env = env
push_env var (entry ∷ rest) env = push_env var rest (push_entry var entry env)

abbrev pub sets_path : Text → Bool
sets_path e = starts_with e (codes "PATH=")

unfoldable pub with_path : List Text → List Text
with_path env = if not (any sets_path env) then env ++ default_path ∷ [] else env

unfoldable pub environment :
    {K : Type 0} → (Text → Option Text) → RunConfig K → Option ImageExecConfig → List Text
environment var run image = with_path (push_env var run.env (words (and_then image (λ c. c.env))))
