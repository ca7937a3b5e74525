-- ===== src/Containers/Env.antt =====
-- The environment of a container in web/src/components/containers/ContainerDetail.tsx: `EnvSection` with
-- its test on keys, where the values of sensitive keys are hidden until they are revealed.
pub mod Hidden
use control_room.Base.{
  String, Bool, true, false, not, ◌&&◌, List, [], ◌∷◌, map, any, Option, none, some, if◌then◌else◌,
}
use control_room.Containers.Entry.{split_entry, occurs}

-- The alternatives of `SENSITIVE_KEY`.
abbrev pub words : List String
words = "PASSWORD" ∷ "SECRET" ∷ "TOKEN" ∷ "KEY" ∷ "API" ∷ "CREDENTIAL" ∷ []

-- `SENSITIVE_KEY.test(key)`
unfoldable pub is_sensitive : String → Bool
unfolding occurs
is_sensitive key = any (λ w. occurs w key) words

-- What a line shows: the entry as it is, a key with its value, or a key with dots.
pub data Line : Type 0 where
  whole : String → Line
  pair : String → String → Line
  dots : String → Line

unfoldable pub line_of : Bool → Option (String × String) → String → Line
unfolding is_sensitive
line_of revealed none e = whole e
line_of revealed (some (key, val)) e =
    if is_sensitive key && not revealed then dots key else pair key val

unfoldable pub lines : Bool → List String → List Line
unfolding line_of split_entry
lines revealed env = map (λ e. line_of revealed (split_entry e) e) env
