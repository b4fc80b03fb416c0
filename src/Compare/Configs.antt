-- ===== src/Compare/Configs.antt =====
-- The rows for configuration and annotations of two images, from web/src/lib/compare-shared.ts.
pub mod Keyed
pub mod Variables
use Prim.Native.Nat.{Ordering, compare}
use chicoree.Prelude.{
  ℕ, ◌+◌, Bool, true, false, not, ◌&&◌, ◌||◌, Option, none, some, get_or, List, [], ◌∷◌, ◌++◌, map,
  any, ◌==◌, if◌then◌else◌, Str, str, str_eq, includes, is_empty, is_space,
}
use chicoree.Prelude.Sorting.{sort, or_else}

pub record ConfigDiffRow : Type 0 where
  pub section : Str
  pub key : Str
  pub from : Option Str
  pub to : Option Str
  pub changed : Bool

-- A `Map` from strings to strings: its entries in the order of their first setting.
abbrev pub Entries : Type 0
Entries = List (Str × Str)

unfoldable pub get_entry : Entries → Str → Option Str
get_entry [] key = none
get_entry (e ∷ es) key = let rest = get_entry es key in if str_eq e.0 key then some e.1 else rest

-- `m.set(key, value)`
unfoldable pub set_entry : Entries → Str → Str → Entries
set_entry [] key value = (key, value) ∷ []
set_entry (e ∷ es) key value =
    let rest = set_entry es key value in if str_eq e.0 key then (e.0, value) ∷ es else e ∷ rest

further : ℕ → Option (Str × Str) → Option (Str × Str)
further c none = none
further c (some (before, behind)) = some (c ∷ before, behind)

-- What is before the first `=` and behind it; `none` where there is none.
unfoldable pub at_equals : Str → Option (Str × Str)
unfolding further
at_equals [] = none
at_equals (c ∷ s) = let rest = further c (at_equals s) in if c == b'=' then some ([], s) else rest

set_variable : Entries → Str → Option (Str × Str) → Entries
unfolding set_entry
set_variable m e none = set_entry m e []
set_variable m e (some (key, value)) = set_entry m key value

env_from : Entries → List Str → Entries
unfolding set_variable at_equals
env_from m [] = m
env_from m (e ∷ es) = env_from (set_variable m e (at_equals e)) es

unfoldable pub env_map : List Str → Entries
unfolding env_from
env_map env = env_from [] env

-- The order of `sort()` on strings, by code units.
unfoldable pub code_order : Str → Str → Ordering
code_order [] [] = Ordering.eq
code_order [] (_ ∷ _) = Ordering.lt
code_order (_ ∷ _) [] = Ordering.gt
code_order (a ∷ s) (b ∷ t) = let rest = code_order s t in or_else (compare a b) rest

-- `Array.from(new Set(keys))`
unfoldable pub once_each : List Str → List Str → List Str
once_each seen [] = []
once_each seen (k ∷ ks) =
    let again = includes seen k in
    let rest = once_each (if again then seen else k ∷ seen) ks in if again then rest else k ∷ rest

pub same_value : Option Str → Option Str → Bool
same_value none none = true
same_value none (some _) = false
same_value (some _) none = false
same_value (some s) (some t) = str_eq s t

keyed_row : Str → Entries → Entries → Str → ConfigDiffRow
unfolding get_entry same_value
keyed_row section a b k =
    let from = get_entry a k in
    let to = get_entry b k in
    record { section = section; key = k; from = from; to = to; changed = not (same_value from to) }

keys : Entries → List Str
keys m = map (λ e. e.0) m

unfoldable pub keyed_rows : Str → Entries → Entries → List ConfigDiffRow
unfolding keyed_row once_each code_order keys
keyed_rows section a b =
    map (keyed_row section a b) (sort code_order (once_each [] (keys a ++ keys b)))

some_text : Option Str → Option Str
some_text none = none
some_text (some s) = if is_empty s then none else some s

scalar_row : (section key : Str) → Option Str → Option Str → ConfigDiffRow
unfolding some_text same_value
scalar_row section key from to =
    let f = some_text from in
    let t = some_text to in
    record { section = section; key = key; from = f; to = t; changed = not (same_value f t) }

pub record ContainerConfig : Type 0 where
  pub env : List Str
  pub entrypoint : List Str
  pub cmd : List Str
  pub user : Option Str
  pub working_dir : Option Str
  pub exposed_ports : List Str
  pub labels : Entries
  pub volumes : List Str
  pub stop_signal : Option Str

pub record ImageConfigView : Type 0 where
  pub architecture : Option Str
  pub os : Option Str
  pub variant : Option Str
  pub config : Option ContainerConfig

-- `{}`
abbrev no_config : ContainerConfig
no_config = record {
  env = [];
  entrypoint = [];
  cmd = [];
  user = none;
  working_dir = none;
  exposed_ports = [];
  labels = [];
  volumes = [];
  stop_signal = none;
}

config_of : Option ImageConfigView → ContainerConfig
config_of none = no_config
config_of (some c) = get_or c.config no_config

-- `parts.join(separator)`
unfoldable pub join_with : Str → List Str → Str
join_with separator [] = []
join_with separator (p ∷ ps) =
    let rest = join_with separator ps in if is_empty ps then p else p ++ separator ++ rest

sorted_keys : List Str → Option Str
unfolding code_order join_with
sorted_keys ks = some (join_with (str ", ") (sort code_order ks))

is_given : Option Str → Bool
is_given none = false
is_given (some s) = not (is_empty s)

variant_part : Option Str → Str
variant_part none = []
variant_part (some v) = if is_empty v then [] else b'/' ∷ v

unfoldable pub platform_of : Option ImageConfigView → Option Str
unfolding is_given variant_part
platform_of none = none
platform_of (some c) =
    if not (is_given c.os) && not (is_given c.architecture)
    then none
    else some
        (get_or c.os (str "?") ++ b'/' ∷ get_or c.architecture (str "?") ++ variant_part c.variant)

-- `JSON.stringify` on strings is the host's.
module _ (stringify : Str → Str) where
  quoted : Str → Str
  unfolding is_space
  quoted a = if any (λ c. is_space c || c == b'"') a then stringify a else a

  join_argv : List Str → Option Str
  unfolding quoted join_with
  join_argv [] = none
  join_argv (a ∷ args) = some (join_with (str " ") (map quoted (a ∷ args)))

  unfoldable pub diff_config : Option ImageConfigView → Option ImageConfigView → List ConfigDiffRow
  unfolding config_of scalar_row join_argv sorted_keys platform_of keyed_rows env_map
  diff_config from to =
      let a = config_of from in
      let b = config_of to in
      scalar_row (str "entrypoint") (str "Entrypoint") (join_argv a.entrypoint)
          (join_argv b.entrypoint)
        ∷ scalar_row (str "cmd") (str "Cmd") (join_argv a.cmd) (join_argv b.cmd)
        ∷ scalar_row (str "user") (str "User") a.user b.user
        ∷ scalar_row (str "workdir") (str "WorkingDir") a.working_dir b.working_dir
        ∷ scalar_row (str "ports") (str "ExposedPorts") (sorted_keys a.exposed_ports)
            (sorted_keys b.exposed_ports)
        ∷ scalar_row (str "volumes") (str "Volumes") (sorted_keys a.volumes) (sorted_keys b.volumes)
        ∷ scalar_row (str "stopsignal") (str "StopSignal") a.stop_signal b.stop_signal
        ∷ scalar_row (str "platform") (str "Platform") (platform_of from) (platform_of to)
        ∷ keyed_rows (str "env") (env_map a.env) (env_map b.env)
      ++ keyed_rows (str "labels") a.labels b.labels

unfoldable pub diff_annotations : Entries → Entries → List ConfigDiffRow
unfolding keyed_rows
diff_annotations from to = keyed_rows (str "annotations") from to
