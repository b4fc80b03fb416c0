-- ===== src/Compare/Configs/Variables.antt =====
-- The variables of an image, the last assignment of each, and an image beside itself.
use chicoree.Prelude.{
  ◌≡◌, refl, sym, ap, ◌∙◌, false, not, Bool-cases, inl, inr, if-cases, Option, some, List, [], ◌∷◌,
  ◌++◌, any, All, All-append, str_eq_sym, ◌==◌, if◌then◌else◌, Str, str, str_eq, str_eq→eq, arith,
}
use chicoree.Compare.Configs.{
  ConfigDiffRow, Entries, get_entry, set_entry, further, at_equals, set_variable, env_from, env_map,
  same_value, some_text, ImageConfigView, config_of, join_argv, sorted_keys, platform_of,
  keyed_rows, diff_config,
}
use chicoree.Compare.Configs.Keyed.{keyed_rows-unchanged, same_value_refl}

get_entry-set_entry :
    (m : Entries) (k v j : Str)
    → get_entry (set_entry m k v) j ≡ (if str_eq k j then some v else get_entry m j)
unfolding get_entry set_entry
get_entry-set_entry [] k v j = refl
get_entry-set_entry (e ∷ es) k v j =
    let rest = get_entry-set_entry es k v j in
    if-cases (λ m. get_entry m j ≡ (if str_eq k j then some v else get_entry (e ∷ es) j))
      (str_eq e.0 k)
      (λ q. let same = ap (λ x. str_eq x j) (str_eq→eq e.0 k q) in ground (arith, same))
      (λ q. elim (Bool-cases (str_eq e.0 j)) [
        | inl h ↦
            let other = ap (λ x. str_eq k x) (sym (str_eq→eq e.0 j h)) ∙ str_eq_sym k e.0 ∙ q in
            ground (arith, h, other)
        | inr h ↦ ground (arith, h, rest)
      ])

env_from-append :
    (m : Entries) (env : List Str) (e : Str)
    → env_from m (env ++ e ∷ []) ≡ set_variable (env_from m env) e (at_equals e)
unfolding env_from
env_from-append m [] e = refl
env_from-append m (x ∷ env) e = env_from-append (set_variable m x (at_equals x)) env e

at_equals-assignment :
    (name value : Str)
    → any (λ c. c == b'=') name ≡ false
    → at_equals (name ++ b'=' ∷ value) ≡ some (name, value)
unfolding at_equals further
at_equals-assignment [] value h = refl
at_equals-assignment (c ∷ name) value h =
    let rest = at_equals-assignment name value in ground (arith, h, rest)

-- An assignment at the end of the list decides its variable.
pub env_map-assignment :
    (env : List Str) (name value other : Str)
    → any (λ c. c == b'=') name ≡ false
    → get_entry (env_map (env ++ (name ++ b'=' ∷ value) ∷ [])) other
      ≡ (if str_eq name other then some value else get_entry (env_map env) other)
unfolding env_map set_variable
env_map-assignment env name value other h =
    ap (λ m. get_entry m other)
      (env_from-append [] env (name ++ b'=' ∷ value)
        ∙ ap (set_variable (env_from [] env) (name ++ b'=' ∷ value))
            (at_equals-assignment name value h))
    ∙ get_entry-set_entry (env_from [] env) name value other

abbrev pub IsUnchanged : ConfigDiffRow → Type 0
IsUnchanged r = r.changed ≡ false

any-IsUnchanged :
    (rs : List ConfigDiffRow)
    → any (λ (r : ConfigDiffRow). r.changed) rs ≡ false
    → All IsUnchanged rs
any-IsUnchanged [] h = tt
any-IsUnchanged (r ∷ rs) h = ground (arith, h, any-IsUnchanged rs)

keyed_rows-IsUnchanged : (section : Str) (m : Entries) → All IsUnchanged (keyed_rows section m m)
keyed_rows-IsUnchanged section m =
    any-IsUnchanged (keyed_rows section m m) ((keyed_rows-unchanged section m m).1 (λ k. refl))

same-unchanged : (v : Option Str) → not (same_value v v) ≡ false
same-unchanged v = rw (same_value_refl v) refl

-- A configuration compared with itself shows no change.
pub diff_config-IsUnchanged :
    (stringify : Str → Str) (c : Option ImageConfigView)
    → All IsUnchanged (diff_config stringify c c)
unfolding diff_config
diff_config-IsUnchanged stringify c =
    let a = config_of c in
    let both =
      All-append IsUnchanged (keyed_rows (str "env") (env_map a.env) (env_map a.env))
        (keyed_rows (str "labels") a.labels a.labels)
        (keyed_rows-IsUnchanged (str "env") (env_map a.env))
        (keyed_rows-IsUnchanged (str "labels") a.labels) in
    (
      same-unchanged (some_text (join_argv stringify a.entrypoint)),
      (
        same-unchanged (some_text (join_argv stringify a.cmd)),
        (
          same-unchanged (some_text a.user),
          (
            same-unchanged (some_text a.working_dir),
            (
              same-unchanged (some_text (sorted_keys a.exposed_ports)),
              (
                same-unchanged (some_text (sorted_keys a.volumes)),
                (
                  same-unchanged (some_text a.stop_signal),
                  (same-unchanged (some_text (platform_of c)), both),
                ),
              ),
            ),
          ),
        ),
      ),
    )
