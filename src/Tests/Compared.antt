-- ===== src/Tests/Compared.antt =====
-- Two images side by side.
use Prim.Native.Nat.{Ordering}
use chicoree.Prelude.{
  false, any, ◌↔◌, ℕ, ◌≡◌, refl, Option, none, some, List, [], ◌∷◌, filter, Str, str, str_eq,
  is_space, trim,
}
use chicoree.Compare.Instructions.{clean_command, clean_given}
use chicoree.Compare.Layers.{LayerInfo, LayerDiff, diff_layers, is_removed, is_added}
use chicoree.Compare.Layers.Repeats.{missing_in, layers_of, stays, each_once}
use chicoree.Compare.Layers.Walk.{diff_layers-sides, diff_layers-Adds}
use chicoree.Compare.Layers.Counts.{Adds}
use chicoree.Compare.Configs.{
  ConfigDiffRow, keyed_rows, get_entry, Entries, env_map, at_equals, set_entry,
}
use chicoree.Compare.Configs.Keyed.{keyed_rows-unchanged}
use chicoree.Compare.Findings.{Finding, ScanRow, RawFinding, Value}
use chicoree.Compare.Findings.Diff.{diff_findings}
use chicoree.Compare.Findings.Diff.Sides.{Compares, diff_findings-Compares}

abbrev layer : Str → ℕ → LayerInfo
layer digest size = record { digest = digest; size = size; media_type = none; command = none }

abbrev before_layers : List LayerInfo
before_layers = layer (str "a") 10 ∷ layer (str "b") 20 ∷ layer (str "c") 30 ∷ []

-- The first two have changed places, and there is a new one.
abbrev after_layers : List LayerInfo
after_layers = layer (str "b") 20 ∷ layer (str "a") 10 ∷ layer (str "d") 5 ∷ []

clean_run : clean_command (some (str "/bin/sh -c apt-get update")) ≡ some (str "RUN apt-get update")
unfolding clean_command clean_given is_space trim
clean_run = refl

clean_nop : clean_command (some (str "/bin/sh -c #(nop)  CMD x")) ≡ some (str "CMD x")
unfolding clean_command clean_given is_space trim
clean_nop = refl

diff_layers-sides_example :
    (d : LayerDiff) × (diff_layers before_layers after_layers ≡ some d)
    × (layers_of (filter is_removed d.rows) ≡ filter (missing_in after_layers) before_layers)
    × (layers_of (filter is_added d.rows) ≡ filter (missing_in before_layers) after_layers)
    × (layers_of (filter stays d.rows) ≡ each_once before_layers [] after_layers)
diff_layers-sides_example = diff_layers-sides before_layers after_layers

abbrev old_env : Entries
old_env = (str "PATH", str "/bin") ∷ (str "HOME", str "/root") ∷ []

abbrev new_env : Entries
new_env = (str "HOME", str "/root") ∷ (str "PATH", str "/usr/bin") ∷ []

env_last :
    env_map (str "A=1" ∷ str "B" ∷ str "A=2=3" ∷ []) ≡ (str "A", str "2=3") ∷ (str "B", []) ∷ []
unfolding env_map at_equals set_entry str_eq
env_last = refl

abbrev finding : Str → Str → Finding
finding id severity = record {
  id = id;
  name = id;
  severity = severity;
  package_name = str "openssl";
  package_version = str "3.0";
  fixed_in = none;
  link = none;
}

abbrev any_order : Str → Str → Ordering
any_order a b = Ordering.eq

diff_findings-Compares_example :
    Compares
      (finding (str "CVE-1") (str "High") ∷ finding (str "CVE-2") (str "Low") ∷ [])
      (finding (str "CVE-2") (str "Low") ∷ finding (str "CVE-3") (str "Critical") ∷ [])
      (diff_findings any_order
        (finding (str "CVE-1") (str "High") ∷ finding (str "CVE-2") (str "Low") ∷ [])
        (finding (str "CVE-2") (str "Low") ∷ finding (str "CVE-3") (str "Critical") ∷ []))
diff_findings-Compares_example =
    diff_findings-Compares any_order
      (finding (str "CVE-1") (str "High") ∷ finding (str "CVE-2") (str "Low") ∷ [])
      (finding (str "CVE-2") (str "Low") ∷ finding (str "CVE-3") (str "Critical") ∷ [])

-- A finding that is reported twice.
abbrev reported : RawFinding
reported = record { field = λ key. Value.text (str "CVE-1"); package_field = none }

abbrev scanned_row : Option ScanRow
scanned_row = some (record { findings = some (reported ∷ reported ∷ []); report = none })

diff_layers-Adds_example :
    (d : LayerDiff) × (diff_layers before_layers after_layers ≡ some d)
    × Adds before_layers after_layers d
diff_layers-Adds_example = diff_layers-Adds before_layers after_layers

keyed_rows-unchanged_example :
    (any (λ (r : ConfigDiffRow). r.changed) (keyed_rows (str "Environment") old_env new_env)
      ≡ false)
    ↔ ((k : Str) → get_entry old_env k ≡ get_entry new_env k)
keyed_rows-unchanged_example = keyed_rows-unchanged (str "Environment") old_env new_env
