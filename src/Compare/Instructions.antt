-- ===== src/Compare/Instructions.antt =====
-- The layers of an image with their instructions, from web/src/lib/compare-shared.ts.
use chicoree.Prelude.{
  ℕ, Bool, not, Option, none, some, get_or, List, [], ◌∷◌, ◌++◌, map, filter, drop, if◌then◌else◌,
  Str, str, is_empty, is_space, trim, after_prefix,
}
use chicoree.Compare.Layers.{LayerInfo, head}

pub record History : Type 0 where
  pub created_by : Option Str
  pub empty_layer : Bool

-- `\s*`
skip_spaces : Str → Str
unfolding is_space
skip_spaces [] = []
skip_spaces (c ∷ s) = let rest = skip_spaces s in if is_space c then rest else c ∷ s

-- `s.replace(/^prefix\s*/, by)`
replace_prefix : Str → Str → Str → Str
unfolding after_prefix skip_spaces
replace_prefix prefix by s = elim (after_prefix prefix s) [
  | none ↦ s
  | some rest ↦ by ++ skip_spaces rest
]

-- `cleanCommand`, for a command that is given.
unfoldable pub clean_given : Str → Option Str
unfolding replace_prefix trim
clean_given cmd =
    if is_empty cmd
    then none
    else some (
        trim (
          replace_prefix (str "/bin/sh -c") (str "RUN ")
            (replace_prefix (str "/bin/sh -c #(nop)") [] cmd)))

unfoldable pub clean_command : Option Str → Option Str
unfolding clean_given
clean_command none = none
clean_command (some cmd) = clean_given cmd

-- The instructions of the layers that are not empty.
commands : List History → List Str
commands history = map (λ h. get_or h.created_by []) (filter (λ h. not h.empty_layer) history)

pub record Layer : Type 0 where
  pub digest : Option Str
  pub size : Option ℕ
  pub media_type : Option Str

with_instructions : List Layer → List Str → List LayerInfo
unfolding clean_command
with_instructions [] cs = []
with_instructions (l ∷ ls) cs =
    let rest = with_instructions ls (drop 1 cs) in
    record {
      digest = get_or l.digest [];
      size = get_or l.size 0;
      media_type = l.media_type;
      command = clean_command (head cs);
    }
    ∷ rest

unfoldable pub layers_with_instructions : List Layer → List History → List LayerInfo
unfolding with_instructions commands
layers_with_instructions layers history = with_instructions layers (commands history)
