-- ===== src/Proxy/Names.antt =====
-- The two name maps of a proxy cache.
use chicoree.Prelude.{◌≡◌, refl, Bool, true, false, none, [], ◌∷◌, ◌++◌, Str, str, is_empty, arith}
use chicoree.Proxy.{has_slash, strip_prefix, proxy_local_name, proxy_upstream_path}

-- The local name of the upstream path of a stored repository is that repository.
pub local-upstream :
    (docker_hub : Bool) (local : Str)
    → is_empty local ≡ false
    → proxy_local_name docker_hub local ≡ local
    → proxy_local_name docker_hub (proxy_upstream_path docker_hub local) ≡ local
unfolding proxy_local_name proxy_upstream_path
local-upstream docker_hub local h stored = ground arith

strip_prefix-none : (p s : Str) → has_slash p ≡ true → has_slash s ≡ false → strip_prefix p s ≡ none
unfolding strip_prefix has_slash
strip_prefix-none [] s h k = cc
strip_prefix-none (c ∷ p) [] h k = refl
strip_prefix-none (c ∷ p) (d ∷ s) h k = ground (arith, strip_prefix-none p s)

no_library : (s : Str) → has_slash s ≡ false → strip_prefix (str "library/") s ≡ none
no_library s h = strip_prefix-none (str "library/") s (unfold has_slash in refl) h

-- An image of the Docker Hub library is one local repository in both of its spellings.
pub local-library :
    (local : Str)
    → is_empty local ≡ false
    → has_slash local ≡ false
    → proxy_local_name true (str "library/" ++ local) ≡ proxy_local_name true local
unfolding proxy_local_name
local-library local h plain = rw (no_library local plain) (ground arith)
