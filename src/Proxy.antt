-- ===== src/Proxy.antt =====
-- web/src/lib/proxy-shared.ts: names in proxy-cache organizations. `url_host` is the host that the
-- URL parser finds, `none` where it throws.
pub mod Names
use chicoree.Prelude.{
  ℕ, ◌≡◌, refl, Bool, true, false, not, ◌||◌, ◌&&◌, Option, none, some, List, [], ◌∷◌, ◌++◌, ◌==◌,
  leb, if◌then◌else◌, Str, str, str_eq, includes, is_empty, lower, trim,
}

pub data ProxyPreset : Type 0 where
  dockerhub ghcr quay custom : ProxyPreset

-- `s.split(c)[0]`
unfoldable pub before : ℕ → Str → Str
before c [] = []
before c (d ∷ s) = let rest = d ∷ before c s in if d == c then [] else rest

-- `s.includes("/")`
unfoldable pub has_slash : Str → Bool
has_slash [] = false
has_slash (c ∷ s) = c == b'/' || has_slash s

-- `s.startsWith(prefix) ? s.slice(prefix.length) : null`
unfoldable pub strip_prefix : Str → Str → Option Str
strip_prefix [] s = some s
strip_prefix (c ∷ p) [] = none
strip_prefix (c ∷ p) (d ∷ s) = let rest = strip_prefix p s in if c == d then rest else none

strip_scheme : Str → Str
unfolding strip_prefix
strip_scheme s = elim (strip_prefix (str "https://") s) [
  | some rest ↦ rest
  | none ↦ elim (strip_prefix (str "http://") s) [ some rest ↦ rest | none ↦ s ]
]

module _ (url_host : Str → Option Str) where
  host_of : Str → Str
  unfolding strip_scheme before
  host_of url = elim (url_host (trim url)) [
    | some host ↦ lower host
    | none ↦ lower (before b'/' (strip_scheme (trim url)))
  ]

  is_docker_hub_host : Str → Bool
  unfolding before includes
  is_docker_hub_host host =
      includes
        (str "registry-1.docker.io"
          ∷ str "index.docker.io"
          ∷ str "docker.io"
          ∷ str "registry.hub.docker.com"
          ∷ str "hub.docker.com"
          ∷ [])
        (before b':' host)

  unfoldable pub preset_for : Str → ProxyPreset
  unfolding host_of is_docker_hub_host
  preset_for url =
      let host = host_of url in
      if is_docker_hub_host host
      then dockerhub
      else if str_eq host (str "ghcr.io")
      then ghcr
      else if str_eq host (str "quay.io")
      then quay
      else custom

  unfoldable pub is_docker_hub_url : Str → Bool
  unfolding host_of is_docker_hub_host
  is_docker_hub_url url = is_docker_hub_host (host_of url)

  unfoldable pub display_host : Str → Str
  unfolding host_of is_docker_hub_host
  display_host url =
      let host = host_of url in if is_docker_hub_host host then str "docker.io" else host

short_name : Option Str → Str → Str
unfolding has_slash
short_name none requested = requested
short_name (some rest) requested =
    if not (is_empty rest) && not (has_slash rest) then rest else requested

unfoldable pub proxy_local_name : Bool → Str → Str
unfolding short_name strip_prefix
proxy_local_name docker_hub requested =
    if docker_hub then short_name (strip_prefix (str "library/") requested) requested else requested

unfoldable pub proxy_upstream_path : Bool → Str → Str
unfolding has_slash
proxy_upstream_path docker_hub local =
    if docker_hub && not (has_slash local) then str "library/" ++ local else local
