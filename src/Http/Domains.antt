-- ===== src/Http/Domains.antt =====
-- Which hosts the `http` capability sends a request to.
use mathlib.Core.List.{Memᴰ}
use kunkka.Base.{ℕ, String, ◌≡◌, ◌⊎◌, true, Option, some, List}
use kunkka.Ipc.{Bytes}
use kunkka.Http.{HttpHost, RedirectAction, follow, is_allowed_domain}

module _ (h : HttpHost) where
  -- The URL's host is one of the domains, up to the case of ASCII letters.
  abbrev pub IsAllowedUrl : List String → h.Url → Type 0
  IsAllowedUrl domains url =
      (host : String) × (h.host_str url ≡ some host) × (is_allowed_domain domains host ≡ true)

  -- What reqwest documents of a policy: beyond the URL that it is given, a client sends a request only to
  -- a URL whose redirect the policy has followed.
  abbrev pub RespectsPolicy : Type 0
  RespectsPolicy =
      (policy : ℕ → h.Url → RedirectAction) (method : String) (url : h.Url)
      (headers : List (String × String)) (body : Option Bytes) (contacted : h.Url)
      → Memᴰ contacted ((h.send policy method url headers body).1)
      → (contacted ≡ url) ⊎ ((previous : ℕ) × (policy previous contacted ≡ follow))
