-- ===== src/Http.antt =====
-- crates/kunkka-core/src/capability/http.rs: the `http` capability. The URL parser and the client are
-- reqwest's, the codecs postcard's, and `to_uppercase` reads the tables of Unicode: they are the
-- parameter `HttpHost`.
pub mod Domains
use Prim.Native.Char.{code}
use Prim.Native.String.{[] as nil, ◌∷◌ as cons}
use kunkka.Base.{
  ℕ, ◌+◌, String, ◌<>◌, ◌==◌, Bool, true, false, not, ◌&&◌, ◌||◌, Option, none, some, List, [], ◌∷◌,
  any, leb, ltb, nat_eq, contains, if◌then◌else◌,
}
use kunkka.Base.Fallible.{Result, ok, err, ◌>>=◌, ◌>>◌, fail_if, ok_or, map_err}
use kunkka.Ipc.{Bytes, Postcard}
use kunkka.Manifest.{AppManifest, HttpCapabilityConfig}
use kunkka.Shell.Pipeline.{CapabilityError}
use kunkka.Files.{capability_error, encode_result}

abbrev pub max_redirects : ℕ
max_redirects = 10

abbrev pub allowed_methods : List String
allowed_methods = "GET" ∷ "POST" ∷ "PUT" ∷ "PATCH" ∷ "DELETE" ∷ []

pub record HttpRequestParams : Type 0 where
  pub method : String
  pub url : String
  pub headers : List (String × String)
  pub body : Option Bytes

pub record HttpResponse : Type 0 where
  pub status_code : ℕ
  pub headers : List (String × String)
  pub body : Bytes

-- What a redirect policy says of a redirect.
pub data RedirectAction : Type 0 where
  follow stop refuse : RedirectAction

pub data SendError : Type 0 where
  timed_out : SendError
  failed : (text : String) → SendError

-- A response whose body is still to be read.
pub record RawResponse : Type 0 where
  pub status : ℕ
  pub headers : List (String × Option String)
  pub bytes : Result String Bytes

pub record HttpHost : Type 1 where
  pub Url : Type 0
  pub parse : String → Result String Url
  pub scheme : Url → String
  pub host_str : Url → Option String
  pub to_uppercase : String → String
  pub debug_methods : String
  pub params : Postcard HttpRequestParams
  pub response : Postcard HttpResponse
  -- `Client::builder()..build()` and `Method::from_bytes`, where they fail.
  pub build : Result String (Unit {0})
  pub method_from_bytes : String → Result String (Unit {0})
  -- `send` of a client with a redirect policy, which is asked with the number of the URLs before: what it
  -- answers, with the URLs that it has sent a request to.
  pub send :
      (policy : ℕ → Url → RedirectAction) (method : String) (url : Url)
      (headers : List (String × String)) (body : Option Bytes)
      → Result SendError RawResponse × List Url

abbrev to_lower : ℕ → ℕ
to_lower c = if leb b'A' c && leb c b'Z' then c + 32 else c

unfoldable pub eq_ignore_ascii_case : String → String → Bool
eq_ignore_ascii_case nil nil = true
eq_ignore_ascii_case nil (cons d t) = false
eq_ignore_ascii_case (cons c s) nil = false
eq_ignore_ascii_case (cons c s) (cons d t) =
    let rest = eq_ignore_ascii_case s t in nat_eq (to_lower (code c)) (to_lower (code d)) && rest

-- `domains.iter().any(|d| d.eq_ignore_ascii_case(host))`
unfoldable pub is_allowed_domain : List String → String → Bool
is_allowed_domain domains host = any (λ d. eq_ignore_ascii_case d host) domains

abbrev io_error : String → CapabilityError
io_error message = capability_error "io_error" message

abbrev invalid_params : String → CapabilityError
invalid_params message = capability_error "invalid_params" message

module _ (h : HttpHost) where
  unfoldable pub redirect_policy : List String → ℕ → h.Url → RedirectAction
  redirect_policy allowed_domains previous url =
      if leb max_redirects previous then stop else elim (h.host_str url) [
        | none ↦ refuse
        | some host ↦ if is_allowed_domain allowed_domains host then follow else refuse
      ]

  -- The checks before a request, which end with its URL, its method in capitals and the domains.
  pub record Checked : Type 0 where
    pub url : h.Url
    pub method : String
    pub domains : List String

  -- The part of the checks that ends with the domains of the manifest.
  unfoldable pub check_domain : AppManifest → h.Url → Result CapabilityError (List String)
  check_domain manifest url = do
    http_config ←
        ok_or manifest.capabilities.http
          (capability_error "permission_denied" "app does not have http capability configured")
    host ← ok_or (h.host_str url) (invalid_params "url has no host")
    fail_if (not (is_allowed_domain http_config.domains host))
        (capability_error "permission_denied" ("domain " <> host <> " is not in the allowed list"))
    ok http_config.domains

  abbrev build_error : String → CapabilityError
  build_error e = io_error ("failed to create http client: " <> e)

  abbrev method_error : String → CapabilityError
  method_error e = invalid_params ("invalid method: " <> e)

  -- The client and the method of the request.
  abbrev pub prepare : HttpRequestParams → Result CapabilityError (Unit {0})
  prepare params =
      map_err build_error h.build
      >> map_err method_error (h.method_from_bytes (h.to_uppercase params.method))

  abbrev pub with_domains :
      HttpRequestParams
      → h.Url
      → Result CapabilityError (List String)
      → Result CapabilityError Checked
  with_domains params url (err e) = err e
  with_domains params url (ok domains) =
      prepare params
      >> ok (record { url = url; method = h.to_uppercase params.method; domains = domains })

  -- The scheme and the method.
  abbrev pub check_scheme : HttpRequestParams → h.Url → Result CapabilityError (Unit {0})
  check_scheme params url =
      fail_if (not (h.scheme url == "http") && not (h.scheme url == "https")) (
        capability_error "scheme_not_allowed"
          ("url scheme must be http or https, got: " <> h.scheme url))
      >> fail_if (not (contains allowed_methods (h.to_uppercase params.method))) (
          invalid_params
            ("http method must be one of " <> h.debug_methods <> ", got: " <> params.method))

  unfoldable pub check_url :
      AppManifest → HttpRequestParams → h.Url → Result CapabilityError Checked
  check_url manifest params url =
      check_scheme params url >> with_domains params url (check_domain manifest url)

  unfoldable pub check_request : AppManifest → HttpRequestParams → Result CapabilityError Checked
  check_request manifest params =
      map_err (λ e. invalid_params ("invalid url: " <> e)) (h.parse params.url)
      >>= check_url manifest params

  abbrev header_value : String × Option String → String × String
  header_value (name, none) = (name, "")
  header_value (name, some value) = (name, value)

  unfoldable pub header_values : List (String × Option String) → List (String × String)
  header_values [] = []
  header_values (header ∷ rest) = header_value header ∷ header_values rest

  unfoldable pub read_response : Result SendError RawResponse → Result CapabilityError Bytes
  unfolding header_values
  read_response (err timed_out) = err (capability_error "timeout" "request timed out")
  read_response (err (failed e)) = err (io_error ("http request failed: " <> e))
  read_response (ok response) = do
    body ← map_err (λ e. io_error ("failed to read response body: " <> e)) response.bytes
    encode_result h.response (record {
      status_code = response.status;
      headers = header_values response.headers;
      body = body;
    })

  -- The answer, with the URLs that were sent a request.
  abbrev pub Answer : Type 0
  Answer = Result CapabilityError Bytes × List h.Url

  abbrev finish_send : Result SendError RawResponse × List h.Url → Answer
  finish_send (response, contacted) = (read_response response, contacted)

  unfoldable pub send_checked : HttpRequestParams → Result CapabilityError Checked → Answer
  unfolding read_response redirect_policy
  send_checked params (err e) = (err e, [])
  send_checked params (ok c) =
      finish_send (h.send (redirect_policy c.domains) c.method c.url params.headers params.body)

  unfoldable pub handle_params : AppManifest → Result CapabilityError HttpRequestParams → Answer
  unfolding send_checked
  handle_params manifest (err e) = (err e, [])
  handle_params manifest (ok params) = send_checked params (check_request manifest params)

  unfoldable pub handle_http_request : AppManifest → (method : String) (params : Bytes) → Answer
  unfolding handle_params
  handle_http_request manifest method params =
      if method == "request"
      then handle_params manifest
          (map_err (λ e. invalid_params ("invalid params: " <> e)) (h.params.from_bytes params))
      else (err (capability_error "unknown_method" ("unknown http method: " <> method)), [])
